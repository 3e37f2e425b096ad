-- ===== src/Store/Pruned.antt =====
-- `prune_empty_files` (src/file_map.rs) on a state that holds a map.
use marble.Prelude.{
  ℕ, ◌<◌, ◌≡◌, ◌≢◌, refl, sym, ◌∙◌, arith, true, false, none, some, List, [], ◌∷◌, ◌++◌, All, ok,
  ◌==◌, ==_refl, ==_iff, Bool-cases, Option-cases, inl, inr,
}
use marble.Prelude.Bytes.{Bytes}
use marble.ConcurrentMap.{lookup}
use marble.DiskLocation.{DiskLocation}
use marble.FileMap.{set_fam, drop_claims, unclaim}
use marble.FileMap.Homes.{Fams, keys, IsDescending}
use marble.FileMap.Prune.{mark_empty, prune_empty_files}
use marble.Store.{Objects, IsStore}
use marble.Store.Claimed.{claimed, get-claimed, get-claimed_ne, claimed-IsStore}
use marble.Store.Prune.{AreDistinct, ArePrunable, still_ArePrunable, remove_fams_lem}
use marble.World.{FileAndMetadata, Crates, World}

snoc-AreDistinct :
    (ls : List DiskLocation) (l : DiskLocation)
    → AreDistinct ls
    → All (λ (m : DiskLocation). l.word ≢ m.word) ls
    → AreDistinct (ls ++ (l ∷ []))
snoc-AreDistinct [] l d ne = (tt, tt)
snoc-AreDistinct (m ∷ ls) l d ne =
    (snoc_All ls d.0 (λ e. ne.0 (sym e)), snoc-AreDistinct ls l d.1 ne.1)
  where
    snoc_All :
        (rest : List DiskLocation)
        → All (λ (other : DiskLocation). m.word ≢ other.word) rest
        → m.word ≢ l.word
        → All (λ (other : DiskLocation). m.word ≢ other.word) (rest ++ (l ∷ []))
    snoc_All [] h n = (n, tt)
    snoc_All (x ∷ rest) h n = (h.0, snoc_All rest h.1 n)

-- None of the locations is a key of the files that are left.
abbrev AreBefore : List DiskLocation → List ℕ → Type 0
AreBefore ls ks = All (λ (m : DiskLocation). All (λ (k : ℕ). k ≢ m.word) ks) ls

heads_ne :
    (k : ℕ) (ks : List ℕ) (ls : List DiskLocation)
    → AreBefore ls (k ∷ ks)
    → All (λ (m : DiskLocation). k ≢ m.word) ls × AreBefore ls ks
heads_ne k ks [] h = (tt, tt)
heads_ne k ks (m ∷ ls) h = let (a, b) = heads_ne k ks ls h.1 in ((h.0.0, a), (h.0.1, b))

below_ne : (k : ℕ) (ks : List ℕ) → All (λ j. j < k) ks → All (λ j. j ≢ k) ks
below_ne k [] h = tt
below_ne k (j ∷ ks) h = (λ e. omega (arith, h.0), below_ne k ks h.1)

snoc-AreBefore :
    (ls : List DiskLocation) (l : DiskLocation) (ks : List ℕ)
    → AreBefore ls ks
    → All (λ (k : ℕ). k ≢ l.word) ks
    → AreBefore (ls ++ (l ∷ [])) ks
snoc-AreBefore [] l ks h ne = (ne, tt)
snoc-AreBefore (m ∷ ls) l ks h ne = (h.0, snoc-AreBefore ls l ks h.1 ne)

module _ {T M : Type 0} (crates : Crates T M) (objects : Objects) where
  open crates use {maps}

  -- The files of a list are in the map as the list has them.
  abbrev AreThere : World T M → Fams → Type 0
  AreThere w = All λ (p : DiskLocation × FileAndMetadata). maps.get w.fams p.0 ≡ some p.1

  still_AreThere :
      (l : DiskLocation) (w w' : World T M) (rest : Fams)
      → ((other : DiskLocation)
          → l.word ≢ other.word
          → maps.get w'.fams other ≡ maps.get w.fams other)
      → All (λ k. k < l.word) (keys rest)
      → AreThere w rest
      → AreThere w' rest
  still_AreThere l w w' [] same lt h = tt
  still_AreThere l w w' ((j, fam) ∷ rest) same lt h =
      (same j (λ e. omega (arith, lt.0)) ∙ h.0, still_AreThere l w w' rest same lt.1 h.1)

  snoc-ArePrunable :
      (w : World T M) (ls : List DiskLocation) (l : DiskLocation) (fam : FileAndMetadata)
      (path : Bytes)
      → ArePrunable crates w ls
      → maps.get w.fams l ≡ some fam
      → fam.live_objects ≡ 0
      → fam.path ≡ some path
      → ArePrunable crates w (ls ++ (l ∷ []))
  snoc-ArePrunable w [] l fam path h found empty named = ((fam, found, empty, path, named), tt)
  snoc-ArePrunable w (m ∷ ls) l fam path h found empty named =
      (h.0, snoc-ArePrunable w ls l fam path h.1 found empty named)

  -- What the first loop leaves.
  abbrev Marks : World T M → List DiskLocation → Type 0
  Marks w marked = IsStore crates objects w × ArePrunable crates w marked × AreDistinct marked

  mark_empty_lem :
      (rest : Fams) (marked : List DiskLocation) (w : World T M)
      → IsDescending (keys rest)
      → AreThere w rest
      → AreBefore marked (keys rest)
      → Marks w marked
      → (marked' : List DiskLocation) × (w' : World T M) × (mark_empty crates rest marked w
          ≡ (ok marked', w'))
        × Marks w' marked'
  unfolding mark_empty
  mark_empty_lem [] marked w d h b m = (marked, w, refl, m)
  mark_empty_lem ((l, fam) ∷ rest) marked w d h b (s, p, distinct) =
      let (ne, b') = heads_ne l.word (keys rest) marked b in
      elim (Option-cases fam.path) [
        | inl e ↦
            let (marked', w', r, m) = mark_empty_lem rest marked w d.2 h.1 b' (s, p, distinct) in
            (marked', w', rw e r, m)
        | inr (path, e) ↦ elim (Bool-cases (fam.live_objects == 0)) [
          | inr live ↦
              let (marked', w', r, m) = mark_empty_lem rest marked w d.2 h.1 b' (s, p, distinct) in
              (marked', w', rw (e, live) r, m)
          | inl dead ↦
              let w1 = set_fam crates l (claimed crates objects w l fam true s h.0) w in
              let s1 = claimed-IsStore crates objects w l fam true s h.0 in
              let same = get-claimed_ne crates objects w l fam true s h.0 in
              let h1 = still_AreThere l w w1 rest same d.1 h.1 in
              let p1 = still_ArePrunable crates l w w1 marked same ne p in
              elim (Bool-cases fam.rewrite_claim) [
                | inl taken ↦
                    let (marked', w', r, m) =
                      mark_empty_lem rest marked w1 d.2 h1 b' (s1, p1, distinct) in
                    (marked', w', rw (e, dead, taken) r, m)
                | inr free ↦
                    let (marked', w', r, m) =
                      mark_empty_lem rest (marked ++ (l ∷ [])) w1 d.2 h1
                        (snoc-AreBefore marked l (keys rest) b' (below_ne l.word (keys rest) d.1))
                        (
                          s1,
                          snoc-ArePrunable w1 marked l (claimed crates objects w l fam true s h.0)
                              path p1 (get-claimed crates objects w l fam true s h.0)
                              ((==_iff fam.live_objects 0).0 dead) e,
                          snoc-AreDistinct marked l distinct ne,
                        ) in
                    (marked', w', rw (e, dead, free) r, m)
              ]
        ]
      ]

  drop_gone :
      (marked : List DiskLocation) (w : World T M)
      → All (λ (l : DiskLocation). maps.get w.fams l ≡ none) marked
      → drop_claims crates marked w ≡ (ok tt, w)
  unfolding drop_claims unclaim
  drop_gone [] w gone = refl
  drop_gone (l ∷ ls) w gone = rw gone.0 (drop_gone ls w gone.1)

  shifted :
      (l : DiskLocation) (fam : FileAndMetadata) (es part : Fams)
      → All (λ k. k < l.word) (keys part)
      → All (λ (p : DiskLocation × FileAndMetadata). lookup p.0 es ≡ some p.1) part
      → All (λ (p : DiskLocation × FileAndMetadata). lookup p.0 ((l, fam) ∷ es) ≡ some p.1) part
  unfolding lookup
  shifted l fam es [] lt h = tt
  shifted l fam es ((j, other) ∷ part) lt h =
      let not_here : (l.word == j.word) ≡ false = ground (arith, lt.0) in
      (rw not_here h.0, shifted l fam es part lt.1 h.1)

  entries_there :
      (es : Fams)
      → IsDescending (keys es)
      → All (λ (p : DiskLocation × FileAndMetadata). lookup p.0 es ≡ some p.1) es
  unfolding lookup
  entries_there [] d = tt
  entries_there ((l, fam) ∷ es) d =
      (rw (==_refl l.word) refl, shifted l fam es es d.1 (entries_there es d.2))

  found_there :
      (w : World T M) (part : Fams)
      → All
          (λ (p : DiskLocation × FileAndMetadata). lookup p.0 (maps.entries w.fams) ≡ some p.1)
          part
      → AreThere w part
  found_there w [] h = tt
  found_there w ((l, fam) ∷ part) h = (maps.get_lem w.fams l ∙ h.0, found_there w part h.1)

  -- `prune_empty_files` on a state that holds a map, where no call of the system fails but for files that
  -- are missing: it returns, and the state still holds the same map.
  pub prune_empty_files-IsStore :
      (w : World T M)
      → IsStore crates objects w
      → (w' : World T M) × (prune_empty_files crates w ≡ (ok tt, w')) × IsStore crates objects w'
  unfolding prune_empty_files
  prune_empty_files-IsStore w s =
      let (marked, w1, e1, (s1, p, d)) =
        mark_empty_lem (maps.entries w.fams) [] w s.descending
          (found_there w (maps.entries w.fams) (entries_there (maps.entries w.fams) s.descending))
          tt (s, tt, tt) in
      let (w2, e2, s2, gone, same) = remove_fams_lem crates objects marked w1 s1 d p in
      (w2, rw (e1, e2, drop_gone marked w2 gone) refl, s2)

-- ===== src/WritePath/Install/Undo.antt =====
-- What is left of an installation after `write_batch_inner` (src/writepath.rs) has undone it, because
-- the file could not be finished.
use marble.Prelude.{
  ℕ, ◌+◌, ◌*◌, ◌^◌, ◌<◌, ◌≡◌, refl, sym, ap, subst, ◌∙◌, arith, Option, none, some, [], ◌∷◌, All,
  ok, inl, inr, ◌==◌, ==_iff, if◌then◌else◌, Bool-cases, Option-cases,
}
use marble.Prelude.Assoc.{Assoc, lookup, Distinct, Fresh, lookup-Fresh, lookup-entries}
use marble.DiskLocation
use marble.DiskLocation.{DiskLocation}
use marble.DiskLocation.Laws.{absolute, to_absolute_lem}
use marble.LocationTable
use marble.LocationTable.Laws.{Updated}
use marble.LocationTable.Races.{cas_from}
use marble.PageTable.{PageTable}
use marble.RelativeDiskLocation.{RelativeDiskLocation}
use marble.Trailer.{Locations}
use marble.WritePath.Install.{Installed, nothing_installed, install, undo}
use marble.WritePath.Install.Exact.{Newer, installed_word, replaced, install_lem}

module _ {T : Type 0} (pages : PageTable T) (base_lsn : ℕ) (locations : Locations) where
  open pages use {get}

  -- The table has the new location of each id.
  abbrev HasNew : T → Assoc DiskLocation → Type 0
  HasNew t = All λ (p : ℕ × DiskLocation).
      (r : RelativeDiskLocation) × (lookup p.0 locations ≡ some r)
      × (get t p.0 ≡ base_lsn * 2 + r.word)
      × (0 < base_lsn * 2 + r.word)
      × (base_lsn * 2 + r.word < 2 ^ 64)

  abbrev old_word : Option DiskLocation → ℕ → ℕ
  old_word none w = w
  old_word (some old) w = old.word

  HasNew-Updated :
      (t t' : T) (id w : ℕ) (olds : Assoc DiskLocation)
      → Updated pages t id w t'
      → Fresh id olds
      → HasNew t olds
      → HasNew t' olds
  HasNew-Updated t t' id w [] u f h = tt
  HasNew-Updated t t' id w ((j, l) ∷ olds) u f h = (
    (h.0.0, h.0.1, ground (arith, u j, f.0, h.0.2), h.0.3, h.0.4),
    HasNew-Updated t t' id w olds u f.1 h.1,
  )

  old_word-cons :
      (k id w w' : ℕ) (old : DiskLocation) (olds : Assoc DiskLocation)
      → Fresh id olds
      → w' ≡ (if id == k then old.word else w)
      → old_word (lookup k olds) w' ≡ old_word (lookup k ((id, old) ∷ olds)) w
  unfolding lookup
  old_word-cons k id w w' old olds f e = elim (Bool-cases (id == k)) [
    | inl same ↦
        let gone : lookup k olds ≡ none =
          lookup-Fresh k olds (subst (λ j. Fresh j olds) ((==_iff id k).0 same) f) in
        rw (gone, same, e, same) refl
    | inr other ↦ rw (other, e, other) refl
  ]

  undo_lem :
      (t : T) (olds : Assoc DiskLocation)
      → Distinct olds
      → HasNew t olds
      → (t' : T) × (undo pages base_lsn locations t olds ≡ ok t')
        × ((k : ℕ) → get t' k ≡ old_word (lookup k olds) (get t k))
  unfolding undo lookup
  undo_lem t [] d h = (t, refl, λ k. refl)
  undo_lem t ((id, old) ∷ olds) d ((r, found, at, p, fits), h) =
      let (t1, e1, u) = cas_from pages t id (absolute base_lsn r) old at in
      let (t2, e2, at2) = undo_lem t1 olds d.1 (HasNew-Updated t t1 id old.word olds u d.0 h) in
      (
        t2,
        rw (undo, found, to_absolute_lem r base_lsn p fits, e1) e2,
        λ k. at2 k ∙ old_word-cons k id (get t k) (get t1 k) old olds d.0 (u k),
      )

  replaced-Fresh :
      (t : T) (k : ℕ) (part : Locations) → Fresh k part → Fresh k (replaced pages base_lsn t part)
  unfolding replaced
  replaced-Fresh t k [] f = tt
  replaced-Fresh t k ((id, r) ∷ part) f = elim (Option-cases (LocationTable.load pages t id)) [
    | inl e ↦ rw e (replaced-Fresh t k part f.1)
    | inr (old, e) ↦ rw e (f.0, replaced-Fresh t k part f.1)
  ]

  replaced-Distinct :
      (t : T) (part : Locations) → Distinct part → Distinct (replaced pages base_lsn t part)
  unfolding replaced
  replaced-Distinct t [] d = tt
  replaced-Distinct t ((id, r) ∷ part) d = elim (Option-cases (LocationTable.load pages t id)) [
    | inl e ↦ rw e (replaced-Distinct t part d.1)
    | inr (old, e) ↦ rw e (replaced-Fresh t id part d.0, replaced-Distinct t part d.1)
  ]

  abbrev only_if : Option RelativeDiskLocation → Option DiskLocation → Option DiskLocation
  only_if none o = none
  only_if (some _) o = o

  lookup-replaced :
      (t : T) (k : ℕ) (part : Locations)
      → Distinct part
      → lookup k (replaced pages base_lsn t part)
        ≡ only_if (lookup k part) (LocationTable.load pages t k)
  unfolding replaced lookup
  lookup-replaced t k [] d = refl
  lookup-replaced t k ((id, r) ∷ part) d = elim (Bool-cases (id == k)) [
    | inl same ↦
        let eq : id ≡ k = (==_iff id k).0 same in
        let gone : lookup k (replaced pages base_lsn t part) ≡ none =
          lookup-Fresh k (replaced pages base_lsn t part)
            (replaced-Fresh t k part (subst (λ j. Fresh j part) eq d.0)) in
        elim (Option-cases (LocationTable.load pages t id)) [
          | inl e ↦ rw (e, same, gone) (sym (rw⁻¹ eq e))
          | inr (old, e) ↦
              rw (e, same) (sym (subst (λ j. LocationTable.load pages t j ≡ some old) eq e))
        ]
    | inr other ↦ elim (Option-cases (LocationTable.load pages t id)) [
      | inl e ↦ rw (e, other) (lookup-replaced t k part d.1)
      | inr (old, e) ↦ rw (e, other) (lookup-replaced t k part d.1)
    ]
  ]

  replaced-HasNew :
      (t t1 : T) (part : Locations)
      → ((k : ℕ) → get t1 k ≡ installed_word pages base_lsn (lookup k locations) (get t k))
      → All (λ (p : ℕ × RelativeDiskLocation). lookup p.0 locations ≡ some p.1) part
      → Newer pages base_lsn t part
      → HasNew t1 (replaced pages base_lsn t part)
  unfolding replaced
  replaced-HasNew t t1 [] at found n = tt
  replaced-HasNew t t1 ((id, r) ∷ part) at found n =
      elim (Option-cases (LocationTable.load pages t id)) [
        | inl e ↦ rw e (replaced-HasNew t t1 part at found.1 n.1)
        | inr (old, e) ↦ rw e (
          (
            r,
            found.0,
            at id ∙ ap (λ o. installed_word pages base_lsn o (get t id)) found.0,
            omega (arith, n.0.0),
            n.0.1,
          ),
          replaced-HasNew t t1 part at found.1 n.1,
        )
      ]

  undone :
      (t : T) (k w : ℕ) (o : Option RelativeDiskLocation)
      → w ≡ installed_word pages base_lsn o (get t k)
      → old_word (only_if o (LocationTable.load pages t k)) w
        ≡ (if get t k == 0 then installed_word pages base_lsn o 0 else get t k)
  unfolding LocationTable.load DiskLocation.from_raw
  undone t k w none e = ground (arith, e)
  undone t k w (some r) e = ground (arith, e)

  -- A batch of distinct ids is installed over earlier locations, and then undone because its file could
  -- not be finished. Each id that had a location before has that location again, and so has every id
  -- that is not in the batch. But an id of the batch that had none keeps the location in the new file,
  -- which is removed.
  pub install-undo :
      (t : T)
      → Distinct locations
      → Newer pages base_lsn t locations
      → (t1 t2 : T) × (done : Installed) × (install pages [] base_lsn t locations nothing_installed
          ≡ ok (t1, done))
        × (undo pages base_lsn locations t1 done.replaced_locations ≡ ok t2)
        × ((k : ℕ)
            → get t2 k ≡ (
                if get t k == 0
                then installed_word pages base_lsn (lookup k locations) 0
                else get t k))
  install-undo t d n =
      let (t1, e1, at1) = install_lem pages base_lsn t locations nothing_installed d n in
      let olds = replaced pages base_lsn t locations in
      let (t2, e2, at2) =
        undo_lem t1 olds (replaced-Distinct t locations d)
          (replaced-HasNew t t1 locations at1 (lookup-entries locations d) n) in
      (
        t1,
        t2,
        _,
        e1,
        e2,
        λ k.
            at2 k
            ∙ ap (λ o. old_word o (get t1 k)) (lookup-replaced t k locations d)
            ∙ undone t k (get t1 k) (lookup k locations) (at1 k),
      )

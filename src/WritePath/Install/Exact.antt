-- ===== src/WritePath/Install/Exact.antt =====
-- What step 3 of `write_batch_inner` (src/writepath.rs) does to the location table for a user's batch
-- whose locations are later than those of the table.
use marble.Prelude.{
  ℕ, ◌+◌, ◌*◌, ◌^◌, ◌<◌, ◌≡◌, refl, ap, subst, ◌∙◌, arith, Option, none, some, [], ◌∷◌, ◌++◌,
  append_assoc, append-nil, All, ok, inl, inr, ◌==◌, ==_iff, if◌then◌else◌, Bool-cases,
}
use marble.Prelude.Assoc.{Assoc, lookup, Distinct, Fresh, lookup-Fresh}
use marble.DiskLocation
use marble.DiskLocation.{DiskLocation}
use marble.DiskLocation.Laws.{absolute, to_absolute_lem}
use marble.LocationTable
use marble.LocationTable.Laws.{fetch_max_cases, Updated}
use marble.PageTable.{PageTable}
use marble.RelativeDiskLocation.{RelativeDiskLocation}
use marble.Trailer.{Locations}
use marble.WritePath.Install.{Installed, after_fetch_max, install_one, install}

module _ {T : Type 0} (pages : PageTable T) (base_lsn : ℕ) where
  open pages use {get}

  -- Each location fits a word, and is later than what the table has.
  abbrev pub Newer : T → Locations → Type 0
  Newer t = All λ (p : ℕ × RelativeDiskLocation).
      (get t p.0 < base_lsn * 2 + p.1.word) × (base_lsn * 2 + p.1.word < 2 ^ 64)

  -- The entry of an id after its relative location was installed, if it has one.
  abbrev pub installed_word : Option RelativeDiskLocation → ℕ → ℕ
  installed_word none old = old
  installed_word (some r) old = base_lsn * 2 + r.word

  abbrev pub prepend_old : ℕ → Option DiskLocation → Assoc DiskLocation → Assoc DiskLocation
  prepend_old id none olds = olds
  prepend_old id (some old) olds = (id, old) ∷ olds

  -- The locations that are replaced.
  unfoldable pub replaced : T → Locations → Assoc DiskLocation
  replaced t [] = []
  replaced t ((id, r) ∷ rest) = prepend_old id (LocationTable.load pages t id) (replaced t rest)

  Newer-Updated :
      (t t' : T) (id w : ℕ) (rest : Locations)
      → Updated pages t id w t'
      → Fresh id rest
      → Newer t rest
      → Newer t' rest
  Newer-Updated t t' id w [] u f n = tt
  Newer-Updated t t' id w ((j, r) ∷ rest) u f n =
      (ground (arith, u j, f.0, n.0.0, n.0.1), Newer-Updated t t' id w rest u f.1 n.1)

  load-eq :
      (t t' : T) (j : ℕ)
      → get t' j ≡ get t j
      → LocationTable.load pages t' j ≡ LocationTable.load pages t j
  unfolding LocationTable.load
  load-eq t t' j e = ap DiskLocation.from_raw e

  replaced-Updated :
      (t t' : T) (id w : ℕ) (rest : Locations)
      → Updated pages t id w t'
      → Fresh id rest
      → replaced t' rest ≡ replaced t rest
  unfolding replaced
  replaced-Updated t t' id w [] u f = refl
  replaced-Updated t t' id w ((j, r) ∷ rest) u f =
      ap (prepend_old j (LocationTable.load pages t' j)) (replaced-Updated t t' id w rest u f.1)
      ∙ ap (λ o. prepend_old j o (replaced t rest)) (load-eq t t' j (ground (arith, u j, f.0)))

  -- One install of a later location.
  install_one_lem :
      (t : T) (id : ℕ) (l : DiskLocation) (done : Installed)
      → get t id < l.word
      → (t' : T) × (install_one pages [] t id l done
          ≡ ok (t', after_fetch_max id done (inl (LocationTable.load pages t id))))
        × Updated pages t id l.word t'
  unfolding install_one lookup
  install_one_lem t id l done lt = elim (fetch_max_cases pages t id l) [
    | inl (_, (t', e, u)) ↦ (t', rw e refl, u)
    | inr (inl (gt, _)) ↦ absurd (omega arith)
    | inr (inr (eq, _)) ↦ absurd (omega arith)
  ]

  -- The result of the installation, with what it adds to the replaced locations.
  abbrev pub with_replaced : Installed → Assoc DiskLocation → Installed
  with_replaced done olds = record done { replaced_locations = done.replaced_locations ++ olds }

  with_replaced-after :
      (id : ℕ) (done : Installed) (o : Option DiskLocation) (olds : Assoc DiskLocation)
      → with_replaced (after_fetch_max id done (inl o)) olds
        ≡ with_replaced done (prepend_old id o olds)
  with_replaced-after id done none olds = refl
  with_replaced-after id done (some old) olds =
      ap (λ l. record done { replaced_locations = l })
        (append_assoc done.replaced_locations ((id, old) ∷ []) olds)

  pub installed_word-cons :
      (k id old new : ℕ) (r : RelativeDiskLocation) (rest : Locations)
      → Fresh id rest
      → new ≡ (if id == k then base_lsn * 2 + r.word else old)
      → installed_word (lookup k rest) new ≡ installed_word (lookup k ((id, r) ∷ rest)) old
  unfolding lookup
  installed_word-cons k id old new r rest f e = elim (Bool-cases (id == k)) [
    | inl same ↦
        let gone : lookup k rest ≡ none =
          lookup-Fresh k rest (subst (λ j. Fresh j rest) ((==_iff id k).0 same) f) in
        rw (gone, same, e, same) refl
    | inr other ↦ rw (other, e, other) refl
  ]

  pub install_lem :
      (t : T) (locations : Locations) (done : Installed)
      → Distinct locations
      → Newer t locations
      → (t' : T) × (install pages [] base_lsn t locations done
          ≡ ok (t', with_replaced done (replaced t locations)))
        × ((k : ℕ) → get t' k ≡ installed_word (lookup k locations) (get t k))
  unfolding install replaced lookup
  install_lem t [] done d n = (t, rw (append-nil done.replaced_locations) refl, λ k. refl)
  install_lem t ((id, r) ∷ rest) done d n =
      let (t1, e1, u) = install_one_lem t id (absolute base_lsn r) done n.0.0 in
      let done1 = after_fetch_max id done (inl (LocationTable.load pages t id)) in
      let (t2, e2, at) =
        install_lem t1 rest done1 d.1
          (Newer-Updated t t1 id (base_lsn * 2 + r.word) rest u d.0 n.1) in
      (
        t2,
        rw (to_absolute_lem r base_lsn (omega (arith, n.0.0)) n.0.1, e1, e2)
            (ap (λ i. ok (t2, i))
              (ap (with_replaced done1)
                  (replaced-Updated t t1 id (base_lsn * 2 + r.word) rest u d.0)
                ∙ with_replaced-after id done (LocationTable.load pages t id) (replaced t rest))),
        λ k. at k ∙ installed_word-cons k id (get t k) (get t1 k) r rest d.0 (u k),
      )

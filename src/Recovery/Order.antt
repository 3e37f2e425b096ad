-- ===== src/Recovery/Order.antt =====
-- Which location `open` (src/recovery.rs) gives an object that several files have: the trailers go into
-- the page table in the order of the log.
use marble.Prelude.{
  ℕ, ◌+◌, ◌*◌, ◌%◌, ◌^◌, ◌<◌, ◌≡◌, refl, ap, sym, ◌∙◌, arith, true, false, Option, none, some, [],
  ◌∷◌, All, ok, lt→ltb, Option-cases, inl, inr, Bool-cases, ==_iff, ==_refl, subst, ◌==◌,
}
use marble.Prelude.Assoc.{
  Assoc, lookup, insert, lookup-insert, Distinct, Distinct-insert, Fresh, lookup-Fresh,
}
use marble.DiskLocation
use marble.DiskLocation.{DiskLocation}
use marble.DiskLocation.Laws.{absolute, to_absolute_lem, parts}
use marble.FileMap.{assign_lsn}
use marble.FileMap.Lsn.{mask-lt, batch_lsn, copy_lsn}
use marble.Recovery.Directory.{masked_lsn}
use marble.Recovery.Locations.{recover_one, recover_locations}
use marble.RelativeDiskLocation.{RelativeDiskLocation}
use marble.Trailer.{Locations}

-- The position of a location in the log.
abbrev pub log_position : DiskLocation → ℕ
log_position l = masked_lsn (DiskLocation.lsn l)

-- The location is later in the log than the one that the table has for the id.
abbrev pub IsLater : ℕ → DiskLocation → Assoc DiskLocation → Type 0
IsLater id l table =
    (old : DiskLocation) → lookup id table ≡ some old → log_position old < log_position l

recover_one_lem :
    (id : ℕ) (l : DiskLocation) (table : Assoc DiskLocation)
    → IsLater id l table
    → recover_one id l table ≡ ok (insert id l table)
unfolding recover_one
recover_one_lem id l table later = elim (Option-cases (lookup id table)) [
  | inl e ↦ rw (recover_one, e) refl
  | inr (old, e) ↦
      rw (recover_one, e, lt→ltb (log_position old) (log_position l) (later old e)) refl
]

-- The locations of a file fit 64 bits, and are later than what the table has.
abbrev pub Follow : ℕ → Assoc DiskLocation → Locations → Type 0
Follow lsn table = All λ (p : ℕ × RelativeDiskLocation).
    (0 < lsn * 2 + p.1.word) × (lsn * 2 + p.1.word < 2 ^ 64) × IsLater p.0 (absolute lsn p.1) table

Follow-insert :
    (lsn id : ℕ) (l : DiskLocation) (table : Assoc DiskLocation) (locations : Locations)
    → Fresh id locations
    → Follow lsn table locations
    → Follow lsn (insert id l table) locations
Follow-insert lsn id l table [] fresh follow = tt
Follow-insert lsn id l table ((j, r) ∷ rest) fresh follow = (
  (
    follow.0.0,
    follow.0.1,
    λ old e. follow.0.2 old (ground (arith, lookup-insert id j l table, fresh.0, e)),
  ),
  Follow-insert lsn id l table rest fresh.1 follow.1,
)

-- What the table has after the trailer of a file: the trailer's location, or else its own.
abbrev pub newest : ℕ → Option RelativeDiskLocation → Option DiskLocation → Option DiskLocation
newest lsn none old = old
newest lsn (some r) old = some (absolute lsn r)

newest_step :
    (lsn id k : ℕ) (r : RelativeDiskLocation) (rest : Locations) (table : Assoc DiskLocation)
    → Fresh id rest
    → newest lsn (lookup k rest) (lookup k (insert id (absolute lsn r) table))
      ≡ newest lsn (lookup k ((id, r) ∷ rest)) (lookup k table)
unfolding lookup
newest_step lsn id k r rest table fresh =
    rw (lookup-insert id k (absolute lsn r) table) (elim (Bool-cases (id == k)) [
      | inl e ↦
          rw (e, ap (λ j. lookup j rest) (sym ((==_iff id k).0 e)), lookup-Fresh id rest fresh) refl
      | inr e ↦ rw e refl
    ])

-- What the loop over a trailer gives, and what becomes of a table that has no id twice.
pub recover_locations-steps :
    (lsn : ℕ) (locations : Locations) (table : Assoc DiskLocation)
    → Distinct locations
    → Follow lsn table locations
    → (table' : Assoc DiskLocation) × (recover_locations lsn locations table ≡ ok table')
      × ((k : ℕ) → lookup k table' ≡ newest lsn (lookup k locations) (lookup k table))
      × (Distinct table → Distinct table')
unfolding recover_locations lookup
recover_locations-steps lsn [] table distinct follow = (table, refl, λ k. refl, λ d. d)
recover_locations-steps lsn ((id, r) ∷ rest) table distinct follow =
    let (table', e, at, kept) =
      recover_locations-steps lsn rest (insert id (absolute lsn r) table) distinct.1
        (Follow-insert lsn id (absolute lsn r) table rest distinct.0 follow.1) in
    (
      table',
      rw
          (
            to_absolute_lem r lsn follow.0.0 follow.0.1,
            recover_one_lem id (absolute lsn r) table follow.0.2,
          )
          e,
      λ k. at k ∙ newest_step lsn id k r rest table distinct.0,
      λ d. kept (Distinct-insert id (absolute lsn r) table d),
    )

-- A trailer that has no id twice, and whose locations follow those of the table in the log, is
-- recovered without a panic. Then the table has the trailer's location for each id of the trailer, and
-- its own for every other id.
pub recover_locations-newest :
    (lsn : ℕ) (locations : Locations) (table : Assoc DiskLocation)
    → Distinct locations
    → Follow lsn table locations
    → (table' : Assoc DiskLocation) × (recover_locations lsn locations table ≡ ok table')
      × ((k : ℕ) → lookup k table' ≡ newest lsn (lookup k locations) (lookup k table))
recover_locations-newest lsn locations table distinct follow =
    let (table', e, at, kept) = recover_locations-steps lsn locations table distinct follow in
    (table', e, at)

log_position_lem :
    (n : ℕ) (l : DiskLocation) → n < 2 ^ 63 → l.word ≡ n * 2 → log_position l ≡ n % 2 ^ 62
unfolding masked_lsn
log_position_lem n l h e = rw ((parts n false l e).0) (mask-lt n h)

-- The location of an object at an offset.
abbrev pub at_offset : ℕ → RelativeDiskLocation
at_offset o = record { word = o * 2 }

batch_position :
    (base o : ℕ)
    → base + o < 2 ^ 62
    → log_position (absolute (base + 2 ^ 62) (at_offset o)) ≡ base + o
batch_position base o h =
    log_position_lem (base + 2 ^ 62 + o) (absolute (base + 2 ^ 62) (at_offset o)) (omega arith)
      (omega arith)
    ∙ omega arith

copy_position :
    (base o : ℕ) → base + o < 2 ^ 62 → log_position (absolute base (at_offset o)) ≡ base + o
copy_position base o h =
    log_position_lem (base + o) (absolute base (at_offset o)) (omega arith) (omega arith)
    ∙ omega arith

lookup_head : (id : ℕ) (r : RelativeDiskLocation) → lookup id ((id, r) ∷ []) ≡ some r
unfolding lookup
lookup_head id r = rw (==_refl id) refl

pub IsLater-none :
    (id : ℕ) (l : DiskLocation) (table : Assoc DiskLocation)
    → lookup id table ≡ none
    → IsLater id l table
IsLater-none id l table e old f = cc

pub IsLater-some :
    (id : ℕ) (l m : DiskLocation) (table : Assoc DiskLocation)
    → lookup id table ≡ some m
    → log_position m < log_position l
    → IsLater id l table
IsLater-some id l m table e lt old f =
    let same : m ≡ old = cc in subst (λ x. log_position x < log_position l) same lt

recover_locations-one :
    (lsn id : ℕ) (r : RelativeDiskLocation) (table : Assoc DiskLocation)
    → 0 < lsn * 2 + r.word
    → lsn * 2 + r.word < 2 ^ 64
    → IsLater id (absolute lsn r) table
    → (table' : Assoc DiskLocation) × (recover_locations lsn ((id, r) ∷ []) table ≡ ok table')
      × (lookup id table' ≡ some (absolute lsn r))
recover_locations-one lsn id r table p h later =
    let (table', e, at) =
      recover_locations-newest lsn ((id, r) ∷ []) table (tt, tt) ((p, h, later), tt) in
    (table', e, at id ∙ ap (λ o. newest lsn o (lookup id table)) (lookup_head id r))

-- A user's batch and a maintenance run each write a version of one object, and the maintenance file
-- comes later in the log. The batch's location is the greater word, with which it wins in the location
-- table. But where the trailers are recovered in the order of the log, nothing panics, and the page
-- table ends with the maintenance file's version. This is so where the page table has no location of
-- the object before, the log does not begin at 0 and it is shorter than 2 ^ 62.
pub recover_locations-late_copy :
    (base base' o o' id : ℕ) (table : Assoc DiskLocation)
    → 0 < base
    → base + o < base'
    → base' + o' < 2 ^ 62
    → lookup id table ≡ none
    → ((absolute (assign_lsn base' true) (at_offset o')).word
        < (absolute (assign_lsn base false) (at_offset o)).word)
      × ((t1 t2 : Assoc DiskLocation) × (recover_locations
              (assign_lsn base false)
              ((id, at_offset o) ∷ [])
              table
            ≡ ok t1)
          × (recover_locations (assign_lsn base' true) ((id, at_offset o') ∷ []) t1 ≡ ok t2)
          × (lookup id t2 ≡ some (absolute (assign_lsn base' true) (at_offset o'))))
recover_locations-late_copy base base' o o' id table p lt h fresh =
    rw (copy_lsn base', batch_lsn base (omega arith))
      (let write = absolute (base + 2 ^ 62) (at_offset o) in
        let (t1, e1, at1) =
          recover_locations-one (base + 2 ^ 62) id (at_offset o) table (omega arith) (omega arith)
            (IsLater-none id write table fresh) in
        let (t2, e2, at2) =
          recover_locations-one base' id (at_offset o') t1 (omega arith) (omega arith) (
            IsLater-some id (absolute base' (at_offset o')) write t1 at1 (
              omega (
                arith,
                batch_position base o (omega arith),
                copy_position base' o' (omega arith),
              ))) in
        (omega arith, (t1, t2, e1, e2, at2)))

-- ===== src/LocationTable/Races.antt =====
-- Threads that write the location table at once, as the sequences in which their accesses happen:
-- step 3 of `write_batch_inner` in src/writepath.rs, which installs new writes by `fetch_max` and
-- the copies of a maintenance run by `cas`.
use marble.Prelude.{
  ℕ, ◌<◌, max, Option, some, inl, inr, ◌⊎◌, ltb, lt→ltb, Bool-cases, Outcome, ok, ◌≡◌, ◌≢◌, refl,
  arith, ◌==◌, if◌then◌else◌, List, [], ◌∷◌, ◌>>=◌, All,
}
use marble.DiskLocation
use marble.DiskLocation.{DiskLocation}
use marble.LocationTable
use marble.LocationTable.Laws.{fetch_max_cases, cas_cases, Updated, Unchanged}
use marble.PageTable.{PageTable}

abbrev pub Install : Type 0
Install = ℕ × DiskLocation

-- The greatest location that the installs give to `k`, as a word.
abbrev pub greatest : ℕ → List Install → ℕ
greatest k [] = 0
greatest k ((id, l) ∷ es) = if id == k then max l.word (greatest k es) else greatest k es

-- `Ok` of the former location is `inl`, and `Err` of the one that stays is `inr`.
abbrev pub Result : Type 0
Result = Option DiskLocation ⊎ Option DiskLocation

-- What an install of `l` returns where `m` is the greatest word so far.
abbrev pub result_over : ℕ → DiskLocation → Result
result_over m l =
    if ltb m l.word then inl (DiskLocation.from_raw m) else inr (DiskLocation.from_raw m)

-- What each install returns, where `held` has the words from before all of them and `before` the
-- earlier installs.
abbrev pub results_over : (ℕ → ℕ) → List Install → List Install → List Result
results_over held before [] = []
results_over held before ((id, l) ∷ es) =
    result_over (max (held id) (greatest id before)) l ∷ results_over held ((id, l) ∷ before) es

-- An install that writes a word of its own.
abbrev pub Apart : Install → Install → Type 0
Apart e f = e.1.word ≢ f.1.word

abbrev pub AllApart : List Install → Type 0
AllApart [] = Unit
AllApart (e ∷ es) = All (Apart e) es × AllApart es

module _ {T : Type 0} (pages : PageTable T) where
  open pages use {get}

  -- The table after all installs, and what each of them returned.
  pub install_all : T → List Install → Outcome (T × List Result)
  install_all t [] = ok (t, [])
  install_all t ((id, l) ∷ es) = do
    (t', result) ← LocationTable.fetch_max pages t id l
    (t'', results) ← install_all t' es
    ok (t'', result ∷ results)

  abbrev pub Unwritten : T → List Install → Type 0
  Unwritten t = All (λ (e : Install). get t e.0 ≢ e.1.word)

  -- The install at the head leaves the others unwritten.
  Unwritten-Updated :
      (t t' : T) (id : ℕ) (l : DiskLocation) (es : List Install)
      → Updated pages t id l.word t'
      → All (Apart (id, l)) es
      → Unwritten t es
      → Unwritten t' es
  Unwritten-Updated t t' id l [] u a h = tt
  Unwritten-Updated t t' id l ((j, m) ∷ es) u a h =
      (ground (arith, u j, a.0, h.0), Unwritten-Updated t t' id l es u a.1 h.1)

  Unwritten-Unchanged :
      (t t' : T) (es : List Install) → Unchanged pages t t' → Unwritten t es → Unwritten t' es
  Unwritten-Unchanged t t' [] u h = tt
  Unwritten-Unchanged t t' ((j, m) ∷ es) u h =
      (ground (arith, u j, h.0), Unwritten-Unchanged t t' es u h.1)

  result-later :
      (t : T) (id m : ℕ) (l : DiskLocation)
      → get t id ≡ m
      → m < l.word
      → inl (LocationTable.load pages t id) ≡ result_over m l
  unfolding LocationTable.load
  result-later t id m l at lt = rw (at, lt→ltb m l.word lt) refl

  result-earlier :
      (t : T) (id m : ℕ) (l : DiskLocation)
      → get t id ≡ m
      → l.word < m
      → inr (LocationTable.load pages t id) ≡ result_over m l
  unfolding LocationTable.load
  result-earlier t id m l at lt = elim (Bool-cases (ltb m l.word)) [
    | inl e ↦ absurd (ground arith)
    | inr e ↦ rw (at, e) refl
  ]

  install_all-after :
      (held : ℕ → ℕ) (before : List Install) (t : T) (es : List Install)
      → ((k : ℕ) → get t k ≡ max (held k) (greatest k before))
      → Unwritten t es
      → AllApart es
      → (t' : T) × (install_all t es ≡ ok (t', results_over held before es))
        × ((k : ℕ) → get t' k ≡ max (get t k) (greatest k es))
  unfolding install_all
  install_all-after held before t [] at h a = (t, refl, λ k. omega arith)
  install_all-after held before t ((id, l) ∷ es) at h a = elim (fetch_max_cases pages t id l) [
    | inl (lt, (t1, e, u)) ↦
        let (t', r, g) =
          install_all-after held ((id, l) ∷ before) t1 es
            (λ k. ground (arith, u k, at k, at id, lt)) (Unwritten-Updated t t1 id l es u a.0 h.1)
            a.1 in
        let here = result-later t id _ l (at id) (rw (at id) at lt) in
        (t', rw (e, r, here) refl, λ k. ground (arith, u k, g k))
    | inr (inl (lt, (t1, e, u))) ↦
        let (t', r, g) =
          install_all-after held ((id, l) ∷ before) t1 es
            (λ k. ground (arith, u k, at k, at id, lt)) (Unwritten-Unchanged t t1 es u h.1) a.1 in
        let here = result-earlier t id _ l (at id) (rw (at id) at lt) in
        (t', rw (e, r, here) refl, λ k. ground (arith, u k, g k))
    | inr (inr (eq, p)) ↦ absurd (h.0 eq)
  ]

  -- Installs by `fetch_max` in any order, where no two give the same word and none gives the word
  -- that is there. None panics. An install returns `Ok` if its word is greater than the one held
  -- at first and than those of the earlier installs of its id, and `Err` otherwise, each with the greatest
  -- location so far. In the end each entry is the greatest word given or held.
  pub install_all-greatest :
      (t : T) (es : List Install)
      → Unwritten t es
      → AllApart es
      → (t' : T) × (install_all t es ≡ ok (t', results_over (get t) [] es))
        × ((k : ℕ) → get t' k ≡ max (get t k) (greatest k es))
  install_all-greatest t es h a = install_all-after (get t) [] t es (λ k. omega arith) h a

module _ {T : Type 0} (pages : PageTable T) where
  open pages use {get}

  pub load_word :
      (t : T) (id : ℕ) (l : DiskLocation)
      → get t id ≡ l.word
      → 0 < l.word
      → LocationTable.load pages t id ≡ some l
  unfolding LocationTable.load DiskLocation.from_raw
  load_word t id l e p = ground arith

module _ {T : Type 0} (pages : PageTable T) where
  open pages use {get}

  -- A later location than the one that is there goes in.
  fetch_max_later :
      (t : T) (id : ℕ) (old l : DiskLocation)
      → get t id ≡ old.word
      → 0 < old.word
      → old.word < l.word
      → (t' : T) × (LocationTable.fetch_max pages t id l ≡ ok (t', inl (some old)))
        × Updated pages t id l.word t'
  fetch_max_later t id old l at p lt = elim (fetch_max_cases pages t id l) [
    | inl (_, (t', e, u)) ↦ (t', cc (e, load_word pages t id old at p), u)
    | inr (inl (gt, _)) ↦ absurd (omega arith)
    | inr (inr (eq, _)) ↦ absurd (omega arith)
  ]

  -- A `cas` from the location that is there succeeds; from another one it is refused.
  pub cas_from :
      (t : T) (id : ℕ) (old new : DiskLocation)
      → get t id ≡ old.word
      → (t' : T) × (LocationTable.cas pages t id old new ≡ ok (t', inl tt))
        × Updated pages t id new.word t'
  cas_from t id old new at = elim (cas_cases pages t id old new) [
    | inl (_, r) ↦ r
    | inr (inl (ne, _)) ↦ absurd (ne at)
    | inr (inr (ne, _, _)) ↦ absurd (ne at)
  ]

  cas_past :
      (t : T) (id : ℕ) (old new current : DiskLocation)
      → get t id ≡ current.word
      → 0 < current.word
      → current.word ≢ old.word
      → LocationTable.cas pages t id old new ≡ ok (t, inr current)
  unfolding LocationTable.cas DiskLocation.from_raw DiskLocation.to_raw
  cas_past t id old new current at p ne = ground arith

  -- A maintenance run moves `old` to `copy` while a write batch installs `write`, which is a greater
  -- word than both. If the batch comes second, it replaces the copy and is told so. If it comes first, it
  -- replaces `old`, and the copy is refused. Either way the entry ends at the batch's location and
  -- every other entry is as before.
  pub batch_wins :
      (t : T) (id : ℕ) (old copy write : DiskLocation)
      → get t id ≡ old.word
      → 0 < old.word
      → 0 < copy.word
      → old.word < write.word
      → copy.word < write.word
      → ((t1 t' : T) × (LocationTable.cas pages t id old copy ≡ ok (t1, inl tt))
          × (LocationTable.fetch_max pages t1 id write ≡ ok (t', inl (some copy)))
          × Updated pages t id write.word t')
        × ((t' : T) × (LocationTable.fetch_max pages t id write ≡ ok (t', inl (some old)))
            × (LocationTable.cas pages t' id old copy ≡ ok (t', inr write))
            × Updated pages t id write.word t')
  batch_wins t id old copy write at po pc lo lc =
      let (t1, e1, u1) = cas_from t id old copy at in
      let (t2, e2, u2) = fetch_max_later t1 id copy write (ground (arith, u1 id)) pc lc in
      let (t3, e3, u3) = fetch_max_later t id old write at po lo in
      (
        (t1, t2, e1, e2, λ j. ground (arith, u1 j, u2 j)),
        (
          t3,
          e3,
          cas_past t3 id old copy write (ground (arith, u3 id)) (omega arith) (omega arith),
          u3,
        ),
      )

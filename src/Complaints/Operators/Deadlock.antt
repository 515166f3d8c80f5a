-- ===== src/Complaints/Operators/Deadlock.antt =====
-- The operators never block each other for good, and their work comes to an end.
use civic_pulse_24i3089_24i.Prelude.{
  ℕ, zero, suc, ◌+◌, ◌*◌, ◌≤◌, ◌<◌, ◌≡◌, refl, ap, inl, inr, true, false, List, arith, ◌==◌,
  Bool-cases, Option-cases,
}
use civic_pulse_24i3089_24i.Domain.{can_transition}
use civic_pulse_24i3089_24i.Repository.{Complaint, find_row}
use civic_pulse_24i3089_24i.Complaints.History.{Request}
use civic_pulse_24i3089_24i.Complaints.Operators.{
  Progress, waiting, locked, flushed, done, Office, holds, put_at, is_free, Step, find_none, lock,
  refuse, flush, go_through, roll_back, Reach, start, later,
}
use civic_pulse_24i3089_24i.Complaints.Operators.Exclusion.{put_at-cases}

-- How many statements an operator still runs at most.
abbrev pub left : Progress → ℕ
left waiting = 3
left (locked c) = 2
left (flushed c) = 1
left (done result) = 0

unfoldable pub work : ℕ → (ℕ → Progress) → ℕ
work zero f = 0
work (suc n) f = left (f n) + work n f

work_beyond :
    (n : ℕ) (f : ℕ → Progress) (i : ℕ) (p : Progress) → n ≤ i → work n (put_at f i p) ≡ work n f
unfolding work
work_beyond zero f i p h = refl
work_beyond (suc n) f i p h =
    let apart : (i == n) ≡ false = ground arith in
    rw apart (ap (λ k. left (f n) + k) (work_beyond n f i p (omega arith)))

work-put_at :
    (n : ℕ) (f : ℕ → Progress) (i : ℕ) (p : Progress)
    → i < n
    → work n (put_at f i p) + left (f i) ≡ work n f + left p
unfolding work
work-put_at zero f i p h = absurd (omega arith)
work-put_at (suc n) f i p h = elim (put_at-cases f i p n) [
  | inl (e, q) ↦
      let beyond = work_beyond n f i p (omega arith) in
      let here : left (f i) ≡ left (f n) = ap (λ k. left (f k)) e in
      let there : left (put_at f i p n) ≡ left p = ap left q in omega (arith, beyond, here, there)
  | inr (ne, q) ↦
      let rest = work-put_at n f i p (ground arith) in
      let there : left (put_at f i p n) ≡ left (f n) = ap left q in omega (arith, rest, there)
]

holds-left : (p : Progress) → holds p ≡ true → 1 ≤ left p
holds-left p h = ground arith

module _ (request : ℕ → Request) where
  turn_work :
      (n : ℕ) (s : Office) (i : ℕ) (p : Progress)
      → i < n
      → left p < left (s.at i)
      → work n (put_at s.at i p) < work n s.at
  turn_work n s i p lt less = omega (arith, work-put_at n s.at i p lt)

  Step-work : (n : ℕ) {s t : Office} → Step request n s t → work n t.at < work n s.at
  Step-work n {s} (find_none i lt e none_) = turn_work n s i (done _) lt (rw e (omega arith))
  Step-work n {s} (lock i c lt e free found) = turn_work n s i (locked c) lt (rw e (omega arith))
  Step-work n {s} (refuse i c lt e barred) = turn_work n s i (done _) lt (rw e (omega arith))
  Step-work n {s} (flush i c lt e allowed) = turn_work n s i (flushed c) lt (rw e (omega arith))
  Step-work n {s} (go_through i c lt e) = turn_work n s i (done _) lt (rw e (omega arith))
  Step-work n {s} (roll_back i x lt h) =
      turn_work n s i (done _) lt (omega (arith, holds-left (s.at i) h))

  holder :
      (n : ℕ) (f : ℕ → Progress) (id : ℕ)
      → is_free request n f id ≡ false
      → (j : ℕ) × (j < n) × (holds (f j) ≡ true)
  unfolding is_free
  holder zero f id h = cc
  holder (suc n) f id h = elim (Bool-cases (holds (f n))) [
    | inl held ↦ (n, omega arith, held)
    | inr idle ↦ let (j, lt, held) = holder n f id (ground arith) in (j, omega arith, held)
  ]

  abbrev CanStep : ℕ → Office → Type 0
  CanStep n s = (t : Office) × Step request n s t

  -- An operator that holds its complaint can go on.
  holder_step :
      (n : ℕ) (s : Office) (j : ℕ) (p : Progress)
      → j < n
      → s.at j ≡ p
      → holds p ≡ true
      → CanStep n s
  holder_step n s j waiting lt e h = cc
  holder_step n s j (done result) lt e h = cc
  holder_step n s j (flushed c) lt e h = (_, go_through j c lt e)
  holder_step n s j (locked c) lt e h =
      elim (Bool-cases (can_transition c.status (request j).target)) [
        | inl allowed ↦ (_, flush j c lt e allowed)
        | inr barred ↦ (_, refuse j c lt e barred)
      ]

  any_step :
      (n : ℕ) (s : Office) (i : ℕ) (p : Progress) → i < n → s.at i ≡ p → 1 ≤ left p → CanStep n s
  any_step n s i (done result) lt e h = absurd (omega arith)
  any_step n s i (locked c) lt e h = holder_step n s i (locked c) lt e refl
  any_step n s i (flushed c) lt e h = holder_step n s i (flushed c) lt e refl
  any_step n s i waiting lt e h = elim (Option-cases (find_row (request i).id s.rows)) [
    | inl absent ↦ (_, find_none i lt e absent)
    | inr (c, found) ↦ elim (Bool-cases (is_free request n s.at (request i).id)) [
      | inl free ↦ (_, lock i c lt e free found)
      | inr taken ↦
          let (j, below, held) = holder n s.at (request i).id taken in
          holder_step n s j (s.at j) below refl held
    ]
  ]

  some_work : (n : ℕ) (f : ℕ → Progress) → 1 ≤ work n f → (i : ℕ) × (i < n) × (1 ≤ left (f i))
  unfolding work
  some_work zero f h = absurd (omega arith)
  some_work (suc n) f h = elim (Bool-cases (left (f n) == 0)) [
    | inl e ↦ let (i, lt, more) = some_work n f (ground arith) in (i, omega arith, more)
    | inr e ↦ (n, omega arith, ground arith)
  ]

  no_work : (n : ℕ) (f : ℕ → Progress) → work n f ≡ 0 → (i : ℕ) → i < n → left (f i) ≡ 0
  unfolding work
  no_work zero f h i lt = absurd (omega arith)
  no_work (suc n) f h i lt = elim (Bool-cases (i == n)) [
    | inl e ↦
        let same : i ≡ n = ground arith in
        let last : left (f i) ≡ left (f n) = ap (λ k. left (f k)) same in omega arith
    | inr e ↦ no_work n f (omega arith) i (ground arith)
  ]

  work_start : (n : ℕ) → work n (λ i. waiting) ≡ 3 * n
  unfolding work
  work_start zero = refl
  work_start (suc n) = omega (arith, work_start n)

  Reach-work :
      (n : ℕ) {rows : List Complaint} {s : Office} → Reach request n rows s → work n s.at ≤ 3 * n
  Reach-work n start = omega (arith, work_start n)
  Reach-work n (later r step) = omega (arith, Reach-work n r, Step-work n step)

  abbrev Finished : ℕ → List Complaint → Type 0
  Finished n rows = (t : Office) × Reach request n rows t × (work n t.at ≡ 0)

  run_on :
      (n fuel : ℕ) (rows : List Complaint) (s : Office)
      → Reach request n rows s
      → work n s.at ≤ fuel
      → Finished n rows
  run_on n zero rows s r h = (s, r, omega arith)
  run_on n (suc fuel) rows s r h = elim (Bool-cases (work n s.at == 0)) [
    | inl e ↦ (s, r, ground arith)
    | inr e ↦
        let (i, lt, more) = some_work n s.at (ground arith) in
        let (t, step) = any_step n s i (s.at i) lt refl more in
        run_on n fuel rows t (later r step) (omega (arith, Step-work n step))
  ]

  -- Every statement takes at least one off the work that is left, which is never more than three
  -- times the number of operators, so no order of the statements runs on for ever. And from
  -- wherever they have come, the operators can go on until every request is answered or refused:
  -- there is no deadlock.
  pub Reach-finish :
      (n : ℕ) (rows : List Complaint) (s : Office)
      → Reach request n rows s
      → (work n s.at ≤ 3 * n)
        × ((t : Office) → Step request n s t → work n t.at < work n s.at)
        × ((t : Office) × Reach request n rows t × ((i : ℕ) → i < n → left (t.at i) ≡ 0))
  Reach-finish n rows s r =
      let (t, run, over) = run_on n (work n s.at) rows s r (omega arith) in
      (Reach-work n r, (λ u step. Step-work n step), (t, run, no_work n t.at over))

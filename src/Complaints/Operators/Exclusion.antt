-- ===== src/Complaints/Operators/Exclusion.antt =====
-- No two operators hold one complaint, and what an operator has read stays true until it is done.
use civic_pulse_24i3089_24i.Prelude.{
  ℕ, zero, suc, ◌<◌, ◌≡◌, ◌≢◌, refl, sym, ap, ◌∙◌, ◌⊎◌, inl, inr, true, false, some, List, map,
  arith, ◌==◌, Bool-cases,
}
use mathlib.Core.Path.{subst}
use civic_pulse_24i3089_24i.Domain.{can_transition}
use civic_pulse_24i3089_24i.Exceptions.{ok}
use civic_pulse_24i3089_24i.Repository.{Complaint, find_row}
use civic_pulse_24i3089_24i.Repository.Sessions.{update_row}
use civic_pulse_24i3089_24i.Complaints.{moved}
use civic_pulse_24i3089_24i.Complaints.Transitions.{find_row-map, find_row-id}
use civic_pulse_24i3089_24i.Complaints.History.{Request, update_row_other}
use civic_pulse_24i3089_24i.Complaints.Operators.{
  Progress, waiting, locked, flushed, done, Office, holds, put_at, is_free, turn, commit, Step,
  find_none, lock, refuse, flush, go_through, roll_back, Reach, start, later,
}

-- What the operator has read of the complaint is what is committed, and a flushed status is one
-- that the table allows.
abbrev pub IsCurrent : Request → List Complaint → Progress → Type 0
IsCurrent q rows waiting = Unit
IsCurrent q rows (locked c) = find_row q.id rows ≡ some c
IsCurrent q rows (flushed c) =
    (find_row q.id rows ≡ some c) × (can_transition c.status q.target ≡ true)
IsCurrent q rows (done result) = Unit

pub put_at-cases :
    (f : ℕ → Progress) (i : ℕ) (p : Progress) (j : ℕ)
    → ((i ≡ j) × (put_at f i p j ≡ p)) ⊎ ((i ≢ j) × (put_at f i p j ≡ f j))
put_at-cases f i p j = elim (Bool-cases (i == j)) [
  | inl e ↦ inl (ground arith, rw e refl)
  | inr e ↦ inr (ground arith, rw e refl)
]

find_other :
    (q : Request) (rows : List Complaint) (j : ℕ) (c : Complaint)
    → find_row j rows ≡ some c
    → j ≢ q.id
    → find_row j (map (update_row q.id q.target q.now) rows) ≡ some c
find_other q rows j c h other =
    let apart : (q.id == j) ≡ false = ground arith in
    rw (find_row-map, h)
      (ap some (update_row_other q.id q.target q.now j c (find_row-id j rows c h) apart))

-- A commit to one complaint leaves what is read of the others.
kept-IsCurrent :
    (q : Request) (rows : List Complaint) (r : Request) (p : Progress)
    → IsCurrent r rows p
    → (holds p ≡ true → r.id ≢ q.id)
    → IsCurrent r (map (update_row q.id q.target q.now) rows) p
kept-IsCurrent q rows r waiting h other = tt
kept-IsCurrent q rows r (done result) h other = tt
kept-IsCurrent q rows r (locked c) h other = find_other q rows r.id c h (other refl)
kept-IsCurrent q rows r (flushed c) (h, allowed) other =
    (find_other q rows r.id c h (other refl), allowed)

module _ (request : ℕ → Request) where
  pub record Inv (n : ℕ) (s : Office) : Type 0 where
    pub current : (i : ℕ) → IsCurrent (request i) s.rows (s.at i)
    pub only :
        (i j : ℕ)
        → holds (s.at i) ≡ true
        → holds (s.at j) ≡ true
        → (request i).id ≡ (request j).id
        → i ≡ j
    -- only the operators below `n` do anything
    pub few : (i : ℕ) → holds (s.at i) ≡ true → i < n

  is_free-none :
      (n : ℕ) (f : ℕ → Progress) (id j : ℕ)
      → is_free request n f id ≡ true
      → j < n
      → holds (f j) ≡ true
      → (request j).id ≢ id
  unfolding is_free
  is_free-none zero f id j h lt held = absurd (omega arith)
  is_free-none (suc n) f id j h lt held = elim (Bool-cases (n == j)) [
    | inl e ↦
        let same : n ≡ j = ground arith in
        λ k. ground (arith, ap (λ m. holds (f m)) same, ap (λ m. (request m).id) same)
    | inr e ↦ is_free-none n f id j (ground arith) (ground arith) held
  ]

  -- What an operator that goes on may hold: nothing, or a complaint that no other operator holds.
  abbrev IsAlone : Office → ℕ → Progress → Type 0
  IsAlone s i p =
      holds p ≡ true → (j : ℕ) → holds (s.at j) ≡ true → (request j).id ≡ (request i).id → j ≡ i

  only_after :
      (n : ℕ) (s : Office) (i : ℕ) (p : Progress)
      → Inv n s
      → IsAlone s i p
      → (j k : ℕ) → holds (put_at s.at i p j) ≡ true
      → holds (put_at s.at i p k) ≡ true
      → (request j).id ≡ (request k).id
      → j ≡ k
  only_after n s i p inv alone j k hj hk same = elim (put_at-cases s.at i p j) [
    | inl (ej, qj) ↦ elim (put_at-cases s.at i p k) [
      | inl (ek, qk) ↦ sym ej ∙ ek
      | inr (_, qk) ↦
          let ids : (request k).id ≡ (request i).id =
            sym same ∙ ap (λ m. (request m).id) (sym ej) in
          sym ej ∙ sym (alone (ap holds (sym qj) ∙ hj) k (ap holds (sym qk) ∙ hk) ids)
    ]
    | inr (_, qj) ↦ elim (put_at-cases s.at i p k) [
      | inl (ek, qk) ↦
          let ids : (request j).id ≡ (request i).id = same ∙ ap (λ m. (request m).id) (sym ek) in
          alone (ap holds (sym qk) ∙ hk) j (ap holds (sym qj) ∙ hj) ids ∙ ek
      | inr (_, qk) ↦ inv.only j k (ap holds (sym qj) ∙ hj) (ap holds (sym qk) ∙ hk) same
    ]
  ]

  few_after :
      (n : ℕ) (s : Office) (i : ℕ) (p : Progress)
      → Inv n s
      → i < n
      → (j : ℕ) → holds (put_at s.at i p j) ≡ true
      → j < n
  few_after n s i p inv lt j hj = elim (put_at-cases s.at i p j) [
    | inl (e, q) ↦ omega arith
    | inr (_, q) ↦ inv.few j (ap holds (sym q) ∙ hj)
  ]

  -- An operator goes on, and the rows stay.
  turn-Inv :
      (n : ℕ) (s : Office) (i : ℕ) (p : Progress)
      → Inv n s
      → i < n
      → IsCurrent (request i) s.rows p
      → IsAlone s i p
      → Inv n (turn request i p s)
  turn-Inv n s i p inv lt now alone = record {
    current = λ j. elim (put_at-cases s.at i p j) [
      | inl (e, q) ↦
          subst (IsCurrent (request j) s.rows) (sym q)
            (subst (λ k. IsCurrent (request k) s.rows p) e now)
      | inr (_, q) ↦ subst (IsCurrent (request j) s.rows) (sym q) (inv.current j)
    ];
    only = only_after n s i p inv alone;
    few = few_after n s i p inv lt;
  }

  commit-Inv :
      (n : ℕ) (s : Office) (i : ℕ) (c : Complaint)
      → Inv n s
      → i < n
      → s.at i ≡ flushed c
      → Inv n (commit request i c s)
  commit-Inv n s i c inv lt e = record {
    current = λ j.
        elim (put_at-cases s.at i (done (ok (moved c (request i).target (request i).now))) j) [
          | inl (_, q) ↦ subst (IsCurrent (request j) _) (sym q) tt
          | inr (ne, q) ↦ subst (IsCurrent (request j) _) (sym q) (
              kept-IsCurrent (request i) s.rows (request j) (s.at j) (inv.current j)
                (λ hj same. ne (inv.only i j (ap holds e) hj (sym same))))
        ];
    only = only_after n s i (done _) inv (λ h. cc);
    few = few_after n s i (done _) inv lt;
  }

  Step-Inv : (n : ℕ) {s t : Office} → Inv n s → Step request n s t → Inv n t
  Step-Inv n {s} inv (find_none i lt e none_) = turn-Inv n s i (done _) inv lt tt (λ h. cc)
  Step-Inv n {s} inv (lock i c lt e free found) =
      turn-Inv n s i (locked c) inv lt found
        (λ h j hj same. absurd (is_free-none n s.at (request i).id j free (inv.few j hj) hj same))
  Step-Inv n {s} inv (refuse i c lt e barred) = turn-Inv n s i (done _) inv lt tt (λ h. cc)
  Step-Inv n {s} inv (flush i c lt e allowed) =
      turn-Inv n s i (flushed c) inv lt
        (subst (IsCurrent (request i) s.rows) e (inv.current i), allowed)
        (λ h j hj same. inv.only j i hj (ap holds e) same)
  Step-Inv n {s} inv (go_through i c lt e) = commit-Inv n s i c inv lt e
  Step-Inv n {s} inv (roll_back i x lt h) = turn-Inv n s i (done _) inv lt tt (λ k. cc)

  pub Reach-Inv : (n : ℕ) {rows : List Complaint} {s : Office} → Reach request n rows s → Inv n s
  Reach-Inv n start = record { current = λ i. tt; only = λ i j h. cc; few = λ i h. cc }
  Reach-Inv n (later r step) = Step-Inv n (Reach-Inv n r) step

-- Whatever the operators request, in whatever order their statements run, and whichever of them are
-- rolled back: two operators that hold the lock of a complaint are the same one, and what an
-- operator has read of its complaint under the lock is what is committed of it until the operator is
-- done; a status that it has flushed is one that the table allows from there.
pub locked_once :
    (request : ℕ → Request) (n : ℕ) (rows : List Complaint) (s : Office)
    → Reach request n rows s
    → ((i j : ℕ)
        → holds (s.at i) ≡ true
        → holds (s.at j) ≡ true
        → (request i).id ≡ (request j).id
        → i ≡ j)
      × ((i : ℕ) → IsCurrent (request i) s.rows (s.at i))
locked_once request n rows s r = let inv = Reach-Inv request n r in (inv.only, inv.current)

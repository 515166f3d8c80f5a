-- ===== src/Complaints/History.antt =====
-- The status of every complaint over any sequence of requests to change one.
use mathlib.Core.Option
use civic_pulse_24i3089_24i.Prelude.{
  ℕ, suc, ◌≡◌, refl, sym, ap, ◌∙◌, ◌⊎◌, inl, inr, true, false, Option, some, List, [], ◌∷◌, map,
  arith, ◌==◌, ==_iff, Bool-cases, Option-cases,
}
use civic_pulse_24i3089_24i.Domain.{Status, can_transition}
use civic_pulse_24i3089_24i.Domain.Machine.{Reach, here, next}
use civic_pulse_24i3089_24i.Exceptions.{Result}
use civic_pulse_24i3089_24i.Cache.{Redis}
use civic_pulse_24i3089_24i.Repository.{Complaint, Database, find_row}
use civic_pulse_24i3089_24i.Repository.Sessions.{IsDatabase, update_row}
use civic_pulse_24i3089_24i.Complaints.{Place, change_status}
use civic_pulse_24i3089_24i.Complaints.Transitions.{
  Outcome, missing, refused, changed, IsFresh, change-IsFresh, change_status-Outcome, find_row-map,
  find_row-id,
}

-- A status stays, or goes where the table allows.
abbrev Moves : Option Status → Option Status → Type 0
Moves a b =
    (b ≡ a)
    ⊎ ((x : Status) × (y : Status) × (a ≡ some x) × (b ≡ some y) × (can_transition x y ≡ true))

abbrev pub status_in : ℕ → List Complaint → Option Status
status_in j rows = Option.map (λ c. c.status) (find_row j rows)

update_row_self :
    (id : ℕ) (target : Status) (now : ℕ) (c : Complaint)
    → c.id ≡ id
    → (update_row id target now c).status ≡ target
update_row_self id target now c h = ground arith

pub update_row_other :
    (id : ℕ) (target : Status) (now j : ℕ) (c : Complaint)
    → c.id ≡ j
    → (id == j) ≡ false
    → update_row id target now c ≡ c
update_row_other id target now j c h k = ground arith

update-Moves :
    (id : ℕ) (target : Status) (now j : ℕ) (rows : List Complaint) (c : Complaint)
    → find_row id rows ≡ some c
    → can_transition c.status target ≡ true
    → Moves (status_in j rows) (status_in j (map (update_row id target now) rows))
update-Moves id target now j rows c found allowed = elim (Bool-cases (id == j)) [
  | inl same ↦
      let e : id ≡ j = (==_iff id j).0 same in
      let f : find_row j rows ≡ some c = ap (λ i. find_row i rows) (sym e) ∙ found in
      let g : c.id ≡ id = find_row-id id rows c found in
      inr (
        c.status,
        target,
        rw f,
        rw (find_row-map, f) (ap some (update_row_self id target now c g)),
        allowed,
      )
  | inr other ↦ elim (Option-cases (find_row j rows)) [
    | inl absent ↦ inl (rw (find_row-map, absent))
    | inr (d, f) ↦ inl (
        rw (find_row-map, f)
          (ap (λ x. some x.status)
            (update_row_other id target now j d (find_row-id j rows d f) other)))
  ]
]

pub record Request : Type 0 where
  pub id : ℕ
  pub target : Status
  pub now : ℕ

module _ (r : Redis) {N : Type 0} (db : Database) where
  -- Requests one after the other, each in a session that sees what is committed.
  unfoldable pub change_all : List Request → Place r N db → Place r N db
  change_all [] s = s
  change_all (q ∷ qs) s = change_all qs (change_status r db q.id q.target q.now s).1

  module _ (laws : IsDatabase db) where
    abbrev pub status_of : ℕ → Place r N db → Option Status
    status_of j s = status_in j (db.committed s.session)

    change-Moves :
        (id : ℕ) (target : Status) (now : ℕ) (s : Place r N db)
        (end : Result Complaint × Place r N db)
        → IsFresh r db laws s
        → Outcome r db laws id target now s end
        → (j : ℕ) → Moves (status_of j s) (status_of j end.1)
    change-Moves id target now s end h (missing absent e same) j = rw same (inl refl)
    change-Moves id target now s end h (refused c found barred e w k l) j = rw k (inl refl)
    change-Moves id target now s end h (changed c found allowed e w k l) j =
        rw (k, h)
          (update-Moves id target now j (db.committed s.session) c
            (ap (find_row id) (sym h) ∙ found) allowed)

    abbrev Arrives : ℕ → Status → Place r N db → Type 0
    Arrives j x s = (y : Status) × (n : ℕ) × (status_of j s ≡ some y) × Reach x y n

    Arrives-Moves :
        (j : ℕ) (x : Status) (s t : Place r N db)
        → Arrives j x s
        → Moves (status_of j s) (status_of j t)
        → Arrives j x t
    Arrives-Moves j x s t (y, n, e, run) (inl same) = (y, n, same ∙ e, run)
    Arrives-Moves j x s t (y, n, e, run) (inr (a, b, f, g, allowed)) =
        (b, suc n, g, next run (let z : y ≡ a = cc (e, f) in rw z allowed))

    change_all-Arrives :
        (qs : List Request) (j : ℕ) (x : Status) (s : Place r N db)
        → IsFresh r db laws s
        → Arrives j x s
        → Arrives j x (change_all qs s)
    unfolding change_all
    change_all-Arrives [] j x s fresh h = h
    change_all-Arrives (q ∷ qs) j x s fresh h =
        let o = change_status-Outcome r db laws q.id q.target q.now s in
        let s' = (change_status r db q.id q.target q.now s).1 in
        change_all-Arrives qs j x s' (change-IsFresh r db laws q.id q.target q.now s _ fresh o)
          (Arrives-Moves j x s s' h (change-Moves q.id q.target q.now s _ fresh o j))

    -- On a database that carries out its statements, and from a session that sees what is
    -- committed: whatever requests to change a status come in one after the other, refused or not,
    -- every complaint is still there and its status has gone from what it was by a run of
    -- transitions that the table allows.
    pub change_all-Reach :
        (qs : List Request) (j : ℕ) (x : Status) (s : Place r N db)
        → IsFresh r db laws s
        → status_of j s ≡ some x
        → (y : Status) × (n : ℕ) × (status_of j (change_all qs s) ≡ some y) × Reach x y n
    change_all-Reach qs j x s fresh e = change_all-Arrives qs j x s fresh (x, 0, e, here)

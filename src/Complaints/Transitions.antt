-- ===== src/Complaints/Transitions.antt =====
-- `change_status`: its cases, and the status of every complaint over any requests.
use civic_pulse_24i3089_24i.Prelude.{
  ℕ, ◌≡◌, refl, sym, ap, ◌∙◌, inl, inr, true, false, none, some, List, [], ◌∷◌, map, arith,
  Bool-cases, Option-cases,
}
use mathlib.Core.Option
use mathlib.Core.Path.{subst}
use civic_pulse_24i3089_24i.Text.{codes}
use civic_pulse_24i3089_24i.Domain.{Status, can_transition}
use civic_pulse_24i3089_24i.Exceptions.{Result, ok, err, not_found, invalid_transition}
use civic_pulse_24i3089_24i.Cache.{Redis}
use civic_pulse_24i3089_24i.Repository
use civic_pulse_24i3089_24i.Repository.{Complaint, Database, find_row}
use civic_pulse_24i3089_24i.Repository.Sessions.{IsDatabase, update_row}
use civic_pulse_24i3089_24i.Complaints.{
  Place, moved, drop_stats, with_session, commit_then_invalidate, advance, move, change_status,
}

pub find_row-map :
    (id : ℕ) (target : Status) (now j : ℕ) (rows : List Complaint)
    → find_row j (map (update_row id target now) rows)
      ≡ Option.map (update_row id target now) (find_row j rows)
unfolding find_row
find_row-map id target now j [] = refl
find_row-map id target now j (c ∷ rows) = ground (arith, find_row-map id target now j rows)

pub find_row-id :
    (j : ℕ) (rows : List Complaint) (c : Complaint) → find_row j rows ≡ some c → c.id ≡ j
unfolding find_row
find_row-id j [] c h = cc
find_row-id j (d ∷ rows) c h = ground (arith, find_row-id j rows c)

module _ (r : Redis) {N : Type 0} (db : Database) (laws : IsDatabase db) where
  -- What a request to change a status comes to, on each of its three paths.
  pub data Outcome (id : ℕ) (target : Status) (now : ℕ) (s : Place r N db)
      (end : Result Complaint × Place r N db) : Type 0 where
    missing :
        find_row id (db.rows s.session) ≡ none
        → end.0 ≡ err (not_found (codes "complaint"))
        → end.1 ≡ s
        → Outcome id target now s end
    refused :
        (c : Complaint)
        → find_row id (db.rows s.session) ≡ some c
        → can_transition c.status target ≡ false
        → end.0 ≡ err (invalid_transition c.status target)
        → end.1.world ≡ s.world
        → db.committed end.1.session ≡ db.committed s.session
        → db.rows end.1.session ≡ db.committed s.session
        → Outcome id target now s end
    changed :
        (c : Complaint)
        → find_row id (db.rows s.session) ≡ some c
        → can_transition c.status target ≡ true
        → end.0 ≡ ok (moved c target now)
        → end.1.world ≡ (drop_stats r db s).world
        → db.committed end.1.session ≡ map (update_row id target now) (db.rows s.session)
        → db.rows end.1.session ≡ map (update_row id target now) (db.rows s.session)
        → Outcome id target now s end

  pub committed-once :
      (c : Complaint) (s : Place r N db)
      → commit_then_invalidate r db c s
        ≡ (ok c, drop_stats r db (with_session r db (db.commit s.session).1 s))
  unfolding commit_then_invalidate
  committed-once c s = rw ((laws.commit-ok s.session).0, commit_then_invalidate)

  advance-Outcome :
      (c : Complaint) (target : Status) (now : ℕ) (s : Place r N db)
      → find_row c.id (db.rows s.session) ≡ some c
      → can_transition c.status target ≡ true
      → Outcome c.id target now s (advance r db c target now s)
  unfolding advance Repository.set_status
  advance-Outcome c target now s found allowed =
      let (done, rows, committed) = laws.update-ok c.id target now s.session in
      let d = (db.update c.id target now s.session).1 in
      let (_, rows', committed') = laws.commit-ok d in
      rw done
        (rw committed-once (changed c found allowed refl refl (committed' ∙ rows) (rows' ∙ rows)))

  move-Outcome :
      (c : Complaint) (target : Status) (now : ℕ) (s : Place r N db)
      → find_row c.id (db.rows s.session) ≡ some c
      → Outcome c.id target now s (move r db c target now s)
  unfolding move
  move-Outcome c target now s found = elim (Bool-cases (can_transition c.status target)) [
    | inl allowed ↦ rw allowed (advance-Outcome c target now s found allowed)
    | inr barred ↦ rw barred (
        refused c found barred refl refl (laws.rollback-committed s.session)
          (laws.rollback-rows s.session))
  ]

  -- On a database that carries out its statements, a request to change a status takes one of three
  -- paths. Where no row has the id, it answers NotFoundError and nothing changes. Where the table
  -- does not list the transition, it answers InvalidTransitionError with both statuses, and
  -- neither the committed rows nor the cache change. Otherwise it answers the complaint in its new
  -- status, that update of the rows with the id is committed, and the cached statistics are
  -- dropped.
  pub change_status-Outcome :
      (id : ℕ) (target : Status) (now : ℕ) (s : Place r N db)
      → Outcome id target now s (change_status r db id target now s)
  unfolding change_status Repository.get
  change_status-Outcome id target now s = elim (Option-cases (find_row id (db.rows s.session))) [
    | inl absent ↦ rw (absent, change_status) (missing absent refl refl)
    | inr (c, found) ↦
        let same = find_row-id id (db.rows s.session) c found in
        rw (found, change_status)
          (subst (λ j. Outcome j target now s (move r db c target now s)) same
            (move-Outcome c target now s (ap (λ j. find_row j (db.rows s.session)) same ∙ found)))
  ]

  -- The session sees what is committed, as at the start of a request.
  abbrev pub IsFresh : Place r N db → Type 0
  IsFresh s = db.rows s.session ≡ db.committed s.session

  pub change-IsFresh :
      (id : ℕ) (target : Status) (now : ℕ) (s : Place r N db)
      (end : Result Complaint × Place r N db)
      → IsFresh s
      → Outcome id target now s end
      → IsFresh end.1
  change-IsFresh id target now s end h (missing absent e same) = rw same h
  change-IsFresh id target now s end h (refused c found barred e w k l) = l ∙ sym k
  change-IsFresh id target now s end h (changed c found allowed e w k l) = l ∙ sym k

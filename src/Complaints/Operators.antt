-- ===== src/Complaints/Operators.antt =====
-- `change_status` of backend/app/services/complaint_service.py, run by several operators at once,
-- each in a transaction of its own. `get(…, for_update=True)` waits until no other transaction has
-- locked the row and then reads what is committed; a commit or a rollback gives the lock back. What
-- a transaction wrote is seen by the others when it is committed.
pub mod Exclusion
pub mod Serial
pub mod Deadlock
use civic_pulse_24i3089_24i.Prelude.{
  ℕ, zero, suc, ◌<◌, ◌≡◌, Bool, true, false, not, ◌&&◌, none, some, List, [], ◌∷◌, ◌++◌, map, ◌==◌,
  if◌then◌else◌,
}
use civic_pulse_24i3089_24i.Text.{codes}
use civic_pulse_24i3089_24i.Domain.{can_transition}
use civic_pulse_24i3089_24i.Exceptions.{Exn, Result, ok, err, not_found, invalid_transition}
use civic_pulse_24i3089_24i.Repository.{Complaint, find_row}
use civic_pulse_24i3089_24i.Repository.Sessions.{update_row}
use civic_pulse_24i3089_24i.Complaints.{moved}
use civic_pulse_24i3089_24i.Complaints.History.{Request}

-- How far an operator's request has come.
pub data Progress : Type 0 where
  waiting : Progress
  -- the row is locked and read
  locked : Complaint → Progress
  -- its new status is flushed
  flushed : Complaint → Progress
  done : Result Complaint → Progress

-- The committed rows, the operators, and the requests whose commits went through, in their order.
pub record Office : Type 0 where
  pub rows : List Complaint
  pub at : ℕ → Progress
  pub served : List Request

abbrev pub holds : Progress → Bool
holds (locked c) = true
holds (flushed c) = true
holds waiting = false
holds (done result) = false

abbrev pub put_at : (ℕ → Progress) → ℕ → Progress → ℕ → Progress
put_at f i p j = if i == j then p else f j

module _ (request : ℕ → Request) where
  -- No operator below `n` holds the complaint.
  unfoldable pub is_free : ℕ → (ℕ → Progress) → ℕ → Bool
  is_free zero f id = true
  is_free (suc n) f id =
      let rest = is_free n f id in not (holds (f n) && (request n).id == id) && rest

  abbrev pub turn : ℕ → Progress → Office → Office
  turn i p s = record s { at = put_at s.at i p }

  abbrev pub commit : ℕ → Complaint → Office → Office
  commit i c s =
      let q = request i in
      record {
        rows = map (update_row q.id q.target q.now) s.rows;
        at = put_at s.at i (done (ok (moved c q.target q.now)));
        served = s.served ++ q ∷ [];
      }

  -- One statement of one of the `n` operators.
  pub data Step (n : ℕ) (s : Office) : Office → Type 0 where
    find_none :
        (i : ℕ)
        → i < n
        → s.at i ≡ waiting
        → find_row (request i).id s.rows ≡ none
        → Step n s (turn i (done (err (not_found (codes "complaint")))) s)
    lock :
        (i : ℕ) (c : Complaint)
        → i < n
        → s.at i ≡ waiting
        → is_free n s.at (request i).id ≡ true
        → find_row (request i).id s.rows ≡ some c
        → Step n s (turn i (locked c) s)
    refuse :
        (i : ℕ) (c : Complaint)
        → i < n
        → s.at i ≡ locked c
        → can_transition c.status (request i).target ≡ false
        → Step n s (turn i (done (err (invalid_transition c.status (request i).target))) s)
    flush :
        (i : ℕ) (c : Complaint)
        → i < n
        → s.at i ≡ locked c
        → can_transition c.status (request i).target ≡ true
        → Step n s (turn i (flushed c) s)
    go_through : (i : ℕ) (c : Complaint) → i < n → s.at i ≡ flushed c → Step n s (commit i c s)
    -- a statement raises, and the session is rolled back
    roll_back :
        (i : ℕ) (e : Exn) → i < n → holds (s.at i) ≡ true → Step n s (turn i (done (err e)) s)

  abbrev pub opened : List Complaint → Office
  opened rows = record { rows = rows; at = λ i. waiting; served = [] }

  pub data Reach (n : ℕ) (rows : List Complaint) : Office → Type 0 where
    start : Reach n rows (opened rows)
    later : {s t : Office} → Reach n rows s → Step n s t → Reach n rows t

-- ===== src/Tests/Operators.antt =====
-- Two operators who want to change the same complaint at once.
use civic_pulse_24i3089_24i.Prelude.{ℕ, zero, suc, ◌*◌, ◌≤◌, ◌<◌, ◌≡◌, refl, true, [], ◌∷◌, arith}
use civic_pulse_24i3089_24i.Domain.{in_progress, rejected, can_transition}
use civic_pulse_24i3089_24i.Exceptions.{err, invalid_transition}
use civic_pulse_24i3089_24i.Repository.{Complaint, find_row}
use civic_pulse_24i3089_24i.Complaints.{moved}
use civic_pulse_24i3089_24i.Complaints.History.{Request, change_all}
use civic_pulse_24i3089_24i.Complaints.Operators.{
  Office, done, holds, is_free, Step, Reach, lock, flush, go_through, refuse, start, later,
}
use civic_pulse_24i3089_24i.Complaints.Operators.Exclusion.{IsCurrent, locked_once}
use civic_pulse_24i3089_24i.Complaints.Operators.Serial.{served-change_all}
use civic_pulse_24i3089_24i.Complaints.Operators.Deadlock.{left, work, Reach-finish}
use civic_pulse_24i3089_24i.Tests.World.{leak, redis, database, database-IsDatabase, place}

-- Operator 0 rejects the complaint, the others start work on it.
abbrev wishes : ℕ → Request
wishes zero = record { id = 7; target = rejected; now = 50 }
wishes (suc i) = record { id = 7; target = in_progress; now = 51 }

abbrev gone : Complaint
gone = moved leak rejected 50

-- The first one gets the lock, and the second reads what it committed.
abbrev Held : Type 0
Held = (s : Office) × Reach wishes 2 (leak ∷ []) s

abbrev first_locks : Held
unfolding is_free find_row
first_locks = (_, later start (lock 0 leak (omega arith) refl refl refl))

abbrev both_answered : Held
unfolding is_free find_row can_transition
both_answered = (
  _,
  later
      (later
        (later (later first_locks.1 (flush 0 leak (omega arith) refl refl))
          (go_through 0 leak (omega arith) refl))
        (lock 1 gone (omega arith) refl refl refl))
      (refuse 1 gone (omega arith) refl refl),
)

second_refused : both_answered.0.at 1 ≡ done (err (invalid_transition rejected in_progress))
unfolding both_answered
second_refused = refl

locked_once_example :
    ((i j : ℕ)
      → holds (first_locks.0.at i) ≡ true
      → holds (first_locks.0.at j) ≡ true
      → (wishes i).id ≡ (wishes j).id
      → i ≡ j)
    × ((i : ℕ) → IsCurrent (wishes i) first_locks.0.rows (first_locks.0.at i))
locked_once_example = locked_once wishes 2 (leak ∷ []) first_locks.0 first_locks.1

served-change_all_example :
    database.committed (change_all redis database both_answered.0.served place).session
    ≡ both_answered.0.rows
served-change_all_example =
    served-change_all redis database database-IsDatabase wishes 2 place both_answered.0 refl
      both_answered.1

Reach-finish_example :
    (work 2 first_locks.0.at ≤ 3 * 2)
    × ((t : Office) → Step wishes 2 first_locks.0 t → work 2 t.at < work 2 first_locks.0.at)
    × ((t : Office) × Reach wishes 2 (leak ∷ []) t × ((i : ℕ) → i < 2 → left (t.at i) ≡ 0))
Reach-finish_example = Reach-finish wishes 2 (leak ∷ []) first_locks.0 first_locks.1

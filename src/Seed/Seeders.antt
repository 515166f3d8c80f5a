-- ===== src/Seed/Seeders.antt =====
-- `main` of backend/app/seed.py run by several processes at once, each in one transaction, with
-- `ComplaintRepository.lock_for_seed` on PostgreSQL: `pg_advisory_xact_lock` waits until no
-- transaction has the lock, which goes back at a commit or a rollback. A transaction sees what is
-- committed and what it wrote itself.
pub mod Once
pub mod Finish
use civic_pulse_24i3089_24i.Prelude.{
  ℕ, suc, ◌≡◌, Bool, true, false, Option, none, some, List, [], ◌∷◌, ◌++◌, ◌==◌, if◌then◌else◌,
}
use civic_pulse_24i3089_24i.Text.{Str}
use civic_pulse_24i3089_24i.Exceptions.{ok}
use civic_pulse_24i3089_24i.Repository.{Complaint, find_row}
use civic_pulse_24i3089_24i.Seed.{build_seed_complaints}

-- How far a process has come: what it has still to add, what it has added, and how many it counts.
pub data Seeder : Type 0 where
  waiting : Seeder
  seeding : List Complaint → List Complaint → ℕ → Seeder
  seeded : ℕ → Seeder
  failed : Seeder

-- The committed rows, who has the lock, and the processes.
pub record Cluster : Type 0 where
  pub rows : List Complaint
  pub lock : Option ℕ
  pub at : ℕ → Seeder

abbrev pub added_by : Seeder → List Complaint
added_by waiting = []
added_by (seeding todo added inserted) = added
added_by (seeded inserted) = []
added_by failed = []

abbrev pub put_at : (ℕ → Seeder) → ℕ → Seeder → ℕ → Seeder
put_at f i x j = if i == j then x else f j

module _ (lower : Str → Str) (seed_id : Str → ℕ) (now : ℕ → ℕ) where
  pub data Step (s : Cluster) : Cluster → Type 0 where
    lock_for_seed :
        (i : ℕ) (cs : List Complaint)
        → s.at i ≡ waiting
        → s.lock ≡ none
        → build_seed_complaints lower seed_id (now i) ≡ ok cs
        → Step s (record s { lock = some i; at = put_at s.at i (seeding cs [] 0) })
    -- `add_if_absent` of the next row, which is there, and which is not
    leave :
        (i : ℕ) (c e : Complaint) (todo added : List Complaint) (inserted : ℕ)
        → s.at i ≡ seeding (c ∷ todo) added inserted
        → find_row c.id (added ++ s.rows) ≡ some e
        → Step s (record s { at = put_at s.at i (seeding todo added inserted) })
    insert :
        (i : ℕ) (c : Complaint) (todo added : List Complaint) (inserted : ℕ)
        → s.at i ≡ seeding (c ∷ todo) added inserted
        → find_row c.id (added ++ s.rows) ≡ none
        → Step s (record s { at = put_at s.at i (seeding todo (c ∷ added) (suc inserted)) })
    commit :
        (i : ℕ) (added : List Complaint) (inserted : ℕ)
        → s.at i ≡ seeding [] added inserted
        → Step s
            (record { rows = added ++ s.rows; lock = none; at = put_at s.at i (seeded inserted) })
    -- an exception, or the process is killed
    roll_back :
        (i : ℕ) (todo added : List Complaint) (inserted : ℕ)
        → s.at i ≡ seeding todo added inserted
        → Step s (record s { lock = none; at = put_at s.at i failed })
    -- a running backend stores a complaint, under an id that is new
    store :
        (c : Complaint)
        → ((i : ℕ) → find_row c.id (added_by (s.at i)) ≡ none)
        → Step s (record s { rows = c ∷ s.rows })

  abbrev pub opened : List Complaint → Cluster
  opened rows = record { rows = rows; lock = none; at = λ i. waiting }

  pub data Reach (rows : List Complaint) : Cluster → Type 0 where
    start : Reach rows (opened rows)
    later : {s t : Cluster} → Reach rows s → Step s t → Reach rows t

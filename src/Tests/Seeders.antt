-- ===== src/Tests/Seeders.antt =====
-- Two processes that run the seed.
use civic_pulse_24i3089_24i.Prelude.{ℕ, ◌≡◌, refl, none, some, List, [], ◌∷◌, All}
use civic_pulse_24i3089_24i.Text.{Str}
use civic_pulse_24i3089_24i.Exceptions.{ok}
use civic_pulse_24i3089_24i.Repository.{Complaint, find_row}
use civic_pulse_24i3089_24i.Seed.{build_seed_complaints}
use civic_pulse_24i3089_24i.Seed.Rows.{build_seed_complaints-IsRow}
use civic_pulse_24i3089_24i.Seed.Presence.{Absent}
use civic_pulse_24i3089_24i.Seed.Seeders.{
  Cluster, Reach, seeding, seeded, lock_for_seed, roll_back, start, later,
}
use civic_pulse_24i3089_24i.Seed.Seeders.Once.{Reach-Absent}
use civic_pulse_24i3089_24i.Seed.Seeders.Finish.{Reach-seeded}

abbrev same_text : Str → Str
same_text s = s

abbrev id_of : Str → ℕ
id_of [] = 0
id_of (c ∷ s) = c

abbrev clock : ℕ → ℕ
clock i = i

abbrev rows_of : ℕ → List Complaint
rows_of i = (build_seed_complaints-IsRow same_text id_of i).0

abbrev Run : Type 0
Run = (s : Cluster) × Reach same_text id_of clock [] s × (s.at 1 ≡ seeding (rows_of 1) [] 0)

-- the first process locks and is killed, and the second one locks
abbrev second_locks : Run
second_locks =
    let built = (build_seed_complaints-IsRow same_text id_of 0).1 in
    let built' = (build_seed_complaints-IsRow same_text id_of 1).1 in
    (
      _,
      later
          (later (later start (lock_for_seed 0 (rows_of 0) refl refl built))
            (roll_back 0 (rows_of 0) [] 0 refl))
          (lock_for_seed 1 (rows_of 1) refl refl built'),
      refl,
    )

abbrev Ended : Type 0
Ended =
    (t : Cluster) × Reach same_text id_of clock [] t
    × ((n : ℕ) × (t.at 1 ≡ seeded n))
    × (t.lock ≡ none)

abbrev ended : Ended
ended =
    Reach-seeded same_text id_of clock [] 1 (rows_of 1) [] 0 second_locks.0 second_locks.2
      second_locks.1

Reach-Absent_example :
    ((todo added : List Complaint) (n : ℕ)
      → ended.0.at 1 ≡ seeding todo added n
      → All (Absent ended.0.rows) added)
    × ((n : ℕ)
        → ended.0.at 1 ≡ seeded n
        → (cs : List Complaint) × (build_seed_complaints same_text id_of (clock 1) ≡ ok cs)
          × All (λ c. (d : Complaint) × (find_row c.id ended.0.rows ≡ some d)) cs)
Reach-Absent_example = Reach-Absent same_text id_of clock [] ended.0 1 ended.1

-- ===== src/Seed.antt =====
-- backend/app/seed.py: the demonstration complaints. `uuid.uuid5` in the program's namespace is the
-- parameter `seed_id`. Seed.Seeders has `main` of several processes at once.
mod Data
pub mod Rows
pub mod Runs
pub mod Presence
pub mod Seeders
use civic_pulse_24i3089_24i.Prelude.{
  ℕ, suc, ◌+◌, ◌-◌, ◌*◌, ◌%◌, Bool, true, false, some, List, [], ◌∷◌, if◌then◌else◌,
}
use civic_pulse_24i3089_24i.Text.{Str, codes}
use civic_pulse_24i3089_24i.Exceptions.{Result, ok, err, ◌>>=◌}
use civic_pulse_24i3089_24i.Schemas.{TriageResult}
use civic_pulse_24i3089_24i.Repository
use civic_pulse_24i3089_24i.Repository.{Complaint, Database}
use civic_pulse_24i3089_24i.Rules
pub use Data.{Seed}
unfoldable pub use Data.{seeds}

abbrev pub hour : ℕ
hour = 3_600_000_000

module _ (lower : Str → Str) (seed_id : Str → ℕ) where
  abbrev pub seed_row : ℕ → ℕ → Seed → TriageResult → Complaint
  seed_row i now s result =
      let created = now - s.hours_ago * hour in
      record {
        id = seed_id s.text;
        text = s.text;
        location = s.location;
        reporter_contact = s.contact;
        category = result.category;
        priority = result.priority;
        status = s.status;
        ai_summary = some result.summary;
        triaged_by = codes "rules";
        triage_latency_ms = 1 + i % 3;
        created_at = created;
        updated_at = created;
      }

  -- the loop over `enumerate(SEEDS)`, from the index on
  unfoldable pub build_from : ℕ → ℕ → List Seed → Result (List Complaint)
  build_from i now [] = ok []
  build_from i now (s ∷ ss) = do
    result ← Rules.triage lower s.text s.location
    rest ← build_from (suc i) now ss
    ok (seed_row i now s result ∷ rest)

  unfoldable pub build_seed_complaints : ℕ → Result (List Complaint)
  unfolding build_from seeds
  build_seed_complaints now = build_from 0 now seeds

module _ (db : Database) where
  abbrev pub one_if : Bool → ℕ
  one_if b = if b then 1 else 0

  abbrev pub add_count : Result Bool → db.State → Result ℕ × db.State → Result ℕ × db.State
  add_count (err e) d rest = (err e, d)
  add_count (ok b) d (ok n, d') = (ok (one_if b + n), d')
  add_count (ok b) d (err e, d') = (err e, d')

  -- `sum(repo.add_if_absent(c) for c in …)`
  unfoldable pub add_all : List Complaint → db.State → Result ℕ × db.State
  unfolding Repository.add_if_absent
  add_all [] d = (ok 0, d)
  add_all (c ∷ cs) d =
      let (added, d') = Repository.add_if_absent db c d in add_count added d' (add_all cs d')

  abbrev pub commit_all : Result ℕ × db.State → Result ℕ × db.State
  commit_all (err e, d) = (err e, d)
  commit_all (ok n, d) =
      let (done, d') = db.commit d in elim done [ ok u ↦ (ok n, d') | err e ↦ (err e, d') ]

  abbrev pub seed_rows : Result (List Complaint) → db.State → Result ℕ × db.State
  seed_rows (err e) d = (err e, d)
  seed_rows (ok rows) d = commit_all (add_all rows d)

module _ (lower : Str → Str) (seed_id : Str → ℕ) (db : Database) where
  unfoldable pub run_seed : ℕ → db.State → Result ℕ × db.State
  unfolding add_all build_seed_complaints
  run_seed now d = seed_rows db (build_seed_complaints lower seed_id now) d

-- ===== src/Complaints.antt =====
-- backend/app/services/complaint_service.py, over the triage service, the repository and the
-- statistics, and the session handling of `Container.repository`. The new id and the clock are
-- arguments: `id` is `uuid.uuid4()`, `now` the time of the write.
pub mod Transitions
pub mod History
pub mod Creation
pub mod Promise
pub mod Operators
pub mod Ledger
use civic_pulse_24i3089_24i.Prelude.{
  ℕ, Bool, true, false, Option, none, some, List, [], ◌∷◌, if◌then◌else◌,
}
use civic_pulse_24i3089_24i.Text.{Str, codes}
use civic_pulse_24i3089_24i.Domain.{Status, open_, can_transition}
use civic_pulse_24i3089_24i.Exceptions.{Exn, Result, ok, err, not_found, invalid_transition}
use civic_pulse_24i3089_24i.Schemas.{Pydantic}
use civic_pulse_24i3089_24i.Schemas.Body.{ComplaintCreate}
use civic_pulse_24i3089_24i.Cache.{Redis}
use civic_pulse_24i3089_24i.Repository
use civic_pulse_24i3089_24i.Repository.{Complaint, ComplaintFilters, Database}
use civic_pulse_24i3089_24i.Triage
use civic_pulse_24i3089_24i.Triage.{World, TriageOutcome, Provider}
use civic_pulse_24i3089_24i.Stats.{invalidate}

-- One request's session beside what the services work on.
pub record Site (C N D : Type 0) : Type 0 where
  pub world : World C N
  pub session : D

-- the row of a new complaint
unfoldable pub new_complaint : ℕ → ℕ → ComplaintCreate → TriageOutcome → Complaint
new_complaint id now data_ outcome = record {
  id = id;
  text = data_.text;
  location = data_.location;
  reporter_contact = data_.reporter_contact;
  category = outcome.result.category;
  priority = outcome.result.priority;
  status = open_;
  ai_summary = some outcome.result.summary;
  triaged_by = outcome.triaged_by;
  triage_latency_ms = outcome.latency_ms;
  created_at = now;
  updated_at = now;
}

abbrev pub Place : Redis → Type 0 → Database → Type 0
Place r N db = Site r.State N db.State

-- the complaint with its new status, as the session's object has it after the flush
abbrev pub moved : Complaint → Status → ℕ → Complaint
moved c target now = record c { status = target; updated_at = now }

module _ (r : Redis) {N : Type 0} (db : Database) where
  abbrev pub drop_stats : Place r N db → Place r N db
  drop_stats s = record s { world = record s.world { cache = invalidate r s.world.cache } }

  abbrev pub with_session : db.State → Place r N db → Place r N db
  with_session d s = record s { session = d }

  -- `self._repo.commit()`, then `self._stats.invalidate()`
  unfoldable pub commit_then_invalidate : Complaint → Place r N db → Result Complaint × Place r N db
  unfolding invalidate
  commit_then_invalidate c s =
      let (done, d) = db.commit s.session in
      elim done [ ok u ↦ (ok c, drop_stats (with_session d s)) | err e ↦ (err e, with_session d s) ]

  -- what follows the statement that wrote
  abbrev pub written :
      Complaint → Result (Unit {0}) → Place r N db → Result Complaint × Place r N db
  written c (ok u) s = commit_then_invalidate c s
  written c (err e) s = (err e, s)

  unfoldable pub store : Complaint → Place r N db → Result Complaint × Place r N db
  store c s = let (done, d) = Repository.add db c s.session in written c done (with_session d s)

  -- `get`
  unfoldable pub get : ℕ → Place r N db → Result Complaint × Place r N db
  unfolding Repository.get
  get id s = elim (Repository.get db id s.session) [
    | none ↦ (err (not_found (codes "complaint")), s)
    | some c ↦ (ok c, s)
  ]

  -- `list`
  unfoldable pub list : ComplaintFilters → ℕ → ℕ → Place r N db → List Complaint × ℕ
  unfolding Repository.list
  list filters page page_size s = Repository.list db filters page page_size s.session

  unfoldable pub advance : Complaint → Status → ℕ → Place r N db → Result Complaint × Place r N db
  advance c target now s =
      let (done, d) = Repository.set_status db c target now s.session in
      written (moved c target now) done (with_session d s)

  unfoldable pub move : Complaint → Status → ℕ → Place r N db → Result Complaint × Place r N db
  move c target now s =
      if can_transition c.status target
      then advance c target now s
      else (err (invalid_transition c.status target), with_session (db.rollback s.session) s)

  -- `change_status`
  unfoldable pub change_status : ℕ → Status → ℕ → Place r N db → Result Complaint × Place r N db
  unfolding move
  change_status id target now s = elim (Repository.get db id s.session) [
    | none ↦ (err (not_found (codes "complaint")), s)
    | some c ↦ move c target now s
  ]

  -- `Container.repository`: an exception rolls the session back
  abbrev pub with_repository : Result Complaint × Place r N db → Result Complaint × Place r N db
  with_repository (ok c, s) = (ok c, s)
  with_repository (err e, s) = (err e, with_session (db.rollback s.session) s)

module _ (p : Pydantic) (lower sha256 : Str → Str) (uuid_text : ℕ → Str) (r : Redis) {N : Type 0}
    (db : Database) (provider fallback : Provider N) (triage_ttl : ℕ) where
  abbrev pub created :
      ℕ
      → ℕ
      → ComplaintCreate
      → Result TriageOutcome × World r.State N
      → Place r N db
      → Result Complaint × Place r N db
  created id now data_ (ok outcome, w) s =
      store r db (new_complaint id now data_ outcome) (record s { world = w })
  created id now data_ (err e, w) s = (err e, record s { world = w })

  -- `create`
  unfoldable pub create :
      ℕ → ComplaintCreate → ℕ → Str → ℕ → Place r N db → Result Complaint × Place r N db
  unfolding store new_complaint
  create id data_ latency_ms at now s =
      created id now data_
        (Triage.triage p lower sha256 r provider fallback triage_ttl (uuid_text id) data_.text
          data_.location latency_ms at s.world)
        s

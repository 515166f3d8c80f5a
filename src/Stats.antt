-- ===== src/Stats.antt =====
-- backend/app/services/stats_service.py. How pydantic writes a `StatsOut` to JSON and reads it back
-- is the parameter `StatsCodec`, and `round(…, 1)` of an average, a float, is `round1`.
pub mod Counts
pub mod Freshness
pub mod Races
use civic_pulse_24i3089_24i.Prelude.{
  ℕ, ◌≡◌, Bool, true, false, Option, none, some, List, [], ◌∷◌, map, length,
}
use civic_pulse_24i3089_24i.Text.{Str, codes}
use civic_pulse_24i3089_24i.Domain.{
  Category, Priority, Status, all_categories, all_priorities, all_statuses, category_value,
  priority_value, status_value,
}
use civic_pulse_24i3089_24i.Exceptions.{Result, ok, err}
use civic_pulse_24i3089_24i.Json.{Json, Decimal}
use civic_pulse_24i3089_24i.Cache
use civic_pulse_24i3089_24i.Cache.{Redis}
use civic_pulse_24i3089_24i.Repository
use civic_pulse_24i3089_24i.Repository.{Aggregates, Database}
use civic_pulse_24i3089_24i.Repository.Sums.{get_count}

abbrev pub stats_key : Str
stats_key = codes "stats:v1"

pub record StatsOut : Type 0 where
  pub total : ℕ
  pub by_category : List (Category × ℕ)
  pub by_priority : List (Priority × ℕ)
  pub by_status : List (Status × ℕ)
  pub by_triaged_by : List (Str × ℕ)
  pub avg_triage_latency_ms : Option Decimal
  pub generated_at : Str

pub record StatsCodec : Type 0 where
  pub model_dump : StatsOut → Json
  pub model_validate : Json → Result StatsOut
  -- a dumped value is an object, and is read back as it was
  pub dump-not_null : (s : StatsOut) → Cache.not_null (model_dump s) ≡ some (model_dump s)
  pub validate-dump : (s : StatsOut) → model_validate (model_dump s) ≡ ok s

abbrev pub rounded : (ℕ → ℕ → Decimal) → Option (ℕ × ℕ) → Option Decimal
rounded round1 none = none
rounded round1 (some (sum, n)) = some (round1 sum n)

-- the `StatsOut` of a miss
unfoldable pub build_stats : (ℕ → ℕ → Decimal) → Aggregates → Str → StatsOut
unfolding get_count
build_stats round1 agg generated_at = record {
  total = agg.total;
  by_category = map (λ c. (c, get_count (category_value c) agg.by_category)) all_categories;
  by_priority = map (λ p. (p, get_count (priority_value p) agg.by_priority)) all_priorities;
  by_status = map (λ s. (s, get_count (status_value s) agg.by_status)) all_statuses;
  by_triaged_by = agg.by_triaged_by;
  avg_triage_latency_ms = rounded round1 agg.avg_latency_ms;
  generated_at = generated_at;
}

module _ (codec : StatsCodec) (round1 : ℕ → ℕ → Decimal) (r : Redis) (db : Database)
    (ttl_seconds : ℕ) where
  abbrev pub hit_of : Result StatsOut → Result (StatsOut × Bool)
  hit_of (ok s) = ok (s, true)
  hit_of (err e) = err e

  unfoldable pub on_cached :
      Result (Option Json) → Str → db.State → r.State → Result (StatsOut × Bool) × r.State
  unfolding build_stats
  on_cached (err e) generated_at d c = (err e, c)
  on_cached (ok (some cached)) generated_at d c = (hit_of (codec.model_validate cached), c)
  on_cached (ok none) generated_at d c =
      let stats = build_stats round1 (Repository.aggregates db d) generated_at in
      (ok (stats, false), Cache.set r stats_key (codec.model_dump stats) ttl_seconds c)

  -- `get`, of a service that has a repository
  unfoldable pub get : Str → db.State → r.State → Result (StatsOut × Bool) × r.State
  unfolding on_cached
  get generated_at d c =
      let (found, c') = Cache.get r stats_key c in on_cached found generated_at d c'

-- `invalidate`
unfoldable pub invalidate : (r : Redis) → r.State → r.State
unfolding Cache.delete
invalidate r c = Cache.delete r stats_key c

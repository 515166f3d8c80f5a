-- ===== src/Triage.antt =====
-- backend/app/services/triage_service.py: cache, provider, fallback. The clock is read by the
-- caller: `latency_ms` is what `_ms(started)` gives, `at` the time of day. `hashlib.sha256` is the
-- parameter `sha256`, from a text to its hexadecimal digest. Metrics and log lines are a list, the
-- newest first.
pub mod Outcomes
pub mod Caching
pub mod Validity
pub mod Recent
pub mod Poisoned
pub mod Recovery
use civic_pulse_24i3089_24i.Prelude.{
  ℕ, ◌-◌, Bool, true, false, Option, none, some, List, [], ◌∷◌, ◌++◌, if◌then◌else◌,
}
use civic_pulse_24i3089_24i.Text.{Str, codes, split, join}
use civic_pulse_24i3089_24i.Exceptions.{
  Exn, Result, ok, err, type_error, class_name, is_key_or_value_error, ◌>>=◌, of_option,
}
use civic_pulse_24i3089_24i.Json.{
  Json, null, boolean, num, str, obj, end, field, subscript, decimal,
}
use civic_pulse_24i3089_24i.Schemas.{Pydantic, TriageResult, model_validate, model_dump, as_text}
use civic_pulse_24i3089_24i.Cache
use civic_pulse_24i3089_24i.Cache.{Redis}

abbrev pub cache_prefix : Str
cache_prefix = codes "triage:v1:"

abbrev pub hits_key : Str
hits_key = codes "triage:cache:hits"

abbrev pub misses_key : Str
misses_key = codes "triage:cache:misses"

abbrev pub recent_key : Str
recent_key = codes "triage:recent"

abbrev pub recent_cap : ℕ
recent_cap = 20

abbrev pub fallback_name : Str
fallback_name = codes "rules:fallback"

pub record TriageOutcome : Type 0 where
  pub result : TriageResult
  pub triaged_by : Str
  pub latency_ms : ℕ
  pub fallback : Bool
  pub cached : Bool
  pub error : Option Str

-- A `TriageProvider` over the outside world `N`, which a call moves on.
pub record Provider (N : Type 0) : Type 0 where
  pub name : Str
  pub run : Str → Str → N → Result TriageResult × N

pub data Metric : Type 0 where
  cache_hit cache_miss : Metric
  fell_back : Str → Str → Metric
  latency : Str → ℕ → Metric

-- `content_hash`
unfoldable pub normalised : (Str → Str) → Str → Str → Str
unfolding split join
normalised lower text location =
    join (codes " ") (split (lower text))
    ++ (codes "|" ++ join (codes " ") (split (lower location)))

unfoldable pub content_hash : (Str → Str) → (Str → Str) → Str → Str → Str
unfolding normalised
content_hash lower sha256 text location = sha256 (normalised lower text location)

abbrev pub or_null : Option Str → Json
or_null none = null
or_null (some s) = str s

abbrev pub entry : TriageResult → Str → Json
entry r name =
    obj (field (codes "result") (model_dump r) (field (codes "triaged_by") (str name) end))

-- `TriageResult.model_validate(cached["result"])`, then `cached["triaged_by"]`. The entries hold a
-- text there; the database would refuse another value, and here reading it raises.
unfoldable pub read_entry : Pydantic → Json → Result (TriageResult × Str)
unfolding subscript
read_entry p cached = do
  result ← subscript cached (codes "result")
  r ← model_validate p result
  name ← subscript cached (codes "triaged_by")
  by ← of_option type_error (as_text name)
  ok (r, by)

-- What the service works on: the cache, the outside world, and what was counted and logged.
pub record World (C N : Type 0) : Type 0 where
  pub cache : C
  pub net : N
  pub metrics : List Metric

abbrev pub recent_entry : Str → Str → TriageOutcome → Json
recent_entry complaint_id at o = obj (
    field (codes "complaint_id") (str complaint_id) (
      field (codes "provider") (str o.triaged_by) (
        field (codes "latency_ms") (num (decimal o.latency_ms 0)) (
          field (codes "fallback") (boolean o.fallback) (
            field (codes "cached") (boolean o.cached)
              (field (codes "error") (or_null o.error) (field (codes "at") (str at) end)))))))

module _ (r : Redis) {N : Type 0} where
  -- `_record`
  unfoldable pub record_outcome : Str → Str → TriageOutcome → World r.State N → World r.State N
  unfolding Cache.push_capped
  record_outcome complaint_id at o w = record w {
    cache = Cache.push_capped r recent_key (recent_entry complaint_id at o) recent_cap w.cache;
  }

  abbrev pub note : Metric → World r.State N → World r.State N
  note m w = record w { metrics = m ∷ w.metrics }

  abbrev pub counted : Str → World r.State N → World r.State N
  counted key w = record w { cache = Cache.incr r key w.cache }

module _ (p : Pydantic) (lower sha256 : Str → Str) (r : Redis) {N : Type 0}
    (provider fallback : Provider N) (ttl_seconds : ℕ) (complaint_id text location : Str)
    (latency_ms : ℕ) (at : Str) where
  abbrev pub Done : Type 0
  Done = Result TriageOutcome × World r.State N

  abbrev pub cache_key : Str
  cache_key = cache_prefix ++ content_hash lower sha256 text location

  abbrev pub finish : TriageOutcome → World r.State N → Done
  finish o w = (ok o, record_outcome r complaint_id at o w)

  -- the entry is good
  unfoldable pub on_hit : TriageResult → Str → World r.State N → Done
  unfolding record_outcome
  on_hit result by w =
      let o : TriageOutcome = record {
        result = result;
        triaged_by = by;
        latency_ms = latency_ms;
        fallback = false;
        cached = true;
        error = none;
      } in
      finish o (note r cache_hit (counted r hits_key w))

  -- the rules answer; what they raise is not caught
  unfoldable pub on_fallback : Exn → Result TriageResult → World r.State N → Done
  unfolding record_outcome class_name
  on_fallback e (err x) w = (err x, w)
  on_fallback e (ok result) w =
      let o : TriageOutcome = record {
        result = result;
        triaged_by = fallback_name;
        latency_ms = latency_ms;
        fallback = true;
        cached = false;
        error = some (class_name e);
      } in
      finish o (note r (latency fallback_name latency_ms) w)

  unfoldable pub on_answer : Result TriageResult → World r.State N → Done
  unfolding record_outcome on_fallback
  on_answer (ok result) w =
      let o : TriageOutcome = record {
        result = result;
        triaged_by = provider.name;
        latency_ms = latency_ms;
        fallback = false;
        cached = false;
        error = none;
      } in
      finish o (
        note r (latency provider.name latency_ms) (record w {
          cache = Cache.set r cache_key (entry result provider.name) ttl_seconds w.cache;
        }))
  on_answer (err e) w =
      let (answer, net) = fallback.run text location w.net in
      on_fallback e answer
        (note r (fell_back provider.name (class_name e)) (record w { net = net }))

  unfoldable pub on_miss : World r.State N → Done
  unfolding on_answer
  on_miss w =
      let w' = note r cache_miss (counted r misses_key w) in
      let (answer, net) = provider.run text location w'.net in
      on_answer answer (record w' { net = net })

  -- a poisoned entry is dropped; other exceptions are not caught
  unfoldable pub on_entry : Result (TriageResult × Str) → World r.State N → Done
  unfolding on_hit on_miss
  on_entry (ok (result, by)) w = on_hit result by w
  on_entry (err e) w =
      let dropped = on_miss (record w { cache = Cache.delete r cache_key w.cache }) in
      if is_key_or_value_error e then dropped else (err e, w)

  unfoldable pub on_cached : Result (Option Json) → World r.State N → Done
  unfolding on_entry
  on_cached (err e) w = (err e, w)
  on_cached (ok none) w = on_miss w
  on_cached (ok (some cached)) w = on_entry (read_entry p cached) w

  unfoldable pub triage : World r.State N → Done
  unfolding on_cached
  triage w =
      let (found, cache) = Cache.get r cache_key w.cache in
      on_cached found (record w { cache = cache })

-- ===== src/Triage/Validity.antt =====
-- The results that `triage` hands on are valid by the schema, and who is named as their source.
use civic_pulse_24i3089_24i.Prelude.{ℕ, ◌≡◌, refl, ◌⊎◌, inl, inr, false, none, any}
use civic_pulse_24i3089_24i.Text.{Str, codes, strip}
use civic_pulse_24i3089_24i.Exceptions.{Exn, Result, ok, err}
use civic_pulse_24i3089_24i.Schemas.{Pydantic, TriageResult, is_line_break}
use civic_pulse_24i3089_24i.Schemas.Laws.{IsValid}
use civic_pulse_24i3089_24i.Cache
use civic_pulse_24i3089_24i.Cache.{Redis}
use civic_pulse_24i3089_24i.Rules
use civic_pulse_24i3089_24i.Rules.Summary.{triage_returns}
use civic_pulse_24i3089_24i.Triage.{
  TriageOutcome, Provider, World, fallback_name, cache_key, on_fallback, on_answer, on_miss,
  on_cached, triage,
}

-- `RuleBasedTriage` as a provider: it has no use for the outside world.
abbrev pub rules_provider : (N : Type 0) → (Str → Str) → Provider N
rules_provider N lower = record {
  name = codes "rules";
  run = λ text location n. (Rules.triage lower text location, n);
}

module _ (p : Pydantic) (lower sha256 : Str → Str) (r : Redis) {N : Type 0}
    (provider fallback : Provider N) (ttl_seconds : ℕ) (complaint_id text location : Str)
    (latency_ms : ℕ) (at : Str) where
  -- A provider's results are valid by the schema.
  abbrev pub IsSound : Provider N → Type 0
  IsSound q = (n : N) (t : TriageResult) → (q.run text location n).0 ≡ ok t → IsValid t

  abbrev pub Answers : Type 0
  Answers = (n : N) → (t : TriageResult) × ((fallback.run text location n).0 ≡ ok t) × IsValid t

  -- Whose result the outcome has, where `m` is what the provider came to: the provider's under its
  -- name, or where it raised the fallback's.
  abbrev pub Source : Result TriageResult → TriageOutcome → Type 0
  Source m o =
      ((m ≡ ok o.result) × (o.triaged_by ≡ provider.name))
      ⊎ ((e : Exn) × (m ≡ err e)
          × (n : N) × ((fallback.run text location n).0 ≡ ok o.result)
          × (o.triaged_by ≡ fallback_name))

  -- A valid result with its source, and the latency that was measured.
  abbrev pub IsGood : Result TriageResult → Result TriageOutcome × World r.State N → Type 0
  IsGood answer end =
      (o : TriageOutcome) × (end.0 ≡ ok o)
      × IsValid o.result
      × Source answer o
      × (o.latency_ms ≡ latency_ms)

  on_fallback-IsGood :
      (e : Exn) (m : Result TriageResult) (w : World r.State N) (n : N) {t : TriageResult}
      → (fallback.run text location n).0 ≡ m
      → m ≡ ok t
      → IsValid t
      → IsGood (err e) (
          on_fallback p lower sha256 r provider fallback ttl_seconds complaint_id text location
            latency_ms at e m w)
  unfolding on_fallback
  on_fallback-IsGood e (ok u) w n {t} from h v =
      let same : u ≡ t = cc h in (_, refl, rw same v, inr (e, refl, n, from, refl), refl)
  on_fallback-IsGood e (err x) w n from h v = cc

  on_answer-IsGood :
      Answers
      → (m : Result TriageResult) (w : World r.State N)
      → ((t : TriageResult) → m ≡ ok t → IsValid t)
      → IsGood m (
          on_answer p lower sha256 r provider fallback ttl_seconds complaint_id text location
            latency_ms at m w)
  unfolding on_answer
  on_answer-IsGood h (ok t) w sound = (_, refl, sound t refl, inl (refl, refl), refl)
  on_answer-IsGood h (err e) w sound =
      let (t, f, v) = h w.net in
      on_fallback-IsGood e (fallback.run text location w.net).0 _ w.net refl f v

  -- Where the cache has nothing for a complaint, a provider whose results are valid and a fallback
  -- that always has a valid answer give a valid result, the provider's under its name or, where it raises,
  -- the fallback's, with the latency that was measured.
  pub triage-IsGood :
      Answers
      → IsSound provider
      → (w : World r.State N)
      → (Cache.get r
          (cache_key p lower sha256 r provider fallback ttl_seconds complaint_id text location
            latency_ms at)
          w.cache).0
        ≡ ok none
      → IsGood (provider.run text location w.net).0 (
          triage p lower sha256 r provider fallback ttl_seconds complaint_id text location
            latency_ms at w)
  unfolding triage on_miss
  triage-IsGood h sound w e =
      rw (e, on_cached)
        (on_answer-IsGood h (provider.run text location w.net).0 _ (λ t f. sound w.net t f))

-- The keyword rules are such a fallback for every location without a line break.
pub rules-Answers :
    (N : Type 0) (lower : Str → Str) (text location : Str)
    → any is_line_break (strip location) ≡ false
    → (n : N)
    → (t : TriageResult) × (((rules_provider N lower).run text location n).0 ≡ ok t) × IsValid t
rules-Answers N lower text location h n =
    let (t, e, v, _, _) = triage_returns lower text location h in (t, e, v)

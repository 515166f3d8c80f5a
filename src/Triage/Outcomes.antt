-- ===== src/Triage/Outcomes.antt =====
-- What `triage` answers, on every path.
use civic_pulse_24i3089_24i.Prelude.{ℕ, ◌≡◌, refl, true, Option, none, some}
use civic_pulse_24i3089_24i.Text.{Str}
use civic_pulse_24i3089_24i.Exceptions.{Exn, Result, ok, err, is_key_or_value_error}
use civic_pulse_24i3089_24i.Json.{Json}
use civic_pulse_24i3089_24i.Schemas.{Pydantic, TriageResult}
use civic_pulse_24i3089_24i.Cache
use civic_pulse_24i3089_24i.Cache.{Redis}
use civic_pulse_24i3089_24i.Triage.{
  TriageOutcome, Provider, World, read_entry, cache_key, on_fallback, on_answer, on_miss, on_entry,
  on_cached, triage,
}

module _ (p : Pydantic) (lower sha256 : Str → Str) (r : Redis) {N : Type 0}
    (provider fallback : Provider N) (ttl_seconds : ℕ) (complaint_id text location : Str)
    (latency_ms : ℕ) (at : Str) where
  abbrev run : World r.State N → Result TriageOutcome × World r.State N
  run =
      triage p lower sha256 r provider fallback ttl_seconds complaint_id text location latency_ms at

  abbrev key : Str
  key =
      cache_key p lower sha256 r provider fallback ttl_seconds complaint_id text location latency_ms
        at

  abbrev missed : World r.State N → Result TriageOutcome × World r.State N
  missed =
      on_miss p lower sha256 r provider fallback ttl_seconds complaint_id text location latency_ms
        at

  abbrev answered : Result TriageResult → World r.State N → Result TriageOutcome × World r.State N
  answered =
      on_answer p lower sha256 r provider fallback ttl_seconds complaint_id text location latency_ms
        at

  -- The fallback has an answer for this complaint, whatever the outside world does.
  abbrev pub Answers : Type 0
  Answers = (n : N) → (t : TriageResult) × ((fallback.run text location n).0 ≡ ok t)

  -- What the cache holds for the complaint is nothing, a good entry, or one that is dropped.
  abbrev CanDrop : Result (TriageResult × Str) → Type 0
  CanDrop (ok e) = Unit
  CanDrop (err e) = is_key_or_value_error e ≡ true

  abbrev pub IsReadable : Result (Option Json) → Type 0
  IsReadable (err e) = ⊥
  IsReadable (ok none) = Unit
  IsReadable (ok (some j)) = CanDrop (read_entry p j)

  abbrev Returns : Result TriageOutcome × World r.State N → Type 0
  Returns m = (o : TriageOutcome) × (m.0 ≡ ok o)

  abbrev fallen :
      Exn → Result TriageResult → World r.State N → Result TriageOutcome × World r.State N
  fallen =
      on_fallback p lower sha256 r provider fallback ttl_seconds complaint_id text location
        latency_ms at

  on_fallback-Returns :
      (e : Exn) (m : Result TriageResult) (w : World r.State N) {t : TriageResult}
      → m ≡ ok t
      → Returns (fallen e m w)
  unfolding on_fallback
  on_fallback-Returns e (ok t) w h = (_, refl)
  on_fallback-Returns e (err x) w h = cc

  on_answer-Returns :
      Answers → (m : Result TriageResult) (w : World r.State N) → Returns (answered m w)
  unfolding on_answer
  on_answer-Returns h (ok t) w = (_, refl)
  on_answer-Returns h (err e) w =
      on_fallback-Returns e (fallback.run text location w.net).0 _ (h w.net).1

  on_miss-Returns : Answers → (w : World r.State N) → Returns (missed w)
  unfolding on_miss
  on_miss-Returns h w = on_answer-Returns h (provider.run text location w.net).0 _

  on_entry-Returns :
      Answers
      → (m : Result (TriageResult × Str)) (w : World r.State N) → CanDrop m
      → Returns (
          on_entry p lower sha256 r provider fallback ttl_seconds complaint_id text location
            latency_ms at m w)
  unfolding on_entry
  on_entry-Returns h (ok (t, by)) w c = (_, refl)
  on_entry-Returns h (err e) w c = rw c (on_miss-Returns h _)

  on_cached-Returns :
      Answers
      → (m : Result (Option Json)) (w : World r.State N) → IsReadable m
      → Returns (
          on_cached p lower sha256 r provider fallback ttl_seconds complaint_id text location
            latency_ms at m w)
  unfolding on_cached
  on_cached-Returns h (err e) w c = absurd c
  on_cached-Returns h (ok none) w c = on_miss-Returns h w
  on_cached-Returns h (ok (some j)) w c = on_entry-Returns h (read_entry p j) w c

  -- Triage returns an outcome, whatever the provider does or raises, provided that the fallback has
  -- an answer for the complaint and that the cache holds nothing for it, a good entry, or an entry
  -- of the kind that is dropped.
  pub triage-Returns :
      Answers
      → (w : World r.State N) → IsReadable (Cache.get r key w.cache).0
      → (o : TriageOutcome) × ((run w).0 ≡ ok o)
  unfolding triage
  triage-Returns h w c = on_cached-Returns h (Cache.get r key w.cache).0 _ c

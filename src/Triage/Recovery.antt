-- ===== src/Triage/Recovery.antt =====
-- A failing provider leaves nothing behind that a later complaint would get.
use civic_pulse_24i3089_24i.Prelude.{ℕ, ◌≡◌, refl, sym, ◌∙◌, ap, true, false, none, some, ◌++◌}
use civic_pulse_24i3089_24i.Text.{Str}
use civic_pulse_24i3089_24i.Exceptions.{Exn, Result, ok, err, class_name}
use civic_pulse_24i3089_24i.Json.{Json}
use civic_pulse_24i3089_24i.Schemas.{Pydantic, TriageResult}
use civic_pulse_24i3089_24i.Cache
use civic_pulse_24i3089_24i.Cache.{Redis}
use civic_pulse_24i3089_24i.Cache.Server.{IsServer}
use civic_pulse_24i3089_24i.Triage.{
  TriageOutcome, Provider, World, cache_prefix, content_hash, entry, misses_key, recent_key,
  recent_cap, recent_entry, fallback_name, on_answer, on_miss, on_cached, triage,
}
use civic_pulse_24i3089_24i.Triage.Caching.{key_of, get-up, misses_apart, answer_stored}

-- What a complaint gets that falls back, and one that the provider answers.
abbrev pub fallen : TriageResult → ℕ → Exn → TriageOutcome
fallen t ms e = record {
  result = t;
  triaged_by = fallback_name;
  latency_ms = ms;
  fallback = true;
  cached = false;
  error = some (class_name e);
}

abbrev pub answered : TriageResult → Str → ℕ → TriageOutcome
answered t name ms = record {
  result = t;
  triaged_by = name;
  latency_ms = ms;
  fallback = false;
  cached = false;
  error = none;
}

module _ (r : Redis) (server : IsServer r) where
  open server use {up, text}

  -- Counting a miss and recording an outcome add no entry.
  passed :
      (h : Str) (j : Json) (s : r.State)
      → up s ≡ true
      → text s (cache_prefix ++ h) ≡ none
      → let s' = Cache.push_capped r recent_key j recent_cap (Cache.incr r misses_key s) in
        (up s' ≡ true) × (text s' (cache_prefix ++ h) ≡ none)
  unfolding Cache.push_capped Cache.incr
  passed h j s live empty =
      let a = server.incr-up misses_key s live in
      (
        server.push_trim-up recent_key (r.dumps j) 19 _ a,
        server.text-push_trim recent_key (r.dumps j) 19 _ (cache_prefix ++ h) a
            ∙ server.text-incr misses_key s (cache_prefix ++ h) live (misses_apart r server h)
            ∙ empty,
      )

  module _ (p : Pydantic) (lower sha256 : Str → Str) {N : Type 0} (ttl : ℕ) where
    abbrev run :
        Provider N
        → Provider N
        → Str
        → Str
        → Str
        → ℕ
        → Str
        → World r.State N
        → Result TriageOutcome × World r.State N
    run provider fallback complaint_id words location ms at w =
        triage p lower sha256 r provider fallback ttl complaint_id words location ms at w

    fails :
        (provider fallback : Provider N) (complaint_id words location : Str) (ms : ℕ) (at : Str)
        (w : World r.State N) (e : Exn) (n m : N) (t : TriageResult)
        → up w.cache ≡ true
        → text w.cache (key_of lower sha256 words location) ≡ none
        → provider.run words location w.net ≡ (err e, n)
        → fallback.run words location n ≡ (ok t, m)
        → let end = run provider fallback complaint_id words location ms at w in
          (end.0 ≡ ok (fallen t ms e))
          × (up end.1.cache ≡ true)
          × (text end.1.cache (key_of lower sha256 words location) ≡ none)
    unfolding triage
    fails provider fallback complaint_id words location ms at w e n m t live empty raised answer =
        let h : Cache.get r (key_of lower sha256 words location) w.cache ≡ (ok none, w.cache) =
          get-up r server (key_of lower sha256 words location) w.cache live ∙ rw empty in
        let (still, none_yet) =
          passed (content_hash lower sha256 words location)
            (recent_entry complaint_id at (fallen t ms e)) w.cache live empty in
        rw (h, on_cached) (rw (raised, on_miss) (rw (answer, on_answer) (refl, still, none_yet)))

    answers :
        (provider fallback : Provider N) (complaint_id words location : Str) (ms : ℕ) (at : Str)
        (w : World r.State N) (n : N) (t : TriageResult)
        → up w.cache ≡ true
        → text w.cache (key_of lower sha256 words location) ≡ none
        → provider.run words location w.net ≡ (ok t, n)
        → (run provider fallback complaint_id words location ms at w).0
          ≡ ok (answered t provider.name ms)
    unfolding triage
    answers provider fallback complaint_id words location ms at w n t live empty answer =
        let h : Cache.get r (key_of lower sha256 words location) w.cache ≡ (ok none, w.cache) =
          get-up r server (key_of lower sha256 words location) w.cache live ∙ rw empty in
        rw (h, on_cached) (rw (answer, on_miss))

    -- On a server that answers and holds no entry for a complaint, where the provider raises and
    -- the fallback answers: the outcome is the fallback's, under "rules:fallback" and with the
    -- class of the exception; and the server holds no entry afterwards, so that a later complaint
    -- of the same content hash, with the cache as the first left it and a provider that answers by
    -- then, gets that provider's result under its name, which is what the server holds from then on.
    pub fails-answers :
        (provider fallback provider' fallback' : Provider N) (complaint_id words location : Str)
        (ms : ℕ) (at : Str) (complaint_id' words' location' : Str) (ms' : ℕ) (at' : Str)
        (w v : World r.State N) (e : Exn) (n m n' : N) (t t' : TriageResult)
        → content_hash lower sha256 words location ≡ content_hash lower sha256 words' location'
        → up w.cache ≡ true
        → text w.cache (key_of lower sha256 words location) ≡ none
        → provider.run words location w.net ≡ (err e, n)
        → fallback.run words location n ≡ (ok t, m)
        → (triage p lower sha256 r provider fallback ttl complaint_id words location ms at
            w).1.cache
          ≡ v.cache
        → provider'.run words' location' v.net ≡ (ok t', n')
        → let first =
            triage p lower sha256 r provider fallback ttl complaint_id words location ms at w in
          let second =
            triage p lower sha256 r provider' fallback' ttl complaint_id' words' location' ms' at'
              v in
          (first.0 ≡ ok (fallen t ms e))
          × (text first.1.cache (key_of lower sha256 words location) ≡ none)
          × (second.0 ≡ ok (answered t' provider'.name ms'))
          × (text second.1.cache (key_of lower sha256 words' location')
              ≡ some (r.dumps (entry t' provider'.name)))
    fails-answers provider fallback provider' fallback' complaint_id words location ms at
          complaint_id' words' location' ms' at' w v e n m n' t t' same live empty raised answer
          left answer' =
        let (fell, still, none_yet) =
          fails provider fallback complaint_id words location ms at w e n m t live empty raised
            answer in
        let live' : up v.cache ≡ true = ap up (sym left) ∙ still in
        let empty' : text v.cache (key_of lower sha256 words' location') ≡ none =
          ap (λ h. text v.cache (cache_prefix ++ h)) (sym same)
          ∙ ap (λ s. text s (key_of lower sha256 words location)) (sym left)
          ∙ none_yet in
        (
          fell,
          none_yet,
          answers provider' fallback' complaint_id' words' location' ms' at' v n' t' live' empty'
              answer',
          (answer_stored r server p lower sha256 provider' fallback' ttl complaint_id' words'
              location' ms' at' v t' n' live' empty' answer').1,
        )

-- ===== src/Triage/Caching.antt =====
-- The content-hash cache: what an answer leaves behind, and what a later complaint finds.
use civic_pulse_24i3089_24i.Prelude.{ℕ, ◌≡◌, refl, sym, ◌∙◌, ap, true, false, none, some, ◌++◌}
use civic_pulse_24i3089_24i.Text.{Str, ◌===◌, ===_iff}
use civic_pulse_24i3089_24i.Exceptions.{ok}
use civic_pulse_24i3089_24i.Json.{Json, find_field}
use civic_pulse_24i3089_24i.Schemas.{Pydantic, TriageResult}
use civic_pulse_24i3089_24i.Schemas.Laws.{IsValid, model_validate-model_dump}
use civic_pulse_24i3089_24i.Cache
use civic_pulse_24i3089_24i.Cache.{Redis, decode}
use civic_pulse_24i3089_24i.Cache.Server.{IsServer}
use civic_pulse_24i3089_24i.Triage.{
  Provider, World, cache_prefix, content_hash, entry, read_entry, misses_key, recent_key,
  recent_cap, recent_entry, on_miss, on_entry, on_cached, triage,
}

-- An entry that the service wrote is read back.
read_entry-entry :
    (p : Pydantic) (t : TriageResult) (name : Str)
    → IsValid t
    → read_entry p (entry t name) ≡ ok (t, name)
unfolding read_entry find_field ◌===◌
read_entry-entry p t name v = rw (model_validate-model_dump p t v)

abbrev pub key_of : (Str → Str) → (Str → Str) → Str → Str → Str
key_of lower sha256 words location = cache_prefix ++ content_hash lower sha256 words location

module _ (r : Redis) (server : IsServer r) where
  open server use {up, text}

  pub get-up :
      (k : Str) (s : r.State) → up s ≡ true → Cache.get r k s ≡ (decode r (some (text s k)), s)
  unfolding Cache.get
  get-up k s h = rw (server.get-up k s h)

  -- The entry's key is none of the counters'.
  pub misses_apart : (h : Str) → (misses_key === (cache_prefix ++ h)) ≡ false
  unfolding ◌===◌
  misses_apart h = refl

  -- After the answer was stored and the outcome recorded, the entry is there.
  stored :
      (h : Str) (v : r.Raw) (ttl : ℕ) (j : Json) (s : r.State)
      → up s ≡ true
      → let s' =
          Cache.push_capped r recent_key j recent_cap
            (r.set (cache_prefix ++ h) v ttl (Cache.incr r misses_key s)).1 in
        (up s' ≡ true) × (text s' (cache_prefix ++ h) ≡ some v)
  unfolding Cache.push_capped Cache.incr
  stored h v ttl j s live =
      let a = server.incr-up misses_key s live in
      let b = server.set-up (cache_prefix ++ h) v ttl (r.incr misses_key s).1 a in
      (
        server.push_trim-up recent_key (r.dumps j) 19 _ b,
        server.text-push_trim recent_key (r.dumps j) 19 _ (cache_prefix ++ h) b
            ∙ server.text-set (cache_prefix ++ h) v ttl (r.incr misses_key s).1 (cache_prefix ++ h)
                a
            ∙ rw ((===_iff (cache_prefix ++ h) (cache_prefix ++ h)).1 refl),
      )

  module _ (p : Pydantic) (lower sha256 : Str → Str) {N : Type 0} where
    -- A complaint whose entry is in the cache gets the stored result and the name of who gave it,
    -- marked as cached, and the outside world is not touched.
    pub triage-hit :
        (provider fallback : Provider N) (ttl : ℕ) (complaint_id words location : Str) (ms : ℕ)
        (at : Str) (v : World r.State N) (t : TriageResult) (name : Str)
        → up v.cache ≡ true
        → text v.cache (key_of lower sha256 words location) ≡ some (r.dumps (entry t name))
        → IsValid t
        → let end =
            triage p lower sha256 r provider fallback ttl complaint_id words location ms at v in
          (end.0
            ≡ ok (record {
              result = t;
              triaged_by = name;
              latency_ms = ms;
              fallback = false;
              cached = true;
              error = none;
            }))
          × (end.1.net ≡ v.net)
    unfolding triage
    triage-hit provider fallback ttl complaint_id words location ms at v t name live found valid =
        let e : Cache.get r (key_of lower sha256 words location) v.cache
            ≡ (ok (some (entry t name)), v.cache) =
          get-up (key_of lower sha256 words location) v.cache live
          ∙ rw (found, server.loads-dumps) in
        (
          rw (e, on_cached) (rw (read_entry-entry p t name valid, on_entry)),
          rw (e, on_cached) (rw (read_entry-entry p t name valid, on_entry)),
        )

    -- Where nothing is cached for a complaint, the provider's answer is stored.
    pub answer_stored :
        (provider fallback : Provider N) (ttl : ℕ) (complaint_id words location : Str) (ms : ℕ)
        (at : Str) (w : World r.State N) (t : TriageResult) (n : N)
        → up w.cache ≡ true
        → text w.cache (key_of lower sha256 words location) ≡ none
        → provider.run words location w.net ≡ (ok t, n)
        → let s' =
            (triage p lower sha256 r provider fallback ttl complaint_id words location ms at
              w).1.cache in
          (up s' ≡ true)
          × (text s' (key_of lower sha256 words location) ≡ some (r.dumps (entry t provider.name)))
    unfolding triage Cache.set
    answer_stored provider fallback ttl complaint_id words location ms at w t n live empty answer =
        let e : Cache.get r (key_of lower sha256 words location) w.cache ≡ (ok none, w.cache) =
          get-up (key_of lower sha256 words location) w.cache live ∙ rw empty in
        rw (e, on_cached)
          (rw (answer, on_miss)
            (stored (content_hash lower sha256 words location) (r.dumps (entry t provider.name)) ttl
              (recent_entry complaint_id at (record {
                result = t;
                triaged_by = provider.name;
                latency_ms = ms;
                fallback = false;
                cached = false;
                error = none;
              }))
              w.cache live))

    -- Two complaints whose texts and locations have one content hash share one inference: if the
    -- server answers and holds nothing for the first, and the provider gives it a result that is
    -- valid by the schema, then the second, with the cache as the first left it and whatever
    -- provider there is by then, gets that result from the cache under the first provider's name,
    -- and the outside world is not touched.
    pub duplicate_hits :
        (provider fallback provider' fallback' : Provider N) (ttl ttl' : ℕ)
        (complaint_id words location : Str) (ms : ℕ) (at : Str)
        (complaint_id' words' location' : Str) (ms' : ℕ) (at' : Str) (w v : World r.State N)
        (t : TriageResult) (n : N)
        → content_hash lower sha256 words location ≡ content_hash lower sha256 words' location'
        → up w.cache ≡ true
        → text w.cache (key_of lower sha256 words location) ≡ none
        → provider.run words location w.net ≡ (ok t, n)
        → IsValid t
        → (triage p lower sha256 r provider fallback ttl complaint_id words location ms at
            w).1.cache
          ≡ v.cache
        → let end =
            triage p lower sha256 r provider' fallback' ttl' complaint_id' words' location' ms' at'
              v in
          (end.0
            ≡ ok (record {
              result = t;
              triaged_by = provider.name;
              latency_ms = ms';
              fallback = false;
              cached = true;
              error = none;
            }))
          × (end.1.net ≡ v.net)
    duplicate_hits provider fallback provider' fallback' ttl ttl' complaint_id words location ms at
          complaint_id' words' location' ms' at' w v t n same live empty answer valid left =
        let (still, there) =
          answer_stored provider fallback ttl complaint_id words location ms at w t n live empty
            answer in
        triage-hit provider' fallback' ttl' complaint_id' words' location' ms' at' v t provider.name
          (ap up (sym left) ∙ still)
          (ap (λ h. text v.cache (cache_prefix ++ h)) (sym same)
            ∙ ap (λ s. text s (key_of lower sha256 words location)) (sym left)
            ∙ there)
          valid

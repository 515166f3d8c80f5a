-- ===== src/Triage/Poisoned.antt =====
-- An entry of the cache that does not have the shape of one.
use civic_pulse_24i3089_24i.Prelude.{ℕ, ◌≡◌, refl, ◌∙◌, true, Bool, none, some, ◌⊎◌, inl, inr}
use civic_pulse_24i3089_24i.Text.{Str}
use civic_pulse_24i3089_24i.Exceptions.{ok, err, Exn, json_decode_error, type_error}
use civic_pulse_24i3089_24i.Json.{Json, Items, boolean, num, str, arr, Decimal}
use civic_pulse_24i3089_24i.Schemas.{Pydantic}
use civic_pulse_24i3089_24i.Cache
use civic_pulse_24i3089_24i.Cache.{Redis, decode, not_null}
use civic_pulse_24i3089_24i.Cache.Server.{IsServer}
use civic_pulse_24i3089_24i.Triage.{Provider, World, read_entry, on_entry, on_cached, triage}
use civic_pulse_24i3089_24i.Triage.Caching.{key_of, get-up}

-- JSON that is there, and is no object.
pub data IsFlat : Json → Type 0 where
  flat_boolean : (b : Bool) → IsFlat (boolean b)
  flat_number : (d : Decimal) → IsFlat (num d)
  flat_text : (s : Str) → IsFlat (str s)
  flat_list : (js : Items) → IsFlat (arr js)

read-IsFlat : (p : Pydantic) {j : Json} → IsFlat j → read_entry p j ≡ err type_error
unfolding read_entry
read-IsFlat p (flat_boolean b) = refl
read-IsFlat p (flat_number d) = refl
read-IsFlat p (flat_text s) = refl
read-IsFlat p (flat_list js) = refl

there-IsFlat : {j : Json} → IsFlat j → not_null j ≡ some j
there-IsFlat (flat_boolean b) = refl
there-IsFlat (flat_number d) = refl
there-IsFlat (flat_text s) = refl
there-IsFlat (flat_list js) = refl

module _ (r : Redis) (server : IsServer r) (p : Pydantic) (lower sha256 : Str → Str) {N : Type 0}
    (provider fallback : Provider N) (ttl : ℕ) (complaint_id words location : Str) (ms : ℕ)
    (at : Str) where
  open server use {up, text}

  -- What the cache holds for the complaint decides.
  found :
      (v : World r.State N) (raw : r.Raw) (j : Json)
      → up v.cache ≡ true
      → text v.cache (key_of lower sha256 words location) ≡ some raw
      → r.loads raw ≡ some j
      → not_null j ≡ some j
      → triage p lower sha256 r provider fallback ttl complaint_id words location ms at v
        ≡ on_entry p lower sha256 r provider fallback ttl complaint_id words location ms at
            (read_entry p j)
            v
  unfolding triage
  found v raw j live there loaded some_ =
      let e : Cache.get r (key_of lower sha256 words location) v.cache ≡ (ok (some j), v.cache) =
        get-up r server (key_of lower sha256 words location) v.cache live
        ∙ rw (there, loaded) (rw some_) in
      rw (e, on_cached)

  corrupt :
      (v : World r.State N) (raw : r.Raw)
      → up v.cache ≡ true
      → text v.cache (key_of lower sha256 words location) ≡ some raw
      → r.loads raw ≡ none
      → triage p lower sha256 r provider fallback ttl complaint_id words location ms at v
        ≡ (err json_decode_error, v)
  unfolding triage
  corrupt v raw live there broken =
      let e : Cache.get r (key_of lower sha256 words location) v.cache
          ≡ (err json_decode_error, v.cache) =
        get-up r server (key_of lower sha256 words location) v.cache live ∙ rw (there, broken) in
      rw (e, on_cached)

  -- What is stored is no JSON, or JSON that is neither null nor an object.
  abbrev pub IsUnusable : r.Raw → Exn → Type 0
  IsUnusable raw e =
      ((r.loads raw ≡ none) × (e ≡ json_decode_error))
      ⊎ ((j : Json) × (r.loads raw ≡ some j) × IsFlat j × (e ≡ type_error))

  -- On a server that answers and holds, under the key of a complaint, text that is no JSON, or
  -- JSON that is neither null nor an object: `triage` of that complaint raises a JSONDecodeError
  -- or a TypeError, whatever the providers are, and changes nothing, so the entry is still there
  -- for the next one.
  pub triage-IsUnusable :
      (v : World r.State N) (raw : r.Raw) (e : Exn)
      → up v.cache ≡ true
      → text v.cache (key_of lower sha256 words location) ≡ some raw
      → IsUnusable raw e
      → triage p lower sha256 r provider fallback ttl complaint_id words location ms at v
        ≡ (err e, v)
  unfolding on_entry
  triage-IsUnusable v raw e live there (inl (broken, same)) =
      corrupt v raw live there broken ∙ rw same
  triage-IsUnusable v raw e live there (inr (j, loaded, flat, same)) =
      found v raw j live there loaded (there-IsFlat flat) ∙ rw (read-IsFlat p flat, same)

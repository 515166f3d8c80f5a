-- ===== src/Complaints/Promise.antt =====
-- The service as it is deployed: `create` with the provider that the settings select.
use civic_pulse_24i3089_24i.Prelude.{
  ℕ, refl, ◌<◌, ◌^◌, ◌≤◌, ◌≡◌, Bool, false, Option, none, [], ◌∷◌, arith, any, length,
  length-append,
}
use civic_pulse_24i3089_24i.Text.{Str, codes, strip, has_unstorable}
use civic_pulse_24i3089_24i.Exceptions.{ok}
use civic_pulse_24i3089_24i.Json.{Json}
use civic_pulse_24i3089_24i.Schemas.{Pydantic, TriageResult, is_line_break}
use civic_pulse_24i3089_24i.Schemas.Body.{ComplaintCreate, IsStorable}
use civic_pulse_24i3089_24i.Cache
use civic_pulse_24i3089_24i.Cache.{Redis}
use civic_pulse_24i3089_24i.Llm.{Reply}
use civic_pulse_24i3089_24i.Repository.{Database, find_row}
use civic_pulse_24i3089_24i.Repository.Sessions.{IsDatabase}
use civic_pulse_24i3089_24i.Triage.{Provider}
use civic_pulse_24i3089_24i.Triage.Caching.{key_of}
use civic_pulse_24i3089_24i.Triage.Validity.{rules_provider}
use civic_pulse_24i3089_24i.Selection.{
  Settings, ProviderName, choose_llm, choose_ollama, choose_rules, choose_simulated, Request,
  or_rules, make_llm, selected, build_provider,
}
use civic_pulse_24i3089_24i.Selection.Choices.{build_provider-IsValid}
use civic_pulse_24i3089_24i.Complaints.{Place, create}
use civic_pulse_24i3089_24i.Complaints.Creation.{IsClean, IsName, IsCreated, create-IsCreated}

module _ (p : Pydantic) (loads : Str → Option Json) (lower : Str → Str) (digest_byte : Str → ℕ)
    (is_word : ℕ → Bool) (repr : Json → Str) {N : Type 0} (post : Request → N → Reply × N)
    (sleep : ℕ → N → N) where
  abbrev pub provider_of : Settings → Provider N
  provider_of = build_provider p loads lower digest_byte is_word repr post sleep

  llm-IsName :
      (settings : Settings) (key : Str)
      → length settings.llm_provider_label ≤ 28
      → has_unstorable settings.llm_provider_label ≡ false
      → IsName
          (or_rules p loads lower digest_byte is_word repr post sleep
            (make_llm p loads lower digest_byte is_word repr post sleep settings key)).name
  llm-IsName settings [] h k = record { short = omega arith; clean = refl }
  llm-IsName settings (c ∷ key) h k = record {
    short = omega (arith, length-append (codes "llm:") settings.llm_provider_label);
    clean = k;
  }

  selected-IsName :
      (settings : Settings) (choice : ProviderName)
      → length settings.llm_provider_label ≤ 28
      → has_unstorable settings.llm_provider_label ≡ false
      → IsName (selected p loads lower digest_byte is_word repr post sleep settings choice).name
  selected-IsName settings choose_llm h k = llm-IsName settings settings.llm_api_key h k
  selected-IsName settings choose_ollama h k = record { short = omega arith; clean = refl }
  selected-IsName settings choose_rules h k = record { short = omega arith; clean = refl }
  selected-IsName settings choose_simulated h k = record { short = omega arith; clean = refl }

  built-IsName :
      (settings : Settings)
      → length settings.llm_provider_label ≤ 28
      → has_unstorable settings.llm_provider_label ≡ false
      → IsName (provider_of settings).name
  unfolding build_provider
  built-IsName settings h k = selected-IsName settings settings.triage_provider h k

  module _ (is_byte : (s : Str) → digest_byte s < 256) (sha256 : Str → Str) (uuid_text : ℕ → Str)
      (r : Redis) (db : Database) (laws : IsDatabase db) (triage_ttl : ℕ) where
    -- The service keeps its promise with every provider that the settings can select, with or
    -- without an API key, and whatever the network and the model do: on a database that carries out
    -- its statements, for a body that meets the limits of the table, a location on one line,
    -- nothing cached for the complaint, a label of at most 28 characters, a latency below 2 ^ 31
    -- milliseconds, a new id, and neither U+0000 nor a surrogate in the body, the label or a summary of the provider,
    -- `create` answers the complaint, open and in the reporter's words, and what is committed is
    -- that complaint and the rows that the session saw. Its category, priority and summary are the
    -- provider's, under the provider's name, where it answers, and those of the keyword rules under
    -- "rules:fallback" where it raises. Of SHA-256 it is taken that a digest's first byte is below 256.
    pub create_with_selected :
        (settings : Settings) (id : ℕ) (data_ : ComplaintCreate) (latency_ms : ℕ) (at : Str)
        (now : ℕ) (s : Place r N db)
        → IsStorable data_
        → IsClean data_
        → any is_line_break (strip data_.location) ≡ false
        → length settings.llm_provider_label ≤ 28
        → has_unstorable settings.llm_provider_label ≡ false
        → latency_ms < 2 ^ 31
        → find_row id (db.rows s.session) ≡ none
        → (Cache.get r (key_of lower sha256 data_.text data_.location) s.world.cache).0 ≡ ok none
        → ((n : N) (t : TriageResult)
            → ((provider_of settings).run data_.text data_.location n).0 ≡ ok t
            → has_unstorable t.summary ≡ false)
        → IsCreated p lower sha256 uuid_text r db
            (provider_of settings)
            triage_ttl
            id
            data_
            latency_ms
            at
            now
            s
            (create p lower sha256 uuid_text r db
              (provider_of settings)
              (rules_provider N lower)
              triage_ttl
              id
              data_
              latency_ms
              at
              now
              s)
    create_with_selected settings id data_ latency_ms at now s fits clean flat short plain small
          absent missed results =
        create-IsCreated p lower sha256 uuid_text r db (provider_of settings) triage_ttl id data_
          latency_ms at now laws s
          (record {
            fits = fits;
            clean = clean;
            name = built-IsName settings short plain;
            small = small;
            results = results;
          })
          flat
          (build_provider-IsValid p loads lower digest_byte is_byte is_word repr post sleep settings
            data_.text data_.location)
          absent missed

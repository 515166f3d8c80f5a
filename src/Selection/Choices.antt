-- ===== src/Selection/Choices.antt =====
-- The results of whichever provider is selected.
use civic_pulse_24i3089_24i.Prelude.{
  ℕ, ◌<◌, arith, ◌≡◌, refl, sym, ◌∙◌, Bool, true, Option, none, some, [], ◌∷◌, Bool-cases, inl, inr,
}
use civic_pulse_24i3089_24i.Text.{Str}
use civic_pulse_24i3089_24i.Exceptions.{
  Result, ok, err, validation_error, of_option, is_retryable, ◌>>=◌,
}
use civic_pulse_24i3089_24i.Domain.{Category}
use civic_pulse_24i3089_24i.Json.{Json, in_unit}
use civic_pulse_24i3089_24i.Schemas.{Pydantic, TriageResult}
use civic_pulse_24i3089_24i.Schemas.Laws.{IsValid, make_result-IsValid}
use civic_pulse_24i3089_24i.Prompt.Answer.{parse_triage_json, parse_triage_json-cases}
use civic_pulse_24i3089_24i.Llm
use civic_pulse_24i3089_24i.Llm.{Kind, llm, ollama, Reply, read_reply, default_attempts}
use civic_pulse_24i3089_24i.Llm.Retry.{retry_of, triage-retries_once}
use civic_pulse_24i3089_24i.Llm.Replies.{read_reply-trusted}
use civic_pulse_24i3089_24i.Rules
use civic_pulse_24i3089_24i.Rules.{category_of, priority_of, summary_of, confidence_of, best}
use civic_pulse_24i3089_24i.Triage.{Provider}
use civic_pulse_24i3089_24i.Selection.{
  Settings, ProviderName, choose_llm, choose_ollama, choose_rules, choose_simulated, FailureMode,
  no_failure, raise_upstream, malformed, timeout, Request, request, simulate, call_once, selected,
  build_provider, wrong_answer, with_confidence, is_other, seeded, first_hundredths,
  halved_hundredths, simulated_confidence,
}

abbrev AllValid : Result TriageResult → Type 0
AllValid m = (t : TriageResult) → m ≡ ok t → IsValid t

of_option-ok :
    (o : Option TriageResult) (t : TriageResult) → of_option validation_error o ≡ ok t → o ≡ some t
of_option-ok none t h = cc
of_option-ok (some a) t h = cc

rules-AllValid :
    (lower : Str → Str) (text location : Str) → AllValid (Rules.triage lower text location)
unfolding Rules.triage
rules-AllValid lower text location t h =
    let low = lower text in
    let c = category_of low in
    (make_result-IsValid c (priority_of low) (summary_of c text location)
      (confidence_of c (best low).1) (of_option-ok _ t h)).0

module _ {W : Type 0} (call : W → Result TriageResult × W) (sleep : ℕ → W → W) where
  retry_of-AllValid :
      (m : Result TriageResult) (w : W)
      → AllValid m
      → ((v : W) → AllValid (call v).0)
      → AllValid (retry_of call sleep m w).0
  retry_of-AllValid (ok t) w first later u h = first u h
  retry_of-AllValid (err e) w first later u h = elim (Bool-cases (is_retryable e)) [
    | inl again ↦ later (sleep 1 w) u (rw again at h)
    | inr final ↦ absurd (let z : err e ≡ ok u = rw final at h in cc z)
  ]

first_hundredths-lt : (byte : ℕ) → byte < 256 → first_hundredths byte < 96
unfolding first_hundredths
first_hundredths-lt byte h = omega (arith, h)

halved_hundredths-lt : (h : ℕ) → h < 96 → halved_hundredths h < 100
unfolding halved_hundredths
halved_hundredths-lt h e = ground (arith, e)

simulated_confidence-unit :
    (c : Category) (byte : ℕ) → byte < 256 → in_unit (simulated_confidence c byte) ≡ true
unfolding simulated_confidence
simulated_confidence-unit c byte h =
    let first = first_hundredths-lt byte h in
    let half = halved_hundredths-lt (first_hundredths byte) first in
    elim (Bool-cases (is_other c)) [
      | inl e ↦ rw e (ground (arith, half))
      | inr e ↦ rw e (ground (arith, first))
    ]

module _ (p : Pydantic) (loads : Str → Option Json) (lower : Str → Str) (digest_byte : Str → ℕ)
    (is_byte : (s : Str) → digest_byte s < 256) where
  with_confidence-AllValid :
      (text location : Str) (m : Result TriageResult)
      → AllValid m
      → AllValid (m >>= λ base. ok (with_confidence p loads lower digest_byte text location base))
  with_confidence-AllValid text location (err e) h t k = cc
  with_confidence-AllValid text location (ok base) h t k =
      let v = h base refl in
      let same : with_confidence p loads lower digest_byte text location base ≡ t = cc k in
      rw (← same) (record {
        summary = v.summary;
        confidence =
            simulated_confidence-unit base.category
              (digest_byte (seeded p loads lower digest_byte text location))
              (is_byte (seeded p loads lower digest_byte text location));
      })

  parsed-AllValid : (raw : Str) → AllValid (parse_triage_json p loads raw)
  parsed-AllValid raw t h = elim (parse_triage_json-cases p loads raw) [
    | inl (u, e, v) ↦ (let same : u ≡ t = cc (e, h) in rw same at v)
    | inr e ↦ absurd (let z : err _ ≡ ok t = sym e ∙ h in cc z)
  ]

  simulate-AllValid :
      (mode : FailureMode) (text location : Str)
      → AllValid (simulate p loads lower digest_byte mode text location)
  unfolding simulate
  simulate-AllValid raise_upstream text location t h = cc
  simulate-AllValid timeout text location t h = cc
  simulate-AllValid malformed text location t h = parsed-AllValid wrong_answer t h
  simulate-AllValid no_failure text location t h =
      with_confidence-AllValid text location (Rules.triage lower text location)
        (rules-AllValid lower text location) t h

  module _ (is_word : ℕ → Bool) (repr : Json → Str) {N : Type 0} (post : Request → N → Reply × N)
      (sleep : ℕ → N → N) where
    abbrev call : Settings → Kind → Str → Str → N → Result TriageResult × N
    call = call_once p loads lower digest_byte is_word repr post sleep

    call-AllValid :
        (settings : Settings) (kind : Kind) (text location : Str) (n : N)
        → AllValid (call settings kind text location n).0
    unfolding call_once
    call-AllValid settings kind text location n t h =
        let (_, _, _, _, v) =
          read_reply-trusted repr p loads kind
            (post (request is_word settings kind text location) n).0 h in
        v

    http-AllValid :
        (settings : Settings) (kind : Kind) (text location : Str) (n : N)
        → AllValid (Llm.triage (call settings kind text location) sleep default_attempts n).0
    http-AllValid settings kind text location n = rw triage-retries_once (
        retry_of-AllValid (call settings kind text location) sleep _ _
          (call-AllValid settings kind text location n) (call-AllValid settings kind text location))

    abbrev Gives : Provider N → Type 0
    Gives q = (text location : Str) (n : N) → AllValid (q.run text location n).0

    abbrev built : Settings → Provider N
    built = build_provider p loads lower digest_byte is_word repr post sleep

    llm-Gives :
        (settings : Settings) (key : Str)
        → Gives (
            selected p loads lower digest_byte is_word repr post sleep
              (record settings { llm_api_key = key })
              choose_llm)
    llm-Gives settings [] text location n = rules-AllValid lower text location
    llm-Gives settings (c ∷ key) text location n =
        http-AllValid (record settings { llm_api_key = c ∷ key }) llm text location n

    selected-Gives :
        (settings : Settings) (choice : ProviderName)
        → Gives (selected p loads lower digest_byte is_word repr post sleep settings choice)
    selected-Gives settings choose_llm text location n =
        llm-Gives settings settings.llm_api_key text location n
    selected-Gives settings choose_ollama text location n =
        http-AllValid settings ollama text location n
    selected-Gives settings choose_rules text location n = rules-AllValid lower text location
    selected-Gives settings choose_simulated text location n =
        simulate-AllValid settings.simulated_failure_mode text location

    -- Whichever provider the settings select, with or without an API key, and whatever the model
    -- answers, each result that it returns is valid by the schema. Of SHA-256 it is taken that a
    -- digest's first byte is below 256.
    pub build_provider-IsValid :
        (settings : Settings) (text location : Str) (n : N) (t : TriageResult)
        → ((build_provider p loads lower digest_byte is_word repr post sleep settings).run text
            location n).0
          ≡ ok t
        → IsValid t
    unfolding build_provider
    build_provider-IsValid settings text location n t h =
        selected-Gives settings settings.triage_provider text location n t h

-- ===== src/Selection.antt =====
-- backend/app/providers/triage/factory.py and simulated.py, with the settings that they read, and
-- the requests of the two HTTP models. `digest_byte` is the first byte of the SHA-256 digest of a text.
pub mod Choices
use civic_pulse_24i3089_24i.Prelude.{
  ℕ, Bool, true, false, Option, none, some, List, [], ◌∷◌, ◌++◌, ◌==◌, if◌then◌else◌, ltb, ◌+◌, ◌*◌,
  ◌/◌, ◌%◌, ◌^◌,
}
use civic_pulse_24i3089_24i.Text.{Str, codes}
use civic_pulse_24i3089_24i.Domain.{Category, other}
use civic_pulse_24i3089_24i.Exceptions.{
  Exn, Result, ok, err, triage_upstream_error, triage_timeout, ◌>>=◌,
}
use civic_pulse_24i3089_24i.Json.{
  Decimal, decimal, Json, num, str, boolean, arr, obj, nil, cons, end, field,
}
use civic_pulse_24i3089_24i.Schemas.{Pydantic, TriageResult}
use civic_pulse_24i3089_24i.Prompt.System.{system_prompt}
use civic_pulse_24i3089_24i.Prompt.{build_user_prompt}
use civic_pulse_24i3089_24i.Prompt.Answer.{parse_triage_json}
use civic_pulse_24i3089_24i.Llm
use civic_pulse_24i3089_24i.Llm.{Kind, llm, ollama, Reply, read_reply, default_attempts}
use civic_pulse_24i3089_24i.Rules
use civic_pulse_24i3089_24i.Triage.{Provider}
use civic_pulse_24i3089_24i.Triage.Validity.{rules_provider}

-- `TRIAGE_PROVIDER` and `SIMULATED_FAILURE_MODE`
pub data ProviderName : Type 0 where
  choose_llm choose_ollama choose_rules choose_simulated : ProviderName

pub data FailureMode : Type 0 where
  no_failure raise_upstream malformed timeout : FailureMode

pub record Settings : Type 0 where
  pub triage_provider : ProviderName
  pub llm_base_url : Str
  pub llm_model : Str
  pub llm_api_key : Str
  pub llm_provider_label : Str
  pub ollama_base_url : Str
  pub ollama_model : Str
  pub simulated_failure_mode : FailureMode

pub record Request : Type 0 where
  pub url : Str
  pub payload : Json
  pub headers : List (Str × Str)

-- `base_url.rstrip("/")`
unfoldable pub drop_slashes : Str → Str
drop_slashes [] = []
drop_slashes (c ∷ s) = elim (drop_slashes s) [
  | [] ↦ if c == 47 then [] else c ∷ []
  | d ∷ t ↦ c ∷ d ∷ t
]

-- the answer of the "malformed" mode
abbrev pub wrong_answer : Str
wrong_answer =
    codes
      "{\"category\": \"potholes\", \"priority\": \"urgent\", \"summary\": \"x\", \"confidence\": 2}"

module _ (is_word : ℕ → Bool) where
  abbrev message : Str → Str → Json
  message role content =
      obj (field (codes "role") (str role) (field (codes "content") (str content) end))

  -- `build_messages`
  unfoldable pub build_messages : Str → Str → Json
  unfolding build_user_prompt
  build_messages text location = arr (
      cons (message (codes "system") system_prompt)
        (cons (message (codes "user") (build_user_prompt is_word text location)) nil))

  -- `LLMTriage._request` and `OllamaTriage._request`
  unfoldable pub request : Settings → Kind → Str → Str → Request
  unfolding build_messages drop_slashes
  request settings llm text location = record {
    url = drop_slashes settings.llm_base_url ++ codes "/chat/completions";
    payload = obj (
        field (codes "model") (str settings.llm_model) (
          field (codes "messages") (build_messages text location) (
            field (codes "temperature") (num (decimal 0 0)) (
              field (codes "max_tokens") (num (decimal 600 0)) (
                field (codes "response_format")
                  (obj (field (codes "type") (str (codes "json_object")) end)) end)))));
    headers = (codes "Authorization", codes "Bearer " ++ settings.llm_api_key) ∷ [];
  }
  request settings ollama text location = record {
    url = drop_slashes settings.ollama_base_url ++ codes "/api/chat";
    payload = obj (
        field (codes "model") (str settings.ollama_model) (
          field (codes "messages") (build_messages text location) (
            field (codes "stream") (boolean false) (
              field (codes "format") (str (codes "json")) (
                field (codes "options") (obj (field (codes "temperature") (num (decimal 0 0)) end))
                  end)))));
    headers = [];
  }

abbrev pub is_other : Category → Bool
is_other other = true
is_other _ = false

-- `round(0.6 + (byte / 255) * 0.35, 2)` in hundredths: 60 + 35 * byte / 255 to the nearest whole
-- number. It comes no nearer to a tie than 1 / 102, so that the float's error does not show.
unfoldable pub first_hundredths : ℕ → ℕ
first_hundredths byte = 60 + (35 * byte * 2 + 255) / (255 * 2)

-- `round(confidence / 2, 2)` in hundredths. Half of an odd number of hundredths is a tie, and what
-- decides is whether the float nearest to `h / 100`, which from a half to one is a whole number of
-- 2 ^ -53, lies above it; where it does not differ the tie goes to the even neighbour.
unfoldable pub halved_hundredths : ℕ → ℕ
halved_hundredths h =
    let part = h * 2 ^ 53 % 100 in
    let odd = h / 2 % 2 in
    let tie = if part == 0 then odd else if ltb 50 part then 1 else 0 in
    if h % 2 == 0 then h / 2 else h / 2 + tie

unfoldable pub simulated_confidence : Category → ℕ → Decimal
unfolding first_hundredths halved_hundredths
simulated_confidence category byte =
    let first = first_hundredths byte in
    decimal (if is_other category then halved_hundredths first else first) 2

-- the default of `seed`
abbrev pub default_seed : Str
default_seed = codes "civicpulse"

module _ (p : Pydantic) (loads : Str → Option Json) (lower : Str → Str)
    (digest_byte : Str → ℕ) where
  -- what is digested: the seed, the text and the location
  abbrev pub seeded : Str → Str → Str
  seeded text location = default_seed ++ (codes "|" ++ (text ++ (codes "|" ++ location)))

  -- `base.model_copy(update=…)`, which does not validate
  abbrev pub with_confidence : Str → Str → TriageResult → TriageResult
  with_confidence text location base = record base {
    confidence = simulated_confidence base.category (digest_byte (seeded text location));
  }

  -- `SimulatedTriage.triage`
  unfoldable pub simulate : FailureMode → Str → Str → Result TriageResult
  unfolding parse_triage_json Rules.triage simulated_confidence
  simulate raise_upstream text location = err triage_upstream_error
  simulate timeout text location = err triage_timeout
  simulate malformed text location = parse_triage_json p loads wrong_answer
  simulate no_failure text location = do
    base ← Rules.triage lower text location
    ok (with_confidence text location base)

  module _ (is_word : ℕ → Bool) (repr : Json → Str) {N : Type 0} (post : Request → N → Reply × N)
      (sleep : ℕ → N → N) where
    -- `_call_once`
    unfoldable pub call_once : Settings → Kind → Str → Str → N → Result TriageResult × N
    unfolding request read_reply
    call_once settings kind text location n =
        let (reply, n') = post (request is_word settings kind text location) n in
        (read_reply repr p loads kind reply, n')

    abbrev pub http_provider : Settings → Kind → Str → Provider N
    http_provider settings kind name = record {
      name = name;
      run = λ text location n.
          Llm.triage (call_once settings kind text location) sleep default_attempts n;
    }

    -- `LLMTriage(…)`, `none` for the ValueError of a missing key
    abbrev pub make_llm : Settings → Str → Option (Provider N)
    make_llm settings [] = none
    make_llm settings (c ∷ key) =
        some (http_provider settings llm (codes "llm:" ++ settings.llm_provider_label))

    abbrev pub or_rules : Option (Provider N) → Provider N
    or_rules none = rules_provider N lower
    or_rules (some q) = q

    abbrev pub selected : Settings → ProviderName → Provider N
    selected settings choose_llm = or_rules (make_llm settings settings.llm_api_key)
    selected settings choose_ollama = http_provider settings ollama (codes "llm:ollama")
    selected settings choose_simulated = record {
      name = codes "simulated";
      run = λ text location n. (simulate settings.simulated_failure_mode text location, n);
    }
    selected settings choose_rules = rules_provider N lower

    -- `build_provider`
    unfoldable pub build_provider : Settings → Provider N
    unfolding simulate call_once Llm.triage
    build_provider settings = selected settings settings.triage_provider

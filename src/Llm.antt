-- ===== src/Llm.antt =====
-- backend/app/providers/triage/llm.py and ollama.py: one call of an HTTP model, and the retry loop.
-- What `httpx` gives back is a `Reply`; one call and the pause between two are parameters, over the
-- state of the outside world that they move on.
pub mod Retry
pub mod Replies
use civic_pulse_24i3089_24i.Prelude.{
  ℕ, zero, suc, ◌+◌, ◌≡◌, Bool, true, false, Option, none, some, List, [], ◌∷◌, ◌++◌, ltb, leb,
  ◌==◌, if◌then◌else◌,
}
use civic_pulse_24i3089_24i.Text.{Str, codes}
use civic_pulse_24i3089_24i.Exceptions.{
  Exn, Result, ok, err, is_retryable, triage_timeout, triage_rate_limited, triage_upstream_error,
  triage_bad_request, triage_malformed_output, type_error, key_error, assertion_error, other_error,
  ◌>>=◌, of_option, json_decode_error,
}
use civic_pulse_24i3089_24i.Json.{
  Json, Items, null, boolean, num, str, arr, obj, nil, cons, subscript,
}
use civic_pulse_24i3089_24i.Schemas.{Pydantic, TriageResult}
use civic_pulse_24i3089_24i.Prompt.Answer.{parse_triage_json}

-- What `client.post` comes to: an exception of httpx, or a response with its status code and its
-- body, `none` where the body is not JSON.
pub data Reply : Type 0 where
  timed_out transport_failed : Reply
  response : ℕ → Option Json → Reply

-- `body[0]`
unfoldable pub first_item : Json → Result Json
first_item (arr (cons x xs)) = ok x
first_item (arr nil) = err (other_error (codes "IndexError"))
first_item (obj fs) = err key_error
first_item (str (c ∷ s)) = ok (str (c ∷ []))
first_item (str []) = err (other_error (codes "IndexError"))
first_item _ = err type_error

-- the two concrete providers
pub data Kind : Type 0 where
  llm ollama : Kind

module _ (repr : Json → Str) where
  -- `str(value)`: a text is itself, any other value is written by `repr`
  abbrev pub to_str : Json → Str
  to_str (str s) = s
  to_str j = repr j

  -- `_extract_content`
  unfoldable pub extract_content : Kind → Json → Result Str
  unfolding first_item
  extract_content llm body = do
    choices ← subscript body (codes "choices")
    choice ← first_item choices
    message ← subscript choice (codes "message")
    content ← subscript message (codes "content")
    ok (to_str content)
  extract_content ollama body = do
    message ← subscript body (codes "message")
    content ← subscript message (codes "content")
    ok (to_str content)

  module _ (p : Pydantic) (loads : Str → Option Json) where
    -- every way in which the envelope can be wrong is one exception
    abbrev pub parse_content : Result Str → Result TriageResult
    parse_content (ok content) = parse_triage_json p loads content
    parse_content (err e) = err triage_malformed_output

    -- `_call_once`, from the reply on
    unfoldable pub read_reply : Kind → Reply → Result TriageResult
    unfolding extract_content
    read_reply kind timed_out = err triage_timeout
    read_reply kind transport_failed = err triage_upstream_error
    read_reply kind (response code body) =
        if code == 429
        then err triage_rate_limited
        else if leb 500 code
        then err triage_upstream_error
        else if leb 400 code
        then err triage_bad_request
        else parse_content (of_option json_decode_error body >>= extract_content kind)

module _ {W : Type 0} (call_once : W → Result TriageResult × W) (sleep : ℕ → W → W) where
  -- `raise last`, behind its assertion
  abbrev pub raise_last : Option Exn → Result TriageResult
  raise_last none = err assertion_error
  raise_last (some e) = err e

  abbrev pub pause : Bool → ℕ → W → W
  pause more attempt w = if more then sleep attempt w else w

  -- `left` rounds of `for attempt in range(1, max_attempts + 1)` are still to come
  unfoldable pub attempts : ℕ → ℕ → ℕ → Option Exn → W → Result TriageResult × W
  attempts max_attempts zero attempt last w = (raise_last last, w)
  attempts max_attempts (suc left) attempt last w =
      let (outcome, w') = call_once w in
      elim outcome [
        | ok r ↦ (ok r, w')
        | err e ↦
            let paused = pause (ltb attempt max_attempts) attempt w' in
            let again = attempts max_attempts left (attempt + 1) (some e) paused in
            if is_retryable e then again else (err e, w')
      ]

  unfoldable pub triage : ℕ → W → Result TriageResult × W
  unfolding attempts
  triage max_attempts w = attempts max_attempts max_attempts 1 none w

-- `max_attempts: int = 2`
abbrev pub default_attempts : ℕ
default_attempts = 2

-- ===== src/Llm/Replies.antt =====
-- Which replies of an HTTP model are worth a second attempt, and which are trusted.
use civic_pulse_24i3089_24i.Prelude.{
  ℕ, ◌<◌, ◌≡◌, ◌⊎◌, refl, inl, inr, Bool, true, false, ◌||◌, Option, arith, leb, ◌==◌, Bool-cases,
}
use civic_pulse_24i3089_24i.Text.{Str}
use civic_pulse_24i3089_24i.Exceptions.{
  Result, ok, err, is_retryable, triage_malformed_output, of_option, json_decode_error, ◌>>=◌,
}
use civic_pulse_24i3089_24i.Json.{Json}
use civic_pulse_24i3089_24i.Schemas.{Pydantic, TriageResult}
use civic_pulse_24i3089_24i.Schemas.Laws.{IsValid}
use civic_pulse_24i3089_24i.Prompt.Answer.{parse_triage_json-cases}
use civic_pulse_24i3089_24i.Llm.{
  Reply, timed_out, transport_failed, response, Kind, extract_content, parse_content, read_reply,
}

-- No answer in time, no connection, too many requests, or a server error.
abbrev pub is_transient : Reply → Bool
is_transient timed_out = true
is_transient transport_failed = true
is_transient (response code body) = code == 429 || leb 500 code

abbrev pub asks_again : Result TriageResult → Bool
asks_again (ok r) = false
asks_again (err e) = is_retryable e

module _ (repr : Json → Str) (p : Pydantic) (loads : Str → Option Json) where
  parse_content-cases :
      (m : Result Str)
      → ((r : TriageResult) × (parse_content repr p loads m ≡ ok r) × IsValid r)
        ⊎ (parse_content repr p loads m ≡ err triage_malformed_output)
  parse_content-cases (ok content) = parse_triage_json-cases p loads content
  parse_content-cases (err e) = inr refl

  content_final : (m : Result Str) → asks_again (parse_content repr p loads m) ≡ false
  content_final m = elim (parse_content-cases m) [ inl (r, e, v) ↦ rw e | inr e ↦ rw e ]

  -- A reply is retried exactly when it is a timeout, a transport failure, a 429 or a status of 500
  -- and up: never a 400, never an answer that could not be parsed, never a success.
  pub asks_again-read_reply :
      (kind : Kind) (reply : Reply)
      → asks_again (read_reply repr p loads kind reply) ≡ is_transient reply
  unfolding read_reply
  asks_again-read_reply kind timed_out = refl
  asks_again-read_reply kind transport_failed = refl
  asks_again-read_reply kind (response code body) = elim (Bool-cases (code == 429)) [
    | inl limited ↦ rw limited
    | inr other ↦ elim (Bool-cases (leb 500 code)) [
      | inl server ↦ rw (other, server)
      | inr below ↦ elim (Bool-cases (leb 400 code)) [
        | inl client ↦ rw (other, below, client)
        | inr fine ↦
            rw (other, below, fine)
              (content_final (of_option json_decode_error body >>= extract_content repr kind))
      ]
    ]
  ]

  -- A result comes from a response that is no error, and is valid by the schema.
  abbrev IsTrusted : Reply → Result TriageResult → Type 0
  IsTrusted reply (err e) = Unit
  IsTrusted timed_out (ok r) = ⊥
  IsTrusted transport_failed (ok r) = ⊥
  IsTrusted (response code body) (ok r) = (code < 400) × IsValid r

  parsed-IsTrusted :
      (code : ℕ) (body : Option Json) (m : Result Str)
      → code < 400
      → IsTrusted (response code body) (parse_content repr p loads m)
  parsed-IsTrusted code body m below = elim (parse_content-cases m) [
    | inl (r, e, v) ↦ rw e (below, v)
    | inr e ↦ rw e tt
  ]

  read_reply-IsTrusted :
      (kind : Kind) (reply : Reply) → IsTrusted reply (read_reply repr p loads kind reply)
  unfolding read_reply
  read_reply-IsTrusted kind timed_out = tt
  read_reply-IsTrusted kind transport_failed = tt
  read_reply-IsTrusted kind (response code body) = elim (Bool-cases (code == 429)) [
    | inl limited ↦ rw limited tt
    | inr other ↦ elim (Bool-cases (leb 500 code)) [
      | inl server ↦ rw (other, server) tt
      | inr below ↦ elim (Bool-cases (leb 400 code)) [
        | inl client ↦ rw (other, below, client) tt
        | inr fine ↦
            rw (other, below, fine)
              (parsed-IsTrusted code body
                (of_option json_decode_error body >>= extract_content repr kind) (ground arith))
      ]
    ]
  ]

  trusted_source :
      (reply : Reply) (m : Result TriageResult) {r : TriageResult}
      → IsTrusted reply m
      → m ≡ ok r
      → (code : ℕ) × (body : Option Json) × (reply ≡ response code body) × (code < 400) × IsValid r
  trusted_source reply (err e) h same = cc
  trusted_source timed_out (ok q) h same = absurd h
  trusted_source transport_failed (ok q) h same = absurd h
  trusted_source (response code body) (ok q) {r} (below, v) same =
      let e : q ≡ r = cc same in (code, body, refl, below, rw e at v)

  -- A reply gives a result only where it is a response with a status below 400, and that result is
  -- valid by the schema.
  pub read_reply-trusted :
      (kind : Kind) (reply : Reply) {r : TriageResult}
      → read_reply repr p loads kind reply ≡ ok r
      → (code : ℕ) × (body : Option Json) × (reply ≡ response code body) × (code < 400) × IsValid r
  read_reply-trusted kind reply h = trusted_source reply _ (read_reply-IsTrusted kind reply) h

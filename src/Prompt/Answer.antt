-- ===== src/Prompt/Answer.antt =====
-- `parse_triage_json` of backend/app/providers/triage/prompt.py. `json.loads` is the parameter
-- `loads`: `none` is its JSONDecodeError.
use civic_pulse_24i3089_24i.Prelude.{
  ◌-◌, ◌≡◌, ◌⊎◌, refl, inl, inr, Option, none, some, if◌then◌else◌, length, take, drop,
}
use mathlib.Core.List.{reverse}
use civic_pulse_24i3089_24i.Text.{Str, codes, strip, lstrip, rstrip, starts_with}
use civic_pulse_24i3089_24i.Exceptions.{Result, ok, err, triage_malformed_output}
use civic_pulse_24i3089_24i.Json.{Json, obj, null}
use civic_pulse_24i3089_24i.Schemas.{Pydantic, TriageResult, model_validate}
use civic_pulse_24i3089_24i.Schemas.Laws.{IsValid, model_validate-IsValid}
use civic_pulse_24i3089_24i.Prompt.{drop_name}

abbrev pub fence : Str
fence = codes "```"

-- `(?:json)?`
abbrev skip_label : Option Str → Str → Str
skip_label none s = s
skip_label (some rest) s = rest

-- the first alternative of `_FENCE`, at the start of the text
unfoldable pub drop_opening : Str → Str
unfolding drop_name starts_with
drop_opening s =
    let rest = drop (length fence) s in
    let within = lstrip (skip_label (drop_name (codes "json") rest) rest) in
    if starts_with fence s then within else s

-- the second alternative, at its end
unfoldable pub drop_closing : Str → Str
drop_closing s =
    if starts_with (reverse fence) (reverse s) then rstrip (take (length s - 3) s) else s

unfoldable pub strip_fence : Str → Str
unfolding drop_opening drop_closing strip lstrip rstrip
strip_fence raw = drop_closing (drop_opening (strip raw))

module _ (p : Pydantic) (loads : Str → Option Json) where
  -- `except ValidationError`
  abbrev pub or_malformed : Result TriageResult → Result TriageResult
  or_malformed (ok r) = ok r
  or_malformed (err e) = err triage_malformed_output

  abbrev pub validate_answer : Option Json → Result TriageResult
  validate_answer none = err triage_malformed_output
  validate_answer (some (obj fs)) = or_malformed (model_validate p (obj fs))
  validate_answer (some _) = err triage_malformed_output

  unfoldable pub parse_triage_json : Str → Result TriageResult
  unfolding strip_fence
  parse_triage_json raw = validate_answer (loads (strip_fence raw))

  or_malformed-cases :
      (j : Json) {m : Result TriageResult}
      → model_validate p j ≡ m
      → ((r : TriageResult) × (or_malformed m ≡ ok r) × IsValid r)
        ⊎ (or_malformed m ≡ err triage_malformed_output)
  or_malformed-cases j {m = ok r} e = inl (r, refl, model_validate-IsValid p j e)
  or_malformed-cases j {m = err x} e = inr refl

  validate_answer-cases :
      (o : Option Json)
      → ((r : TriageResult) × (validate_answer o ≡ ok r) × IsValid r)
        ⊎ (validate_answer o ≡ err triage_malformed_output)
  validate_answer-cases none = inr refl
  validate_answer-cases (some (obj fs)) = or_malformed-cases (obj fs) refl
  validate_answer-cases (some null) = inr refl
  validate_answer-cases (some _) = inr refl

  -- Whatever a model answers, parsing gives a result that is valid by the schema, or raises
  -- TriageMalformedOutput and nothing else.
  pub parse_triage_json-cases :
      (raw : Str)
      → ((r : TriageResult) × (parse_triage_json raw ≡ ok r) × IsValid r)
        ⊎ (parse_triage_json raw ≡ err triage_malformed_output)
  unfolding parse_triage_json
  parse_triage_json-cases raw = validate_answer-cases (loads (strip_fence raw))

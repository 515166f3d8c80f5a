-- ===== src/Schemas.antt =====
-- backend/app/schemas.py: the model that a triage provider's answer must fit, and the request body
-- of a new complaint. What pydantic itself does to a value is the parameter `Pydantic`.
pub mod Laws
pub mod Body
use civic_pulse_24i3089_24i.Prelude.{
  ℕ, ◌≤◌, ◌≡◌, Bool, true, false, ◌&&◌, ◌||◌, Option, none, some, List, [], ◌∷◌, leb, ◌==◌, length,
  any, if◌then◌else◌,
}
use civic_pulse_24i3089_24i.Text.{Str, codes, ◌===◌, strip}
use civic_pulse_24i3089_24i.Domain.{
  Category, Priority, all_categories, all_priorities, category_value, priority_value, summary_max,
}
use civic_pulse_24i3089_24i.Exceptions.{Result, validation_error, of_option, err}
use civic_pulse_24i3089_24i.Json.{
  Decimal, in_unit, Json, str, Fields, num, obj, end, field, find_field, has_only,
}

-- pydantic, as the schemas use it in its default, lax mode: `str_strip_whitespace` is `trim`, and
-- `to_float` is the conversion of an input to `float`.
pub record Pydantic : Type 0 where
  pub trim : Str → Str
  pub to_float : Json → Option Decimal
  -- stripping only takes characters away
  pub length-trim : (s : Str) → length (trim s) ≤ length s
  -- a float is taken as it is
  pub to_float-num : (d : Decimal) → to_float (num d) ≡ some d

pub record TriageResult : Type 0 where
  pub category : Category
  pub priority : Priority
  pub summary : Str
  pub confidence : Decimal

-- An enum is validated from the `.value` of a member.
unfoldable pub find_category : Str → List Category → Option Category
find_category s [] = none
find_category s (c ∷ cs) = if category_value c === s then some c else find_category s cs

unfoldable pub find_priority : Str → List Priority → Option Priority
find_priority s [] = none
find_priority s (p ∷ ps) = if priority_value p === s then some p else find_priority s ps

abbrev pub is_line_break : ℕ → Bool
is_line_break c = c == 10 || c == 13

abbrev pub nonempty : Str → Option Str
nonempty [] = none
nonempty (c ∷ s) = some (c ∷ s)

-- the validator `one_line`, on the stripped text
unfoldable pub one_line_of : Str → Option Str
one_line_of v = if any is_line_break v then none else nonempty v

unfoldable pub one_line : Str → Option Str
unfolding one_line_of strip
one_line v = one_line_of (strip v)

-- `Field(max_length=SUMMARY_MAX)` comes before the validator
unfoldable pub check_summary : Str → Option Str
unfolding one_line
check_summary s = if leb (length s) summary_max then one_line s else none

unfoldable pub check_confidence : Decimal → Option Decimal
check_confidence d = if in_unit d then some d else none

infixl 5 ◌>>=◌
abbrev pub ◌>>=◌ {ℓ κ} : {A : Type ℓ} {B : Type κ} → Option A → (A → Option B) → Option B
none >>= f = none
some a >>= f = f a

-- `TriageResult(category=…, priority=…, summary=…, confidence=…)`
unfoldable pub make_result : Category → Priority → Str → Decimal → Option TriageResult
unfolding check_summary check_confidence
make_result c p s d = do
  summary ← check_summary s
  confidence ← check_confidence d
  some (record { category = c; priority = p; summary = summary; confidence = confidence })

abbrev pub as_text : Json → Option Str
as_text (str s) = some s
as_text _ = none

abbrev pub triage_keys : List Str
triage_keys = codes "category" ∷ codes "priority" ∷ codes "summary" ∷ codes "confidence" ∷ []

abbrev pub get_category : Fields → Option Category
get_category fs =
    (find_field (codes "category") fs >>= as_text) >>= λ s. find_category s all_categories

abbrev pub get_priority : Fields → Option Priority
get_priority fs =
    (find_field (codes "priority") fs >>= as_text) >>= λ s. find_priority s all_priorities

abbrev pub get_summary : Fields → Option Str
get_summary fs = find_field (codes "summary") fs >>= as_text

unfoldable pub build :
    Option Category → Option Priority → Option Str → Option Decimal → Option TriageResult
unfolding make_result
build c p s d = do
  category ← c
  priority ← p
  summary ← s
  confidence ← d
  make_result category priority summary confidence

module _ (p : Pydantic) where
  abbrev pub get_confidence : Fields → Option Decimal
  get_confidence fs = find_field (codes "confidence") fs >>= p.to_float

  unfoldable pub validate_fields : Fields → Option TriageResult
  unfolding build find_category find_priority
  validate_fields fs =
      build (get_category fs) (get_priority fs) (get_summary fs) (get_confidence fs)

  -- `TriageResult.model_validate`, with `extra="forbid"`
  unfoldable pub model_validate : Json → Result TriageResult
  unfolding validate_fields
  model_validate (obj fs) =
      if has_only triage_keys fs
      then of_option validation_error (validate_fields fs)
      else err validation_error
  model_validate _ = err validation_error

-- `model_dump(mode="json")`
unfoldable pub model_dump : TriageResult → Json
model_dump r = obj (
    field (codes "category") (str (category_value r.category)) (
      field (codes "priority") (str (priority_value r.priority)) (
        field (codes "summary") (str r.summary)
          (field (codes "confidence") (num r.confidence) end))))

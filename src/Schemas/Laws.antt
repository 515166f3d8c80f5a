-- ===== src/Schemas/Laws.antt =====
-- What a validated triage result satisfies, and that it survives the cache.
use civic_pulse_24i3089_24i.Prelude.{
  ◌≤◌, ◌≡◌, ◌≢◌, refl, true, false, Option, none, some, [], ◌∷◌, arith, leb, leb→le, length, any,
  Bool-cases, inl, inr,
}
use civic_pulse_24i3089_24i.Text.{Str, strip, ◌===◌}
use civic_pulse_24i3089_24i.Text.Laws.{length-strip, strip_idem}
use civic_pulse_24i3089_24i.Domain.{
  Category, Priority, summary_max, all_categories, all_priorities, category_value, priority_value,
}
use civic_pulse_24i3089_24i.Exceptions.{ok, err, of_option, validation_error}
use civic_pulse_24i3089_24i.Json.{Decimal, in_unit, Json, Fields, null, obj, find_field, has_only}
use civic_pulse_24i3089_24i.Schemas.{
  Pydantic, TriageResult, is_line_break, one_line_of, one_line, check_summary, check_confidence,
  make_result, find_category, find_priority, build, get_category, get_priority, get_summary,
  get_confidence, validate_fields, model_validate, model_dump, ◌>>=◌, triage_keys,
}

-- One line of at most 140 characters, not blank, with no white space around it.
pub record IsSummary (s : Str) : Type 0 where
  pub within : length s ≤ summary_max
  pub single_line : any is_line_break s ≡ false
  pub not_empty : s ≢ []
  pub stripped : strip s ≡ s

pub record IsValid (r : TriageResult) : Type 0 where
  pub summary : IsSummary r.summary
  pub confidence : in_unit r.confidence ≡ true

pub one_line_of-eq :
    (v : Str) {r : Str}
    → one_line_of v ≡ some r
    → (r ≡ v) × (any is_line_break v ≡ false) × (v ≢ [])
unfolding one_line_of
one_line_of-eq [] h = ground arith
one_line_of-eq (c ∷ v) h = ground arith

pub check_summary-IsSummary : (s : Str) {r : Str} → check_summary s ≡ some r → IsSummary r
unfolding check_summary
check_summary-IsSummary s {r} h = elim (Bool-cases (leb (length s) summary_max)) [
  | inl fits ↦
      let (e, flat, full) = one_line_of-eq (strip s) (rw fits at h) in
      rw e (record {
        within = omega (arith, length-strip s, leb→le _ _ fits);
        single_line = flat;
        not_empty = full;
        stripped = strip_idem s;
      })
  | inr long ↦ absurd (let z : none ≡ some r = rw long at h in cc)
]

one_line_of_self : (v : Str) → any is_line_break v ≡ false → v ≢ [] → one_line_of v ≡ some v
unfolding one_line_of
one_line_of_self [] h k = absurd (k refl)
one_line_of_self (c ∷ v) h k = ground arith

pub check_summary_of_IsSummary : (s : Str) → IsSummary s → check_summary s ≡ some s
unfolding check_summary one_line
check_summary_of_IsSummary s v =
    rw (v.stripped, one_line_of_self s v.single_line v.not_empty) (ground (arith, v.within))

pub >>=-eq-some {ℓ κ} :
    {A : Type ℓ} {B : Type κ} (m : Option A) (f : A → Option B) {b : B}
    → (m >>= f) ≡ some b
    → (a : A) × (m ≡ some a) × (f a ≡ some b)
>>=-eq-some none f h = cc
>>=-eq-some (some a) f h = (a, refl, h)

check_confidence-eq :
    (d : Decimal) {e : Decimal} → check_confidence d ≡ some e → (e ≡ d) × (in_unit d ≡ true)
unfolding check_confidence
check_confidence-eq d h = ground arith

pub make_result-IsValid :
    (c : Category) (p : Priority) (s : Str) (d : Decimal) {r : TriageResult}
    → make_result c p s d ≡ some r
    → IsValid r × (r.category ≡ c) × (r.priority ≡ p)
unfolding make_result
make_result-IsValid c p s d {r} h =
    let (t, summary, h') = >>=-eq-some (check_summary s) _ h in
    let (e, confidence, built) = >>=-eq-some (check_confidence d) _ h' in
    let (same, unit) = check_confidence-eq d confidence in
    let fit : IsSummary t = check_summary-IsSummary s summary in
    let at_summary : r.summary ≡ t = cc built in
    let at_confidence : r.confidence ≡ d = cc (built, same) in
    (record { summary = rw at_summary fit; confidence = rw at_confidence unit }, cc built, cc built)

pub make_result_of_IsValid :
    (r : TriageResult)
    → IsValid r
    → make_result r.category r.priority r.summary r.confidence ≡ some r
unfolding make_result check_confidence
make_result_of_IsValid r v = rw (check_summary_of_IsSummary r.summary v.summary) (rw v.confidence)

find_category_self : (c : Category) → find_category (category_value c) all_categories ≡ some c
unfolding find_category ◌===◌
find_category_self c = ground arith

find_priority_self : (p : Priority) → find_priority (priority_value p) all_priorities ≡ some p
unfolding find_priority ◌===◌
find_priority_self p = ground arith

build-IsValid :
    (c : Option Category) (p : Option Priority) (s : Option Str) (d : Option Decimal)
    {r : TriageResult}
    → build c p s d ≡ some r
    → IsValid r
unfolding build
build-IsValid (some c) (some p) (some s) (some d) h = (make_result-IsValid c p s d h).0
build-IsValid none _ _ _ h = cc
build-IsValid (some c) none _ _ h = cc
build-IsValid (some c) (some p) none _ h = cc
build-IsValid (some c) (some p) (some s) none h = cc

module _ (p : Pydantic) where
  validate_fields-IsValid :
      (fs : Fields) {r : TriageResult} → validate_fields p fs ≡ some r → IsValid r
  unfolding validate_fields
  validate_fields-IsValid fs h =
      build-IsValid (get_category fs) (get_priority fs) (get_summary fs) (get_confidence p fs) h

  of_option-eq-ok :
      (o : Option TriageResult) {r : TriageResult}
      → of_option validation_error o ≡ ok r
      → o ≡ some r
  of_option-eq-ok none h = cc
  of_option-eq-ok (some a) h = cc

  -- Whatever value is validated, an accepted result has a one-line summary of 1 to 140 characters
  -- with no white space around it, and a confidence between 0 and 1.
  pub model_validate-IsValid : (j : Json) {r : TriageResult} → model_validate p j ≡ ok r → IsValid r
  unfolding model_validate
  model_validate-IsValid (obj fs) h = elim (Bool-cases (has_only triage_keys fs)) [
    | inl known ↦ validate_fields-IsValid fs (of_option-eq-ok _ (rw known at h))
    | inr extra ↦ absurd (let z : err validation_error ≡ ok _ = rw extra at h in cc)
  ]
  model_validate-IsValid null h = cc
  model_validate-IsValid _ h = cc

  -- A valid result that is dumped to JSON and validated again comes back unchanged.
  pub model_validate-model_dump :
      (r : TriageResult) → IsValid r → model_validate p (model_dump r) ≡ ok r
  unfolding model_validate model_dump has_only find_field ◌===◌
  model_validate-model_dump r v =
      rw (find_category_self, find_priority_self, p.to_float-num, make_result_of_IsValid r v)

-- ===== src/Rules/Clean.antt =====
-- The keyword rules put no character into a summary that the database refuses, if the
-- complaint has none.
use civic_pulse_24i3089_24i.Prelude.{
  ◌≡◌, refl, ◌∙◌, false, Option, none, some, ◌∷◌, ◌++◌, any-append, leb, length, Bool-cases, inl,
  inr,
}
use civic_pulse_24i3089_24i.Text.{Str, strip, collapse, has_unstorable, is_unstorable}
use civic_pulse_24i3089_24i.Text.Laws.{any-strip, any-collapse}
use civic_pulse_24i3089_24i.Domain.{Category, Priority, summary_max}
use civic_pulse_24i3089_24i.Exceptions.{ok, of_option, validation_error}
use civic_pulse_24i3089_24i.Json.{Decimal}
use civic_pulse_24i3089_24i.Schemas.{
  TriageResult, check_summary, one_line, make_result, check_confidence,
}
use civic_pulse_24i3089_24i.Schemas.Laws.{one_line_of-eq, >>=-eq-some}
use civic_pulse_24i3089_24i.Rules.{
  summary_of, confidence_of, category_of, priority_of, best, triage,
}
use civic_pulse_24i3089_24i.Rules.Heading.{any-shorten, heading, heading-unstorable}
use civic_pulse_24i3089_24i.Rules.Summary.{summary_of-eq}

collapse_clean : (s : Str) → has_unstorable s ≡ false → has_unstorable (collapse s) ≡ false
unfolding collapse
collapse_clean s h = any-collapse is_unstorable refl false s h

summary_of_clean :
    (c : Category) (text location : Str)
    → has_unstorable text ≡ false
    → has_unstorable location ≡ false
    → has_unstorable (summary_of c text location) ≡ false
summary_of_clean c text l h k = rw summary_of-eq (
    any-shorten is_unstorable refl (heading c l ++ 58 ∷ 32 ∷ strip (collapse text)) (
      rw (any-append, heading-unstorable c l, any-strip is_unstorable l k)
        (any-strip is_unstorable (collapse text) (collapse_clean text h))))

check_summary-eq : (s : Str) {t : Str} → check_summary s ≡ some t → t ≡ strip s
unfolding check_summary one_line
check_summary-eq s {t} h = elim (Bool-cases (leb (length s) summary_max)) [
  | inl fits ↦ (one_line_of-eq (strip s) (rw fits at h)).0
  | inr long ↦ absurd (let z : none ≡ some t = rw long at h in cc z)
]

make_result-summary :
    (c : Category) (p : Priority) (s : Str) (d : Decimal) {t : TriageResult}
    → make_result c p s d ≡ some t
    → t.summary ≡ strip s
unfolding make_result
make_result-summary c p s d {t} h =
    let (u, summary, h') = >>=-eq-some (check_summary s) _ h in
    let (e, confidence, built) = >>=-eq-some (check_confidence d) _ h' in
    let at_summary : t.summary ≡ u = cc built in at_summary ∙ check_summary-eq s summary

of_option-ok :
    (o : Option TriageResult) (t : TriageResult) → of_option validation_error o ≡ ok t → o ≡ some t
of_option-ok none t h = cc
of_option-ok (some a) t h = cc

pub triage_clean :
    (lower : Str → Str) (text location : Str) (t : TriageResult)
    → has_unstorable text ≡ false
    → has_unstorable location ≡ false
    → triage lower text location ≡ ok t
    → has_unstorable t.summary ≡ false
unfolding triage
triage_clean lower text location t h k e =
    let low = lower text in
    let c = category_of low in
    let made =
      make_result-summary c (priority_of low) (summary_of c text location)
        (confidence_of c (best low).1) (of_option-ok _ t e) in
    rw made
      (any-strip is_unstorable (summary_of c text location) (summary_of_clean c text location h k))

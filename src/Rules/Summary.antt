-- ===== src/Rules/Summary.antt =====
-- When the keyword rules return a result, and when they raise.
use mathlib.Core.Path.{subst}
use civic_pulse_24i3089_24i.Prelude.{
  ℕ, suc, ◌-◌, ◌≤◌, ◌≡◌, refl, sym, ap, ◌∙◌, inl, inr, true, false, none, some, [], ◌∷◌, ◌++◌,
  append_assoc, arith, length, take, any, take-append, any-append,
}
use civic_pulse_24i3089_24i.Text.{Str, is_space, strip, rstrip, collapse}
use civic_pulse_24i3089_24i.Text.Laws.{lstrip_of_StartsTight, rstrip-append, any-rstrip, any-strip}
use civic_pulse_24i3089_24i.Domain.{Category, Priority, summary_max}
use civic_pulse_24i3089_24i.Exceptions.{ok, err, validation_error}
use civic_pulse_24i3089_24i.Json.{in_unit}
use civic_pulse_24i3089_24i.Schemas.{
  TriageResult, is_line_break, one_line_of, one_line, check_summary, check_confidence, make_result,
}
use civic_pulse_24i3089_24i.Schemas.Laws.{IsValid, make_result-IsValid}
use civic_pulse_24i3089_24i.Rules.{
  shorten, summary_of, confidence_of, category_of, priority_of, best, triage,
}
use civic_pulse_24i3089_24i.Rules.Heading.{
  has_break, collapsed_flat, cut, shorten-cases, length-shorten, any-shorten, capital,
  capital-tight, heading, heading-head, length-heading, heading-break, prefix_of-heading,
  shorten-head,
}

strip_tight : (k : ℕ) (t : Str) → is_space k ≡ false → strip (k ∷ t) ≡ k ∷ rstrip t
unfolding strip
strip_tight k t h = ap rstrip (lstrip_of_StartsTight (k ∷ t) h) ∙ rstrip-append [] k t h

check_summary_tight :
    (k : ℕ) (t : Str)
    → is_space k ≡ false
    → length (k ∷ t) ≤ summary_max
    → has_break (k ∷ t) ≡ false
    → check_summary (k ∷ t) ≡ some (k ∷ rstrip t)
unfolding check_summary one_line one_line_of
check_summary_tight k t h fits flat =
    rw (strip_tight k t h) (ground (arith, any-rstrip is_line_break t))

check_summary_broken : (s : Str) → has_break (strip s) ≡ true → check_summary s ≡ none
unfolding check_summary one_line one_line_of
check_summary_broken s h = ground arith

pub summary_of-eq :
    (c : Category) (text l : Str)
    → summary_of c text l ≡ shorten (heading c l ++ 58 ∷ 32 ∷ strip (collapse text))
unfolding summary_of
summary_of-eq c text l = ap shorten (prefix_of-heading c l (strip (collapse text)))

summary_of_flat :
    (c : Category) (text l : Str)
    → has_break (strip l) ≡ false
    → has_break (summary_of c text l) ≡ false
summary_of_flat c text l h = rw summary_of-eq (
    any-shorten is_line_break refl (heading c l ++ 58 ∷ 32 ∷ strip (collapse text)) (
      rw (any-append, heading-break c l, h)
        (any-strip is_line_break (collapse text) (collapsed_flat text))))

summary_of-head : (c : Category) (text l : Str) → (u : Str) × (summary_of c text l ≡ capital c ∷ u)
summary_of-head c text l =
    let (t, e) = heading-head c l in
    let (u, f) =
      shorten-head (capital c) (t ++ 58 ∷ 32 ∷ strip (collapse text)) (capital-tight c) in
    (u, summary_of-eq c text l ∙ (rw e f))

-- A location on one line gives a summary that the schema accepts.
summary_of-accepted :
    (c : Category) (text l : Str)
    → has_break (strip l) ≡ false
    → (s : Str) × (check_summary (summary_of c text l) ≡ some s)
summary_of-accepted c text l h =
    let (u, e) = summary_of-head c text l in
    let fits : length (capital c ∷ u) ≤ summary_max =
      subst (λ z. length z ≤ summary_max) (sym (summary_of-eq c text l) ∙ e)
        (length-shorten (heading c l ++ 58 ∷ 32 ∷ strip (collapse text))) in
    let flat : has_break (capital c ∷ u) ≡ false =
      ap has_break (sym e) ∙ summary_of_flat c text l h in
    (capital c ∷ rstrip u, rw e (check_summary_tight (capital c) u (capital-tight c) fits flat))

confidence_of-unit : (c : Category) (n : ℕ) → in_unit (confidence_of c n) ≡ true
unfolding confidence_of
confidence_of-unit c n = ground arith

make_result_of_parts :
    (c : Category) (p : Priority) (s t : Str) (n : ℕ)
    → check_summary s ≡ some t
    → make_result c p s (confidence_of c n)
      ≡ some (record { category = c; priority = p; summary = t; confidence = confidence_of c n })
unfolding make_result check_confidence
make_result_of_parts c p s t n h = rw (h, confidence_of-unit c n)

-- The keyword rules return a result for every text, and for every location that has no line break
-- left after it is stripped: with the category and the priority of the keywords, and valid by the
-- schema.
pub triage_returns :
    (lower : Str → Str) (text location : Str)
    → any is_line_break (strip location) ≡ false
    → (r : TriageResult) × (triage lower text location ≡ ok r)
      × IsValid r
      × (r.category ≡ category_of (lower text))
      × (r.priority ≡ priority_of (lower text))
unfolding triage
triage_returns lower text location h =
    let low = lower text in
    let (s, e) = summary_of-accepted (category_of low) text location h in
    let built = make_result_of_parts (category_of low) (priority_of low) _ s (best low).1 e in
    (
      _,
      rw built,
      (make_result-IsValid (category_of low) (priority_of low)
          (summary_of (category_of low) text location)
          (confidence_of (category_of low) (best low).1) built).0,
      refl,
      refl,
    )

cut-colon :
    (n : ℕ) (a z : Str) → length a ≤ n → cut (suc n) (a ++ 58 ∷ z) ≡ a ++ 58 ∷ cut (n - length a) z
unfolding is_space
cut-colon n a z h =
    let e : suc n - length a ≡ suc (n - length a) = omega arith in
    rw (take-append (suc n) a (58 ∷ z) (omega arith), e)
      (rw (rstrip-append a 58 (take (n - length a) z) refl)
        (append_assoc a (58 ∷ rstrip (take (n - length a) z)) (8230 ∷ [])))

shorten-colon : (a z : Str) → length a ≤ 138 → (y : Str) × (shorten (a ++ 58 ∷ z) ≡ a ++ 58 ∷ y)
shorten-colon a z h = elim (shorten-cases (a ++ 58 ∷ z)) [
  | inl e ↦ (cut (138 - length a) z, e ∙ cut-colon 138 a z h)
  | inr (e, fits) ↦ (z, e)
]

heading-colon-break :
    (c : Category) (l y : Str)
    → has_break (strip l) ≡ true
    → has_break (strip (heading c l ++ 58 ∷ y)) ≡ true
unfolding is_space
heading-colon-break c l y h =
    let (t, e) = heading-head c l in
    let first : strip (heading c l ++ 58 ∷ y) ≡ rstrip (heading c l ++ 58 ∷ y) = rw e (
      strip_tight (capital c) (t ++ 58 ∷ y) (capital-tight c)
      ∙ sym (rstrip-append [] (capital c) (t ++ 58 ∷ y) (capital-tight c))) in
    rw (first, rstrip-append (heading c l) 58 y refl, any-append, heading-break c l, h)

make_result_refused :
    (c : Category) (p : Priority) (s : Str) (n : ℕ)
    → check_summary s ≡ none
    → make_result c p s (confidence_of c n) ≡ none
unfolding make_result
make_result_refused c p s n h = rw h

-- The keyword rules raise a ValidationError, whatever the text, where the stripped location has a
-- line break and at most 116 characters: the break ends up in the summary, which the schema wants
-- on one line.
pub triage_raises :
    (lower : Str → Str) (text location : Str)
    → any is_line_break (strip location) ≡ true
    → length (strip location) ≤ 116
    → triage lower text location ≡ err validation_error
unfolding triage
triage_raises lower text location h fits =
    let low = lower text in
    let c = category_of low in
    let (y, e) =
      shorten-colon (heading c location) (32 ∷ strip (collapse text))
        (omega (arith, length-heading c location)) in
    let broken : check_summary (summary_of c text location) ≡ none =
      check_summary_broken (summary_of c text location) (
        ap (λ z. has_break (strip z)) (summary_of-eq c text location ∙ e)
        ∙ heading-colon-break c location y h) in
    rw (make_result_refused c (priority_of low) (summary_of c text location) (best low).1 broken)

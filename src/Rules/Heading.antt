-- ===== src/Rules/Heading.antt =====
-- The parts of a summary: its heading, and the cut to the length limit.
use civic_pulse_24i3089_24i.Prelude.{
  ℕ, suc, ◌+◌, ◌≤◌, ◌≡◌, ◌⊎◌, refl, ap, ◌∙◌, inl, inr, Bool, false, [], ◌∷◌, ◌++◌, append_assoc,
  arith, ltb, Bool-cases, length, take, any, length-append, length-take, any-append, any-take,
}
use civic_pulse_24i3089_24i.Text.{Str, codes, is_space, strip, rstrip, collapse, has_unstorable}
use civic_pulse_24i3089_24i.Text.Laws.{length-rstrip, rstrip-append, any-rstrip, any-collapse_from}
use civic_pulse_24i3089_24i.Domain.{
  Category, category_value, summary_max, water, electricity, sanitation, roads, streetlights, other,
}
use civic_pulse_24i3089_24i.Schemas.{is_line_break}
use civic_pulse_24i3089_24i.Rules.{capitalize, prefix_of, shorten}

abbrev pub has_break : Str → Bool
has_break = any is_line_break

is_space-line_break : (c : ℕ) → is_space c ≡ false → is_line_break c ≡ false
unfolding is_space
is_space-line_break c h = ground arith

pub collapsed_flat : (s : Str) → has_break (collapse s) ≡ false
unfolding collapse
collapsed_flat s = any-collapse_from is_line_break is_space-line_break refl false s

-- The cut text, at any width.
abbrev pub cut : ℕ → Str → Str
cut n full = rstrip (take n full) ++ 8230 ∷ []

length-cut : (n : ℕ) (full : Str) → length (cut n full) ≤ suc n
length-cut n full = omega (
  arith,
  length-append (rstrip (take n full)) (8230 ∷ []),
  length-rstrip (take n full),
  length-take n full,
)

any-cut :
    (p : ℕ → Bool)
    → p 8230 ≡ false
    → (n : ℕ) (full : Str) → any p full ≡ false
    → any p (cut n full) ≡ false
any-cut p e n full h =
    any-append p (rstrip (take n full)) (8230 ∷ [])
    ∙ rw (any-rstrip p (take n full) (any-take p n full h), e)

pub shorten-cases :
    (full : Str)
    → (shorten full ≡ cut 139 full) ⊎ ((shorten full ≡ full) × (length full ≤ summary_max))
unfolding shorten
shorten-cases full = elim (Bool-cases (ltb summary_max (length full))) [
  | inl long ↦ inl (rw long)
  | inr fits ↦ inr (rw fits refl, ground arith)
]

pub length-shorten : (full : Str) → length (shorten full) ≤ summary_max
length-shorten full = elim (shorten-cases full) [
  | inl e ↦ rw e (length-cut 139 full)
  | inr (e, fits) ↦ rw e fits
]

pub any-shorten :
    (p : ℕ → Bool)
    → p 8230 ≡ false
    → (full : Str) → any p full ≡ false
    → any p (shorten full) ≡ false
any-shorten p k full h = elim (shorten-cases full) [
  | inl e ↦ rw e (any-cut p k 139 full h)
  | inr (e, fits) ↦ rw e h
]

-- The capital letter that a summary begins with.
abbrev pub capital : Category → ℕ
capital water = 87
capital electricity = 69
capital sanitation = 83
capital roads = 82
capital streetlights = 83
capital other = 79

pub capital-tight : (c : Category) → is_space (capital c) ≡ false
unfolding is_space
capital-tight c = ground arith

-- What follows the capital letter, up to the colon.
pub heading : Category → Str → Str
heading c location = capitalize (category_value c) ++ (codes " issue at " ++ strip location)

pub heading-head : (c : Category) (l : Str) → (t : Str) × (heading c l ≡ capital c ∷ t)
unfolding heading
heading-head water l = (_, refl)
heading-head electricity l = (_, refl)
heading-head sanitation l = (_, refl)
heading-head roads l = (_, refl)
heading-head streetlights l = (_, refl)
heading-head other l = (_, refl)

pub length-heading : (c : Category) (l : Str) → length (heading c l) ≤ 22 + length (strip l)
unfolding heading
length-heading water l = omega arith
length-heading electricity l = omega arith
length-heading sanitation l = omega arith
length-heading roads l = omega arith
length-heading streetlights l = omega arith
length-heading other l = omega arith

pub heading-break : (c : Category) (l : Str) → has_break (heading c l) ≡ has_break (strip l)
unfolding heading
heading-break water l = refl
heading-break electricity l = refl
heading-break sanitation l = refl
heading-break roads l = refl
heading-break streetlights l = refl
heading-break other l = refl

pub heading-unstorable :
    (c : Category) (l : Str) → has_unstorable (heading c l) ≡ has_unstorable (strip l)
unfolding heading
heading-unstorable water l = refl
heading-unstorable electricity l = refl
heading-unstorable sanitation l = refl
heading-unstorable roads l = refl
heading-unstorable streetlights l = refl
heading-unstorable other l = refl

pub prefix_of-heading : (c : Category) (l x : Str) → prefix_of c l ++ x ≡ heading c l ++ 58 ∷ 32 ∷ x
unfolding prefix_of heading
prefix_of-heading water l x = simp append_assoc
prefix_of-heading electricity l x = simp append_assoc
prefix_of-heading sanitation l x = simp append_assoc
prefix_of-heading roads l x = simp append_assoc
prefix_of-heading streetlights l x = simp append_assoc
prefix_of-heading other l x = simp append_assoc

cut-head : (n k : ℕ) (t : Str) → is_space k ≡ false → cut (suc n) (k ∷ t) ≡ k ∷ cut n t
cut-head n k t h = ap (λ (z : Str). z ++ 8230 ∷ []) (rstrip-append [] k (take n t) h)

-- A text that begins with no white space still begins with that character when it is cut.
pub shorten-head : (k : ℕ) (t : Str) → is_space k ≡ false → (u : Str) × (shorten (k ∷ t) ≡ k ∷ u)
shorten-head k t h = elim (shorten-cases (k ∷ t)) [
  | inl e ↦ (cut 138 t, e ∙ cut-head 138 k t h)
  | inr (e, fits) ↦ (t, e)
]

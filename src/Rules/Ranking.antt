-- ===== src/Rules/Ranking.antt =====
-- The category that the keyword rules choose, and when they choose none.
use civic_pulse_24i3089_24i.Prelude.{
  ℕ, ◌≤◌, ◌<◌, ◌≡◌, ◌≢◌, ◌↔◌, refl, sym, ◌∙◌, inl, inr, List, [], ◌∷◌, ◌++◌, append_assoc,
  append-nil, arith, ltb, Bool-cases, All,
}
use civic_pulse_24i3089_24i.Text.{Str}
use civic_pulse_24i3089_24i.Domain.{other}
use civic_pulse_24i3089_24i.Rules.{Scored, best_from, best, scores, score, category_of}
use civic_pulse_24i3089_24i.Rules.Words.{keywords, keyword_categories}

All-append {ℓ κ} :
    {A : Type ℓ} (P : A → Type κ) (xs ys : List A) → All P xs → All P ys → All P (xs ++ ys)
All-append P [] ys h k = k
All-append P (x ∷ xs) ys (h, hs) k = (h, All-append P xs ys hs k)

All-below : (n m : ℕ) (xs : List Scored) → n < m → All (λ s. s.1 ≤ n) xs → All (λ s. s.1 < m) xs
All-below n m [] h k = tt
All-below n m (x ∷ xs) h (k, ks) = (omega arith, All-below n m xs h ks)

All-weaken : (m : ℕ) (xs : List Scored) → All (λ s. s.1 < m) xs → All (λ s. s.1 ≤ m) xs
All-weaken m [] k = tt
All-weaken m (x ∷ xs) (k, ks) = (omega arith, All-weaken m xs ks)

-- The pair is the first of those with the highest score.
pub record IsFirstMax (s : Scored) (l : List Scored) : Type 0 where
  pub before : List Scored
  pub after : List Scored
  pub placed : l ≡ before ++ s ∷ after
  pub lower_before : All (λ t. t.1 < s.1) before
  pub no_higher_after : All (λ t. t.1 ≤ s.1) after

best_from-IsFirstMax :
    (before after rest l : List Scored) (s : Scored)
    → All (λ t. t.1 < s.1) before
    → All (λ t. t.1 ≤ s.1) after
    → l ≡ before ++ s ∷ (after ++ rest)
    → IsFirstMax (best_from s rest) l
unfolding best_from
best_from-IsFirstMax before after [] l s h k e = record {
  before = before;
  after = after;
  placed = rw append-nil at e;
  lower_before = h;
  no_higher_after = k;
}
best_from-IsFirstMax before after ((d, m) ∷ rest) l (c, n) h k e = elim (Bool-cases (ltb n m)) [
  | inl more ↦
      let n<m : n < m = ground arith in
      let lower =
        All-append (λ t. t.1 < m) before ((c, n) ∷ after)
          (All-below n m before n<m (All-weaken n before h)) (n<m, All-below n m after n<m k) in
      rw more (
        best_from-IsFirstMax (before ++ (c, n) ∷ after) [] rest l (d, m) lower tt
          (e ∙ sym (append_assoc before ((c, n) ∷ after) ((d, m) ∷ rest))))
  | inr less ↦
      let m≤n : m ≤ n = ground arith in
      rw less (
        best_from-IsFirstMax before (after ++ (d, m) ∷ []) rest l (c, n) h
          (All-append (λ t. t.1 ≤ n) after ((d, m) ∷ []) k (m≤n, tt)) (rw append_assoc e))
]

-- The category and the score that `max` picks are the first in the order of the table among those
-- with the highest score.
pub best-IsFirstMax :
    (lowered : Str) → IsFirstMax (best lowered) (scores lowered keyword_categories)
unfolding best scores
best-IsFirstMax lowered = best_from-IsFirstMax [] [] _ _ _ tt tt refl

All-middle {ℓ κ} :
    {A : Type ℓ} (P : A → Type κ) (xs ys : List A) (y : A) → All P (xs ++ y ∷ ys) → P y
All-middle P [] ys y h = h.0
All-middle P (x ∷ xs) ys y h = All-middle P xs ys y h.1

-- Every pair of the table scores no more than the one picked.
best-max : (lowered : Str) → All (λ t. t.1 ≤ (best lowered).1) (scores lowered keyword_categories)
best-max lowered =
    let m = best-IsFirstMax lowered in
    rw m.placed (
      All-append (λ t. t.1 ≤ (best lowered).1) m.before (best lowered ∷ m.after)
        (All-weaken _ m.before m.lower_before) (omega arith, m.no_higher_after))

scores-other : (lowered : Str) → All (λ t. t.0 ≢ other) (scores lowered keyword_categories)
unfolding scores
scores-other lowered = ((λ e. cc), ((λ e. cc), ((λ e. cc), ((λ e. cc), ((λ e. cc), tt)))))

best-ne-other : (lowered : Str) → (best lowered).0 ≢ other
best-ne-other lowered =
    let m = best-IsFirstMax lowered in
    All-middle (λ t. t.0 ≢ other) m.before m.after (best lowered)
      (rw m.placed at (scores-other lowered))

category_of-other : (lowered : Str) → category_of lowered ≡ other → (best lowered).1 ≡ 0
unfolding category_of
category_of-other lowered h = ground (arith, best-ne-other lowered)

other-category_of : (lowered : Str) → (best lowered).1 ≡ 0 → category_of lowered ≡ other
unfolding category_of
other-category_of lowered h = ground arith

abbrev pub NoKeyword : Str → Type 0
NoKeyword lowered = All (λ c. score lowered (keywords c) ≡ 0) keyword_categories

scores-zero :
    (lowered : Str) → NoKeyword lowered → All (λ t. t.1 ≡ 0) (scores lowered keyword_categories)
unfolding scores
scores-zero lowered h = h

best-zero : (lowered : Str) → NoKeyword lowered → (best lowered).1 ≡ 0
best-zero lowered h =
    let m = best-IsFirstMax lowered in
    All-middle (λ t. t.1 ≡ 0) m.before m.after (best lowered)
      (rw m.placed at (scores-zero lowered h))

-- A complaint is put under "other" exactly when no keyword of any category occurs in it.
pub category_of-other_iff : (lowered : Str) → (category_of lowered ≡ other) ↔ NoKeyword lowered
unfolding scores
category_of-other_iff lowered = (
  (λ h. omega (arith, best-max lowered, category_of-other lowered h)),
  (λ h. other-category_of lowered (best-zero lowered h)),
)

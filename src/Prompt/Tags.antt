-- ===== src/Prompt/Tags.antt =====
-- No delimiter tag is left in a sanitised text.
use civic_pulse_24i3089_24i.Prelude.{
  ℕ, zero, suc, ◌-◌, ◌≤◌, ◌≡◌, ◌⊎◌, refl, ap, inl, inr, Bool, false, Option, none, some, List, [],
  ◌∷◌, arith, ◌==◌, length, Option-cases, Bool-cases, All,
}
use civic_pulse_24i3089_24i.Text.{Str, is_space, lstrip}
use civic_pulse_24i3089_24i.Prompt.{
  folds_to, drop_name, tag_names, skip_slash, find_close, starts_word, bounded, or_else, try_names,
  close_after, match_tag, soften, sub_tags, sanitize,
}

-- The text is the other one, with some angle brackets softened.
abbrev SoftChar : ℕ → ℕ → Type 0
SoftChar c d = (c ≡ d) ⊎ (((c ≡ 60) × (d ≡ 8249)) ⊎ ((c ≡ 62) × (d ≡ 8250)))

abbrev Soft : Str → Str → Type 0
Soft [] [] = Unit
Soft [] (d ∷ w) = ⊥
Soft (c ∷ s) [] = ⊥
Soft (c ∷ s) (d ∷ w) = SoftChar c d × Soft s w

abbrev SoftOption : Option Str → Option Str → Type 0
SoftOption none none = Unit
SoftOption none (some w) = ⊥
SoftOption (some s) none = ⊥
SoftOption (some s) (some w) = Soft s w

skip_slash-Soft : (s w : Str) → Soft s w → Soft (skip_slash s) (skip_slash w)
unfolding skip_slash
skip_slash-Soft [] [] h = tt
skip_slash-Soft [] (d ∷ w) h = absurd h
skip_slash-Soft (c ∷ s) [] h = absurd h
skip_slash-Soft (c ∷ s) (d ∷ w) h = ground arith

space_soft : (c d : ℕ) → SoftChar c d → is_space c ≡ is_space d
unfolding is_space
space_soft c d (inl e) = rw e
space_soft c d (inr (inl (e, f))) = rw (e, f)
space_soft c d (inr (inr (e, f))) = rw (e, f)

lstrip-Soft : (s w : Str) → Soft s w → Soft (lstrip s) (lstrip w)
unfolding lstrip
lstrip-Soft [] [] h = tt
lstrip-Soft [] (d ∷ w) h = absurd h
lstrip-Soft (c ∷ s) [] h = absurd h
lstrip-Soft (c ∷ s) (d ∷ w) (k, h) = elim (Bool-cases (is_space d)) [
  | inl e ↦ rw (space_soft c d k, e) (lstrip-Soft s w h)
  | inr e ↦ rw (space_soft c d k, e) (k, h)
]

-- Letters: none of their foldings is an angle bracket, of either kind.
abbrev IsLetter : ℕ → Type 0
IsLetter p = (97 ≤ p) × (p ≤ 122)

fold_soft : (p c d : ℕ) → IsLetter p → SoftChar c d → folds_to p c ≡ folds_to p d
fold_soft p c d l (inl e) = rw e
fold_soft p c d l (inr (inl (e, f))) = rw (e, f) (ground arith)
fold_soft p c d l (inr (inr (e, f))) = rw (e, f) (ground arith)

drop_name-Soft :
    (name s w : Str)
    → All IsLetter name
    → Soft s w
    → SoftOption (drop_name name s) (drop_name name w)
unfolding drop_name
drop_name-Soft [] s w l h = h
drop_name-Soft (p ∷ ps) [] [] l h = tt
drop_name-Soft (p ∷ ps) [] (d ∷ w) l h = absurd h
drop_name-Soft (p ∷ ps) (c ∷ s) [] l h = absurd h
drop_name-Soft (p ∷ ps) (c ∷ s) (d ∷ w) (l, ls) (k, h) = elim (Bool-cases (folds_to p d)) [
  | inl e ↦ rw (fold_soft p c d l k, e) (drop_name-Soft ps s w ls h)
  | inr e ↦ rw (fold_soft p c d l k, e) tt
]

find_close-Soft : (s w : Str) → Soft s w → find_close s ≡ none → find_close w ≡ none
unfolding find_close
find_close-Soft [] [] h e = refl
find_close-Soft [] (d ∷ w) h e = absurd h
find_close-Soft (c ∷ s) [] h e = absurd h
find_close-Soft (c ∷ s) (d ∷ w) (k, h) e = ground (arith, find_close-Soft s w h)

-- What the guard relies on of the Unicode tables: angle brackets, the plain ones and those that
-- replace them, are no word characters.
pub record IsPunctuated (is_word : ℕ → Bool) : Type 0 where
  pub less : is_word 60 ≡ false
  pub greater : is_word 62 ≡ false
  pub soft_less : is_word 8249 ≡ false
  pub soft_greater : is_word 8250 ≡ false

module _ (is_word : ℕ → Bool) where
  -- The text has no place at which `_TAG` matches.
  abbrev pub NoTag : Str → Type 0
  NoTag [] = Unit
  NoTag (c ∷ s) = (match_tag is_word (c ∷ s) ≡ none) × NoTag s

  soften-SoftChar : (c : ℕ) → SoftChar c (soften is_word c)
  soften-SoftChar c = ground arith

  sub_tags-Soft : (left : ℕ) (s : Str) → Soft s (sub_tags is_word left s)
  unfolding sub_tags
  sub_tags-Soft zero [] = tt
  sub_tags-Soft (suc left) [] = tt
  sub_tags-Soft (suc left) (c ∷ s) = (soften-SoftChar c, sub_tags-Soft left s)
  sub_tags-Soft zero (c ∷ s) = elim (Option-cases (match_tag is_word (c ∷ s))) [
    | inl e ↦ rw (e, sub_tags) (inl refl, sub_tags-Soft zero s)
    | inr (rest, e) ↦ rw (e, sub_tags) (soften-SoftChar c, sub_tags-Soft (length s - length rest) s)
  ]

  module _ (marks : IsPunctuated is_word) where
    word_soft : (c d : ℕ) → SoftChar c d → is_word c ≡ is_word d
    word_soft c d (inl e) = rw e
    word_soft c d (inr (inl (e, f))) = rw (e, f, marks.less, marks.soft_less)
    word_soft c d (inr (inr (e, f))) = rw (e, f, marks.greater, marks.soft_greater)

    starts_word-Soft : (s w : Str) → Soft s w → starts_word is_word s ≡ starts_word is_word w
    starts_word-Soft [] [] h = refl
    starts_word-Soft [] (d ∷ w) h = absurd h
    starts_word-Soft (c ∷ s) [] h = absurd h
    starts_word-Soft (c ∷ s) (d ∷ w) (k, h) = word_soft c d k

    bounded-Soft :
        (o q : Option Str) → SoftOption o q → SoftOption (bounded is_word o) (bounded is_word q)
    bounded-Soft none none h = tt
    bounded-Soft none (some w) h = absurd h
    bounded-Soft (some s) none h = absurd h
    bounded-Soft (some s) (some w) h = elim (Bool-cases (starts_word is_word w)) [
      | inl e ↦ rw (starts_word-Soft s w h, e) tt
      | inr e ↦ rw (starts_word-Soft s w h, e) h
    ]

    or_else-Soft :
        (o q a b : Option Str)
        → SoftOption o q
        → SoftOption a b
        → SoftOption (or_else is_word o a) (or_else is_word q b)
    or_else-Soft none none a b h k = k
    or_else-Soft none (some w) a b h k = absurd h
    or_else-Soft (some s) none a b h k = absurd h
    or_else-Soft (some s) (some w) a b h k = h

    try_names-Soft :
        (names : List Str) (s w : Str)
        → All (All IsLetter) names
        → Soft s w
        → SoftOption (try_names is_word names s) (try_names is_word names w)
    unfolding try_names
    try_names-Soft [] s w l h = tt
    try_names-Soft (name ∷ names) s w (l, ls) h =
        or_else-Soft (bounded is_word (drop_name name s)) (bounded is_word (drop_name name w))
          (try_names is_word names s) (try_names is_word names w)
          (bounded-Soft _ _ (drop_name-Soft name s w l h)) (try_names-Soft names s w ls h)

    close_after-Soft :
        (o q : Option Str)
        → SoftOption o q
        → close_after is_word o ≡ none
        → close_after is_word q ≡ none
    close_after-Soft none none h e = refl
    close_after-Soft none (some w) h e = absurd h
    close_after-Soft (some s) none h e = absurd h
    close_after-Soft (some s) (some w) h e = find_close-Soft s w h e

    match_tag-Soft :
        (c : ℕ) (s w : Str)
        → Soft s w
        → match_tag is_word (c ∷ s) ≡ none
        → match_tag is_word (c ∷ w) ≡ none
    unfolding match_tag
    match_tag-Soft c s w h e = elim (Bool-cases (c == 60)) [
      | inl open_ ↦ rw open_ (
          close_after-Soft (try_names is_word tag_names (lstrip (skip_slash s))) _
            (try_names-Soft tag_names (lstrip (skip_slash s)) (lstrip (skip_slash w)) (omega arith)
              (lstrip-Soft _ _ (skip_slash-Soft s w h)))
            (rw open_ at e))
      | inr other ↦ rw other
    ]

    match_tag-soften : (c : ℕ) (s : Str) → match_tag is_word (soften is_word c ∷ s) ≡ none
    unfolding match_tag
    match_tag-soften c s = ground arith

    sub_tags-NoTag : (left : ℕ) (s : Str) → NoTag (sub_tags is_word left s)
    unfolding sub_tags
    sub_tags-NoTag zero [] = tt
    sub_tags-NoTag (suc left) [] = tt
    sub_tags-NoTag (suc left) (c ∷ s) = (match_tag-soften c _, sub_tags-NoTag left s)
    sub_tags-NoTag zero (c ∷ s) = elim (Option-cases (match_tag is_word (c ∷ s))) [
      | inl e ↦
          rw (e, sub_tags) (match_tag-Soft c s _ (sub_tags-Soft zero s) e, sub_tags-NoTag zero s)
      | inr (rest, e) ↦
          rw (e, sub_tags) (match_tag-soften c _, sub_tags-NoTag (length s - length rest) s)
    ]

    -- Where angle brackets, plain or softened, are no word characters, a sanitised text has no
    -- place at which the tag pattern still matches, whatever the citizen wrote.
    pub sanitize-NoTag : (value : Str) → NoTag (sanitize is_word value)
    unfolding sanitize
    sanitize-NoTag value = sub_tags-NoTag zero value

  sub_tags_of_NoTag : (s : Str) → NoTag s → sub_tags is_word zero s ≡ s
  unfolding sub_tags
  sub_tags_of_NoTag [] h = refl
  sub_tags_of_NoTag (c ∷ s) (e, h) = rw (e, sub_tags) (ap (◌∷◌ c) (sub_tags_of_NoTag s h))

  -- A text without such a tag is left as the citizen wrote it.
  pub sanitize_of_NoTag : (value : Str) → NoTag value → sanitize is_word value ≡ value
  unfolding sanitize
  sanitize_of_NoTag value h = sub_tags_of_NoTag value h

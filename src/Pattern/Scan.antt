-- ===== src/Pattern/Scan.antt =====
-- `re.search`, `Pattern.match`, `re.finditer`, `re.findall` and `re.split`, and the shorthands that
-- patterns are written with.
use mathlib.Core.List.{reverse}
use civic_pulse_24i3089_24i.Prelude.{
  ℕ, zero, suc, Bool, true, false, not, Option, none, some, List, [], ◌∷◌, ◌-◌, ◌==◌, length,
}
use civic_pulse_24i3089_24i.Text.{Str, is_space}
use civic_pulse_24i3089_24i.Pattern.{Spot, Pattern, one, empty, seq, either, many, run}

abbrev pub first {ℓ} : {A : Type ℓ} → List A → Option A
first [] = none
first (x ∷ xs) = some x

abbrev pub is_match : List Spot → Bool
is_match [] = false
is_match (t ∷ ts) = true

-- `Pattern.match(text)`: only at the start.
unfoldable pub matches : Pattern → Str → Bool
unfolding run
matches r text = is_match (run r (record { before = none; rest = text; groups = [] }))

-- `re.search`: the groups of the first match at or after a place.
unfoldable pub search_from : Pattern → Option ℕ → Str → Option (List Str)
unfolding run
search_from r before [] = elim (run r (record { before = before; rest = []; groups = [] })) [
  | [] ↦ none
  | t ∷ _ ↦ some t.groups
]
search_from r before (c ∷ s) =
    let later = search_from r (some c) s in
    elim (run r (record { before = before; rest = c ∷ s; groups = [] })) [
      | [] ↦ later
      | t ∷ _ ↦ some t.groups
    ]

unfoldable pub search : Pattern → Str → Option (List Str)
unfolding search_from
search r text = search_from r none text

abbrev pub found : Pattern → Str → Bool
found r text = elim (search r text) [ none ↦ false | some _ ↦ true ]

-- `re.finditer` of a pattern that never matches the empty text: the groups of each match, the next
-- one from where the last one ended. `skip` counts the characters that the last match still covers.
unfoldable pub find_from : Pattern → ℕ → Option ℕ → Str → List (List Str)
unfolding run
find_from r skip before [] = []
find_from r (suc skip) before (c ∷ s) = find_from r skip (some c) s
find_from r zero before (c ∷ s) =
    let here = run r (record { before = before; rest = c ∷ s; groups = [] }) in
    elim here [
      | [] ↦ find_from r zero (some c) s
      | t ∷ _ ↦ t.groups ∷ find_from r (length s - length t.rest) (some c) s
    ]

unfoldable pub find_all : Pattern → Str → List (List Str)
unfolding find_from
find_all r text = find_from r zero none text

-- `re.split` at the matches of such a pattern without groups; `block` is the part being read,
-- reversed.
unfoldable pub split_from : Pattern → ℕ → Option ℕ → Str → Str → List Str
unfolding run
split_from r skip before block [] = reverse block ∷ []
split_from r (suc skip) before block (c ∷ s) = split_from r skip (some c) block s
split_from r zero before block (c ∷ s) =
    elim (run r (record { before = before; rest = c ∷ s; groups = [] })) [
      | [] ↦ split_from r zero (some c) (c ∷ block) s
      | t ∷ _ ↦ reverse block ∷ split_from r (length s - length t.rest) (some c) [] s
    ]

unfoldable pub re_split : Pattern → Str → List Str
unfolding split_from
re_split r text = split_from r zero none [] text

-- a word of the pattern, `r+` and `r?`
abbrev pub word : Str → Pattern
word [] = empty
word (c ∷ w) = seq (one (λ d. d == c)) (word w)

abbrev pub some_of : Pattern → Pattern
some_of r = seq r (many r)

abbrev pub maybe : Pattern → Pattern
maybe r = either r empty

-- `\s*`, `\s+` and `\S`
abbrev pub spaces : Pattern
spaces = many (one is_space)

abbrev pub some_spaces : Pattern
some_spaces = some_of (one is_space)

abbrev pub no_space : Pattern
no_space = one (λ c. not (is_space c))

-- `.`
abbrev pub any_char : Pattern
any_char = one (λ c. not (c == 10))

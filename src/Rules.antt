-- ===== src/Rules.antt =====
-- backend/app/providers/triage/rules.py: the keyword fallback. `str.lower` goes by the Unicode
-- tables, which are not part of the program: it is the parameter `lower`.
pub mod Words
pub mod Ranking
pub mod Heading
pub mod Summary
pub mod Clean
use civic_pulse_24i3089_24i.Prelude.{
  ℕ, zero, suc, ◌+◌, ◌-◌, ◌≤◌, ◌<◌, min, Bool, true, false, ◌&&◌, Option, none, some, List, [], ◌∷◌,
  ◌++◌, map, ltb, leb, if◌then◌else◌, length, take,
}
use civic_pulse_24i3089_24i.Text.{Str, codes, contains, strip, rstrip, collapse}
use civic_pulse_24i3089_24i.Domain.{
  Category, other, Priority, high, normal, low, category_value, summary_max,
}
use civic_pulse_24i3089_24i.Exceptions.{Result, validation_error, of_option}
use civic_pulse_24i3089_24i.Json.{Decimal, decimal}
use civic_pulse_24i3089_24i.Schemas.{TriageResult, make_result}
use Words.{keywords, keyword_categories, high_words, low_words}

-- `_score`: how many of the words occur
unfoldable pub score : Str → List Str → ℕ
score text [] = 0
score text (w ∷ ws) = let rest = score text ws in if contains w text then suc rest else rest

abbrev pub Scored : Type 0
Scored = Category × ℕ

-- one round of `max(scores, key=…)`, which keeps the first of equal scores
abbrev pub better : Scored → Scored → Scored
better (c, n) (d, m) = if ltb n m then (d, m) else (c, n)

unfoldable pub best_from : Scored → List Scored → Scored
best_from best [] = best
best_from best (s ∷ ss) = best_from (better best s) ss

unfoldable pub scores : Str → List Category → List Scored
scores lowered [] = []
scores lowered (c ∷ cs) = (c, score lowered (keywords c)) ∷ scores lowered cs

-- `max` of no pairs would raise; the dictionary is not empty.
unfoldable pub max_of : List Scored → Scored
unfolding best_from
max_of [] = (other, 0)
max_of (s ∷ ss) = best_from s ss

unfoldable pub best : Str → Scored
unfolding max_of scores
best lowered = max_of (scores lowered keyword_categories)

unfoldable pub category_of : Str → Category
unfolding best
category_of lowered = let (c, n) = best lowered in if ltb 0 n then c else other

unfoldable pub priority_of : Str → Priority
priority_of lowered =
    if ltb 0 (score lowered high_words)
    then high
    else if ltb 0 (score lowered low_words)
    then low
    else normal

-- `str.capitalize` of an ASCII text
abbrev upper_char : ℕ → ℕ
upper_char c = if leb 97 c && leb c 122 then c - 32 else c

abbrev lower_char : ℕ → ℕ
lower_char c = if leb 65 c && leb c 90 then c + 32 else c

abbrev pub capitalize : Str → Str
capitalize [] = []
capitalize (c ∷ s) = upper_char c ∷ map lower_char s

unfoldable pub prefix_of : Category → Str → Str
prefix_of c location =
    capitalize (category_value c) ++ (codes " issue at " ++ (strip location ++ codes ": "))

-- the cut to `SUMMARY_MAX`, the last place taken by an ellipsis
unfoldable pub shorten : Str → Str
shorten full =
    if ltb summary_max (length full)
    then rstrip (take (summary_max - 1) full) ++ 8230 ∷ []
    else full

unfoldable pub summary_of : Category → Str → Str → Str
unfolding prefix_of shorten
summary_of c text location = shorten (prefix_of c location ++ strip (collapse text))

abbrev is_other : Category → Bool
is_other other = true
is_other _ = false

-- 0.3, or min(0.9, 0.5 + 0.1 * matched)
unfoldable pub confidence_of : Category → ℕ → Decimal
confidence_of c matched = if is_other c then decimal 3 1 else decimal (min 9 (5 + matched)) 1

module _ (lower : Str → Str) where
  unfoldable pub triage : Str → Str → Result TriageResult
  unfolding category_of priority_of summary_of confidence_of make_result
  triage text location =
      let lowered = lower text in
      let c = category_of lowered in
      of_option validation_error (
        make_result c (priority_of lowered) (summary_of c text location)
          (confidence_of c (best lowered).1))

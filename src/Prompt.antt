-- ===== src/Prompt.antt =====
-- backend/app/providers/triage/prompt.py: the user prompt and the guard against delimiter tags.
-- The regular expression `_TAG` is run as a matcher that gives back what follows a match. `\w` goes
-- by the Unicode tables, which are not part of the program: it is the parameter `is_word`.
pub mod Tags
pub mod Delimiters
pub mod Answer
pub mod System
use civic_pulse_24i3089_24i.Prelude.{
  ℕ, zero, suc, ◌-◌, Bool, true, false, ◌&&◌, ◌||◌, Option, none, some, List, [], ◌∷◌, ◌++◌, ◌==◌,
  length, if◌then◌else◌,
}
use civic_pulse_24i3089_24i.Text.{Str, codes, is_space, lstrip}

-- Whether a character matches a lower-case ASCII letter of the pattern under `re.IGNORECASE`: the
-- letter, its upper case, and the characters that Unicode folds to s and i.
abbrev pub folds_to : ℕ → ℕ → Bool
folds_to p c =
    c == p || c == p - 32 || (p == 115 && c == 383) || (p == 105 && (c == 304 || c == 305))

-- What follows the name, if the text begins with it.
unfoldable pub drop_name : Str → Str → Option Str
drop_name [] s = some s
drop_name (p ∷ ps) [] = none
drop_name (p ∷ ps) (c ∷ s) = if folds_to p c then drop_name ps s else none

abbrev pub tag_names : List Str
tag_names =
    codes "complaint" ∷ codes "location" ∷ codes "system" ∷ codes "assistant" ∷ codes "user" ∷ []

-- `/?`
unfoldable pub skip_slash : Str → Str
skip_slash [] = []
skip_slash (c ∷ s) = if c == 47 then s else c ∷ s

-- `[^>]*>`
unfoldable pub find_close : Str → Option Str
find_close [] = none
find_close (c ∷ s) = let rest = find_close s in if c == 62 then some s else rest

module _ (is_word : ℕ → Bool) where
  abbrev pub starts_word : Str → Bool
  starts_word [] = false
  starts_word (c ∷ s) = is_word c

  -- `(complaint|location|system|assistant|user)\b`: the names end in a letter, so that `\b` asks
  -- for no word character after them
  abbrev pub bounded : Option Str → Option Str
  bounded none = none
  bounded (some rest) = if starts_word rest then none else some rest

  abbrev pub or_else : Option Str → Option Str → Option Str
  or_else none other = other
  or_else (some rest) other = some rest

  unfoldable pub try_names : List Str → Str → Option Str
  unfolding drop_name
  try_names [] s = none
  try_names (name ∷ names) s = or_else (bounded (drop_name name s)) (try_names names s)

  abbrev pub close_after : Option Str → Option Str
  close_after none = none
  close_after (some rest) = find_close rest

  -- what follows a match of `_TAG` at the head of the text
  unfoldable pub match_tag : Str → Option Str
  unfolding try_names find_close skip_slash
  match_tag [] = none
  match_tag (c ∷ s) =
      let matched = close_after (try_names tag_names (lstrip (skip_slash s))) in
      if c == 60 then matched else none

  -- `.replace("<", "‹").replace(">", "›")` of one character
  abbrev pub soften : ℕ → ℕ
  soften c = if c == 60 then 8249 else if c == 62 then 8250 else c

  -- `_TAG.sub(…)`: `left` characters of the match being replaced are still to come
  unfoldable pub sub_tags : ℕ → Str → Str
  sub_tags left [] = []
  sub_tags (suc left) (c ∷ s) = soften c ∷ sub_tags left s
  sub_tags zero (c ∷ s) = elim (match_tag (c ∷ s)) [
    | none ↦ c ∷ sub_tags zero s
    | some rest ↦ soften c ∷ sub_tags (length s - length rest) s
  ]

  unfoldable pub sanitize : Str → Str
  unfolding sub_tags
  sanitize value = sub_tags zero value

  unfoldable pub build_user_prompt : Str → Str → Str
  build_user_prompt text location =
      codes "<location>"
      ++ (sanitize location
          ++ (codes "</location>\n"
              ++ (codes "<complaint>\n"
                  ++ (sanitize text
                      ++ (codes "\n</complaint>\n" ++ codes "Return the JSON object now.")))))

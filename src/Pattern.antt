-- ===== src/Pattern.antt =====
-- The regular expressions of Python's `re`, as far as the program's scripts use them: a pattern and
-- the backtracking search for its matches, the preferred one first.
pub mod Scan
pub mod Decides
pub mod Means
pub mod Members
pub mod Search
pub mod Found
use civic_pulse_24i3089_24i.Prelude.{
  ℕ, zero, suc, Bool, true, false, not, ◌&&◌, ◌||◌, Option, none, some, List, [], ◌∷◌, ◌++◌, ◌-◌,
  ◌==◌, length, take, ltb, map, if◌then◌else◌,
}
use civic_pulse_24i3089_24i.Text.{Str}

-- A place in the text: the character before it, what follows it, and the groups closed so far, the
-- last one first.
pub record Spot : Type 0 where
  pub before : Option ℕ
  pub rest : Str
  pub groups : List Str

pub data Pattern : Type 0 where
  -- one character of a class
  one : (ℕ → Bool) → Pattern
  empty : Pattern
  seq : Pattern → Pattern → Pattern
  either : Pattern → Pattern → Pattern
  -- `r*`
  many : Pattern → Pattern
  -- `(r)`
  group : Pattern → Pattern
  -- `(?=r)`
  ahead : Pattern → Pattern
  -- `^` and `$`, and the same under `re.MULTILINE`
  text_start : Pattern
  text_end : Pattern
  line_start : Pattern
  line_end : Pattern

abbrev pub concat_map {ℓ κ} : {A : Type ℓ} {B : Type κ} → (A → List B) → List A → List B
concat_map f [] = []
concat_map f (x ∷ xs) = f x ++ concat_map f xs

abbrev pub step : (ℕ → Bool) → List Str → Str → List Spot
step p groups [] = []
step p groups (c ∷ s) =
    if p c then record { before = some c; rest = s; groups = groups } ∷ [] else []

abbrev pub at_start : Option ℕ → Bool
at_start none = true
at_start (some c) = false

abbrev pub at_line_start : Option ℕ → Bool
at_line_start none = true
at_line_start (some c) = c == 10

-- `$` also matches before a line feed that ends the text
abbrev pub at_end : Str → Bool
at_end [] = true
at_end (c ∷ []) = c == 10
at_end (c ∷ d ∷ s) = false

abbrev pub at_line_end : Str → Bool
at_line_end [] = true
at_line_end (c ∷ s) = c == 10

abbrev pub stay : Bool → Spot → List Spot
stay b s = if b then s ∷ [] else []

-- The text between two places.
abbrev pub between : Spot → Spot → Str
between s t = take (length s.rest - length t.rest) s.rest

-- The places that are reached by going on as long as something is read. The length of the text is
-- fuel enough, since each round reads a character of it.
unfoldable pub repeat : (Spot → List Spot) → ℕ → Spot → List Spot
repeat f zero s = s ∷ []
repeat f (suc n) s =
    concat_map
      (λ t. let more = repeat f n t in if ltb (length t.rest) (length s.rest) then more else [])
      (f s)
    ++ s ∷ []

abbrev pub peek : Spot → List Spot → List Spot
peek s [] = []
peek s (t ∷ ts) = record s { groups = t.groups } ∷ []

-- The places where a match may end, in the order in which the search tries them.
unfoldable pub run : Pattern → Spot → List Spot
unfolding repeat
run (one p) s = step p s.groups s.rest
run empty s = s ∷ []
run (seq r q) s = concat_map (run q) (run r s)
run (either r q) s = run r s ++ run q s
run (many r) s = repeat (run r) (length s.rest) s
run (group r) s = map {A = Spot} (λ t. record t { groups = between s t ∷ t.groups }) (run r s)
run (ahead r) s = peek s (run r s)
run text_start s = stay (at_start s.before) s
run text_end s = stay (at_end s.rest) s
run line_start s = stay (at_line_start s.before) s
run line_end s = stay (at_line_end s.rest) s

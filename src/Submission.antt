-- ===== src/Submission.antt =====
-- scripts/check_submission.py: the checks before a submission. The repository that they look at is
-- a parameter: its files, what git prints, and what the Unicode tables say. A read
-- fails only as FileNotFoundError, the one error that `read` expects; a list in an f-string is kept
-- as a list.
pub mod Expressions
pub mod Base64
pub mod Compose
pub mod Cluster
pub mod Delivery
pub mod Layout
pub mod Report
pub mod Once
pub mod Totals
pub mod Secrets
use mathlib.Core.List.{reverse}
use civic_pulse_24i3089_24i.Prelude.{
  ℕ, suc, Bool, true, false, ◌&&◌, ◌||◌, Option, none, some, List, [], ◌∷◌, ◌++◌, ◌==◌, leb, length,
  any, if◌then◌else◌,
}
use civic_pulse_24i3089_24i.Text.{Str, codes, ◌===◌, strip}
use civic_pulse_24i3089_24i.Text.Number.{show}

pub data Level : Type 0 where
  pass : Level
  warn : Level
  fail : Level

pub data Detail : Type 0 where
  text : Str → Detail
  -- what an f-string says before the list that it prints
  listing : Str → List Str → Detail
  pairs : Str → List (Str × Str) → Detail

-- An entry of `results`.
pub record Entry : Type 0 where
  pub level : Level
  pub check : Str
  pub detail : Detail

unfoldable pub record_ : Level → Str → Detail → List Entry → List Entry
record_ level check detail results =
    results ++ record { level = level; check = check; detail = detail } ∷ []

-- What `subprocess.run` ends with: the output, or an exception and its text.
pub data Ran : Type 0 where
  finished : Str → Ran
  raised : Str → Ran

pub record Repo : Type 0 where
  pub root : Str
  pub git : List Str → Ran
  -- none stands for FileNotFoundError; paths are those from the root
  pub read_text : Str → Option Str
  pub exists : Str → Bool
  pub glob : Str → Str → List Str
  pub rglob : Str → Str → List Str
  -- `str.lower` and `\w`
  pub lower : Str → Str
  pub is_word : ℕ → Bool

abbrev pub git_error : Str
git_error = codes "__git_error__"

unfoldable pub run_git : Repo → List Str → Str
run_git repo args = elim (repo.git args) [
  | finished out ↦ out
  | raised exc ↦ git_error ++ (codes ":" ++ exc)
]

unfoldable pub read : Repo → Str → Str
read repo path = elim (repo.read_text path) [ none ↦ [] | some contents ↦ contents ]

-- `text in values`
abbrev pub among : Str → List Str → Bool
among s values = any (λ v. v === s) values

abbrev pub is_empty {ℓ} : {A : Type ℓ} → List A → Bool
is_empty [] = true
is_empty (x ∷ xs) = false

-- `str.splitlines`; the flag says that the character before was a carriage return, and `line` is
-- the one being read, reversed
abbrev pub is_break : ℕ → Bool
is_break c = leb 10 c && leb c 13 || leb 28 c && leb c 30 || c == 133 || c == 8232 || c == 8233

unfoldable pub lines_from : Bool → Str → Str → List Str
lines_from cr [] [] = []
lines_from cr (d ∷ line) [] = reverse (d ∷ line) ∷ []
lines_from cr line (c ∷ s) =
    let joined = lines_from false line s in
    let next = lines_from (c == 13) [] s in
    let longer = lines_from false (c ∷ line) s in
    if cr && c == 10 then joined else if is_break c then reverse line ∷ next else longer

unfoldable pub splitlines : Str → List Str
unfolding lines_from
splitlines s = lines_from false [] s

unfoldable pub drop_char : ℕ → Str → Str
drop_char q [] = []
drop_char q (c ∷ s) = let rest = drop_char q s in if c == q then rest else c ∷ s

-- `str.rstrip` and `str.strip` of one character
unfoldable pub rstrip_char : ℕ → Str → Str
unfolding drop_char
rstrip_char q s = reverse (drop_char q (reverse s))

unfoldable pub strip_char : ℕ → Str → Str
unfolding drop_char rstrip_char
strip_char q s = rstrip_char q (drop_char q s)

-- The loops over `enumerate(lines, 1)`: where the lines stand that a test picks.
unfoldable pub offending : (Str → Bool) → Str → ℕ → List Str → List Str
unfolding show
offending bad label i [] = []
offending bad label i (line ∷ lines) =
    let rest = offending bad label (suc i) lines in
    if bad line then (label ++ (codes ":" ++ show i)) ∷ rest else rest

-- The first line of a block, without its colon: the key that the block stands under.
abbrev pub first_line : List Str → Str
first_line [] = []
first_line (line ∷ lines) = line

unfoldable pub block_name : Str → Str
unfolding splitlines rstrip_char strip
block_name block =
    let head = if is_empty (strip block) then [] else first_line (splitlines (strip block)) in
    strip (rstrip_char 58 head)

-- The end that most checks share: a failure with what they found, or a pass.
unfoldable pub conclude : Str → List Str → Detail → Str → List Entry → List Entry
unfolding record_
conclude check found bad good results =
    if is_empty found
    then record_ pass check (text good) results
    else record_ fail check bad results

-- ===== src/Submission/Base64.antt =====
-- scripts/check_submission.py: `base64.b64decode(s).decode("utf-8", "ignore")` on a text, with none
-- where Python raises. Characters outside the alphabet are skipped, as `validate=False` says.
use civic_pulse_24i3089_24i.Prelude.{
  ℕ, zero, suc, ◌+◌, ◌-◌, ◌*◌, ◌/◌, ◌%◌, Bool, true, false, ◌&&◌, ◌||◌, Option, none, some, List,
  [], ◌∷◌, leb, ltb, ◌==◌, any, if◌then◌else◌,
}
use civic_pulse_24i3089_24i.Text.{Str}

-- The value of a character of the alphabet.
abbrev sextet : ℕ → Option ℕ
sextet c =
    if leb 65 c && leb c 90
    then some (c - 65)
    else if leb 97 c && leb c 122
    then some (c - 71)
    else if leb 48 c && leb c 57
    then some (c + 4)
    else if c == 43
    then some 62
    else if c == 47
    then some 63
    else none

abbrev with_byte : ℕ → Option (List ℕ) → Option (List ℕ)
with_byte b none = none
with_byte b (some bytes) = some (b ∷ bytes)

-- `pos` is the place within the group of four, `left` the bits kept of the last character, `pads`
-- the padding characters since then; a group may end early at its padding.
unfoldable pub bytes_from : ℕ → ℕ → ℕ → Str → Option (List ℕ)
bytes_from pos left pads [] = if pos == 0 then some [] else none
bytes_from pos left pads (c ∷ s) = elim (c == 61) [
  | true ↦
      if leb 2 pos && leb 4 (pos + suc pads)
      then some []
      else bytes_from pos left (if leb 2 pos then suc pads else pads) s
  | false ↦ elim (sextet c) [
    | none ↦ bytes_from pos left pads s
    | some v ↦ elim (pos == 0) [
      | true ↦ bytes_from 1 v 0 s
      | false ↦ elim (pos == 1) [
        | true ↦ with_byte (left * 4 + v / 16) (bytes_from 2 (v % 16) 0 s)
        | false ↦ elim (pos == 2) [
          | true ↦ with_byte (left * 16 + v / 4) (bytes_from 3 (v % 4) 0 s)
          | false ↦ with_byte (left * 64 + v) (bytes_from 0 0 0 s)
        ]
      ]
    ]
  ]
]

abbrev is_between : ℕ → ℕ → ℕ → Bool
is_between low high b = leb low b && leb b high

abbrev is_tail : ℕ → Bool
is_tail b = is_between 128 191 b

-- The code point that a well-formed sequence of bytes begins with, and its number of further bytes.
abbrev two : ℕ → List ℕ → Option (ℕ × ℕ)
two b [] = none
two b (c ∷ bytes) =
    if is_between 194 223 b && is_tail c then some ((b - 192) * 64 + (c - 128), 1) else none

abbrev three : ℕ → List ℕ → Option (ℕ × ℕ)
three b [] = none
three b (c ∷ []) = none
three b (c ∷ d ∷ bytes) =
    if is_between 224 239 b
      && is_tail c
      && is_tail d
      && (ltb 224 b || leb 160 c)
      && (ltb b 237 || ltb 237 b || leb c 159)
    then some (((b - 224) * 64 + (c - 128)) * 64 + (d - 128), 2)
    else none

abbrev four : ℕ → List ℕ → Option (ℕ × ℕ)
four b [] = none
four b (c ∷ []) = none
four b (c ∷ d ∷ []) = none
four b (c ∷ d ∷ e ∷ bytes) =
    if is_between 240 244 b
      && is_tail c
      && is_tail d
      && is_tail e
      && (ltb 240 b || leb 144 c)
      && (ltb b 244 || leb c 143)
    then some ((((b - 240) * 64 + (c - 128)) * 64 + (d - 128)) * 64 + (e - 128), 3)
    else none

abbrev first_of : Option (ℕ × ℕ) → Option (ℕ × ℕ) → Option (ℕ × ℕ)
first_of none other = other
first_of (some x) other = some x

abbrev point : ℕ → List ℕ → Option (ℕ × ℕ)
point b bytes =
    if ltb b 128
    then some (b, 0)
    else first_of (two b bytes) (first_of (three b bytes) (four b bytes))

-- `skip` counts the bytes that the last code point still covers; a byte that begins none is ignored.
unfoldable pub utf8_from : ℕ → List ℕ → Str
utf8_from skip [] = []
utf8_from (suc skip) (b ∷ bytes) = utf8_from skip bytes
utf8_from zero (b ∷ bytes) = elim (point b bytes) [
  | none ↦ utf8_from zero bytes
  | some (c, more) ↦ c ∷ utf8_from more bytes
]

abbrev decoded : Option (List ℕ) → Option Str
decoded none = none
decoded (some bytes) = some (utf8_from zero bytes)

-- A text with a character outside of ASCII is a ValueError.
unfoldable pub decode : Str → Option Str
unfolding bytes_from utf8_from
decode s = if any (λ c. leb 128 c) s then none else decoded (bytes_from 0 0 0 s)

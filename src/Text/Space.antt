-- ===== src/Text/Space.antt =====
-- `str.strip`, `str.rstrip`, `str.split`, `str.join` and `re.sub(r"\s+", " ", …)`.
use Prim.Native.Char.{code}
use Prim.Native.String.{String}
use mathlib.Core.List.{reverse}
use civic_pulse_24i3089_24i.Prelude.{
  ℕ, Bool, true, false, ◌||◌, ◌&&◌, List, [], ◌∷◌, ◌++◌, leb, ◌==◌, if◌then◌else◌, any,
}

abbrev pub Str : Type 0
Str = List ℕ

-- A literal of the source.
abbrev pub codes : String → Str
codes String.[] = []
codes (String.◌∷◌ c s) = code c ∷ codes s

-- `str.isspace` of one character.
unfoldable pub is_space : ℕ → Bool
is_space c =
    leb 9 c && leb c 13
    || leb 28 c && leb c 32
    || c == 133
    || c == 160
    || c == 5760
    || leb 8192 c && leb c 8202
    || c == 8232
    || c == 8233
    || c == 8239
    || c == 8287
    || c == 12288

unfoldable pub lstrip : Str → Str
lstrip [] = []
lstrip (c ∷ s) = let rest = lstrip s in if is_space c then rest else c ∷ s

-- Drops the character where nothing but white space follows it.
abbrev pub rstrip_cons : ℕ → Str → Str
rstrip_cons c [] = if is_space c then [] else c ∷ []
rstrip_cons c (d ∷ t) = c ∷ d ∷ t

unfoldable pub rstrip : Str → Str
rstrip [] = []
rstrip (c ∷ s) = rstrip_cons c (rstrip s)

unfoldable pub strip : Str → Str
strip s = rstrip (lstrip s)

-- `re.sub(r"\s+", " ", s)`; the flag says that the run of white space before was written already.
unfoldable pub collapse_from : Bool → Str → Str
collapse_from run [] = []
collapse_from run (c ∷ s) =
    let within = collapse_from true s in
    let after = collapse_from false s in
    if is_space c then (if run then within else 32 ∷ within) else c ∷ after

unfoldable pub collapse : Str → Str
collapse s = collapse_from false s

-- `str.split()`: the maximal runs of other characters; `word` is the one being read, reversed.
abbrev pub close : Str → List Str → List Str
close [] words = words
close (c ∷ word) words = reverse (c ∷ word) ∷ words

unfoldable pub split_from : Str → Str → List Str
split_from word [] = close word []
split_from word (c ∷ s) =
    let ended = split_from [] s in
    let longer = split_from (c ∷ word) s in if is_space c then close word ended else longer

unfoldable pub split : Str → List Str
split s = split_from [] s

-- `str.split(sep)` for one character; `part` is the one being read, reversed
unfoldable pub split_on : ℕ → Str → Str → List Str
split_on sep part [] = reverse part ∷ []
split_on sep part (c ∷ s) =
    let next = split_on sep [] s in
    let longer = split_on sep (c ∷ part) s in if c == sep then reverse part ∷ next else longer

-- `sep.join(words)`
unfoldable pub join : Str → List Str → Str
join sep [] = []
join sep (w ∷ []) = w
join sep (w ∷ v ∷ ws) = w ++ (sep ++ join sep (v ∷ ws))

-- What PostgreSQL does not store in a text: U+0000, and the surrogates, which are no UTF-8.
abbrev pub is_unstorable : ℕ → Bool
is_unstorable c = c == 0 || (leb 55296 c && leb c 57343)

abbrev pub has_unstorable : Str → Bool
has_unstorable s = any is_unstorable s

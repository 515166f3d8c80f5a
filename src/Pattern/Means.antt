-- ===== src/Pattern/Means.antt =====
-- What the patterns mean, said without a search: where a match that begins at a place may end.
use civic_pulse_24i3089_24i.Prelude.{ℕ, ◌<◌, ◌≡◌, ◌⊎◌, Bool, true, false, ◌&&◌, some, ◌∷◌, length}
use civic_pulse_24i3089_24i.Text.{Str}
use civic_pulse_24i3089_24i.Pattern.{
  Spot, Pattern, one, empty, seq, either, many, group, ahead, text_start, text_end, line_start,
  line_end, at_start, at_end, at_line_start, at_line_end, between,
}

-- Any number of steps, each of which reads something.
pub data Star (R : Spot → Spot → Type 0) (t : Spot) : Spot → Type 0 where
  done : {s : Spot} → t ≡ s → Star R t s
  more : {s : Spot} (u : Spot) → R s u → length u.rest < length s.rest → Star R t u → Star R t s

abbrev pub Matches : Pattern → Spot → Spot → Type 0
Matches (one p) s t =
    (c : ℕ) × (rest : Str) × (s.rest ≡ c ∷ rest)
    × (p c ≡ true)
    × (t ≡ record { before = some c; rest = rest; groups = s.groups })
Matches empty s t = t ≡ s
Matches (seq r q) s t = (u : Spot) × Matches r s u × Matches q u t
Matches (either r q) s t = Matches r s t ⊎ Matches q s t
Matches (many r) s t = Star (Matches r) t s
Matches (group r) s t =
    (u : Spot) × Matches r s u × (t ≡ record u { groups = between s u ∷ u.groups })
Matches (ahead r) s t = (u : Spot) × Matches r s u × (t ≡ s)
Matches text_start s t = (at_start s.before ≡ true) × (t ≡ s)
Matches text_end s t = (at_end s.rest ≡ true) × (t ≡ s)
Matches line_start s t = (at_line_start s.before ≡ true) × (t ≡ s)
Matches line_end s t = (at_line_end s.rest ≡ true) × (t ≡ s)

abbrev pub has_no_group : Pattern → Bool
has_no_group (seq r q) = has_no_group r && has_no_group q
has_no_group (either r q) = has_no_group r && has_no_group q
has_no_group (many r) = has_no_group r
has_no_group (group r) = false
has_no_group (ahead r) = true
has_no_group _ = true

-- No lookahead has a group in it.
abbrev pub is_plain : Pattern → Bool
is_plain (seq r q) = is_plain r && is_plain q
is_plain (either r q) = is_plain r && is_plain q
is_plain (many r) = is_plain r
is_plain (group r) = is_plain r
is_plain (ahead r) = is_plain r && has_no_group r
is_plain _ = true

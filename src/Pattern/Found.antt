-- ===== src/Pattern/Found.antt =====
-- `re.search` and `Pattern.match` by what the pattern means.
use mathlib.Core.List.{Memᴰ}
use mathlib.Core.List.Memᴰ
use civic_pulse_24i3089_24i.Prelude.{
  ℕ, ◌≡◌, refl, sym, ◌∙◌, ◌↔◌, inl, inr, Bool, true, false, ◌||◌, Bool-cases, arith, Option, none,
  some, List, [], ◌∷◌,
}
use civic_pulse_24i3089_24i.Text.{Str}
use civic_pulse_24i3089_24i.Pattern.{Spot, Pattern, run}
use civic_pulse_24i3089_24i.Pattern.Scan.{is_match, matches, search_from, search, found}
use civic_pulse_24i3089_24i.Pattern.Means.{Matches, is_plain}
use civic_pulse_24i3089_24i.Pattern.Search.{run-Matches}

abbrev pub spot : Option ℕ → Str → Spot
spot before rest = record { before = before; rest = rest; groups = [] }

-- A match begins here or further on.
pub data Occurs (r : Pattern) : Option ℕ → Str → Type 0 where
  here : {b : Option ℕ} {s : Str} (t : Spot) → Matches r (spot b s) t → Occurs r b s
  further : {b : Option ℕ} {c : ℕ} {s : Str} → Occurs r (some c) s → Occurs r b (c ∷ s)

is_match_iff : (ts : List Spot) → (is_match ts ≡ true) ↔ ((t : Spot) × Memᴰ t ts)
is_match_iff [] = (λ e. cc, λ (t, m). absurd (Memᴰ.not-nil m))
is_match_iff (t ∷ ts) = (λ e. (t, Memᴰ.head refl), λ m. refl)

module _ (r : Pattern) (plain : is_plain r ≡ true) where
  is_match-Matches : (s : Spot) → (is_match (run r s) ≡ true) ↔ ((t : Spot) × Matches r s t)
  is_match-Matches s = (
    λ e. let (t, m) = (is_match_iff (run r s)).0 e in (t, (run-Matches r plain s t).0 m),
    λ (t, m). (is_match_iff (run r s)).1 (t, (run-Matches r plain s t).1 m),
  )

  abbrev is_some : Option (List Str) → Bool
  is_some none = false
  is_some (some groups) = true

  tried :
      (ts : List Spot) (other : Option (List Str))
      → is_some (elim ts [ [] ↦ other | t ∷ _ ↦ some t.groups ]) ≡ (is_match ts || is_some other)
  tried [] other = refl
  tried (t ∷ ts) other = refl

  search_from_nil :
      (b : Option ℕ) → is_some (search_from r b []) ≡ (is_match (run r (spot b [])) || false)
  unfolding search_from
  search_from_nil b = tried (run r (spot b [])) none

  search_from_cons :
      (b : Option ℕ) (c : ℕ) (s : Str)
      → is_some (search_from r b (c ∷ s))
        ≡ (is_match (run r (spot b (c ∷ s))) || is_some (search_from r (some c) s))
  unfolding search_from
  search_from_cons b c s = tried (run r (spot b (c ∷ s))) (search_from r (some c) s)

  Occurs-here : (b : Option ℕ) (s : Str) → is_match (run r (spot b s)) ≡ true → Occurs r b s
  Occurs-here b s e = let (t, m) = (is_match-Matches (spot b s)).0 e in here t m

  found_from : (b : Option ℕ) (s : Str) → is_some (search_from r b s) ≡ true → Occurs r b s
  found_from b [] e = elim (Bool-cases (is_match (run r (spot b [])))) [
    | inl h ↦ Occurs-here b [] h
    | inr h ↦ let none_left : false ≡ true = sym (search_from_nil b ∙ rw h) ∙ e in cc none_left
  ]
  found_from b (c ∷ s) e = elim (Bool-cases (is_match (run r (spot b (c ∷ s))))) [
    | inl h ↦ Occurs-here b (c ∷ s) h
    | inr h ↦ further (found_from (some c) s (sym (search_from_cons b c s ∙ rw h) ∙ e))
  ]

  from_found : {b : Option ℕ} {s : Str} → Occurs r b s → is_some (search_from r b s) ≡ true
  from_found {b} {s = []} (here t m) =
      let e = (is_match-Matches (spot b [])).1 (t, m) in search_from_nil b ∙ rw e
  from_found {b} {s = c ∷ s} (here t m) =
      let e = (is_match-Matches (spot b (c ∷ s))).1 (t, m) in search_from_cons b c s ∙ rw e
  from_found {b} {s = c ∷ s} (further later) =
      let e = from_found later in search_from_cons b c s ∙ rw e (ground arith)

  tested : (o : Option (List Str)) → elim o [ none ↦ false | some _ ↦ true ] ≡ is_some o
  tested none = refl
  tested (some groups) = refl

  -- Where no lookahead of the expression has a group in it: `match` succeeds exactly where the
  -- text has a match from its start on, and `search` exactly where one begins at some place of the
  -- text, by what the parts of the expression mean.
  pub found-Occurs :
      (text : Str)
      → ((matches r text ≡ true) ↔ ((t : Spot) × Matches r (spot none text) t))
        × ((found r text ≡ true) ↔ Occurs r none text)
  unfolding matches search
  found-Occurs text =
      let same = tested (search_from r none text) in
      (
        is_match-Matches (spot none text),
        (λ e. found_from none text (sym same ∙ e), λ h. same ∙ from_found h),
      )

-- ===== src/Seed/Rows.antt =====
-- The rows that the seeds make: they fit the table, and their ids do not depend on the time.
use civic_pulse_24i3089_24i.Prelude.{
  ℕ, suc, ◌≤◌, ◌≡◌, refl, ap, Bool, true, false, not, ◌&&◌, none, some, List, [], ◌∷◌, map, arith,
  leb, any, all, All, length,
}
use civic_pulse_24i3089_24i.Text.{Str, strip, lstrip, rstrip, is_space, has_unstorable}
use civic_pulse_24i3089_24i.Domain.{text_min, text_max, location_min, location_max, contact_max}
use civic_pulse_24i3089_24i.Exceptions.{Result, ok}
use civic_pulse_24i3089_24i.Schemas.{TriageResult, is_line_break}
use civic_pulse_24i3089_24i.Schemas.Laws.{IsValid}
use civic_pulse_24i3089_24i.Repository.{Complaint}
use civic_pulse_24i3089_24i.Repository.Sessions.{IsRow}
use civic_pulse_24i3089_24i.Rules.Summary.{triage_returns}
use civic_pulse_24i3089_24i.Rules.Clean.{triage_clean}
use civic_pulse_24i3089_24i.Seed.{Seed, seeds, seed_row, build_from, build_seed_complaints}

abbrev between : ℕ → ℕ → Str → Bool
between low high s = leb low (length s) && leb (length s) high

-- A seed within the limits of the table, with its location on one line.
record IsGood (s : Seed) : Type 0 where
  text : between text_min text_max s.text ≡ true
  location : between location_min location_max s.location ≡ true
  contact : (t : Str) → s.contact ≡ some t → length t ≤ contact_max
  flat : any is_line_break (strip s.location) ≡ false
  text_clean : has_unstorable s.text ≡ false
  location_clean : has_unstorable s.location ≡ false
  contact_clean : (t : Str) → s.contact ≡ some t → has_unstorable t ≡ false

abbrev contact_fits : Seed → Bool
contact_fits s = elim s.contact [
  | none ↦ true
  | some t ↦ leb (length t) contact_max && not (has_unstorable t)
]

abbrev good : Seed → Bool
good s =
    between text_min text_max s.text
    && between location_min location_max s.location
    && contact_fits s
    && not (any is_line_break (strip s.location))
    && not (has_unstorable s.text)
    && not (has_unstorable s.location)

good-IsGood : (s : Seed) → good s ≡ true → IsGood s
good-IsGood s h = record {
  text = ground arith;
  location = ground arith;
  contact = λ t e. ground arith;
  flat = ground arith;
  text_clean = ground arith;
  location_clean = ground arith;
  contact_clean = λ t e. ground arith;
}

all-good : (ss : List Seed) → all good ss ≡ true → All IsGood ss
all-good [] h = tt
all-good (s ∷ ss) h = (good-IsGood s (ground arith), all-good ss (ground arith))

seeds-good : all good seeds ≡ true
unfolding seeds strip lstrip rstrip is_space
seeds-good = refl

module _ (lower : Str → Str) (seed_id : Str → ℕ) where
  seed_row-IsRow :
      (i now : ℕ) (s : Seed) (t : TriageResult)
      → IsGood s
      → IsValid t
      → has_unstorable t.summary ≡ false
      → IsRow (seed_row lower seed_id i now s t)
  seed_row-IsRow i now s t g v clean = record {
    text_long = ground (arith, g.text);
    text_short = ground (arith, g.text);
    location_long = ground (arith, g.location);
    location_short = ground (arith, g.location);
    contact_short = g.contact;
    summary_short = λ u e. (let z : t.summary ≡ u = cc e in rw (← z) v.summary.within);
    name_short = omega arith;
    latency_small = omega arith;
    text_clean = g.text_clean;
    location_clean = g.location_clean;
    contact_clean = g.contact_clean;
    summary_clean = λ u e. (let z : t.summary ≡ u = cc e in rw (← z) clean);
    name_clean = refl;
  }

  abbrev pub ids : List Seed → List ℕ
  ids ss = map (λ s. seed_id s.text) ss

  abbrev Built : Result (List Complaint) → List Seed → Type 0
  Built m ss =
      (rows : List Complaint) × (m ≡ ok rows) × All IsRow rows × (map (λ c. c.id) rows ≡ ids ss)

  build_from-Built :
      (i now : ℕ) (ss : List Seed) → All IsGood ss → Built (build_from lower seed_id i now ss) ss
  unfolding build_from
  build_from-Built i now [] h = ([], refl, tt, refl)
  build_from-Built i now (s ∷ ss) (g, h) =
      let (t, answered, v, _, _) = triage_returns lower s.text s.location g.flat in
      let clean = triage_clean lower s.text s.location t g.text_clean g.location_clean answered in
      let (rows, built, fit, same) = build_from-Built (suc i) now ss h in
      (
        seed_row lower seed_id i now s t ∷ rows,
        rw (answered, built),
        (seed_row-IsRow i now s t g v clean, fit),
        ap (◌∷◌ (seed_id s.text)) same,
      )

  -- Building the demonstration complaints never raises, whatever the time: every row meets the
  -- constraints of the table, and its id is the one that `seed_id` gives its text.
  pub build_seed_complaints-IsRow :
      (now : ℕ)
      → (rows : List Complaint) × (build_seed_complaints lower seed_id now ≡ ok rows)
        × All IsRow rows
        × (map (λ c. c.id) rows ≡ map (λ s. seed_id s.text) seeds)
  unfolding build_seed_complaints
  build_seed_complaints-IsRow now = build_from-Built 0 now seeds (all-good seeds seeds-good)

-- ===== src/Text/Number.antt =====
-- `str(n)` of a natural number.
use civic_pulse_24i3089_24i.Prelude.{
  ℕ, zero, suc, ◌+◌, ◌/◌, ◌%◌, ◌<◌, ◌≡◌, [], ◌∷◌, ltb, arith, if◌then◌else◌,
}
use civic_pulse_24i3089_24i.Text.Space.{Str}

-- The digits before `acc`, the last one first; `n` itself is fuel enough, since each round divides
-- it by ten.
unfoldable pub digits_from : ℕ → ℕ → Str → Str
digits_from zero n acc = acc
digits_from (suc fuel) n acc =
    let digit = (48 + n % 10) ∷ acc in
    let rest = digits_from fuel (n / 10) digit in if ltb n 10 then digit else rest

unfoldable pub show : ℕ → Str
unfolding digits_from
show n = digits_from (suc n) n []

-- More fuel than the number itself changes nothing, so none runs short.
pub digits_from_fuel :
    (f g n : ℕ) (acc : Str) → n < f → n < g → digits_from f n acc ≡ digits_from g n acc
unfolding digits_from
digits_from_fuel zero g n acc h k = absurd (omega arith)
digits_from_fuel (suc f) zero n acc h k = absurd (omega arith)
digits_from_fuel (suc f) (suc g) n acc h k =
    ground (arith, digits_from_fuel f g (n / 10) ((48 + n % 10) ∷ acc))

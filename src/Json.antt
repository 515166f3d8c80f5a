-- ===== src/Json.antt =====
-- The values of Python's `json` module. A float is the decimal that it prints as: rounding below
-- the printed digits, NaN and the infinities are not modelled.
use civic_pulse_24i3089_24i.Prelude.{
  ℕ, ◌^◌, Bool, true, false, not, ◌&&◌, ◌||◌, Option, none, some, List, leb, ◌==◌, if◌then◌else◌,
  any,
}
use civic_pulse_24i3089_24i.Text.{Str, ◌===◌}
use civic_pulse_24i3089_24i.Exceptions.{Result, err, key_error, type_error, of_option}

-- (-1)^negative * mantissa / 10^places
pub record Decimal : Type 0 where
  pub negative : Bool
  pub mantissa : ℕ
  pub places : ℕ

abbrev pub decimal : ℕ → ℕ → Decimal
decimal m k = record { negative = false; mantissa = m; places = k }

-- `Field(ge=0.0, le=1.0)`
abbrev pub in_unit : Decimal → Bool
in_unit d = (not d.negative || d.mantissa == 0) && (d.negative || leb d.mantissa (10 ^ d.places))

mutual
  pub data Json : Type 0 where
    null : Json
    boolean : Bool → Json
    num : Decimal → Json
    str : Str → Json
    arr : Items → Json
    obj : Fields → Json

  pub data Items : Type 0 where
    nil : Items
    cons : Json → Items → Items

  pub data Fields : Type 0 where
    end : Fields
    field : Str → Json → Fields → Fields

unfoldable pub find_field : Str → Fields → Option Json
find_field k end = none
find_field k (field j v fs) = if j === k then some v else find_field k fs

-- `value[key]` for a text `key`
unfoldable pub subscript : Json → Str → Result Json
subscript (obj fs) key = of_option key_error (find_field key fs)
subscript _ key = err type_error

-- Whether every key of the object is one of `known`.
unfoldable pub has_only : List Str → Fields → Bool
has_only known end = true
has_only known (field k v fs) = any (λ name. name === k) known && has_only known fs

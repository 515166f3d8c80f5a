-- ===== src/Migration/Values.antt =====
-- What the columns and the CHECK constraints of the migration's table take.
use civic_pulse_24i3089_24i.Prelude.{
  ℕ, ◌≤◌, ◌<◌, ◌^◌, ◌≡◌, Bool, true, false, Option, none, some, length, any, All, if◌then◌else◌,
}
use civic_pulse_24i3089_24i.Text.{Str, codes, has_unstorable, ◌===◌}
use civic_pulse_24i3089_24i.Domain.{category_value, priority_value, status_value}
use civic_pulse_24i3089_24i.Repository.{Complaint}
use civic_pulse_24i3089_24i.Migration.{
  Kind, uuid, text, string, enum, integer, timestamp, Check, length_between, at_least, Table,
}

-- A value that an INSERT may name: NULL, a text, a whole number from 0 on, one below 0 (`minus n` is
-- -1 - n), a UUID, a moment.
pub data Value : Type 0 where
  null : Value
  words : Str → Value
  number : ℕ → Value
  minus : ℕ → Value
  key : ℕ → Value
  moment : ℕ → Value

-- The values of one INSERT by the names of their columns.
abbrev pub Row : Type 0
Row = Str → Value

abbrev pub optional : Option Str → Value
optional none = null
optional (some s) = words s

-- What a complaint has in a column of that name.
unfoldable pub row_of : Complaint → Row
unfolding ◌===◌
row_of c name =
    if name === codes "text"
    then words c.text
    else if name === codes "location"
    then words c.location
    else if name === codes "reporter_contact"
    then optional c.reporter_contact
    else if name === codes "category"
    then words (category_value c.category)
    else if name === codes "priority"
    then words (priority_value c.priority)
    else if name === codes "status"
    then words (status_value c.status)
    else if name === codes "ai_summary"
    then optional c.ai_summary
    else if name === codes "triaged_by"
    then words c.triaged_by
    else if name === codes "id"
    then key c.id
    else if name === codes "triage_latency_ms"
    then number c.triage_latency_ms
    else if name === codes "created_at"
    then moment c.created_at
    else if name === codes "updated_at"
    then moment c.updated_at
    else null

-- What a column of that kind takes, except for NULL: of an ENUM its values, of an INTEGER 32 bits.
abbrev pub Fits : Kind → Value → Type 0
Fits text (words s) = has_unstorable s ≡ false
Fits (string n) (words s) = (length s ≤ n) × (has_unstorable s ≡ false)
Fits (enum name values) (words s) = any (λ v. v === s) values ≡ true
Fits uuid (key n) = Unit
Fits integer (number n) = n < 2 ^ 31
Fits integer (minus n) = n < 2 ^ 31
Fits timestamp (moment n) = Unit
Fits _ _ = ⊥

abbrev pub Takes : Bool → Kind → Value → Type 0
Takes nullable k null = nullable ≡ true
Takes nullable k (words s) = Fits k (words s)
Takes nullable k (number n) = Fits k (number n)
Takes nullable k (minus n) = Fits k (minus n)
Takes nullable k (key n) = Fits k (key n)
Takes nullable k (moment n) = Fits k (moment n)

-- A CHECK over NULL does not fail.
abbrev pub Between : ℕ → ℕ → Value → Type 0
Between least most null = Unit
Between least most (words s) = (least ≤ length s) × (length s ≤ most)
Between least most _ = ⊥

abbrev pub AtLeast : ℕ → Value → Type 0
AtLeast least null = Unit
AtLeast least (number n) = least ≤ n
AtLeast least _ = ⊥

abbrev pub Passes : Row → Check → Type 0
Passes row (length_between name least most) = Between least most (row name)
Passes row (at_least name least) = AtLeast least (row name)

pub record Admits (t : Table) (row : Row) : Type 0 where
  pub columns : All (λ column. Takes column.nullable column.kind (row column.name)) t.columns
  pub checks : All (Passes row) t.checks

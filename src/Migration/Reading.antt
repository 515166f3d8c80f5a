-- ===== src/Migration/Reading.antt =====
-- What a value is that a column takes.
use mathlib.Core.Path.{subst}
use civic_pulse_24i3089_24i.Prelude.{
  ℕ, ◌≤◌, ◌<◌, ◌^◌, ◌≡◌, refl, sym, ap, inl, inr, true, false, Option, none, some, List, [], ◌∷◌,
  map, length, any, Bool-cases,
}
use civic_pulse_24i3089_24i.Text.{Str, has_unstorable, ◌===◌, ===_iff}
use civic_pulse_24i3089_24i.Domain.{
  Category, Priority, Status, category_value, priority_value, status_value, all_categories,
  all_priorities, all_statuses,
}
use civic_pulse_24i3089_24i.Migration
use civic_pulse_24i3089_24i.Migration.{uuid, text, string, integer, timestamp}
use civic_pulse_24i3089_24i.Migration.Values.{
  Value, null, words, number, minus, key, moment, optional, Takes, AtLeast,
}

pub key_of : (v : Value) → Takes false uuid v → (n : ℕ) × (v ≡ key n)
key_of (key n) h = (n, refl)
key_of null h = cc
key_of (words s) h = absurd h
key_of (number n) h = absurd h
key_of (minus n) h = absurd h
key_of (moment n) h = absurd h

pub moment_of : (v : Value) → Takes false timestamp v → (n : ℕ) × (v ≡ moment n)
moment_of (moment n) h = (n, refl)
moment_of null h = cc
moment_of (words s) h = absurd h
moment_of (number n) h = absurd h
moment_of (minus n) h = absurd h
moment_of (key n) h = absurd h

pub text_of :
    (v : Value) → Takes false text v → (s : Str) × (v ≡ words s) × (has_unstorable s ≡ false)
text_of (words s) h = (s, refl, h)
text_of null h = cc
text_of (number n) h = absurd h
text_of (minus n) h = absurd h
text_of (key n) h = absurd h
text_of (moment n) h = absurd h

pub string_of :
    (k : ℕ) (v : Value)
    → Takes false (string k) v
    → (s : Str) × (v ≡ words s) × (length s ≤ k) × (has_unstorable s ≡ false)
string_of k (words s) h = (s, refl, h.0, h.1)
string_of k null h = cc
string_of k (number n) h = absurd h
string_of k (minus n) h = absurd h
string_of k (key n) h = absurd h
string_of k (moment n) h = absurd h

pub optional_of :
    (k : ℕ) (v : Value)
    → Takes true (string k) v
    → (o : Option Str) × (v ≡ optional o)
      × ((s : Str) → o ≡ some s → (length s ≤ k) × (has_unstorable s ≡ false))
optional_of k null h = (none, refl, λ s e. cc)
optional_of k (words t) h = (
  some t,
  refl,
  λ s e. let same : t ≡ s = cc e in subst (λ u. (length u ≤ k) × (has_unstorable u ≡ false)) same h,
)
optional_of k (number n) h = absurd h
optional_of k (minus n) h = absurd h
optional_of k (key n) h = absurd h
optional_of k (moment n) h = absurd h

pub integer_of :
    (v : Value) → Takes false integer v → AtLeast 0 v → (n : ℕ) × (v ≡ number n) × (n < 2 ^ 31)
integer_of (number n) h k = (n, refl, h)
integer_of null h k = cc
integer_of (minus n) h k = absurd k
integer_of (words s) h k = absurd h
integer_of (key n) h k = absurd h
integer_of (moment n) h k = absurd h

-- One of the values of an ENUM type is that of a member of the Python enum.
pub member_of :
    {A : Type 0} (f : A → Str) (ks : List A) (s : Str)
    → any (λ v. v === s) (map f ks) ≡ true
    → (k : A) × (words s ≡ words (f k))
member_of f [] s h = cc
member_of f (k ∷ ks) s h = elim (Bool-cases (f k === s)) [
  | inl e ↦ (k, ap words (sym ((===_iff (f k) s).0 e)))
  | inr e ↦ member_of f ks s (rw e at h)
]

pub category_of :
    (v : Value) → Takes false Migration.category v → (k : Category) × (v ≡ words (category_value k))
category_of (words s) h = member_of category_value all_categories s h
category_of null h = cc
category_of (number n) h = absurd h
category_of (minus n) h = absurd h
category_of (key n) h = absurd h
category_of (moment n) h = absurd h

pub priority_of :
    (v : Value) → Takes false Migration.priority v → (k : Priority) × (v ≡ words (priority_value k))
priority_of (words s) h = member_of priority_value all_priorities s h
priority_of null h = cc
priority_of (number n) h = absurd h
priority_of (minus n) h = absurd h
priority_of (key n) h = absurd h
priority_of (moment n) h = absurd h

pub status_of :
    (v : Value) → Takes false Migration.status v → (k : Status) × (v ≡ words (status_value k))
status_of (words s) h = member_of status_value all_statuses s h
status_of null h = cc
status_of (number n) h = absurd h
status_of (minus n) h = absurd h
status_of (key n) h = absurd h
status_of (moment n) h = absurd h

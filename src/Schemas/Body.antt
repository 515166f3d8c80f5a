-- ===== src/Schemas/Body.antt =====
-- `ComplaintCreate` of backend/app/schemas.py: the body of POST /api/complaints.
use civic_pulse_24i3089_24i.Prelude.{
  ℕ, ◌≤◌, ◌≡◌, ◌≢◌, refl, ◌&&◌, Option, none, some, List, [], ◌∷◌, ◌++◌, arith, leb, length, any,
  if◌then◌else◌,
}
use civic_pulse_24i3089_24i.Text.{Str, codes, ◌===◌}
use civic_pulse_24i3089_24i.Domain.{text_min, text_max, location_min, location_max, contact_max}
use civic_pulse_24i3089_24i.Json.{Json, Fields, null, boolean, str, obj, end, field, find_field}
use civic_pulse_24i3089_24i.Schemas.{Pydantic}

pub record ComplaintCreate : Type 0 where
  pub text : Str
  pub location : Str
  pub reporter_contact : Option Str

-- The `loc` of one validation error.
abbrev pub Loc : Type 0
Loc = List Str

pub data Validated : Type 0 where
  accepted : ComplaintCreate → Validated
  rejected : List Loc → Validated

abbrev pub in_body : Str → Loc
in_body name = codes "body" ∷ name ∷ []

abbrev pub create_keys : List Str
create_keys = codes "text" ∷ codes "location" ∷ codes "reporter_contact" ∷ []

-- `extra="forbid"`: an error for each key that the model does not have
unfoldable pub extra_keys : Fields → List Loc
extra_keys end = []
extra_keys (field k v fs) =
    let rest = extra_keys fs in
    if any (λ name. name === k) create_keys then rest else in_body k ∷ rest

-- `reporter_contact or None`
abbrev pub blank_to_none : Str → Option Str
blank_to_none [] = none
blank_to_none (c ∷ s) = some (c ∷ s)

module _ (p : Pydantic) where
  -- a required text between `min_length` and `max_length`, stripped first
  unfoldable pub check_length : ℕ → ℕ → Option Json → Option Str
  check_length low high (some (str s)) =
      let t = p.trim s in if leb low (length t) && leb (length t) high then some t else none
  check_length low high none = none
  check_length low high (some _) = none

  unfoldable pub check_contact : Option Json → Option (Option Str)
  check_contact none = some none
  check_contact (some null) = some none
  check_contact (some (str s)) =
      let t = p.trim s in if leb (length t) contact_max then some (blank_to_none t) else none
  check_contact (some _) = none

abbrev pub complain {ℓ} : {A : Type ℓ} → Str → Option A → List Loc
complain name none = in_body name ∷ []
complain name (some a) = []

abbrev pub all_errors : Option Str → Option Str → Option (Option Str) → List Loc → List Loc
all_errors t l c extra =
    complain (codes "text") t
    ++ (complain (codes "location") l ++ (complain (codes "reporter_contact") c ++ extra))

unfoldable pub assemble : Option Str → Option Str → Option (Option Str) → List Loc → Validated
assemble (some t) (some l) (some c) [] =
    accepted (record { text = t; location = l; reporter_contact = c })
assemble t l c extra = rejected (all_errors t l c extra)

module _ (p : Pydantic) where
  unfoldable pub validate_create : Json → Validated
  unfolding assemble
  validate_create (obj fs) =
      assemble (check_length p text_min text_max (find_field (codes "text") fs))
        (check_length p location_min location_max (find_field (codes "location") fs))
        (check_contact p (find_field (codes "reporter_contact") fs)) (extra_keys fs)
  validate_create _ = rejected ((codes "body" ∷ []) ∷ [])

-- What the CHECK constraints and column widths of the table ask of the citizen's texts.
pub record IsStorable (b : ComplaintCreate) : Type 0 where
  pub text_long : text_min ≤ length b.text
  pub text_short : length b.text ≤ text_max
  pub location_long : location_min ≤ length b.location
  pub location_short : length b.location ≤ location_max
  pub contact_short : (s : Str) → b.reporter_contact ≡ some s → length s ≤ contact_max
  pub contact_full : b.reporter_contact ≢ some []

module _ (p : Pydantic) where
  check_length_bounds :
      (low high : ℕ) (j : Option Json) {t : Str}
      → check_length p low high j ≡ some t
      → (low ≤ length t) × (length t ≤ high)
  unfolding check_length
  check_length_bounds low high (some (str s)) h = ground arith
  check_length_bounds low high none h = cc
  check_length_bounds low high (some null) h = cc
  check_length_bounds low high (some _) h = cc

  blank_to_none-eq : (s t : Str) → blank_to_none s ≡ some t → (t ≡ s) × (t ≢ [])
  blank_to_none-eq [] t h = cc
  blank_to_none-eq (c ∷ s) t h = ground arith

  check_contact_bounds :
      (j : Option Json) {c : Option Str} (t : Str)
      → check_contact p j ≡ some c
      → c ≡ some t
      → (length t ≤ contact_max) × (t ≢ [])
  unfolding check_contact
  check_contact_bounds none t h e = cc
  check_contact_bounds (some null) t h e = cc
  check_contact_bounds (some (str s)) t h e = ground (arith, blank_to_none-eq (p.trim s) t)
  check_contact_bounds (some (boolean b)) t h e = cc
  check_contact_bounds (some _) t h e = cc

  assemble_parts :
      (t l : Option Str) (c : Option (Option Str)) (extra : List Loc) {b : ComplaintCreate}
      → assemble t l c extra ≡ accepted b
      → (t ≡ some b.text) × (l ≡ some b.location) × (c ≡ some b.reporter_contact) × (extra ≡ [])
  unfolding assemble
  assemble_parts t l c extra h = ground arith

  -- A body that is accepted meets the length constraints of the database table: text of 10 to 2000
  -- characters, location of 3 to 200, contact absent or of 1 to 200.
  pub validate_create-IsStorable :
      (j : Json) {b : ComplaintCreate} → validate_create p j ≡ accepted b → IsStorable b
  unfolding validate_create
  validate_create-IsStorable (obj fs) h =
      let (t, l, c, _) = assemble_parts _ _ _ _ h in
      let (text_low, text_high) = check_length_bounds _ _ _ t in
      let (location_low, location_high) = check_length_bounds _ _ _ l in
      record {
        text_long = text_low;
        text_short = text_high;
        location_long = location_low;
        location_short = location_high;
        contact_short = λ s e. (check_contact_bounds _ s c e).0;
        contact_full = λ e. (check_contact_bounds _ [] c e).1 refl;
      }
  validate_create-IsStorable null h = cc
  validate_create-IsStorable _ h = cc

  assemble_names :
      (t l : Option Str) (c : Option (Option Str)) (extra : List Loc) {es : List Loc}
      → assemble t l c extra ≡ rejected es
      → (es ≡ all_errors t l c extra) × (es ≢ [])
  unfolding assemble
  assemble_names t l c extra h = ground arith

  -- A rejected body comes with at least one error, so the 400 response always names a field.
  pub rejected-nonempty : (j : Json) {es : List Loc} → validate_create p j ≡ rejected es → es ≢ []
  unfolding validate_create
  rejected-nonempty (obj fs) h = (assemble_names _ _ _ _ h).1
  rejected-nonempty null h = ground arith
  rejected-nonempty _ h = ground arith

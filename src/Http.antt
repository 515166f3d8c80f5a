-- ===== src/Http.antt =====
-- What the routes answer: the response models of backend/app/schemas.py, and the handlers of
-- backend/app/errors.py with the messages of backend/app/services/errors.py. How pydantic words a
-- validation error is the parameter `message`.
pub mod Routes
pub mod Changes
pub mod Refusals
pub mod Meta
use civic_pulse_24i3089_24i.Prelude.{
  ℕ, Bool, true, false, not, ◌||◌, Option, none, some, List, [], ◌∷◌, ◌++◌, map, length, drop,
  if◌then◌else◌,
}
use civic_pulse_24i3089_24i.Text.{Str, codes, ◌===◌, join, starts_with}
use civic_pulse_24i3089_24i.Text.Number.{show}
use civic_pulse_24i3089_24i.Domain.{Category, Priority, Status, status_value, allowed_transitions}
use civic_pulse_24i3089_24i.Exceptions.{Exn, not_found, invalid_transition, rate_limit_exceeded}
use civic_pulse_24i3089_24i.Schemas.Body.{Loc}
use civic_pulse_24i3089_24i.Repository.{Complaint}

pub record ComplaintOut : Type 0 where
  pub complaint : Complaint
  pub allowed_transitions : List Status

pub record FieldError : Type 0 where
  pub field : Str
  pub message : Str

pub data Body : Type 0 where
  complaint_out : ComplaintOut → Body
  complaint_page : List ComplaintOut → ℕ → ℕ → ℕ → Body
  error_body : Str → Body
  transition_error : Str → Status → Status → Body
  validation_error : Str → List FieldError → Body

pub record Response : Type 0 where
  pub status_code : ℕ
  pub body : Body
  pub headers : List (Str × Str)

-- A response, or an exception that no handler is registered for: the server answers 500.
pub data Answer : Type 0 where
  responds : Response → Answer
  raises : Exn → Answer

-- `to_out`
unfoldable pub to_out : Complaint → ComplaintOut
unfolding allowed_transitions
to_out c = record { complaint = c; allowed_transitions = allowed_transitions c.status }

-- `", ".join(…) or "nothing (terminal state)"`
abbrev pub or_nothing : Str → Str
or_nothing [] = codes "nothing (terminal state)"
or_nothing (c ∷ s) = c ∷ s

unfoldable pub transition_message : Status → Status → Str
unfolding allowed_transitions join
transition_message current attempted =
    let nxt = or_nothing (join (codes ", ") (map status_value (allowed_transitions current))) in
    codes "Invalid status transition: "
    ++ (status_value current
        ++ (32 ∷ 8594 ∷ 32 ∷ []
            ++ (status_value attempted
                ++ (codes ". '"
                    ++ (status_value current ++ (codes "' can move to: " ++ (nxt ++ codes ".")))))))

abbrev pub limit_message : ℕ → Str
limit_message n =
    codes "Too many complaints from this address. Try again in " ++ (show n ++ codes " s.")

abbrev pub plain : ℕ → Body → Response
plain code body = record { status_code = code; body = body; headers = [] }

-- the handlers of the three domain errors
unfoldable pub handle : Exn → Answer
unfolding transition_message
handle (not_found what) = responds (plain 404 (error_body (what ++ codes " not found")))
handle (invalid_transition current attempted) =
    responds (plain 409 (transition_error (transition_message current attempted) current attempted))
handle (rate_limit_exceeded n) = responds (record {
  status_code = 429;
  body = error_body (limit_message n);
  headers = (codes "Retry-After", show n) ∷ [];
})
handle e = raises e

-- `_field_name`
abbrev pub is_place : Str → Bool
is_place s = (s === codes "body") || (s === codes "query") || (s === codes "path")

unfoldable pub named_parts : Loc → List Str
named_parts [] = []
named_parts (s ∷ ss) = let rest = named_parts ss in if is_place s then rest else s ∷ rest

abbrev pub or_body : Str → Str
or_body [] = codes "body"
or_body (c ∷ s) = c ∷ s

unfoldable pub field_name : Loc → Str
unfolding named_parts join
field_name loc = or_body (join (codes ".") (named_parts loc))

-- `removeprefix("Value error, ")`
unfoldable pub remove_prefix : Str → Str → Str
unfolding starts_with
remove_prefix prefix s = if starts_with prefix s then drop (length prefix) s else s

module _ (message : Loc → Str) where
  abbrev pub field_error : Loc → FieldError
  field_error loc = record {
    field = field_name loc;
    message = remove_prefix (codes "Value error, ") (message loc);
  }

  -- the handler of RequestValidationError
  unfoldable pub invalid : List Loc → Answer
  unfolding field_name remove_prefix
  invalid locs =
      responds (plain 400 (validation_error (codes "Validation failed") (map field_error locs)))

-- ===== src/Domain.antt =====
-- backend/app/domain.py: the vocabulary, the state machine of a complaint, and the text limits.
pub mod Machine
use civic_pulse_24i3089_24i.Prelude.{
  ℕ, suc, Bool, true, false, ◌||◌, List, [], ◌∷◌, leb, if◌then◌else◌, any, arith,
}
use civic_pulse_24i3089_24i.Text.{Str, codes}

pub data Category : Type 0 where
  water electricity sanitation roads streetlights other : Category

pub data Priority : Type 0 where
  high normal low : Priority

pub data Status : Type 0 where
  open_ in_progress resolved rejected : Status

pub Category-discrete : Discrete Category
Category-discrete = hlevel

-- `.value` of each enum
abbrev pub category_value : Category → Str
category_value water = codes "water"
category_value electricity = codes "electricity"
category_value sanitation = codes "sanitation"
category_value roads = codes "roads"
category_value streetlights = codes "streetlights"
category_value other = codes "other"

abbrev pub priority_value : Priority → Str
priority_value high = codes "high"
priority_value normal = codes "normal"
priority_value low = codes "low"

abbrev pub status_value : Status → Str
status_value open_ = codes "open"
status_value in_progress = codes "in_progress"
status_value resolved = codes "resolved"
status_value rejected = codes "rejected"

-- `list(Category)`, `list(Priority)`, `list(Status)`: the declaration order
abbrev pub all_categories : List Category
all_categories = water ∷ electricity ∷ sanitation ∷ roads ∷ streetlights ∷ other ∷ []

abbrev pub all_priorities : List Priority
all_priorities = high ∷ normal ∷ low ∷ []

abbrev pub all_statuses : List Status
all_statuses = open_ ∷ in_progress ∷ resolved ∷ rejected ∷ []

-- The table; a frozenset is the list of its members, in no order that a caller may rely on.
unfoldable pub transitions : Status → List Status
transitions open_ = in_progress ∷ rejected ∷ []
transitions in_progress = resolved ∷ rejected ∷ []
transitions resolved = []
transitions rejected = []

abbrev pub same_status : Status → Status → Bool
same_status open_ open_ = true
same_status in_progress in_progress = true
same_status resolved resolved = true
same_status rejected rejected = true
same_status _ _ = false

-- `order.index(s)`
unfoldable pub index_of : Status → List Status → ℕ
index_of s [] = 0
index_of s (t ∷ ts) = if same_status t s then 0 else suc (index_of s ts)

-- `sorted(…, key=order.index)`, a stable insertion sort
unfoldable pub insert_by : (Status → ℕ) → Status → List Status → List Status
insert_by key s [] = s ∷ []
insert_by key s (t ∷ ts) = if leb (key s) (key t) then s ∷ t ∷ ts else t ∷ insert_by key s ts

unfoldable pub sort_by : (Status → ℕ) → List Status → List Status
unfolding insert_by
sort_by key [] = []
sort_by key (s ∷ ss) = insert_by key s (sort_by key ss)

unfoldable pub allowed_transitions : Status → List Status
unfolding transitions index_of sort_by
allowed_transitions current = sort_by (λ s. index_of s all_statuses) (transitions current)

unfoldable pub can_transition : Status → Status → Bool
unfolding transitions
can_transition current target = any (same_status target) (transitions current)

abbrev pub text_min : ℕ
text_min = 10

abbrev pub text_max : ℕ
text_max = 2000

abbrev pub location_min : ℕ
location_min = 3

abbrev pub location_max : ℕ
location_max = 200

abbrev pub contact_max : ℕ
contact_max = 200

abbrev pub summary_max : ℕ
summary_max = 140

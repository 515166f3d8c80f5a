-- ===== src/Repository.antt =====
-- backend/app/models.py and backend/app/repositories/complaint_repository.py. PostgreSQL behind a
-- SQLAlchemy session is the parameter `Database`; a `select` of the source is a function of the
-- rows that the transaction sees. A UUID is the 128-bit number that it is compared as, a time a
-- number of microseconds.
pub mod Sessions
pub mod Pages
pub mod Sums
use civic_pulse_24i3089_24i.Prelude.{
  ℕ, zero, suc, ◌+◌, ◌-◌, ◌*◌, ◌/◌, Bool, true, false, not, ◌&&◌, ◌||◌, Option, none, some, List,
  [], ◌∷◌, map, ltb, leb, ◌==◌, if◌then◌else◌, length, take, drop,
}
use civic_pulse_24i3089_24i.Text.{Str, ◌===◌}
use civic_pulse_24i3089_24i.Domain.{
  Category, Priority, Status, category_value, priority_value, status_value,
}
use civic_pulse_24i3089_24i.Exceptions.{Result, ok, err}

pub record Complaint : Type 0 where
  pub id : ℕ
  pub text : Str
  pub location : Str
  pub reporter_contact : Option Str
  pub category : Category
  pub priority : Priority
  pub status : Status
  pub ai_summary : Option Str
  pub triaged_by : Str
  pub triage_latency_ms : ℕ
  pub created_at : ℕ
  pub updated_at : ℕ

-- A session: what its transaction sees, what is committed, and the statements of the source that
-- write. A statement may raise, as where a CHECK constraint fails.
pub record Database : Type 1 where
  pub State : Type 0
  pub rows : State → List Complaint
  pub committed : State → List Complaint
  -- INSERT, and UPDATE of status and updated_at by id
  pub insert : Complaint → State → Result (Unit {0}) × State
  pub update : ℕ → Status → ℕ → State → Result (Unit {0}) × State
  pub commit : State → Result (Unit {0}) × State
  pub rollback : State → State
  -- SELECT 1
  pub ping : State → Bool

pub record ComplaintFilters : Type 0 where
  pub category : Option Category
  pub priority : Option Priority
  pub status : Option Status

-- An enum is stored as its `.value`.
abbrev pub is_category : Option Category → Category → Bool
is_category none c = true
is_category (some wanted) c = category_value wanted === category_value c

abbrev pub is_priority : Option Priority → Priority → Bool
is_priority none p = true
is_priority (some wanted) p = priority_value wanted === priority_value p

abbrev pub is_status : Option Status → Status → Bool
is_status none s = true
is_status (some wanted) s = status_value wanted === status_value s

-- `where(*conditions)`
unfoldable pub matches : ComplaintFilters → Complaint → Bool
matches f c =
    is_category f.category c.category
    && is_priority f.priority c.priority
    && is_status f.status c.status

unfoldable pub select_where : (Complaint → Bool) → List Complaint → List Complaint
select_where p [] = []
select_where p (c ∷ cs) = let rest = select_where p cs in if p c then c ∷ rest else rest

-- `order_by(Complaint.created_at.desc(), Complaint.id)`: whether the first may stand before
abbrev pub precedes : Complaint → Complaint → Bool
precedes c d = ltb d.created_at c.created_at || (c.created_at == d.created_at && leb c.id d.id)

unfoldable pub insert_row : Complaint → List Complaint → List Complaint
insert_row c [] = c ∷ []
insert_row c (d ∷ ds) = let rest = insert_row c ds in if precedes c d then c ∷ d ∷ ds else d ∷ rest

unfoldable pub order_rows : List Complaint → List Complaint
unfolding insert_row
order_rows [] = []
order_rows (c ∷ cs) = insert_row c (order_rows cs)

unfoldable pub find_row : ℕ → List Complaint → Option Complaint
find_row id [] = none
find_row id (c ∷ cs) = if c.id == id then some c else find_row id cs

-- How many rows have each value of a column, over the values that occur: `group_by`.
unfoldable pub add_one : Str → List (Str × ℕ) → List (Str × ℕ)
add_one k [] = (k, 1) ∷ []
add_one k ((j, n) ∷ groups) =
    let rest = add_one k groups in if j === k then (j, n + 1) ∷ groups else (j, n) ∷ rest

unfoldable pub grouped : (Complaint → Str) → List Complaint → List (Str × ℕ)
unfolding add_one
grouped column [] = []
grouped column (c ∷ cs) = add_one (column c) (grouped column cs)

unfoldable pub sum_latency : List Complaint → ℕ
sum_latency [] = 0
sum_latency (c ∷ cs) = c.triage_latency_ms + sum_latency cs

pub record Aggregates : Type 0 where
  pub total : ℕ
  pub by_category : List (Str × ℕ)
  pub by_priority : List (Str × ℕ)
  pub by_status : List (Str × ℕ)
  pub by_triaged_by : List (Str × ℕ)
  -- `avg` as the sum and the number that it is divided by; none over no rows
  pub avg_latency_ms : Option (ℕ × ℕ)

abbrev pub average : List Complaint → Option (ℕ × ℕ)
average [] = none
average (c ∷ cs) = some (sum_latency (c ∷ cs), length (c ∷ cs))

module _ (db : Database) where
  -- `get`; `for_update` also locks the row, which this one session does not see
  unfoldable pub get : ℕ → db.State → Option Complaint
  unfolding find_row
  get id s = find_row id (db.rows s)

  unfoldable pub add : Complaint → db.State → Result (Unit {0}) × db.State
  add c s = db.insert c s

  abbrev pub inserted : Result (Unit {0}) → Result Bool
  inserted (ok u) = ok true
  inserted (err e) = err e

  unfoldable pub add_if_absent : Complaint → db.State → Result Bool × db.State
  unfolding get
  add_if_absent c s = elim (get c.id s) [
    | some found ↦ (ok false, s)
    | none ↦ (inserted (db.insert c s).0, (db.insert c s).1)
  ]

  -- the flush of the changed object; `now` is what `onupdate=_utcnow` gives
  unfoldable pub set_status : Complaint → Status → ℕ → db.State → Result (Unit {0}) × db.State
  set_status c status now s = db.update c.id status now s

  unfoldable pub list : ComplaintFilters → ℕ → ℕ → db.State → List Complaint × ℕ
  unfolding select_where order_rows matches
  list filters page page_size s =
      let found = select_where (matches filters) (db.rows s) in
      (take page_size (drop ((page - 1) * page_size) (order_rows found)), length found)

  unfoldable pub aggregates : db.State → Aggregates
  unfolding grouped sum_latency
  aggregates s = record {
    total = length (db.rows s);
    by_category = grouped (λ c. category_value c.category) (db.rows s);
    by_priority = grouped (λ c. priority_value c.priority) (db.rows s);
    by_status = grouped (λ c. status_value c.status) (db.rows s);
    by_triaged_by = grouped (λ c. c.triaged_by) (db.rows s);
    avg_latency_ms = average (db.rows s);
  }

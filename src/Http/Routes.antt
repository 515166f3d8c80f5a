-- ===== src/Http/Routes.antt =====
-- backend/app/routes/complaints.py. Reading a UUID or an integer is pydantic's: a path id is
-- `none` where it is no UUID, a query number is `given none` where it is no natural number; both are
-- errors, as a number below 1 is.
use civic_pulse_24i3089_24i.Prelude.{
  ℕ, Bool, true, false, ◌&&◌, Option, none, some, List, [], ◌∷◌, ◌++◌, map, leb, if◌then◌else◌,
}
use civic_pulse_24i3089_24i.Text.{Str, codes, ◌===◌}
use civic_pulse_24i3089_24i.Domain.{
  Category, Priority, Status, all_categories, all_priorities, all_statuses, status_value,
}
use civic_pulse_24i3089_24i.Exceptions.{Result, ok, err}
use civic_pulse_24i3089_24i.Json.{Json, obj, Fields, end, field, find_field}
use civic_pulse_24i3089_24i.Schemas.{Pydantic, find_category, find_priority, as_text, ◌>>=◌}
use civic_pulse_24i3089_24i.Schemas.Body.{
  Loc, Validated, accepted, rejected, validate_create, in_body,
}
use civic_pulse_24i3089_24i.Cache.{Redis}
use civic_pulse_24i3089_24i.RateLimiter.{Peer, enforce_rate_limit}
use civic_pulse_24i3089_24i.Repository.{Complaint, ComplaintFilters, Database}
use civic_pulse_24i3089_24i.Triage.{Provider}
use civic_pulse_24i3089_24i.Complaints
use civic_pulse_24i3089_24i.Complaints.{Place, with_repository}
use civic_pulse_24i3089_24i.Http.{
  Answer, responds, complaint_out, complaint_page, plain, to_out, handle, invalid,
}

unfoldable pub find_status : Str → List Status → Option Status
find_status s [] = none
find_status s (t ∷ ts) = if status_value t === s then some t else find_status s ts

-- `StatusUpdate`
abbrev pub unknown_keys : Fields → List Loc
unknown_keys end = []
unknown_keys (field k v fs) =
    let rest = unknown_keys fs in if k === codes "status" then rest else in_body k ∷ rest

abbrev pub status_of : Fields → Option Status
status_of fs = (find_field (codes "status") fs >>= as_text) >>= λ s. find_status s all_statuses

-- what is read, or where the errors are
pub data Read (A : Type 0) : Type 0 where
  found : A → Read A
  faulty : List Loc → Read A

abbrev pub read_or : {A : Type 0} → Option A → List Loc → List Loc → Read A
read_or (some a) locs [] = found a
read_or (some a) locs (l ∷ ls) = faulty (l ∷ ls)
read_or none locs ls = faulty (locs ++ ls)

unfoldable pub read_update : Json → Read Status
unfolding find_status find_field
read_update (obj fs) = read_or (status_of fs) (in_body (codes "status") ∷ []) (unknown_keys fs)
read_update _ = faulty ((codes "body" ∷ []) ∷ [])

abbrev pub bad_id : List Loc
bad_id = (codes "path" ∷ codes "complaint_id" ∷ []) ∷ []

-- A query parameter; the integers of the source have defaults.
pub data Param (A : Type 0) : Type 0 where
  absent : Param A
  given : A → Param A

abbrev pub in_query : Str → Loc
in_query name = codes "query" ∷ name ∷ []

unfoldable pub read_number : ℕ → Bool → ℕ → Param (Option ℕ) → Option ℕ
read_number default bounded high absent = some default
read_number default bounded high (given none) = none
read_number default true high (given (some n)) = if leb 1 n && leb n high then some n else none
read_number default false high (given (some n)) = if leb 1 n then some n else none

abbrev pub read_filter : {A : Type 0} → (Str → Option A) → Param Str → Option (Option A)
read_filter find absent = some none
read_filter find (given s) = find s >>= λ a. some (some a)

abbrev pub missing : {A : Type 0} → Str → Option A → List Loc
missing name none = in_query name ∷ []
missing name (some a) = []

pub record Query : Type 0 where
  pub category : Param Str
  pub priority : Param Str
  pub status : Param Str
  pub page : Param (Option ℕ)
  pub page_size : Param (Option ℕ)

pub record Listing : Type 0 where
  pub filters : ComplaintFilters
  pub page : ℕ
  pub page_size : ℕ

abbrev pub assemble_listing :
    Option (Option Category)
    → Option (Option Priority)
    → Option (Option Status)
    → Option ℕ
    → Option ℕ
    → Read Listing
assemble_listing (some c) (some p) (some s) (some page) (some size) = found (record {
  filters = record { category = c; priority = p; status = s };
  page = page;
  page_size = size;
})
assemble_listing c p s page size = faulty (
    missing (codes "category") c
    ++ (missing (codes "priority") p
        ++ (missing (codes "status") s
            ++ (missing (codes "page") page ++ missing (codes "page_size") size))))

unfoldable pub read_query : Query → Read Listing
unfolding find_category find_priority find_status read_number
read_query q =
    assemble_listing (read_filter (λ s. find_category s all_categories) q.category)
      (read_filter (λ s. find_priority s all_priorities) q.priority)
      (read_filter (λ s. find_status s all_statuses) q.status) (read_number 1 false 0 q.page)
      (read_number 20 true 100 q.page_size)

-- what a service gives, as a response
unfoldable pub respond : ℕ → Result Complaint → Answer
unfolding to_out handle
respond code (ok c) = responds (plain code (complaint_out (to_out c)))
respond code (err e) = handle e

abbrev pub page_of : Listing → List Complaint × ℕ → Answer
page_of q (items, total) =
    responds (plain 200 (complaint_page (map to_out items) total q.page q.page_size))

abbrev pub Handled : Redis → Type 0 → Database → Type 0
Handled r N db = Answer × Place r N db

module _ (message : Loc → Str) (r : Redis) {N : Type 0} (db : Database) where
  abbrev pub answer : ℕ → Result Complaint × Place r N db → Handled r N db
  answer code (m, s) = (respond code m, s)

  abbrev pub list_read : Read Listing → Place r N db → Handled r N db
  list_read (faulty locs) s = (invalid message locs, s)
  list_read (found q) s =
      (page_of q (Complaints.list r {N = N} db q.filters q.page q.page_size s), s)

  -- `list_complaints`
  unfoldable pub list_complaints : Query → Place r N db → Handled r N db
  unfolding read_query Complaints.list
  list_complaints q s = list_read (read_query q) s

  -- `get_complaint`
  unfoldable pub get_complaint : Option ℕ → Place r N db → Handled r N db
  unfolding respond Complaints.get invalid
  get_complaint none s = (invalid message bad_id, s)
  get_complaint (some id) s = answer 200 (with_repository r db (Complaints.get r db id s))

  unfoldable pub change_read : Option ℕ → Read Status → ℕ → Place r N db → Handled r N db
  unfolding respond Complaints.change_status invalid
  change_read (some id) (found target) now s =
      answer 200 (with_repository r db (Complaints.change_status r db id target now s))
  change_read none (found target) now s = (invalid message bad_id, s)
  change_read (some id) (faulty locs) now s = (invalid message locs, s)
  change_read none (faulty locs) now s = (invalid message (bad_id ++ locs), s)

  -- `change_status`
  unfoldable pub change_status : Option ℕ → Json → ℕ → Place r N db → Handled r N db
  unfolding change_read read_update
  change_status id body now s = change_read id (read_update body) now s

module _ (message : Loc → Str) (p : Pydantic) (lower sha256 : Str → Str) (uuid_text : ℕ → Str)
    (r : Redis) {N : Type 0} (db : Database) (provider fallback : Provider N)
    (triage_ttl limit window : ℕ) (trust_proxy : Bool) where
  abbrev pub create_read : Validated → ℕ → ℕ → Str → ℕ → Place r N db → Handled r N db
  create_read (rejected locs) id latency_ms at now s = (invalid message locs, s)
  create_read (accepted body) id latency_ms at now s = answer message r db 201 (
      with_repository r db (
        Complaints.create p lower sha256 uuid_text r db provider fallback triage_ttl id body
          latency_ms at now s))

  abbrev pub create_allowed :
      Result (Unit {0}) → Json → ℕ → ℕ → Str → ℕ → Place r N db → Handled r N db
  create_allowed (err e) body id latency_ms at now s = (handle e, s)
  create_allowed (ok u) body id latency_ms at now s =
      create_read (validate_create p body) id latency_ms at now s

  -- `create_complaint`: the rate limit is a dependency, solved before the body's errors are raised
  unfoldable pub create_complaint : Peer → Json → ℕ → ℕ → Str → ℕ → Place r N db → Handled r N db
  unfolding respond Complaints.create invalid validate_create enforce_rate_limit
  create_complaint peer body id latency_ms at now s =
      let (allowed, cache) = enforce_rate_limit r limit window peer trust_proxy now s.world.cache in
      create_allowed allowed body id latency_ms at now
        (record s { world = record s.world { cache = cache } })

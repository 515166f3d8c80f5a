-- ===== src/Tests/Routes.antt =====
-- Runs of the routes and of the seed.
use civic_pulse_24i3089_24i.Prelude.{ℕ, ◌≡◌, refl, true, none, some, List, [], ◌∷◌, arith, length}
use civic_pulse_24i3089_24i.Text.{Str, codes, ◌===◌}
use civic_pulse_24i3089_24i.Text.Number.{show}
use civic_pulse_24i3089_24i.Domain.{in_progress}
use civic_pulse_24i3089_24i.Exceptions.{ok}
use civic_pulse_24i3089_24i.Json.{Json, str, obj, end, field, null, find_field}
use civic_pulse_24i3089_24i.Schemas.Body.{Loc}
use civic_pulse_24i3089_24i.RateLimiter.{Peer, retry_after_of}
use civic_pulse_24i3089_24i.Complaints.{Place}
use civic_pulse_24i3089_24i.Http.{responds, error_body, limit_message}
use civic_pulse_24i3089_24i.Http.Routes.{
  read_update, change_status, create_complaint, Query, absent, given,
}
use civic_pulse_24i3089_24i.Http.Changes.{Answered, change_status-Answered}
use civic_pulse_24i3089_24i.Http.Refusals.{create_complaint-limited}
use civic_pulse_24i3089_24i.Middleware.{
  Message, response_start, other_message, observe, fits, header_value,
}
use civic_pulse_24i3089_24i.Middleware.Tagging.{IsTagged, observe-IsTagged}
use civic_pulse_24i3089_24i.Seed.{run_seed}
use civic_pulse_24i3089_24i.Seed.Runs.{run_seed-twice}
use civic_pulse_24i3089_24i.Tests.World.{
  pydantic, redis, server, database, database-IsDatabase, Table, place, broken, memory,
}

abbrev no_message : Loc → Str
no_message loc = codes "Field required"

abbrev update_body : Json
update_body = obj (field (codes "status") (str (codes "in_progress")) end)

change_status-Answered_example :
    Answered no_message redis database database-IsDatabase 7 in_progress 50 place
      (change_status no_message redis database (some 7) update_body 50 place)
unfolding read_update find_field ◌===◌
change_status-Answered_example =
    change_status-Answered no_message redis database database-IsDatabase 7 update_body in_progress
      50 place refl

abbrev peer : Peer
peer = record { x_real_ip = none; x_forwarded_for = none; host = some (codes "10.0.0.1") }

-- a server that has counted five requests of everyone
abbrev busy : Place redis (Unit {0}) database
busy = record place { world = record place.world { cache = record memory { count = λ k. 5 } } }

abbrev same_text : Str → Str
same_text s = s

create_complaint-limited_example :
    let wait = retry_after_of 60 1_000_000 in
    let end =
      create_complaint no_message pydantic same_text same_text show redis database broken broken 60
        5 60 true peer null 8 12
        (codes "now")
        1_000_000
        busy in
    (end.0
      ≡ responds (record {
        status_code = 429;
        body = error_body (limit_message wait);
        headers = (codes "Retry-After", show wait) ∷ [];
      }))
    × (end.1.session ≡ busy.session)
    × (end.1.world.net ≡ tt)
    × (end.1.world.metrics ≡ [])
create_complaint-limited_example =
    create_complaint-limited no_message pydantic same_text same_text show redis database broken
      broken 60 5 60 true server peer null 8 12 (codes "now") 1_000_000 busy refl (omega arith)

abbrev query : Query
query = record {
  category = absent;
  priority = absent;
  status = absent;
  page = absent;
  page_size = given (some 5);
}

abbrev id_of : Str → ℕ
id_of s = length s

abbrev fresh : Table
fresh = record { rows = []; committed = [] }

run_seed-twice_example :
    let first = run_seed same_text id_of database 9 fresh in
    let second = run_seed same_text id_of database 10 first.1 in
    ((n : ℕ) × (first.0 ≡ ok n))
    × (first.1.committed ≡ first.1.rows)
    × (second.0 ≡ ok 0)
    × (second.1.rows ≡ first.1.rows)
    × (second.1.committed ≡ first.1.committed)
run_seed-twice_example = run_seed-twice same_text id_of database database-IsDatabase 9 10 fresh

abbrev client_headers : List (Str × Str)
client_headers = (codes "x-request-id", codes "abc-123") ∷ []

abbrev messages : List Message
messages = response_start 201 [] ∷ other_message ∷ []

observe-IsTagged_example :
    let o = observe (codes "f00d") client_headers (some (codes "/api/complaints")) messages in
    (fits o.request_id ≡ true) × IsTagged o.request_id messages o.sent
unfolding header_value ◌===◌
observe-IsTagged_example =
    observe-IsTagged (codes "f00d") client_headers (some (codes "/api/complaints")) messages refl
      refl

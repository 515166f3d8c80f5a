-- ===== src/Middleware.antt =====
-- backend/app/middleware.py: the request id, and what one request adds to the metrics and the access
-- log. The new id, `uuid.uuid4().hex`, is the argument `new_id`.
pub mod Tagging
use civic_pulse_24i3089_24i.Prelude.{
  ℕ, Bool, true, false, not, ◌&&◌, ◌||◌, Option, none, some, List, [], ◌∷◌, ◌++◌, leb, ◌==◌, length,
  all, any, if◌then◌else◌,
}
use civic_pulse_24i3089_24i.Text.{Str, codes, ◌===◌}

-- `[A-Za-z0-9._-]`
abbrev pub is_safe : ℕ → Bool
is_safe c =
    (leb 65 c && leb c 90)
    || (leb 97 c && leb c 122)
    || (leb 48 c && leb c 57)
    || (c == 46 || (c == 95 || c == 45))

abbrev pub fits : Str → Bool
fits s = leb 1 (length s) && leb (length s) 64 && all is_safe s

-- without one line break at the end, before which `$` matches too
unfoldable pub drop_newline : Str → Str
drop_newline [] = []
drop_newline (c ∷ []) = if c == 10 then [] else c ∷ []
drop_newline (c ∷ d ∷ s) = c ∷ drop_newline (d ∷ s)

-- `_SAFE_ID.match`
unfoldable pub matches : Str → Bool
unfolding drop_newline
matches s = fits s || fits (drop_newline s)

abbrev pub id_header : Str
id_header = codes "x-request-id"

-- `dict(headers).get(name, b"")`: the last of equal names counts
unfoldable pub header_value : Str → List (Str × Str) → Str → Str
header_value name [] default = default
header_value name ((k, v) ∷ headers) default =
    header_value name headers (if k === name then v else default)

unfoldable pub request_id : Str → List (Str × Str) → Str
unfolding header_value matches
request_id new_id headers =
    let incoming = header_value id_header headers [] in
    if matches incoming then incoming else new_id

-- ASGI messages: the start of a response with its status and headers, or another
pub data Message : Type 0 where
  response_start : ℕ → List (Str × Str) → Message
  other_message : Message

-- `send_wrapper`, on each message in turn, with the status that it remembers
unfoldable pub send_all : Str → List Message → ℕ → List Message × ℕ
send_all id [] status = ([], status)
send_all id (other_message ∷ ms) status =
    let (sent, last) = send_all id ms status in (other_message ∷ sent, last)
send_all id (response_start code headers ∷ ms) status =
    let (sent, last) = send_all id ms code in
    (response_start code (headers ++ (id_header, id) ∷ []) ∷ sent, last)

-- `_route_template`
abbrev pub route_template : Option Str → Str
route_template none = codes "unmatched"
route_template (some []) = codes "unmatched"
route_template (some (c ∷ s)) = c ∷ s

abbrev pub is_quiet : Str → Bool
is_quiet path = path === codes "/health" || (path === codes "/ready" || path === codes "/metrics")

pub record Observed : Type 0 where
  pub sent : List Message
  pub request_id : Str
  pub path : Str
  pub status : ℕ
  pub logged : Bool

-- `__call__` of a request: `messages` are those that the application sends before it ends or raises
unfoldable pub observe : Str → List (Str × Str) → Option Str → List Message → Observed
unfolding request_id send_all
observe new_id headers route messages =
    let id = request_id new_id headers in
    let (sent, status) = send_all id messages 500 in
    let path = route_template route in
    record {
      sent = sent;
      request_id = id;
      path = path;
      status = status;
      logged = not (is_quiet path);
    }

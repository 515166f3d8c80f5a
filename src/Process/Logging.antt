-- ===== src/Process/Logging.antt =====
-- backend/app/logging_setup.py: the handlers of the loggers, and the lines of the log. The upper case
-- of a text, the names of a LogRecord's own attributes and the time are parameters.
use civic_pulse_24i3089_24i.Prelude.{
  ℕ, suc, ◌≡◌, refl, ap, ◌∙◌, inl, inr, Bool, true, false, not, ◌&&◌, Option, none, some, List, [],
  ◌∷◌, ◌++◌, if◌then◌else◌, Bool-cases,
}
use civic_pulse_24i3089_24i.Text.{Str, codes, ◌===◌, starts_with}
use civic_pulse_24i3089_24i.Json.{Json, str}

pub record Handler : Type 0 where
  pub name : Option Str
  pub json_lines : Bool

pub record Logger : Type 0 where
  pub handlers : List Handler
  pub level : Str
  pub propagate : Bool
  pub disabled : Bool

pub record Loggers : Type 0 where
  pub root : Logger
  pub uvicorn : Logger
  pub uvicorn_error : Logger
  pub uvicorn_access : Logger
  pub httpx : Logger

abbrev pub own_name : Str
own_name = codes "civicpulse-json"

abbrev pub own : Handler
own = record { name = some own_name; json_lines = true }

abbrev pub is_own : Handler → Bool
is_own h = elim h.name [ none ↦ false | some name ↦ name === own_name ]

-- `[h for h in handlers if h.get_name() != "civicpulse-json"]`
unfoldable pub others : List Handler → List Handler
unfolding ◌===◌
others [] = []
others (h ∷ hs) = let rest = others hs in if is_own h then rest else h ∷ rest

abbrev pub quieted : Logger → Logger
quieted l = record l { handlers = []; propagate = true }

unfoldable pub configure_logging : (Str → Str) → Str → Loggers → Loggers
unfolding others
configure_logging upper level l = record {
  root = record l.root { handlers = others l.root.handlers ++ own ∷ []; level = upper level };
  uvicorn = quieted l.uvicorn;
  uvicorn_error = quieted l.uvicorn_error;
  uvicorn_access = record l.uvicorn_access { disabled = true };
  httpx = record l.httpx { level = codes "WARNING" };
}

-- Several processes of one interpreter may configure it, as the tests do.
unfoldable pub configure_all : (Str → Str) → List Str → Loggers → Loggers
unfolding configure_logging
configure_all upper [] l = l
configure_all upper (level ∷ levels) l =
    configure_all upper levels (configure_logging upper level l)

-- The attributes of a LogRecord in their order, those that `extra` added among them.
pub record LogRecord : Type 0 where
  pub created : Str
  pub levelname : Str
  pub name : Str
  pub message : Str
  pub attributes : List (Str × Json)
  pub exception : Option Str

-- `payload[key] = value`
unfoldable pub set_key : Str → Json → List (Str × Json) → List (Str × Json)
unfolding ◌===◌
set_key key value [] = (key, value) ∷ []
set_key key value ((k, v) ∷ payload) =
    let rest = set_key key value payload in
    if k === key then (k, value) ∷ payload else (k, v) ∷ rest

module _ (is_reserved : Str → Bool) where
  unfoldable pub add_extra : List (Str × Json) → List (Str × Json) → List (Str × Json)
  unfolding set_key starts_with
  add_extra [] payload = payload
  add_extra ((key, value) ∷ attributes) payload = add_extra attributes (
      if not (is_reserved key) && not (starts_with (codes "_") key)
      then set_key key value payload
      else payload)

  abbrev pub with_exception : Option Str → List (Str × Json) → List (Str × Json)
  with_exception none payload = payload
  with_exception (some text) payload = set_key (codes "exc") (str text) payload

  -- `JsonFormatter.format`, before `json.dumps`
  unfoldable pub format : Str → LogRecord → List (Str × Json)
  unfolding add_extra set_key
  format request_id r = with_exception r.exception (
      add_extra r.attributes (
        (codes "ts", str r.created)
        ∷ (codes "level", str r.levelname)
        ∷ (codes "logger", str r.name)
        ∷ (codes "msg", str r.message)
        ∷ (codes "request_id", str request_id)
        ∷ []))

unfoldable pub count_own : List Handler → ℕ
unfolding ◌===◌
count_own [] = 0
count_own (h ∷ hs) = let rest = count_own hs in if is_own h then suc rest else rest

others_idem : (hs : List Handler) → others (others hs) ≡ others hs
unfolding others
others_idem [] = refl
others_idem (h ∷ hs) = elim (Bool-cases (is_own h)) [
  | inl e ↦ rw e (others_idem hs)
  | inr e ↦ rw (e, e) (ap (◌∷◌ h) (others_idem hs))
]

others-append : (hs : List Handler) → others (hs ++ own ∷ []) ≡ others hs
unfolding others ◌===◌
others-append [] = refl
others-append (h ∷ hs) = elim (Bool-cases (is_own h)) [
  | inl e ↦ rw e (others-append hs)
  | inr e ↦ rw e (ap (◌∷◌ h) (others-append hs))
]

count_own-others : (hs : List Handler) → count_own (others hs ++ own ∷ []) ≡ 1
unfolding others count_own ◌===◌
count_own-others [] = refl
count_own-others (h ∷ hs) = elim (Bool-cases (is_own h)) [
  | inl e ↦ rw e (count_own-others hs)
  | inr e ↦ rw (e, e) (count_own-others hs)
]

-- However often and at whatever levels the logging is configured, once at least: the root logger
-- ends with exactly one handler of the program, the handlers of others are kept in their order, and
-- the level is that of the last call.
pub configure_all-once :
    (upper : Str → Str) (levels : List Str) (level : Str) (l : Loggers)
    → let end = configure_all upper (levels ++ level ∷ []) l in
      (count_own end.root.handlers ≡ 1)
      × (others end.root.handlers ≡ others l.root.handlers)
      × (end.root.level ≡ upper level)
unfolding configure_all configure_logging
configure_all-once upper [] level l = (
  count_own-others l.root.handlers,
  others-append (others l.root.handlers) ∙ others_idem l.root.handlers,
  refl,
)
configure_all-once upper (first ∷ levels) level l =
    let next = configure_logging upper first l in
    let (one, kept, set) = configure_all-once upper levels level next in
    (one, kept ∙ others-append (others l.root.handlers) ∙ others_idem l.root.handlers, set)

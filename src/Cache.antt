-- ===== src/Cache.antt =====
-- `JsonCache` of backend/app/providers/cache.py. The Redis client is the parameter `Redis`: an
-- operation gives its reply, `none` for a RedisError, and the server's next state.
pub mod Server
use civic_pulse_24i3089_24i.Prelude.{ℕ, ◌-◌, Bool, true, false, Option, none, some, List, [], ◌∷◌}
use civic_pulse_24i3089_24i.Text.{Str}
use civic_pulse_24i3089_24i.Exceptions.{Result, ok, err, json_decode_error, ◌>>=◌}
use civic_pulse_24i3089_24i.Json.{Json, null, boolean, num, str, arr, obj}

pub record Redis : Type 1 where
  pub State : Type 0
  -- stored bytes, with `json.dumps`, `json.loads` and `int` on them; `none` is a ValueError
  pub Raw : Type 0
  pub dumps : Json → Raw
  pub loads : Raw → Option Json
  pub to_int : Raw → Option ℕ
  -- GET, SET … EX, DEL, INCR
  pub get : Str → State → Option (Option Raw) × State
  pub set : Str → Raw → ℕ → State → Option (Unit {0}) × State
  pub delete : Str → State → Option (Unit {0}) × State
  pub incr : Str → State → Option ℕ × State
  -- the pipelines INCR + EXPIRE and LPUSH + LTRIM from 0, given the last index kept
  pub incr_expire : Str → ℕ → State → Option ℕ × State
  pub push_trim : Str → Raw → ℕ → State → Option (Unit {0}) × State
  -- LRANGE from 0 to the index, PING
  pub range : Str → ℕ → State → Option (List Raw) × State
  pub ping : State → Option Bool × State

-- JSON's `null` is Python's None.
abbrev pub not_null : Json → Option Json
not_null null = none
not_null j = some j

module _ (r : Redis) where
  open r use {State, Raw}

  abbrev pub loaded : Option Json → Result (Option Json)
  loaded none = err json_decode_error
  loaded (some j) = ok (not_null j)

  abbrev pub decode : Option (Option Raw) → Result (Option Json)
  decode none = ok none
  decode (some none) = ok none
  decode (some (some raw)) = loaded (r.loads raw)

  unfoldable pub get : Str → State → Result (Option Json) × State
  get key s = let (reply, s') = r.get key s in (decode reply, s')

  -- a RedisError is logged and dropped
  unfoldable pub set : Str → Json → ℕ → State → State
  set key value ttl_seconds s = (r.set key (r.dumps value) ttl_seconds s).1

  unfoldable pub delete : Str → State → State
  delete key s = (r.delete key s).1

  unfoldable pub incr : Str → State → State
  incr key s = (r.incr key s).1

  abbrev pub int_or_zero : Option ℕ → ℕ
  int_or_zero none = 0
  int_or_zero (some n) = n

  abbrev pub read_int : Option (Option Raw) → ℕ
  read_int none = 0
  read_int (some none) = 0
  read_int (some (some raw)) = int_or_zero (r.to_int raw)

  unfoldable pub get_int : Str → State → ℕ × State
  get_int key s = let (reply, s') = r.get key s in (read_int reply, s')

  unfoldable pub push_capped : Str → Json → ℕ → State → State
  push_capped key value cap s = (r.push_trim key (r.dumps value) (cap - 1) s).1

  abbrev pub one_loaded : Option Json → Result Json
  one_loaded none = err json_decode_error
  one_loaded (some j) = ok j

  unfoldable pub load_all : List Raw → Result (List Json)
  load_all [] = ok []
  load_all (raw ∷ raws) = do j ← one_loaded (r.loads raw); js ← load_all raws; ok (j ∷ js)

  abbrev pub load_reply : Option (List Raw) → Result (List Json)
  load_reply none = ok []
  load_reply (some raws) = load_all raws

  unfoldable pub list_recent : Str → ℕ → State → Result (List Json) × State
  unfolding load_all
  list_recent key cap s = let (reply, s') = r.range key (cap - 1) s in (load_reply reply, s')

  abbrev pub pong : Option Bool → Bool
  pong none = false
  pong (some b) = b

  unfoldable pub ping : State → Bool × State
  ping s = let (reply, s') = r.ping s in (pong reply, s')

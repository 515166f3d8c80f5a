-- ===== src/RateLimiter.antt =====
-- `RateLimiter` of backend/app/providers/cache.py and its use in backend/app/deps.py. A time is
-- the float of `time.time()` in ticks of 2 ^ -22 seconds: from 2 ^ 30 to 2 ^ 31 seconds, the years
-- 2004 to 2038, the floats are just the whole numbers of them, and the differences of the source
-- are exact. The 0.999 of the source is the only number with a part below a tick; the sum with it
-- comes no nearer to a whole second than a third of a tick, which is far more than a float's error.
pub mod Window
pub mod Counting
use civic_pulse_24i3089_24i.Prelude.{
  ℕ, zero, suc, ◌+◌, ◌-◌, ◌*◌, ◌/◌, max, Bool, true, false, Option, none, some, List, [], ◌∷◌, ◌++◌,
  ltb, ◌==◌, if◌then◌else◌,
}
use civic_pulse_24i3089_24i.Text.{Str, codes, strip}
use civic_pulse_24i3089_24i.Text.Number.{show}
use civic_pulse_24i3089_24i.Exceptions.{Result, ok, err, rate_limit_exceeded}
use civic_pulse_24i3089_24i.Cache.{Redis}

pub record RateDecision : Type 0 where
  pub allowed : Bool
  pub remaining : ℕ
  pub retry_after : ℕ

-- the ticks of a second
abbrev pub second : ℕ
second = 4_194_304

-- `int(now // self.window) * self.window`
unfoldable pub window_start : ℕ → ℕ → ℕ
window_start window now = now / (second * window) * window

-- `max(1, int(window_start + self.window - now + 0.999))`
unfoldable pub retry_after_of : ℕ → ℕ → ℕ
unfolding window_start
retry_after_of window now = max 1 (
    ((window_start window now + window) * second * 1000 + 999 * second - now * 1000)
    / (second * 1000))

unfoldable pub rate_key : ℕ → Str → ℕ → Str
unfolding window_start
rate_key window identity now =
    codes "ratelimit:" ++ (identity ++ (codes ":" ++ show (window_start window now)))

-- what is made of the counter's value, or of a RedisError
unfoldable pub decide : ℕ → ℕ → Option ℕ → RateDecision
decide limit retry_after none = record { allowed = true; remaining = limit; retry_after = 0 }
decide limit retry_after (some count) =
    if ltb limit count
    then record { allowed = false; remaining = 0; retry_after = retry_after }
    else record { allowed = true; remaining = limit - count; retry_after = retry_after }

-- The headers that `client_ip` reads, and the peer's address.
pub record Peer : Type 0 where
  pub x_real_ip : Option Str
  pub x_forwarded_for : Option Str
  pub host : Option Str

-- `fwd.split(",")[0]`
unfoldable pub before_comma : Str → Str
before_comma [] = []
before_comma (c ∷ s) = let rest = before_comma s in if c == 44 then [] else c ∷ rest

abbrev pub host_or_unknown : Option Str → Str
host_or_unknown none = codes "unknown"
host_or_unknown (some h) = h

abbrev pub forwarded_ip : Option Str → Str → Str
forwarded_ip (some (c ∷ s)) other = strip (before_comma (c ∷ s))
forwarded_ip (some []) other = other
forwarded_ip none other = other

abbrev pub real_ip : Option Str → Str → Str
real_ip (some (c ∷ s)) other = strip (c ∷ s)
real_ip (some []) other = other
real_ip none other = other

unfoldable pub client_ip : Peer → Bool → Str
unfolding before_comma
client_ip peer trust_proxy =
    let direct = host_or_unknown peer.host in
    if trust_proxy
    then real_ip peer.x_real_ip (forwarded_ip peer.x_forwarded_for direct)
    else direct

module _ (r : Redis) (limit window : ℕ) where
  unfoldable pub hit : Str → ℕ → r.State → RateDecision × r.State
  unfolding decide rate_key retry_after_of
  hit identity now s =
      let (count, s') = r.incr_expire (rate_key window identity now) (window + 1) s in
      (decide limit (retry_after_of window now) count, s')

  abbrev pub enforce : RateDecision → Result (Unit {0})
  enforce d = if d.allowed then ok tt else err (rate_limit_exceeded d.retry_after)

  unfoldable pub enforce_rate_limit : Peer → Bool → ℕ → r.State → Result (Unit {0}) × r.State
  unfolding hit client_ip
  enforce_rate_limit peer trust_proxy now s =
      let (decision, s') = hit (client_ip peer trust_proxy) now s in (enforce decision, s')

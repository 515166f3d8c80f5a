-- ===== src/RateLimiter/Counting.antt =====
-- How many requests of one client the rate limiter lets through in one window.
use civic_pulse_24i3089_24i.Prelude.{
  ℕ, suc, ◌+◌, ◌-◌, ◌≡◌, min, true, List, [], ◌∷◌, ◌++◌, arith, length, All, ltb, if◌then◌else◌,
}
use civic_pulse_24i3089_24i.Text.{Str, codes}
use civic_pulse_24i3089_24i.Text.Number.{show}
use civic_pulse_24i3089_24i.Cache.{Redis}
use civic_pulse_24i3089_24i.Cache.Server.{IsServer}
use civic_pulse_24i3089_24i.RateLimiter.{RateDecision, window_start, rate_key, decide, hit}

abbrev pub allowed_count : List RateDecision → ℕ
allowed_count [] = 0
allowed_count (d ∷ ds) = let rest = allowed_count ds in if d.allowed then suc rest else rest

-- the counter of a client in the window with the start
abbrev pub key_at : Str → ℕ → Str
key_at identity start = codes "ratelimit:" ++ (identity ++ (codes ":" ++ show start))

module _ (r : Redis) (limit window : ℕ) (identity : Str) where
  -- Requests at the times, one after the other.
  unfoldable pub hit_all : List ℕ → r.State → List RateDecision × r.State
  hit_all [] s = ([], s)
  hit_all (now ∷ times) s =
      let (d, s') = hit r limit window identity now s in
      let (ds, s'') = hit_all times s' in (d ∷ ds, s'')

  module _ (server : IsServer r) where
    -- One request on a server that answers: it is let through exactly if fewer than `limit` were
    -- counted before it in its window, what remains is told, and it is counted either way.
    pub hit_counted :
        (now : ℕ) (s : r.State)
        → server.up s ≡ true
        → let key = rate_key window identity now in
          let c = server.count s key in
          let (d, s') = hit r limit window identity now s in
          (d.allowed ≡ ltb c limit)
          × (d.remaining ≡ limit - (c + 1))
          × (server.count s' key ≡ c + 1)
          × (server.up s' ≡ true)
    unfolding hit decide
    hit_counted now s up =
        let (still, reply, counted) =
          server.incr_expire-up (rate_key window identity now) (window + 1) s up in
        (rw reply (ground arith), rw reply (ground arith), counted, still)

    module _ (start : ℕ) where
      same_key :
          (now : ℕ)
          → window_start window now ≡ start
          → rate_key window identity now ≡ key_at identity start
      unfolding rate_key
      same_key now e = rw e

      -- On a server that answers, of any requests of one client in one window, as many are let
      -- through as the limit has left after those counted before, and no more.
      pub allowed_count-hit_all :
          (times : List ℕ) (s : r.State)
          → server.up s ≡ true
          → All (λ t. window_start window t ≡ start) times
          → allowed_count (hit_all times s).0
            ≡ min (length times) (limit - server.count s (key_at identity start))
      unfolding hit_all
      allowed_count-hit_all [] s up h = omega arith
      allowed_count-hit_all (now ∷ times) s up (e, h) =
          let (allowed, _, counted, still) = rw (same_key now e) at (hit_counted now s up) in
          let ih = allowed_count-hit_all times (hit r limit window identity now s).1 still h in
          ground (arith, ih)

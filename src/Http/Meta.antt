-- ===== src/Http/Meta.antt =====
-- backend/app/routes/stats.py and backend/app/routes/meta.py. Rounding a quotient to three digits is
-- the parameter `round3`; the recent outcomes are handed on as the JSON that they are stored as.
use civic_pulse_24i3089_24i.Prelude.{
  ℕ, ◌+◌, Bool, Option, none, some, List, [], ◌∷◌, ◌==◌, if◌then◌else◌,
}
use civic_pulse_24i3089_24i.Text.{Str, codes}
use civic_pulse_24i3089_24i.Domain.{
  Category, Priority, Status, all_categories, all_priorities, all_statuses,
}
use civic_pulse_24i3089_24i.Exceptions.{Result, ok, err, ◌>>=◌}
use civic_pulse_24i3089_24i.Json.{Json, Decimal}
use civic_pulse_24i3089_24i.Cache.{Redis}
use civic_pulse_24i3089_24i.Triage.{fallback_name}
use civic_pulse_24i3089_24i.Triage.Recent.{recent, cache_counts}
use civic_pulse_24i3089_24i.Stats.{StatsOut}

pub record StatsResponse : Type 0 where
  pub stats : StatsOut
  pub headers : List (Str × Str)

abbrev pub x_cache : Bool → Str
x_cache hit = if hit then codes "HIT" else codes "MISS"

-- `get_stats`, on what the service gave
unfoldable pub get_stats : Result (StatsOut × Bool) → Result StatsResponse
get_stats (err e) = err e
get_stats (ok (stats, hit)) = ok (record {
  stats = stats;
  headers = (codes "X-Cache", x_cache hit) ∷ (codes "Cache-Control", codes "no-store") ∷ [];
})

abbrev pub available : List Str
available = codes "llm" ∷ codes "ollama" ∷ codes "rules" ∷ codes "simulated" ∷ []

pub record ProvidersOut : Type 0 where
  pub active : Str
  pub fallback : Str
  pub available : List Str
  pub cache_hits : ℕ
  pub cache_misses : ℕ
  pub cache_hit_rate : Option Decimal
  pub recent : List Json

abbrev pub hit_rate : (ℕ → ℕ → Decimal) → ℕ → ℕ → Option Decimal
hit_rate round3 hits lookups = if lookups == 0 then none else some (round3 hits lookups)

-- `providers`
unfoldable pub providers :
    (ℕ → ℕ → Decimal) → (r : Redis) → Str → r.State → Result ProvidersOut × r.State
unfolding recent cache_counts
providers round3 r active c =
    let ((hits, misses), c') = cache_counts r c in
    let (outcomes, c'') = recent r c' in
    (
      outcomes >>= (λ l. ok (record {
        active = active;
        fallback = fallback_name;
        available = available;
        cache_hits = hits;
        cache_misses = misses;
        cache_hit_rate = hit_rate round3 hits (hits + misses);
        recent = l;
      })),
      c'',
    )

pub record EnumsOut : Type 0 where
  pub categories : List Category
  pub priorities : List Priority
  pub statuses : List Status

-- `enums`
abbrev pub enums : EnumsOut
enums = record { categories = all_categories; priorities = all_priorities; statuses = all_statuses }

-- ===== src/Tests/Limits.antt =====
-- Runs of the rate limiter, the table, the statistics and the state machine.
use civic_pulse_24i3089_24i.Prelude.{
  ℕ, ◌+◌, ◌≤◌, ◌≡◌, refl, true, false, none, some, List, [], ◌∷◌, arith,
}
use civic_pulse_24i3089_24i.Text.{codes, ◌===◌}
use civic_pulse_24i3089_24i.Domain.{open_, resolved, all_statuses}
use civic_pulse_24i3089_24i.RateLimiter.{retry_after_of, window_start}
use civic_pulse_24i3089_24i.RateLimiter.Window.{wait-next_window}
use civic_pulse_24i3089_24i.RateLimiter.Counting.{allowed_count, hit_all, allowed_count-hit_all}
use civic_pulse_24i3089_24i.Repository.{
  ComplaintFilters, Complaint, select_where, matches, list, aggregates,
}
use civic_pulse_24i3089_24i.Repository.Pages.{first_pages, IsOrdered, first_pages_complete}
use civic_pulse_24i3089_24i.Exceptions.{ok}
use civic_pulse_24i3089_24i.Json.{Decimal, decimal}
use civic_pulse_24i3089_24i.Stats.{build_stats, get, invalidate}
use civic_pulse_24i3089_24i.Stats.Counts.{build_stats-counts, sum_of, tally}
use civic_pulse_24i3089_24i.Stats.Freshness.{get-invalidate}
use mathlib.Core.List.{Perm}
use civic_pulse_24i3089_24i.Domain.{
  category_value, priority_value, status_value, all_categories, all_priorities,
}
use civic_pulse_24i3089_24i.Tests.World.{redis, server, database, memory, leak, Table}
use civic_pulse_24i3089_24i.Tests.Codec.{codec}

allowed_count-hit_all_example :
    allowed_count (hit_all redis 2 60 (codes "10.0.0.1") (100 ∷ 200 ∷ 300 ∷ []) memory).0 ≡ 2
unfolding window_start
allowed_count-hit_all_example =
    allowed_count-hit_all redis 2 60 (codes "10.0.0.1") server 0 (100 ∷ 200 ∷ 300 ∷ []) memory refl
      (refl, (refl, (refl, tt)))

wait-next_window_example : window_start 60 4_194_304 + 60 ≤ window_start 60 256_000_000
unfolding retry_after_of
wait-next_window_example = wait-next_window 60 4_194_304 256_000_000 (omega arith) (omega arith)

abbrev only_open : ComplaintFilters
only_open = record { category = none; priority = none; status = some open_ }

abbrev pub table : List Complaint
table =
    leak ∷ record leak { id = 8; created_at = 45 } ∷ record leak { id = 9; status = resolved } ∷ []

abbrev pub empty_table : Table
empty_table = record { rows = []; committed = [] }

abbrev pub session : Table
session = record { rows = table; committed = table }

first_pages_complete_example :
    Perm (first_pages database only_open 1 session 2) (select_where (matches only_open) table)
    × IsOrdered (first_pages database only_open 1 session 2)
unfolding list ◌===◌
first_pages_complete_example = first_pages_complete database only_open 1 session 2 (omega arith)

abbrev pub tenths : ℕ → ℕ → Decimal
tenths sum n = decimal sum 0

build_stats-counts_example :
    let out = build_stats tenths (aggregates database session) (codes "now") in
    (out.by_category ≡ tally category_value (λ c. c.category) all_categories table)
    × (out.by_priority ≡ tally priority_value (λ c. c.priority) all_priorities table)
    × (out.by_status ≡ tally status_value (λ c. c.status) all_statuses table)
    × (out.total ≡ 3)
    × (sum_of out.by_category ≡ out.total)
    × (sum_of out.by_priority ≡ out.total)
    × (sum_of out.by_status ≡ out.total)
build_stats-counts_example = build_stats-counts tenths database session (codes "now")

get-invalidate_example :
    let stats = build_stats tenths (aggregates database session) (codes "now") in
    let first =
      get codec tenths redis database 30 (codes "now") session (invalidate redis memory) in
    let second = get codec tenths redis database 30 (codes "later") empty_table first.1 in
    (first.0 ≡ ok (stats, false)) × (second.0 ≡ ok (stats, true))
get-invalidate_example =
    get-invalidate redis server codec tenths database 30 (codes "now") (codes "later") session
      empty_table memory refl

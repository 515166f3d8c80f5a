-- ===== src/Stats/Counts.antt =====
-- The figures of a statistics response against the rows of the table.
use civic_pulse_24i3089_24i.Prelude.{ℕ, ◌+◌, ◌≡◌, refl, ap, ◌∙◌, List, [], ◌∷◌, map, arith, length}
use civic_pulse_24i3089_24i.Text.{Str, ◌===◌}
use civic_pulse_24i3089_24i.Domain.{
  all_categories, all_priorities, all_statuses, category_value, priority_value, status_value,
}
use civic_pulse_24i3089_24i.Json.{Decimal}
use civic_pulse_24i3089_24i.Repository.{Complaint, Database, aggregates, select_where, grouped}
use civic_pulse_24i3089_24i.Repository.Sums.{get_count, get_count-grouped, count_where}
use civic_pulse_24i3089_24i.Stats.{build_stats}

abbrev pub sum_of {ℓ} : {A : Type ℓ} → List (A × ℕ) → ℕ
sum_of [] = 0
sum_of ((a, n) ∷ l) = n + sum_of l

-- The counts over the members of an enum, in declaration order.
abbrev pub tally {ℓ} :
    {A : Type ℓ} → (A → Str) → (Complaint → A) → List A → List Complaint → List (A × ℕ)
tally value column members rows =
    map (λ a. (a, count_where (λ c. value (column c) === value a) rows)) members

module _ (rows : List Complaint) where
  category_tally :
      map
        (λ a. (a, get_count (category_value a) (grouped (λ c. category_value c.category) rows)))
        all_categories
      ≡ tally category_value (λ c. c.category) all_categories rows
  category_tally = simp get_count-grouped

  priority_tally :
      map
        (λ a. (a, get_count (priority_value a) (grouped (λ c. priority_value c.priority) rows)))
        all_priorities
      ≡ tally priority_value (λ c. c.priority) all_priorities rows
  priority_tally = simp get_count-grouped

  status_tally :
      map
        (λ a. (a, get_count (status_value a) (grouped (λ c. status_value c.status) rows)))
        all_statuses
      ≡ tally status_value (λ c. c.status) all_statuses rows
  status_tally = simp get_count-grouped

category_sum :
    (rows : List Complaint)
    → sum_of (tally category_value (λ c. c.category) all_categories rows) ≡ length rows
unfolding select_where ◌===◌
category_sum [] = refl
category_sum (c ∷ rows) = ground (arith, category_sum rows)

priority_sum :
    (rows : List Complaint)
    → sum_of (tally priority_value (λ c. c.priority) all_priorities rows) ≡ length rows
unfolding select_where ◌===◌
priority_sum [] = refl
priority_sum (c ∷ rows) = ground (arith, priority_sum rows)

status_sum :
    (rows : List Complaint)
    → sum_of (tally status_value (λ c. c.status) all_statuses rows) ≡ length rows
unfolding select_where ◌===◌
status_sum [] = refl
status_sum (c ∷ rows) = ground (arith, status_sum rows)

-- The statistics list every category, every priority and every status in the order of its enum,
-- each with the number of rows that have it, zero included, and each of the three breakdowns adds
-- up to the total, which is the number of rows.
pub build_stats-counts :
    (round1 : ℕ → ℕ → Decimal) (db : Database) (s : db.State) (at : Str)
    → let out = build_stats round1 (aggregates db s) at in
      let rows = db.rows s in
      (out.by_category ≡ tally category_value (λ c. c.category) all_categories rows)
      × (out.by_priority ≡ tally priority_value (λ c. c.priority) all_priorities rows)
      × (out.by_status ≡ tally status_value (λ c. c.status) all_statuses rows)
      × (out.total ≡ length rows)
      × (sum_of out.by_category ≡ out.total)
      × (sum_of out.by_priority ≡ out.total)
      × (sum_of out.by_status ≡ out.total)
unfolding build_stats aggregates
build_stats-counts round1 db s at =
    let rows = db.rows s in
    (
      category_tally rows,
      priority_tally rows,
      status_tally rows,
      refl,
      ap sum_of (category_tally rows) ∙ category_sum rows,
      ap sum_of (priority_tally rows) ∙ priority_sum rows,
      ap sum_of (status_tally rows) ∙ status_sum rows,
    )

-- ===== src/Repository/Sums.antt =====
-- The grouped counts of `aggregates`.
use civic_pulse_24i3089_24i.Prelude.{
  ℕ, suc, ◌≡◌, refl, Bool, List, [], ◌∷◌, arith, if◌then◌else◌, length,
}
use civic_pulse_24i3089_24i.Text.{Str, ◌===◌, ===_iff}
use civic_pulse_24i3089_24i.Repository.{Complaint, select_where, add_one, grouped}

-- `counts.get(key, 0)`
unfoldable pub get_count : Str → List (Str × ℕ) → ℕ
get_count k [] = 0
get_count k ((j, n) ∷ groups) = if j === k then n else get_count k groups

abbrev pub count_where : (Complaint → Bool) → List Complaint → ℕ
count_where p l = length (select_where p l)

get_count-add_one :
    (k j : Str) (groups : List (Str × ℕ))
    → get_count k (add_one j groups)
      ≡ (if j === k then suc (get_count k groups) else get_count k groups)
unfolding get_count add_one
get_count-add_one k j [] = ground arith
get_count-add_one k j ((i, n) ∷ groups) =
    ground (arith, get_count-add_one k j groups, ===_iff i j, ===_iff i k, ===_iff j k)

-- A group counts the rows that have its value in the column; a value without a group has none.
pub get_count-grouped :
    (column : Complaint → Str) (k : Str) (rows : List Complaint)
    → get_count k (grouped column rows) ≡ count_where (λ c. column c === k) rows
unfolding grouped select_where get_count
get_count-grouped column k [] = refl
get_count-grouped column k (c ∷ rows) =
    ground
      (arith, get_count-add_one k (column c) (grouped column rows), get_count-grouped column k rows)

-- ===== src/Tests/Codec.antt =====
-- A codec of the statistics for the runs: the counts as an object, in the order of the list.
use civic_pulse_24i3089_24i.Prelude.{
  ℕ, ◌≡◌, refl, Option, none, some, List, [], ◌∷◌, if◌then◌else◌, arith,
}
use civic_pulse_24i3089_24i.Text.{Str, ◌===◌}
use civic_pulse_24i3089_24i.Domain.{
  Category, Priority, Status, all_categories, all_priorities, all_statuses, category_value,
  priority_value, status_value,
}
use civic_pulse_24i3089_24i.Exceptions.{ok, type_error, of_option}
use civic_pulse_24i3089_24i.Json.{
  Json, Fields, Decimal, decimal, null, num, str, arr, obj, end, field, nil, cons,
}
use civic_pulse_24i3089_24i.Schemas.{◌>>=◌}
use civic_pulse_24i3089_24i.Stats.{StatsOut, StatsCodec}

abbrev pub find_by {ℓ} : {A : Type ℓ} → (A → Str) → List A → Str → Option A
find_by value [] s = none
find_by value (a ∷ l) s = let rest = find_by value l s in if value a === s then some a else rest

module _ {A : Type 0} (value : A → Str) (find : Str → Option A) where
  abbrev pub dump_counts : List (A × ℕ) → Fields
  dump_counts [] = end
  dump_counts ((a, n) ∷ l) = field (value a) (num (decimal n 0)) (dump_counts l)

  abbrev pub one_count : Option A → Json → Option (List (A × ℕ)) → Option (List (A × ℕ))
  one_count (some a) (num d) (some l) = some ((a, d.mantissa) ∷ l)
  one_count _ _ _ = none

  abbrev pub read_counts : Fields → Option (List (A × ℕ))
  read_counts end = some []
  read_counts (field k v fs) = one_count (find k) v (read_counts fs)

  pub read_counts-dump_counts :
      ((a : A) → find (value a) ≡ some a)
      → (l : List (A × ℕ)) → read_counts (dump_counts l) ≡ some l
  read_counts-dump_counts h [] = refl
  read_counts-dump_counts h ((a, n) ∷ l) = rw (h a, read_counts-dump_counts h l)

abbrev pub find_category : Str → Option Category
find_category = find_by category_value all_categories

abbrev pub find_priority : Str → Option Priority
find_priority = find_by priority_value all_priorities

abbrev pub find_status : Str → Option Status
find_status = find_by status_value all_statuses

abbrev pub self_value : Str → Str
self_value s = s

abbrev pub find_self : Str → Option Str
find_self s = some s

abbrev pub dump_average : Option Decimal → Json
dump_average none = null
dump_average (some d) = num d

abbrev pub dump : StatsOut → Json
dump s = arr (
    cons (num (decimal s.total 0)) (
      cons (obj (dump_counts category_value find_category s.by_category)) (
        cons (obj (dump_counts priority_value find_priority s.by_priority)) (
          cons (obj (dump_counts status_value find_status s.by_status)) (
            cons (obj (dump_counts self_value find_self s.by_triaged_by))
              (cons (dump_average s.avg_triage_latency_ms) (cons (str s.generated_at) nil)))))))

abbrev pub read_average : Json → Option Decimal
read_average (num d) = some d
read_average _ = none

abbrev pub read_parts : ℕ → Fields → Fields → Fields → Fields → Json → Str → Option StatsOut
read_parts total c p s t avg at = do
  cs ← read_counts category_value find_category c
  ps ← read_counts priority_value find_priority p
  ss ← read_counts status_value find_status s
  ts ← read_counts self_value find_self t
  some (record {
    total = total;
    by_category = cs;
    by_priority = ps;
    by_status = ss;
    by_triaged_by = ts;
    avg_triage_latency_ms = read_average avg;
    generated_at = at;
  })

abbrev pub read : Json → Option StatsOut
read
      (arr (
        cons (num n) (
          cons
            (obj c)
            (cons (obj p) (cons (obj s) (cons (obj t) (cons avg (cons (str at) nil)))))))) =
    read_parts n.mantissa c p s t avg at
read _ = none

find_category_self : (c : Category) → find_category (category_value c) ≡ some c
unfolding ◌===◌
find_category_self c = ground arith

find_priority_self : (p : Priority) → find_priority (priority_value p) ≡ some p
unfolding ◌===◌
find_priority_self p = ground arith

find_status_self : (s : Status) → find_status (status_value s) ≡ some s
unfolding ◌===◌
find_status_self s = ground arith

read_average_self : (o : Option Decimal) → read_average (dump_average o) ≡ o
read_average_self none = refl
read_average_self (some d) = refl

pub read-dump : (s : StatsOut) → read (dump s) ≡ some s
read-dump s = rw (
  read_counts-dump_counts category_value find_category find_category_self s.by_category,
  read_counts-dump_counts priority_value find_priority find_priority_self s.by_priority,
  read_counts-dump_counts status_value find_status find_status_self s.by_status,
  read_counts-dump_counts self_value find_self (λ a. refl) s.by_triaged_by,
  read_average_self s.avg_triage_latency_ms,
)

pub ok-read-dump : (s : StatsOut) → of_option type_error (read (dump s)) ≡ ok s
ok-read-dump s = rw (read-dump s)

abbrev pub codec : StatsCodec
codec = record {
  model_dump = dump;
  model_validate = λ j. of_option type_error (read j);
  dump-not_null = λ s. refl;
  validate-dump = ok-read-dump;
}

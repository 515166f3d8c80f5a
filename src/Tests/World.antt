-- ===== src/Tests/World.antt =====
-- A Redis server, a database and a pydantic for the runs: each meets what the program relies on.
use civic_pulse_24i3089_24i.Prelude.{
  ℕ, suc, ◌+◌, ◌≡◌, refl, true, Option, none, some, List, [], ◌∷◌, map, take, if◌then◌else◌, arith,
}
use civic_pulse_24i3089_24i.Text.{Str, codes, strip, lstrip, rstrip, is_space, ◌===◌, ===_iff}
use civic_pulse_24i3089_24i.Text.Laws.{length-strip}
use civic_pulse_24i3089_24i.Domain.{open_, water, high, normal}
use civic_pulse_24i3089_24i.Exceptions.{Exn, Result, ok, err, other_error, triage_timeout}
use civic_pulse_24i3089_24i.Json.{Json, decimal, num}
use civic_pulse_24i3089_24i.Schemas.{Pydantic, TriageResult}
use civic_pulse_24i3089_24i.Schemas.Laws.{IsValid}
use civic_pulse_24i3089_24i.Cache.{Redis}
use civic_pulse_24i3089_24i.Cache.Server.{IsServer}
use civic_pulse_24i3089_24i.Repository.{Complaint, Database, find_row}
use civic_pulse_24i3089_24i.Repository.Sessions.{IsDatabase, update_row}
use civic_pulse_24i3089_24i.Triage.{Provider, World}
use civic_pulse_24i3089_24i.Complaints.{Place}

abbrev pub pydantic : Pydantic
pydantic = record {
  trim = strip;
  to_float = λ j. elim j [ num d ↦ some d | _ ↦ none ];
  length-trim = length-strip;
  to_float-num = λ d. refl;
}

-- the server: its texts, its counters and its lists
pub record Memory : Type 0 where
  pub text : Str → Option Json
  pub count : Str → ℕ
  pub items : Str → List Json

abbrev pub put {ℓ} : {A : Type ℓ} → Str → A → (Str → A) → Str → A
put k a f j = if k === j then a else f j

abbrev pub incremented : Str → Memory → Memory
incremented k s = record s { count = put k (s.count k + 1) s.count }

abbrev pub redis : Redis
redis = record {
  State = Memory;
  Raw = Json;
  dumps = λ j. j;
  loads = λ j. some j;
  to_int = λ j. none;
  get = λ k s. (some (s.text k), s);
  set = λ k v n s. (some tt, record s { text = put k (some v) s.text });
  delete = λ k s. (some tt, record s { text = put k none s.text });
  incr = λ k s. (some (s.count k + 1), incremented k s);
  incr_expire = λ k n s. (some (s.count k + 1), incremented k s);
  push_trim =
      λ k v n s. (some tt, record s { items = put k (take (suc n) (v ∷ s.items k)) s.items });
  range = λ k n s. (some (take (suc n) (s.items k)), s);
  ping = λ s. (some true, s);
}

pub put_self {ℓ} : {A : Type ℓ} (k : Str) (a : A) (f : Str → A) → put k a f k ≡ a
put_self k a f = rw ((===_iff k k).1 refl)

abbrev pub server : IsServer redis
server = record {
  up = λ s. true;
  text = λ s. s.text;
  count = λ s. s.count;
  items = λ s. s.items;
  loads-dumps = λ j. refl;
  get-up = λ k s h. refl;
  set-up = λ k v n s h. refl;
  text-set = λ k v n s j h. refl;
  delete-up = λ k s h. refl;
  text-delete = λ k s j h. refl;
  incr-up = λ k s h. refl;
  text-incr = λ k s j h e. refl;
  push_trim-up = λ k v n s h. refl;
  text-push_trim = λ k v n s j h. refl;
  items-push_trim = λ k v n s h. put_self k (take (suc n) (v ∷ s.items k)) s.items;
  range-up = λ k n s h. refl;
  incr_expire-up = λ k n s h. (refl, refl, put_self k (s.count k + 1) s.count);
}

-- the table, as the session sees it and as it is committed
pub record Table : Type 0 where
  pub rows : List Complaint
  pub committed : List Complaint

abbrev pub duplicate_key : Exn
duplicate_key = other_error (codes "IntegrityError")

abbrev pub insert_absent : Complaint → Table → Option Complaint → Result (Unit {0}) × Table
insert_absent c s none = (ok tt, record s { rows = c ∷ s.rows })
insert_absent c s (some d) = (err duplicate_key, s)

abbrev pub database : Database
database = record {
  State = Table;
  rows = λ s. s.rows;
  committed = λ s. s.committed;
  insert = λ c s. insert_absent c s (find_row c.id s.rows);
  update = λ id status now s. (ok tt, record s { rows = map (update_row id status now) s.rows });
  commit = λ s. (ok tt, record s { committed = s.rows });
  rollback = λ s. record s { rows = s.committed };
  ping = λ s. true;
}

pub insert-absent :
    (c : Complaint) (s : Table) (o : Option Complaint)
    → o ≡ none
    → ((insert_absent c s o).0 ≡ ok tt)
      × ((insert_absent c s o).1.rows ≡ c ∷ s.rows)
      × ((insert_absent c s o).1.committed ≡ s.committed)
insert-absent c s none h = (refl, refl, refl)
insert-absent c s (some d) h = cc

abbrev pub database-IsDatabase : IsDatabase database
database-IsDatabase = record {
  insert-ok = λ c s fits absent. insert-absent c s (find_row c.id s.rows) absent;
  update-ok = λ id status now s. (refl, refl, refl);
  commit-ok = λ s. (refl, refl, refl);
  rollback-rows = λ s. refl;
  rollback-committed = λ s. refl;
}

abbrev pub leak_text : Str
leak_text = codes "Water pipe burst in the main street"

abbrev pub leak : Complaint
leak = record {
  id = 7;
  text = leak_text;
  location = codes "Block 5";
  reporter_contact = none;
  category = water;
  priority = high;
  status = open_;
  ai_summary = some (codes "Burst pipe");
  triaged_by = codes "rules";
  triage_latency_ms = 12;
  created_at = 40;
  updated_at = 40;
}

abbrev pub memory : Memory
memory = record { text = λ k. none; count = λ k. 0; items = λ k. [] }

abbrev pub world : World Memory (Unit {0})
world = record { cache = memory; net = tt; metrics = [] }

abbrev pub place : Place redis (Unit {0}) database
place = record { world = world; session = record { rows = leak ∷ []; committed = leak ∷ [] } }

-- a provider that always raises, and one that answers
abbrev pub broken : Provider (Unit {0})
broken = record { name = codes "llm:groq-api"; run = λ text location n. (err triage_timeout, n) }

abbrev pub burst : TriageResult
burst = record {
  category = water;
  priority = normal;
  summary = codes "Burst pipe";
  confidence = decimal 8 1;
}

abbrev pub working : Provider (Unit {0})
working = record { name = codes "llm:groq-api"; run = λ text location n. (ok burst, n) }

pub burst-IsValid : IsValid burst
unfolding strip rstrip lstrip is_space
burst-IsValid = record {
  summary = record {
    within = omega arith;
    single_line = refl;
    not_empty = λ e. cc;
    stripped = refl;
  };
  confidence = refl;
}

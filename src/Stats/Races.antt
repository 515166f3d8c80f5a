-- ===== src/Stats/Races.antt =====
-- `StatsService.get` of several readers between the commits and the invalidations of
-- backend/app/services/complaint_service.py, one statement after the other.
pub mod Committed
pub mod Stale
use civic_pulse_24i3089_24i.Prelude.{
  ℕ, zero, suc, ◌+◌, ◌≡◌, refl, sym, ap, ◌∙◌, inl, inr, ◌⊎◌, Bool, true, false, Option, none, some,
  List, [], ◌∷◌, ◌==◌, if◌then◌else◌, Bool-cases, arith, ◌<◌, ◌++◌, length,
}
use civic_pulse_24i3089_24i.Text.{Str, ◌===◌}
use civic_pulse_24i3089_24i.Exceptions.{ok}
use civic_pulse_24i3089_24i.Json.{Json, Decimal}
use civic_pulse_24i3089_24i.Cache
use civic_pulse_24i3089_24i.Cache.{Redis}
use civic_pulse_24i3089_24i.Cache.Server.{IsServer}
use civic_pulse_24i3089_24i.Repository.{Aggregates, Database, aggregates}
use civic_pulse_24i3089_24i.Stats.{StatsOut, StatsCodec, stats_key, build_stats, get, invalidate}
use civic_pulse_24i3089_24i.Stats.Freshness.{key_self, invalidate_empties, get-up, get_of_entry}

-- Where a reader is in `get`, past what it found in the cache: `selecting` has what each SELECT of
-- `ComplaintRepository.aggregates` saw so far, in their order.
pub data Reader (D : Type 0) : Type 0 where
  outside : Reader D
  selecting : List D → Reader D
  computed : StatsOut → Reader D

-- What the cache holds, what a new statement sees of the database, how many commits still wait
-- for their invalidation, the readers, and all that a statement could see so far.
pub record Race (C D : Type 0) : Type 0 where
  pub cache : C
  pub session : D
  pub pending : ℕ
  pub readers : ℕ → Reader D
  pub versions : List D

abbrev pub set_reader : {D : Type 0} → (ℕ → Reader D) → ℕ → Reader D → ℕ → Reader D
set_reader f i x j = if i == j then x else f j

module _ (codec : StatsCodec) (round1 : ℕ → ℕ → Decimal) (r : Redis) (db : Database) (ttl : ℕ) where
  abbrev pub Races : Type 0
  Races = Race r.State db.State

  -- `aggregates` where its five SELECTs, under READ COMMITTED, saw these states: the one of the
  -- total and the average, and those of the four breakdowns.
  abbrev pub gathered : db.State → db.State → db.State → db.State → db.State → Aggregates
  gathered a b c d e = record {
    total = (aggregates db a).total;
    by_category = (aggregates db b).by_category;
    by_priority = (aggregates db c).by_priority;
    by_status = (aggregates db d).by_status;
    by_triaged_by = (aggregates db e).by_triaged_by;
    avg_latency_ms = (aggregates db a).avg_latency_ms;
  }

  pub data Step (s : Races) : Races → Type 0 where
    miss :
        (i : ℕ)
        → s.readers i ≡ outside
        → (Cache.get r stats_key s.cache).0 ≡ ok none
        → Step s (record s {
          cache = (Cache.get r stats_key s.cache).1;
          readers = set_reader s.readers i (selecting []);
        })
    hit :
        (i : ℕ) (value : Json)
        → s.readers i ≡ outside
        → (Cache.get r stats_key s.cache).0 ≡ ok (some value)
        → Step s (record s { cache = (Cache.get r stats_key s.cache).1 })
    -- the next of the five SELECTs
    select :
        (i : ℕ) (seen : List db.State)
        → s.readers i ≡ selecting seen
        → length seen < 5
        → Step s
            (record s { readers = set_reader s.readers i (selecting (seen ++ s.session ∷ [])) })
    compute :
        (i : ℕ) (a b c d e : db.State) (at : Str)
        → s.readers i ≡ selecting (a ∷ b ∷ c ∷ d ∷ e ∷ [])
        → Step s (record s {
          readers = set_reader s.readers i (computed (build_stats round1 (gathered a b c d e) at));
        })
    put :
        (i : ℕ) (stats : StatsOut)
        → s.readers i ≡ computed stats
        → Step s (record s {
          cache = Cache.set r stats_key (codec.model_dump stats) ttl s.cache;
          readers = set_reader s.readers i outside;
        })
    -- a request that stores or changes a complaint commits
    commit :
        (d : db.State)
        → Step s (record s { session = d; pending = suc s.pending; versions = d ∷ s.versions })
    -- and drops the statistics
    drop :
        (n : ℕ)
        → s.pending ≡ suc n
        → Step s (record s { cache = invalidate r s.cache; pending = n })

  abbrev pub opened : r.State → db.State → Races
  opened c d = record {
    cache = c;
    session = d;
    pending = 0;
    readers = λ i. outside;
    versions = d ∷ [];
  }

  pub data Reach (c : r.State) (d : db.State) : Races → Type 0 where
    start : Reach c d (opened c d)
    later : {s t : Races} → Reach c d s → Step s t → Reach c d t

-- ===== src/Stats/Races/Committed.antt =====
-- The cached statistics are of states that were committed.
use civic_pulse_24i3089_24i.Prelude.{All, []}
use civic_pulse_24i3089_24i.Prelude.{ℕ, ◌≡◌, ◌⊎◌, true, none, some, List, ◌∷◌}
use mathlib.Core.List.{Memᴰ}
use civic_pulse_24i3089_24i.Text.{Str}
use civic_pulse_24i3089_24i.Json.{Decimal}
use civic_pulse_24i3089_24i.Cache
use civic_pulse_24i3089_24i.Cache.{Redis}
use civic_pulse_24i3089_24i.Cache.Server.{IsServer}
use civic_pulse_24i3089_24i.Repository.{Database}
use civic_pulse_24i3089_24i.Stats.{StatsOut, StatsCodec, stats_key, build_stats}
use civic_pulse_24i3089_24i.Stats.Races.{Reader, outside, selecting, computed, Races, gathered}

module _ (codec : StatsCodec) (round1 : ℕ → ℕ → Decimal) (r : Redis) (db : Database) (ttl : ℕ)
    (server : IsServer r) where
  open server use {up, text}

  -- Figures each of which is of some state that was committed: the total and the average of one,
  -- and each of the four breakdowns of one.
  abbrev pub IsOf : List db.State → StatsOut → Type 0
  IsOf versions stats =
      (a b c d e : db.State) × (at : Str) × All (λ v. Memᴰ v versions) (a ∷ b ∷ c ∷ d ∷ e ∷ [])
      × (stats ≡ build_stats round1 (gathered codec round1 r db ttl a b c d e) at)

  abbrev ReaderOf : List db.State → Reader db.State → Type 0
  ReaderOf versions outside = Unit
  ReaderOf versions (selecting seen) = All (λ v. Memᴰ v versions) seen
  ReaderOf versions (computed stats) = IsOf versions stats

  -- The statistics that the cache holds, if any, are such figures.
  abbrev pub IsCommitted : r.State → List db.State → Type 0
  IsCommitted c versions =
      (text c stats_key ≡ none)
      ⊎ ((stats : StatsOut) × (text c stats_key ≡ some (r.dumps (codec.model_dump stats)))
          × IsOf versions stats)

  record Inv (s : Races codec round1 r db ttl) : Type 0 where
    live : up s.cache ≡ true
    whole : IsCommitted s.cache s.versions
    readers : (i : ℕ) → ReaderOf s.versions (s.readers i)
    now : Memᴰ s.session s.versions

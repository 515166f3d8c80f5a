-- ===== src/Tests/Races.antt =====
-- A reader of the statistics beside a request that commits.
use civic_pulse_24i3089_24i.Prelude.{ℕ, ◌≡◌, refl, true, [], ◌∷◌, arith}
use civic_pulse_24i3089_24i.Text.{Str, codes}
use civic_pulse_24i3089_24i.Exceptions.{ok}
use civic_pulse_24i3089_24i.Cache
use civic_pulse_24i3089_24i.Repository.{aggregates}
use civic_pulse_24i3089_24i.Stats.{get, build_stats}
use civic_pulse_24i3089_24i.Stats.Races.{
  Race, Reach, outside, gathered, later, start, miss, select, compute, put,
}
use civic_pulse_24i3089_24i.Stats.Races.Stale.{stale_again, mixed}
use civic_pulse_24i3089_24i.Tests.World.{Memory, redis, server, database, Table, memory}
use civic_pulse_24i3089_24i.Tests.Codec.{codec}
use civic_pulse_24i3089_24i.Tests.Limits.{tenths, session, empty_table}

abbrev Run : Type 0
Run = (s : Race Memory Table) × Reach codec tenths redis database 30 memory session s

abbrev one_reader : Run
unfolding Cache.get
one_reader = (
  _,
  later
      (later
        (later
          (later
            (later
              (later (later (later start (miss 0 refl refl)) (select 0 [] refl (omega arith)))
                (select 0 (session ∷ []) refl (omega arith)))
              (select 0 (session ∷ session ∷ []) refl (omega arith)))
            (select 0 (session ∷ session ∷ session ∷ []) refl (omega arith)))
          (select 0 (session ∷ session ∷ session ∷ session ∷ []) refl (omega arith)))
        (compute 0 session session session session session (codes "now") refl))
      (put 0 _ refl),
)

stale_again_example :
    (s : Race Memory Table) × Reach codec tenths redis database 30 memory session s
    × (s.session ≡ empty_table)
    × (s.pending ≡ 0)
    × ((i : ℕ) → s.readers i ≡ outside)
    × ((now : Str) (later_ : Table)
        → get codec tenths redis database 30 now later_ s.cache
          ≡ (ok (build_stats tenths (aggregates database session) (codes "now"), true), s.cache))
stale_again_example =
    stale_again codec tenths redis database 30 server memory session empty_table (codes "now") refl
      refl

mixed_example :
    (s : Race Memory Table) × Reach codec tenths redis database 30 memory session s
    × (s.session ≡ empty_table)
    × (s.pending ≡ 0)
    × ((i : ℕ) → s.readers i ≡ outside)
    × ((now : Str) (later_ : Table)
        → get codec tenths redis database 30 now later_ s.cache ≡ (
          ok (
            build_stats tenths
                (gathered codec tenths redis database 30 session empty_table empty_table empty_table
                  empty_table)
                (codes "now"),
            true,
          ),
          s.cache,
        ))
mixed_example =
    mixed codec tenths redis database 30 server memory session empty_table (codes "now") refl refl

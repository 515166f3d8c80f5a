-- ===== src/Stats/Freshness.antt =====
-- When the statistics come from the cache, and when from the table.
use civic_pulse_24i3089_24i.Prelude.{ℕ, ◌≡◌, refl, ap, ◌∙◌, true, false, none, some}
use civic_pulse_24i3089_24i.Text.{Str, ◌===◌, ===_iff}
use civic_pulse_24i3089_24i.Exceptions.{ok}
use civic_pulse_24i3089_24i.Json.{Decimal}
use civic_pulse_24i3089_24i.Cache
use civic_pulse_24i3089_24i.Cache.{Redis, not_null, decode}
use civic_pulse_24i3089_24i.Cache.Server.{IsServer}
use civic_pulse_24i3089_24i.Repository.{Database, aggregates}
use civic_pulse_24i3089_24i.Stats.{
  StatsOut, StatsCodec, stats_key, build_stats, on_cached, get, invalidate,
}

module _ (r : Redis) (server : IsServer r) where
  open server use {up, text}

  pub key_self : (stats_key === stats_key) ≡ true
  key_self = (===_iff stats_key stats_key).1 refl

  -- After an invalidation the server still answers and holds no statistics.
  pub invalidate_empties :
      (c : r.State)
      → up c ≡ true
      → (up (invalidate r c) ≡ true) × (text (invalidate r c) stats_key ≡ none)
  unfolding invalidate
  invalidate_empties c live = (
    server.delete-up stats_key c live,
    server.text-delete stats_key c stats_key live ∙ rw key_self,
  )

  pub get-up :
      (k : Str) (s : r.State) → up s ≡ true → Cache.get r k s ≡ (decode r (some (text s k)), s)
  unfolding Cache.get
  get-up k s h = rw (server.get-up k s h)

  module _ (codec : StatsCodec) (round1 : ℕ → ℕ → Decimal) (db : Database) (ttl : ℕ) where
    -- With nothing cached, the statistics are those of the rows, they are marked as a miss, and
    -- they are what the server holds afterwards.
    get_of_none :
        (at : Str) (d : db.State) (c : r.State)
        → up c ≡ true
        → text c stats_key ≡ none
        → let stats = build_stats round1 (aggregates db d) at in
          let end = get codec round1 r db ttl at d c in
          (end.0 ≡ ok (stats, false))
          × (up end.1 ≡ true)
          × (text end.1 stats_key ≡ some (r.dumps (codec.model_dump stats)))
    unfolding get Cache.set
    get_of_none at d c live empty =
        let e : Cache.get r stats_key c ≡ (ok none, c) = get-up stats_key c live ∙ rw empty in
        let raw = r.dumps (codec.model_dump (build_stats round1 (aggregates db d) at)) in
        rw (e, on_cached)
          (
            refl,
            server.set-up stats_key raw ttl c live,
            server.text-set stats_key raw ttl c stats_key live ∙ rw key_self,
          )

    pub get_of_entry :
        (at : Str) (d : db.State) (c : r.State) (stats : StatsOut)
        → up c ≡ true
        → text c stats_key ≡ some (r.dumps (codec.model_dump stats))
        → get codec round1 r db ttl at d c ≡ (ok (stats, true), c)
    unfolding get
    get_of_entry at d c stats live there =
        let e : Cache.get r stats_key c ≡ (ok (some (codec.model_dump stats)), c) =
          get-up stats_key c live
          ∙ rw (there, server.loads-dumps) (rw (codec.dump-not_null stats)) in
        rw (e, on_cached) (rw (codec.validate-dump stats))

    -- On a server that answers, after an invalidation the next request for statistics computes
    -- them from the rows and is a miss; the one after it, whatever the rows are by then, gets the
    -- same figures and is a hit.
    pub get-invalidate :
        (at at' : Str) (d d' : db.State) (c : r.State)
        → up c ≡ true
        → let stats = build_stats round1 (aggregates db d) at in
          let first = get codec round1 r db ttl at d (invalidate r c) in
          let second = get codec round1 r db ttl at' d' first.1 in
          (first.0 ≡ ok (stats, false)) × (second.0 ≡ ok (stats, true))
    get-invalidate at at' d d' c live =
        let (still, empty) = invalidate_empties c live in
        let (fresh, again, there) = get_of_none at d (invalidate r c) still empty in
        (fresh, ap (λ m. m.0) (get_of_entry at' d' _ _ again there))

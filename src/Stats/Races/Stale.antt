-- ===== src/Stats/Races/Stale.antt =====
-- A commit and its invalidation do not keep old statistics out of the cache.
use civic_pulse_24i3089_24i.Prelude.{
  arith, [], ◌∷◌, ℕ, ◌≡◌, refl, ap, ◌∙◌, inl, inr, true, none, ◌==◌, Bool-cases,
}
use civic_pulse_24i3089_24i.Text.{Str}
use civic_pulse_24i3089_24i.Exceptions.{ok}
use civic_pulse_24i3089_24i.Json.{Decimal}
use civic_pulse_24i3089_24i.Cache
use civic_pulse_24i3089_24i.Cache.{Redis}
use civic_pulse_24i3089_24i.Cache.Server.{IsServer}
use civic_pulse_24i3089_24i.Repository.{Database, aggregates}
use civic_pulse_24i3089_24i.Stats.{StatsCodec, stats_key, get, invalidate}
use civic_pulse_24i3089_24i.Stats.Freshness.{key_self, invalidate_empties, get-up, get_of_entry}
use civic_pulse_24i3089_24i.Stats.{StatsOut, build_stats}
use civic_pulse_24i3089_24i.Stats.Races.{
  outside, Races, gathered, miss, select, compute, put, commit, drop, Reach, start, later,
}

module _ (codec : StatsCodec) (round1 : ℕ → ℕ → Decimal) (r : Redis) (db : Database) (ttl : ℕ)
    (server : IsServer r) where
  open server use {up, text}

  -- The end of `get` with these figures in the cache.
  abbrev Serves : r.State → StatsOut → Type 0
  Serves c stats =
      (now : Str) (d : db.State) → get codec round1 r db ttl now d c ≡ (ok (stats, true), c)

  missing :
      (c : r.State) → up c ≡ true → text c stats_key ≡ none → (Cache.get r stats_key c).0 ≡ ok none
  missing c live empty = ap (λ m. m.0) (get-up r server stats_key c live) ∙ rw empty

  -- What is put into the cache after an invalidation is served.
  put-Serves :
      (c : r.State) (stats : StatsOut)
      → up c ≡ true
      → Serves
          (Cache.set r stats_key
            (codec.model_dump stats)
            ttl
            (invalidate r (Cache.get r stats_key c).1))
          stats
  unfolding Cache.set
  put-Serves c stats live now d =
      let same : (Cache.get r stats_key c).1 ≡ c =
        ap (λ m. m.1) (get-up r server stats_key c live) in
      let live' : up (Cache.get r stats_key c).1 ≡ true = ap up same ∙ live in
      let (still, _) = invalidate_empties r server (Cache.get r stats_key c).1 live' in
      let raw = r.dumps (codec.model_dump stats) in
      let dropped = invalidate r (Cache.get r stats_key c).1 in
      let there =
        server.text-set stats_key raw ttl dropped stats_key still ∙ rw (key_self r server) in
      get_of_entry r server codec round1 db ttl now d _ stats
        (server.set-up stats_key raw ttl dropped still) there

  -- A commit and its invalidation do not keep old figures out of the cache: on a server that answers
  -- and holds no statistics at first, a reader that has made its SELECTs before a commit can put
  -- its figures into the cache after that commit's invalidation. Then no invalidation is to come
  -- and no reader is under way, and whoever asks gets the old figures, marked as a hit, and leaves
  -- the cache as it was, so that the next one gets them too until the entry expires or is dropped.
  pub stale_again :
      (c : r.State) (d d' : db.State) (at : Str)
      → up c ≡ true
      → text c stats_key ≡ none
      → (s : Races codec round1 r db ttl) × Reach codec round1 r db ttl c d s
        × (s.session ≡ d')
        × (s.pending ≡ 0)
        × ((i : ℕ) → s.readers i ≡ outside)
        × ((now : Str) (later_ : db.State)
            → get codec round1 r db ttl now later_ s.cache
              ≡ (ok (build_stats round1 (aggregates db d) at, true), s.cache))
  stale_again c d d' at live empty = (
    _,
    later
        (later
          (later
            (later
              (later
                (later
                  (later
                    (later
                      (later (later start (miss 0 refl (missing c live empty)))
                        (select 0 [] refl (omega arith)))
                      (select 0 (d ∷ []) refl (omega arith)))
                    (select 0 (d ∷ d ∷ []) refl (omega arith)))
                  (select 0 (d ∷ d ∷ d ∷ []) refl (omega arith)))
                (select 0 (d ∷ d ∷ d ∷ d ∷ []) refl (omega arith)))
              (compute 0 d d d d d at refl))
            (commit d'))
          (drop 0 refl))
        (put 0 (build_stats round1 (aggregates db d) at) refl),
    refl,
    refl,
    (λ i. elim (Bool-cases (0 == i)) [ inl e ↦ rw e refl | inr e ↦ rw e refl ]),
    put-Serves c (build_stats round1 (aggregates db d) at) live,
  )

  -- And they need not be of one state: a commit after the first of the SELECTs leaves the total and
  -- the average of before and the breakdowns of after it, and these are served until the entry
  -- expires or is dropped, with no invalidation to come and no reader under way.
  pub mixed :
      (c : r.State) (d d' : db.State) (at : Str)
      → up c ≡ true
      → text c stats_key ≡ none
      → (s : Races codec round1 r db ttl) × Reach codec round1 r db ttl c d s
        × (s.session ≡ d')
        × (s.pending ≡ 0)
        × ((i : ℕ) → s.readers i ≡ outside)
        × ((now : Str) (later_ : db.State)
            → get codec round1 r db ttl now later_ s.cache ≡ (
              ok (build_stats round1 (gathered codec round1 r db ttl d d' d' d' d') at, true),
              s.cache,
            ))
  mixed c d d' at live empty = (
    _,
    later
        (later
          (later
            (later
              (later
                (later
                  (later
                    (later
                      (later (later start (miss 0 refl (missing c live empty)))
                        (select 0 [] refl (omega arith)))
                      (commit d'))
                    (select 0 (d ∷ []) refl (omega arith)))
                  (select 0 (d ∷ d' ∷ []) refl (omega arith)))
                (select 0 (d ∷ d' ∷ d' ∷ []) refl (omega arith)))
              (select 0 (d ∷ d' ∷ d' ∷ d' ∷ []) refl (omega arith)))
            (compute 0 d d' d' d' d' at refl))
          (drop 0 refl))
        (put 0 _ refl),
    refl,
    refl,
    (λ i. elim (Bool-cases (0 == i)) [ inl e ↦ rw e refl | inr e ↦ rw e refl ]),
    put-Serves c _ live,
  )

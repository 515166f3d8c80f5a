-- ===== src/Triage/Recent.antt =====
-- `recent` and `cache_counts` of backend/app/services/triage_service.py, and what the list of recent
-- outcomes holds.
use civic_pulse_24i3089_24i.Prelude.{ℕ, zero, suc, ◌≡◌, refl, ap, ◌∙◌, true, List, [], ◌∷◌, take}
use civic_pulse_24i3089_24i.Text.{Str}
use civic_pulse_24i3089_24i.Exceptions.{Result, ok, err, ◌>>=◌}
use civic_pulse_24i3089_24i.Json.{Json}
use civic_pulse_24i3089_24i.Cache
use civic_pulse_24i3089_24i.Cache.{Redis, load_all, one_loaded}
use civic_pulse_24i3089_24i.Cache.Server.{IsServer}
use civic_pulse_24i3089_24i.Triage.{
  World, TriageOutcome, hits_key, misses_key, recent_key, recent_cap, recent_entry, record_outcome,
}

module _ (r : Redis) where
  unfoldable pub recent : r.State → Result (List Json) × r.State
  unfolding Cache.list_recent
  recent c = Cache.list_recent r recent_key recent_cap c

  unfoldable pub cache_counts : r.State → (ℕ × ℕ) × r.State
  unfolding Cache.get_int
  cache_counts c =
      let (hits, c') = Cache.get_int r hits_key c in
      let (misses, c'') = Cache.get_int r misses_key c' in ((hits, misses), c'')

  load_all-cases :
      (m : Result Json) (raws : List r.Raw) (js : List Json)
      → (m >>= λ j. load_all r raws >>= λ l. ok (j ∷ l)) ≡ ok js
      → (j : Json) × (l : List Json) × (m ≡ ok j) × (load_all r raws ≡ ok l) × (js ≡ j ∷ l)
  load_all-cases (err e) raws js h = cc
  load_all-cases (ok j) raws js h = go (load_all r raws) h refl
    where
      go :
          (n : Result (List Json))
          → (n >>= λ l. ok (j ∷ l)) ≡ ok js
          → load_all r raws ≡ n
          → (i : Json) × (l : List Json) × (ok j ≡ ok i) × (load_all r raws ≡ ok l) × (js ≡ i ∷ l)
      go (err e) k f = cc
      go (ok l) k f = (j, l, refl, f, cc k)

  -- The first values of a list that loads are the first of those that it loads.
  load_all-take :
      (n : ℕ) (raws : List r.Raw) (js : List Json)
      → load_all r raws ≡ ok js
      → load_all r (take n raws) ≡ ok (take n js)
  unfolding load_all
  load_all-take zero raws js h = refl
  load_all-take (suc n) [] js h = let e : [] ≡ js = cc h in rw (← e) refl
  load_all-take (suc n) (raw ∷ raws) js h =
      let (j, l, e, f, g) = load_all-cases (one_loaded r (r.loads raw)) raws js h in
      rw (e, load_all-take n raws l f, g) refl

take-take {ℓ} : {A : Type ℓ} (n : ℕ) (xs : List A) → take n (take n xs) ≡ take n xs
take-take zero xs = refl
take-take (suc n) [] = refl
take-take (suc n) (x ∷ xs) = ap (◌∷◌ x) (take-take n xs)

module _ (r : Redis) (server : IsServer r) {N : Type 0} where
  -- On a server that answers, an outcome that is recorded is the first of the recent ones, and those
  -- that were there follow it in their order, up to twenty in all.
  pub recent-record_outcome :
      (complaint_id at : Str) (o : TriageOutcome) (w : World r.State N) (js : List Json)
      → server.up w.cache ≡ true
      → load_all r (server.items w.cache recent_key) ≡ ok js
      → (recent r (record_outcome r complaint_id at o w).cache).0
        ≡ ok (take recent_cap (recent_entry complaint_id at o ∷ js))
  unfolding recent record_outcome Cache.list_recent Cache.push_capped load_all
  recent-record_outcome complaint_id at o w js up loaded =
      let j = recent_entry complaint_id at o in
      let raws = r.dumps j ∷ server.items w.cache recent_key in
      let c = (r.push_trim recent_key (r.dumps j) 19 w.cache).1 in
      let still = server.push_trim-up recent_key (r.dumps j) 19 w.cache up in
      let all_loaded : load_all r raws ≡ ok (j ∷ js) = rw (server.loads-dumps, loaded) refl in
      let kept : take 20 (server.items c recent_key) ≡ take 20 raws =
        ap (take 20) (server.items-push_trim recent_key (r.dumps j) 19 w.cache up)
        ∙ take-take 20 raws in
      rw (server.range-up recent_key 19 c still, kept) (load_all-take r 20 raws (j ∷ js) all_loaded)

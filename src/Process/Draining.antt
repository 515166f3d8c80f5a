-- ===== src/Process/Draining.antt =====
-- Once a pod drains it never says again that it is ready, and its pools are closed when it ends.
use civic_pulse_24i3089_24i.Prelude.{
  ℕ, ◌≡◌, refl, inl, inr, Bool, true, false, not, some, List, [], ◌∷◌, ◌++◌, All, all, arith,
  Bool-cases,
}
use civic_pulse_24i3089_24i.Text.{codes}
use civic_pulse_24i3089_24i.Cache.{Redis}
use civic_pulse_24i3089_24i.Repository.{Database}
use civic_pulse_24i3089_24i.Health
use civic_pulse_24i3089_24i.Health.{Readiness}
use civic_pulse_24i3089_24i.Process.{
  Container, Process, close, handle_exit, Event, startup, signal, probe, shutdown, handle, run,
}

abbrev pub IsTurnedAway : Readiness → Type 0
IsTurnedAway a = (a.status_code ≡ 503) × (a.status ≡ codes "draining")

-- A process with a container that drains.
abbrev IsDraining : {U : Type 0} → Process U → Type 0
IsDraining p = (c : Container) × (p.container ≡ some c) × (c.draining ≡ true)

All-append :
    (xs ys : List Readiness)
    → All IsTurnedAway xs
    → All IsTurnedAway ys
    → All IsTurnedAway (xs ++ ys)
All-append [] ys h k = k
All-append (a ∷ xs) ys (h, hs) k = (h, All-append xs ys hs k)

module _ {U : Type 0} (super_exit : ℕ → U → U) (r : Redis) (db : Database) where
  abbrev pub is_startup : Event super_exit r db → Bool
  is_startup (startup settings) = true
  is_startup _ = false

  drain-IsDraining :
      (c : Container) (p : Process U)
      → p.container ≡ some c
      → (sig : ℕ) → IsDraining (handle_exit super_exit sig p)
  unfolding handle_exit
  drain-IsDraining c p e sig = elim (Bool-cases c.draining) [
    | inl on ↦ (c, rw (e, on) refl, on)
    | inr off ↦ (record c { draining = true }, rw (e, off) refl, refl)
  ]

  handle-IsDraining :
      (e : Event super_exit r db) (p : Process U)
      → is_startup e ≡ false
      → IsDraining p
      → All IsTurnedAway (handle super_exit r db e p).0 × IsDraining (handle super_exit r db e p).1
  unfolding handle close Health.ready
  handle-IsDraining (startup settings) p h (c, e, on) = cc
  handle-IsDraining (signal sig) p h (c, e, on) = (tt, drain-IsDraining c p e sig)
  handle-IsDraining (probe d k) p h (c, e, on) = (rw (e, on) ((refl, refl), tt), (c, e, on))
  handle-IsDraining shutdown p h (c, e, on) = (tt, (close c, rw e refl, on))

  run-IsDraining :
      (events : List (Event super_exit r db)) (p : Process U)
      → all (λ e. not (is_startup e)) events ≡ true
      → IsDraining p
      → All IsTurnedAway (run super_exit r db events p).0
        × IsDraining (run super_exit r db events p).1
  unfolding run
  run-IsDraining [] p h k = (tt, k)
  run-IsDraining (e ∷ events) p h k =
      let (here, k') = handle-IsDraining e p (ground arith) k in
      let (rest, end) = run-IsDraining events (handle super_exit r db e p).1 (ground arith) k' in
      (All-append _ _ here rest, end)

  -- Once a process that has started gets a signal to exit, whatever further signals and probes come,
  -- before its end or after it, in whatever order, and however the database and Redis do: every
  -- answer to `/ready` is 503 and says that the pod is draining, and the pod drains at the end.
  pub signal-IsTurnedAway :
      (sig : ℕ) (events : List (Event super_exit r db)) (c : Container) (p : Process U)
      → p.container ≡ some c
      → all (λ e. not (is_startup e)) events ≡ true
      → All IsTurnedAway (run super_exit r db (signal sig ∷ events) p).0
        × ((k : Container) × ((run super_exit r db (signal sig ∷ events) p).1.container ≡ some k)
            × (k.draining ≡ true))
  unfolding run handle
  signal-IsTurnedAway sig events c p e h =
      run-IsDraining events (handle_exit super_exit sig p) h (drain-IsDraining c p e sig)

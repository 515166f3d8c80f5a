-- ===== src/Domain/Machine.antt =====
-- What the transition table of backend/app/domain.py allows, over any number of transitions.
use civic_pulse_24i3089_24i.Prelude.{
  ℕ, suc, ◌+◌, ◌≤◌, ◌<◌, ◌≡◌, refl, ◌⊎◌, ◌↔◌, Bool, true, List, [], ◌∷◌, arith, if◌then◌else◌,
}
use civic_pulse_24i3089_24i.Domain.{
  Status, open_, in_progress, resolved, rejected, all_statuses, allowed_transitions, can_transition,
}

abbrev keep : Bool → Status → List Status → List Status
keep b s rest = if b then s ∷ rest else rest

abbrev pub targets : Status → List Status → List Status
targets current [] = []
targets current (s ∷ ss) = keep (can_transition current s) s (targets current ss)

-- The list sent to the frontend is the statuses that the transition test accepts, each once, in
-- the order in which the enum declares them.
pub allowed_transitions-eq-targets :
    (current : Status) → allowed_transitions current ≡ targets current all_statuses
unfolding allowed_transitions can_transition
allowed_transitions-eq-targets open_ = refl
allowed_transitions-eq-targets in_progress = refl
allowed_transitions-eq-targets resolved = refl
allowed_transitions-eq-targets rejected = refl

abbrev pub IsTerminal : Status → Type 0
IsTerminal s = (s ≡ resolved) ⊎ (s ≡ rejected)

-- A status admits no transition exactly when it is resolved or rejected.
pub IsTerminal-iff : (s : Status) → (allowed_transitions s ≡ []) ↔ IsTerminal s
unfolding allowed_transitions
IsTerminal-iff s = ground arith

-- A run of accepted transitions, with their number.
pub data Reach (s : Status) : Status → ℕ → Type 0 where
  here : Reach s s 0
  next : {t u : Status} {n : ℕ} → Reach s t n → can_transition t u ≡ true → Reach s u (suc n)

-- How far a complaint has come.
abbrev pub stage : Status → ℕ
stage open_ = 0
stage in_progress = 1
stage resolved = 2
stage rejected = 2

stage-lt : (s t : Status) → can_transition s t ≡ true → stage s < stage t
unfolding can_transition
stage-lt s t h = ground arith

-- n accepted transitions from `s` to `t` go up by at least n of the stages, of which the last is
-- 2: no status comes back, and two transitions are the most.
pub Reach-stage : {s t : Status} {n : ℕ} → Reach s t n → stage s + n ≤ stage t
Reach-stage {s} here = omega arith
Reach-stage (next {t} {u} r h) = omega (arith, Reach-stage r, stage-lt t u h)

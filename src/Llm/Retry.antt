-- ===== src/Llm/Retry.antt =====
-- The retry loop of backend/app/providers/triage/llm.py.
use civic_pulse_24i3089_24i.Prelude.{
  ℕ, zero, suc, ◌+◌, ◌≤◌, ◌<◌, ◌≡◌, ◌⊎◌, refl, sym, ap, ◌∙◌, inl, inr, Bool, true, false, Option,
  none, some, arith, if◌then◌else◌, Bool-cases, ltb,
}
use civic_pulse_24i3089_24i.Exceptions.{Exn, Result, ok, err, is_retryable}
use civic_pulse_24i3089_24i.Schemas.{TriageResult}
use civic_pulse_24i3089_24i.Llm.{pause, attempts, triage, default_attempts}

abbrev pub Result-cases :
    (m : Result TriageResult) → ((r : TriageResult) × (m ≡ ok r)) ⊎ ((e : Exn) × (m ≡ err e))
Result-cases (ok r) = inl (r, refl)
Result-cases (err e) = inr (e, refl)

module _ {W : Type 0} (call_once : W → Result TriageResult × W) (sleep : ℕ → W → W) where
  abbrev pub retry_of : Result TriageResult → W → Result TriageResult × W
  retry_of (ok r) w = (ok r, w)
  retry_of (err e) w = if is_retryable e then call_once (sleep 1 w) else (err e, w)

  -- With the default of two attempts the loop is one call, and after a retryable failure one pause
  -- and one more call, whose outcome is final; any other outcome of the first call is final itself.
  pub triage-retries_once :
      (w : W) → triage call_once sleep default_attempts w ≡ retry_of (call_once w).0 (call_once w).1
  unfolding triage
  triage-retries_once w = ground arith

  -- One round of the loop, its call made.
  round : ℕ → ℕ → ℕ → Result TriageResult → W → Result TriageResult × W
  round max_attempts left attempt (ok r) w = (ok r, w)
  round max_attempts left attempt (err e) w =
      if is_retryable e
      then attempts call_once sleep max_attempts left (attempt + 1) (some e)
          (pause call_once sleep (ltb attempt max_attempts) attempt w)
      else (err e, w)

  attempts-round :
      (max_attempts left attempt : ℕ) (last : Option Exn) (w : W)
      → attempts call_once sleep max_attempts (suc left) attempt last w
        ≡ round max_attempts left attempt (call_once w).0 (call_once w).1
  unfolding attempts round
  attempts-round max_attempts left attempt last w = ground arith

  module _ (calls : W → ℕ) (counts : (w : W) → calls (call_once w).1 ≡ calls w + 1)
      (rests : (n : ℕ) (w : W) → calls (sleep n w) ≡ calls w) where
    -- What the loop has done between two of its states.
    record Outcome (left : ℕ) (start : W) (end : Result TriageResult × W) : Type 0 where
      at : W
      made : end ≡ call_once at
      some_calls : calls start < calls end.1
      few_calls : calls end.1 ≤ calls start + left
      all_used :
          (e : Exn) → end.0 ≡ err e → is_retryable e ≡ true → calls end.1 ≡ calls start + left

    calls-pause : (b : Bool) (n : ℕ) (w : W) → calls (pause call_once sleep b n w) ≡ calls w
    calls-pause true n w = rests n w
    calls-pause false n w = refl

    first_call :
        (left : ℕ) (w : W) (m : Result TriageResult)
        → (call_once w).0 ≡ m
        → ((e : Exn) → m ≡ err e → is_retryable e ≡ true → left ≡ 0)
        → Outcome (suc left) w (m, (call_once w).1)
    first_call left w m e last = record {
      at = w;
      made = ap (λ (n : Result TriageResult). (n, (call_once w).1)) (sym e);
      some_calls = omega (arith, counts w);
      few_calls = omega (arith, counts w);
      all_used = λ x f g. omega (arith, counts w, last x f g);
    }

    later_call :
        (left : ℕ) (w v : W) (end : Result TriageResult × W)
        → calls v ≡ calls w + 1
        → Outcome left v end
        → Outcome (suc left) w end
    later_call left w v end h o = record {
      at = o.at;
      made = o.made;
      some_calls = omega (arith, o.some_calls);
      few_calls = omega (arith, o.few_calls);
      all_used = λ x f g. omega (arith, o.all_used x f g);
    }

    round-Outcome :
        (max_attempts left attempt : ℕ) (w : W) (m : Result TriageResult)
        → (call_once w).0 ≡ m
        → attempt + left ≡ max_attempts
        → ((e : Exn) (v : W) (k : ℕ)
            → left ≡ suc k
            → Outcome left v (attempts call_once sleep max_attempts left (attempt + 1) (some e) v))
        → Outcome (suc left) w (round max_attempts left attempt m (call_once w).1)
    unfolding round attempts
    round-Outcome max_attempts left attempt w (ok r) e fit more =
        first_call left w (ok r) e (λ x f. cc)
    round-Outcome max_attempts zero attempt w (err x) e fit more =
        let done : ltb attempt max_attempts ≡ false = ground arith in
        elim (Bool-cases (is_retryable x)) [
          | inl again ↦ rw (again, done) (first_call 0 w (err x) e (λ _ _ _. refl))
          | inr final ↦ rw final (first_call 0 w (err x) e (λ _ _ _. refl))
        ]
    round-Outcome max_attempts (suc k) attempt w (err x) e fit more =
        let w' = pause call_once sleep (ltb attempt max_attempts) attempt (call_once w).1 in
        let same : calls w' ≡ calls w + 1 =
          calls-pause (ltb attempt max_attempts) attempt (call_once w).1 ∙ counts w in
        elim (Bool-cases (is_retryable x)) [
          | inl again ↦ rw again (later_call (suc k) w w' _ same (more x w' k refl))
          | inr final ↦ rw final (first_call (suc k) w (err x) e (λ y f g. cc (final, f, g)))
        ]

    attempts-Outcome :
        (max_attempts left attempt : ℕ) (last : Option Exn) (w : W)
        → attempt + left ≡ max_attempts
        → Outcome (suc left) w (attempts call_once sleep max_attempts (suc left) attempt last w)
    attempts-Outcome max_attempts zero attempt last w fit = rw attempts-round (
        round-Outcome max_attempts zero attempt w (call_once w).0 refl fit
          (λ e v k z. absurd (omega arith)))
    attempts-Outcome max_attempts (suc left) attempt last w fit = rw attempts-round (
        round-Outcome max_attempts (suc left) attempt w (call_once w).0 refl fit
          (λ e v k _. attempts-Outcome max_attempts left (attempt + 1) (some e) v (omega arith)))

    -- With at least one attempt allowed, where `calls` counts the calls made and a pause makes none:
    -- the outcome is that of some call, so the assertion behind the loop never fires; between one
    -- and `max_attempts` calls were made; and a retryable error comes out only after all of them.
    pub triage-Outcome :
        (k : ℕ) (w : W)
        → let end = triage call_once sleep (suc k) w in
          ((v : W) × (end ≡ call_once v))
          × (calls w < calls end.1)
          × (calls end.1 ≤ calls w + suc k)
          × ((e : Exn) → end.0 ≡ err e → is_retryable e ≡ true → calls end.1 ≡ calls w + suc k)
    unfolding triage
    triage-Outcome k w =
        let o = attempts-Outcome (suc k) k 1 none w (omega arith) in
        ((o.at, o.made), o.some_calls, o.few_calls, o.all_used)

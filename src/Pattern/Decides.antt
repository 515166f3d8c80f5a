-- ===== src/Pattern/Decides.antt =====
-- What a pattern accepts, followed by a test on the rest of the text, worked out part by part.
use mathlib.Core.Path.{ap₂}
use civic_pulse_24i3089_24i.Prelude.{
  ℕ, zero, suc, ◌≤◌, ◌≡◌, refl, ap, ◌∙◌, inl, inr, Bool, true, false, ◌&&◌, ◌||◌, Option, none,
  some, List, [], ◌∷◌, map, length, any, any-append, append-nil, arith, ◌==◌, ltb, Bool-cases,
}
use civic_pulse_24i3089_24i.Text.{Str}
use civic_pulse_24i3089_24i.Pattern.{
  Spot, Pattern, one, empty, seq, either, many, group, text_start, text_end, run, repeat, step,
  at_end, concat_map, between,
}
use civic_pulse_24i3089_24i.Pattern.Scan.{word, is_match, matches}

module _ {ℓ κ} {A : Type ℓ} {B : Type κ} where
  any-concat_map :
      (p : B → Bool) (f : A → List B) (xs : List A)
      → any p (concat_map f xs) ≡ any (λ x. any p (f x)) xs
  any-concat_map p f [] = refl
  any-concat_map p f (x ∷ xs) =
      any-append p (f x) (concat_map f xs) ∙ ap (λ b. any p (f x) || b) (any-concat_map p f xs)

  any-map : (p : B → Bool) (f : A → B) (xs : List A) → any p (map f xs) ≡ any (λ x. p (f x)) xs
  any-map p f [] = refl
  any-map p f (x ∷ xs) = ap (λ b. p (f x) || b) (any-map p f xs)

any_ext {ℓ} :
    {A : Type ℓ} (p q : A → Bool) (xs : List A) → ((x : A) → p x ≡ q x) → any p xs ≡ any q xs
any_ext p q [] h = refl
any_ext p q (x ∷ xs) h = ap₂ (◌||◌) (h x) (any_ext p q xs h)

or_false : (b : Bool) → (b || false) ≡ b
or_false true = refl
or_false false = refl

-- Wherever the pattern is tried, some match of it is followed by a text that passes `k` exactly
-- where the text that begins there passes `g`.
pub record Decides (r : Pattern) (k g : Str → Bool) : Type 0 where
  pub decide : (s : Spot) → any (λ t. k t.rest) (run r s) ≡ g s.rest

-- what `one p` and the word `w` ask of a text, when `k` is asked of what follows
abbrev pub reads : (ℕ → Bool) → (Str → Bool) → Str → Bool
reads p k [] = false
reads p k (c ∷ s) = p c && k s

abbrev pub after : Str → (Str → Bool) → Str → Bool
after [] k s = k s
after (c ∷ w) k s = reads (λ d. d == c) (after w k) s

-- what `many (one p)` asks
unfoldable pub runs_on : (ℕ → Bool) → (Str → Bool) → Str → Bool
runs_on p k [] = k []
runs_on p k (c ∷ s) = let more = runs_on p k s in p c && more || k (c ∷ s)

pub empty-Decides : {k : Str → Bool} → Decides empty k k
unfolding run
empty-Decides {k} = record { decide = λ s. or_false (k s.rest) }

pub one-Decides : {p : ℕ → Bool} {k : Str → Bool} → Decides (one p) k (reads p k)
unfolding run
one-Decides {p} {k} = record { decide = λ s. read_one s.groups s.rest }
  where
    read_one : (gs : List Str) (s : Str) → any (λ t. k t.rest) (step p gs s) ≡ reads p k s
    read_one gs [] = refl
    read_one gs (c ∷ s) = ground arith

pub seq-Decides :
    {r q : Pattern} {k g h : Str → Bool} → Decides r g h → Decides q k g → Decides (seq r q) k h
unfolding run
seq-Decides {r} {q} {k} {g} d e = record {
  decide = λ s.
      any-concat_map (λ t. k t.rest) (run q) (run r s)
      ∙ any_ext _ (λ t. g t.rest) (run r s) e.decide
      ∙ d.decide s;
}

pub either-Decides :
    {r q : Pattern} {k g h : Str → Bool}
    → Decides r k g
    → Decides q k h
    → Decides (either r q) k (λ s. g s || h s)
unfolding run
either-Decides {r} {q} {k} d e = record {
  decide = λ s. any-append _ (run r s) (run q s) ∙ ap₂ (◌||◌) (d.decide s) (e.decide s);
}

pub group-Decides : {r : Pattern} {k g : Str → Bool} → Decides r k g → Decides (group r) k g
unfolding run
group-Decides {r} {k} d = record { decide = λ s. any-map (λ t. k t.rest) _ (run r s) ∙ d.decide s }

pub text_end-Decides : {k : Str → Bool} → Decides text_end k (λ s. at_end s && k s)
unfolding run
text_end-Decides = record { decide = λ s. ground arith }

pub word-Decides : (w : Str) {k : Str → Bool} → Decides (word w) k (after w k)
word-Decides [] = empty-Decides
word-Decides (c ∷ w) = seq-Decides one-Decides (word-Decides w)

repeat_step :
    (p : ℕ → Bool) (k : Str → Bool) (n : ℕ) (b : Option ℕ) (s : Str) (gs : List Str)
    → length s ≤ n
    → any (λ t. k t.rest) (repeat (run (one p)) n (record { before = b; rest = s; groups = gs }))
      ≡ runs_on p k s
unfolding repeat runs_on run
repeat_step p k zero b [] gs h = or_false (k [])
repeat_step p k zero b (c ∷ s) gs h = absurd (omega arith)
repeat_step p k (suc n) b [] gs h = or_false (k [])
repeat_step p k (suc n) b (c ∷ s) gs h =
    let lt : ltb (length s) (suc (length s)) ≡ true = ground arith in
    elim (Bool-cases (p c)) [
      | inl e ↦
          rw
            (e, lt, append-nil, any-append, repeat_step p k n (some c) s gs (omega arith), or_false)
            refl
      | inr e ↦ rw (e, or_false) refl
    ]

pub many_one-Decides : {p : ℕ → Bool} {k : Str → Bool} → Decides (many (one p)) k (runs_on p k)
unfolding run
many_one-Decides {p} {k} = record {
  decide = λ s. repeat_step p k (length s.rest) s.before s.rest s.groups (omega arith);
}

-- At the start of a text, `(^|w)` may match nothing.
pub started :
    {w r : Pattern} {k g h : Str → Bool} (text : Str)
    → Decides w g h
    → Decides r k g
    → any
        (λ t. k t.rest)
        (run
          (seq (group (either text_start w)) r)
          (record { before = none; rest = text; groups = [] }))
      ≡ (g text || h text)
unfolding run
started {w} {r} {k} {g} text d e =
    let s : Spot = record { before = none; rest = text; groups = [] } in
    let starts = run (group (either text_start w)) s in
    any-concat_map (λ t. k t.rest) (run r) starts
    ∙ any_ext _ (λ t. g t.rest) starts e.decide
    ∙ any-map (λ t. g t.rest) (λ (t : Spot). record t { groups = between s t ∷ t.groups })
        (s ∷ run w s)
    ∙ ap (◌||◌ (g text)) (d.decide s)

is_match-any : (ts : List Spot) → is_match ts ≡ any (λ t. true) ts
is_match-any [] = refl
is_match-any (t ∷ ts) = refl

pub matches-any :
    (r : Pattern) (text : Str)
    → matches r text ≡ any (λ t. true) (run r (record { before = none; rest = text; groups = [] }))
unfolding matches
matches-any r text = is_match-any (run r (record { before = none; rest = text; groups = [] }))

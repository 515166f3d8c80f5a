-- ===== src/Text/Laws.antt =====
-- What stripping and collapsing white space keep and remove.
use civic_pulse_24i3089_24i.Prelude.{
  ℕ, suc, ◌≤◌, ◌≡◌, refl, ap, ◌∙◌, inl, inr, Bool, true, false, [], ◌∷◌, ◌++◌, arith, Bool-cases,
  length, any,
}
use civic_pulse_24i3089_24i.Text.Space.{
  Str, is_space, lstrip, rstrip, rstrip_cons, strip, collapse_from,
}

pub length-lstrip : (s : Str) → length (lstrip s) ≤ length s
unfolding lstrip
length-lstrip [] = omega arith
length-lstrip (c ∷ s) = ground (arith, length-lstrip s)

length-rstrip_cons : (c : ℕ) (s : Str) → length (rstrip_cons c s) ≤ suc (length s)
length-rstrip_cons c [] = ground arith
length-rstrip_cons c (d ∷ t) = omega arith

pub length-rstrip : (s : Str) → length (rstrip s) ≤ length s
unfolding rstrip
length-rstrip [] = omega arith
length-rstrip (c ∷ s) = omega (arith, length-rstrip s, length-rstrip_cons c (rstrip s))

pub length-strip : (s : Str) → length (strip s) ≤ length s
unfolding strip
length-strip s = omega (arith, length-rstrip (lstrip s), length-lstrip s)

-- The first character, if there is one, is no white space.
abbrev pub StartsTight : Str → Type 0
StartsTight [] = Unit
StartsTight (c ∷ s) = is_space c ≡ false

pub lstrip-StartsTight : (s : Str) → StartsTight (lstrip s)
unfolding lstrip
lstrip-StartsTight [] = tt
lstrip-StartsTight (c ∷ s) = elim (Bool-cases (is_space c)) [
  | inl e ↦ rw e (lstrip-StartsTight s)
  | inr e ↦ rw e e
]

pub lstrip_of_StartsTight : (s : Str) → StartsTight s → lstrip s ≡ s
unfolding lstrip
lstrip_of_StartsTight [] h = refl
lstrip_of_StartsTight (c ∷ s) h = rw h

pub rstrip_cons_of_tight : (c : ℕ) (s : Str) → is_space c ≡ false → rstrip_cons c s ≡ c ∷ s
rstrip_cons_of_tight c [] h = rw h
rstrip_cons_of_tight c (d ∷ t) h = refl

rstrip-StartsTight : (s : Str) → StartsTight s → StartsTight (rstrip s)
unfolding rstrip
rstrip-StartsTight [] h = tt
rstrip-StartsTight (c ∷ s) h = rw (rstrip_cons_of_tight c (rstrip s) h) h

rstrip-rstrip_cons : (c : ℕ) (s : Str) → rstrip s ≡ s → rstrip (rstrip_cons c s) ≡ rstrip_cons c s
unfolding rstrip
rstrip-rstrip_cons c [] h = ground arith
rstrip-rstrip_cons c (d ∷ t) h = rw h

pub rstrip_idem : (s : Str) → rstrip (rstrip s) ≡ rstrip s
unfolding rstrip
rstrip_idem [] = refl
rstrip_idem (c ∷ s) = rstrip-rstrip_cons c (rstrip s) (rstrip_idem s)

-- Stripping a second time changes nothing.
pub strip_idem : (s : Str) → strip (strip s) ≡ strip s
unfolding strip
strip_idem s =
    let e =
      lstrip_of_StartsTight (rstrip (lstrip s))
        (rstrip-StartsTight (lstrip s) (lstrip-StartsTight s)) in
    ap rstrip e ∙ rstrip_idem (lstrip s)

-- What stands before a character that is no white space is out of the reach of `rstrip`.
pub rstrip-append :
    (s : Str) (c : ℕ) (t : Str) → is_space c ≡ false → rstrip (s ++ c ∷ t) ≡ s ++ c ∷ rstrip t
unfolding rstrip
rstrip-append [] c t h = rstrip_cons_of_tight c (rstrip t) h
rstrip-append (d ∷ []) c t h = rw (rstrip-append [] c t h)
rstrip-append (d ∷ e ∷ s) c t h = rw (rstrip-append (e ∷ s) c t h)

module _ (p : ℕ → Bool) where
  pub any-rstrip_cons :
      (c : ℕ) (s : Str) → p c ≡ false → any p s ≡ false → any p (rstrip_cons c s) ≡ false
  any-rstrip_cons c [] h k = ground arith
  any-rstrip_cons c (d ∷ t) h k = ground arith

  pub any-rstrip : (s : Str) → any p s ≡ false → any p (rstrip s) ≡ false
  unfolding rstrip
  any-rstrip [] h = refl
  any-rstrip (c ∷ s) h = any-rstrip_cons c (rstrip s) (ground arith) (any-rstrip s (ground arith))

  pub any-lstrip : (s : Str) → any p s ≡ false → any p (lstrip s) ≡ false
  unfolding lstrip
  any-lstrip [] h = refl
  any-lstrip (c ∷ s) h = ground (arith, any-lstrip s)

  pub any-strip : (s : Str) → any p s ≡ false → any p (strip s) ≡ false
  unfolding strip
  any-strip s h = any-rstrip (lstrip s) (any-lstrip s h)

-- A collapsed text holds no white space but the plain blank.
pub any-collapse_from :
    (p : ℕ → Bool)
    → ((c : ℕ) → is_space c ≡ false → p c ≡ false)
    → p 32 ≡ false
    → (run : Bool) (s : Str) → any p (collapse_from run s) ≡ false
unfolding collapse_from
any-collapse_from p h k run [] = refl
any-collapse_from p h k run (c ∷ s) =
    ground (arith, any-collapse_from p h k true s, any-collapse_from p h k false s, h c)

-- Collapsing adds nothing but the plain blank.
pub any-collapse :
    (p : ℕ → Bool)
    → p 32 ≡ false
    → (run : Bool) (s : Str) → any p s ≡ false
    → any p (collapse_from run s) ≡ false
unfolding collapse_from
any-collapse p k run [] h = refl
any-collapse p k run (c ∷ s) h =
    ground (arith, any-collapse p k true s (ground arith), any-collapse p k false s (ground arith))

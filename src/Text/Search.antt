-- ===== src/Text/Search.antt =====
-- `str.__eq__`, `str.startswith` and `word in text`.
use civic_pulse_24i3089_24i.Prelude.{
  ℕ, suc, ◌+◌, refl, ◌++◌, any, if◌then◌else◌, Bool, true, false, ◌||◌, ◌&&◌, [], ◌∷◌, ◌==◌, ◌≡◌,
  ◌↔◌, arith, ==_iff,
}
use civic_pulse_24i3089_24i.Text.Space.{Str}

infix 50 ◌===◌
unfoldable pub ◌===◌ : Str → Str → Bool
[] === [] = true
[] === (d ∷ t) = false
(c ∷ s) === [] = false
(c ∷ s) === (d ∷ t) = c == d && s === t

pub ===_iff : (s t : Str) → ((s === t) ≡ true) ↔ (s ≡ t)
unfolding ◌===◌
===_iff [] [] = ground arith
===_iff [] (d ∷ t) = ground arith
===_iff (c ∷ s) [] = ground arith
===_iff (c ∷ s) (d ∷ t) = ground (arith, ===_iff s t, ==_iff c d)

-- `text.startswith(word)`
unfoldable pub starts_with : Str → Str → Bool
starts_with [] text = true
starts_with (c ∷ word) [] = false
starts_with (c ∷ word) (d ∷ text) = c == d && starts_with word text

-- `word in text`
unfoldable pub contains : Str → Str → Bool
contains word [] = starts_with word []
contains word (d ∷ text) = starts_with word (d ∷ text) || contains word text

pub starts_with-eq :
    (word text : Str) → starts_with word text ≡ true → (rest : Str) × (text ≡ word ++ rest)
unfolding starts_with
starts_with-eq [] text h = (text, refl)
starts_with-eq (c ∷ word) [] h = cc
starts_with-eq (c ∷ word) (d ∷ text) h =
    let (rest, e) = starts_with-eq word text (ground arith) in (rest, ground (arith, ==_iff c d))

-- At how many places a word occurs.
unfoldable pub occurrences : Str → Str → ℕ
occurrences word [] = 0
occurrences word (d ∷ text) =
    let rest = occurrences word text in if starts_with word (d ∷ text) then suc rest else rest

-- A word cannot run on past a character that it does not hold.
starts_with-append :
    (word : Str) (x : ℕ) (text rest : Str)
    → any (λ c. c == x) word ≡ false
    → starts_with word (text ++ x ∷ rest) ≡ starts_with word text
unfolding starts_with
starts_with-append [] x text rest h = refl
starts_with-append (c ∷ word) x [] rest h = ground arith
starts_with-append (c ∷ word) x (d ∷ text) rest h =
    ground (arith, starts_with-append word x text rest)

-- So occurrences are counted apart on either side of it; it may still begin the word.
pub occurrences-append :
    (a : ℕ) (word : Str) (x : ℕ) (text rest : Str)
    → any (λ c. c == x) word ≡ false
    → occurrences (a ∷ word) (text ++ x ∷ rest)
      ≡ occurrences (a ∷ word) text + occurrences (a ∷ word) (x ∷ rest)
unfolding occurrences starts_with
occurrences-append a word x [] rest h = omega arith
occurrences-append a word x (d ∷ text) rest h =
    ground (arith, occurrences-append a word x text rest h, starts_with-append word x text rest h)

-- ===== src/Pattern/Search.antt =====
-- The backtracking search finds the matches that the pattern has.
use mathlib.Core.List.{Memᴰ}
use mathlib.Core.List.Memᴰ
use mathlib.Core.Path.{subst}
use civic_pulse_24i3089_24i.Prelude.{
  ℕ, zero, suc, ◌≤◌, ◌<◌, ◌≡◌, refl, sym, ap, ◌∙◌, ◌↔◌, inl, inr, Bool, true, false, ◌&&◌, List, [],
  ◌∷◌, length, arith, ltb, ltb→lt, if◌then◌else◌, Bool-cases,
}
use civic_pulse_24i3089_24i.Text.{Str}
use civic_pulse_24i3089_24i.Pattern.{
  Spot, Pattern, one, empty, seq, either, many, group, ahead, text_start, text_end, line_start,
  line_end, run, repeat, step, peek, between, concat_map,
}
use civic_pulse_24i3089_24i.Pattern.Means.{Star, done, more, Matches, has_no_group, is_plain}
use civic_pulse_24i3089_24i.Pattern.Members.{
  mem_concat_map, concat_map_mem, mem_map, map_mem, mem_stay,
}

lt→ltb : (a b : ℕ) → a < b → ltb a b ≡ true
lt→ltb a b h = ground arith

and_left : (a b : Bool) → (a && b) ≡ true → a ≡ true
and_left true b h = refl
and_left false b h = h

and_right : (a b : Bool) → (a && b) ≡ true → b ≡ true
and_right true b h = h
and_right false b h = cc

module _ (f : Spot → List Spot) (R : Spot → Spot → Type 0) where
  abbrev round : (n : ℕ) (s : Spot) → Spot → List Spot
  round n s t = let more = repeat f n t in if ltb (length t.rest) (length s.rest) then more else []

  sound :
      ((s t : Spot) → Memᴰ t (f s) → R s t)
      → (n : ℕ) (s t : Spot) → Memᴰ t (repeat f n s)
      → Star R t s
  unfolding repeat
  sound h zero s t m = done (Memᴰ.eq_of_singleton m)
  sound h (suc n) s t m = elim (Memᴰ.append_cases (concat_map (round n s) (f s)) m) [
    | inr last ↦ done (Memᴰ.eq_of_singleton last)
    | inl deeper ↦
        let (u, first, m') = mem_concat_map (round n s) (f s) deeper in
        elim (Bool-cases (ltb (length u.rest) (length s.rest))) [
          | inl e ↦
              more u (h s u first) (ltb→lt (length u.rest) (length s.rest) e)
                (sound h n u t (subst (λ b. Memᴰ t (if b then repeat f n u else [])) e m'))
          | inr e ↦
              absurd (Memᴰ.not-nil (subst (λ b. Memᴰ t (if b then repeat f n u else [])) e m'))
        ]
  ]

  complete :
      ((s t : Spot) → R s t → Memᴰ t (f s))
      → (n : ℕ) (t : Spot) {s : Spot} → length s.rest ≤ n
      → Star R t s
      → Memᴰ t (repeat f n s)
  unfolding repeat
  complete h zero t {s} le (done e) = Memᴰ.head e
  complete h zero t {s} le (more u step lt later) = absurd (omega arith)
  complete h (suc n) t {s} le (done e) =
      Memᴰ.append_right (concat_map (round n s) (f s)) (Memᴰ.head e)
  complete h (suc n) t {s} le (more u step lt later) =
      let e : ltb (length u.rest) (length s.rest) ≡ true = lt→ltb _ _ lt in
      let rest = complete h n t (omega arith) later in
      Memᴰ.append_left (s ∷ []) (
        concat_map_mem (round n s) (h s u step)
          (subst (λ b. Memᴰ t (if b then repeat f n u else [])) (sym e) rest))

Star-kept :
    (R : Spot → Spot → Type 0)
    → ((s t : Spot) → R s t → t.groups ≡ s.groups)
    → (t : Spot) {s : Spot} → Star R t s
    → t.groups ≡ s.groups
Star-kept R h t (done e) = ap (λ u. u.groups) e
Star-kept R h t (more v m _ later) = Star-kept R h t later ∙ h _ v m

-- A pattern with no group leaves the groups as they are.
groups_kept :
    (r : Pattern) → has_no_group r ≡ true → (s t : Spot) → Matches r s t → t.groups ≡ s.groups
groups_kept (one p) h s t (_, _, _, _, e) = ap (λ u. u.groups) e
groups_kept empty h s t e = ap (λ u. u.groups) e
groups_kept (seq r q) h s t (u, m, n) =
    groups_kept q (and_right _ _ h) u t n ∙ groups_kept r (and_left _ _ h) s u m
groups_kept (either r q) h s t (inl m) = groups_kept r (and_left _ _ h) s t m
groups_kept (either r q) h s t (inr m) = groups_kept q (and_right _ _ h) s t m
groups_kept (many r) h s t m = Star-kept (Matches r) (groups_kept r h) t m
groups_kept (group r) h s t m = cc
groups_kept (ahead r) h s t (_, _, e) = ap (λ u. u.groups) e
groups_kept text_start h s t (_, e) = ap (λ u. u.groups) e
groups_kept text_end h s t (_, e) = ap (λ u. u.groups) e
groups_kept line_start h s t (_, e) = ap (λ u. u.groups) e
groups_kept line_end h s t (_, e) = ap (λ u. u.groups) e

peeked :
    {s t : Spot} (us : List Spot)
    → ((u : Spot) → Memᴰ u us → u.groups ≡ s.groups)
    → Memᴰ t (peek s us) ↔ ((u : Spot) × Memᴰ u us × (t ≡ s))
peeked [] same = (λ m. absurd (Memᴰ.not-nil m), λ (u, m, e). absurd (Memᴰ.not-nil m))
peeked {s = s} {t = t} (u ∷ us) same =
    let e : record s { groups = u.groups } ≡ s =
      ap (λ gs. record s { groups = gs }) (same u (Memᴰ.head refl)) in
    (λ m. (u, Memᴰ.head refl, Memᴰ.eq_of_singleton m ∙ e), λ (v, m, e'). Memᴰ.head (e' ∙ sym e))

step_iff : (p : ℕ → Bool) (s t : Spot) → Memᴰ t (step p s.groups s.rest) ↔ Matches (one p) s t
step_iff p s t = read_one s.rest refl
  where
    read_one : (text : Str) → s.rest ≡ text → Memᴰ t (step p s.groups text) ↔ Matches (one p) s t
    read_one [] e = (λ m. absurd (Memᴰ.not-nil m), λ (c, rest, e', _, _). cc)
    read_one (c ∷ text) e = elim (Bool-cases (p c)) [
      | inl reads ↦ rw reads (
        (λ m. (c, text, e, reads, Memᴰ.eq_of_singleton m)),
        (λ (d, rest, e', _, e''). Memᴰ.head cc),
      )
      | inr other ↦ rw other ((λ m. absurd (Memᴰ.not-nil m)), (λ (d, rest, e', reads, e''). cc))
    ]

-- Where no lookahead has a group in it, the backtracking search from a place gives exactly the
-- places where a match that begins there may end.
pub run-Matches :
    (r : Pattern) → is_plain r ≡ true → (s t : Spot) → Memᴰ t (run r s) ↔ Matches r s t
unfolding run
run-Matches (one p) h s t = step_iff p s t
run-Matches empty h s t = (Memᴰ.eq_of_singleton, Memᴰ.head)
run-Matches (seq r q) h s t = (
  λ m.
      let (u, first, second) = mem_concat_map (run q) (run r s) m in
      (
        u,
        (run-Matches r (and_left _ _ h) s u).0 first,
        (run-Matches q (and_right _ _ h) u t).0 second,
      ),
  λ (u, first, second).
      concat_map_mem (run q) ((run-Matches r (and_left _ _ h) s u).1 first)
        ((run-Matches q (and_right _ _ h) u t).1 second),
)
run-Matches (either r q) h s t = (
  λ m. elim (Memᴰ.append_cases (run r s) m) [
    | inl n ↦ inl ((run-Matches r (and_left _ _ h) s t).0 n)
    | inr n ↦ inr ((run-Matches q (and_right _ _ h) s t).0 n)
  ],
  λ m. elim m [
    | inl n ↦ Memᴰ.append_left (run q s) ((run-Matches r (and_left _ _ h) s t).1 n)
    | inr n ↦ Memᴰ.append_right (run r s) ((run-Matches q (and_right _ _ h) s t).1 n)
  ],
)
run-Matches (many r) h s t = (
  sound (run r) (Matches r) (λ u v. (run-Matches r h u v).0) (length s.rest) s t,
  complete (run r) (Matches r) (λ u v. (run-Matches r h u v).1) (length s.rest) t (omega arith),
)
run-Matches (group r) h s t = (
  λ m.
      let (u, n, e) =
        mem_map (λ (v : Spot). record v { groups = between s v ∷ v.groups }) (run r s) m in
      (u, (run-Matches r h s u).0 n, e),
  λ (u, n, e). Memᴰ.cast e (
      map_mem (λ (v : Spot). record v { groups = between s v ∷ v.groups })
        ((run-Matches r h s u).1 n)),
)
run-Matches (ahead r) h s t =
    let (look, found) =
      peeked {s = s} {t = t} (run r s)
        (λ u m. groups_kept r (and_right _ _ h) s u ((run-Matches r (and_left _ _ h) s u).0 m)) in
    (
      λ m. let (u, n, e) = look m in (u, (run-Matches r (and_left _ _ h) s u).0 n, e),
      λ (u, n, e). found (u, (run-Matches r (and_left _ _ h) s u).1 n, e),
    )
run-Matches text_start h s t = mem_stay
run-Matches text_end h s t = mem_stay
run-Matches line_start h s t = mem_stay
run-Matches line_end h s t = mem_stay

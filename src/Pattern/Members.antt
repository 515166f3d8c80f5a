-- ===== src/Pattern/Members.antt =====
-- Members of the lists that the search for a match puts together.
use mathlib.Core.List.{Memᴰ}
use mathlib.Core.List.Memᴰ
use civic_pulse_24i3089_24i.Prelude.{
  ◌≡◌, refl, sym, ap, ◌↔◌, inl, inr, Bool, true, false, List, [], ◌∷◌, map,
}
use civic_pulse_24i3089_24i.Pattern.{Spot, stay, concat_map}

module _ {A B : Type 0} where
  pub mem_concat_map :
      (f : A → List B) (xs : List A) {y : B}
      → Memᴰ y (concat_map f xs)
      → (x : A) × Memᴰ x xs × Memᴰ y (f x)
  mem_concat_map f [] m = absurd (Memᴰ.not-nil m)
  mem_concat_map f (x ∷ xs) m = elim (Memᴰ.append_cases (f x) m) [
    | inl n ↦ (x, Memᴰ.head refl, n)
    | inr n ↦ let (z, k, h) = mem_concat_map f xs n in (z, Memᴰ.tail k, h)
  ]

  pub concat_map_mem :
      (f : A → List B) {x : A} {y : B} {xs : List A}
      → Memᴰ x xs
      → Memᴰ y (f x)
      → Memᴰ y (concat_map f xs)
  concat_map_mem f {xs = []} m n = absurd (Memᴰ.not-nil m)
  concat_map_mem f {xs = z ∷ xs} (Memᴰ.head e) n = Memᴰ.append_left (concat_map f xs) (rw (sym e) n)
  concat_map_mem f {xs = z ∷ xs} (Memᴰ.tail m) n = Memᴰ.append_right (f z) (concat_map_mem f m n)

  pub mem_map :
      (f : A → B) (xs : List A) {y : B} → Memᴰ y (map f xs) → (x : A) × Memᴰ x xs × (y ≡ f x)
  mem_map f [] m = absurd (Memᴰ.not-nil m)
  mem_map f (x ∷ xs) (Memᴰ.head e) = (x, Memᴰ.head refl, e)
  mem_map f (x ∷ xs) (Memᴰ.tail m) = let (z, k, e) = mem_map f xs m in (z, Memᴰ.tail k, e)

  pub map_mem : (f : A → B) {x : A} {xs : List A} → Memᴰ x xs → Memᴰ (f x) (map f xs)
  map_mem f (Memᴰ.head e) = Memᴰ.head (ap f e)
  map_mem f (Memᴰ.tail m) = Memᴰ.tail (map_mem f m)

pub mem_stay : {b : Bool} {s t : Spot} → Memᴰ t (stay b s) ↔ (b ≡ true) × (t ≡ s)
mem_stay {b = true} = (λ m. (refl, Memᴰ.eq_of_singleton m), λ h. Memᴰ.head h.1)
mem_stay {b = false} = (λ m. absurd (Memᴰ.not-nil m), λ h. cc (h.0))

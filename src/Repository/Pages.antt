-- ===== src/Repository/Pages.antt =====
-- What the paginated listing returns.
use mathlib.Core.List.{Perm}
use mathlib.Core.List.Perm
use civic_pulse_24i3089_24i.Prelude.{
  ℕ, zero, suc, ◌+◌, ◌-◌, ◌*◌, ◌≤◌, ◌≡◌, refl, sym, ap, ◌∙◌, inl, inr, Bool, true, false, List, [],
  ◌∷◌, ◌++◌, arith, Bool-cases, All, length, take, drop, length-take,
}
use civic_pulse_24i3089_24i.Repository.{
  Complaint, Database, ComplaintFilters, matches, select_where, precedes, insert_row, order_rows,
  list,
}

-- Newest first, and by id among those of one moment.
abbrev pub IsOrdered : List Complaint → Type 0
IsOrdered [] = Unit
IsOrdered (c ∷ cs) = All (λ d. precedes c d ≡ true) cs × IsOrdered cs

precedes_trans :
    (a b c : Complaint) → precedes a b ≡ true → precedes b c ≡ true → precedes a c ≡ true
precedes_trans a b c h k = ground arith

precedes_total : (a b : Complaint) → precedes a b ≡ false → precedes b a ≡ true
precedes_total a b h = ground arith

All-precedes :
    (c d : Complaint) (l : List Complaint)
    → precedes c d ≡ true
    → All (λ x. precedes d x ≡ true) l
    → All (λ x. precedes c x ≡ true) l
All-precedes c d [] h k = tt
All-precedes c d (x ∷ l) h (k, ks) = (precedes_trans c d x h k, All-precedes c d l h ks)

All-insert_row :
    (P : Complaint → Type 0) (c : Complaint) (l : List Complaint)
    → P c
    → All P l
    → All P (insert_row c l)
unfolding insert_row
All-insert_row P c [] h k = (h, tt)
All-insert_row P c (d ∷ l) h (k, ks) = elim (Bool-cases (precedes c d)) [
  | inl e ↦ rw e (h, (k, ks))
  | inr e ↦ rw e (k, All-insert_row P c l h ks)
]

insert_row-IsOrdered :
    (c : Complaint) (l : List Complaint) → IsOrdered l → IsOrdered (insert_row c l)
unfolding insert_row
insert_row-IsOrdered c [] h = (tt, tt)
insert_row-IsOrdered c (d ∷ l) (k, h) = elim (Bool-cases (precedes c d)) [
  | inl e ↦ rw e ((e, All-precedes c d l e k), (k, h))
  | inr e ↦ rw e (
    All-insert_row (λ x. precedes d x ≡ true) c l (precedes_total c d e) k,
    insert_row-IsOrdered c l h,
  )
]

pub order_rows-IsOrdered : (l : List Complaint) → IsOrdered (order_rows l)
unfolding order_rows
order_rows-IsOrdered [] = tt
order_rows-IsOrdered (c ∷ l) = insert_row-IsOrdered c (order_rows l) (order_rows-IsOrdered l)

insert_row-perm : (c : Complaint) (l : List Complaint) → Perm (insert_row c l) (c ∷ l)
unfolding insert_row
insert_row-perm c [] = Perm.refl (c ∷ [])
insert_row-perm c (d ∷ l) = elim (Bool-cases (precedes c d)) [
  | inl e ↦ rw e (Perm.refl (c ∷ d ∷ l))
  | inr e ↦ rw e (Perm.trans (Perm.cons d (insert_row-perm c l)) (Perm.swap c d l))
]

pub order_rows-perm : (l : List Complaint) → Perm (order_rows l) l
unfolding order_rows
order_rows-perm [] = Perm.refl []
order_rows-perm (c ∷ l) =
    Perm.trans (insert_row-perm c (order_rows l)) (Perm.cons c (order_rows-perm l))

length-insert_row : (c : Complaint) (l : List Complaint) → length (insert_row c l) ≡ suc (length l)
unfolding insert_row
length-insert_row c [] = refl
length-insert_row c (d ∷ l) = ground (arith, length-insert_row c l)

length-order_rows : (l : List Complaint) → length (order_rows l) ≡ length l
unfolding order_rows
length-order_rows [] = refl
length-order_rows (c ∷ l) = length-insert_row c (order_rows l) ∙ ap suc (length-order_rows l)

module _ {ℓ} {A : Type ℓ} where
  take-nil : (n : ℕ) → take {A = A} n [] ≡ []
  take-nil zero = refl
  take-nil (suc n) = refl

  take-add : (a b : ℕ) (l : List A) → take (a + b) l ≡ take a l ++ take b (drop a l)
  take-add zero b l = let e : 0 + b ≡ b = omega arith in rw e
  take-add (suc a) b [] = let e : suc a + b ≡ suc (a + b) = omega arith in rw e (sym (take-nil b))
  take-add (suc a) b (x ∷ l) =
      let e : suc a + b ≡ suc (a + b) = omega arith in rw e (ap (◌∷◌ x) (take-add a b l))

  take_of_length-le : (n : ℕ) (l : List A) → length l ≤ n → take n l ≡ l
  take_of_length-le zero [] h = refl
  take_of_length-le (suc n) [] h = refl
  take_of_length-le zero (x ∷ l) h = absurd (omega arith)
  take_of_length-le (suc n) (x ∷ l) h = ap (◌∷◌ x) (take_of_length-le n l (omega arith))

  All-take : (P : A → Type 0) (n : ℕ) (l : List A) → All P l → All P (take n l)
  All-take P zero l h = tt
  All-take P (suc n) [] h = tt
  All-take P (suc n) (x ∷ l) (h, hs) = (h, All-take P n l hs)

  All-drop : (P : A → Type 0) (n : ℕ) (l : List A) → All P l → All P (drop n l)
  All-drop P zero l h = h
  All-drop P (suc n) [] h = tt
  All-drop P (suc n) (x ∷ l) (h, hs) = All-drop P n l hs

All-select_where :
    (p : Complaint → Bool) (l : List Complaint) → All (λ c. p c ≡ true) (select_where p l)
unfolding select_where
All-select_where p [] = tt
All-select_where p (c ∷ l) = elim (Bool-cases (p c)) [
  | inl e ↦ rw e (e, All-select_where p l)
  | inr e ↦ rw e (All-select_where p l)
]

All-order_rows : (P : Complaint → Type 0) (l : List Complaint) → All P l → All P (order_rows l)
unfolding order_rows
All-order_rows P [] h = tt
All-order_rows P (c ∷ l) (h, hs) = All-insert_row P c (order_rows l) h (All-order_rows P l hs)

module _ (db : Database) (filters : ComplaintFilters) (page_size : ℕ) (s : db.State) where
  -- A page holds at most `page_size` complaints, each of which passes the filters, and comes with
  -- the number of all the rows that pass them.
  pub list-page :
      (page : ℕ)
      → let (items, total) = list db filters page page_size s in
        (length items ≤ page_size)
        × All (λ c. matches filters c ≡ true) items
        × (total ≡ length (select_where (matches filters) (db.rows s)))
  unfolding list
  list-page page =
      let found = order_rows (select_where (matches filters) (db.rows s)) in
      let fits = All-order_rows _ _ (All-select_where (matches filters) (db.rows s)) in
      (
        omega (arith, length-take page_size (drop ((page - 1) * page_size) found)),
        All-take _ page_size _ (All-drop _ ((page - 1) * page_size) found fits),
        refl,
      )

  -- The pages 1 to n, one after the other.
  abbrev pub first_pages : ℕ → List Complaint
  first_pages zero = []
  first_pages (suc n) = first_pages n ++ (list db filters (suc n) page_size s).0

  first_pages-eq-take :
      (n : ℕ)
      → first_pages n
        ≡ take (n * page_size) (order_rows (select_where (matches filters) (db.rows s)))
  unfolding list
  first_pages-eq-take zero = let e : 0 * page_size ≡ 0 = omega arith in rw e
  first_pages-eq-take (suc n) =
      let e : suc n * page_size ≡ n * page_size + page_size = omega arith in
      let f : suc n - 1 ≡ n = omega arith in
      let found = order_rows (select_where (matches filters) (db.rows s)) in
      rw (first_pages-eq-take n, f, e) (sym (take-add (n * page_size) page_size found))

  -- Reading the pages 1 to n, where they have room for the total, gives every row that passes the
  -- filters exactly once, newest first and by id among those of one moment.
  pub first_pages_complete :
      (n : ℕ)
      → (list db filters 1 page_size s).1 ≤ n * page_size
      → Perm (first_pages n) (select_where (matches filters) (db.rows s))
        × IsOrdered (first_pages n)
  unfolding list
  first_pages_complete n h =
      let found = select_where (matches filters) (db.rows s) in
      let e : first_pages n ≡ order_rows found =
        first_pages-eq-take n
        ∙ take_of_length-le (n * page_size) (order_rows found)
            (omega (arith, length-order_rows found)) in
      rw e (order_rows-perm found, order_rows-IsOrdered found)

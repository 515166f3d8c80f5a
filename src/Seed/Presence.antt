-- ===== src/Seed/Presence.antt =====
-- Which ids a list of rows has.
use civic_pulse_24i3089_24i.Prelude.{
  ℕ, ◌≡◌, refl, inl, inr, none, some, List, [], ◌∷◌, ◌++◌, ◌==◌, Bool-cases, All, arith,
}
use civic_pulse_24i3089_24i.Repository.{Complaint, find_row}
use civic_pulse_24i3089_24i.Seed.Runs.{Has, Has-cons}

abbrev pub Absent : List Complaint → Complaint → Type 0
Absent rows c = find_row c.id rows ≡ none

-- A row that neither list has.
pub find_row_of_append :
    (id : ℕ) (xs ys : List Complaint) → find_row id (xs ++ ys) ≡ none → find_row id ys ≡ none
unfolding find_row
find_row_of_append id [] ys h = h
find_row_of_append id (x ∷ xs) ys h = find_row_of_append id xs ys (ground arith)

Has-append : (xs rows : List Complaint) (id : ℕ) → Has rows id → Has (xs ++ rows) id
Has-append [] rows id h = h
Has-append (x ∷ xs) rows id h = Has-cons x (xs ++ rows) id (Has-append xs rows id h)

pub All_map :
    (P Q : Complaint → Type 0) (cs : List Complaint)
    → ((c : Complaint) → P c → Q c)
    → All P cs
    → All Q cs
All_map P Q [] f h = tt
All_map P Q (c ∷ cs) f (p, h) = (f c p, All_map P Q cs f h)

pub All_snoc :
    (P : Complaint → Type 0) (cs : List Complaint) (c : Complaint)
    → All P cs
    → P c
    → All P (cs ++ c ∷ [])
All_snoc P [] c h p = (p, tt)
All_snoc P (d ∷ cs) c (q, h) p = (q, All_snoc P cs c h p)

abbrev pub AllHave : List Complaint → List Complaint → Type 0
AllHave rows cs = All (λ c. Has rows c.id) cs

pub AllHave-append : (xs rows cs : List Complaint) → AllHave rows cs → AllHave (xs ++ rows) cs
AllHave-append xs rows cs =
    All_map (λ c. Has rows c.id) (λ c. Has (xs ++ rows) c.id) cs (λ c. Has-append xs rows c.id)

-- A row under a new id is in nobody's way.
pub Absent-cons :
    (c : Complaint) (rows added : List Complaint)
    → find_row c.id added ≡ none
    → All (Absent rows) added
    → All (Absent (c ∷ rows)) added
unfolding find_row
Absent-cons c rows [] new h = tt
Absent-cons c rows (d ∷ ds) new (p, h) = (ground arith, Absent-cons c rows ds (ground arith) h)

pub have_between :
    (c : Complaint) (added rows : List Complaint) (id : ℕ)
    → Has (added ++ rows) id
    → Has (added ++ c ∷ rows) id
unfolding find_row
have_between c [] rows id h = Has-cons c rows id h
have_between c (d ∷ ds) rows id (x, h) = elim (Bool-cases (d.id == id)) [
  | inl e ↦ (d, rw e refl)
  | inr e ↦
      let below : find_row id (ds ++ rows) ≡ some x = rw e at h in
      Has-cons d (ds ++ c ∷ rows) id (have_between c ds rows id (x, below))
]

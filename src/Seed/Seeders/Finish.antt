-- ===== src/Seed/Seeders/Finish.antt =====
-- A process that has the lock gets through.
use civic_pulse_24i3089_24i.Prelude.{
  ℕ, suc, ◌≡◌, refl, inl, inr, none, List, [], ◌∷◌, ◌++◌, ==_iff, Option-cases,
}
use civic_pulse_24i3089_24i.Text.{Str}
use civic_pulse_24i3089_24i.Repository.{Complaint, find_row}
use civic_pulse_24i3089_24i.Seed.Seeders.{
  Seeder, seeding, seeded, Cluster, put_at, leave, insert, commit, Reach, later,
}

put_at_self : (f : ℕ → Seeder) (i : ℕ) (x : Seeder) → put_at f i x i ≡ x
put_at_self f i x = rw ((==_iff i i).1 refl)

-- From every reachable state in which a process holds the lock, its own statements lead, with no
-- other process moving, to a state in which it has finished and the lock is free.
pub Reach-seeded :
    (lower : Str → Str) (seed_id : Str → ℕ) (now : ℕ → ℕ) (rows : List Complaint) (i : ℕ)
    (todo added : List Complaint) (inserted : ℕ) (s : Cluster)
    → s.at i ≡ seeding todo added inserted
    → Reach lower seed_id now rows s
    → (t : Cluster) × Reach lower seed_id now rows t
      × ((n : ℕ) × (t.at i ≡ seeded n))
      × (t.lock ≡ none)
Reach-seeded lower seed_id now rows i [] added inserted s here run = (
  _,
  later run (commit i added inserted here),
  (inserted, put_at_self s.at i (seeded inserted)),
  refl,
)
Reach-seeded lower seed_id now rows i (c ∷ todo) added inserted s here run =
    elim (Option-cases (find_row c.id (added ++ s.rows))) [
      | inl missing ↦
          Reach-seeded lower seed_id now rows i todo (c ∷ added) (suc inserted) _
            (put_at_self s.at i (seeding todo (c ∷ added) (suc inserted)))
            (later run (insert i c todo added inserted here missing))
      | inr (e, found) ↦
          Reach-seeded lower seed_id now rows i todo added inserted _
            (put_at_self s.at i (seeding todo added inserted))
            (later run (leave i c e todo added inserted here found))
    ]

-- ===== src/Seed/Seeders/Once.antt =====
-- Concurrent runs of the seed do not stand in each other's way.
use mathlib.Core.Path.{subst}
use civic_pulse_24i3089_24i.Prelude.{
  ℕ, ◌≡◌, refl, sym, ◌∙◌, inl, inr, false, Option, none, some, List, [], ◌∷◌, ◌++◌, ◌==◌, ==_iff,
  Bool-cases, All, append_assoc, append-nil, arith,
}
use civic_pulse_24i3089_24i.Text.{Str}
use civic_pulse_24i3089_24i.Exceptions.{ok}
use civic_pulse_24i3089_24i.Repository.{Complaint, find_row}
use civic_pulse_24i3089_24i.Seed.{build_seed_complaints}
use civic_pulse_24i3089_24i.Seed.Runs.{Has, Has-head}
use civic_pulse_24i3089_24i.Seed.Presence.{
  Absent, AllHave, find_row_of_append, All_map, All_snoc, AllHave-append, Absent-cons, have_between,
}
use civic_pulse_24i3089_24i.Seed.Seeders.{
  Seeder, waiting, seeding, seeded, failed, Cluster, added_by, put_at, Step, lock_for_seed, leave,
  insert, commit, roll_back, store, Reach, start, later,
}

module _ (lower : Str → Str) (seed_id : Str → ℕ) (now : ℕ → ℕ) where
  abbrev Built : ℕ → List Complaint → Type 0
  Built i cs = build_seed_complaints lower seed_id (now i) ≡ ok cs

  record Working (rows : List Complaint) (lock : Option ℕ) (i : ℕ) (todo added : List Complaint)
      : Type 0 where
    alone : lock ≡ some i
    absent : All (Absent rows) added
    all : List Complaint
    past : List Complaint
    built : Built i all
    parts : all ≡ past ++ todo
    have : AllHave (added ++ rows) past

  -- All rows of the seed are there.
  record Finished (rows : List Complaint) (i : ℕ) : Type 0 where
    all : List Complaint
    built : Built i all
    have : AllHave rows all

  abbrev Fine : List Complaint → Option ℕ → ℕ → Seeder → Type 0
  Fine rows lock i waiting = Unit
  Fine rows lock i (seeding todo added inserted) = Working rows lock i todo added
  Fine rows lock i (seeded inserted) = Finished rows i
  Fine rows lock i failed = Unit

  -- A process without the lock does not mind what the one that has it does.
  not_holding :
      (xs rows : List Complaint) (lock lock' : Option ℕ) (j : ℕ)
      → (lock ≡ some j → ⊥)
      → (x : Seeder) → Fine rows lock j x
      → Fine (xs ++ rows) lock' j x
  not_holding xs rows lock lock' j other waiting h = tt
  not_holding xs rows lock lock' j other (seeding todo added n) h = absurd (other h.alone)
  not_holding xs rows lock lock' j other (seeded n) h = record {
    all = h.all;
    built = h.built;
    have = AllHave-append xs rows h.all h.have;
  }
  not_holding xs rows lock lock' j other failed h = tt

  put-Fine :
      (rows : List Complaint) (lock : Option ℕ) (f : ℕ → Seeder) (i : ℕ) (x : Seeder)
      → Fine rows lock i x
      → ((j : ℕ) → (i == j) ≡ false → Fine rows lock j (f j))
      → (j : ℕ) → Fine rows lock j (put_at f i x j)
  put-Fine rows lock f i x mine rest j = elim (Bool-cases (i == j)) [
    | inl e ↦ let same = (==_iff i j).0 e in rw e (subst (λ k. Fine rows lock k x) same mine)
    | inr e ↦ rw e (rest j e)
  ]

  abbrev Inv : Cluster → Type 0
  Inv s = (i : ℕ) → Fine s.rows s.lock i (s.at i)

  working :
      {rows : List Complaint} {lock : Option ℕ} {i : ℕ} {todo added : List Complaint} {n : ℕ}
      {x : Seeder}
      → x ≡ seeding todo added n
      → Fine rows lock i x
      → Working rows lock i todo added
  working {rows} {lock} {i} e h = subst (Fine rows lock i) e h

  apart : {lock : Option ℕ} (i j : ℕ) → lock ≡ some i → (i == j) ≡ false → lock ≡ some j → ⊥
  apart i j mine other theirs = let same : some i ≡ some j = sym mine ∙ theirs in ground arith

  stored :
      (c : Complaint) (rows : List Complaint) (lock : Option ℕ) (j : ℕ) (x : Seeder)
      → find_row c.id (added_by x) ≡ none
      → Fine rows lock j x
      → Fine (c ∷ rows) lock j x
  stored c rows lock j waiting new h = tt
  stored c rows lock j (seeding todo added n) new h = record {
    alone = h.alone;
    absent = Absent-cons c rows added new h.absent;
    all = h.all;
    past = h.past;
    built = h.built;
    parts = h.parts;
    have =
        All_map (λ d. Has (added ++ rows) d.id) (λ d. Has (added ++ c ∷ rows) d.id) h.past
          (λ d. have_between c added rows d.id) h.have;
  }
  stored c rows lock j (seeded n) new h = record {
    all = h.all;
    built = h.built;
    have = AllHave-append (c ∷ []) rows h.all h.have;
  }
  stored c rows lock j failed new h = tt

  Step-Inv : {s t : Cluster} → Inv s → Step lower seed_id now s t → Inv t
  Step-Inv {s} h (lock_for_seed i cs e free built) =
      put-Fine s.rows (some i) s.at i _
        (record {
          alone = refl;
          absent = tt;
          all = cs;
          past = [];
          built = built;
          parts = refl;
          have = tt;
        })
        (λ j other. not_holding [] s.rows s.lock (some i) j (λ held. cc) (s.at j) (h j))
  Step-Inv {s} h (leave i c e todo added n here found) =
      let w = working here (h i) in
      put-Fine s.rows s.lock s.at i _
        (record {
          alone = w.alone;
          absent = w.absent;
          all = w.all;
          past = w.past ++ c ∷ [];
          built = w.built;
          parts = w.parts ∙ sym (append_assoc w.past (c ∷ []) todo);
          have = All_snoc _ w.past c w.have (e, found);
        })
        (λ j other. h j)
  Step-Inv {s} h (insert i c todo added n here missing) =
      let w = working here (h i) in
      put-Fine s.rows s.lock s.at i _
        (record {
          alone = w.alone;
          absent = (find_row_of_append c.id added s.rows missing, w.absent);
          all = w.all;
          past = w.past ++ c ∷ [];
          built = w.built;
          parts = w.parts ∙ sym (append_assoc w.past (c ∷ []) todo);
          have =
              All_snoc _ w.past c (AllHave-append (c ∷ []) (added ++ s.rows) w.past w.have)
                (Has-head c (added ++ s.rows));
        })
        (λ j other. h j)
  Step-Inv {s} h (commit i added n here) =
      let w = working here (h i) in
      put-Fine (added ++ s.rows) none s.at i _
        (record { all = w.all; built = w.built; have = rw (w.parts, append-nil) w.have })
        (λ j other. not_holding added s.rows s.lock none j (apart i j w.alone other) (s.at j) (h j))
  Step-Inv {s} h (roll_back i todo added n here) =
      let w = working here (h i) in
      put-Fine s.rows none s.at i failed tt
        (λ j other. not_holding [] s.rows s.lock none j (apart i j w.alone other) (s.at j) (h j))
  Step-Inv {s} h (store c new) = λ j. stored c s.rows s.lock j (s.at j) (new j) (h j)

  Reach-Inv : {rows : List Complaint} {s : Cluster} → Reach lower seed_id now rows s → Inv s
  Reach-Inv start = λ i. tt
  Reach-Inv (later run step) = Step-Inv (Reach-Inv run) step

  -- Several processes run the seed at once, and a running backend stores complaints under new ids:
  -- a process that is about to commit has added no row whose id is committed already, so that no
  -- commit meets a row of another, and when a process has finished, every row of the seed is there.
  pub Reach-Absent :
      (rows : List Complaint) (s : Cluster) (i : ℕ)
      → Reach lower seed_id now rows s
      → ((todo added : List Complaint) (n : ℕ)
          → s.at i ≡ seeding todo added n
          → All (Absent s.rows) added)
        × ((n : ℕ)
            → s.at i ≡ seeded n
            → (cs : List Complaint) × (build_seed_complaints lower seed_id (now i) ≡ ok cs)
              × All (λ c. (d : Complaint) × (find_row c.id s.rows ≡ some d)) cs)
  Reach-Absent rows s i run = (
    λ todo added n here. (working here (Reach-Inv run i)).absent,
    λ n here.
        let f : Finished s.rows i = subst (Fine s.rows s.lock i) here (Reach-Inv run i) in
        (f.all, f.built, f.have),
  )

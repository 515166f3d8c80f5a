-- ===== src/Seed/Runs.antt =====
-- Running the seed again.
use civic_pulse_24i3089_24i.Prelude.{
  ℕ, ◌≡◌, refl, sym, ◌∙◌, Bool, true, false, some, List, [], ◌∷◌, map, arith, All, inl, inr,
  Option-cases,
}
use civic_pulse_24i3089_24i.Text.{Str}
use civic_pulse_24i3089_24i.Exceptions.{Result, ok, err}
use civic_pulse_24i3089_24i.Repository
use civic_pulse_24i3089_24i.Repository.{Complaint, Database, find_row}
use civic_pulse_24i3089_24i.Repository.Sessions.{IsDatabase, IsRow}
use civic_pulse_24i3089_24i.Seed.{add_all, seed_rows, commit_all, run_seed}
use civic_pulse_24i3089_24i.Seed.Rows.{build_seed_complaints-IsRow}

abbrev pub Has : List Complaint → ℕ → Type 0
Has rows id = (c : Complaint) × (find_row id rows ≡ some c)

-- A new row in front takes no id away.
pub Has-cons : (c : Complaint) (rows : List Complaint) (id : ℕ) → Has rows id → Has (c ∷ rows) id
unfolding find_row
Has-cons c rows id (d, h) = elim (Option-cases (find_row id (c ∷ rows))) [
  | inl absent ↦ absurd (ground arith)
  | inr found ↦ found
]

pub Has-head : (c : Complaint) (rows : List Complaint) → Has (c ∷ rows) c.id
unfolding find_row
Has-head c rows = (c, ground arith)

All-Has-cons :
    (c : Complaint) (rows : List Complaint) (ids : List ℕ)
    → All (Has rows) ids
    → All (Has (c ∷ rows)) ids
All-Has-cons c rows [] h = tt
All-Has-cons c rows (i ∷ ids) (h, hs) = (Has-cons c rows i h, All-Has-cons c rows ids hs)

module _ (db : Database) (laws : IsDatabase db) where
  -- One row: it is there afterwards, nothing that was there is gone, and nothing is committed yet.
  record Added (c : Complaint) (d : db.State) (end : Result Bool × db.State) : Type 0 where
    answered : (b : Bool) × (end.0 ≡ ok b)
    present : Has (db.rows end.1) c.id
    kept : (id : ℕ) → Has (db.rows d) id → Has (db.rows end.1) id
    uncommitted : db.committed end.1 ≡ db.committed d

  add_if_absent-Added :
      (c : Complaint) (d : db.State) → IsRow c → Added c d (Repository.add_if_absent db c d)
  unfolding Repository.add_if_absent Repository.get
  add_if_absent-Added c d fits = elim (Option-cases (find_row c.id (db.rows d))) [
    | inl absent ↦
        let (done, rows, committed) = laws.insert-ok c d fits absent in
        rw (absent, Repository.add_if_absent)
          (record {
            answered = (true, rw done refl);
            present = rw rows (Has-head c (db.rows d));
            kept = λ id h. rw rows (Has-cons c (db.rows d) id h);
            uncommitted = committed;
          })
    | inr (e, found) ↦
        rw (found, Repository.add_if_absent)
          (record {
            answered = (false, refl);
            present = (e, found);
            kept = λ id h. h;
            uncommitted = refl;
          })
  ]

  record AllAdded (cs : List Complaint) (d : db.State) (end : Result ℕ × db.State) : Type 0 where
    answered : (n : ℕ) × (end.0 ≡ ok n)
    present : All (λ c. Has (db.rows end.1) c.id) cs
    kept : (id : ℕ) → Has (db.rows d) id → Has (db.rows end.1) id

  add_all-AllAdded :
      (cs : List Complaint) (d : db.State) → All IsRow cs → AllAdded cs d (add_all db cs d)
  unfolding add_all
  add_all-AllAdded [] d h = record { answered = (0, refl); present = tt; kept = λ id h. h }
  add_all-AllAdded (c ∷ cs) d (fits, h) =
      let one = add_if_absent-Added c d fits in
      let d' = (Repository.add_if_absent db c d).1 in
      let rest = add_all-AllAdded cs d' h in
      let (b, e) = one.answered in
      let (n, f) = rest.answered in
      rw (e, f)
        (record {
          answered = (_, refl);
          present = (rest.kept c.id one.present, rest.present);
          kept = λ id k. rest.kept id (one.kept id k);
        })

  add_if_absent_of_present :
      (c e : Complaint) (d : db.State)
      → find_row c.id (db.rows d) ≡ some e
      → Repository.add_if_absent db c d ≡ (ok false, d)
  unfolding Repository.add_if_absent Repository.get
  add_if_absent_of_present c e d found = rw (found, Repository.add_if_absent)

  -- Rows that are all there already are left as they are, and none is counted.
  add_all_of_present :
      (cs : List Complaint) (d : db.State)
      → All (λ c. Has (db.rows d) c.id) cs
      → add_all db cs d ≡ (ok 0, d)
  unfolding add_all
  add_all_of_present [] d h = refl
  add_all_of_present (c ∷ cs) d ((e, found), h) =
      rw (add_if_absent_of_present c e d found, add_all_of_present cs d h)

  -- What a run does with rows that fit the table.
  record Seeded (cs : List Complaint) (d : db.State) (end : Result ℕ × db.State) : Type 0 where
    answered : (n : ℕ) × (end.0 ≡ ok n)
    present : All (λ c. Has (db.rows end.1) c.id) cs
    synced : db.committed end.1 ≡ db.rows end.1

  commit_all-Seeded :
      (cs : List Complaint) (d : db.State) (m : Result ℕ × db.State)
      → AllAdded cs d m
      → Seeded cs d (commit_all db m)
  commit_all-Seeded cs d (err e, d') h =
      absurd (let z : err e ≡ ok h.answered.0 = h.answered.1 in cc z)
  commit_all-Seeded cs d (ok n, d') h =
      let (done, rows, committed) = laws.commit-ok d' in
      rw (done, commit_all)
        (record {
          answered = (n, refl);
          present = rw rows h.present;
          synced = committed ∙ sym rows;
        })

  seed_rows-Seeded :
      (cs : List Complaint) (d : db.State) → All IsRow cs → Seeded cs d (seed_rows db (ok cs) d)
  seed_rows-Seeded cs d h = commit_all-Seeded cs d (add_all db cs d) (add_all-AllAdded cs d h)

  seed_rows_again :
      (cs : List Complaint) (d : db.State)
      → All (λ c. Has (db.rows d) c.id) cs
      → let end = seed_rows db (ok cs) d in
        (end.0 ≡ ok 0) × (db.rows end.1 ≡ db.rows d) × (db.committed end.1 ≡ db.rows d)
  seed_rows_again cs d h =
      let (done, rows, committed) = laws.commit-ok d in
      rw (add_all_of_present cs d h) (rw (done, commit_all) (refl, rows, committed))

-- The ids are there, whichever rows they come from.
All-ids :
    (P : ℕ → Type 0) (cs es : List Complaint)
    → map (λ c. c.id) cs ≡ map (λ c. c.id) es
    → All (λ c. P c.id) cs
    → All (λ c. P c.id) es
All-ids P [] [] same h = tt
All-ids P [] (e ∷ es) same h = cc
All-ids P (c ∷ cs) [] same h = cc
All-ids P (c ∷ cs) (e ∷ es) same (h, hs) =
    let head : c.id ≡ e.id = cc same in
    let tail : map (λ c. c.id) cs ≡ map (λ c. c.id) es = cc same in
    (rw head at h, All-ids P cs es tail hs)

-- Running the seed a second time, at whatever time, inserts nothing: on a database that carries out
-- its statements, the first run succeeds and commits what the session sees, and the second one
-- answers that no row was inserted and leaves the rows and what is committed as they were.
pub run_seed-twice :
    (lower : Str → Str) (seed_id : Str → ℕ) (db : Database)
    → IsDatabase db
    → (now later : ℕ) (d : db.State)
    → let first = run_seed lower seed_id db now d in
      let second = run_seed lower seed_id db later first.1 in
      ((n : ℕ) × (first.0 ≡ ok n))
      × (db.committed first.1 ≡ db.rows first.1)
      × (second.0 ≡ ok 0)
      × (db.rows second.1 ≡ db.rows first.1)
      × (db.committed second.1 ≡ db.committed first.1)
unfolding run_seed
run_seed-twice lower seed_id db laws now later d =
    let (cs, built, fit, ids) = build_seed_complaints-IsRow lower seed_id now in
    let (es, built', fit', ids') = build_seed_complaints-IsRow lower seed_id later in
    let one = seed_rows-Seeded db laws cs d fit in
    let d' = (seed_rows db (ok cs) d).1 in
    let (none_new, rows, committed) =
      seed_rows_again db laws es d'
        (All-ids (Has (db.rows d')) cs es (ids ∙ sym ids') one.present) in
    rw (built, built') (one.answered, one.synced, none_new, rows, committed ∙ sym one.synced)

-- ===== src/Complaints/Ledger/Replay.antt =====
-- The complaint service answers as the ledger does.
use mathlib.Core.Path.{ap₂, fun_ext, subst}
use civic_pulse_24i3089_24i.Prelude.{
  ℕ, ◌≡◌, refl, sym, ap, ◌∙◌, inl, inr, true, false, none, some, List, [], ◌∷◌, map, arith, ◌==◌,
  ==_iff, Bool-cases, Option-cases,
}
use civic_pulse_24i3089_24i.Text.{codes}
use civic_pulse_24i3089_24i.Domain.{can_transition}
use civic_pulse_24i3089_24i.Exceptions.{Result, ok, err, not_found, invalid_transition}
use civic_pulse_24i3089_24i.Cache.{Redis}
use civic_pulse_24i3089_24i.Repository
use civic_pulse_24i3089_24i.Repository.{Complaint, Database, find_row}
use civic_pulse_24i3089_24i.Repository.Sessions.{IsDatabase, update_row}
use civic_pulse_24i3089_24i.Complaints.{Place, moved, get}
use civic_pulse_24i3089_24i.Complaints.Transitions.{
  Outcome, missing, refused, changed, IsFresh, change_status-Outcome, find_row-map, find_row-id,
}
use civic_pulse_24i3089_24i.Complaints.History.{Request, update_row_other}
use civic_pulse_24i3089_24i.Complaints.Creation.{store_lem}
use civic_pulse_24i3089_24i.Complaints.Ledger.{
  Ledger, entered, Call, post, fetch, change, fetched, answer, replay, Allowed, AllAllowed, view,
  serve_one, serve, ledger_of,
}

view-store : (c : Complaint) (rows : List Complaint) → view (c ∷ rows) ≡ entered c.id c (view rows)
unfolding find_row
view-store c rows = fun_ext λ j. refl

update_row_here :
    (q : Request) (c : Complaint)
    → c.id ≡ q.id
    → update_row q.id q.target q.now c ≡ moved c q.target q.now
update_row_here q c h = ground arith

view-update :
    (q : Request) (c : Complaint) (rows : List Complaint)
    → find_row q.id rows ≡ some c
    → view (map (update_row q.id q.target q.now) rows)
      ≡ entered q.id (moved c q.target q.now) (view rows)
view-update q c rows found = fun_ext λ j. elim (Bool-cases (q.id == j)) [
  | inl e ↦
      let same : q.id ≡ j = (==_iff q.id j).0 e in
      let there : find_row j rows ≡ some c = ap (λ i. find_row i rows) (sym same) ∙ found in
      rw (e, find_row-map, there) (ap some (update_row_here q c (find_row-id q.id rows c found)))
  | inr e ↦ elim (Option-cases (find_row j rows)) [
    | inl absent ↦ rw (e, find_row-map, absent) refl
    | inr (d, there) ↦
        rw (e, find_row-map, there)
          (ap some (update_row_other q.id q.target q.now j d (find_row-id j rows d there) e))
  ]
]

answer-missing :
    (q : Request) (m : Ledger)
    → m q.id ≡ none
    → answer (change q) m ≡ (err (not_found (codes "complaint")), m)
unfolding answer
answer-missing q m h = rw h refl

answer-refused :
    (q : Request) (m : Ledger) (c : Complaint)
    → m q.id ≡ some c
    → can_transition c.status q.target ≡ false
    → answer (change q) m ≡ (err (invalid_transition c.status q.target), m)
unfolding answer
answer-refused q m c h barred = rw (h, barred) refl

answer-changed :
    (q : Request) (m : Ledger) (c : Complaint)
    → m q.id ≡ some c
    → can_transition c.status q.target ≡ true
    → answer (change q) m ≡ (ok (moved c q.target q.now), entered q.id (moved c q.target q.now) m)
unfolding answer
answer-changed q m c h allowed = rw (h, allowed) refl

module _ (r : Redis) {N : Type 0} (db : Database) (laws : IsDatabase db) where
  -- The call answers as on the ledger, leaves the ledger's rows, and a session that sees them.
  record Simulates (call : Call) (s : Place r N db) (end : Result Complaint × Place r N db)
      : Type 0 where
    answers : end.0 ≡ (answer call (ledger_of r db s)).0
    leaves : ledger_of r db end.1 ≡ (answer call (ledger_of r db s)).1
    fresh : IsFresh r db laws end.1

  change-Simulates :
      (q : Request) (s : Place r N db) (end : Result Complaint × Place r N db)
      → IsFresh r db laws s
      → Outcome r db laws q.id q.target q.now s end
      → Simulates (change q) s end
  change-Simulates q s end h (missing absent e same) =
      let there = ap (find_row q.id) (sym h) ∙ absent in
      let a = answer-missing q (ledger_of r db s) there in
      record {
        answers = e ∙ sym (ap (λ x. x.0) a);
        leaves = ap (ledger_of r db) same ∙ sym (ap (λ x. x.1) a);
        fresh = subst (IsFresh r db laws) (sym same) h;
      }
  change-Simulates q s end h (refused c found barred e w k l) =
      let there = ap (find_row q.id) (sym h) ∙ found in
      let a = answer-refused q (ledger_of r db s) c there barred in
      record {
        answers = e ∙ sym (ap (λ x. x.0) a);
        leaves = ap view k ∙ sym (ap (λ x. x.1) a);
        fresh = l ∙ sym k;
      }
  change-Simulates q s end h (changed c found allowed e w k l) =
      let there = ap (find_row q.id) (sym h) ∙ found in
      let a = answer-changed q (ledger_of r db s) c there allowed in
      record {
        answers = e ∙ sym (ap (λ x. x.0) a);
        leaves =
            ap view (k ∙ ap (map (update_row q.id q.target q.now)) h)
            ∙ view-update q c (db.committed s.session) there
            ∙ sym (ap (λ x. x.1) a);
        fresh = l ∙ sym k;
      }

  get-fetched :
      (id : ℕ) (s : Place r N db) → get r db id s ≡ (fetched (find_row id (db.rows s.session)), s)
  unfolding get Repository.get
  get-fetched id s = elim (Option-cases (find_row id (db.rows s.session))) [
    | inl absent ↦ rw (absent, get) refl
    | inr (c, found) ↦ rw (found, get) refl
  ]

  call-Simulates :
      (call : Call) (s : Place r N db)
      → IsFresh r db laws s
      → Allowed call (ledger_of r db s)
      → Simulates call s (serve_one r db call s)
  unfolding answer
  call-Simulates (post c) s h (fits, absent) =
      let (answered, committed, rows, _) =
        store_lem r db laws c s fits (ap (find_row c.id) h ∙ absent) in
      record {
        answers = answered;
        leaves = ap view (committed ∙ ap (◌∷◌ c) h) ∙ view-store c (db.committed s.session);
        fresh = rows ∙ sym committed;
      }
  call-Simulates (fetch id) s h allowed =
      let e = get-fetched id s in
      record {
        answers = ap (λ x. x.0) e ∙ ap (λ rows. fetched (find_row id rows)) h;
        leaves = ap (λ x. ledger_of r db x.1) e;
        fresh = subst (λ x. IsFresh r db laws x.1) (sym e) h;
      }
  call-Simulates (change q) s h allowed =
      change-Simulates q s _ h (change_status-Outcome r db laws q.id q.target q.now s)

  -- On a database that carries out its statements, and from a session that sees what is committed:
  -- any calls that store complaints of new ids that fit the table, fetch complaints and change
  -- their statuses get the answers that the ledger gives, and leave the committed rows that the
  -- ledger ends with, read by id.
  pub serve-replay :
      (calls : List Call) (s : Place r N db)
      → IsFresh r db laws s
      → AllAllowed calls (ledger_of r db s)
      → ((serve r db calls s).0 ≡ (replay calls (ledger_of r db s)).0)
        × (ledger_of r db (serve r db calls s).1 ≡ (replay calls (ledger_of r db s)).1)
  unfolding serve replay AllAllowed
  serve-replay [] s h allowed = (refl, refl)
  serve-replay (call ∷ calls) s h (allowed, rest) =
      let one = call-Simulates call s h allowed in
      let end = (serve_one r db call s).1 in
      let (a, l) =
        serve-replay calls end one.fresh (subst (AllAllowed calls) (sym one.leaves) rest) in
      (
        ap₂ (◌∷◌) one.answers (a ∙ ap (λ m. (replay calls m).0) one.leaves),
        l ∙ ap (λ m. (replay calls m).1) one.leaves,
      )

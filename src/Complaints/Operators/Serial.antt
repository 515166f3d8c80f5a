-- ===== src/Complaints/Operators/Serial.antt =====
-- Operators at work at once do what some order of their requests, one after the other, does.
use mathlib.Core.Path.{subst}
use civic_pulse_24i3089_24i.Prelude.{
  ℕ, ◌≡◌, refl, sym, ap, ◌∙◌, true, false, none, some, List, [], ◌∷◌, ◌++◌, map,
}
use civic_pulse_24i3089_24i.Domain.{Status, can_transition}
use civic_pulse_24i3089_24i.Exceptions.{Result}
use civic_pulse_24i3089_24i.Cache.{Redis}
use civic_pulse_24i3089_24i.Repository.{Complaint, Database, find_row}
use civic_pulse_24i3089_24i.Repository.Sessions.{IsDatabase, update_row}
use civic_pulse_24i3089_24i.Complaints.{Place, change_status}
use civic_pulse_24i3089_24i.Complaints.Transitions.{
  Outcome, missing, refused, changed, IsFresh, change-IsFresh, change_status-Outcome,
}
use civic_pulse_24i3089_24i.Complaints.History.{Request, change_all}
use civic_pulse_24i3089_24i.Complaints.Operators.{
  Progress, Office, find_none, lock, refuse, flush, go_through, roll_back, Reach, start, later,
  flushed,
}
use civic_pulse_24i3089_24i.Complaints.Operators.Exclusion.{IsCurrent, Reach-Inv}

-- The rows after requests that are all granted, one after the other.
data Granted (rows : List Complaint) : List Request → List Complaint → Type 0 where
  nothing : Granted rows [] rows
  one_more :
      {qs : List Request} {now : List Complaint} (q : Request) (c : Complaint)
      → Granted rows qs now
      → find_row q.id now ≡ some c
      → can_transition c.status q.target ≡ true
      → Granted rows (qs ++ q ∷ []) (map (update_row q.id q.target q.now) now)

flushed_now :
    (q : Request) (rows : List Complaint) (c : Complaint) {p : Progress}
    → p ≡ flushed c
    → IsCurrent q rows p
    → (find_row q.id rows ≡ some c) × (can_transition c.status q.target ≡ true)
flushed_now q rows c e h = subst (IsCurrent q rows) e h

served-Granted :
    (request : ℕ → Request) (n : ℕ) {rows : List Complaint} {s : Office}
    → Reach request n rows s
    → Granted rows s.served s.rows
served-Granted request n start = nothing
served-Granted request n (later r (find_none i lt e none_)) = served-Granted request n r
served-Granted request n (later r (lock i c lt e free found)) = served-Granted request n r
served-Granted request n (later r (refuse i c lt e barred)) = served-Granted request n r
served-Granted request n (later r (flush i c lt e allowed)) = served-Granted request n r
served-Granted request n (later r (roll_back i x lt h)) = served-Granted request n r
served-Granted request n (later {s} r (go_through i c lt e)) =
    let (found, allowed) = flushed_now (request i) s.rows c e ((Reach-Inv request n r).current i) in
    one_more (request i) c (served-Granted request n r) found allowed

some-none : {c : Complaint} → some c ≡ none → ⊥
some-none e = cc

barred_twice :
    (d c : Complaint) (target : Status)
    → some d ≡ some c
    → can_transition d.status target ≡ false
    → can_transition c.status target ≡ true
    → ⊥
barred_twice d c target same barred allowed = let e : d ≡ c = cc in cc

module _ (r : Redis) {N : Type 0} (db : Database) where
  change_all-append :
      (qs : List Request) (q : Request) (p : Place r N db)
      → change_all r db (qs ++ q ∷ []) p
        ≡ (change_status r db q.id q.target q.now (change_all r db qs p)).1
  unfolding change_all
  change_all-append [] q p = refl
  change_all-append (o ∷ qs) q p = change_all-append qs q _

  module _ (laws : IsDatabase db) where
    -- A granted request leaves the rows that its update gives.
    granted_rows :
        (q : Request) (c : Complaint) (p : Place r N db) (end : Result Complaint × Place r N db)
        → IsFresh r db laws p
        → find_row q.id (db.committed p.session) ≡ some c
        → can_transition c.status q.target ≡ true
        → Outcome r db laws q.id q.target q.now p end
        → db.committed end.1.session ≡ map (update_row q.id q.target q.now) (db.committed p.session)
    granted_rows q c p end fresh found allowed (missing absent e same) =
        absurd (some-none (sym found ∙ ap (find_row q.id) (sym fresh) ∙ absent))
    granted_rows q c p end fresh found allowed (refused d found' barred e w k l) =
        let same : some d ≡ some c = sym found' ∙ ap (find_row q.id) fresh ∙ found in
        absurd (barred_twice d c q.target same barred allowed)
    granted_rows q c p end fresh found allowed (changed d found' allowed' e w k l) =
        k ∙ ap (map (update_row q.id q.target q.now)) fresh

    Granted-change_all :
        (p : Place r N db) {qs : List Request} {now : List Complaint}
        → IsFresh r db laws p
        → Granted (db.committed p.session) qs now
        → IsFresh r db laws (change_all r db qs p)
          × (db.committed (change_all r db qs p).session ≡ now)
    unfolding change_all
    Granted-change_all p fresh nothing = (fresh, refl)
    Granted-change_all p fresh (one_more {qs} {now} q c g found allowed) =
        let (fresh', e) = Granted-change_all p fresh g in
        let before = change_all r db qs p in
        let o = change_status-Outcome r db laws q.id q.target q.now before in
        let end = change_status r db q.id q.target q.now before in
        rw (change_all-append qs q p) (
          change-IsFresh r db laws q.id q.target q.now before end fresh' o,
          granted_rows q c before end fresh' (ap (find_row q.id) e ∙ found) allowed o
              ∙ ap (map (update_row q.id q.target q.now)) e,
        )

    -- On a database that carries out its statements: however the statements of any number of
    -- operators interleave, and whichever of them are rolled back, the committed rows are those
    -- that `change_status` leaves when the requests that went through run one after the other, in
    -- the order of their commits, from a session that sees what was committed at the start.
    pub served-change_all :
        (request : ℕ → Request) (n : ℕ) (p : Place r N db) (s : Office)
        → IsFresh r db laws p
        → Reach request n (db.committed p.session) s
        → db.committed (change_all r db s.served p).session ≡ s.rows
    served-change_all request n p s fresh run =
        (Granted-change_all p fresh (served-Granted request n run)).1

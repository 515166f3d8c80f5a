-- ===== src/Complaints/Ledger.antt =====
-- What a client sees of the complaints: a ledger that holds one complaint for an id or none, and the
-- calls that store, fetch and change one. The rows, their order and the session are forgotten.
pub mod Replay
use mathlib.Core.Path.{ap₂, fun_ext, subst}
use mathlib.Core.Option
use civic_pulse_24i3089_24i.Prelude.{
  ℕ, ◌≡◌, refl, sym, ap, ◌∙◌, inl, inr, Bool, true, false, Option, none, some, List, [], ◌∷◌, map,
  arith, ◌==◌, ==_iff, if◌then◌else◌, Bool-cases, Option-cases,
}
use civic_pulse_24i3089_24i.Text.{codes}
use civic_pulse_24i3089_24i.Domain.{Status, can_transition}
use civic_pulse_24i3089_24i.Exceptions.{Result, ok, err, not_found, invalid_transition}
use civic_pulse_24i3089_24i.Cache.{Redis}
use civic_pulse_24i3089_24i.Repository
use civic_pulse_24i3089_24i.Repository.{Complaint, Database, find_row}
use civic_pulse_24i3089_24i.Repository.Sessions.{IsDatabase, IsRow, update_row}
use civic_pulse_24i3089_24i.Complaints.{Place, moved, store, get, change_status}
use civic_pulse_24i3089_24i.Complaints.Transitions.{
  Outcome, missing, refused, changed, IsFresh, change-IsFresh, change_status-Outcome, find_row-map,
  find_row-id,
}
use civic_pulse_24i3089_24i.Complaints.History.{Request, update_row_other}
use civic_pulse_24i3089_24i.Complaints.Creation.{store_lem}

abbrev pub Ledger : Type 0
Ledger = ℕ → Option Complaint

abbrev pub entered : ℕ → Complaint → Ledger → Ledger
entered id c m j = if id == j then some c else m j

pub data Call : Type 0 where
  post : Complaint → Call
  fetch : ℕ → Call
  change : Request → Call

-- What each call means for the ledger.
abbrev pub fetched : Option Complaint → Result Complaint
fetched none = err (not_found (codes "complaint"))
fetched (some c) = ok c

abbrev pub changed_to : Request → Option Complaint → Ledger → Result Complaint × Ledger
changed_to q none m = (err (not_found (codes "complaint")), m)
changed_to q (some c) m =
    if can_transition c.status q.target
    then (ok (moved c q.target q.now), entered q.id (moved c q.target q.now) m)
    else (err (invalid_transition c.status q.target), m)

unfoldable pub answer : Call → Ledger → Result Complaint × Ledger
answer (post c) m = (ok c, entered c.id c m)
answer (fetch id) m = (fetched (m id), m)
answer (change q) m = changed_to q (m q.id) m

unfoldable pub replay : List Call → Ledger → List (Result Complaint) × Ledger
unfolding answer
replay [] m = ([], m)
replay (call ∷ calls) m =
    let (a, m') = answer call m in let (others, end) = replay calls m' in (a ∷ others, end)

-- A complaint that is stored fits the table and has a new id.
abbrev pub Allowed : Call → Ledger → Type 0
Allowed (post c) m = IsRow c × (m c.id ≡ none)
Allowed (fetch id) m = Unit
Allowed (change q) m = Unit

unfoldable pub AllAllowed : List Call → Ledger → Type 0
AllAllowed [] m = Unit
AllAllowed (call ∷ calls) m = Allowed call m × AllAllowed calls (answer call m).1

abbrev pub view : List Complaint → Ledger
view rows id = find_row id rows

module _ (r : Redis) {N : Type 0} (db : Database) where
  -- The calls on the service.
  abbrev pub serve_one : Call → Place r N db → Result Complaint × Place r N db
  serve_one (post c) s = store r db c s
  serve_one (fetch id) s = get r db id s
  serve_one (change q) s = change_status r db q.id q.target q.now s

  unfoldable pub serve : List Call → Place r N db → List (Result Complaint) × Place r N db
  serve [] s = ([], s)
  serve (call ∷ calls) s =
      let (a, s') = serve_one call s in let (others, end) = serve calls s' in (a ∷ others, end)

  abbrev pub ledger_of : Place r N db → Ledger
  ledger_of s = view (db.committed s.session)

-- ===== src/Http/Changes.antt =====
-- The route that changes a status: what it answers, and what is committed by then.
use civic_pulse_24i3089_24i.Prelude.{ℕ, ◌≡◌, refl, ap, ◌∙◌, true, false, none, some, map}
use civic_pulse_24i3089_24i.Text.{Str, codes}
use civic_pulse_24i3089_24i.Domain.{Status, can_transition}
use civic_pulse_24i3089_24i.Exceptions.{Exn, Result, ok, err, not_found, invalid_transition}
use civic_pulse_24i3089_24i.Json.{Json}
use civic_pulse_24i3089_24i.Schemas.Body.{Loc}
use civic_pulse_24i3089_24i.Cache.{Redis}
use civic_pulse_24i3089_24i.Repository.{Complaint, Database, find_row}
use civic_pulse_24i3089_24i.Repository.Sessions.{IsDatabase, update_row}
use civic_pulse_24i3089_24i.Complaints
use civic_pulse_24i3089_24i.Complaints.{Place, moved, with_repository}
use civic_pulse_24i3089_24i.Complaints.Transitions.{
  Outcome, missing, refused, changed, change_status-Outcome,
}
use civic_pulse_24i3089_24i.Http.{
  responds, complaint_out, error_body, transition_error, transition_message, plain, to_out, handle,
}
use civic_pulse_24i3089_24i.Http.Routes.{
  Handled, read_update, found, respond, answer, change_read, change_status,
}

respond_err : (m : Result Complaint) (e : Exn) → m ≡ err e → respond 200 m ≡ handle e
unfolding respond
respond_err (ok c) e h = cc
respond_err (err x) e h = let same : x ≡ e = cc h in rw same refl

respond_ok :
    (m : Result Complaint) (c : Complaint)
    → m ≡ ok c
    → respond 200 m ≡ responds (plain 200 (complaint_out (to_out c)))
unfolding respond
respond_ok (ok d) c h = let same : d ≡ c = cc h in rw same refl
respond_ok (err x) c h = cc

module _ (message : Loc → Str) (r : Redis) {N : Type 0} (db : Database) (laws : IsDatabase db) where
  -- The three responses to a well-formed request, each with its case and with what is committed.
  pub data Answered (id : ℕ) (target : Status) (now : ℕ) (s : Place r N db) (end : Handled r N db)
      : Type 0 where
    unknown :
        find_row id (db.rows s.session) ≡ none
        → end.0 ≡ responds (plain 404 (error_body (codes "complaint not found")))
        → db.committed end.1.session ≡ db.committed s.session
        → Answered id target now s end
    conflict :
        (c : Complaint)
        → find_row id (db.rows s.session) ≡ some c
        → can_transition c.status target ≡ false
        → end.0
          ≡ responds
              (plain 409 (transition_error (transition_message c.status target) c.status target))
        → db.committed end.1.session ≡ db.committed s.session
        → Answered id target now s end
    done :
        (c : Complaint)
        → find_row id (db.rows s.session) ≡ some c
        → can_transition c.status target ≡ true
        → end.0 ≡ responds (plain 200 (complaint_out (to_out (moved c target now))))
        → db.committed end.1.session ≡ map (update_row id target now) (db.rows s.session)
        → Answered id target now s end

  -- Rolling back after an error changes nothing that is committed, and no answer.
  kept-committed :
      (m : Result Complaint × Place r N db)
      → db.committed (with_repository r db m).1.session ≡ db.committed m.1.session
  kept-committed (ok c, s) = refl
  kept-committed (err e, s) = laws.rollback-committed s.session

  kept_answer : (m : Result Complaint × Place r N db) → (with_repository r db m).0 ≡ m.0
  kept_answer (ok c, s) = refl
  kept_answer (err e, s) = refl

  Outcome-Answered :
      (id : ℕ) (target : Status) (now : ℕ) (s : Place r N db) (m : Result Complaint × Place r N db)
      → Outcome r db laws id target now s m
      → Answered id target now s (answer message r db 200 (with_repository r db m))
  unfolding handle
  Outcome-Answered id target now s m (missing absent e same) =
      unknown absent
        (respond_err (with_repository r db m).0 (not_found (codes "complaint")) (kept_answer m ∙ e))
        (kept-committed m ∙ ap (λ (t : Place r N db). db.committed t.session) same)
  Outcome-Answered id target now s m (refused c there barred e w k l) =
      conflict c there barred
        (respond_err (with_repository r db m).0 (invalid_transition c.status target)
          (kept_answer m ∙ e))
        (kept-committed m ∙ k)
  Outcome-Answered id target now s m (changed c there allowed e w k l) =
      done c there allowed
        (respond_ok (with_repository r db m).0 (moved c target now) (kept_answer m ∙ e))
        (kept-committed m ∙ k)

  -- On a database that carries out its statements, a request to change a status whose body reads
  -- as a status is answered 404 where no row has the id, 409 with both statuses and the message
  -- where the table does not list the transition, and else 200 with the complaint in its new
  -- status; only in the last case is anything committed, and then the update of the rows with the
  -- id.
  pub change_status-Answered :
      (id : ℕ) (body : Json) (target : Status) (now : ℕ) (s : Place r N db)
      → read_update body ≡ found target
      → Answered id target now s (change_status message r db (some id) body now s)
  unfolding change_status change_read
  change_status-Answered id body target now s h =
      rw (h, change_read)
        (Outcome-Answered id target now s (Complaints.change_status r db id target now s)
          (change_status-Outcome r db laws id target now s))

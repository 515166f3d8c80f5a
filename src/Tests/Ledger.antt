-- ===== src/Tests/Ledger.antt =====
-- Calls on the complaint service and on the ledger, and the table of the migration.
use civic_pulse_24i3089_24i.Prelude.{◌≡◌, refl, List, [], ◌∷◌, arith}
use civic_pulse_24i3089_24i.Text.{codes}
use civic_pulse_24i3089_24i.Domain.{can_transition, rejected, in_progress}
use civic_pulse_24i3089_24i.Exceptions.{ok, err, not_found, invalid_transition}
use civic_pulse_24i3089_24i.Complaints
use civic_pulse_24i3089_24i.Repository
use civic_pulse_24i3089_24i.Repository.{Complaint, find_row}
use civic_pulse_24i3089_24i.Repository.Sessions.{IsRow}
use civic_pulse_24i3089_24i.Complaints.{
  moved, change_status, store, advance, commit_then_invalidate,
}
use civic_pulse_24i3089_24i.Complaints.Ledger.{
  Call, post, fetch, change, answer, replay, AllAllowed, serve, ledger_of,
}
use civic_pulse_24i3089_24i.Complaints.Ledger.Replay.{serve-replay}
use civic_pulse_24i3089_24i.Tests.World.{leak, redis, database, database-IsDatabase, place}

abbrev second : Complaint
second = record leak { id = 8 }

second-IsRow : IsRow second
second-IsRow = record {
  text_long = omega arith;
  text_short = omega arith;
  location_long = omega arith;
  location_short = omega arith;
  contact_short = λ s e. cc;
  summary_short = λ s e. (let z : codes "Burst pipe" ≡ s = cc e in rw (← z) (omega arith));
  name_short = omega arith;
  latency_small = omega arith;
  text_clean = refl;
  location_clean = refl;
  contact_clean = λ s e. cc;
  summary_clean = λ s e. (let z : codes "Burst pipe" ≡ s = cc e in rw (← z) refl);
  name_clean = refl;
}

abbrev calls : List Call
calls =
    change (record { id = 7; target = rejected; now = 50 })
    ∷ change (record { id = 7; target = in_progress; now = 51 })
    ∷ post second
    ∷ fetch 8
    ∷ fetch 9
    ∷ []

calls_answered :
    (serve redis database calls place).0
    ≡ ok (moved leak rejected 50)
      ∷ err (invalid_transition rejected in_progress)
      ∷ ok second
      ∷ ok second
      ∷ err (not_found (codes "complaint"))
      ∷ []
unfolding serve change_status store Complaints.get can_transition advance Repository.set_status
    commit_then_invalidate Repository.add
calls_answered = refl

serve-replay_example :
    ((serve redis database calls place).0 ≡ (replay calls (ledger_of redis database place)).0)
    × (ledger_of redis database (serve redis database calls place).1
        ≡ (replay calls (ledger_of redis database place)).1)
unfolding AllAllowed answer find_row can_transition
serve-replay_example =
    serve-replay redis database database-IsDatabase calls place refl
      (tt, (tt, ((second-IsRow, refl), (tt, (tt, tt)))))

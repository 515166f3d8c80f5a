-- ===== src/Tests/Service.antt =====
-- Runs of the complaint, triage and statistics services.
use civic_pulse_24i3089_24i.Prelude.{
  ℕ, ◌≡◌, refl, true, false, none, some, List, [], ◌∷◌, inr, arith,
}
use civic_pulse_24i3089_24i.Text.{Str, ◌===◌, codes, strip, lstrip, rstrip, split_from, is_space}
use civic_pulse_24i3089_24i.Text.Number.{show}
use civic_pulse_24i3089_24i.Domain.{Status, open_, in_progress, resolved}
use civic_pulse_24i3089_24i.Domain.Machine.{Reach}
use civic_pulse_24i3089_24i.Exceptions.{
  Result, ok, err, triage_timeout, type_error, validation_error, class_name,
}
use civic_pulse_24i3089_24i.Schemas.Body.{ComplaintCreate}
use civic_pulse_24i3089_24i.Cache
use civic_pulse_24i3089_24i.Repository.{find_row}
use civic_pulse_24i3089_24i.Triage
use civic_pulse_24i3089_24i.Triage.{
  World, TriageOutcome, Provider, content_hash, fallback_name, latency, fell_back, cache_miss,
  misses_key, record_outcome,
}
use civic_pulse_24i3089_24i.Triage.{recent_entry}
use civic_pulse_24i3089_24i.Cache.{load_all}
use civic_pulse_24i3089_24i.Triage.Outcomes.{triage-Returns}
use civic_pulse_24i3089_24i.Triage.Recovery.{fallen, answered, fails-answers}
use civic_pulse_24i3089_24i.Triage.{entry}
use civic_pulse_24i3089_24i.Triage.Caching.{duplicate_hits, key_of}
use civic_pulse_24i3089_24i.Triage.Poisoned.{flat_list, triage-IsUnusable}
use civic_pulse_24i3089_24i.Json.{arr, nil}
use civic_pulse_24i3089_24i.Triage.Validity.{rules_provider}
use civic_pulse_24i3089_24i.Complaints.{create, change_status}
use civic_pulse_24i3089_24i.Complaints.Transitions.{Outcome, change_status-Outcome}
use civic_pulse_24i3089_24i.Complaints.History.{Request, change_all, status_of, change_all-Reach}
use civic_pulse_24i3089_24i.Complaints.Creation.{create_raises}
use civic_pulse_24i3089_24i.Tests.World.{
  pydantic, Memory, redis, server, database, database-IsDatabase, leak_text, memory, world, place,
  broken, working, burst, burst-IsValid,
}

change_status-Outcome_example :
    Outcome redis database database-IsDatabase 7 in_progress 50 place
      (change_status redis database 7 in_progress 50 place)
change_status-Outcome_example =
    change_status-Outcome redis database database-IsDatabase 7 in_progress 50 place

abbrev requests : List Request
requests =
    record { id = 7; target = in_progress; now = 50 }
    ∷ record { id = 7; target = open_; now = 60 }
    ∷ record { id = 7; target = resolved; now = 70 }
    ∷ []

change_all-Reach_example :
    (y : Status) × (n : ℕ) × (status_of redis database database-IsDatabase 7
        (change_all redis database requests place)
      ≡ some y)
    × Reach open_ y n
unfolding find_row
change_all-Reach_example =
    change_all-Reach redis database database-IsDatabase requests 7 open_ place refl refl

abbrev id_of : Str → Str
id_of s = s

abbrev two_lines : ComplaintCreate
two_lines = record {
  text = leak_text;
  location = codes "Block 5\nPhase 2";
  reporter_contact = none;
}

create_raises_example :
    ((create pydantic id_of id_of show redis database broken
        (rules_provider Unit id_of)
        60
        8
        two_lines
        12
        (codes "now")
        50
        place).0
      ≡ err validation_error)
    × ((create pydantic id_of id_of show redis database broken
          (rules_provider Unit id_of)
          60
          8
          two_lines
          12
          (codes "now")
          50
          place).1.session
        ≡ place.session)
unfolding strip Cache.get rstrip lstrip is_space
create_raises_example =
    create_raises pydantic id_of id_of show redis database broken 60 8 two_lines 12 (codes "now") 50
      place triage_timeout tt refl refl refl (omega arith)

abbrev answering : Provider (Unit {0})
answering = record { name = codes "rules"; run = λ text location n. (ok burst, n) }

abbrev run_with :
    Provider (Unit {0}) → World Memory (Unit {0}) → Result TriageOutcome × World Memory (Unit {0})
run_with provider =
    Triage.triage pydantic id_of id_of redis provider answering 60 (codes "8") leak_text
      (codes "Block 5") 12 (codes "now")

triage-Returns_example : (o : TriageOutcome) × ((run_with broken world).0 ≡ ok o)
unfolding Cache.get
triage-Returns_example =
    triage-Returns pydantic id_of id_of redis broken answering 60 (codes "8") leak_text
      (codes "Block 5") 12 (codes "now") (λ n. (burst, refl)) world tt

abbrev fallen_outcome : TriageOutcome
fallen_outcome = record {
  result = burst;
  triaged_by = fallback_name;
  latency_ms = 12;
  fallback = true;
  cached = false;
  error = some (class_name triage_timeout);
}

-- the same words, spaced otherwise
abbrev respaced : Str
respaced = codes "Water  pipe burst in the main street "

abbrev run_again :
    Provider (Unit {0}) → World Memory (Unit {0}) → Result TriageOutcome × World Memory (Unit {0})
run_again provider =
    Triage.triage pydantic id_of id_of redis provider answering 60 (codes "9") respaced
      (codes "Block 5") 3 (codes "later")

abbrev after_failure : World Memory (Unit {0})
after_failure = record world { cache = (run_with broken world).1.cache }

fails-answers_example :
    ((run_with broken world).0 ≡ ok (fallen burst 12 triage_timeout))
    × ((run_with broken world).1.cache.text (key_of id_of id_of leak_text (codes "Block 5")) ≡ none)
    × ((run_again working after_failure).0 ≡ ok (answered burst (codes "llm:groq-api") 3))
    × ((run_again working after_failure).1.cache.text
          (key_of id_of id_of respaced (codes "Block 5"))
        ≡ some (entry burst (codes "llm:groq-api")))
unfolding content_hash split_from is_space
fails-answers_example =
    fails-answers redis server pydantic id_of id_of 60 broken answering working answering
      (codes "8") leak_text (codes "Block 5") 12 (codes "now") (codes "9") respaced
      (codes "Block 5") 3 (codes "later") world after_failure triage_timeout tt tt tt burst burst
      refl refl refl refl refl refl refl

duplicate_hits_example :
    let v : World Memory (Unit {0}) = record world { cache = (run_with working world).1.cache } in
    let end =
      Triage.triage pydantic id_of id_of redis broken answering 60
        (codes "9")
        respaced
        (codes "Block 5")
        3
        (codes "later")
        v in
    (end.0
      ≡ ok (record {
        result = burst;
        triaged_by = codes "llm:groq-api";
        latency_ms = 3;
        fallback = false;
        cached = true;
        error = none;
      }))
    × (end.1.net ≡ tt)
unfolding content_hash split_from is_space
duplicate_hits_example =
    duplicate_hits redis server pydantic id_of id_of working answering broken answering 60 60
      (codes "8") leak_text (codes "Block 5") 12 (codes "now") (codes "9") respaced
      (codes "Block 5") 3 (codes "later") world
      (record world { cache = (run_with working world).1.cache }) burst tt refl refl refl refl
      burst-IsValid refl

abbrev working_outcome : TriageOutcome
working_outcome = record fallen_outcome {
  triaged_by = codes "llm:groq-api";
  fallback = false;
  error = none;
}

-- a list under the key of the complaint
abbrev poisoned_world : World Memory (Unit {0})
poisoned_world = record world {
  cache = Cache.set redis (key_of id_of id_of leak_text (codes "Block 5")) (arr nil) 60 memory;
}

triage-IsUnusable_example :
    Triage.triage pydantic id_of id_of redis working answering 60
      (codes "8")
      leak_text
      (codes "Block 5")
      12
      (codes "now")
      poisoned_world
    ≡ (err type_error, poisoned_world)
unfolding Cache.set content_hash split_from is_space ◌===◌
triage-IsUnusable_example =
    triage-IsUnusable redis server pydantic id_of id_of working answering 60 (codes "8") leak_text
      (codes "Block 5") 12 (codes "now") poisoned_world (arr nil) type_error refl refl
      (inr (arr nil, refl, flat_list nil, refl))

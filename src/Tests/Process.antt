-- ===== src/Tests/Process.antt =====
-- The process from its start to its end, and its log.
use civic_pulse_24i3089_24i.Prelude.{
  ℕ, ◌+◌, ◌≡◌, refl, true, false, none, some, List, [], ◌∷◌, map, All,
}
use civic_pulse_24i3089_24i.Text.{Str, codes, lstrip, rstrip, is_space}
use civic_pulse_24i3089_24i.Health
use civic_pulse_24i3089_24i.Health.{Readiness}
use civic_pulse_24i3089_24i.Process
use civic_pulse_24i3089_24i.Process.{
  Container, Process, Event, startup, signal, probe, shutdown, run, build_container,
  default_settings, stripped, cors_origin_list,
}
use civic_pulse_24i3089_24i.Process.Draining.{IsTurnedAway, signal-IsTurnedAway}
use civic_pulse_24i3089_24i.Process.Logging.{Logger, Loggers, own}
use civic_pulse_24i3089_24i.Tests.World.{redis, database, world, place}

-- uvicorn, as the number of signals that it got
abbrev exit_once : ℕ → ℕ → ℕ
exit_once sig n = n + 1

abbrev started : Process ℕ
started = record { container = some (build_container default_settings); server = 0 }

abbrev ask : Event exit_once redis database
ask = probe place.session world.cache

abbrev life : List (Event exit_once redis database)
life = ask ∷ signal 2 ∷ shutdown ∷ ask ∷ []

probes_run :
    map (λ a. a.status_code) (run exit_once redis database (ask ∷ signal 15 ∷ life) started).0
    ≡ 200 ∷ 503 ∷ 503 ∷ []
unfolding run Health.ready Process.close
probes_run = refl

origins_run :
    cors_origin_list (record default_settings { cors_origins = codes " http://a , ,http://b" })
    ≡ codes "http://a" ∷ codes "http://b" ∷ []
unfolding cors_origin_list rstrip lstrip is_space
origins_run = refl

signal-IsTurnedAway_example :
    All IsTurnedAway (run exit_once redis database (signal 15 ∷ life) started).0
    × ((k : Container) × ((run exit_once redis database (signal 15 ∷ life) started).1.container
          ≡ some k)
        × (k.draining ≡ true))
signal-IsTurnedAway_example =
    signal-IsTurnedAway exit_once redis database 15 life (build_container default_settings) started
      refl refl

abbrev plain : Logger
plain = record {
  handlers = record { name = none; json_lines = false } ∷ own ∷ [];
  level = codes "DEBUG";
  propagate = false;
  disabled = false;
}

abbrev loggers : Loggers
loggers = record {
  root = plain;
  uvicorn = plain;
  uvicorn_error = plain;
  uvicorn_access = plain;
  httpx = plain;
}

abbrev same : Str → Str
same s = s

-- ===== src/Tests/Providers.antt =====
-- Runs of the provider selection and of the readiness check.
use civic_pulse_24i3089_24i.Prelude.{ℕ, ◌≡◌, ◌↔◌, refl, false, some, []}
use civic_pulse_24i3089_24i.Text.{Str, codes, ◌===◌, is_space}
use civic_pulse_24i3089_24i.Json.{subscript, find_field, has_only, decimal}
use civic_pulse_24i3089_24i.Schemas.{model_validate}
use civic_pulse_24i3089_24i.Schemas.Laws.{IsValid}
use civic_pulse_24i3089_24i.Llm.{Reply, response}
use civic_pulse_24i3089_24i.Health.{is_ready, down, ready, IsUp, ready-IsUp_iff}
use civic_pulse_24i3089_24i.Selection.{
  Settings, Request, choose_ollama, no_failure, build_provider, simulated_confidence,
  halved_hundredths,
}
use civic_pulse_24i3089_24i.Selection.Choices.{build_provider-IsValid}
use civic_pulse_24i3089_24i.Tests.World.{pydantic, redis, database, memory, burst, Table}
use civic_pulse_24i3089_24i.Tests.Answers.{is_word, loads, repr, envelope}
use civic_pulse_24i3089_24i.Prelude.{arith, none, ◌&&◌, true}
use civic_pulse_24i3089_24i.Domain.{other}
use civic_pulse_24i3089_24i.Text.{strip, lstrip, rstrip}
use civic_pulse_24i3089_24i.Text.Number.{show}
use civic_pulse_24i3089_24i.Schemas.Body.{ComplaintCreate, IsStorable}
use civic_pulse_24i3089_24i.Cache
use civic_pulse_24i3089_24i.Repository.{find_row}
use civic_pulse_24i3089_24i.Llm.{timed_out}
use civic_pulse_24i3089_24i.Triage.{Provider}
use civic_pulse_24i3089_24i.Triage.Validity.{rules_provider}
use civic_pulse_24i3089_24i.Complaints.{create}
use civic_pulse_24i3089_24i.Complaints.Creation.{IsClean, IsCreated}
use civic_pulse_24i3089_24i.Complaints.Promise.{provider_of, create_with_selected}
use civic_pulse_24i3089_24i.Tests.World.{database-IsDatabase, leak_text, place}

abbrev no_rows : Table
no_rows = record { rows = []; committed = [] }

ready-IsUp_iff_example :
    (((ready redis database false no_rows memory).0.status_code ≡ 200)
      ↔ IsUp redis database false no_rows memory)
    × (IsUp redis database false no_rows memory
        → (ready redis database false no_rows memory).0 ≡ is_ready redis database)
    × (false ≡ true
        → (ready redis database false no_rows memory).0
          ≡ record { status_code = 503; status = codes "draining"; failed = [] })
    × (false ≡ false
        → (database.ping no_rows && (Cache.ping redis memory).0) ≡ false
        → (ready redis database false no_rows memory).0 ≡ record {
          status_code = 503;
          status = codes "unready";
          failed = down redis database (database.ping no_rows) (Cache.ping redis memory).0;
        })
ready-IsUp_iff_example = ready-IsUp_iff redis database false no_rows memory

abbrev settings : Settings
settings = record {
  triage_provider = choose_ollama;
  llm_base_url = codes "https://api.groq.com/openai/v1";
  llm_model = codes "llama-3.1-8b-instant";
  llm_api_key = [];
  llm_provider_label = codes "groq-api";
  ollama_base_url = codes "http://ollama:11434";
  ollama_model = codes "llama3.2:1b";
  simulated_failure_mode = no_failure;
}

abbrev same_text : Str → Str
same_text s = s

abbrev first_byte : Str → ℕ
first_byte text = 200

-- Two rounds of the simulated provider's confidence, as Python has them.
halved_run : simulated_confidence other 200 ≡ decimal 43 2
unfolding simulated_confidence
halved_run = refl

tie_run : halved_hundredths 61 ≡ 30
unfolding halved_hundredths
tie_run = refl

-- a model that always gives the same response
abbrev post : Request → ℕ → Reply × ℕ
post q n = (response 200 (some envelope), n)

abbrev no_sleep : ℕ → ℕ → ℕ
no_sleep seconds n = n

build_provider-IsValid_example : IsValid burst
unfolding build_provider subscript find_field ◌===◌ model_validate has_only is_space
build_provider-IsValid_example =
    build_provider-IsValid pydantic loads same_text first_byte (λ text. omega arith) is_word repr
      post no_sleep settings (codes "x") (codes "y") 0 burst refl

abbrev report : ComplaintCreate
report = record { text = leak_text; location = codes "Block 5"; reporter_contact = none }

report-IsStorable : IsStorable report
report-IsStorable = record {
  text_long = omega arith;
  text_short = omega arith;
  location_long = omega arith;
  location_short = omega arith;
  contact_short = λ s e. cc;
  contact_full = λ e. cc;
}

report-IsClean : IsClean report
report-IsClean = record { text = refl; location = refl; contact = λ s e. cc }

-- a model that cannot be reached
abbrev no_post : Request → Unit {0} → Reply × Unit {0}
no_post q n = (timed_out, n)

abbrev rest : ℕ → Unit {0} → Unit {0}
rest seconds n = n

abbrev selected_provider : Provider (Unit {0})
selected_provider =
    provider_of pydantic loads same_text first_byte is_word repr no_post rest settings

create_with_selected_example :
    IsCreated pydantic same_text same_text show redis database selected_provider 60 8 report 12
      (codes "now")
      50
      place
      (create pydantic same_text same_text show redis database selected_provider
        (rules_provider Unit same_text)
        60
        8
        report
        12
        (codes "now")
        50
        place)
unfolding strip lstrip rstrip is_space find_row Cache.get build_provider
create_with_selected_example =
    create_with_selected pydantic loads same_text first_byte is_word repr no_post rest
      (λ text. omega arith) same_text show redis database database-IsDatabase 60 settings 8 report
      12 (codes "now") 50 place report-IsStorable report-IsClean refl (omega arith) refl
      (omega arith) refl refl (λ n t h. cc h)

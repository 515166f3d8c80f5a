-- ===== src/Lib.antt =====
-- CivicPulse: citizens send complaints about public services, each is triaged by a language model
-- or by keyword rules, stored, and moved by operators through a small state machine.
--
-- The parts of the backend and the files that model them (paths from the repository's root):
--   Domain            backend/app/domain.py: enums, `TRANSITIONS`, `allowed_transitions`,
--                     `can_transition`, the text limits.
--   Exceptions        backend/app/providers/triage/base.py, backend/app/services/errors.py: the
--                     exceptions as one data type; a function that may raise returns a `Result`.
--   Json, Schemas     backend/app/schemas.py: `TriageResult` and its validator `one_line`, the dump
--                     to JSON, and (Schemas.Body) `ComplaintCreate` with its error locations.
--   Rules             backend/app/providers/triage/rules.py: `RuleBasedTriage.triage`; Rules.Words
--                     has the keyword tables.
--   Prompt            backend/app/providers/triage/prompt.py: `sanitize`, `build_user_prompt`,
--                     (Prompt.System) `SYSTEM_PROMPT` and (Prompt.Answer) `parse_triage_json`.
--   Llm               backend/app/providers/triage/llm.py and ollama.py: `_call_once` from the reply
--                     on, and the retry loop `triage`.
--   Cache             backend/app/providers/cache.py: `JsonCache` over a Redis client.
--   RateLimiter       the same file's `RateLimiter.hit`, and `client_ip` and `enforce_rate_limit` of
--                     backend/app/deps.py.
--   Triage            backend/app/services/triage_service.py: cache, provider, fallback.
--   Repository        backend/app/models.py and backend/app/repositories/complaint_repository.py.
--   Stats             backend/app/services/stats_service.py; Stats.Races has readers of the
--                     statistics, SELECT by SELECT, beside requests that commit and invalidate.
--   Complaints        backend/app/services/complaint_service.py, with the rollback of
--                     `Container.repository` (backend/app/container.py). Complaints.Operators has
--                     `change_status` as steps of several operators under the row lock, and
--                     Complaints.Ledger what a client sees of the service.
--   Http              backend/app/errors.py, backend/app/services/errors.py and (Http.Routes)
--                     backend/app/routes/complaints.py: responses as values; Http.Meta has the routes
--                     of stats.py and meta.py beside it.
--   Middleware        backend/app/middleware.py.
--   Selection         backend/app/providers/triage/factory.py and simulated.py, with the requests of
--                     llm.py and ollama.py.
--   Health            backend/app/services/health_service.py and backend/app/routes/health.py.
--   Seed              backend/app/seed.py; Seed.Data has its table, Seed.Seeders `main` of several
--                     processes under the advisory lock.
--   Migration         backend/alembic/versions/0001_create_complaints.py, both ways;
--                     Migration.Values says what its columns take.
--   Process           backend/app/config.py, db.py, container.py, main.py and server.py: how the
--                     process is built and drained; Process.Logging has logging_setup.py.
--   Submission        scripts/check_submission.py: a module for each group of its checks, their
--                     regular expressions, and (Submission.Report) `main`. Pattern is
--                     the part of Python's `re` that they use, run by backtracking; Pattern.Means
--                     says what a pattern means, and Pattern.Search relates the two.
-- Text and Prelude hold what the components share: texts as lists of code points with Python's
-- `strip`, `split` and substring test, decimal printing, Boolean tests and list lemmas. Tests holds
-- concrete instances of every parameter and runs on them.
--
-- How the parts interact: `create` runs the triage service, which reads the cache, asks the provider
-- and else the fallback, and records the outcome; then it writes through the repository, commits,
-- and drops the cached statistics. `change_status` reads the row, tests the table, and commits or
-- rolls back. The state is passed explicitly: `Triage.World` is the cache, the outside world and the
-- counted metrics, `Complaints.Site` adds the database session.
--
-- What is a parameter, since the program only calls it: the Redis client (`Cache.Redis`, with the
-- laws of a server that answers in Cache.Server), the database session (`Repository.Database`, laws
-- in Repository.Sessions), pydantic's own conversions (`Schemas.Pydantic`), `json.loads`, the HTTP
-- client, `str.lower`, SHA-256, UUIDs made from a text, the wording of validation errors, the word
-- characters of Unicode, uvicorn, the files and the git output that the submission check reads, and the
-- clock, which is read by the caller. A UUID is a number, a time of the database a number of
-- microseconds, a time of the rate limiter one of ticks of 2 ^ -22 seconds, which is what the float of
-- `time.time()` is from 2004 to 2038, a float of JSON a decimal. PostgreSQL is taken to store a text
-- that fits its column where it has neither U+0000 nor a surrogate (`Repository.Sessions.IsRow`).
--
-- Bounds: the retry loop counts down, over its `max_attempts` rounds, which is the bound that the
-- source gives it. The star of a regular expression counts down the length of the text, of which each
-- round reads a character, and the digits of a number the number itself. Every other loop is
-- structural recursion on a list.
--
-- Not modelled: expiry of Redis keys, concurrent misses of one complaint, the metric objects, the
-- context variable of the middleware, the calls of FastAPI and uvicorn themselves, the standard
-- runner of Alembic, the OpenAPI export, the frontend and the deployment.
pub mod Prelude
pub mod Text
pub mod Pattern
pub mod Submission
pub mod Domain
pub mod Exceptions
pub mod Json
pub mod Schemas
pub mod Rules
pub mod Prompt
pub mod Llm
pub mod Cache
pub mod RateLimiter
pub mod Triage
pub mod Repository
pub mod Migration
pub mod Stats
pub mod Complaints
pub mod Health
pub mod Middleware
pub mod Selection
pub mod Http
pub mod Process
pub mod Seed
pub mod Tests

-- ===== src/Tests.antt =====
-- Concrete instances of what the program is run with, and runs of its parts on them.
pub mod World
pub mod Codec
pub mod Service
pub mod Answers
pub mod Limits
pub mod Routes
pub mod Providers
pub mod Submission
pub mod Operators
pub mod Ledger
pub mod Process
pub mod Races
pub mod Seeders

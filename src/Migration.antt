-- ===== src/Migration.antt =====
-- backend/alembic/versions/0001_create_complaints.py: the statements of the migration, both ways,
-- and the table that it creates. A CHECK constraint of the table is kept as what it compares.
pub mod Values
pub mod Reading
pub mod Rows
use civic_pulse_24i3089_24i.Prelude.{ℕ, Bool, true, false, Option, none, some, List, [], ◌∷◌}
use civic_pulse_24i3089_24i.Text.{Str, codes}

pub data Kind : Type 0 where
  uuid : Kind
  text : Kind
  string : ℕ → Kind
  -- an ENUM type and its values
  enum : Str → List Str → Kind
  integer : Kind
  timestamp : Kind

pub record Column : Type 0 where
  pub name : Str
  pub kind : Kind
  pub nullable : Bool
  pub default : Option Str

pub data Check : Type 0 where
  -- `length(…) BETWEEN … AND …`
  length_between : Str → ℕ → ℕ → Check
  -- `… >= …`
  at_least : Str → ℕ → Check

pub record Table : Type 0 where
  pub name : Str
  pub key : Str
  pub columns : List Column
  pub checks : List Check

pub data Statement : Type 0 where
  create_enum : Kind → Statement
  drop_enum : Kind → Statement
  create_table : Table → Statement
  drop_table : Str → Statement
  create_index : Str → Str → List Str → Statement
  drop_index : Str → Str → Statement

abbrev pub category : Kind
category = enum (codes "complaint_category") (
    codes "water"
    ∷ codes "electricity"
    ∷ codes "sanitation"
    ∷ codes "roads"
    ∷ codes "streetlights"
    ∷ codes "other"
    ∷ [])

abbrev pub priority : Kind
priority = enum (codes "complaint_priority") (codes "high" ∷ codes "normal" ∷ codes "low" ∷ [])

abbrev pub status : Kind
status =
    enum (codes "complaint_status")
      (codes "open" ∷ codes "in_progress" ∷ codes "resolved" ∷ codes "rejected" ∷ [])

abbrev pub column : Str → Kind → Bool → Option Str → Column
column name kind nullable default = record {
  name = name;
  kind = kind;
  nullable = nullable;
  default = default;
}

abbrev pub complaints : Table
complaints = record {
  name = codes "complaints";
  key = codes "id";
  columns =
      column (codes "id") uuid false none
      ∷ column (codes "text") text false none
      ∷ column (codes "location") (string 200) false none
      ∷ column (codes "reporter_contact") (string 200) true none
      ∷ column (codes "category") category false none
      ∷ column (codes "priority") priority false none
      ∷ column (codes "status") status false (some (codes "open"))
      ∷ column (codes "ai_summary") (string 140) true none
      ∷ column (codes "triaged_by") (string 32) false none
      ∷ column (codes "triage_latency_ms") integer false none
      ∷ column (codes "created_at") timestamp false (some (codes "now()"))
      ∷ column (codes "updated_at") timestamp false (some (codes "now()"))
      ∷ [];
  checks =
      length_between (codes "text") 10 2000
      ∷ length_between (codes "location") 3 200
      ∷ at_least (codes "triage_latency_ms") 0
      ∷ [];
}

abbrev pub upgrade : List Statement
upgrade =
    create_enum category
    ∷ create_enum priority
    ∷ create_enum status
    ∷ create_table complaints
    ∷ create_index (codes "ix_complaints_status_priority") (codes "complaints")
        (codes "status" ∷ codes "priority" ∷ [])
    ∷ create_index (codes "ix_complaints_created_at") (codes "complaints") (codes "created_at" ∷ [])
    ∷ []

abbrev pub downgrade : List Statement
downgrade =
    drop_index (codes "ix_complaints_created_at") (codes "complaints")
    ∷ drop_index (codes "ix_complaints_status_priority") (codes "complaints")
    ∷ drop_table (codes "complaints")
    ∷ drop_enum status
    ∷ drop_enum priority
    ∷ drop_enum category
    ∷ []

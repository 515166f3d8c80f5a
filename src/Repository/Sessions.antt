-- ===== src/Repository/Sessions.antt =====
-- What the program relies on of its database: statements that go through have the effect that SQL
-- gives them, and a transaction is seen by others when it is committed.
use civic_pulse_24i3089_24i.Prelude.{
  ℕ, ◌≤◌, ◌<◌, ◌^◌, ◌≡◌, false, none, some, ◌∷◌, map, ◌==◌, if◌then◌else◌, length,
}
use civic_pulse_24i3089_24i.Text.{Str, has_unstorable}
use civic_pulse_24i3089_24i.Domain.{
  Status, summary_max, text_min, text_max, location_min, location_max, contact_max,
}
use civic_pulse_24i3089_24i.Exceptions.{ok}
use civic_pulse_24i3089_24i.Repository.{Complaint, Database, find_row}

-- The constraints of `__table_args__`, the widths of the columns, and what their types store.
pub record IsRow (c : Complaint) : Type 0 where
  pub text_long : text_min ≤ length c.text
  pub text_short : length c.text ≤ text_max
  pub location_long : location_min ≤ length c.location
  pub location_short : length c.location ≤ location_max
  pub contact_short : (s : Str) → c.reporter_contact ≡ some s → length s ≤ contact_max
  pub summary_short : (s : Str) → c.ai_summary ≡ some s → length s ≤ summary_max
  pub name_short : length c.triaged_by ≤ 32
  -- an INTEGER of PostgreSQL has 32 bits
  pub latency_small : c.triage_latency_ms < 2 ^ 31
  -- PostgreSQL refuses U+0000 and surrogates in a text
  pub text_clean : has_unstorable c.text ≡ false
  pub location_clean : has_unstorable c.location ≡ false
  pub contact_clean : (s : Str) → c.reporter_contact ≡ some s → has_unstorable s ≡ false
  pub summary_clean : (s : Str) → c.ai_summary ≡ some s → has_unstorable s ≡ false
  pub name_clean : has_unstorable c.triaged_by ≡ false

-- UPDATE complaints SET status = …, updated_at = … WHERE id = …
abbrev pub update_row : ℕ → Status → ℕ → Complaint → Complaint
update_row id status now c =
    if c.id == id then record c { status = status; updated_at = now } else c

pub record IsDatabase (db : Database) : Type 0 where
  pub insert-ok :
      (c : Complaint) (s : db.State)
      → IsRow c
      → find_row c.id (db.rows s) ≡ none
      → ((db.insert c s).0 ≡ ok tt)
        × (db.rows (db.insert c s).1 ≡ c ∷ db.rows s)
        × (db.committed (db.insert c s).1 ≡ db.committed s)
  pub update-ok :
      (id : ℕ) (status : Status) (now : ℕ) (s : db.State)
      → let end = db.update id status now s in
        (end.0 ≡ ok tt)
        × (db.rows end.1 ≡ map (update_row id status now) (db.rows s))
        × (db.committed end.1 ≡ db.committed s)
  pub commit-ok :
      (s : db.State)
      → ((db.commit s).0 ≡ ok tt)
        × (db.rows (db.commit s).1 ≡ db.rows s)
        × (db.committed (db.commit s).1 ≡ db.rows s)
  pub rollback-rows : (s : db.State) → db.rows (db.rollback s) ≡ db.committed s
  pub rollback-committed : (s : db.State) → db.committed (db.rollback s) ≡ db.committed s

-- ===== src/Migration/Rows.antt =====
-- Which rows the table of the migration takes, and that it goes back the way it came.
use mathlib.Core.List.{reverse}
use civic_pulse_24i3089_24i.Prelude.{◌≡◌, refl, List, map, All}
use civic_pulse_24i3089_24i.Repository.{Complaint}
use civic_pulse_24i3089_24i.Migration
use civic_pulse_24i3089_24i.Migration.{
  Statement, create_enum, drop_enum, create_table, drop_table, create_index, drop_index, complaints,
  upgrade, downgrade,
}
use civic_pulse_24i3089_24i.Migration.Values.{Row, row_of}

-- The row has the complaint's value in each column of the table.
abbrev pub Holds : Row → Complaint → Type 0
Holds row c = All (λ column. row column.name ≡ row_of c column.name) complaints.columns

abbrev undo : Statement → Statement
undo (create_enum k) = drop_enum k
undo (drop_enum k) = create_enum k
undo (create_table t) = drop_table t.name
undo (drop_table name) = drop_table name
undo (create_index name table columns) = drop_index name table
undo (drop_index name table) = drop_index name table

-- Going down drops what going up created, the last first.
downgrade-reverse : downgrade ≡ map undo (reverse upgrade)
downgrade-reverse = refl

-- ===== src/Database/Open/Reading.antt =====
-- src/common/db.rs: the tables of the file as the methods of the open database see them.
use mathlib.Core.Option
use mimeclip.Base.{Option, some, List, [], ◌∷◌}
use mimeclip.Database.{EntryRow, Tables}
use mimeclip.Database.Open
use mimeclip.Database.Open.{StoredRow, Content, has_column}

infixl 10 ◌>>=◌
abbrev pub ◌>>=◌ : {A B : Type 0} → Option A → (A → Option B) → Option B
unfolding Option.bind
o >>= f = Option.bind o f

-- A row as the SELECTs read it: a time that is NULL is an error.
unfoldable pub row_of : StoredRow → Option EntryRow
row_of r = do
  created_at ← r.created_at
  last_used_at ← r.last_used_at
  some (record {
    id = r.id;
    hash = r.hash;
    kind = r.kind;
    label = r.label;
    preview = r.preview;
    size = r.size;
    created_at = created_at;
    last_used_at = last_used_at;
  })

unfoldable pub rows_of : List StoredRow → Option (List EntryRow)
unfolding row_of
rows_of [] = some []
rows_of (r ∷ rows) = do row ← row_of r; rest ← rows_of rows; some (row ∷ rest)

-- The tables that the open database works on.
unfoldable pub tables_of : Content → Option Tables
unfolding rows_of has_column
tables_of c = do
  t ← c.entries
  p ← c.payloads
  rows ← rows_of t.rows
  some (record {
    entries = rows;
    payloads = p.rows;
    entry_seq = c.entry_seq;
    payload_seq = c.payload_seq;
    references = p.references;
    timestamp_column = has_column Open.timestamp_column t.columns;
  })

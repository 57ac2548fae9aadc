-- ===== src/Database/Query.antt =====
-- The SELECTs of src/common/db.rs.
use mathlib.Core.Option
use mimeclip.Base.{ℕ, Bool, Option, none, some, List, [], ◌∷◌, map, keep, take, ◌==◌, if◌then◌else◌}
use mimeclip.Base.Bytes.{Text, Bytes, text_eq}
use mimeclip.Base.Int.{ℤ, pos, negsuc, as_i64}
use mimeclip.Kind.{parse_kind}
use mimeclip.Entry.{Entry, MimePayload}
use mimeclip.Payloads.{Payload}
use mimeclip.Database.{EntryRow, PayloadRow, Tables, Planner, Sql, query, pure, ◌>>=◌}

-- `rows.next()?.map(…)`, on the rows that the WHERE clause leaves
unfoldable pub first_row :
    {A : Type 0} → (EntryRow → Bool) → (EntryRow → A) → List EntryRow → Option A
first_row test column [] = none
first_row test column (r ∷ rows) = if test r then some (column r) else first_row test column rows

-- SELECT id FROM entries WHERE hash = ?1
unfoldable pub id_of_hash : Text → Tables → Option ℕ
unfolding first_row
id_of_hash hash t = first_row (λ r. text_eq r.hash hash) (λ r. r.id) t.entries

unfoldable pub find_by_hash : Text → Sql (Option ℕ)
find_by_hash hash = query (id_of_hash hash)

-- SELECT hash FROM entries WHERE id = ?1
unfoldable pub hash_of_id : ℕ → Tables → Option Text
unfolding first_row
hash_of_id id t = first_row (λ r. r.id == id) (λ r. r.hash) t.entries

unfoldable pub get_hash : ℕ → Sql (Option Text)
get_hash entry_id = query (hash_of_id entry_id)

-- SELECT mime_type, data FROM payloads WHERE entry_id = ?1 ORDER BY id
unfoldable pub payloads_of : ℕ → Tables → List Payload
payloads_of entry_id t =
    map (λ (p : PayloadRow). (p.mime_type, p.content))
      (keep (λ p. p.entry_id == entry_id) t.payloads)

unfoldable pub get_raw_payloads : ℕ → Sql (List Payload)
get_raw_payloads entry_id = query (payloads_of entry_id)

-- The base64 encoding is that of the crate `base64`.
module _ (base64 : Bytes → Text) where
  unfoldable pub get_payloads : ℕ → Sql (List MimePayload)
  get_payloads entry_id = do
    rows ← query (payloads_of entry_id)
    pure (map (λ (p : Payload). record { mime_type = p.0; data_b64 = base64 p.1 }) rows)

-- SELECT mime_type FROM payloads WHERE entry_id = ?1 ORDER BY id
unfoldable pub mime_types_for : ℕ → Sql (List Text)
mime_types_for entry_id =
    query
      (λ t. map (λ (p : PayloadRow). p.mime_type) (keep (λ p. p.entry_id == entry_id) t.payloads))

-- LIMIT z: a negative limit is none.
unfoldable pub limit_rows : ℤ → List EntryRow → List EntryRow
limit_rows (pos n) rows = take n rows
limit_rows (negsuc n) rows = rows

unfoldable pub newest : Planner → ℕ → Tables → List EntryRow
unfolding limit_rows
newest plan limit t = limit_rows (as_i64 limit) (plan.by_recency t.entries)

-- `chrono` parses the stored times; a text that it refuses reads as the time of the call.
module _ (parse_time : Text → Option ℕ) (now : ℕ) where
  unfoldable pub entry_of : EntryRow → List Text → Entry
  entry_of r mime_types = record {
    id = r.id;
    hash = r.hash;
    kind = parse_kind r.kind;
    label = r.label;
    preview = r.preview;
    size = r.size;
    created_at = Option.get_or (parse_time r.created_at) now;
    last_used_at = Option.get_or (parse_time r.last_used_at) now;
    mime_types = mime_types;
  }

  -- The loop of `list`.
  unfoldable pub entries_of : List EntryRow → Sql (List Entry)
  entries_of [] = pure []
  entries_of (r ∷ rows) = do
    mime_types ← mime_types_for r.id
    rest ← entries_of rows
    pure (entry_of r mime_types ∷ rest)

  unfoldable pub list : Planner → ℕ → Sql (List Entry)
  list plan limit = do rows ← query (newest plan limit); entries_of rows

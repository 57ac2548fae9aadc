-- ===== src/Database/Store.antt =====
-- The methods of src/common/db.rs that write.

use mimeclip.Base.{
  ℕ, suc, Result, ◌+◌, ◌-◌, Bool, true, not, xor, ◌&&◌, Option, none, some, List, [], ◌∷◌, ◌++◌,
  map, any, length, ok, err, ◌==◌, if◌then◌else◌,
}
use mimeclip.Base.Bytes.{Text, text_eq}
use mimeclip.Base.Int.{ℤ, as_i64, exceeds}
use mimeclip.Base.Sorting.{sort}
use mimeclip.Config.{Limits}
use mimeclip.Kind.{EntryKind}
use mimeclip.Kind
use mimeclip.Payloads.{Payload}
use mimeclip.Database.{
  EntryRow, PayloadRow, Tables, Planner, Database, DbError, constraint, config, Sql, execute, query,
  update, pure, fail, delete_where, older, ◌>>=◌, ◌>>◌,
}
use mimeclip.Database.Query.{find_by_hash, newest}

pub record NewEntry : Type 0 where
  pub hash : Text
  pub kind : EntryKind
  pub label : Text
  pub preview : Text
  pub size : ℕ
  -- the time of the call, as `to_rfc3339` writes it
  pub created_at : Text
  pub payloads : List Payload

-- SELECT COALESCE(SUM(size), 0) FROM entries
unfoldable pub total_size : List EntryRow → ℕ
total_size [] = 0
total_size (r ∷ rows) = r.size + total_size rows

-- The rows with one of the ids that the subquery of the first DELETE selects.
unfoldable pub is_among : List EntryRow → EntryRow → Bool
is_among kept r = any (λ (k : EntryRow). k.id == r.id) kept

unfoldable pub delete_entry : ℕ → Tables → Tables
delete_entry entry_id t = delete_where (λ r. r.id == entry_id) t

-- The loop of `trim` over the rows, oldest first.
unfoldable pub evict : ℤ → ℕ → List EntryRow → Sql (Unit {0})
evict limit remaining [] = pure tt
evict limit remaining (r ∷ rows) =
    if not (exceeds remaining limit)
    then pure tt
    else do update (delete_entry r.id); evict limit (remaining - r.size) rows

-- UPDATE entries SET … WHERE id = ?6
unfoldable pub refresh_row : NewEntry → ℕ → EntryRow → EntryRow
refresh_row e entry_id r =
    if r.id == entry_id
    then record r {
      kind = Kind.label e.kind;
      label = e.label;
      preview = e.preview;
      size = e.size;
      last_used_at = e.created_at;
    }
    else r

unfoldable pub refresh : NewEntry → ℕ → Tables → Tables
refresh e entry_id t = record t { entries = map (refresh_row e entry_id) t.entries }

unfoldable pub new_row : NewEntry → ℕ → EntryRow
new_row e entry_id = record {
  id = entry_id;
  hash = e.hash;
  kind = Kind.label e.kind;
  label = e.label;
  preview = e.preview;
  size = e.size;
  created_at = e.created_at;
  last_used_at = e.created_at;
}

-- The table gets the row, whose id is the next one.
unfoldable pub append_entry : EntryRow → Database → Database
append_entry r db = record db {
  tables = record db.tables { entries = db.entries ++ r ∷ []; entry_seq = suc db.entry_seq };
  last_rowid = suc db.entry_seq;
}

-- INSERT INTO entries, with the column `timestamp` or without it
unfoldable pub row_effect : NewEntry → Bool → Database → Result DbError (Unit {0} × Database)
row_effect e with_timestamp db =
    if any (λ (r : EntryRow). text_eq r.hash e.hash) db.entries
    then err constraint
    else if xor with_timestamp db.timestamp_column
    then err constraint
    else ok (tt, append_entry (new_row e (suc db.entry_seq)) db)

unfoldable pub insert_row : NewEntry → Bool → Sql (Unit {0})
insert_row e with_timestamp = execute (row_effect e with_timestamp)

unfoldable pub new_payload : ℕ → ℕ → Payload → PayloadRow
new_payload id entry_id p = record { id = id; entry_id = entry_id; mime_type = p.0; content = p.1 }

unfoldable pub append_payload : PayloadRow → Database → Database
append_payload p db = record db {
  tables = record db.tables { payloads = db.payloads ++ p ∷ []; payload_seq = suc db.payload_seq };
  last_rowid = suc db.payload_seq;
}

-- INSERT INTO payloads (entry_id, mime_type, data)
unfoldable pub payload_effect : ℕ → Payload → Database → Result DbError (Unit {0} × Database)
payload_effect entry_id p db =
    if db.references && not (any (λ (r : EntryRow). r.id == entry_id) db.entries)
    then err constraint
    else ok (tt, append_payload (new_payload (suc db.payload_seq) entry_id p) db)

unfoldable pub insert_payload : ℕ → Payload → Sql (Unit {0})
insert_payload entry_id p = execute (payload_effect entry_id p)

unfoldable pub insert_payloads : ℕ → List Payload → Sql (Unit {0})
insert_payloads entry_id [] = pure tt
insert_payloads entry_id (p ∷ payloads) = do
  insert_payload entry_id p
  insert_payloads entry_id payloads

unfoldable pub trim_size : ℤ → ℕ → Sql (Unit {0})
trim_size limit total =
    if exceeds total limit
    then (do rows ← query (λ t. sort older t.entries); evict limit total rows)
    else pure tt

module _ (plan : Planner) where
  unfoldable pub trim_count : ℕ → Tables → Tables
  trim_count max_entries t = delete_where (λ r. not (is_among (newest plan max_entries t) r)) t

  unfoldable pub trim : Sql (Unit {0})
  trim db =
      (do
        update (trim_count db.max_entries)
        total ← query (λ t. total_size t.entries)
        trim_size (as_i64 db.max_history_size) total)
        db

  -- The rest of `insert` for a hash that is not there.
  unfoldable pub insert_new : NewEntry → Sql ℕ
  insert_new e db =
      (do
        insert_row e db.has_legacy_timestamp
        entry_id ← (λ after. pure after.last_rowid after)
        insert_payloads entry_id e.payloads
        trim
        pure entry_id)
        db

  unfoldable pub insert_found : NewEntry → Option ℕ → Sql ℕ
  insert_found e none = insert_new e
  insert_found e (some entry_id) = do update (refresh e entry_id); trim; pure entry_id

  unfoldable pub insert : NewEntry → Sql ℕ
  insert e = do found ← find_by_hash e.hash; insert_found e found

  unfoldable pub set_limits : Limits → Sql (Unit {0})
  set_limits limits db =
      trim
        (record db { max_entries = limits.max_entries; max_history_size = limits.max_history_size })

  -- `Config::load()?.limits()?` has given `loaded`.
  unfoldable pub reload_config : Option Limits → Sql (Unit {0})
  reload_config none = fail config
  reload_config (some limits) = set_limits limits

-- UPDATE entries SET last_used_at = ?1 WHERE id = ?2
unfoldable pub touch_row : Text → ℕ → EntryRow → EntryRow
touch_row now entry_id r = if r.id == entry_id then record r { last_used_at = now } else r

unfoldable pub touch_last_used : Text → ℕ → Sql (Unit {0})
touch_last_used now entry_id =
    update (λ t. record t { entries = map (touch_row now entry_id) t.entries })

-- Whether a row was deleted.
unfoldable pub delete : ℕ → Sql Bool
delete entry_id = execute (λ db. ok (
  any (λ (r : EntryRow). r.id == entry_id) db.entries,
  record db { tables = delete_entry entry_id db.tables },
))

-- The number of rows that were deleted. The compaction is a statement that may fail, and moves no
-- row.
unfoldable pub clear : Sql ℕ
clear = do
  n ←
      execute
        (λ db. ok (length db.entries, record db { tables = delete_where (λ _. true) db.tables }))
  query (λ _. tt)
  pure n

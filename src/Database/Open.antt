-- ===== src/Database/Open.antt =====
-- `open` of src/common/db.rs: the file with the tables that it may hold already, of this schema or
-- an older one, the migration, and the permissions. Each statement and each change of a mode may
-- fail, as in the list `faults`.
pub mod Reading
pub mod Times
pub mod Migration
pub mod Steps
pub mod Filling
pub mod Sound
pub mod Ready
pub mod Permissions
use mimeclip.Base.{
  ℕ, Bool, true, false, not, ◌&&◌, Option, none, some, List, [], ◌∷◌, ◌++◌, map, any, Result, ok,
  err, if◌then◌else◌,
}
use mimeclip.Base.Bytes.{Text, text, text_eq}
use mimeclip.Config.{Limits}
use mimeclip.Database.{
  PayloadRow, DbError, sqlite, constraint, config, Action, pure, fail, ◌>>=◌, ◌>>◌,
}

abbrev pub created_at_column : Text
created_at_column = text "created_at"

abbrev pub last_used_at_column : Text
last_used_at_column = text "last_used_at"

abbrev pub timestamp_column : Text
timestamp_column = text "timestamp"

-- A row of `entries` in the file; a time may be NULL, and means nothing without its column.
pub record StoredRow : Type 0 where
  pub id : ℕ
  pub hash : Text
  pub kind : Text
  pub label : Text
  pub preview : Text
  pub size : ℕ
  pub created_at : Option Text
  pub last_used_at : Option Text
  pub timestamp : Option Text

pub record EntriesTable : Type 0 where
  pub columns : List Text
  pub rows : List StoredRow

pub record PayloadsTable : Type 0 where
  pub rows : List PayloadRow
  pub references : Bool

-- What the database's file holds.
pub record Content : Type 0 where
  pub entries : Option EntriesTable
  pub payloads : Option PayloadsTable
  pub entry_seq : ℕ
  pub payload_seq : ℕ

-- With the modes of the files that there are.
pub record Disk : Type 0 where
  pub modes : Text → Option ℕ
  pub content : Content
  pub open content use *
  pub faults : List Bool

unfoldable pub finish : Result DbError Disk → Disk → Result DbError (Unit {0}) × Disk
finish (ok after) before = (ok tt, after)
finish (err e) before = (err e, before)

unfoldable pub attempt_step :
    List Bool → (Disk → Result DbError Disk) → Action DbError Disk (Unit {0})
unfolding finish
attempt_step [] effect d = finish (effect d) d
attempt_step (true ∷ faults) effect d = (err sqlite, record d { faults = faults })
attempt_step (false ∷ faults) effect d =
    finish (effect (record d { faults = faults })) (record d { faults = faults })

-- One statement, or one call on a file.
unfoldable pub step : (Disk → Result DbError Disk) → Action DbError Disk (Unit {0})
unfolding attempt_step
step effect d = attempt_step d.faults effect d

unfoldable pub has_column : Text → List Text → Bool
has_column name columns = any (text_eq name) columns

-- PRAGMA table_info(entries); a table that is not there has no columns.
unfoldable pub columns_of : Option EntriesTable → List Text
columns_of none = []
columns_of (some t) = t.columns

unfoldable pub entries_column_exists : Text → Action DbError Disk Bool
unfolding has_column columns_of
entries_column_exists name = do step ok; (λ d. pure (has_column name (columns_of d.entries)) d)

unfoldable pub new_entries : Option EntriesTable → EntriesTable
new_entries none = record {
  columns =
      text "id"
      ∷ text "hash"
      ∷ text "kind"
      ∷ text "label"
      ∷ text "preview"
      ∷ text "size"
      ∷ created_at_column
      ∷ last_used_at_column
      ∷ [];
  rows = [];
}
new_entries (some t) = t

unfoldable pub new_payloads : Option PayloadsTable → PayloadsTable
new_payloads none = record { rows = []; references = true }
new_payloads (some t) = t

-- CREATE TABLE IF NOT EXISTS
unfoldable pub create_entries : Action DbError Disk (Unit {0})
unfolding new_entries
create_entries =
    step
      (λ d. ok (record d { content = record d.content { entries = some (new_entries d.entries) } }))

unfoldable pub create_payloads : Action DbError Disk (Unit {0})
unfolding new_payloads
create_payloads = step (λ d.
    ok (record d { content = record d.content { payloads = some (new_payloads d.payloads) } }))

unfoldable pub put_table : Disk → Result DbError EntriesTable → Result DbError Disk
put_table d (ok t) = ok (record d { content = record d.content { entries = some t } })
put_table d (err e) = err e

unfoldable pub on_table :
    (EntriesTable → Result DbError EntriesTable) → Disk → Option EntriesTable → Result DbError Disk
unfolding put_table
on_table effect d none = err constraint
on_table effect d (some t) = put_table d (effect t)

unfoldable pub on_entries :
    (EntriesTable → Result DbError EntriesTable) → Action DbError Disk (Unit {0})
unfolding on_table
on_entries effect = step (λ d. on_table effect d d.entries)

-- ALTER TABLE entries ADD COLUMN: every row has NULL in it.
unfoldable pub add_column :
    Text → (StoredRow → StoredRow) → EntriesTable → Result DbError EntriesTable
unfolding has_column
add_column name clear t =
    if has_column name t.columns
    then err constraint
    else ok (record t { columns = t.columns ++ name ∷ []; rows = map clear t.rows })

-- Whether a statement may name the columns.
unfoldable pub has_columns : List Text → List Text → Bool
unfolding has_column
has_columns [] columns = true
has_columns (name ∷ names) columns = has_column name columns && has_columns names columns

-- UPDATE entries SET …
unfoldable pub update_rows :
    List Text → (StoredRow → StoredRow) → EntriesTable → Result DbError EntriesTable
unfolding has_columns
update_rows names change t =
    if has_columns names t.columns
    then ok (record t { rows = map change t.rows })
    else err constraint

-- COALESCE(a, b)
abbrev pub coalesce : Option Text → Option Text → Option Text
coalesce none b = b
coalesce (some a) b = some a

unfoldable pub created_from_timestamp : Text → StoredRow → StoredRow
created_from_timestamp now r = record r {
  created_at = coalesce r.created_at (coalesce r.timestamp (some now));
}

unfoldable pub last_used_from_timestamp : Text → StoredRow → StoredRow
last_used_from_timestamp now r = record r {
  last_used_at = coalesce r.last_used_at (coalesce r.timestamp (coalesce r.created_at (some now)));
}

unfoldable pub created_from_now : Text → StoredRow → StoredRow
created_from_now now r = record r { created_at = coalesce r.created_at (some now) }

unfoldable pub last_used_from_created : Text → StoredRow → StoredRow
last_used_from_created now r = record r {
  last_used_at = coalesce r.last_used_at (coalesce r.created_at (some now));
}

unfoldable pub clear_created_at : StoredRow → StoredRow
clear_created_at r = record r { created_at = none }

unfoldable pub clear_last_used_at : StoredRow → StoredRow
clear_last_used_at r = record r { last_used_at = none }

-- `now` and `later` are what `strftime` gives to the two statements.
unfoldable pub fill_times : Text → Text → Bool → Action DbError Disk (Unit {0})
unfolding on_entries update_rows
fill_times now later true = do
  on_entries (update_rows (created_at_column ∷ timestamp_column ∷ []) (created_from_timestamp now))
  on_entries (
      update_rows (last_used_at_column ∷ timestamp_column ∷ created_at_column ∷ [])
        (last_used_from_timestamp later))
fill_times now later false = do
  on_entries (update_rows (created_at_column ∷ []) (created_from_now now))
  on_entries
      (update_rows (last_used_at_column ∷ created_at_column ∷ []) (last_used_from_created later))

unfoldable pub add_missing : Text → (StoredRow → StoredRow) → Bool → Action DbError Disk (Unit {0})
add_missing name clear true = pure tt
add_missing name clear false = on_entries (add_column name clear)

unfoldable pub migrate_entries_schema : Text → Text → Action DbError Disk (Unit {0})
unfolding entries_column_exists
migrate_entries_schema now later = do
  has_created_at ← entries_column_exists created_at_column
  has_last_used_at ← entries_column_exists last_used_at_column
  has_timestamp ← entries_column_exists timestamp_column
  add_missing created_at_column clear_created_at has_created_at
  add_missing last_used_at_column clear_last_used_at has_last_used_at
  fill_times now later has_timestamp

-- The modes after SQLite has made or removed files of its own.
module _ (sqlite_files : (Text → Option ℕ) → Text → Option ℕ) where
  unfoldable pub sqlite_call : Action DbError Disk (Unit {0})
  sqlite_call = step (λ d. ok (record d { modes = sqlite_files d.modes }))

  -- The two PRAGMAs, the tables and the index; the migration; the other indexes.
  unfoldable pub init : Text → Text → Action DbError Disk (Unit {0})
  unfolding sqlite_call
  init now later = do
    sqlite_call
    step ok
    create_entries
    create_payloads
    step ok
    migrate_entries_schema now later
    step ok
    on_entries (update_rows (last_used_at_column ∷ []) (λ r. r))

unfoldable pub set_mode : Text → ℕ → (Text → Option ℕ) → Text → Option ℕ
set_mode path mode modes p = if text_eq path p then some mode else modes p

-- `if path.exists() { set_permissions }`
unfoldable pub restrict_existing : Text → Option ℕ → Action DbError Disk (Unit {0})
unfolding set_mode
restrict_existing path none = pure tt
restrict_existing path (some mode) =
    step (λ d. ok (record d { modes = set_mode path 0o600 d.modes }))

unfoldable pub restrict_file : Text → Action DbError Disk (Unit {0})
unfolding restrict_existing
restrict_file path d = restrict_existing path (d.modes path) d

unfoldable pub restrict_database_permissions : Text → Action DbError Disk (Unit {0})
unfolding restrict_file
restrict_database_permissions path = do
  restrict_file path
  restrict_file (path ++ text "-wal")
  restrict_file (path ++ text "-shm")

-- What `open` returns beside the connection.
pub record Opened : Type 0 where
  pub max_entries : ℕ
  pub max_history_size : ℕ
  pub has_legacy_timestamp : Bool

-- What `Config::load()?.limits()?` has given.
unfoldable pub need_limits : Option Limits → Action DbError Disk Limits
need_limits none = fail config
need_limits (some limits) = pure limits

module _ (sqlite_files : (Text → Option ℕ) → Text → Option ℕ) (path : Text) where
  unfoldable pub open_file : Option Limits → Text → Text → Action DbError Disk Opened
  unfolding need_limits
  open_file loaded now later = do
    restrict_database_permissions path
    sqlite_call sqlite_files
    restrict_database_permissions path
    limits ← need_limits loaded
    init sqlite_files now later
    restrict_database_permissions path
    has_timestamp ← entries_column_exists timestamp_column
    pure (record {
      max_entries = limits.max_entries;
      max_history_size = limits.max_history_size;
      has_legacy_timestamp = has_timestamp;
    })

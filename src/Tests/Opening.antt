-- ===== src/Tests/Opening.antt =====
-- Openings of src/common/db.rs on an older file, as in the repository's test of the migration.
use mathlib.Core.Option.{bind}
use mimeclip.Base.{
  map, ℕ, ◌≡◌, refl, true, false, Option, none, some, [], ◌∷◌, any, ok, err, if◌then◌else◌, arith,
}
use mimeclip.Base.Bytes.{Text, text, text_eq}
use mimeclip.Database.{Tables, pure, fail, ◌>>=◌, sqlite}
use mimeclip.Database.Valid.{IsValid}
use mimeclip.Database.Open
use mimeclip.Database.Open.{Content, Disk, Opened, open_file}
use mimeclip.Database.Open.Sound.{
  erase, Opening, IsReady, open_again, after_openings, open_file-IsReady,
}
use mimeclip.Database.Open.Ready.{stored_tables, open_file-IsValid}
use mimeclip.Database.Open.Permissions.{IsRestricted, open_file-IsRestricted}
use mimeclip.Database.Open.Times.{untimed, visible, rows_in}
use mimeclip.Database.Open.Reading.{row_of, rows_of, tables_of}

abbrev legacy_time : Text
legacy_time = text "2026-04-29T18:30:00+00:00"

-- A table without the two times, and payloads without the reference
abbrev legacy : Content
legacy = record {
  entries = some (record {
    columns =
        text "id"
        ∷ text "hash"
        ∷ text "kind"
        ∷ text "label"
        ∷ text "preview"
        ∷ text "size"
        ∷ Open.timestamp_column
        ∷ [];
    rows =
        record {
          id = 1;
          hash = text "legacy-hash";
          kind = text "image";
          label = text "PNG 1920x1080";
          preview = text "PNG 1920x1080";
          size = 123;
          created_at = none;
          last_used_at = none;
          timestamp = some legacy_time;
        }
        ∷ [];
  });
  payloads = some (record {
    rows =
        record { id = 1; entry_id = 1; mime_type = text "image/png"; content = 0 ∷ 1 ∷ 2 ∷ 3 ∷ [] }
        ∷ [];
    references = false;
  });
  entry_seq = 1;
  payload_seq = 1;
}

abbrev path : Text
path = text "h.db"

-- The database's file can be read by everyone at first.
abbrev pub file : Disk
file = record {
  modes = λ p. if text_eq p path then some 0o644 else none;
  content = legacy;
  faults = [];
}

-- SQLite makes the log with the mode of the database's file.
abbrev pub with_wal : (Text → Option ℕ) → Text → Option ℕ
with_wal modes p = if text_eq p (text "h.db-wal") then modes path else modes p

-- An opening that breaks off between the two UPDATE statements, and one that does not
abbrev broken : Opening
broken = record {
  faults =
      false ∷ false ∷ false ∷ false ∷ false ∷ false ∷ false ∷ false ∷ false ∷ false ∷ false ∷ false
      ∷ false ∷ false ∷ false ∷ true ∷ [];
  loaded = some (record { max_entries = 750; max_history_size = 1000 });
  now = text "2026-05-01T00:00:00.000Z";
  later = text "2026-05-01T00:00:00.000Z";
}

abbrev pub whole : Opening
whole = record broken { faults = [] }

unfoldable pub opening : Unit {0}
unfolding bind pure fail ◌>>=◌ any text_eq Open.finish Open.attempt_step Open.step Open.has_column
    Open.columns_of Open.entries_column_exists Open.new_entries Open.new_payloads
    Open.create_entries Open.create_payloads Open.put_table Open.on_table Open.on_entries
    Open.add_column Open.has_columns Open.update_rows Open.created_from_timestamp
    Open.last_used_from_timestamp Open.created_from_now Open.last_used_from_created
    Open.clear_created_at Open.clear_last_used_at Open.fill_times Open.add_missing
    Open.migrate_entries_schema Open.sqlite_call Open.init Open.set_mode Open.restrict_existing
    Open.restrict_file Open.restrict_database_permissions Open.need_limits Open.open_file open_again
    after_openings row_of rows_of tables_of
opening = tt

broken_result : (open_again with_wal path broken file).0 ≡ err sqlite
unfolding opening
broken_result = refl

whole_result :
    (open_again with_wal path whole (after_openings with_wal path (broken ∷ []) file)).0
    ≡ ok (record { max_entries = 750; max_history_size = 1000; has_legacy_timestamp = true })
unfolding opening
whole_result = refl

-- The tables that the methods then find
abbrev migrated : Tables
migrated = record {
  entries =
      record {
        id = 1;
        hash = text "legacy-hash";
        kind = text "image";
        label = text "PNG 1920x1080";
        preview = text "PNG 1920x1080";
        size = 123;
        created_at = legacy_time;
        last_used_at = legacy_time;
      }
      ∷ [];
  payloads =
      record { id = 1; entry_id = 1; mime_type = text "image/png"; content = 0 ∷ 1 ∷ 2 ∷ 3 ∷ [] }
      ∷ [];
  entry_seq = 1;
  payload_seq = 1;
  references = false;
  timestamp_column = true;
}

migrated_result :
    tables_of
      (open_again with_wal path whole (after_openings with_wal path (broken ∷ []) file)).1.content
    ≡ some migrated
unfolding opening
migrated_result = refl

abbrev opened : Opened
opened = record { max_entries = 750; max_history_size = 1000; has_legacy_timestamp = true }

open_file-IsReady_example :
    (t : Tables) × (tables_of
        (open_again with_wal path whole (after_openings with_wal path (broken ∷ []) file)).1.content
      ≡ some t)
    × IsReady legacy opened t
open_file-IsReady_example =
    open_file-IsReady with_wal path (broken ∷ []) whole file opened whole_result

legacy-IsValid : IsValid (stored_tables legacy)
unfolding stored_tables rows_in visible untimed Open.new_payloads
legacy-IsValid = record {
  ids = (omega arith, omega arith);
  payload_ids = (omega arith, omega arith);
  hashes = (tt, tt);
  owned = λ on. cc;
}

open_file-IsValid_example :
    (t : Tables) × (tables_of
        (open_again with_wal path whole (after_openings with_wal path (broken ∷ []) file)).1.content
      ≡ some t)
    × (map erase t.entries ≡ map untimed (rows_in file.content.entries))
    × IsValid t
open_file-IsValid_example =
    open_file-IsValid with_wal path (broken ∷ []) whole file opened whole_result legacy-IsValid

first_result : (open_file with_wal path whole.loaded whole.now whole.later file).0 ≡ ok opened
unfolding opening
first_result = refl

open_file-IsRestricted_example :
    IsRestricted path (open_file with_wal path whole.loaded whole.now whole.later file).1
open_file-IsRestricted_example =
    open_file-IsRestricted with_wal path whole.loaded whole.now whole.later file opened first_result

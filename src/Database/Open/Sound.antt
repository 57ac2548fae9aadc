-- ===== src/Database/Open/Sound.antt =====
-- Opening the database of src/common/db.rs, after any number of openings that may have failed: what
-- the methods then find.
use mimeclip.Base.{
  ◌≡◌, refl, sym, ap, subst, ◌∙◌, Bool, true, Option, none, some, List, [], ◌∷◌, map, All, Result,
  ok, ℕ,
}
use mathlib.Core.Option.{bind, some-injective}
use mimeclip.Base.Bytes.{Text}
use mimeclip.Config.{Limits}
use mimeclip.Database.{EntryRow, Tables, DbError, fail}
use mimeclip.Database.Open
use mimeclip.Database.Open.{
  StoredRow, EntriesTable, PayloadsTable, Content, Disk, Opened, coalesce, has_column, columns_of,
  step, restrict_existing, restrict_file, restrict_database_permissions, need_limits, open_file,
  new_payloads, entries_column_exists, created_at_column, last_used_at_column,
}
use mimeclip.Database.Open.Reading.{row_of, rows_of, tables_of}
use mimeclip.Database.Open.Times.{untimed, visible, cell, rows_in, IsFrom}
use mimeclip.Database.Open.Migration.{
  Pairs, IsAdvance, IsAdvance-refl, IsAdvance-trans, Migrates, Migrates-step, Migrates-pure,
  Migrates-bind, HasTables,
}
use mimeclip.Database.Open.Steps.{HasTime, Migrates-sqlite_call, Migrates-column}
use mimeclip.Database.Open.Filling.{IsFull, Migrates-init}

-- One opening: what fails in it, the limits that were loaded, and the times.
pub record Opening : Type 0 where
  pub faults : List Bool
  pub loaded : Option Limits
  pub now : Text
  pub later : Text

module _ (P : Content → Type 0) where
  Migrates-restrict_existing :
      (path : Text) (mode : Option ℕ) → Migrates P (λ _. P) (restrict_existing path mode)
  unfolding restrict_existing
  Migrates-restrict_existing path none = Migrates-pure _ _ _ (λ c p. p)
  Migrates-restrict_existing path (some mode) =
      Migrates-step P P _ (λ d p. (IsAdvance-refl d.content, p))

  Migrates-restrict_file : (path : Text) → Migrates P (λ _. P) (restrict_file path)
  unfolding restrict_file
  Migrates-restrict_file path = record {
    at = λ d p. (Migrates-restrict_existing path (d.modes path)).at d p;
    holds = λ d p a h. (Migrates-restrict_existing path (d.modes path)).holds d p a h;
  }

  Migrates-restrict : (path : Text) → Migrates P (λ _. P) (restrict_database_permissions path)
  unfolding restrict_database_permissions
  Migrates-restrict path =
      Migrates-bind _ _ (Migrates-restrict_file path)
        (λ _. Migrates-bind _ _ (Migrates-restrict_file _) (λ _. Migrates-restrict_file _))

  Migrates-need_limits : (loaded : Option Limits) → Migrates P (λ _. P) (need_limits loaded)
  unfolding need_limits fail
  Migrates-need_limits none = record { at = λ d p. IsAdvance-refl d.content; holds = λ d p a h. cc }
  Migrates-need_limits (some limits) = Migrates-pure _ _ _ (λ c p. p)

module _ (sqlite_files : (Text → Option ℕ) → Text → Option ℕ) (path : Text) where
  unfoldable pub open_again : Opening → Disk → Result DbError Opened × Disk
  open_again o d =
      open_file sqlite_files path o.loaded o.now o.later (record d { faults = o.faults })

  -- The file after these openings, whether they failed or not
  unfoldable pub after_openings : List Opening → Disk → Disk
  unfolding open_again
  after_openings [] d = d
  after_openings (o ∷ openings) d = after_openings openings (open_again o d).1

  -- What `open` reports about the column is so.
  abbrev IsOpened : Opened → Content → Type 0
  IsOpened o =
      HasTables
        (λ t. IsFull t × (has_column Open.timestamp_column t.columns ≡ o.has_legacy_timestamp))

  Migrates-open_file :
      (loaded : Option Limits) (now later : Text)
      → Migrates (λ _. Unit) IsOpened (open_file sqlite_files path loaded now later)
  unfolding open_file
  Migrates-open_file loaded now later = Migrates-bind _ _ (Migrates-restrict _ path) (λ _.
      Migrates-bind _ _ (Migrates-sqlite_call _ sqlite_files) (λ _.
        Migrates-bind _ _ (Migrates-restrict _ path) (λ _.
          Migrates-bind _ _ (Migrates-need_limits _ loaded) (λ limits.
            Migrates-bind _ _ (Migrates-init sqlite_files now later) (λ _.
              Migrates-bind _ _ (Migrates-restrict _ path) (λ _.
                Migrates-bind _ _ (Migrates-column _ Open.timestamp_column)
                  (λ b. Migrates-pure _ _ _ (λ c h. h))))))))

  openings-IsAdvance :
      (openings : List Opening) (d : Disk) → IsAdvance d.content (after_openings openings d).content
  unfolding after_openings open_again
  openings-IsAdvance [] d = IsAdvance-refl d.content
  openings-IsAdvance (o ∷ openings) d =
      IsAdvance-trans _ _ _
        ((Migrates-open_file o.loaded o.now o.later).at (record d { faults = o.faults }) tt)
        (openings-IsAdvance openings (open_again o d).1)

-- Everything but the times
unfoldable pub erase : EntryRow → EntryRow
erase r = record r { created_at = []; last_used_at = [] }

-- What the methods find of a row of the file: a time that is there stays, the older column's time
-- stands for one that is not, and the time of creation for a time of use that was never known.
pub record IsMigrated (old : StoredRow) (r : EntryRow) : Type 0 where
  pub same : erase r ≡ untimed old
  pub created_at : (t : Text) → coalesce old.created_at old.timestamp ≡ some t → r.created_at ≡ t
  pub last_used_at :
      (t : Text) → coalesce old.last_used_at old.timestamp ≡ some t → r.last_used_at ≡ t
  pub unused : coalesce old.last_used_at old.timestamp ≡ none → r.last_used_at ≡ r.created_at

row_of-IsMigrated :
    (columns : List Text) (old r : StoredRow)
    → has_column created_at_column columns ≡ true
    → has_column last_used_at_column columns ≡ true
    → IsFrom old (visible columns r)
    → HasTime r.created_at
    → HasTime r.last_used_at
    → (row : EntryRow) × (row_of r ≡ some row) × IsMigrated old row
unfolding row_of bind visible cell untimed erase
row_of-IsMigrated columns old r has_created has_used f (c, created) (u, used) = (
  record {
    id = r.id;
    hash = r.hash;
    kind = r.kind;
    label = r.label;
    preview = r.preview;
    size = r.size;
    created_at = c;
    last_used_at = u;
  },
  rw (created, used) refl,
  record {
    same = f.same;
    created_at = λ t h. f.created_filled t c h (rw has_created created);
    last_used_at = λ t h. f.used_filled t u h (rw has_used used);
    unused = λ h.
        let k = rw has_created at f.used_created u h (rw has_used used) in
        some-injective u c (sym k ∙ created);
  },
)

rows_of-IsMigrated :
    (columns : List Text) (olds rows : List StoredRow)
    → has_column created_at_column columns ≡ true
    → has_column last_used_at_column columns ≡ true
    → Pairs IsFrom olds (map (visible columns) rows)
    → All (λ (r : StoredRow). HasTime r.created_at × HasTime r.last_used_at) rows
    → (read : List EntryRow) × (rows_of rows ≡ some read) × Pairs IsMigrated olds read
unfolding rows_of bind
rows_of-IsMigrated columns [] [] has_created has_used f h = ([], refl, tt)
rows_of-IsMigrated columns (old ∷ olds) [] has_created has_used f h = elim f [ ]
rows_of-IsMigrated columns [] (r ∷ rows) has_created has_used f h = elim f [ ]
rows_of-IsMigrated columns (old ∷ olds) (r ∷ rows) has_created has_used f h =
    let (row, e, m) = row_of-IsMigrated columns old r has_created has_used f.0 h.0.0 h.0.1 in
    let (rest, es, ms) = rows_of-IsMigrated columns olds rows has_created has_used f.1 h.1 in
    (row ∷ rest, rw (e, es) refl, (m, ms))

-- The open database has the rows of the file with their times, its payloads and its sequences.
pub record IsReady (before : Content) (o : Opened) (t : Tables) : Type 0 where
  pub rows : Pairs IsMigrated (rows_in before.entries) t.entries
  pub payloads : t.payloads ≡ (new_payloads before.payloads).rows
  pub references : t.references ≡ (new_payloads before.payloads).references
  pub entry_seq : t.entry_seq ≡ before.entry_seq
  pub payload_seq : t.payload_seq ≡ before.payload_seq
  pub timestamp : o.has_legacy_timestamp ≡ t.timestamp_column

module _ (sqlite_files : (Text → Option ℕ) → Text → Option ℕ) (path : Text) where
  tables_of-IsReady :
      (before after : Content) (o : Opened)
      → IsAdvance before after
      → IsOpened sqlite_files path o after
      → (t : Tables) × (tables_of after ≡ some t) × IsReady before o t
  unfolding tables_of bind rows_in new_payloads
  tables_of-IsReady before after o adv h =
      let full = h.has.0 in
      let (read, e, m) =
        rows_of-IsMigrated h.table.columns (rows_in before.entries) h.table.rows full.created
          full.used
          (subst (λ x. Pairs IsFrom (rows_in before.entries) (rows_in x)) h.entries adv.rows)
          full.rows in
      let same = ap new_payloads (sym h.payloads) ∙ adv.payloads in
      (
        record {
          entries = read;
          payloads = h.stored.rows;
          entry_seq = after.entry_seq;
          payload_seq = after.payload_seq;
          references = h.stored.references;
          timestamp_column = has_column Open.timestamp_column h.table.columns;
        },
        rw (h.entries, h.payloads, e) refl,
        record {
          rows = m;
          payloads = ap (λ (p : PayloadsTable). p.rows) same;
          references = ap (λ (p : PayloadsTable). p.references) same;
          entry_seq = adv.entry_seq;
          payload_seq = adv.payload_seq;
          timestamp = sym h.has.1;
        },
      )

  -- However many openings came before, wherever each of them broke off, and however old the file: when one
  -- succeeds, the methods find every row of the file in its order, with the times that it had, the
  -- older column's time for one that it had not, and the time of creation for a time of use that
  -- was never known, and find its payloads; and the insertions know whether the older column is
  -- there.
  pub open_file-IsReady :
      (openings : List Opening) (o : Opening) (d : Disk) (opened : Opened)
      → (open_again sqlite_files path o (after_openings sqlite_files path openings d)).0 ≡ ok opened
      → (t : Tables) × (tables_of
            (open_again sqlite_files path o (after_openings sqlite_files path openings d)).1.content
          ≡ some t)
        × IsReady d.content opened t
  unfolding open_again
  open_file-IsReady openings o d opened h =
      let d' = after_openings sqlite_files path openings d in
      let m = Migrates-open_file sqlite_files path o.loaded o.now o.later in
      tables_of-IsReady d.content _ opened
        (IsAdvance-trans _ _ _ (openings-IsAdvance sqlite_files path openings d)
          (m.at (record d' { faults = o.faults }) tt))
        (m.holds (record d' { faults = o.faults }) tt opened h)

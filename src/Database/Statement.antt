-- ===== src/Database/Statement.antt =====
-- Statements on the connection of src/common/db.rs, in sequence. Any of them may fail: the field
-- `faults` says which of the coming ones will, and no fault is left where it is empty.
unfoldable pub use mimeclip.Base.Action.{Action, pure, fail, continue, ◌>>=◌, ◌>>◌}
use mimeclip.Base.{ℕ, Bool, true, false, List, [], ◌∷◌, Result, ok, err}
use mimeclip.Database.Schema.{Tables}

pub data DbError : Type 0 where
  -- an I/O or locking error of SQLite
  sqlite : DbError
  -- a UNIQUE, NOT NULL or foreign key constraint, or a column that is not there
  constraint : DbError
  -- `Config::load` or `limits`
  config : DbError

-- `Database`, with the connection spelled out.
pub record Database : Type 0 where
  pub tables : Tables
  pub open tables use *
  pub last_rowid : ℕ
  pub max_entries : ℕ
  pub max_history_size : ℕ
  pub has_legacy_timestamp : Bool
  pub faults : List Bool

abbrev pub Sql : Type 0 → Type 0
Sql A = Action DbError Database A

-- A statement that fails by itself leaves the tables as they are, too.
unfoldable pub settle :
    {A : Type 0} → Result DbError (A × Database) → Database → Result DbError A × Database
settle (ok (a, after)) before = (ok a, after)
settle (err e) before = (err e, before)

unfoldable pub attempt :
    {A : Type 0} → List Bool → (Database → Result DbError (A × Database)) → Sql A
unfolding settle
attempt [] effect db = settle (effect db) db
attempt (true ∷ faults) effect db = (err sqlite, record db { faults = faults })
attempt (false ∷ faults) effect db =
    settle (effect (record db { faults = faults })) (record db { faults = faults })

-- One statement.
unfoldable pub execute : {A : Type 0} → (Database → Result DbError (A × Database)) → Sql A
unfolding attempt
execute effect db = attempt db.faults effect db

-- A SELECT.
unfoldable pub query : {A : Type 0} → (Tables → A) → Sql A
query select = execute (λ db. ok (select db.tables, db))

-- An UPDATE or a DELETE.
unfoldable pub update : (Tables → Tables) → Sql (Unit {0})
update change = execute (λ db. ok (tt, record db { tables = change db.tables }))

-- ===== src/Database/History/Steps.antt =====
-- What each call of src/common/db.rs may do to the history and the limits.
use mimeclip.Base.{ℕ, ◌<◌, ◌^◌, ◌≡◌, none, some, List, [], ◌∷◌}
use mimeclip.Config.{Limits}
use mimeclip.Database.{Tables, Database}
use mimeclip.Database.Calls.{Call, inserts, touches, deletes, clears, reloads}
use mimeclip.Database.Limited.{limits_of}
use mimeclip.Database.Valid.{IsValid}
use mimeclip.Database.Trim.Exact.{IsTrimmed}
use mimeclip.Database.History.{History, history, put, used, removed, Forgets, IsKeyOf}

abbrev pub IsSmall : Limits → Type 0
IsSmall l = (l.max_entries < 2 ^ 63) × (l.max_history_size < 2 ^ 63)

-- A reload that brings limits brings such ones.
abbrev pub IsSmallCall : Call → Type 0
IsSmallCall (reloads (some l)) = IsSmall l
IsSmallCall _ = Unit

-- The tables hold the history, but for entries that the limits ask for: those that were used least
-- recently, and no more. `rows` holds all of it.
pub record IsTrimOf (l : Limits) (h : History) (t : Tables) : Type 0 where
  pub rows : Tables
  pub valid : IsValid rows
  pub same : (i : ℕ) → history rows i ≡ h i
  pub forgets : Forgets h (history t)
  pub trimmed : IsTrimmed l.max_entries l.max_history_size rows.entries t.entries

abbrev IsSame : Database → Database → Type 0
IsSame db db' = limits_of db' ≡ limits_of db

abbrev pub IsStep : Call → Database → Database → Type 0
IsStep (inserts e) db db' =
    IsSame db db'
    × (id : ℕ) × IsKeyOf e.hash id (history db.tables)
    × IsTrimOf (limits_of db) (put e id (history db.tables)) db'.tables
IsStep (touches now id) db db' =
    IsSame db db' × ((i : ℕ) → history db'.tables i ≡ used now id (history db.tables) i)
IsStep (deletes id) db db' =
    IsSame db db' × ((i : ℕ) → history db'.tables i ≡ removed id (history db.tables) i)
IsStep clears db db' = IsSame db db' × ((i : ℕ) → history db'.tables i ≡ none)
IsStep (reloads none) db db' =
    IsSame db db' × ((i : ℕ) → history db'.tables i ≡ history db.tables i)
IsStep (reloads (some l)) db db' = (limits_of db' ≡ l) × IsTrimOf l (history db.tables) db'.tables

abbrev pub IsRun : List Call → Database → Database → Type 0
IsRun [] db db' = IsSame db db' × ((i : ℕ) → history db'.tables i ≡ history db.tables i)
IsRun (c ∷ calls) db db' = (mid : Database) × IsStep c db mid × IsRun calls mid db'

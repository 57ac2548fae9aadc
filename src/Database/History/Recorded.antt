-- ===== src/Database/History/Recorded.antt =====
-- `insert` of src/common/db.rs into a history that has room for the entry.
use mimeclip.Base.{ℕ, ◌≡◌, ok}
use mimeclip.Database.{Planner, Database}
use mimeclip.Database.Store.{NewEntry, insert}
use mimeclip.Database.History.{history, put, IsKeyOf}

-- `insert` returns `id`, which the entry is recorded under, and every other entry stays as it is.
pub record IsRecorded (plan : Planner) (e : NewEntry) (db : Database) (id : ℕ) : Type 0 where
  pub returned : (insert plan e db).0 ≡ ok id
  pub key : IsKeyOf e.hash id (history db.tables)
  pub recorded : (i : ℕ) → history (insert plan e db).1.tables i ≡ put e id (history db.tables) i

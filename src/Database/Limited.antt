-- ===== src/Database/Limited.antt =====
-- No statement of src/common/db.rs changes the limits; `reload_config` sets them.
use mimeclip.Base.{
  ℕ, ◌-◌, ◌≡◌, refl, ap, sym, ◌∙◌, if◌then◌else◌, Bool, true, false, not, Option, none, some, List,
  [], ◌∷◌, Result, ok, err,
}
use mimeclip.Base.Int.{ℤ, as_i64, exceeds}
use mimeclip.Config.{Limits}
use mimeclip.Database.{
  EntryRow, Tables, Planner, Database, DbError, Sql, pure, fail, continue, settle, attempt, execute,
  query, update, ◌>>=◌,
}
use mimeclip.Database.Store.{evict, trim_count, trim_size, trim, set_limits, reload_config}

-- The limits that the database works with
abbrev pub limits_of : Database → Limits
limits_of db = record { max_entries = db.max_entries; max_history_size = db.max_history_size }

record IsLimited {A : Type 0} (m : Sql A) : Type 0 where
  at : (db : Database) → limits_of (m db).1 ≡ limits_of db

module _ {A : Type 0} (effect : Database → Result DbError (A × Database)) where
  abbrev IsSame : Database → Result DbError (A × Database) → Type 0
  IsSame db (ok (a, after)) = limits_of after ≡ limits_of db
  IsSame db (err e) = Unit

  settle-same :
      (r : Result DbError (A × Database)) (db : Database)
      → IsSame db r
      → limits_of (settle r db).1 ≡ limits_of db
  unfolding settle
  settle-same (ok (a, after)) db s = s
  settle-same (err e) db s = refl

  attempt-same :
      ((db : Database) → IsSame db (effect db))
      → (faults : List Bool) (db : Database) → limits_of (attempt faults effect db).1 ≡ limits_of db
  unfolding attempt
  attempt-same same [] db = settle-same (effect db) db (same db)
  attempt-same same (true ∷ faults) db = refl
  attempt-same same (false ∷ faults) db =
      settle-same _ (record db { faults = faults }) (same (record db { faults = faults }))

  IsLimited-execute : ((db : Database) → IsSame db (effect db)) → IsLimited (execute effect)
  unfolding execute
  IsLimited-execute same = record { at = λ db. attempt-same same db.faults db }

IsLimited-pure : {A : Type 0} (a : A) → IsLimited (pure a)
unfolding pure
IsLimited-pure a = record { at = λ db. refl }

IsLimited-query : {A : Type 0} (select : Tables → A) → IsLimited (query select)
unfolding query
IsLimited-query select = IsLimited-execute _ (λ db. refl)

IsLimited-update : (change : Tables → Tables) → IsLimited (update change)
unfolding update
IsLimited-update change = IsLimited-execute _ (λ db. refl)

continue-same :
    {A B : Type 0} (r : Result DbError A) (f : A → Sql B) (db : Database)
    → ((a : A) → IsLimited (f a))
    → limits_of (continue r f db).1 ≡ limits_of db
continue-same (ok a) f db k = (k a).at db
continue-same (err e) f db k = refl

IsLimited-bind :
    {A B : Type 0} (m : Sql A) (f : A → Sql B)
    → IsLimited m
    → ((a : A) → IsLimited (f a))
    → IsLimited (m >>= f)
unfolding ◌>>=◌
IsLimited-bind m f km kf = record { at = λ db. continue-same (m db).0 f (m db).1 kf ∙ km.at db }

IsLimited-if :
    {A : Type 0} (b : Bool) (m n : Sql A)
    → IsLimited m
    → IsLimited n
    → IsLimited (if b then m else n)
IsLimited-if true m n km kn = km
IsLimited-if false m n km kn = kn

evict-IsLimited :
    (limit : ℤ) (remaining : ℕ) (rows : List EntryRow) → IsLimited (evict limit remaining rows)
unfolding evict
evict-IsLimited limit remaining [] = IsLimited-pure tt
evict-IsLimited limit remaining (r ∷ rows) =
    IsLimited-if (not (exceeds remaining limit)) _ _ (IsLimited-pure tt) (
      IsLimited-bind _ _ (IsLimited-update _)
        (λ _. evict-IsLimited limit (remaining - r.size) rows))

trim-IsLimited : (plan : Planner) → IsLimited (trim plan)
unfolding trim trim_size
trim-IsLimited plan = record {
  at = λ db.
      (IsLimited-bind _ _ (IsLimited-update (trim_count plan db.max_entries)) (λ _.
          IsLimited-bind _ _ (IsLimited-query _) (λ total.
            IsLimited-if (exceeds total (as_i64 db.max_history_size)) _ _
              (IsLimited-bind _ _ (IsLimited-query _) (λ rows. evict-IsLimited _ total rows))
              (IsLimited-pure tt)))).at
        db;
}

-- A reload that succeeds has loaded limits, and the database works with them.
pub reload_config-limits :
    (plan : Planner) (loaded : Option Limits) (db : Database) (u : Unit {0})
    → (reload_config plan loaded db).0 ≡ ok u
    → loaded ≡ some (limits_of (reload_config plan loaded db).1)
unfolding reload_config set_limits fail
reload_config-limits plan none db u h = cc
reload_config-limits plan (some l) db u h = ap some (
    sym (
      (trim-IsLimited plan).at
        (record db { max_entries = l.max_entries; max_history_size = l.max_history_size })))

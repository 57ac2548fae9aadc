-- ===== src/Database/Trim.antt =====
-- What `trim` of src/common/db.rs keeps, where no statement fails.
pub mod Ids
pub mod Count
pub mod Size
pub mod Bounds
pub mod Within
pub mod Exact
use mimeclip.Base.{
  ◌≡◌, ◌∙◌, Perm, All, ◌++◌, ◌∷◌, sym, subst, refl, Bool, true, [], List, ok, arith, Result,
}
use mathlib.Core.List.Perm
use mathlib.Core.List.{perm_append_comm, append_assoc}
use mimeclip.Base.Bytes.{text_le}
use mimeclip.Base.Perms.{All-perm}
use mimeclip.Database.{
  EntryRow, Tables, Database, DbError, Sql, execute, query, update, attempt, settle,
}

abbrev pub HasNoFaults : Database → Type 0
HasNoFaults db = db.faults ≡ []

attempt_now :
    {A : Type 0} (faults : List Bool) (effect : Database → Result DbError (A × Database))
    (db : Database)
    → faults ≡ []
    → attempt faults effect db ≡ settle (effect db) db
unfolding attempt
attempt_now faults effect db e = rw e

pub execute_now :
    {A : Type 0} (effect : Database → Result DbError (A × Database)) (db : Database) {a : A}
    {after : Database}
    → HasNoFaults db
    → effect db ≡ ok (a, after)
    → execute effect db ≡ (ok a, after)
unfolding execute settle
execute_now effect db h e = attempt_now db.faults effect db h ∙ rw e

pub query_now :
    {A : Type 0} (select : Tables → A) (db : Database)
    → HasNoFaults db
    → query select db ≡ (ok (select db.tables), db)
unfolding query
query_now select db h = execute_now _ db h refl

pub update_now :
    (change : Tables → Tables) (db : Database)
    → HasNoFaults db
    → update change db ≡ (ok tt, record db { tables = change db.tables })
unfolding update
update_now change db h = execute_now _ db h refl

-- Every row of `gone` was last used no later than every row of `kept`.
abbrev pub IsOutlived : List EntryRow → EntryRow → Type 0
IsOutlived kept g = All (λ (k : EntryRow). text_le g.last_used_at k.last_used_at ≡ true) kept

abbrev pub Outlives : List EntryRow → List EntryRow → Type 0
Outlives kept gone = All (IsOutlived kept) gone

-- Some rows are gone, all others stay as they are, and none that stays was used before one that
-- is gone.
pub record Retains (before after : List EntryRow) : Type 0 where
  pub gone : List EntryRow
  pub perm : Perm before (gone ++ after)
  pub outlives : Outlives after gone

pub IsOutlived-perm :
    {xs ys : List EntryRow} (g : EntryRow) → Perm xs ys → IsOutlived xs g → IsOutlived ys g
IsOutlived-perm g p h = All-perm _ (λ k. hlevel) p h

pub Outlives-map :
    (xs ys gone : List EntryRow)
    → ((g : EntryRow) → IsOutlived xs g → IsOutlived ys g)
    → Outlives xs gone
    → Outlives ys gone
Outlives-map xs ys [] f o = tt
Outlives-map xs ys (g ∷ gone) f o = (f g o.0, Outlives-map xs ys gone f o.1)

pub Outlives-perm :
    (gone : List EntryRow) {xs ys : List EntryRow}
    → Perm xs ys
    → Outlives xs gone
    → Outlives ys gone
Outlives-perm gone {xs} {ys} p o = Outlives-map xs ys gone (λ g h. IsOutlived-perm g p h) o

pub Retains-refl : (rows : List EntryRow) → Retains rows rows
Retains-refl rows = record { gone = []; perm = Perm.refl rows; outlives = tt }

pub All-back : (g : EntryRow) (xs ys : List EntryRow) → IsOutlived (xs ++ ys) g → IsOutlived ys g
All-back g [] ys h = h
All-back g (x ∷ xs) ys h = All-back g xs ys h.1

pub Outlives-append :
    (kept xs ys : List EntryRow) → Outlives kept xs → Outlives kept ys → Outlives kept (xs ++ ys)
Outlives-append kept [] ys ox oy = oy
Outlives-append kept (x ∷ xs) ys ox oy = (ox.0, Outlives-append kept xs ys ox.1 oy)

pub Retains-trans : {a b c : List EntryRow} → Retains a b → Retains b c → Retains a c
Retains-trans {b} {c} r s = record {
  gone = r.gone ++ s.gone;
  perm = Perm.trans r.perm (
      subst (Perm (r.gone ++ b)) (sym (append_assoc r.gone s.gone c))
        (Perm.append (Perm.refl r.gone) s.perm));
  outlives =
      Outlives-append c r.gone s.gone
        (Outlives-map b c r.gone (λ g h. All-back g s.gone c (IsOutlived-perm g s.perm h))
          r.outlives)
        s.outlives;
}

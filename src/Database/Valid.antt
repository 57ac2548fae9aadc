-- ===== src/Database/Valid.antt =====
-- The invariant of the tables of src/common/db.rs, and the rules by which methods keep one.
pub mod Rows
pub mod Trimming
pub mod Methods
use mimeclip.Base.{
  ℕ, ◌≤◌, ◌<◌, ◌≡◌, refl, Bool, true, false, not, ◌&&◌, List, [], ◌∷◌, any, All, ok, err, Result,
  ◌==◌, arith, if◌then◌else◌,
}
use mimeclip.Base.Bytes.{Text, text_eq}
use mimeclip.Database.{
  EntryRow, PayloadRow, Tables, Database, DbError, Sql, pure, fail, execute, query, update, ◌>>=◌,
  ◌>>◌, continue, settle, attempt,
}

-- Ascending keys above `lo`, the last of them at most `seq`.
abbrev pub Ascends : {A : Type 0} → (A → ℕ) → ℕ → ℕ → List A → Type 0
Ascends key seq lo [] = lo ≤ seq
Ascends key seq lo (x ∷ xs) = (lo < key x) × Ascends key seq (key x) xs

abbrev pub IsNewHash : Text → List EntryRow → Type 0
IsNewHash hash = All (λ r. text_eq r.hash hash ≡ false)

abbrev pub HasDistinctHashes : List EntryRow → Type 0
HasDistinctHashes [] = Unit
HasDistinctHashes (r ∷ rows) = IsNewHash r.hash rows × HasDistinctHashes rows

-- The payload belongs to a row of `entries`.
abbrev pub IsOwned : List EntryRow → PayloadRow → Type 0
IsOwned rows p = any (λ (r : EntryRow). r.id == p.entry_id) rows ≡ true

pub record IsValid (t : Tables) : Type 0 where
  pub ids : Ascends (λ r. r.id) t.entry_seq 0 t.entries
  pub payload_ids : Ascends (λ p. p.id) t.payload_seq 0 t.payloads
  pub hashes : HasDistinctHashes t.entries
  pub owned : t.references ≡ true → All (IsOwned t.entries) t.payloads

-- Whatever statements fail, `m` keeps `P`.
pub record Keeps {A : Type 0} (P : Tables → Type 0) (m : Sql A) : Type 0 where
  pub at : (db : Database) → P db.tables → P (m db).1.tables

abbrev pub Settled : {A : Type 0} → (Tables → Type 0) → Result DbError (A × Database) → Type 0
Settled P (ok (a, db)) = P db.tables
Settled P (err e) = Unit

settle-keeps :
    (P : Tables → Type 0) {A : Type 0} (r : Result DbError (A × Database)) (db : Database)
    → Settled P r
    → P db.tables
    → P (settle r db).1.tables
unfolding settle
settle-keeps P (ok (a, after)) db s h = s
settle-keeps P (err e) db s h = h

attempt-keeps :
    (P : Tables → Type 0) {A : Type 0} (faults : List Bool)
    (effect : Database → Result DbError (A × Database))
    → ((db : Database) → P db.tables → Settled P (effect db))
    → (db : Database) → P db.tables
    → P (attempt faults effect db).1.tables
unfolding attempt
attempt-keeps P [] effect k db h = settle-keeps P (effect db) db (k db h) h
attempt-keeps P (true ∷ faults) effect k db h = h
attempt-keeps P (false ∷ faults) effect k db h =
    settle-keeps P (effect (record db { faults = faults })) (record db { faults = faults })
      (k (record db { faults = faults }) h) h

module _ {P : Tables → Type 0} where
  pub Keeps-pure : {A : Type 0} (a : A) → Keeps P (pure a)
  unfolding pure
  Keeps-pure a = record { at = λ db h. h }

  pub Keeps-fail : {A : Type 0} (e : DbError) → Keeps P (fail {A = A} e)
  unfolding fail
  Keeps-fail e = record { at = λ db h. h }

  continue-keeps :
      {A B : Type 0} (r : Result DbError A) (f : A → Sql B) (db : Database)
      → ((a : A) → Keeps P (f a))
      → P db.tables
      → P (continue r f db).1.tables
  continue-keeps (ok a) f db k h = (k a).at db h
  continue-keeps (err e) f db k h = h

  pub Keeps-bind :
      {A B : Type 0} (m : Sql A) (f : A → Sql B)
      → Keeps P m
      → ((a : A) → Keeps P (f a))
      → Keeps P (m >>= f)
  unfolding ◌>>=◌
  Keeps-bind m f km kf = record { at = λ db h. continue-keeps (m db).0 f (m db).1 kf (km.at db h) }

  pub Keeps-execute :
      {A : Type 0} (effect : Database → Result DbError (A × Database))
      → ((db : Database) → P db.tables → Settled P (effect db))
      → Keeps P (execute effect)
  unfolding execute
  Keeps-execute effect k = record { at = λ db h. attempt-keeps P db.faults effect k db h }

  pub Keeps-query : {A : Type 0} (select : Tables → A) → Keeps P (query select)
  unfolding query
  Keeps-query select = Keeps-execute _ (λ db h. h)

  pub Keeps-update :
      (change : Tables → Tables) → ((t : Tables) → P t → P (change t)) → Keeps P (update change)
  unfolding update
  Keeps-update change k = Keeps-execute _ (λ db h. k db.tables h)

  pub Keeps-if :
      {A : Type 0} (b : Bool) (m n : Sql A) → Keeps P m → Keeps P n → Keeps P (if b then m else n)
  Keeps-if true m n km kn = km
  Keeps-if false m n km kn = kn

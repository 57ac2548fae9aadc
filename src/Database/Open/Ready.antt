-- ===== src/Database/Open/Ready.antt =====
-- The invariant of the tables, from a file of any age to the open database of src/common/db.rs.
use mimeclip.Base.{ℕ, ◌≡◌, refl, sym, ap, ap₂, ◌∙◌, false, List, [], ◌∷◌, map, any, All, ok, ◌==◌}
use mathlib.Core.Option.{Option, some}
use mimeclip.Base.Bytes.{Text}
use mimeclip.Database.{EntryRow, PayloadRow, Tables}
use mimeclip.Database.Valid.{Ascends, IsNewHash, HasDistinctHashes, IsOwned, IsValid}
use mimeclip.Database.Open.{StoredRow, Content, Disk, Opened, new_payloads}
use mimeclip.Database.Open.Reading.{tables_of}
use mimeclip.Database.Open.Times.{untimed, rows_in}
use mimeclip.Database.Open.Migration.{Pairs}
use mimeclip.Database.Open.Sound.{
  Opening, IsMigrated, IsReady, erase, after_openings, open_again, open_file-IsReady,
}

-- The tables of the file, whatever its times are.
unfoldable pub stored_tables : Content → Tables
stored_tables c = record {
  entries = map untimed (rows_in c.entries);
  payloads = (new_payloads c.payloads).rows;
  entry_seq = c.entry_seq;
  payload_seq = c.payload_seq;
  references = (new_payloads c.payloads).references;
  timestamp_column = false;
}

id_eq : (old : StoredRow) (r : EntryRow) → IsMigrated old r → (untimed old).id ≡ r.id
unfolding erase
id_eq old r m = ap (λ (x : EntryRow). x.id) (sym m.same)

hash_eq : (old : StoredRow) (r : EntryRow) → IsMigrated old r → (untimed old).hash ≡ r.hash
unfolding erase
hash_eq old r m = ap (λ (x : EntryRow). x.hash) (sym m.same)

Ascends-migrated :
    (seq lo : ℕ) (olds : List StoredRow) (rows : List EntryRow)
    → Pairs IsMigrated olds rows
    → Ascends (λ (r : EntryRow). r.id) seq lo (map untimed olds)
    → Ascends (λ (r : EntryRow). r.id) seq lo rows
Ascends-migrated seq lo [] [] p a = a
Ascends-migrated seq lo [] (r ∷ rows) p a = elim p [ ]
Ascends-migrated seq lo (old ∷ olds) [] p a = elim p [ ]
Ascends-migrated seq lo (old ∷ olds) (r ∷ rows) p a =
    let e = id_eq old r p.0 in (rw⁻¹ e a.0, Ascends-migrated seq r.id olds rows p.1 (rw⁻¹ e a.1))

IsNewHash-migrated :
    (hash : Text) (olds : List StoredRow) (rows : List EntryRow)
    → Pairs IsMigrated olds rows
    → IsNewHash hash (map untimed olds)
    → IsNewHash hash rows
IsNewHash-migrated hash [] [] p a = a
IsNewHash-migrated hash [] (r ∷ rows) p a = elim p [ ]
IsNewHash-migrated hash (old ∷ olds) [] p a = elim p [ ]
IsNewHash-migrated hash (old ∷ olds) (r ∷ rows) p a =
    (rw⁻¹ (hash_eq old r p.0) a.0, IsNewHash-migrated hash olds rows p.1 a.1)

HasDistinctHashes-migrated :
    (olds : List StoredRow) (rows : List EntryRow)
    → Pairs IsMigrated olds rows
    → HasDistinctHashes (map untimed olds)
    → HasDistinctHashes rows
HasDistinctHashes-migrated [] [] p a = a
HasDistinctHashes-migrated [] (r ∷ rows) p a = elim p [ ]
HasDistinctHashes-migrated (old ∷ olds) [] p a = elim p [ ]
HasDistinctHashes-migrated (old ∷ olds) (r ∷ rows) p a = (
  IsNewHash-migrated r.hash olds rows p.1 (rw⁻¹ (hash_eq old r p.0) a.0),
  HasDistinctHashes-migrated olds rows p.1 a.1,
)

owner-migrated :
    (entry_id : ℕ) (olds : List StoredRow) (rows : List EntryRow)
    → Pairs IsMigrated olds rows
    → any (λ (r : EntryRow). r.id == entry_id) (map untimed olds)
      ≡ any (λ (r : EntryRow). r.id == entry_id) rows
unfolding any
owner-migrated entry_id [] [] p = refl
owner-migrated entry_id [] (r ∷ rows) p = elim p [ ]
owner-migrated entry_id (old ∷ olds) [] p = elim p [ ]
owner-migrated entry_id (old ∷ olds) (r ∷ rows) p =
    rw (id_eq old r p.0, owner-migrated entry_id olds rows p.1) refl

IsOwned-migrated :
    (olds : List StoredRow) (rows : List EntryRow) (payloads : List PayloadRow)
    → Pairs IsMigrated olds rows
    → All (IsOwned (map untimed olds)) payloads
    → All (IsOwned rows) payloads
IsOwned-migrated olds rows [] p a = tt
IsOwned-migrated olds rows (x ∷ payloads) p a =
    (sym (owner-migrated x.entry_id olds rows p) ∙ a.0, IsOwned-migrated olds rows payloads p a.1)

erase-migrated :
    (olds : List StoredRow) (rows : List EntryRow)
    → Pairs IsMigrated olds rows
    → map erase rows ≡ map untimed olds
erase-migrated [] [] p = refl
erase-migrated [] (r ∷ rows) p = elim p [ ]
erase-migrated (old ∷ olds) [] p = elim p [ ]
erase-migrated (old ∷ olds) (r ∷ rows) p =
    ap₂ (λ x xs. x ∷ xs) p.0.same (erase-migrated olds rows p.1)

IsReady-IsValid :
    (c : Content) (o : Opened) (t : Tables) → IsReady c o t → IsValid (stored_tables c) → IsValid t
unfolding stored_tables
IsReady-IsValid c o t r v = record {
  ids = rw r.entry_seq (Ascends-migrated c.entry_seq 0 (rows_in c.entries) t.entries r.rows v.ids);
  payload_ids = rw (r.payload_seq, r.payloads) v.payload_ids;
  hashes = HasDistinctHashes-migrated (rows_in c.entries) t.entries r.rows v.hashes;
  owned = λ on.
      rw r.payloads
        (IsOwned-migrated (rows_in c.entries) t.entries _ r.rows (v.owned (sym r.references ∙ on)));
}

-- From a file whose tables are valid but for missing times, however many openings broke off before:
-- when one succeeds, the methods read every row of the file, and the tables that they read are
-- valid.
pub open_file-IsValid :
    (sqlite_files : (Text → Option ℕ) → Text → Option ℕ) (path : Text) (openings : List Opening)
    (o : Opening) (d : Disk) (opened : Opened)
    → (open_again sqlite_files path o (after_openings sqlite_files path openings d)).0 ≡ ok opened
    → IsValid (stored_tables d.content)
    → (t : Tables) × (tables_of
          (open_again sqlite_files path o (after_openings sqlite_files path openings d)).1.content
        ≡ some t)
      × (map erase t.entries ≡ map untimed (rows_in d.content.entries))
      × IsValid t
open_file-IsValid sqlite_files path openings o d opened h v =
    let (t, e, r) = open_file-IsReady sqlite_files path openings o d opened h in
    (
      t,
      e,
      erase-migrated (rows_in d.content.entries) t.entries r.rows,
      IsReady-IsValid d.content opened t r v,
    )

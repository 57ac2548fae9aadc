-- ===== src/Database/History/Inserting.antt =====
-- What `insert` of src/common/db.rs does to the tables where no statement fails.
use mathlib.Core.Bool.{xor}
use mimeclip.Base.{
  ℕ, suc, ◌≡◌, refl, subst, ◌∙◌, inl, inr, Bool, Bool-cases, true, false, none, some, List, [], ◌∷◌,
  ◌++◌, any, ok, ◌==◌, arith,
}
use mimeclip.Base.Bytes.{Text, text_eq}
use mimeclip.Payloads.{Payload}
use mimeclip.Database.{EntryRow, Planner, Database, ◌>>=◌, pure}
use mimeclip.Database.Query.{first_row, id_of_hash, find_by_hash}
use mimeclip.Database.Store.{
  NewEntry, new_row, append_entry, row_effect, insert_row, new_payload, append_payload,
  payload_effect, insert_payload, insert_payloads, refresh, insert_new, insert_found, insert,
}
use mimeclip.Database.Valid.{IsValid}
use mimeclip.Database.Valid.Methods.{insert_row-Keeps, insert_payloads-Keeps}
use mimeclip.Database.Trim.{HasNoFaults, execute_now, query_now, update_now}
use mimeclip.Database.Trim.Bounds.{trimmed, trim_now}

-- The rows of the payloads, one after the other
unfoldable pub add_payloads : ℕ → List Payload → Database → Database
unfolding append_payload new_payload
add_payloads entry_id [] db = db
add_payloads entry_id (p ∷ payloads) db =
    add_payloads entry_id payloads (append_payload (new_payload (suc db.payload_seq) entry_id p) db)

insert_payload_now :
    (entry_id : ℕ) (p : Payload) (db : Database)
    → HasNoFaults db
    → any (λ (r : EntryRow). r.id == entry_id) db.entries ≡ true
    → insert_payload entry_id p db
      ≡ (ok tt, append_payload (new_payload (suc db.payload_seq) entry_id p) db)
unfolding insert_payload payload_effect
insert_payload_now entry_id p db h there = execute_now _ db h (ground (arith, there))

insert_payloads_now :
    (entry_id : ℕ) (payloads : List Payload) (db : Database)
    → HasNoFaults db
    → any (λ (r : EntryRow). r.id == entry_id) db.entries ≡ true
    → insert_payloads entry_id payloads db ≡ (ok tt, add_payloads entry_id payloads db)
unfolding insert_payloads add_payloads pure ◌>>=◌ append_payload
insert_payloads_now entry_id [] db h there = refl
insert_payloads_now entry_id (p ∷ payloads) db h there =
    rw (insert_payload_now entry_id p db h there) (
      insert_payloads_now entry_id payloads
        (append_payload (new_payload (suc db.payload_seq) entry_id p) db) h there)

xor_same : (b : Bool) → xor b b ≡ false
unfolding xor
xor_same true = refl
xor_same false = refl

insert_row_now :
    (e : NewEntry) (db : Database)
    → HasNoFaults db
    → any (λ (r : EntryRow). text_eq r.hash e.hash) db.entries ≡ false
    → db.has_legacy_timestamp ≡ db.timestamp_column
    → insert_row e db.has_legacy_timestamp db
      ≡ (ok tt, append_entry (new_row e (suc db.entry_seq)) db)
unfolding insert_row row_effect
insert_row_now e db h fresh same =
    execute_now _ db h (rw (fresh, same, xor_same db.timestamp_column) refl)

-- The database with the new row and its payloads, before it is trimmed
unfoldable pub added : NewEntry → Database → Database
added e db =
    add_payloads (suc db.entry_seq) e.payloads (append_entry (new_row e (suc db.entry_seq)) db)

-- A hash that is found is that of a row, and no row has one that is not.
pub any_of_none :
    (hash : Text) (rows : List EntryRow)
    → first_row (λ r. text_eq r.hash hash) (λ r. r.id) rows ≡ none
    → any (λ r. text_eq r.hash hash) rows ≡ false
unfolding first_row any
any_of_none hash [] h = refl
any_of_none hash (r ∷ rows) h = elim (Bool-cases (text_eq r.hash hash)) [
  | inl e ↦ let k = rw e at h in cc
  | inr e ↦ let k = rw e at h in rw e (any_of_none hash rows k)
]

any_last :
    (id : ℕ) (rows : List EntryRow) (r : EntryRow)
    → r.id ≡ id
    → any (λ (s : EntryRow). s.id == id) (rows ++ r ∷ []) ≡ true
unfolding any
any_last id [] r e = ground arith
any_last id (s ∷ rows) r e = ground (arith, any_last id rows r e)

-- What the payloads leave as it is
pub record IsLike (before after : Database) : Type 0 where
  pub entries : after.entries ≡ before.entries
  pub entry_seq : after.entry_seq ≡ before.entry_seq
  pub references : after.references ≡ before.references
  pub timestamp_column : after.timestamp_column ≡ before.timestamp_column
  pub has_legacy_timestamp : after.has_legacy_timestamp ≡ before.has_legacy_timestamp
  pub faults : after.faults ≡ before.faults
  pub max_entries : after.max_entries ≡ before.max_entries
  pub max_history_size : after.max_history_size ≡ before.max_history_size

add_payloads-IsLike :
    (entry_id : ℕ) (payloads : List Payload) (db : Database)
    → IsLike db (add_payloads entry_id payloads db)
unfolding add_payloads append_payload
add_payloads-IsLike entry_id [] db = record {
  entries = refl;
  entry_seq = refl;
  references = refl;
  timestamp_column = refl;
  has_legacy_timestamp = refl;
  faults = refl;
  max_entries = refl;
  max_history_size = refl;
}
add_payloads-IsLike entry_id (p ∷ payloads) db =
    let l =
      add_payloads-IsLike entry_id payloads
        (append_payload (new_payload (suc db.payload_seq) entry_id p) db) in
    record {
      entries = l.entries;
      entry_seq = l.entry_seq;
      references = l.references;
      timestamp_column = l.timestamp_column;
      has_legacy_timestamp = l.has_legacy_timestamp;
      faults = l.faults;
      max_entries = l.max_entries;
      max_history_size = l.max_history_size;
    }

pub added-IsLike :
    (e : NewEntry) (db : Database)
    → IsLike (append_entry (new_row e (suc db.entry_seq)) db) (added e db)
unfolding added
added-IsLike e db = add_payloads-IsLike (suc db.entry_seq) e.payloads _

pub added-HasNoFaults : (e : NewEntry) (db : Database) → HasNoFaults db → HasNoFaults (added e db)
unfolding append_entry
added-HasNoFaults e db h = (added-IsLike e db).faults ∙ h

module _ (e : NewEntry) (db : Database) (h : HasNoFaults db)
    (same : db.has_legacy_timestamp ≡ db.timestamp_column)
    (fresh : any (λ (r : EntryRow). text_eq r.hash e.hash) db.entries ≡ false)
    (v : IsValid db.tables) where
  appended-IsValid : IsValid (append_entry (new_row e (suc db.entry_seq)) db).tables
  appended-IsValid =
      subst (λ x. IsValid x.1.tables) (insert_row_now e db h fresh same)
        ((insert_row-Keeps e db.has_legacy_timestamp).at db v)

  pub added-IsValid : IsValid (added e db).tables
  unfolding added append_entry new_row
  added-IsValid =
      let d = append_entry (new_row e (suc db.entry_seq)) db in
      subst (λ x. IsValid x.1.tables)
        (insert_payloads_now (suc db.entry_seq) e.payloads d h
          (any_last (suc db.entry_seq) db.entries (new_row e (suc db.entry_seq)) refl))
        ((insert_payloads-Keeps (suc db.entry_seq) e.payloads).at d appended-IsValid)

-- The rest of `insert` for a hash that is not there
insert_new_now :
    (plan : Planner) (e : NewEntry) (db : Database)
    → HasNoFaults db
    → db.has_legacy_timestamp ≡ db.timestamp_column
    → any (λ (r : EntryRow). text_eq r.hash e.hash) db.entries ≡ false
    → insert_new plan e db
      ≡ (ok (suc db.entry_seq), record (added e db) { tables = trimmed plan (added e db) })
unfolding insert_new pure ◌>>=◌ append_entry added new_row
insert_new_now plan e db h same fresh =
    rw
      (
        insert_row_now e db h fresh same,
        insert_payloads_now (suc db.entry_seq) e.payloads
            (append_entry (new_row e (suc db.entry_seq)) db) h
            (any_last (suc db.entry_seq) db.entries (new_row e (suc db.entry_seq)) refl),
        trim_now plan (added e db) (added-HasNoFaults e db h),
      )
      refl

pub insert_fresh :
    (plan : Planner) (e : NewEntry) (db : Database)
    → HasNoFaults db
    → db.has_legacy_timestamp ≡ db.timestamp_column
    → id_of_hash e.hash db.tables ≡ none
    → insert plan e db
      ≡ (ok (suc db.entry_seq), record (added e db) { tables = trimmed plan (added e db) })
unfolding insert insert_found find_by_hash ◌>>=◌
insert_fresh plan e db h same fresh =
    rw (query_now (id_of_hash e.hash) db h, fresh)
      (insert_new_now plan e db h same (any_of_none e.hash db.entries (unfold id_of_hash in fresh)))

pub insert_known :
    (plan : Planner) (e : NewEntry) (db : Database) (id : ℕ)
    → HasNoFaults db
    → id_of_hash e.hash db.tables ≡ some id
    → insert plan e db
      ≡ (ok id, record db { tables = trimmed plan (record db { tables = refresh e id db.tables }) })
unfolding insert insert_found find_by_hash ◌>>=◌ pure
insert_known plan e db id h known =
    rw
      (
        query_now (id_of_hash e.hash) db h,
        known,
        update_now (refresh e id) db h,
        trim_now plan (record db { tables = refresh e id db.tables }) h,
      )
      refl

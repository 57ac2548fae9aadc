-- ===== src/Database/Valid/Methods.antt =====
-- Every method of src/common/db.rs keeps the invariant of the tables, whatever statements fail.
use mimeclip.Base.{
  ℕ, suc, ◌≡◌, refl, Bool, Bool-cases, inl, inr, true, false, not, xor, ◌&&◌, Option, none, some,
  List, [], ◌∷◌, ◌++◌, any, map, All-append, ◌==◌, arith,
}
use mimeclip.Base.Bytes.{Text, text_eq, text_eq_iff}
use mimeclip.Config.{Limits}
use mimeclip.Payloads.{Payload}
use mimeclip.Database.{EntryRow, PayloadRow, Tables, Planner, Database, config, pure}
use mimeclip.Database.Query.{find_by_hash}
use mimeclip.Database.Store.{
  NewEntry, delete_entry, trim_count, trim, refresh_row, refresh, new_row, append_entry, row_effect,
  insert_row, new_payload, append_payload, payload_effect, insert_payload, insert_payloads,
  insert_new, insert_found, insert, set_limits, reload_config, touch_row, touch_last_used, delete,
  clear,
}
use mimeclip.Database.Valid.{
  IsNewHash, HasDistinctHashes, IsOwned, IsValid, Keeps, Keeps-pure, Keeps-fail, Keeps-bind,
  Keeps-execute, Keeps-query, Keeps-update, Settled,
}
use mimeclip.Database.Valid.Trimming.{delete_entry-keeps, trim_count-keeps, trim-Keeps}
use mimeclip.Database.Valid.Rows.{Ascends-append, Ascends-map, All-mono, delete_where-IsValid}

delete_entry-IsValid : (entry_id : ℕ) (t : Tables) → IsValid t → IsValid (delete_entry entry_id t)
delete_entry-IsValid = delete_entry-keeps IsValid (λ gone by_id t v. delete_where-IsValid gone t v)

pub trim_count-IsValid :
    (plan : Planner) (n : ℕ) (t : Tables) → IsValid t → IsValid (trim_count plan n t)
trim_count-IsValid = trim_count-keeps IsValid (λ gone by_id t v. delete_where-IsValid gone t v)

trim-IsValid : (plan : Planner) → Keeps IsValid (trim plan)
trim-IsValid = trim-Keeps IsValid (λ gone by_id t v. delete_where-IsValid gone t v)

-- A map that leaves ids and hashes alone keeps the owner of every payload.
any_id-map :
    (f : EntryRow → EntryRow) (entry_id : ℕ) (rows : List EntryRow)
    → ((r : EntryRow) → (f r).id ≡ r.id)
    → any (λ (r : EntryRow). r.id == entry_id) (map f rows)
      ≡ any (λ (r : EntryRow). r.id == entry_id) rows
unfolding any
any_id-map f entry_id [] same = refl
any_id-map f entry_id (r ∷ rows) same = rw (same r, any_id-map f entry_id rows same)

IsNewHash-map :
    (f : EntryRow → EntryRow) (hash : Text) (rows : List EntryRow)
    → ((r : EntryRow) → (f r).hash ≡ r.hash)
    → IsNewHash hash rows
    → IsNewHash hash (map f rows)
IsNewHash-map f hash [] same h = tt
IsNewHash-map f hash (r ∷ rows) same h = (rw (same r) h.0, IsNewHash-map f hash rows same h.1)

HasDistinctHashes-map :
    (f : EntryRow → EntryRow) (rows : List EntryRow)
    → ((r : EntryRow) → (f r).hash ≡ r.hash)
    → HasDistinctHashes rows
    → HasDistinctHashes (map f rows)
HasDistinctHashes-map f [] same d = tt
HasDistinctHashes-map f (r ∷ rows) same d =
    (rw (same r) (IsNewHash-map f r.hash rows same d.0), HasDistinctHashes-map f rows same d.1)

map_rows-IsValid :
    (f : EntryRow → EntryRow) (t : Tables)
    → ((r : EntryRow) → (f r).id ≡ r.id)
    → ((r : EntryRow) → (f r).hash ≡ r.hash)
    → IsValid t
    → IsValid (record t { entries = map f t.entries })
map_rows-IsValid f t ids hashes v = record {
  ids = Ascends-map (λ r. r.id) f t.entry_seq 0 t.entries ids v.ids;
  payload_ids = v.payload_ids;
  hashes = HasDistinctHashes-map f t.entries hashes v.hashes;
  owned = λ on.
      All-mono (IsOwned t.entries) (IsOwned (map f t.entries)) t.payloads
        (λ p h. rw (any_id-map f p.entry_id t.entries ids) h) (v.owned on);
}

pub refresh-IsValid :
    (e : NewEntry) (entry_id : ℕ) (t : Tables) → IsValid t → IsValid (refresh e entry_id t)
unfolding refresh refresh_row
refresh-IsValid e entry_id t v = map_rows-IsValid _ t (λ r. ground arith) (λ r. ground arith) v

touch-IsValid :
    (now : Text) (entry_id : ℕ) (t : Tables)
    → IsValid t
    → IsValid (record t { entries = map (touch_row now entry_id) t.entries })
unfolding touch_row
touch-IsValid now entry_id t v = map_rows-IsValid _ t (λ r. ground arith) (λ r. ground arith) v

text_eq_flip : (a b : Text) → text_eq a b ≡ false → text_eq b a ≡ false
text_eq_flip a b h = ground (arith, text_eq_iff a b, text_eq_iff b a)

HasDistinctHashes-append :
    (rows : List EntryRow) (r : EntryRow)
    → any (λ (s : EntryRow). text_eq s.hash r.hash) rows ≡ false
    → HasDistinctHashes rows
    → HasDistinctHashes (rows ++ r ∷ [])
unfolding any
HasDistinctHashes-append [] r h d = (tt, tt)
HasDistinctHashes-append (s ∷ rows) r h d = (
  All-append (λ q. text_eq q.hash s.hash ≡ false) rows (r ∷ []) d.0
      (text_eq_flip s.hash r.hash (ground arith), tt),
  HasDistinctHashes-append rows r (ground arith) d.1,
)

any_append_left :
    {A : Type 0} (test : A → Bool) (xs ys : List A)
    → any test xs ≡ true
    → any test (xs ++ ys) ≡ true
unfolding any
any_append_left test [] ys h = cc
any_append_left test (x ∷ xs) ys h = ground (arith, any_append_left test xs ys)

any_append_last :
    {A : Type 0} (test : A → Bool) (xs : List A) (y : A)
    → test y ≡ true
    → any test (xs ++ y ∷ []) ≡ true
unfolding any
any_append_last test [] y h = rw h
any_append_last test (x ∷ xs) y h = ground (arith, any_append_last test xs y h)

-- A row with the next id and a hash that is not there.
append_entry-IsValid :
    (t : Tables) (r : EntryRow)
    → r.id ≡ suc t.entry_seq
    → any (λ (s : EntryRow). text_eq s.hash r.hash) t.entries ≡ false
    → IsValid t
    → IsValid (record t { entries = t.entries ++ r ∷ []; entry_seq = suc t.entry_seq })
append_entry-IsValid t r id fresh v = record {
  ids = Ascends-append (λ s. s.id) t.entry_seq 0 t.entries r id v.ids;
  payload_ids = v.payload_ids;
  hashes = HasDistinctHashes-append t.entries r fresh v.hashes;
  owned = λ on.
      All-mono (IsOwned t.entries) (IsOwned (t.entries ++ r ∷ [])) t.payloads
        (λ p h. any_append_left (λ (s : EntryRow). s.id == p.entry_id) t.entries (r ∷ []) h)
        (v.owned on);
}

-- A payload with the next id, whose entry is there if the reference is enforced.
append_payload-IsValid :
    (t : Tables) (p : PayloadRow)
    → p.id ≡ suc t.payload_seq
    → (t.references ≡ true → IsOwned t.entries p)
    → IsValid t
    → IsValid (record t { payloads = t.payloads ++ p ∷ []; payload_seq = suc t.payload_seq })
append_payload-IsValid t p id owner v = record {
  ids = v.ids;
  payload_ids = Ascends-append (λ q. q.id) t.payload_seq 0 t.payloads p id v.payload_ids;
  hashes = v.hashes;
  owned = λ on. All-append (IsOwned t.entries) t.payloads (p ∷ []) (v.owned on) (owner on, tt);
}

row_effect-Settled :
    (e : NewEntry) (with_timestamp : Bool) (db : Database)
    → IsValid db.tables
    → Settled IsValid (row_effect e with_timestamp db)
unfolding row_effect append_entry new_row
row_effect-Settled e with_timestamp db v =
    elim (Bool-cases (any (λ (r : EntryRow). text_eq r.hash e.hash) db.entries)) [
      | inl old ↦ rw old tt
      | inr fresh ↦ elim (Bool-cases (xor with_timestamp db.timestamp_column)) [
        | inl wrong ↦ rw (fresh, wrong) tt
        | inr right ↦
            rw (fresh, right)
              (append_entry-IsValid db.tables (new_row e (suc db.entry_seq)) refl fresh v)
      ]
    ]

pub insert_row-Keeps :
    (e : NewEntry) (with_timestamp : Bool) → Keeps IsValid (insert_row e with_timestamp)
unfolding insert_row
insert_row-Keeps e with_timestamp = Keeps-execute _ (row_effect-Settled e with_timestamp)

payload_effect-Settled :
    (entry_id : ℕ) (p : Payload) (db : Database)
    → IsValid db.tables
    → Settled IsValid (payload_effect entry_id p db)
unfolding payload_effect append_payload new_payload
payload_effect-Settled entry_id p db v =
    elim (Bool-cases (db.references && not (any (λ (r : EntryRow). r.id == entry_id) db.entries))) [
      | inl orphan ↦ rw orphan tt
      | inr owned ↦ rw owned (
          append_payload-IsValid db.tables (new_payload (suc db.payload_seq) entry_id p) refl
            (λ on. ground arith) v)
    ]

insert_payload-Keeps : (entry_id : ℕ) (p : Payload) → Keeps IsValid (insert_payload entry_id p)
unfolding insert_payload
insert_payload-Keeps entry_id p = Keeps-execute _ (payload_effect-Settled entry_id p)

pub insert_payloads-Keeps :
    (entry_id : ℕ) (payloads : List Payload) → Keeps IsValid (insert_payloads entry_id payloads)
unfolding insert_payloads
insert_payloads-Keeps entry_id [] = Keeps-pure tt
insert_payloads-Keeps entry_id (p ∷ payloads) =
    Keeps-bind _ _ (insert_payload-Keeps entry_id p) (λ _. insert_payloads-Keeps entry_id payloads)

current_rowid-Keeps : Keeps IsValid (λ after. pure after.last_rowid after)
unfolding pure
current_rowid-Keeps = record { at = λ after v. v }

insert_new-Keeps : (plan : Planner) (e : NewEntry) → Keeps IsValid (insert_new plan e)
unfolding insert_new
insert_new-Keeps plan e = record {
  at = λ db.
      (Keeps-bind _ _ (insert_row-Keeps e db.has_legacy_timestamp) (λ _.
          Keeps-bind _ _ current_rowid-Keeps (λ entry_id.
            Keeps-bind _ _ (insert_payloads-Keeps entry_id e.payloads)
              (λ _. Keeps-bind _ _ (trim-IsValid plan) (λ _. Keeps-pure entry_id))))).at
        db;
}

insert_found-Keeps :
    (plan : Planner) (e : NewEntry) (found : Option ℕ) → Keeps IsValid (insert_found plan e found)
unfolding insert_found
insert_found-Keeps plan e none = insert_new-Keeps plan e
insert_found-Keeps plan e (some entry_id) =
    Keeps-bind _ _ (Keeps-update _ (refresh-IsValid e entry_id))
      (λ _. Keeps-bind _ _ (trim-IsValid plan) (λ _. Keeps-pure entry_id))

pub insert-IsValid : (plan : Planner) (e : NewEntry) → Keeps IsValid (insert plan e)
unfolding insert find_by_hash
insert-IsValid plan e = Keeps-bind _ _ (Keeps-query _) (insert_found-Keeps plan e)

set_limits-IsValid : (plan : Planner) (limits : Limits) → Keeps IsValid (set_limits plan limits)
unfolding set_limits
set_limits-IsValid plan limits = record { at = λ db v. (trim-IsValid plan).at _ v }

pub reload_config-IsValid :
    (plan : Planner) (loaded : Option Limits) → Keeps IsValid (reload_config plan loaded)
unfolding reload_config
reload_config-IsValid plan none = Keeps-fail config
reload_config-IsValid plan (some limits) = set_limits-IsValid plan limits

pub touch_last_used-IsValid :
    (now : Text) (entry_id : ℕ) → Keeps IsValid (touch_last_used now entry_id)
unfolding touch_last_used
touch_last_used-IsValid now entry_id = Keeps-update _ (touch-IsValid now entry_id)

pub delete-IsValid : (entry_id : ℕ) → Keeps IsValid (delete entry_id)
unfolding delete
delete-IsValid entry_id = Keeps-execute _ (λ db v. delete_entry-IsValid entry_id db.tables v)

pub clear-IsValid : Keeps IsValid clear
unfolding clear
clear-IsValid =
    Keeps-bind _ _ (Keeps-execute _ (λ db v. delete_where-IsValid (λ _. true) db.tables v))
      (λ n. Keeps-bind _ _ (Keeps-query _) (λ _. Keeps-pure n))

-- ===== src/Database/Lasting/Inserts.antt =====
-- The inserts of src/common/db.rs leave every other entry as it is, and so does every sequence of
-- calls.
use mimeclip.Base.{
  ℕ, ◌≤◌, ◌<◌, ◌≡◌, ◌≢◌, refl, inl, inr, Bool, Bool-cases, true, false, xor, Option, none, some,
  List, [], ◌∷◌, any, Result, ok, err, ok≢err, sym, ◌∙◌, arith,
}
use mimeclip.Base.Bytes.{text_eq}
use mimeclip.Config.{Limits}
use mimeclip.Database.{
  EntryRow, Planner, Database, DbError, Sql, execute, attempt, settle, config, constraint, pure,
  continue, ◌>>=◌,
}
use mimeclip.Database.Calls.{
  Call, inserts, touches, deletes, clears, reloads, after_call, after_calls,
}
use mimeclip.Database.Query.{find_by_hash}
use mimeclip.Database.Store.{
  NewEntry, append_entry, row_effect, insert_row, insert_new, insert_found, insert, set_limits,
  reload_config, touch_last_used, delete, clear,
}
use mimeclip.Database.Valid.{
  Keeps, Keeps-pure, Keeps-fail, Keeps-bind, Keeps-execute, Keeps-query, Keeps-update,
}
use mimeclip.Database.Lasting.{Kept, IsLasting, delete_where-IsLasting}
use mimeclip.Database.Lasting.Methods.{
  trim-Lasting, refresh-IsLasting, touch-IsLasting, delete_entry-IsLasting, insert_row-Lasting,
  insert_payloads-Lasting,
}

module _ (k : Kept) where
  row_effect-rowid :
      (e : NewEntry) (with_timestamp : Bool) (db before : Database) (u : Unit {0})
      → k.id ≤ db.entry_seq
      → (settle (row_effect e with_timestamp db) before).0 ≡ ok u
      → k.id < (settle (row_effect e with_timestamp db) before).1.last_rowid
  unfolding row_effect settle append_entry
  row_effect-rowid e with_timestamp db before u le h =
      elim (Bool-cases (any (λ (r : EntryRow). text_eq r.hash e.hash) db.entries)) [
        | inl twice ↦ absurd (ok≢err {e = constraint} (sym h ∙ rw twice refl))
        | inr fresh ↦ elim (Bool-cases (xor with_timestamp db.timestamp_column)) [
          | inl wrong ↦ absurd (ok≢err {e = constraint} (sym h ∙ rw (fresh, wrong) refl))
          | inr right ↦ rw (fresh, right) (omega (arith, le))
        ]
      ]

  attempt-rowid :
      (e : NewEntry) (with_timestamp : Bool) (faults : List Bool) (db : Database) (u : Unit {0})
      → k.id ≤ db.entry_seq
      → (attempt faults (row_effect e with_timestamp) db).0 ≡ ok u
      → k.id < (attempt faults (row_effect e with_timestamp) db).1.last_rowid
  unfolding attempt
  attempt-rowid e with_timestamp [] db u le h = row_effect-rowid e with_timestamp db db u le h
  attempt-rowid e with_timestamp (true ∷ faults) db u le h = cc
  attempt-rowid e with_timestamp (false ∷ faults) db u le h =
      row_effect-rowid e with_timestamp (record db { faults = faults })
        (record db { faults = faults }) u le h

  -- A new entry gets an id that no entry had.
  insert_row-rowid :
      (e : NewEntry) (with_timestamp : Bool) (db : Database) (u : Unit {0})
      → IsLasting k db.tables
      → (insert_row e with_timestamp db).0 ≡ ok u
      → (insert_row e with_timestamp db).1.last_rowid ≢ k.id
  unfolding insert_row execute
  insert_row-rowid e with_timestamp db u l h same =
      omega (arith, attempt-rowid e with_timestamp db.faults db u l.given_out h, same)

  continue-Lasting :
      {A B : Type 0} (r : Result DbError A) (f : A → Sql B) (db : Database)
      → IsLasting k db.tables
      → ((a : A) → r ≡ ok a → IsLasting k (f a db).1.tables)
      → IsLasting k (continue r f db).1.tables
  continue-Lasting (ok a) f db l h = h a refl
  continue-Lasting (err e) f db l h = l

  insert_new-Lasting : (plan : Planner) (e : NewEntry) → Keeps (IsLasting k) (insert_new plan e)
  unfolding insert_new ◌>>=◌ pure
  insert_new-Lasting plan e = record {
    at = λ db l.
        continue-Lasting (insert_row e db.has_legacy_timestamp db).0 _
          (insert_row e db.has_legacy_timestamp db).1
          ((insert_row-Lasting k e db.has_legacy_timestamp).at db l)
          (λ u done.
            (Keeps-bind _ _
                (insert_payloads-Lasting k (insert_row e db.has_legacy_timestamp db).1.last_rowid
                  e.payloads (insert_row-rowid e db.has_legacy_timestamp db u l done))
                (λ _. Keeps-bind _ _ (trim-Lasting k plan) (λ _. Keeps-pure _))).at
              _ ((insert_row-Lasting k e db.has_legacy_timestamp).at db l));
  }

  insert_found-Lasting :
      (plan : Planner) (e : NewEntry) (found : Option ℕ)
      → Keeps (IsLasting k) (insert_found plan e found)
  unfolding insert_found
  insert_found-Lasting plan e none = insert_new-Lasting plan e
  insert_found-Lasting plan e (some entry_id) =
      Keeps-bind _ _ (Keeps-update _ (refresh-IsLasting k e entry_id))
        (λ _. Keeps-bind _ _ (trim-Lasting k plan) (λ _. Keeps-pure entry_id))

  insert-Lasting : (plan : Planner) (e : NewEntry) → Keeps (IsLasting k) (insert plan e)
  unfolding insert find_by_hash
  insert-Lasting plan e = Keeps-bind _ _ (Keeps-query _) (insert_found-Lasting plan e)

  reload_config-Lasting :
      (plan : Planner) (loaded : Option Limits) → Keeps (IsLasting k) (reload_config plan loaded)
  unfolding reload_config set_limits
  reload_config-Lasting plan none = Keeps-fail config
  reload_config-Lasting plan (some limits) = record { at = λ db l. (trim-Lasting k plan).at _ l }

  delete-Lasting : (entry_id : ℕ) → Keeps (IsLasting k) (delete entry_id)
  unfolding delete
  delete-Lasting entry_id = Keeps-execute _ (λ db l. delete_entry-IsLasting k entry_id db.tables l)

  clear-Lasting : Keeps (IsLasting k) clear
  unfolding clear
  clear-Lasting =
      Keeps-bind _ _
        (Keeps-execute _ (λ db l. delete_where-IsLasting k (λ _. true) (λ r s e. refl) db.tables l))
        (λ n. Keeps-bind _ _ (Keeps-query _) (λ _. Keeps-pure n))

  after_call-Lasting :
      (plan : Planner) (c : Call) (db : Database)
      → IsLasting k db.tables
      → IsLasting k (after_call plan c db).tables
  unfolding after_call touch_last_used
  after_call-Lasting plan (inserts e) db l = (insert-Lasting plan e).at db l
  after_call-Lasting plan (touches now entry_id) db l =
      (Keeps-update _ (touch-IsLasting k now entry_id)).at db l
  after_call-Lasting plan (deletes entry_id) db l = (delete-Lasting entry_id).at db l
  after_call-Lasting plan clears db l = clear-Lasting.at db l
  after_call-Lasting plan (reloads loaded) db l = (reload_config-Lasting plan loaded).at db l

-- Whatever calls follow and whichever of their statements fail: as long as an entry with the id is
-- there, its payloads, its hash and its time of creation are those that they were.
pub after_calls-IsLasting :
    (k : Kept) (plan : Planner) (calls : List Call) (db : Database)
    → IsLasting k db.tables
    → IsLasting k (after_calls plan calls db).tables
unfolding after_calls
after_calls-IsLasting k plan [] db l = l
after_calls-IsLasting k plan (c ∷ calls) db l =
    after_calls-IsLasting k plan calls (after_call plan c db) (after_call-Lasting k plan c db l)

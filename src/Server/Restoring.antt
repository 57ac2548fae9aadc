-- ===== src/Server/Restoring.antt =====
-- `Request::Restore` of src/daemon/server.rs: what is offered and what is armed.

use mimeclip.Base.{
  ℕ, ◌≡◌, refl, ap, sym, ◌∙◌, Bool, true, false, Option, none, some, List, [], ◌∷◌, Result, ok, err,
  ok-injective,
}
use mimeclip.Base.Action.{bind-ok}
use mimeclip.Base.Bytes.{Text}
use mimeclip.Database.{Database, DbError, Tables, attempt, settle, execute, query, pure}
use mimeclip.Database.Query.{get_hash, hash_of_id, get_raw_payloads, payloads_of}
use mimeclip.Database.Store.{touch_last_used}
use mimeclip.Payloads.{Payload}
use mimeclip.Suppress.{arm}
use mimeclip.Server.{
  Daemon, Surroundings, done, restore, dispatch, restore_found, find_entry, read_entry, touch_entry,
  spawn_restore,
}

attempt-query :
    {A : Type 0} (select : Tables → A) (faults : List Bool) (db : Database) (a : A)
    → (attempt faults (λ d. ok (select d.tables, d)) db).0 ≡ ok a
    → (a ≡ select db.tables)
      × ((attempt faults (λ d. ok (select d.tables, d)) db).1.tables ≡ db.tables)
unfolding attempt settle
attempt-query select [] db a h = (sym (ok-injective h), refl)
attempt-query select (true ∷ faults) db a h = cc
attempt-query select (false ∷ faults) db a h = (sym (ok-injective h), refl)

query-ok :
    {A : Type 0} (select : Tables → A) (db : Database) (a : A)
    → (query select db).0 ≡ ok a
    → (a ≡ select db.tables) × ((query select db).1.tables ≡ db.tables)
unfolding query execute
query-ok select db a h = attempt-query select db.faults db a h

touch_entry-some :
    (now_text : Text) (entry_id : ℕ) (db : Database) (h : Text) (qs : List Payload) (hash : Text)
    (ps : List Payload)
    → (touch_entry now_text entry_id h qs db).0 ≡ ok (some (hash, ps))
    → (h ≡ hash) × (qs ≡ ps)
unfolding touch_entry pure
touch_entry-some now_text entry_id db h qs hash ps e =
    let (_, touched, same) = bind-ok (touch_last_used now_text entry_id) _ db _ e in
    (cc same, cc same)

read_entry-some :
    (now_text : Text) (entry_id : ℕ) (found : Option Text) (db : Database) (hash : Text)
    (ps : List Payload)
    → (read_entry now_text entry_id found db).0 ≡ ok (some (hash, ps))
    → (found ≡ some hash) × (payloads_of entry_id db.tables ≡ ps)
unfolding read_entry get_raw_payloads pure
read_entry-some now_text entry_id none db hash ps h = cc
read_entry-some now_text entry_id (some found) db hash ps h =
    let (qs, read, later) =
      bind-ok (query (payloads_of entry_id)) (touch_entry now_text entry_id found) db _ h in
    let (held, _) = query-ok (payloads_of entry_id) db qs read in
    let (known, same) = touch_entry-some now_text entry_id _ found qs hash ps later in
    (ap some known, sym held ∙ same)

-- What is read under the lock is the entry's, as the tables were before.
find_entry-some :
    (now_text : Text) (entry_id : ℕ) (db : Database) (hash : Text) (ps : List Payload)
    → (find_entry now_text entry_id db).0 ≡ ok (some (hash, ps))
    → (hash_of_id entry_id db.tables ≡ some hash) × (payloads_of entry_id db.tables ≡ ps)
unfolding find_entry get_hash
find_entry-some now_text entry_id db hash ps h =
    let (found, looked, later) =
      bind-ok (query (hash_of_id entry_id)) (read_entry now_text entry_id) db _ h in
    let (hashed, same) = query-ok (hash_of_id entry_id) db found looked in
    let (known, read) = read_entry-some now_text entry_id found _ hash ps later in
    (sym hashed ∙ known, ap (payloads_of entry_id) (sym same) ∙ read)

restore_found-done :
    (instant entry_id : ℕ) (r : Result DbError (Option (Text × List Payload))) (db : Database)
    (d after : Daemon)
    → restore_found instant entry_id (r, db) d ≡ (done, after)
    → (hash : Text) × (ps : List Payload) × (r ≡ ok (some (hash, ps)))
      × (after.offered ≡ ps ∷ d.offered)
      × (after.suppress ≡ arm d.suppress hash instant)
unfolding restore_found spawn_restore
restore_found-done instant entry_id (ok (some (hash, ps))) db d after h =
    (hash, ps, refl, ap (λ r. r.1.offered) (sym h), ap (λ r. r.1.suppress) (sym h))
restore_found-done instant entry_id (ok none) db d after h = cc (ap (λ r. r.0) h)
restore_found-done instant entry_id (err e) db d after h = cc (ap (λ r. r.0) h)

-- A restore that answers `Ok` offers the payloads that the entry has, in their order, on a new
-- thread, and arms the entry's hash at the time of the request.
pub restore-lem :
    (env : Surroundings) (entry_id : ℕ) (d after : Daemon)
    → dispatch env (restore entry_id) d ≡ (done, after)
    → (hash : Text) × (hash_of_id entry_id d.db.tables ≡ some hash)
      × (after.offered ≡ payloads_of entry_id d.db.tables ∷ d.offered)
      × (after.suppress ≡ arm d.suppress hash env.instant)
unfolding dispatch
restore-lem env entry_id d after h =
    let (hash, ps, found, offered, armed) =
      restore_found-done env.instant entry_id (find_entry env.now_text entry_id d.db).0
        (find_entry env.now_text entry_id d.db).1 d after h in
    let (known, held) = find_entry-some env.now_text entry_id d.db hash ps found in
    (hash, known, offered ∙ ap (λ q. q ∷ d.offered) (sym held), armed)

-- ===== src/Database/Calls.antt =====
-- Calls of the methods of src/common/db.rs, one after the other, as the watcher and the server
-- make them under the lock.
use mimeclip.Base.{ℕ, Option, List, [], ◌∷◌}
use mimeclip.Base.Bytes.{Text}
use mimeclip.Config.{Limits}
use mimeclip.Database.{Database, Planner}
use mimeclip.Database.Store.{NewEntry, insert, reload_config, touch_last_used, delete, clear}
use mimeclip.Database.Valid.{IsValid}
use mimeclip.Database.Valid.Methods.{
  insert-IsValid, reload_config-IsValid, touch_last_used-IsValid, delete-IsValid, clear-IsValid,
}

pub data Call : Type 0 where
  inserts : NewEntry → Call
  touches : Text → ℕ → Call
  deletes : ℕ → Call
  clears : Call
  reloads : Option Limits → Call

-- The database after the call, whether it succeeded or not.
unfoldable pub after_call : Planner → Call → Database → Database
after_call plan (inserts e) db = (insert plan e db).1
after_call plan (touches now entry_id) db = (touch_last_used now entry_id db).1
after_call plan (deletes entry_id) db = (delete entry_id db).1
after_call plan clears db = (clear db).1
after_call plan (reloads loaded) db = (reload_config plan loaded db).1

unfoldable pub after_calls : Planner → List Call → Database → Database
after_calls plan [] db = db
after_calls plan (c ∷ calls) db = after_calls plan calls (after_call plan c db)

pub after_call-IsValid :
    (plan : Planner) (c : Call) (db : Database)
    → IsValid db.tables
    → IsValid (after_call plan c db).tables
unfolding after_call
after_call-IsValid plan (inserts e) db v = (insert-IsValid plan e).at db v
after_call-IsValid plan (touches now entry_id) db v = (touch_last_used-IsValid now entry_id).at db v
after_call-IsValid plan (deletes entry_id) db v = (delete-IsValid entry_id).at db v
after_call-IsValid plan clears db v = clear-IsValid.at db v
after_call-IsValid plan (reloads loaded) db v = (reload_config-IsValid plan loaded).at db v

-- From valid tables, every sequence of inserts, touches, deletes, clears and reloads leaves valid
-- tables, whichever of their statements fail: ids ascend and stay below the sequences, no hash
-- occurs twice, and where the reference is enforced every payload has its entry.
pub after_calls-IsValid :
    (plan : Planner) (calls : List Call) (db : Database)
    → IsValid db.tables
    → IsValid (after_calls plan calls db).tables
unfolding after_calls
after_calls-IsValid plan [] db v = v
after_calls-IsValid plan (c ∷ calls) db v =
    after_calls-IsValid plan calls (after_call plan c db) (after_call-IsValid plan c db v)

-- ===== src/Database/History/Refinement.antt =====
-- Each call of src/common/db.rs is what the history's callers take it for.
use mimeclip.Base.{
  ℕ, ◌≡◌, refl, ap, true, false, none, some, List, [], ◌∷◌, map, length, All, All-of, ok, ◌==◌,
}
use mimeclip.Base.Bytes.{Text}
use mimeclip.Base.Perms.{keep-none}
use mimeclip.Config.{Limits}
use mimeclip.Database.{EntryRow, Tables, Planner, Database, delete_where, ◌>>=◌, pure, fail}
use mimeclip.Database.Calls.{
  Call, inserts, touches, deletes, clears, reloads, after_call, after_calls, after_call-IsValid,
}
use mimeclip.Database.Query.{first_row, id_of_hash}
use mimeclip.Database.Store.{
  touch_row, touch_last_used, delete, delete_entry, clear, set_limits, reload_config,
}
use mimeclip.Database.Trim.{HasNoFaults, execute_now, query_now, update_now}
use mimeclip.Database.Trim.Bounds.{trimmed, trim_now}
use mimeclip.Database.Limited.{limits_of}
use mimeclip.Database.History.{history}
use mimeclip.Database.History.Steps.{IsSmall, IsSmallCall, IsStep, IsRun}
use mimeclip.Database.History.Forgetting.{delete_entry-removed}
use mimeclip.Database.History.Changes.{history-touched}
use mimeclip.Database.History.Usable.{
  IsUsable, IsLeft, left, trimmed-IsFixed, trimmed-IsTrimOf, insert_found-IsStep,
}

touch_now :
    (now : Text) (id : ℕ) (db : Database)
    → HasNoFaults db
    → (touch_last_used now id db).1
      ≡ record db { tables = record db.tables { entries = map (touch_row now id) db.entries } }
unfolding touch_last_used
touch_now now id db h = ap (λ x. x.1) (update_now _ db h)

delete_now :
    (entry_id : ℕ) (db : Database)
    → HasNoFaults db
    → (delete entry_id db).1 ≡ record db { tables = delete_entry entry_id db.tables }
unfolding delete
delete_now entry_id db h = ap (λ x. x.1) (execute_now _ db h refl)

clear_now :
    (db : Database)
    → HasNoFaults db
    → (clear db).1 ≡ record db { tables = delete_where (λ _. true) db.tables }
unfolding clear ◌>>=◌ pure
clear_now db h =
    rw
      (
        execute_now
            (λ x. ok (length x.entries, record x { tables = delete_where (λ _. true) x.tables })) db
            h refl,
        query_now (λ _. tt {0}) (record db { tables = delete_where (λ _. true) db.tables }) h,
      )
      refl

with_limits : Limits → Database → Database
with_limits limits db = record db {
  max_entries = limits.max_entries;
  max_history_size = limits.max_history_size;
}

reload_now :
    (plan : Planner) (limits : Limits) (db : Database)
    → HasNoFaults db
    → (reload_config plan (some limits) db).1
      ≡ record (with_limits limits db) { tables = trimmed plan (with_limits limits db) }
unfolding reload_config set_limits with_limits
reload_now plan limits db h = ap (λ x. x.1) (trim_now plan (with_limits limits db) h)

cleared : (t : Tables) (i : ℕ) → history (delete_where (λ _. true) t) i ≡ none
unfolding history delete_where
cleared t i =
    ap (first_row (λ (r : EntryRow). r.id == i) _)
      (keep-none (λ _. false) t.entries (All-of _ t.entries (λ _. refl)))

call-IsStep :
    (plan : Planner) (c : Call) (db : Database)
    → IsUsable db
    → IsSmall (limits_of db)
    → IsSmallCall c
    → IsStep c db (after_call plan c db) × IsLeft (after_call plan c db)
unfolding after_call reload_config fail delete_where delete_entry with_limits
call-IsStep plan (inserts e) db u small fits =
    insert_found-IsStep plan e db u small (id_of_hash e.hash db.tables) refl
call-IsStep plan (touches now id) db u small fits = rw (touch_now now id db u.no_faults) (
  (refl, history-touched now id db.tables),
  record {
    references = u.references;
    no_faults = u.no_faults;
    timestamp = u.timestamp;
    small = small;
  },
)
call-IsStep plan (deletes id) db u small fits = rw (delete_now id db u.no_faults) (
  (refl, delete_entry-removed id db.tables),
  record {
    references = u.references;
    no_faults = u.no_faults;
    timestamp = u.timestamp;
    small = small;
  },
)
call-IsStep plan clears db u small fits = rw (clear_now db u.no_faults) (
  (refl, cleared db.tables),
  record {
    references = u.references;
    no_faults = u.no_faults;
    timestamp = u.timestamp;
    small = small;
  },
)
call-IsStep plan (reloads none) db u small fits = ((refl, λ i. refl), left db u small)
call-IsStep plan (reloads (some limits)) db u small fits =
    let d = with_limits limits db in
    let fixed =
      trimmed-IsFixed db.has_legacy_timestamp plan d u.no_faults (u.references, u.timestamp) in
    rw (reload_now plan limits db u.no_faults) (
      (refl, trimmed-IsTrimOf plan d _ limits u.no_faults u.valid refl fits (λ i. refl)),
      record { references = fixed.0; no_faults = u.no_faults; timestamp = fixed.1; small = fits },
    )

-- The methods implement the history as its callers know it, where the limits stay below 2 ^ 63.
-- From a usable database, each call of a sequence does to the entries and the limits what it is
-- for: an insert records the entry under the id of its hash, or under a free one, a touch changes
-- one time of use, a delete takes away one entry and a clear all, and a reload sets the limits. An
-- insert and a reload then trim: only entries go that were used no later than those that stay, as
-- many as the two limits ask for and no more, so that a history within them is left alone. No call
-- changes anything else of an entry.
pub after_calls-IsRun :
    (plan : Planner) (calls : List Call) (db : Database)
    → IsUsable db
    → IsSmall (limits_of db)
    → All IsSmallCall calls
    → IsRun calls db (after_calls plan calls db)
unfolding after_calls
after_calls-IsRun plan [] db u small fits = (refl, λ i. refl)
after_calls-IsRun plan (c ∷ calls) db u small fits =
    let (step, l) = call-IsStep plan c db u small fits.0 in
    (
      after_call plan c db,
      step,
      after_calls-IsRun plan calls (after_call plan c db)
          (record {
            valid = after_call-IsValid plan c db u.valid;
            references = l.references;
            no_faults = l.no_faults;
            timestamp = l.timestamp;
          })
          l.small fits.1,
    )

-- ===== src/Tests/Database.antt =====
-- Runs of src/common/db.rs on a history of two entries.
use mathlib.Core.Bool.{xor}
use mimeclip.Base.{
  map, String, ℕ, ◌≤◌, ◌^◌, ◌≡◌, refl, true, false, [], ◌∷◌, length, any, keep, ok, arith,
}
use mimeclip.Base.Bytes.{text, text_eq, text_le, text_le_total, text_le_trans}
use mimeclip.Base.Int.{as_i64, exceeds}
use mimeclip.Base.Sorting.{IsTotalOrder, insert, sort, sort-perm, sort-IsSorted}
use mimeclip.Kind.{EntryKind}
use mimeclip.Database.{
  EntryRow, Database, Planner, newer, older, delete_where, ◌>>=◌, execute, query, update,
}
use mimeclip.Database.Query.{find_by_hash, id_of_hash, newest, payloads_of}
use mimeclip.Database.Store
use mimeclip.Database.Store.{
  NewEntry, total_size, trim, is_among, delete_entry, evict, trim_count, trim_size, refresh_row,
  refresh, new_row, append_entry, row_effect, insert_row, new_payload, append_payload,
  payload_effect, insert_payload, insert_payloads, insert_new, insert_found, touch_row,
  touch_last_used, delete, clear,
}
use mimeclip.Database.Lasting.{Kept, IsLasting}
use mimeclip.Database.Lasting.Inserts.{after_calls-IsLasting}
use mimeclip.Database.Valid.{IsValid}
use mimeclip.Database.Trim.{Retains}
use mimeclip.Database.Trim.Bounds.{trim_lem, trim_wipes}
use mimeclip.Database.Calls.{
  inserts, touches, deletes, after_call, after_calls, after_calls-IsValid,
}

newer-IsTotalOrder : IsTotalOrder newer
unfolding newer
newer-IsTotalOrder = record {
  total = λ a b h. text_le_total b.last_used_at a.last_used_at h;
  trans = λ a b c h k. text_le_trans c.last_used_at b.last_used_at a.last_used_at k h;
}

-- An engine that orders equal times as the rows stand.
pub stable : Planner
stable = record {
  by_recency = sort newer;
  by_recency-perm = sort-perm newer;
  by_recency-IsSorted = sort-IsSorted newer-IsTotalOrder;
}

unfoldable pub program : Unit {0}
unfolding stable text_eq text_le any keep insert sort newer older delete_where execute query update
    ◌>>=◌ as_i64 exceeds total_size is_among delete_entry evict trim_count trim_size trim
    refresh_row refresh new_row append_entry row_effect insert_row new_payload append_payload
    payload_effect insert_payload insert_payloads insert_new insert_found Store.insert touch_row
    touch_last_used delete clear find_by_hash id_of_hash newest payloads_of
program = tt

abbrev pub empty : Database
empty = record {
  tables = record {
    entries = [];
    payloads = [];
    entry_seq = 0;
    payload_seq = 0;
    references = true;
    timestamp_column = false;
  };
  last_rowid = 0;
  max_entries = 10;
  max_history_size = 10;
  has_legacy_timestamp = false;
  faults = [];
}

abbrev pub copy : String → String → ℕ → NewEntry
copy hash time size = record {
  hash = text hash;
  kind = EntryKind.text;
  label = text hash;
  preview = text hash;
  size = size;
  created_at = text time;
  payloads = (text "text/plain", text "abcdef") ∷ [];
}

abbrev pub oldest : NewEntry
oldest = copy "oldest" "12:00" 6

abbrev pub newest_entry : NewEntry
newest_entry = copy "newest" "12:01" 6

-- total_history_limit_evicts_least_recently_used_entries
evicts_oldest :
    map
      (λ (r : EntryRow). r.hash)
      (after_calls stable (inserts oldest ∷ inserts newest_entry ∷ []) empty).entries
    ≡ text "newest" ∷ []
unfolding program after_calls after_call xor
evicts_oldest = refl

pub empty-IsValid : IsValid empty.tables
empty-IsValid = record {
  ids = omega arith;
  payload_ids = omega arith;
  hashes = tt;
  owned = λ _. tt;
}

after_calls-IsValid_example :
    IsValid
      (after_calls stable (inserts oldest ∷ deletes 1 ∷ inserts newest_entry ∷ []) empty).tables
after_calls-IsValid_example =
    after_calls-IsValid stable (inserts oldest ∷ deletes 1 ∷ inserts newest_entry ∷ []) empty
      empty-IsValid

-- Two entries in a table with room for more.
abbrev both : Database
both = record empty {
  tables = record empty.tables {
    entries = new_row oldest 1 ∷ new_row newest_entry 2 ∷ [];
    entry_seq = 2;
    references = false;
  };
}

both-IsValid : IsValid both.tables
unfolding new_row text_eq
both-IsValid = record {
  ids = omega arith;
  payload_ids = omega arith;
  hashes = ((refl, tt), (tt, tt));
  owned = λ _. tt;
}

trim_lem_example :
    ((trim stable both).0 ≡ ok tt)
    × (length (trim stable both).1.entries ≤ 10)
    × (total_size (trim stable both).1.entries ≤ 10)
    × Retains both.entries (trim stable both).1.entries
trim_lem_example = trim_lem stable both refl both-IsValid (omega arith) (omega arith)

abbrev huge : Database
huge = record both { max_history_size = 2 ^ 63 }

trim_wipes_example : (trim stable huge).1.entries ≡ []
trim_wipes_example = trim_wipes stable huge refl both-IsValid (omega arith) (omega arith)

abbrev stored : Database
stored = record both {
  tables = record both.tables {
    payloads =
        record { id = 1; entry_id = 1; mime_type = text "text/plain"; content = text "abcdef" }
        ∷ [];
    payload_seq = 1;
    references = true;
  };
}

abbrev first : Kept
first = record {
  id = 1;
  payloads = (text "text/plain", text "abcdef") ∷ [];
  hash = text "oldest";
  created_at = text "12:00";
}

first_held : payloads_of 1 stored.tables ≡ first.payloads
unfolding program
first_held = refl

first-IsLasting : IsLasting first stored.tables
unfolding new_row
first-IsLasting = record {
  given_out = omega arith;
  held = λ _. first_held;
  rows = ((λ _. (refl, refl)), ((λ e. absurd (omega (arith, e))), tt));
}

after_calls-IsLasting_example :
    IsLasting first
      (after_calls stable
        (inserts (copy "third" "12:02" 6) ∷ touches (text "12:03") 1 ∷ [])
        stored).tables
after_calls-IsLasting_example =
    after_calls-IsLasting first stable
      (inserts (copy "third" "12:02" 6) ∷ touches (text "12:03") 1 ∷ []) stored first-IsLasting

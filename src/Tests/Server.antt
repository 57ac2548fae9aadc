-- ===== src/Tests/Server.antt =====
-- Runs of src/daemon/server.rs, and of a restore that comes back to src/daemon/watcher.rs.

use mathlib.Core.List.Perm
use mimeclip.Base.{ℕ, ◌≡◌, refl, Option, none, some, List, [], ◌∷◌, length, any, keep, ok, arith}
use mimeclip.Base.Bytes
use mimeclip.Base.Bytes.{Text, Bytes, text_eq, text_le}
use mimeclip.Base.Sorting.{insert, sort}
use mimeclip.Database.{EntryRow, Database, execute, query, update, ◌>>=◌, pure, delete_where}
use mimeclip.Database.Query.{get_hash, hash_of_id, get_raw_payloads, payloads_of}
use mimeclip.Database.Store.{touch_row, touch_last_used, delete_entry, delete}
use mimeclip.Payloads.{
  Payload, normalize_payloads, normalize_groups, push_normalized, pick_variant, remove_first,
  push_unique, group_payloads, push_group, payload_hash, encode, payload_le,
}
use mimeclip.Screenshot.{Screenshot}
use mimeclip.Server.{
  Daemon, Surroundings, Request, ping, restore, done, error, no_entry, dispatch, restore_found,
  find_entry, read_entry, touch_entry, spawn_restore, deleted, with_db, respond_with, answer_line,
  handle_client,
}
use mimeclip.Server.Restoring.{restore-lem}
use mimeclip.Server.Socket.{
  Node, Stage, socket, binding, bound, try_bind, step, run, fail_call, bind_listener, IsRespectful,
  bind_listener-IsRespectful,
}
use mimeclip.Suppress.{initial, arm, arm_at}
use mimeclip.Watcher.Pipes.{returned}
use mimeclip.Capture.{store_outcome}
use mimeclip.Capture.Restored.{restored-not_stored}
use mimeclip.Tests.Database.{stable, empty}

unfoldable pub program : Unit {0}
unfolding text_eq text_le any keep insert sort execute query update ◌>>=◌ pure delete_where get_hash
    hash_of_id get_raw_payloads payloads_of touch_row touch_last_used delete_entry delete
    normalize_payloads normalize_groups push_normalized pick_variant remove_first push_unique
    group_payloads push_group payload_hash encode payload_le dispatch restore_found find_entry
    read_entry touch_entry spawn_restore deleted with_db respond_with answer_line handle_client arm
    arm_at
program = tt

abbrev digest : Bytes → Bytes
digest bytes = bytes

abbrev hello : List Payload
hello = (Bytes.text "text/html", Bytes.text "h") ∷ (Bytes.text "text/plain", Bytes.text "p") ∷ []

abbrev row : EntryRow
row = record {
  id = 1;
  hash = payload_hash digest digest hello;
  kind = Bytes.text "text";
  label = Bytes.text "p";
  preview = Bytes.text "p";
  size = 2;
  created_at = Bytes.text "12:00";
  last_used_at = Bytes.text "12:00";
}

abbrev pub filled : Database
filled = record empty {
  tables = record empty.tables {
    entries = row ∷ [];
    payloads =
        record {
          id = 1;
          entry_id = 1;
          mime_type = Bytes.text "text/html";
          content = Bytes.text "h";
        }
        ∷ record {
          id = 2;
          entry_id = 1;
          mime_type = Bytes.text "text/plain";
          content = Bytes.text "p";
        }
        ∷ [];
    entry_seq = 1;
    payload_seq = 2;
  };
}

abbrev daemon : Daemon
daemon = record { db = filled; suppress = initial; offered = [] }

abbrev no_file : Text → Screenshot
no_file path = record { resolved = none; metadata = none; content = none }

abbrev env : Surroundings
env = record {
  plan = stable;
  base64 = digest;
  parse_time = λ t. none;
  now = 0;
  now_text = Bytes.text "12:05";
  instant = 100;
  loaded = none;
  file_at = no_file;
}

no_such_entry : (dispatch env (restore 2) daemon).0 ≡ error (no_entry 2)
unfolding program
no_such_entry = refl

-- One line is a request, the next is empty and the last cannot be read.
abbrev read_request : Text → Option Request
read_request [] = none
read_request (c ∷ []) = some ping
read_request (c ∷ d ∷ s) = none

lines_answered :
    length (handle_client env read_request ((1 ∷ []) ∷ [] ∷ (1 ∷ 2 ∷ []) ∷ []) daemon).0 ≡ 2
unfolding program
lines_answered = refl

restored_ok : dispatch env (restore 1) daemon ≡ (done, (dispatch env (restore 1) daemon).1)
unfolding program
restored_ok = refl

restore-lem_example :
    (hash : Text) × (hash_of_id 1 filled.tables ≡ some hash)
    × ((dispatch env (restore 1) daemon).1.offered ≡ payloads_of 1 filled.tables ∷ [])
    × ((dispatch env (restore 1) daemon).1.suppress ≡ arm initial hash 100)
restore-lem_example = restore-lem env 1 daemon (dispatch env (restore 1) daemon).1 restored_ok

hello_held : payloads_of 1 filled.tables ≡ hello
unfolding program
hello_held = refl

hello_hashed : hash_of_id 1 filled.tables ≡ some (payload_hash digest digest hello)
unfolding program
hello_hashed = refl

hello_normal : normalize_payloads hello ≡ some hello
unfolding program
hello_normal = refl

abbrev no_size : Bytes → Option (ℕ × ℕ)
no_size bytes = none

restored-not_stored_example :
    (store_outcome digest digest no_size stable
      (returned (
        ok (
          (Bytes.text "text/plain", Bytes.text "p")
          ∷ (Bytes.text "text/html", Bytes.text "h")
          ∷ [])))
      200
      (Bytes.text "12:05")
      (dispatch env (restore 1) daemon).1).1.db
    ≡ (dispatch env (restore 1) daemon).1.db
restored-not_stored_example =
    restored-not_stored digest digest no_size stable env 1 daemon
      (dispatch env (restore 1) daemon).1 hello
      ((Bytes.text "text/plain", Bytes.text "p") ∷ (Bytes.text "text/html", Bytes.text "h") ∷ [])
      200 (Bytes.text "12:05") restored_ok hello_held hello_hashed hello_normal
      (Perm.swap (Bytes.text "text/html", Bytes.text "h") (Bytes.text "text/plain", Bytes.text "p")
        [])
      (omega arith)

calls : Unit {0}
unfolding bind_listener run step try_bind fail_call
calls = tt

-- replaces_a_stale_socket
replaces_stale : bind_listener 1 5 (socket none) ≡ (bound, socket (some 1))
unfolding calls
replaces_stale = refl

bind_listener-IsRespectful_example :
    IsRespectful 1 (socket (some 2)) (bind_listener 1 5 (socket (some 2)))
bind_listener-IsRespectful_example = bind_listener-IsRespectful 1 5 (socket (some 2))

-- Two processes that start at one time on a socket without a listener: both have seen that nobody
-- listens before either removes it, and the second one removes the socket of the first.
abbrev first_removed : Stage × Node
first_removed = run 1 2 2 (Stage.removing, socket none)

abbrev second_removed : Stage × Node
second_removed = run 2 2 2 (Stage.removing, first_removed.1)

both_reach_removing :
    (run 1 3 3 (binding, socket none) ≡ (Stage.removing, socket none))
    × (run 2 3 3 (binding, socket none) ≡ (Stage.removing, socket none))
unfolding calls
both_reach_removing = (refl, refl)

both_bind : (first_removed.0 ≡ bound) × (second_removed ≡ (bound, socket (some 2)))
unfolding calls
both_bind = (refl, refl)

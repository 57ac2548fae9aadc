-- ===== src/Lib.antt =====
-- A model of mimeclip, a clipboard history daemon for Wayland, with the theorems that make its parts
-- correct. The daemon watches the clipboard, stores what is copied in a SQLite history, and answers
-- clients over a Unix socket: they list, decode, delete and restore entries. A restore offers an
-- entry's payloads to the clipboard again, and the watcher must not store what comes back.
--
-- Which file models what, with paths from the repository's root:
--   - Payloads: `normalize_payloads` and `payload_hash` of src/daemon/watcher.rs. Payloads/Smallest
--     and Payloads/Normal are about the normal form, Payloads/Encoding about the bytes that are hashed.
--   - Watcher: `WatchState` and the `Dispatch` handlers of src/daemon/watcher.rs. Watcher/Filter is
--     what is never asked for, Watcher/History the handlers against the history of events,
--     Watcher/Privacy what may be asked for. Watcher/Pipes is `read_payload_pipes`, with Total (what it
--     returns) and Rounds (that it ends).
--   - Capture: `process_ready` of src/daemon/watcher.rs, the way from the pipes to the history.
--     Capture/Restored puts it together with the server and the suppression. Capture/Run is `run`:
--     Prompt what is taken care of when it waits, Copied the way from a selection to the history.
--   - Suppress: src/daemon/suppress.rs; Suppress/Traces is about sequences of its calls.
--   - Kind, Entry and Label: src/common/types.rs, and `parse_kind` of src/common/db.rs.
--   - Database: src/common/db.rs. Its Schema is the tables, its Statement what one SQL statement does,
--     its Query the SELECTs and its Store the methods that write. Valid is the invariant of the tables
--     and that each method keeps it, Lasting what an entry keeps while it stays, Calls is sequences of
--     methods, Trim is eviction, with Trim/Exact for what goes and how much, and Limited is about the
--     limits that the methods work with. History is what the callers see of it, with Steps for what one
--     call does, Usable for what a call needs and keeps, Refinement for any calls and Recorded for an
--     insert. Open is `open` with the migration of an older file: Times what it does to a row,
--     Migration, Steps and Filling to the file, Sound and Ready what the methods then find, Permissions
--     the modes of the files.
--   - Config: src/common/config.rs; Config/Sizes is about the written sizes, Config/Saving is
--     `save_to_path`.
--   - Server: `dispatch` and `handle_client` of src/daemon/server.rs, and the types of
--     src/common/ipc.rs; Server/Restoring is about a restore and Server/Socket is `bind_listener`.
--     Screenshot is `screenshot_payloads` and `file_uri_path`.
--   - Restore: src/daemon/restore.rs. Restore/Writing is `write_all_to_fd`, with Delivered for what
--     goes into the pipe; Restore/Served is what a restore offers and sends.
--   - Retry: `should_retry_watcher_error` and the loop of src/daemon/main.rs.
--   - Startup: `main` of src/daemon/main.rs and the paths of src/common/ipc.rs; Startup/Alone is what
--     has started when.
--   - Client: the commands, settings and connection of src/cli/main.rs. Client/Settings is
--     `handle_config`, Client/Settings/Steps and Client/Settings/Applied what it does to the file and
--     the daemon, Client/Main is `main`, and Client/Main/Answered holds it against the server.
--   - Base: shared helpers. The standard library's parts that the code uses are in it: decimal numbers,
--     `str::trim` and affixes, `from_utf8_lossy`, paths, sorting, `as i64`. Base/Action is what `?` does
--     to a method that changes a state, and Base/Deciding relates tests to predicates.
--   - Tests: runs of the model, most of them the repository's own tests, and the theorems at concrete
--     inputs.
--
-- State is passed explicitly. A text is the list of its UTF-8 bytes, a number is a natural number, and
-- where the code casts (`as i64`) or checks for overflow (`checked_mul`, `parse`) the bound is written
-- out. A statement on the database runs against a list that tells which of the coming statements fail,
-- so every error path of a method is a run of its model. The events of the compositor, what `poll` and
-- the reads give, and the lines of a client are lists, of which a function reads one after the other;
-- the events within a restore are a list for each `blocking_dispatch`.
-- A panic is `none` or a constructor of its own.
--
-- Fuel: `show` prints up to 20 digits, which every `u64` fits in; trimming and the removal of a scheme
-- take the length of the text, since each step takes a byte at least; `bind_listener` takes five calls,
-- more than which it has on no path. All other loops recurse on what they read.
--
-- Ids that a client sends are natural numbers, since the tables give no other; a negative one finds
-- nothing, like an id that is too large. The order of rows with equal times under ORDER BY
-- last_used_at DESC is SQLite's choice, and so is a parameter (`Planner`), whose two laws are that it
-- permutes the rows and sorts them.
--
-- Parameters are the crates `sha2`, `hex`, `base64`, `imagesize`, `toml`, `serde_json` and `chrono`.
-- Not modelled: the permissions of the configuration beyond their place among the steps of a save,
-- the threads' interleaving beyond what the locks make one step, errors of the connection to the
-- compositor within a restore, the signal handler, logging, and the texts that the command line
-- client prints around what it shows.
pub mod Base
pub mod Database
pub mod Capture
pub mod Client
pub mod Config
pub mod Entry
pub mod Kind
pub mod Label
pub mod Payloads
pub mod Restore
pub mod Retry
pub mod Startup
pub mod Screenshot
pub mod Server
pub mod Suppress
pub mod Watcher
mod Tests

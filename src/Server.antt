-- ===== src/Server.antt =====
-- src/daemon/server.rs: the dispatch of requests, and the taking of the socket; the requests and
-- responses are those of src/common/ipc.rs.
pub mod Restoring
pub mod Socket
use mathlib.Core.Option
use mimeclip.Base.{
  ℕ, Bool, true, false, Option, none, some, List, [], ◌∷◌, Result, ok, err, if◌then◌else◌,
}
use mimeclip.Base.Bytes.{Text, Bytes}
use mimeclip.Config.{Limits}
use mimeclip.Database.{Planner, Database, DbError, Sql, pure, ◌>>=◌, ◌>>◌}
use mimeclip.Database.Query.{list, get_payloads, get_hash, get_raw_payloads}
use mimeclip.Database.Store.{reload_config, touch_last_used, delete, clear}
use mimeclip.Entry.{Entry, MimePayload}
use mimeclip.Payloads.{Payload}
use mimeclip.Screenshot.{Screenshot, ScreenshotError, screenshot_payloads}
use mimeclip.Suppress.{SuppressState, arm}

pub data Request : Type 0 where
  list_entries : Option ℕ → Request
  decode : ℕ → Request
  delete_entry : ℕ → Request
  restore : ℕ → Request
  offer_screenshot : Text → Request
  reload : Request
  clear_all : Request
  ping : Request

-- The texts of the errors, before they are written out.
pub data Message : Type 0 where
  database : DbError → Message
  no_entry : ℕ → Message
  screenshot : ScreenshotError → Message
  parse_error : Message

pub data Response : Type 0 where
  done : Response
  entries : List Entry → Response
  payloads : List MimePayload → Response
  error : Message → Response
  pong : Response

-- What the threads share, and the payloads that the threads of `restore_entry` were started with,
-- the newest first.
pub record Daemon : Type 0 where
  pub db : Database
  pub suppress : SuppressState
  pub offered : List (List Payload)

-- What a request meets: the clocks, the files, and the crates `base64` and `chrono`.
pub record Surroundings : Type 0 where
  pub plan : Planner
  pub base64 : Bytes → Text
  pub parse_time : Text → Option ℕ
  pub now : ℕ
  pub now_text : Text
  pub instant : ℕ
  pub loaded : Option Limits
  pub file_at : Text → Screenshot

unfoldable pub respond_with :
    {A : Type 0} → Result DbError A × Database → (A → Response) → Daemon → Response × Daemon
respond_with (ok a, db) respond d = (respond a, record d { db = db })
respond_with (err e, db) respond d = (error (database e), record d { db = db })

-- A method on the locked database, and the response that its result becomes.
unfoldable pub with_db : {A : Type 0} → Sql A → (A → Response) → Daemon → Response × Daemon
with_db m respond d = respond_with (m d.db) respond d

unfoldable pub deleted : ℕ → Bool → Response
deleted entry_id found = if found then done else error (no_entry entry_id)

-- `restore::restore_entry(payloads)` on a new thread
unfoldable pub spawn_restore : List Payload → Daemon → Daemon
spawn_restore ps d = record d { offered = ps ∷ d.offered }

unfoldable pub offer_payloads : Result ScreenshotError (List Payload) → Daemon → Response × Daemon
offer_payloads (ok ps) d = (done, spawn_restore ps d)
offer_payloads (err e) d = (error (screenshot e), d)

-- The part of a restore that holds the lock of the database.
unfoldable pub touch_entry : Text → ℕ → Text → List Payload → Sql (Option (Text × List Payload))
touch_entry now_text entry_id hash ps = do touch_last_used now_text entry_id; pure (some (hash, ps))

unfoldable pub read_entry : Text → ℕ → Option Text → Sql (Option (Text × List Payload))
read_entry now_text entry_id none = pure none
read_entry now_text entry_id (some hash) = do
  ps ← get_raw_payloads entry_id
  touch_entry now_text entry_id hash ps

unfoldable pub find_entry : Text → ℕ → Sql (Option (Text × List Payload))
find_entry now_text entry_id = do hash ← get_hash entry_id; read_entry now_text entry_id hash

-- The hash is armed before the thread is started.
unfoldable pub restore_found :
    ℕ → ℕ → Result DbError (Option (Text × List Payload)) × Database → Daemon → Response × Daemon
restore_found instant entry_id (ok (some (hash, ps)), db) d =
    (done, spawn_restore ps (record d { db = db; suppress = arm d.suppress hash instant }))
restore_found instant entry_id (ok none, db) d = (error (no_entry entry_id), record d { db = db })
restore_found instant entry_id (err e, db) d = (error (database e), record d { db = db })

unfoldable pub dispatch : Surroundings → Request → Daemon → Response × Daemon
dispatch env ping d = (pong, d)
dispatch env reload d = with_db (reload_config env.plan env.loaded) (λ _. done) d
dispatch env (list_entries limit) d =
    with_db (list env.parse_time env.now env.plan (Option.get_or limit 200)) entries d
dispatch env (decode entry_id) d = with_db (get_payloads env.base64 entry_id) payloads d
dispatch env (delete_entry entry_id) d = with_db (delete entry_id) (deleted entry_id) d
dispatch env (offer_screenshot path) d = offer_payloads (screenshot_payloads (env.file_at path)) d
dispatch env clear_all d = with_db clear (λ _. done) d
dispatch env (restore entry_id) d =
    restore_found env.instant entry_id (find_entry env.now_text entry_id d.db) d

-- `serde_json` reads a line as a request or refuses it.
unfoldable pub answer_line :
    Surroundings → (Text → Option Request) → Text → Daemon → Response × Daemon
answer_line env from_json line d = elim (from_json line) [
  | none ↦ (error parse_error, d)
  | some r ↦ dispatch env r d
]

-- The loop of `handle_client`, over the lines of one client; empty lines are passed over. The
-- responses come in the order of the lines.
unfoldable pub handle_client :
    Surroundings → (Text → Option Request) → List Text → Daemon → List Response × Daemon
handle_client env from_json [] d = ([], d)
handle_client env from_json ([] ∷ lines) d = handle_client env from_json lines d
handle_client env from_json ((c ∷ line) ∷ lines) d =
    let (r, d') = answer_line env from_json (c ∷ line) d in
    let (rs, d'') = handle_client env from_json lines d' in (r ∷ rs, d'')

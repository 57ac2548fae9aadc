-- ===== src/Startup.antt =====
-- `main` of src/daemon/main.rs, with the paths of src/common/ipc.rs.
pub mod Alone
use mathlib.Core.Option
use mimeclip.Base.{
  ℕ, Bool, true, false, Option, none, some, List, [], ◌∷◌, ◌++◌, Result, ok, err, if◌then◌else◌,
}
use mimeclip.Base.Action.{Action, pure, fail, ◌>>=◌, ◌>>◌}
use mimeclip.Base.Bytes.{Text, text}
use mimeclip.Base.Paths.{FilePath, parse_path, join, path_eq}
use mimeclip.Config.{Limits}
use mimeclip.Database.{DbError}
use mimeclip.Database.Open.{Disk, Opened, open_file}
use mimeclip.Retry.{Ending, Exit, watch_loop}
use mimeclip.Server.Socket.{Node, Stage, bound, refused, BindError, bind_listener}

pub data Thread : Type 0 where
  signals : Thread
  ipc_server : Thread

-- The threads that were started stand with the newest first.
pub record Host : Type 0 where
  pub disk : Disk
  pub directory_modes : FilePath → Option ℕ
  pub node : Node
  pub threads : List Thread

pub data StartError : Type 0 where
  no_directory : StartError
  not_restricted : StartError
  no_database : DbError → StartError
  no_listener : BindError → StartError
  -- no end of `bind_listener`
  unfinished : StartError

abbrev pub Start : Type 0 → Type 0
Start A = Action StartError Host A

-- What a process meets: XDG_DATA_HOME and HOME, whether its calls work and how many of those on the
-- socket do, the limits that it loads, and how the runs of its watcher end.
pub record Process : Type 0 where
  pub pid : ℕ
  pub data_home : Option Text
  pub home : Option Text
  pub makes_directory : Bool
  pub restricts_directory : Bool
  pub good : ℕ
  pub loaded : Option Limits
  pub now : Text
  pub later : Text
  pub endings : List Ending
  -- the mode that a new directory gets, and the files that SQLite makes
  pub new_mode : ℕ
  pub sqlite_files : (Text → Option ℕ) → Text → Option ℕ

unfoldable pub socket_path : Option Text → FilePath
socket_path runtime =
    join (parse_path (Option.get_or runtime (text "/tmp"))) (text "mimeclipd.sock" ∷ [])

unfoldable pub data_path : Option Text → Option Text → FilePath
data_path (some data_home) home = parse_path data_home
data_path none home =
    join (parse_path (Option.get_or home (text "/tmp"))) (text ".local" ∷ text "share" ∷ [])

unfoldable pub data_directory : Process → FilePath
unfolding data_path
data_directory p = join (data_path p.data_home p.home) (text "mimeclip" ∷ [])

unfoldable pub set_directory_mode : FilePath → ℕ → (FilePath → Option ℕ) → FilePath → Option ℕ
set_directory_mode directory mode modes path =
    if path_eq directory path then some mode else modes path

-- `create_dir_all`, which leaves a directory that is there as it is; and whether the call works.
unfoldable pub create_dir_all : Bool → ℕ → FilePath → Start (Unit {0})
create_dir_all false new_mode directory m = (err no_directory, m)
create_dir_all true new_mode directory m = (
  ok tt,
  record m {
    directory_modes =
        set_directory_mode directory (Option.get_or (m.directory_modes directory) new_mode)
          m.directory_modes;
  },
)

unfoldable pub restrict_directory_permissions : Bool → FilePath → Start (Unit {0})
restrict_directory_permissions false directory m = (err not_restricted, m)
restrict_directory_permissions true directory m =
    (ok tt, record m { directory_modes = set_directory_mode directory 0o700 m.directory_modes })

-- A path as text
unfoldable pub joined : List Text → Text
joined [] = []
joined (c ∷ components) = text "/" ++ c ++ joined components

unfoldable pub path_text : FilePath → Text
unfolding joined
path_text path = joined path.components

unfoldable pub db_path : Process → Start FilePath
unfolding data_directory create_dir_all restrict_directory_permissions
db_path p = do
  create_dir_all p.makes_directory p.new_mode (data_directory p)
  restrict_directory_permissions p.restricts_directory (data_directory p)
  pure (join (data_directory p) (text "history.db" ∷ []))

unfoldable pub settle_open : Result DbError Opened × Disk → Start Opened
settle_open (ok opened, disk) m = (ok opened, record m { disk = disk })
settle_open (err e, disk) m = (err (no_database e), record m { disk = disk })

unfoldable pub open_database : Process → FilePath → Start Opened
unfolding settle_open
open_database p path m =
    settle_open (open_file p.sqlite_files (path_text path) p.loaded p.now p.later m.disk) m

unfoldable pub settle_bind : Stage × Node → Start (Unit {0})
settle_bind (bound, node) m = (ok tt, record m { node = node })
settle_bind (refused e, node) m = (err (no_listener e), record m { node = node })
settle_bind (_, node) m = (err unfinished, record m { node = node })

-- `server::bind`, at `socket_path`
unfoldable pub bind : Process → Start (Unit {0})
unfolding settle_bind
bind p m = settle_bind (bind_listener p.pid p.good m.node) m

unfoldable pub spawn : Thread → Start (Unit {0})
spawn t m = (ok tt, record m { threads = t ∷ m.threads })

-- From the socket on
unfoldable pub serve : Process → Opened → Start Opened
unfolding bind spawn
serve p opened = do bind p; spawn signals; spawn ipc_server; pure opened

unfoldable pub open_and_serve : Process → FilePath → Start Opened
unfolding open_database serve
open_and_serve p path = do opened ← open_database p path; serve p opened

-- All that `main` does before the loop of the watcher.
unfoldable pub start : Process → Start Opened
unfolding db_path open_and_serve
start p = do path ← db_path p; open_and_serve p path

unfoldable pub main : Process → Start Exit
unfolding start
main p = do opened ← start p; pure (watch_loop 0 p.endings)

-- ===== src/Client/Settings.antt =====
-- `handle_config` of src/cli/main.rs with the daemon that it tells of the change: the file of the
-- configuration lies between them.
pub mod Steps
pub mod Applied
use mimeclip.Base.{
  ℕ, Bool, true, false, not, Option, none, some, List, [], ◌∷◌, Result, ok, err, and_then,
  if◌then◌else◌,
}
use mimeclip.Base.Action.{Action, pure, fail, continue, ◌>>=◌, ◌>>◌}
use mimeclip.Base.Bytes.{Text, Bytes, text_eq}
use mimeclip.Base.Decimal.{parse_number}
use mimeclip.Base.Paths.{FilePath}
use mimeclip.Base.Strip.{trim_text}
use mimeclip.Client.{
  ConfigSetting, ConfigCmd, show, set, Attempt, Connection, made, given_up, trying, apply_setting,
  connect_with_retry,
}
use mimeclip.Config.{
  Config, ConfigError, Limits, FileState, missing, holds, load, limits, parse_size, format_size,
}
use mimeclip.Config.Saving.{Files, Link, no_link, dangling, links_to, SaveError, save_to_path}
use mimeclip.Server
use mimeclip.Server.{
  Request, Response, Message, done, error, reload, Daemon, Surroundings, dispatch,
}

-- The files, and the daemon.
pub record Machine : Type 0 where
  pub files : Files
  pub daemon : Daemon

-- MIMECLIP_MAX_ENTRIES and MIMECLIP_MAX_HISTORY_SIZE
pub record Overrides : Type 0 where
  pub entries : Option Text
  pub size : Option Text

-- What a command meets: the paths, what fails in a save, the connection, whether the daemon's
-- response comes, and what is typed at a terminal.
pub record Shell : Type 0 where
  pub path : FilePath
  pub link : Link
  pub good : ℕ
  pub left_over : Option Bytes
  pub own : Overrides
  pub attempts : List Attempt
  pub answered : Bool
  pub terminal : Bool
  pub size_line : Text
  pub count_line : Text
  -- of the daemon
  pub others : Overrides
  pub env : Surroundings

pub data ClientError : Type 0 where
  invalid : ConfigError → ClientError
  unsaved : SaveError → ClientError
  no_daemon : ClientError
  closed : ClientError
  not_applied : Message → ClientError
  unexpected : ClientError
  no_terminal : ClientError
  invalid_count : ClientError

abbrev pub Command : Type 0 → Type 0
Command A = Action ClientError Machine A

-- What `path.exists()` and `read_to_string` give; they follow a link.
unfoldable pub contents : Option Bytes → FileState
contents none = missing
contents (some source) = holds source

unfoldable pub file_at : Link → FilePath → Files → FileState
unfolding contents
file_at no_link path files = contents (files path)
file_at dangling path files = missing
file_at (links_to target) path files = contents (files target)

unfoldable pub try_config : {A : Type 0} → Result ConfigError A → Command A
try_config (ok a) = pure a
try_config (err e) = fail (invalid e)

-- The response that comes over a connection that was made.
unfoldable pub receive : Bool → Response × Daemon → Command Response
receive true (r, d) m = (ok r, record m { daemon = d })
receive false (r, d) m = (err closed, record m { daemon = d })

unfoldable pub send_over : Connection → Bool → Surroundings → Request → Command Response
unfolding receive
send_over (made waits) answered env request m = receive answered (dispatch env request m.daemon) m
send_over (given_up waits) answered env request m = (err no_daemon, m)
send_over (trying waits) answered env request m = (err no_daemon, m)

-- `match send_request(Request::ReloadConfig)?`
unfoldable pub check_reload : Response → Command (Unit {0})
check_reload done = pure tt
check_reload (error message) = fail (not_applied message)
check_reload _ = fail unexpected

unfoldable pub settle_save : Result SaveError (Unit {0}) × Files → Command (Unit {0})
settle_save (ok _, files) m = (ok tt, record m { files = files })
settle_save (err e, files) m = (err (unsaved e), record m { files = files })

-- What the daemon loads when it is told to.
unfoldable pub daemon_limits : Result ConfigError Limits → Option Limits
daemon_limits (ok l) = some l
daemon_limits (err e) = none

-- The crate `toml`
module _ (from_toml : Text → Option Config) (to_toml : Config → Option Text) where
  unfoldable pub loaded : Shell → Overrides → Files → Result ConfigError Config
  loaded sh o files = load from_toml (file_at sh.link sh.path files) o.entries o.size

  unfoldable pub surroundings : Shell → Files → Surroundings
  unfolding daemon_limits loaded
  surroundings sh files = record sh.env {
    loaded = daemon_limits (and_then (loaded sh sh.others files) limits);
  }

  unfoldable pub send_request : Shell → Request → Command Response
  unfolding send_over surroundings
  send_request sh request m =
      send_over (connect_with_retry sh.attempts) sh.answered (surroundings sh m.files) request m

  unfoldable pub reload_config : Shell → Command (Unit {0})
  unfolding send_request check_reload
  reload_config sh = do response ← send_request sh reload; check_reload response

  -- What is printed: the limits and the path.
  unfoldable pub print_config : Shell → Command Limits
  unfolding loaded try_config
  print_config sh m =
      (do config ← try_config (loaded sh sh.own m.files); try_config (limits config)) m

  unfoldable pub save : Shell → Config → Command (Unit {0})
  unfolding settle_save
  save sh config m =
      settle_save (save_to_path to_toml config sh.link sh.path sh.good sh.left_over m.files) m

  -- The end of both ways to change a setting
  unfoldable pub apply_config : Shell → Config → Command Limits
  unfolding save reload_config print_config
  apply_config sh config = do save sh config; reload_config sh; print_config sh

  unfoldable pub set_config : Shell → ConfigSetting → Command Limits
  unfolding apply_config
  set_config sh setting m =
      (do
        config ← try_config (loaded sh sh.own m.files)
        changed ← try_config (apply_setting setting config)
        apply_config sh changed)
        m

  -- `read_line` and `trim`; nothing keeps the value.
  unfoldable pub typed_size : Text → Config → Command Config
  typed_size [] config = pure config
  typed_size (c ∷ line) config = do
    bytes ← try_config (parse_size (c ∷ line))
    pure (record config { max_history_size = format_size bytes })

  unfoldable pub with_count : Option ℕ → Config → Command Config
  with_count none config = fail invalid_count
  with_count (some count) config = pure (record config { max_entries = count })

  unfoldable pub typed_count : Text → Config → Command Config
  unfolding with_count
  typed_count [] config = pure config
  typed_count (c ∷ line) config = with_count (parse_number (c ∷ line)) config

  unfoldable pub ask_config : Shell → Command Limits
  unfolding typed_size typed_count apply_config
  ask_config sh m =
      (do
        config ← try_config (loaded sh sh.own m.files)
        l ← try_config (limits config)
        sized ← typed_size (trim_text sh.size_line) config
        counted ← typed_count (trim_text sh.count_line) sized
        l' ← try_config (limits counted)
        apply_config sh counted)
        m

  unfoldable pub interactive_config : Shell → Command Limits
  unfolding ask_config
  interactive_config sh = if not sh.terminal then fail no_terminal else ask_config sh

  unfoldable pub handle_config : Shell → Option ConfigCmd → Command Limits
  unfolding set_config interactive_config
  handle_config sh (some show) = print_config sh
  handle_config sh (some (set setting)) = set_config sh setting
  handle_config sh none = interactive_config sh

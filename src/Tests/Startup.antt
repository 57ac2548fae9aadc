-- ===== src/Tests/Startup.antt =====
-- Starts of src/daemon/main.rs.
use mimeclip.Base.{keep, ◌≡◌, refl, true, none, some, [], ◌∷◌, ok, err}
use mimeclip.Base.Bytes.{text, text_eq, starts_with}
use mimeclip.Base.Paths.{parse_path, split_on, push_char, is_component, join, texts_eq, path_eq}
use mimeclip.Retry.{running, watch_loop}
use mimeclip.Server.Socket
use mimeclip.Server.Socket.{Node, socket, already_running}
use mimeclip.Startup
use mimeclip.Startup.{Host, Process, no_listener, socket_path, main}
use mimeclip.Startup.Alone.{IsStarted, main-IsStarted}
use mimeclip.Tests.Opening.{opening, file, with_wal, whole}

starting : Unit {0}
unfolding opening keep starts_with text_eq parse_path split_on push_char is_component join texts_eq
    path_eq watch_loop Socket.try_bind Socket.step Socket.fail_call Socket.run Socket.bind_listener
    socket_path Startup.data_path Startup.data_directory Startup.set_directory_mode
    Startup.create_dir_all Startup.restrict_directory_permissions Startup.joined Startup.path_text
    Startup.db_path Startup.settle_open Startup.open_database Startup.settle_bind Startup.bind
    Startup.spawn Startup.serve Startup.open_and_serve Startup.start main
starting = tt

runtime_socket : socket_path (some (text "/run/user/1000")) ≡ record {
  rooted = true;
  components = text "run" ∷ text "user" ∷ text "1000" ∷ text "mimeclipd.sock" ∷ [];
}
unfolding starting
runtime_socket = refl

abbrev process : Process
process = record {
  pid = 7;
  data_home = none;
  home = some (text "/home/u");
  makes_directory = true;
  restricts_directory = true;
  good = 5;
  loaded = whole.loaded;
  now = whole.now;
  later = whole.later;
  endings = [];
  new_mode = 0o755;
  sqlite_files = with_wal;
}

abbrev host : Node → Host
host node = record { disk = file; directory_modes = λ p. none; node = node; threads = [] }

takes_over : (main process (host (socket none))).0 ≡ ok (running 0)
unfolding starting
takes_over = refl

second_daemon : (main process (host (socket (some 3)))).0 ≡ err (no_listener already_running)
unfolding starting
second_daemon = refl

main-IsStarted_example : IsStarted process (socket none) [] (main process (host (socket none)))
main-IsStarted_example = main-IsStarted process (host (socket none))

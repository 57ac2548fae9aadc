-- ===== src/Startup/Alone.antt =====
-- What has started in src/daemon/main.rs, and when.
use mimeclip.Base.{
  ℕ, ◌≡◌, refl, Bool, true, false, Option, none, some, List, [], ◌∷◌, inl, inr, Result, ok, err,
}
use mimeclip.Base.Action.{pure, ◌>>=◌, continue}
use mimeclip.Base.Bytes.{text}
use mimeclip.Base.Paths.{FilePath, join, path_eq_refl}
use mimeclip.Database.{DbError}
use mimeclip.Database.Open.{Disk, Opened}
use mimeclip.Database.Open.Permissions.{IsRestricted, open_file-IsRestricted}
use mimeclip.Retry.{watch_loop}
use mimeclip.Server.Socket.{
  Node, vacant, other_file, socket, Stage, bound, refused, binding, inspecting, connecting,
  removing, rebinding, bind_listener, IsRespectful, bind_listener-IsRespectful,
}
use mimeclip.Startup.{
  Thread, signals, ipc_server, Host, StartError, Process, data_directory, set_directory_mode,
  create_dir_all, restrict_directory_permissions, path_text, db_path, settle_open, open_database,
  settle_bind, bind, spawn, serve, open_and_serve, start, main,
}

-- Nothing stood at the socket's path, or a socket that no process listens on.
abbrev pub IsFree : Node → Type 0
IsFree vacant = Unit
IsFree other_file = ⊥
IsFree (socket none) = Unit
IsFree (socket (some q)) = ⊥

-- What is not free stays.
abbrev pub IsKept : Node → Node → Type 0
IsKept vacant after = Unit
IsKept other_file after = after ≡ other_file
IsKept (socket none) after = Unit
IsKept (socket (some q)) after = after ≡ socket (some q)

abbrev IsBound : ℕ → Node → Stage × Node → Type 0
IsBound p node (bound, after) = IsFree node × (after ≡ socket (some p))
IsBound p node (_, after) = IsKept node after

IsRespectful-IsBound :
    (p : ℕ) (node : Node) (r : Stage × Node) → IsRespectful p node r → IsBound p node r
IsRespectful-IsBound p vacant (stage, after) (inl (e, e')) = rw e (tt, e')
IsRespectful-IsBound p vacant (stage, after) (inr (e, e')) = rw e tt
IsRespectful-IsBound p other_file (stage, after) (inl e, e') = rw e e'
IsRespectful-IsBound p other_file (stage, after) (inr e, e') = rw e e'
IsRespectful-IsBound p (socket (some q)) (stage, after) (inl e, e') = rw e e'
IsRespectful-IsBound p (socket (some q)) (stage, after) (inr e, e') = rw e e'
IsRespectful-IsBound p (socket none) (stage, after) (inl (e, e')) = rw e (tt, e')
IsRespectful-IsBound p (socket none) (stage, after) (inr (e, e')) = rw e tt

IsKept-refl : (node : Node) → IsKept node node
IsKept-refl vacant = tt
IsKept-refl other_file = refl
IsKept-refl (socket none) = tt
IsKept-refl (socket (some q)) = refl

abbrev database_path : Process → FilePath
database_path p = join (data_directory p) (text "history.db" ∷ [])

module _ (p : Process) where
  abbrev IsPrivate : Host → Type 0
  IsPrivate m =
      IsRestricted (path_text (database_path p)) m.disk
      × (m.directory_modes (data_directory p) ≡ some 0o700)

  -- What stood at the socket's path and the threads, against what a start has come to.
  abbrev pub IsStarted : {A : Type 0} → Node → List Thread → Result StartError A × Host → Type 0
  IsStarted node threads (ok opened, after) =
      IsFree node
      × (after.node ≡ socket (some p.pid))
      × (after.threads ≡ ipc_server ∷ signals ∷ threads)
      × IsPrivate after
  IsStarted node threads (err e, after) = IsKept node after.node × (after.threads ≡ threads)

  after_bind-IsStarted :
      (opened : Opened) (m : Host) (r : Stage × Node)
      → IsPrivate m
      → IsBound p.pid m.node r
      → IsStarted m.node m.threads
          ((settle_bind r >>= λ _. spawn signals >>= λ _. spawn ipc_server >>= λ _. pure opened) m)
  unfolding settle_bind spawn pure ◌>>=◌
  after_bind-IsStarted opened m (bound, after) private' (free, e) = (free, e, refl, private')
  after_bind-IsStarted opened m (refused e, after) private' kept = (kept, refl)
  after_bind-IsStarted opened m (binding, after) private' kept = (kept, refl)
  after_bind-IsStarted opened m (inspecting, after) private' kept = (kept, refl)
  after_bind-IsStarted opened m (connecting, after) private' kept = (kept, refl)
  after_bind-IsStarted opened m (removing, after) private' kept = (kept, refl)
  after_bind-IsStarted opened m (rebinding, after) private' kept = (kept, refl)

  serve-IsStarted :
      (opened : Opened) (m : Host) → IsPrivate m → IsStarted m.node m.threads (serve p opened m)
  unfolding serve bind ◌>>=◌
  serve-IsStarted opened m private' =
      after_bind-IsStarted opened m (bind_listener p.pid p.good m.node) private'
        (IsRespectful-IsBound p.pid m.node _ (bind_listener-IsRespectful p.pid p.good m.node))

  after_open-IsStarted :
      (m : Host) (r : Result DbError Opened × Disk)
      → m.directory_modes (data_directory p) ≡ some 0o700
      → ((opened : Opened) → r.0 ≡ ok opened → IsRestricted (path_text (database_path p)) r.1)
      → IsStarted m.node m.threads ((settle_open r >>= serve p) m)
  unfolding settle_open ◌>>=◌
  after_open-IsStarted m (ok opened, disk) modes restricted =
      serve-IsStarted opened (record m { disk = disk }) (restricted opened refl, modes)
  after_open-IsStarted m (err e, disk) modes restricted = (IsKept-refl m.node, refl)

  open_and_serve-IsStarted :
      (m : Host)
      → m.directory_modes (data_directory p) ≡ some 0o700
      → IsStarted m.node m.threads (open_and_serve p (database_path p) m)
  unfolding open_and_serve open_database ◌>>=◌
  open_and_serve-IsStarted m modes = after_open-IsStarted m _ modes (
      open_file-IsRestricted p.sqlite_files (path_text (database_path p)) p.loaded p.now p.later
        m.disk)

  restricted_modes :
      (m : Host) (modes : FilePath → Option ℕ)
      → set_directory_mode (data_directory p) 0o700 modes (data_directory p) ≡ some 0o700
  unfolding set_directory_mode
  restricted_modes m modes = rw (path_eq_refl (data_directory p)) refl

  after_directory-IsStarted :
      (makes restricts : Bool) (m : Host)
      → IsStarted m.node m.threads (
          ((create_dir_all makes p.new_mode (data_directory p) >>= λ _.
          restrict_directory_permissions restricts (data_directory p) >>= λ _.
          pure (database_path p))
              >>= open_and_serve p)
            m)
  unfolding create_dir_all restrict_directory_permissions pure ◌>>=◌
  after_directory-IsStarted false restricts m = (IsKept-refl m.node, refl)
  after_directory-IsStarted true false m = (IsKept-refl m.node, refl)
  after_directory-IsStarted true true m = open_and_serve-IsStarted _ (restricted_modes m _)

  start-IsStarted : (m : Host) → IsStarted m.node m.threads (start p m)
  unfolding start db_path
  start-IsStarted m = after_directory-IsStarted p.makes_directory p.restricts_directory m

  continue-IsStarted :
      {A B : Type 0} (node : Node) (threads : List Thread) (b : B) (x : Result StartError A × Host)
      → IsStarted node threads x
      → IsStarted node threads (continue x.0 (λ _. pure b) x.1)
  unfolding pure
  continue-IsStarted node threads b (ok a, after) h = h
  continue-IsStarted node threads b (err e, after) h = h

-- Where no other process acts between its calls: a daemon watches the clipboard and answers clients
-- only where nothing, or a socket that nobody listens on, stood at the socket's path, which it then
-- holds; the directory of the database is its owner's alone by then, and each of the database's
-- files absent or its owner's alone. Where it fails before, it has started no thread, and another
-- file or the socket of a process that listens stands as it stood.
pub main-IsStarted : (p : Process) (m : Host) → IsStarted p m.node m.threads (main p m)
unfolding main ◌>>=◌
main-IsStarted p m =
    continue-IsStarted p m.node m.threads (watch_loop 0 p.endings) (start p m) (start-IsStarted p m)

-- ===== src/Server/Socket.antt =====
-- `bind_listener` of src/daemon/server.rs, as the calls that a process makes one by one on what
-- stands at the path of the socket; another process may make its own between them.
use mimeclip.Base.{ℕ, zero, suc, ◌≡◌, refl, Option, none, some, ◌⊎◌, inl, inr}

-- What stands at the path; a socket may have a process that listens.
pub data Node : Type 0 where
  vacant : Node
  other_file : Node
  socket : Option ℕ → Node

pub data BindError : Type 0 where
  failed_call : BindError
  not_socket : BindError
  already_running : BindError

-- The call that comes next, or how the function has returned.
pub data Stage : Type 0 where
  binding : Stage
  inspecting : Stage
  connecting : Stage
  removing : Stage
  rebinding : Stage
  bound : Stage
  refused : BindError → Stage

-- `UnixListener::bind(path)`, where the address is in use unless nothing stands there
unfoldable pub try_bind : ℕ → Node → Stage → Stage × Node
try_bind p vacant otherwise = (bound, socket (some p))
try_bind p other_file otherwise = (otherwise, other_file)
try_bind p (socket listener) otherwise = (otherwise, socket listener)

-- The next call of process `p`, where the system lets it.
unfoldable pub step : ℕ → Stage → Node → Stage × Node
step p binding node = try_bind p node inspecting
step p inspecting vacant = (refused failed_call, vacant)
step p inspecting other_file = (refused not_socket, other_file)
step p inspecting (socket listener) = (connecting, socket listener)
-- a connection is refused where no process listens, be it a socket or not
step p connecting vacant = (removing, vacant)
step p connecting other_file = (removing, other_file)
step p connecting (socket none) = (removing, socket none)
step p connecting (socket (some q)) = (refused already_running, socket (some q))
step p removing vacant = (refused failed_call, vacant)
step p removing other_file = (rebinding, vacant)
step p removing (socket listener) = (rebinding, vacant)
step p rebinding node = try_bind p node (refused failed_call)
step p bound node = (bound, node)
step p (refused e) node = (refused e, node)

unfoldable pub fail_call : Stage → Stage
fail_call bound = bound
fail_call (refused e) = refused e
fail_call binding = refused failed_call
fail_call inspecting = refused failed_call
fail_call connecting = refused failed_call
fail_call removing = refused failed_call
fail_call rebinding = refused failed_call

-- At most `fuel` calls, of which the first `good` are not failed by the system for a reason of its
-- own.
unfoldable pub run : ℕ → ℕ → ℕ → Stage × Node → Stage × Node
run p zero good (stage, node) = (stage, node)
run p (suc fuel) zero (stage, node) = (fail_call stage, node)
run p (suc fuel) (suc good) (stage, node) = run p fuel good (step p stage node)

-- The function has five calls at most.
unfoldable pub bind_listener : ℕ → ℕ → Node → Stage × Node
bind_listener p good node = run p 5 good (binding, node)

-- What a process that meets no other may do to what stands at the path.
abbrev pub IsRespectful : ℕ → Node → Stage × Node → Type 0
IsRespectful p vacant (stage, after) =
    ((stage ≡ bound) × (after ≡ socket (some p)))
    ⊎ ((stage ≡ refused failed_call) × (after ≡ vacant))
IsRespectful p other_file (stage, after) =
    ((stage ≡ refused not_socket) ⊎ (stage ≡ refused failed_call)) × (after ≡ other_file)
IsRespectful p (socket (some q)) (stage, after) =
    ((stage ≡ refused already_running) ⊎ (stage ≡ refused failed_call)) × (after ≡ socket (some q))
IsRespectful p (socket none) (stage, after) =
    ((stage ≡ bound) × (after ≡ socket (some p)))
    ⊎ ((stage ≡ refused failed_call) × ((after ≡ socket none) ⊎ (after ≡ vacant)))

run-bound : (p fuel good : ℕ) (node : Node) → run p fuel good (bound, node) ≡ (bound, node)
unfolding run step fail_call
run-bound p zero good node = refl
run-bound p (suc fuel) zero node = refl
run-bound p (suc fuel) (suc good) node = run-bound p fuel good node

run-refused :
    (p fuel good : ℕ) (e : BindError) (node : Node)
    → run p fuel good (refused e, node) ≡ (refused e, node)
unfolding run step fail_call
run-refused p zero good e node = refl
run-refused p (suc fuel) zero e node = refl
run-refused p (suc fuel) (suc good) e node = run-refused p fuel good e node

-- Where no other process acts between its calls, whichever call fails: a process that takes the
-- socket's path binds it where nothing or a socket without a listener stood, and never replaces
-- another file or the socket of a process that listens, which it leaves as they are.
pub bind_listener-IsRespectful :
    (p good : ℕ) (node : Node) → IsRespectful p node (bind_listener p good node)
unfolding bind_listener run step try_bind fail_call
bind_listener-IsRespectful p zero vacant = inr (refl, refl)
bind_listener-IsRespectful p (suc good) vacant =
    rw (run-bound p 4 good (socket (some p))) (inl (refl, refl))
bind_listener-IsRespectful p zero other_file = (inr refl, refl)
bind_listener-IsRespectful p (suc zero) other_file = (inr refl, refl)
bind_listener-IsRespectful p (suc (suc good)) other_file =
    rw (run-refused p 3 good not_socket other_file) (inl refl, refl)
bind_listener-IsRespectful p zero (socket (some q)) = (inr refl, refl)
bind_listener-IsRespectful p (suc zero) (socket (some q)) = (inr refl, refl)
bind_listener-IsRespectful p (suc (suc zero)) (socket (some q)) = (inr refl, refl)
bind_listener-IsRespectful p (suc (suc (suc good))) (socket (some q)) =
    rw (run-refused p 2 good already_running (socket (some q))) (inl refl, refl)
bind_listener-IsRespectful p zero (socket none) = inr (refl, inl refl)
bind_listener-IsRespectful p (suc zero) (socket none) = inr (refl, inl refl)
bind_listener-IsRespectful p (suc (suc zero)) (socket none) = inr (refl, inl refl)
bind_listener-IsRespectful p (suc (suc (suc zero))) (socket none) = inr (refl, inl refl)
bind_listener-IsRespectful p (suc (suc (suc (suc zero)))) (socket none) = inr (refl, inr refl)
bind_listener-IsRespectful p (suc (suc (suc (suc (suc good))))) (socket none) = inl (refl, refl)

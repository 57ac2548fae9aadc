-- ===== src/Retry.antt =====
-- src/daemon/main.rs: which errors of the watcher are tried again, and the loop that does it.
use mathlib.Core.List.{append-nil}
use mimeclip.Base.{
  ℕ, suc, ◌≡◌, refl, ap, sym, ◌∙◌, ◌+◌, ◌++◌, length, Bool, true, false, List, [], ◌∷◌, any, All,
  Some, Reflects, Reflects-any, Reflects-true, Reflects-false, ◌⊎◌, inl, arith, if◌then◌else◌,
}

-- `io::ErrorKind`, as far as the code tells the kinds apart
pub data ErrorKind : Type 0 where
  broken_pipe : ErrorKind
  connection_reset : ErrorKind
  connection_aborted : ErrorKind
  not_connected : ErrorKind
  unexpected_eof : ErrorKind
  other_kind : ErrorKind

pub data WaylandError : Type 0 where
  io : ErrorKind → WaylandError
  protocol : WaylandError

pub data ConnectError : Type 0 where
  no_compositor : ConnectError
  no_wayland_lib : ConnectError
  invalid_fd : ConnectError

pub data DispatchError : Type 0 where
  backend : WaylandError → DispatchError
  bad_message : DispatchError

-- A cause in an error's chain, by the type that it can be cast to.
pub data Cause : Type 0 where
  connect : ConnectError → Cause
  dispatch : DispatchError → Cause
  wayland : WaylandError → Cause
  other_cause : Cause

unfoldable pub is_retryable_wayland_io : ErrorKind → Bool
is_retryable_wayland_io broken_pipe = true
is_retryable_wayland_io connection_reset = true
is_retryable_wayland_io connection_aborted = true
is_retryable_wayland_io not_connected = true
is_retryable_wayland_io unexpected_eof = true
is_retryable_wayland_io other_kind = false

unfoldable pub is_retryable_wayland : WaylandError → Bool
is_retryable_wayland (io kind) = is_retryable_wayland_io kind
is_retryable_wayland protocol = false

-- The closure, for one cause
unfoldable pub is_retryable_cause : Cause → Bool
is_retryable_cause (connect no_compositor) = true
is_retryable_cause (connect no_wayland_lib) = false
is_retryable_cause (connect invalid_fd) = false
is_retryable_cause (dispatch (backend e)) = is_retryable_wayland e
is_retryable_cause (dispatch bad_message) = false
is_retryable_cause (wayland e) = is_retryable_wayland e
is_retryable_cause other_cause = false

unfoldable pub should_retry_watcher_error : List Cause → Bool
should_retry_watcher_error chain = any is_retryable_cause chain

-- How one run of the watcher ends.
pub data Ending : Type 0 where
  finished : Ending
  failed : List Cause → Ending

-- How the daemon ends, with the number of times that it has waited, or that it still runs.
pub data Exit : Type 0 where
  exited : ℕ → Ending → Exit
  running : ℕ → Exit

-- The loop of `main`, over the endings of the watcher's runs.
unfoldable pub watch_loop : ℕ → List Ending → Exit
watch_loop waits [] = running waits
watch_loop waits (finished ∷ endings) = exited waits finished
watch_loop waits (failed chain ∷ endings) =
    let again = watch_loop (suc waits) endings in
    if should_retry_watcher_error chain then again else exited waits (failed chain)

-- A connection that was lost
abbrev IsLost : WaylandError → Type 0
IsLost (io kind) =
    (kind ≡ broken_pipe)
    ⊎ (kind ≡ connection_reset)
    ⊎ (kind ≡ connection_aborted)
    ⊎ (kind ≡ not_connected)
    ⊎ (kind ≡ unexpected_eof)
IsLost protocol = ⊥

-- A compositor that is missing or lost is this cause of an error.
abbrev pub IsAbsence : Cause → Type 0
IsAbsence (connect e) = e ≡ no_compositor
IsAbsence (dispatch (backend e)) = IsLost e
IsAbsence (dispatch bad_message) = ⊥
IsAbsence (wayland e) = IsLost e
IsAbsence other_cause = ⊥

abbrev pub IsTransient : Ending → Type 0
IsTransient finished = ⊥
IsTransient (failed chain) = Some IsAbsence chain

abbrev pub IsFinal : Ending → Type 0
IsFinal e = ¬ IsTransient e

reflect_io : (kind : ErrorKind) → Reflects (IsLost (io kind)) (is_retryable_wayland_io kind)
unfolding is_retryable_wayland_io
reflect_io broken_pipe = inl refl
reflect_io connection_reset = ground arith
reflect_io connection_aborted = ground arith
reflect_io not_connected = ground arith
reflect_io unexpected_eof = ground arith
reflect_io other_kind = ground arith

reflect_wayland : (e : WaylandError) → Reflects (IsLost e) (is_retryable_wayland e)
unfolding is_retryable_wayland
reflect_wayland (io kind) = reflect_io kind
reflect_wayland protocol = λ h. h

reflect_cause : (c : Cause) → Reflects (IsAbsence c) (is_retryable_cause c)
unfolding is_retryable_cause
reflect_cause (connect no_compositor) = refl
reflect_cause (connect no_wayland_lib) = ground arith
reflect_cause (connect invalid_fd) = ground arith
reflect_cause (dispatch (backend e)) = reflect_wayland e
reflect_cause (dispatch bad_message) = λ h. h
reflect_cause (wayland e) = reflect_wayland e
reflect_cause other_cause = λ h. h

reflect_chain :
    (chain : List Cause) → Reflects (Some IsAbsence chain) (should_retry_watcher_error chain)
unfolding should_retry_watcher_error
reflect_chain chain = Reflects-any IsAbsence is_retryable_cause chain reflect_cause

watch_loop-transient :
    (waits : ℕ) (before rest : List Ending)
    → All IsTransient before
    → watch_loop waits (before ++ rest) ≡ watch_loop (waits + length before) rest
unfolding watch_loop
watch_loop-transient waits [] rest h = ap (λ n. watch_loop n rest) (omega arith)
watch_loop-transient waits (finished ∷ before) rest h = absurd h.0
watch_loop-transient waits (failed chain ∷ before) rest h =
    rw
      (Reflects-true (Some IsAbsence chain) (should_retry_watcher_error chain) (reflect_chain chain)
        h.0)
      (watch_loop-transient (suc waits) before rest h.1 ∙ ap (λ n. watch_loop n rest) (omega arith))

watch_loop-final :
    (waits : ℕ) (e : Ending) (after : List Ending)
    → IsFinal e
    → watch_loop waits (e ∷ after) ≡ exited waits e
unfolding watch_loop
watch_loop-final waits finished after h = refl
watch_loop-final waits (failed chain) after h =
    rw
      (Reflects-false (Some IsAbsence chain) (should_retry_watcher_error chain)
        (reflect_chain chain) h)
      refl

-- The daemon waits and connects again after every error that has among its causes that there is no
-- compositor, or an I/O error of the connection to it of one of five kinds: a broken pipe, a reset,
-- an abort, no connection, and an unexpected end. And only then: it ends with the first other
-- ending, after as many waits as errors before it, and runs on as long as there is none.
pub watch_loop-lem :
    (before after : List Ending) (e : Ending)
    → All IsTransient before
    → IsFinal e
    → (watch_loop 0 (before ++ e ∷ after) ≡ exited (length before) e)
      × (watch_loop 0 before ≡ running (length before))
watch_loop-lem before after e h final = (
  watch_loop-transient 0 before (e ∷ after) h
      ∙ watch_loop-final (0 + length before) e after final
      ∙ ap (λ n. exited n e) (omega arith),
  ap (watch_loop 0) (sym (append-nil before))
      ∙ watch_loop-transient 0 before [] h
      ∙ unfold watch_loop in ap running (omega arith),
)

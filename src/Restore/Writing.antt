-- ===== src/Restore/Writing.antt =====
-- `write_all_to_fd` and `set_fd_blocking` of src/daemon/restore.rs, on the pipe that a client reads.
pub mod Delivered
use mimeclip.Base.{
  Bool-cases, inl, inr, ℕ, zero, suc, ◌+◌, ◌≤◌, ◌≡◌, ◌≢◌, refl, ap, ◌∙◌, sym, Bool, true, false,
  Option, none, some, List, [], ◌∷◌, ◌++◌, length, take, drop, take-append-drop, subst,
  length-drop-le, arith, if◌then◌else◌,
}
use mathlib.Core.List.{append_assoc}
use mimeclip.Base.Bytes.{Bytes}

-- What a write meets at the pipe.
pub data Room : Type 0 where
  -- one byte more than the number
  room : ℕ → Room
  full : Room
  signal : Room
  no_reader : Room

-- `OFlag`: O_NONBLOCK and the other bits
pub record Flags : Type 0 where
  pub nonblocking : Bool
  pub others : ℕ

-- The descriptor: what F_GETFL gives, whether F_SETFL works, and what the writes meet in turn.
pub record Pipe : Type 0 where
  pub flags : Option Flags
  pub settable : Bool
  pub rooms : List Room

pub data WriteEnd : Type 0 where
  all_sent : WriteEnd
  fcntl_failed : WriteEnd
  would_block : WriteEnd
  broken : WriteEnd
  -- the write has not returned
  waiting : WriteEnd

pub record Written : Type 0 where
  pub sent : Bytes
  pub ending : WriteEnd

-- The flags that are left, or an error.
unfoldable pub set_fd_blocking : Option Flags → Bool → Option Flags
set_fd_blocking none settable = none
set_fd_blocking (some flags) settable =
    if flags.nonblocking
    then if settable then some (record flags { nonblocking = false }) else none
    else some flags

unfoldable pub after_bytes : Bytes → Written → Written
after_bytes bs w = record w { sent = bs ++ w.sent }

-- `write_all`, which calls `write` until everything is written and again after a signal.
unfoldable pub write_all : Bool → Bytes → List Room → Written
unfolding after_bytes
write_all nonblocking [] rooms = record { sent = []; ending = all_sent }
write_all nonblocking (b ∷ bs) [] = record { sent = []; ending = waiting }
write_all nonblocking (b ∷ bs) (room n ∷ rooms) =
    after_bytes (b ∷ take n bs) (write_all nonblocking (drop n bs) rooms)
write_all nonblocking (b ∷ bs) (full ∷ rooms) =
    let later = write_all nonblocking (b ∷ bs) rooms in
    if nonblocking then record { sent = []; ending = would_block } else later
write_all nonblocking (b ∷ bs) (signal ∷ rooms) = write_all nonblocking (b ∷ bs) rooms
write_all nonblocking (b ∷ bs) (no_reader ∷ rooms) = record { sent = []; ending = broken }

unfoldable pub write_with : Option Flags → Bytes → List Room → Written
unfolding write_all
write_with none data' rooms = record { sent = []; ending = fcntl_failed }
write_with (some flags) data' rooms = write_all flags.nonblocking data' rooms

unfoldable pub write_all_to_fd : Bytes → Pipe → Written
unfolding write_with
write_all_to_fd data' pipe = write_with (set_fd_blocking pipe.flags pipe.settable) data' pipe.rooms

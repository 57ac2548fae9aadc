-- ===== src/Restore/Writing/Delivered.antt =====
-- What goes into the pipe in src/daemon/restore.rs, and when all of it does.
use mimeclip.Base.{
  Bool-cases, inl, inr, ℕ, suc, ◌≤◌, ◌≡◌, refl, ap, ◌∙◌, Bool, true, false, Option, none, some,
  List, [], ◌∷◌, ◌++◌, length, take, drop, take-append-drop, subst, length-drop-le, arith,
}
use mathlib.Core.List.{append_assoc}
use mimeclip.Base.Bytes.{Bytes}
use mimeclip.Restore.Writing.{
  Room, room, full, signal, no_reader, Flags, Pipe, WriteEnd, all_sent, fcntl_failed, would_block,
  broken, waiting, Written, set_fd_blocking, after_bytes, write_all, write_with, write_all_to_fd,
}

abbrev IsPrefix : Bytes → Bytes → Type 0
IsPrefix sent data' = (rest : Bytes) × (sent ++ rest ≡ data')

-- What may be said of the bytes that went into the pipe, for each end of the writing.
abbrev IsSent : Bytes → Bytes → WriteEnd → Type 0
IsSent data' sent all_sent = sent ≡ data'
IsSent data' sent would_block = ⊥
IsSent data' sent fcntl_failed = IsPrefix sent data'
IsSent data' sent broken = IsPrefix sent data'
IsSent data' sent waiting = IsPrefix sent data'

abbrev pub IsDelivered : Bytes → Written → Type 0
IsDelivered data' w = IsSent data' w.sent w.ending

set_fd_blocking-false :
    (flags : Option Flags) (settable : Bool) (after : Flags)
    → set_fd_blocking flags settable ≡ some after
    → after.nonblocking ≡ false
unfolding set_fd_blocking
set_fd_blocking-false none settable after h = cc
set_fd_blocking-false (some flags) settable after h = ground arith

append-IsPrefix :
    (taken left sent : Bytes) → IsPrefix sent left → IsPrefix (taken ++ sent) (taken ++ left)
append-IsPrefix taken left sent (rest, e) =
    (rest, append_assoc taken sent rest ∙ ap (λ x. taken ++ x) e)

append-IsSent :
    (taken left sent : Bytes) (ending : WriteEnd)
    → IsSent left sent ending
    → IsSent (taken ++ left) (taken ++ sent) ending
append-IsSent taken left sent all_sent h = ap (λ x. taken ++ x) h
append-IsSent taken left sent would_block h = h
append-IsSent taken left sent fcntl_failed h = append-IsPrefix taken left sent h
append-IsSent taken left sent broken h = append-IsPrefix taken left sent h
append-IsSent taken left sent waiting h = append-IsPrefix taken left sent h

-- With the flag off, no write is an error because it would block.
write_all-IsDelivered :
    (data' : Bytes) (rooms : List Room) → IsDelivered data' (write_all false data' rooms)
unfolding write_all after_bytes
write_all-IsDelivered [] rooms = refl
write_all-IsDelivered (b ∷ bs) [] = (b ∷ bs, refl)
write_all-IsDelivered (b ∷ bs) (room n ∷ rooms) =
    let w = write_all false (drop n bs) rooms in
    subst (λ d. IsSent d (b ∷ take n bs ++ w.sent) w.ending)
      (ap (λ x. b ∷ x) (take-append-drop n bs))
      (append-IsSent (b ∷ take n bs) (drop n bs) w.sent w.ending
        (write_all-IsDelivered (drop n bs) rooms))
write_all-IsDelivered (b ∷ bs) (full ∷ rooms) = write_all-IsDelivered (b ∷ bs) rooms
write_all-IsDelivered (b ∷ bs) (signal ∷ rooms) = write_all-IsDelivered (b ∷ bs) rooms
write_all-IsDelivered (b ∷ bs) (no_reader ∷ rooms) = (b ∷ bs, refl)

write_with-IsDelivered :
    (flags : Option Flags) (data' : Bytes) (rooms : List Room)
    → ((f : Flags) → flags ≡ some f → f.nonblocking ≡ false)
    → IsDelivered data' (write_with flags data' rooms)
unfolding write_with
write_with-IsDelivered none data' rooms blocking = (data', refl)
write_with-IsDelivered (some f) data' rooms blocking =
    rw (blocking f refl) (write_all-IsDelivered data' rooms)

-- Whatever the pipe does: what went into it is the beginning of the data, all of it where the
-- writing has ended well, and it never ends because a write would block.
pub write_all_to_fd-IsDelivered :
    (data' : Bytes) (pipe : Pipe) → IsDelivered data' (write_all_to_fd data' pipe)
unfolding write_all_to_fd
write_all_to_fd-IsDelivered data' pipe =
    write_with-IsDelivered _ data' pipe.rooms (set_fd_blocking-false pipe.flags pipe.settable)

-- How often there is room, as long as there is a reader.
abbrev pub rooms_before_end : List Room → ℕ
rooms_before_end [] = 0
rooms_before_end (room n ∷ rooms) = suc (rooms_before_end rooms)
rooms_before_end (full ∷ rooms) = rooms_before_end rooms
rooms_before_end (signal ∷ rooms) = rooms_before_end rooms
rooms_before_end (no_reader ∷ rooms) = 0

write_all-all_sent :
    (data' : Bytes) (rooms : List Room)
    → length data' ≤ rooms_before_end rooms
    → (write_all false data' rooms).ending ≡ all_sent
unfolding write_all after_bytes
write_all-all_sent [] rooms h = refl
write_all-all_sent (b ∷ bs) [] h = ground (arith, h)
write_all-all_sent (b ∷ bs) (room n ∷ rooms) h =
    write_all-all_sent (drop n bs) rooms (omega (arith, h, length-drop-le n bs))
write_all-all_sent (b ∷ bs) (full ∷ rooms) h = write_all-all_sent (b ∷ bs) rooms h
write_all-all_sent (b ∷ bs) (signal ∷ rooms) h = write_all-all_sent (b ∷ bs) rooms h
write_all-all_sent (b ∷ bs) (no_reader ∷ rooms) h = ground (arith, h)

write_with-all_sent :
    (flags : Option Flags) (data' : Bytes) (rooms : List Room) (after : Flags)
    → flags ≡ some after
    → after.nonblocking ≡ false
    → length data' ≤ rooms_before_end rooms
    → (write_with flags data' rooms).ending ≡ all_sent
unfolding write_with
write_with-all_sent flags data' rooms after set off h =
    rw (set, off) (write_all-all_sent data' rooms h)

set_fd_blocking-some :
    (flags : Flags) → (after : Flags) × (set_fd_blocking (some flags) true ≡ some after)
unfolding set_fd_blocking
set_fd_blocking-some flags = elim (Bool-cases flags.nonblocking) [
  | inl on ↦ (record flags { nonblocking = false }, rw on refl)
  | inr off ↦ (flags, rw off refl)
]

sent-IsDelivered :
    (data' sent : Bytes) (ending : WriteEnd)
    → ending ≡ all_sent
    → IsSent data' sent ending
    → Path Written
        (record { sent = sent; ending = ending })
        (record { sent = data'; ending = all_sent })
sent-IsDelivered data' sent all_sent e h = ap (λ x. record { sent = x; ending = all_sent }) h
sent-IsDelivered data' sent fcntl_failed e h = cc
sent-IsDelivered data' sent would_block e h = cc
sent-IsDelivered data' sent broken e h = cc
sent-IsDelivered data' sent waiting e h = cc

-- All of the data goes into the pipe, where the flags can be read and set, and there is room at
-- least as often as the data has bytes before the reader closes its end, however often the pipe is
-- full or a signal comes in between.
pub write_all_to_fd-delivers :
    (data' : Bytes) (pipe : Pipe) (flags : Flags)
    → pipe.flags ≡ some flags
    → pipe.settable ≡ true
    → length data' ≤ rooms_before_end pipe.rooms
    → write_all_to_fd data' pipe ≡ record { sent = data'; ending = all_sent }
unfolding write_all_to_fd
write_all_to_fd-delivers data' pipe flags read set h =
    let (after, e) = set_fd_blocking-some flags in
    let found : set_fd_blocking pipe.flags pipe.settable ≡ some after = rw (read, set) e in
    let off = set_fd_blocking-false pipe.flags pipe.settable after found in
    sent-IsDelivered data' _ _ (write_with-all_sent _ data' pipe.rooms after found off h)
      (write_all_to_fd-IsDelivered data' pipe)

-- ===== src/Tests/Restore.antt =====
-- Runs of src/daemon/restore.rs and src/daemon/main.rs.

use mimeclip.Base.{
  inl, arith, ◌≡◌, refl, true, false, none, some, List, [], ◌∷◌, ◌++◌, any, ok, err,
}
use mimeclip.Base.Bytes.{Text, text, text_eq}
use mimeclip.Payloads.{Payload}
use mimeclip.Restore.{
  SourceEvent, send, cancelled, Restored, no_manager, new_state, global_event, find_payload,
  dispatch_events, after_dispatch, write_found, reply_to, is_end_waiting, is_written_waiting,
  source_event, unless_done, after_replies, serve_events, after_globals, serve, when_bound,
  restore_with, restore_entry,
}
use mimeclip.Restore.Served.{IsServed, restore_entry-IsServed}
use mimeclip.Restore.Writing.{
  Pipe, room, full, signal, all_sent, waiting, set_fd_blocking, after_bytes, write_all, write_with,
  write_all_to_fd,
}
use mimeclip.Restore.Writing.Delivered.{write_all_to_fd-delivers}
use mimeclip.Retry.{
  broken_pipe, other_kind, io, no_compositor, invalid_fd, backend, connect, dispatch,
  is_retryable_wayland_io, is_retryable_wayland, is_retryable_cause, should_retry_watcher_error,
  Ending, failed, exited, running, watch_loop, watch_loop-lem,
}

program : Unit {0}
unfolding new_state global_event find_payload write_found reply_to is_end_waiting is_written_waiting
    source_event unless_done after_replies dispatch_events after_dispatch serve_events
    set_fd_blocking after_bytes write_all write_with write_all_to_fd after_globals serve when_bound
    restore_with restore_entry text_eq
program = tt

abbrev copied : Payload
copied = (text "text/plain", 7 ∷ 8 ∷ [])

-- A pipe that is not blocking when it comes, and that is full at first.
abbrev narrow : Pipe
narrow = record {
  flags = some (record { nonblocking = true; others = 1 });
  settable = true;
  rooms = full ∷ room 0 ∷ signal ∷ room 5 ∷ [];
}

abbrev unread : Pipe
unread = record narrow { rooms = room 0 ∷ full ∷ [] }

abbrev globals : List Text
globals = text "wl_seat" ∷ text "zwlr_data_control_manager_v1" ∷ []

-- A later payload of the same MIME type
abbrev second : Payload
second = (text "text/plain", 9 ∷ [])

-- The source is cancelled in the second dispatch, which has another request after that.
abbrev pastes : List (List SourceEvent)
pastes =
    (send (text "text/plain") narrow ∷ [])
    ∷ (cancelled ∷ send (text "image/png") narrow ∷ [])
    ∷ (send (text "text/plain") narrow ∷ [])
    ∷ []

abbrev pasted : Restored
pasted = record {
  offered = text "text/plain" ∷ text "text/plain" ∷ [];
  replies =
      record {
        mime_type = text "text/plain";
        written = some (record { sent = 7 ∷ 8 ∷ []; ending = all_sent });
      }
      ∷ record { mime_type = text "image/png"; written = none }
      ∷ [];
  ended = true;
}

pastes_served : restore_entry (copied ∷ second ∷ []) globals pastes ≡ ok pasted
unfolding program
pastes_served = refl

no_manager_found : restore_entry (copied ∷ []) (text "wl_seat" ∷ []) pastes ≡ err no_manager
unfolding program
no_manager_found = refl

restore_entry-IsServed_example : IsServed (copied ∷ second ∷ []) pastes pasted
restore_entry-IsServed_example =
    restore_entry-IsServed copied (second ∷ []) globals pastes pasted pastes_served

-- A client that does not read keeps the others waiting, and the end of the source.
unread_blocks :
    restore_entry
      (copied ∷ [])
      globals
      ((send (text "text/plain") unread ∷ send (text "text/plain") narrow ∷ cancelled ∷ []) ∷ [])
    ≡ ok (record {
      offered = text "text/plain" ∷ [];
      replies =
          record {
            mime_type = text "text/plain";
            written = some (record { sent = 7 ∷ []; ending = waiting });
          }
          ∷ [];
      ended = false;
    })
unfolding program
unread_blocks = refl

write_all_to_fd-delivers_example :
    write_all_to_fd (7 ∷ 8 ∷ []) narrow ≡ record { sent = 7 ∷ 8 ∷ []; ending = all_sent }
write_all_to_fd-delivers_example =
    write_all_to_fd-delivers (7 ∷ 8 ∷ []) narrow (record { nonblocking = true; others = 1 }) refl
      refl (omega arith)

retrying : Unit {0}
unfolding should_retry_watcher_error is_retryable_cause is_retryable_wayland is_retryable_wayland_io
    any watch_loop
retrying = tt

-- retries_when_no_compositor_is_available
retries_no_compositor : should_retry_watcher_error (connect no_compositor ∷ []) ≡ true
unfolding retrying
retries_no_compositor = refl

-- does_not_retry_fatal_startup_errors
fatal_fd : should_retry_watcher_error (connect invalid_fd ∷ []) ≡ false
unfolding retrying
fatal_fd = refl

-- does_not_retry_unrelated_io_errors
fatal_io : should_retry_watcher_error (dispatch (backend (io other_kind)) ∷ []) ≡ false
unfolding retrying
fatal_io = refl

retries_broken_pipe : should_retry_watcher_error (dispatch (backend (io broken_pipe)) ∷ []) ≡ true
unfolding retrying
retries_broken_pipe = refl

abbrev lost : List Ending
lost = failed (connect no_compositor ∷ []) ∷ failed (dispatch (backend (io broken_pipe)) ∷ []) ∷ []

watch_loop-lem_example :
    (watch_loop 0 (lost ++ failed (connect invalid_fd ∷ []) ∷ [])
      ≡ exited 2 (failed (connect invalid_fd ∷ [])))
    × (watch_loop 0 lost ≡ running 2)
watch_loop-lem_example =
    watch_loop-lem lost [] (failed (connect invalid_fd ∷ [])) (inl refl, (ground arith, tt))
      (λ h. ground arith)

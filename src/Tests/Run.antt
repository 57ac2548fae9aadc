-- ===== src/Tests/Run.antt =====
-- Runs of the watcher of src/daemon/watcher.rs: its start, and a text that is copied.
use mathlib.Core.Option
use mimeclip.Base.{Option, ◌≡◌, refl, true, some, List, [], ◌∷◌, ◌++◌}
use mimeclip.Base.Bytes
use mimeclip.Base.Bytes.{Text, Bytes}
use mimeclip.Capture.Run
use mimeclip.Capture.Run.{
  Sent, device, offer, Meeting, Turn, Watching, waiting, dispatch_one, dispatch_all, release, stops,
  keep_watching, process_pending, process_taken, process_turn, watch_turns, with_globals,
  first_roundtrip, run,
}
use mimeclip.Capture.Run.Prompt.{IsIdle, run-IsIdle}
use mimeclip.Watcher.{
  initial, data_offer, selection, primary_selection, find_offer, insert_offer, push_mime, add_mime,
  send, registry_event, keep_offer, select_offer, device_event, offer_event, take_device,
  receive_all,
}
use mimeclip.Watcher.Filter.{should_skip, is_sensitive_offer, eq_ignore_ascii_case}
use mimeclip.Watcher.Pipes.{read_bytes, ready}
use mimeclip.Tests.Capture
use mimeclip.Tests.Capture.{fresh, digest, no_size}
use mimeclip.Tests.Database.{stable}

abbrev plain : Text
plain = Bytes.text "text/plain"

-- A transfer of `hi` in two reads
abbrev meeting : Meeting
meeting = record {
  made = true ∷ [];
  flushed = true;
  polled =
      ready (some (read_bytes (Bytes.text "hi")) ∷ []) ∷ ready (some (read_bytes []) ∷ []) ∷ [];
  instant = 5;
  now_text = Bytes.text "12:00";
}

abbrev watching : Watching
watching = record { watch = initial; daemon = fresh }

-- A new offer, its MIME type, which it announces twice, and its selection
abbrev offered : List Sent
offered = device (data_offer 7) ∷ offer 7 plain ∷ offer 7 plain ∷ []

abbrev quiet : List Sent
quiet = device primary_selection ∷ []

abbrev turned : Option Run.WatchEnd × Watching
turned =
    process_turn digest digest no_size stable
      (some (offered ++ device (selection (some 7)) ∷ quiet)) meeting watching

abbrev globals : Option (List Sent)
globals = some (
    Run.global 1 (Bytes.text "wl_seat") 9
    ∷ Run.global 2 (Bytes.text "zwlr_data_control_manager_v1") 2
    ∷ [])

abbrev turn : Turn
turn = record { events = some (offered ++ device (selection (some 7)) ∷ quiet); meeting = meeting }

unfoldable loop : Unit {0}
unfolding dispatch_one dispatch_all release stops keep_watching process_pending process_taken
    process_turn watch_turns with_globals first_roundtrip run find_offer insert_offer push_mime
    add_mime send registry_event keep_offer select_offer device_event offer_event take_device
    receive_all should_skip eq_ignore_ascii_case is_sensitive_offer Option.bind
loop = tt

waits : (run digest digest no_size stable true globals turn (turn ∷ []) fresh).0 ≡ waiting
unfolding Capture.capturing loop
waits = refl

run-IsIdle_example :
    IsIdle (run digest digest no_size stable true globals turn (turn ∷ []) fresh).1.watch
run-IsIdle_example =
    run-IsIdle digest digest no_size stable true globals turn (turn ∷ []) fresh waits

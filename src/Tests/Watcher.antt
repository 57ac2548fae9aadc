-- ===== src/Tests/Watcher.antt =====
-- Runs of the handlers and of the payload reader of src/daemon/watcher.rs.
use mathlib.Core.Option
use mimeclip.Base.{
  ◌+◌, ◌<◌, ◌≡◌, refl, true, none, some, List, [], ◌∷◌, length, any, keep, ok, err, arith,
}
use mimeclip.Base.Bytes.{Text, text, text_eq, starts_with, to_ascii_lowercase}
use mimeclip.Watcher.{
  Request, receive, data_offer, selection, find_offer, insert_offer, push_mime, add_mime, send,
  registry_event, keep_offer, select_offer, device_event, offer_event, receive_all, take_ready,
}
use mimeclip.Watcher.Filter.{should_skip, is_sensitive_offer, eq_ignore_ascii_case}
use mimeclip.Watcher.History.{
  Event, device, offer, process, handle, replay, announced, firsts, IsOnce, find_offer-announced,
}
use mimeclip.Watcher.Privacy.{WasChosen, received-WasChosen}
use mimeclip.Watcher.Pipes.{
  read_bytes, interrupted, ready, returned, too_large, timed_out, read_payload_pipes, drain, serve,
  serve_pipe, read_pipe, push_pipe, resume, close, is_active, has_ready, collect, push_payload,
}
use mimeclip.Watcher.Pipes.Total.{IsGoodAnswer, read_payload_pipes-IsGoodAnswer}
use mimeclip.Watcher.Pipes.Rounds.{rounds, is_returned, read_payload_pipes-is_returned}

program : Unit {0}
unfolding replay handle registry_event device_event offer_event take_ready receive_all keep_offer
    select_offer send add_mime push_mime insert_offer find_offer should_skip is_sensitive_offer
    eq_ignore_ascii_case to_ascii_lowercase text_eq starts_with any keep Option.bind
program = tt

abbrev plain : Text
plain = text "text/plain"

abbrev files : Text
files = text "application/vnd.portal.files"

-- An offer of two types, one of which is skipped, is selected and asked for.
abbrev copied : List Event
copied =
    process (true ∷ true ∷ [])
    ∷ device (selection (some 7))
    ∷ offer 7 plain
    ∷ offer 7 files
    ∷ device (data_offer 7)
    ∷ []

copied_requests : (replay copied).sent ≡ Request.destroy 7 ∷ receive 7 plain ∷ []
unfolding program
copied_requests = refl

-- password_manager_hint_marks_the_entire_offer_sensitive
abbrev secret : List Event
secret =
    process (true ∷ true ∷ [])
    ∷ device (selection (some 7))
    ∷ offer 7 (text "X-KDE-PasswordManagerHint")
    ∷ offer 7 plain
    ∷ device (data_offer 7)
    ∷ []

secret_requests : (replay secret).sent ≡ Request.destroy 7 ∷ []
unfolding program
secret_requests = refl

received-WasChosen_example : WasChosen copied 7 plain
received-WasChosen_example =
    received-WasChosen copied (Request.destroy 7 ∷ []) [] 7 plain copied_requests

abbrev pending : List Event
pending = offer 7 plain ∷ offer 7 files ∷ offer 7 plain ∷ device (data_offer 7) ∷ []

find_offer-announced_example :
    (find_offer 7 (replay pending).pending_offers ≡ Option.map firsts (announced 7 pending))
    × IsOnce (find_offer 7 (replay pending).pending_offers)
find_offer-announced_example = find_offer-announced 7 pending

unfoldable pub reading : Unit {0}
unfolding read_payload_pipes drain serve serve_pipe read_pipe push_pipe resume close is_active
    has_ready collect push_payload any rounds
reading = tt

-- payload_pipe_reads_both_mimes, and an interrupted call between
two_pipes :
    read_payload_pipes 10 10 (plain ∷ files ∷ []) (
      ready (some (read_bytes (1 ∷ [])) ∷ some (read_bytes (2 ∷ 3 ∷ [])) ∷ [])
      ∷ interrupted
      ∷ ready (none ∷ some (read_bytes []) ∷ [])
      ∷ ready (some (read_bytes (4 ∷ [])) ∷ [])
      ∷ ready (some (read_bytes []) ∷ [])
      ∷ [])
    ≡ returned (ok ((plain, 1 ∷ 4 ∷ []) ∷ (files, 2 ∷ 3 ∷ []) ∷ []))
unfolding reading
two_pipes = refl

past_limit :
    read_payload_pipes 2 10 (plain ∷ []) (ready (some (read_bytes (1 ∷ 2 ∷ 3 ∷ [])) ∷ []) ∷ [])
    ≡ returned (err (too_large 2))
unfolding reading
past_limit = refl

idle_transfer : read_payload_pipes 2 10 (plain ∷ []) (ready [] ∷ []) ≡ returned (err (timed_out 10))
unfolding reading
idle_transfer = refl

read_payload_pipes-IsGoodAnswer_example : IsGoodAnswer 2 (plain ∷ []) (
    read_payload_pipes 2 10
      (plain ∷ [])
      (ready (some (read_bytes (1 ∷ [])) ∷ []) ∷ ready (some (read_bytes []) ∷ []) ∷ []))
read_payload_pipes-IsGoodAnswer_example =
    read_payload_pipes-IsGoodAnswer 2 10 (plain ∷ [])
      (ready (some (read_bytes (1 ∷ [])) ∷ []) ∷ ready (some (read_bytes []) ∷ []) ∷ [])

three_rounds :
    1 + length (plain ∷ [])
    < rounds (
        ready (some (read_bytes (1 ∷ [])) ∷ []) ∷ ready (some (read_bytes []) ∷ []) ∷ ready [] ∷ [])
unfolding reading
three_rounds = omega arith

read_payload_pipes-is_returned_example :
    is_returned (
      read_payload_pipes 1 10 (plain ∷ []) (
        ready (some (read_bytes (1 ∷ [])) ∷ [])
        ∷ ready (some (read_bytes []) ∷ [])
        ∷ ready []
        ∷ []))
    ≡ true
read_payload_pipes-is_returned_example =
    read_payload_pipes-is_returned 1 10 (plain ∷ [])
      (ready (some (read_bytes (1 ∷ [])) ∷ []) ∷ ready (some (read_bytes []) ∷ []) ∷ ready [] ∷ [])
      three_rounds

-- ===== src/Tests/Capture.antt =====
-- A run of `process_ready` of src/daemon/watcher.rs, from the pipes to the history.
use mathlib.Core.Bool.{xor}
use mimeclip.Base.{Option, ℕ, ◌≡◌, refl, true, none, some, [], ◌∷◌, ok}
use mimeclip.Base.Bytes
use mimeclip.Base.Bytes.{Text, Bytes}
use mimeclip.Kind.{
  classify_kind, is_file_offer, is_file_marker, is_file_companion, is_uri_list, has, label,
}
use mimeclip.Capture.{
  stored, sum_sizes, asked_for, new_entry, store_result, store_labelled, store_payloads,
  store_normalized, store_read, store_outcome, process_ready,
}
use mimeclip.Server.{Daemon}
use mimeclip.Suppress.{initial, should_suppress, should_suppress_at}
use mimeclip.Watcher.Pipes.{read_bytes, ready}
use mimeclip.Tests.Database
use mimeclip.Tests.Database.{stable, empty}
use mimeclip.Tests.Label
use mimeclip.Tests.Server
use mimeclip.Tests.Watcher

abbrev pub fresh : Daemon
fresh = record { db = empty; suppress = initial; offered = [] }

abbrev pub digest : Bytes → Bytes
digest bytes = bytes

abbrev pub no_size : Bytes → Option (ℕ × ℕ)
no_size bytes = none

unfoldable pub capturing : Unit {0}
unfolding Database.program Label.program Server.program Watcher.reading sum_sizes asked_for
    new_entry store_result store_labelled store_payloads store_normalized store_read store_outcome
    process_ready classify_kind is_file_offer is_file_marker is_file_companion is_uri_list has label
    should_suppress should_suppress_at xor
capturing = tt

copied :
    (process_ready digest digest no_size stable
      (Bytes.text "text/plain" ∷ [])
      (true ∷ [])
      true
      (ready (some (read_bytes (Bytes.text "hi")) ∷ []) ∷ ready (some (read_bytes []) ∷ []) ∷ [])
      5
      (Bytes.text "12:00")
      fresh).0
    ≡ stored (ok 1)
unfolding capturing
copied = refl

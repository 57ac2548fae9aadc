-- ===== src/Capture.antt =====
-- src/daemon/watcher.rs: `process_ready`, from the MIME types that were asked for to the entry in
-- the history.
pub mod Restored
pub mod Run
use mathlib.Core.Option
use mimeclip.Base.{
  ℕ, ◌+◌, Bool, true, false, Option, none, some, List, [], ◌∷◌, map, length, Result, ok, err,
  if◌then◌else◌,
}
use mimeclip.Base.Bytes.{Text, Bytes}
use mimeclip.Database.{Planner, Database, DbError}
use mimeclip.Database.Store.{NewEntry, insert}
use mimeclip.Kind.{EntryKind, classify_kind}
use mimeclip.Label.{build_label}
use mimeclip.Payloads.{Payload, normalize_payloads, payload_hash}
use mimeclip.Server.{Daemon}
use mimeclip.Suppress.{should_suppress}
use mimeclip.Watcher.Pipes.{
  PayloadReadError, Polled, Outcome, returned, waiting, max_payload_bytes, read_payload_pipes,
}

pub data Processed : Type 0 where
  stored : Result DbError ℕ → Processed
  suppressed : Processed
  -- the requests could not be sent, or the transfer failed
  given_up : Processed
  -- no payload came
  nothing : Processed
  -- the transfer still goes on
  pending : Processed
  panicked : Processed

-- PAYLOAD_READ_IDLE_TIMEOUT, in milliseconds
abbrev pub payload_read_idle_timeout : ℕ
payload_read_idle_timeout = 10000

-- `payloads.iter().map(|(_, data)| data.len()).sum()`
unfoldable pub sum_sizes : List Payload → ℕ
sum_sizes [] = 0
sum_sizes (p ∷ payloads) = length p.1 + sum_sizes payloads

-- The MIME types whose pipe could be made.
unfoldable pub asked_for : List Text → List Bool → List Text
asked_for [] made = []
asked_for (m ∷ mimes) [] = m ∷ asked_for mimes []
asked_for (m ∷ mimes) (true ∷ made) = m ∷ asked_for mimes made
asked_for (m ∷ mimes) (false ∷ made) = asked_for mimes made

-- The crates `sha2`, `hex` and `imagesize`, and the choices of SQLite.
module _ (sha256 : Bytes → Bytes) (hex : Bytes → Text) (blob_size : Bytes → Option (ℕ × ℕ))
    (plan : Planner) where
  unfoldable pub new_entry : List Payload → EntryKind → Text → Text → NewEntry
  new_entry payloads kind label now_text = record {
    hash = payload_hash sha256 hex payloads;
    kind = kind;
    label = label;
    preview = label;
    size = sum_sizes payloads;
    created_at = now_text;
    payloads = payloads;
  }

  unfoldable pub store_result : Result DbError ℕ × Database → Daemon → Processed × Daemon
  store_result (r, db) d = (stored r, record d { db = db })

  -- The entry, unless its label is a panic.
  unfoldable pub store_labelled :
      List Payload → EntryKind → Option Text → Text → Daemon → Processed × Daemon
  store_labelled payloads kind none now_text d = (panicked, d)
  store_labelled payloads kind (some label) now_text d =
      store_result (insert plan (new_entry payloads kind label now_text) d.db) d

  unfoldable pub store_payloads : List Payload → ℕ → Text → Daemon → Processed × Daemon
  store_payloads payloads instant now_text d =
      let (state, found) = should_suppress d.suppress (payload_hash sha256 hex payloads) instant in
      let kind = classify_kind (map (λ p. p.0) payloads) in
      if found
      then (suppressed, record d { suppress = state })
      else store_labelled payloads kind (build_label blob_size kind payloads) now_text
          (record d { suppress = state })

  unfoldable pub store_normalized : Option (List Payload) → ℕ → Text → Daemon → Processed × Daemon
  store_normalized none instant now_text d = (panicked, d)
  store_normalized (some payloads) instant now_text d = store_payloads payloads instant now_text d

  unfoldable pub store_read : List Payload → ℕ → Text → Daemon → Processed × Daemon
  store_read [] instant now_text d = (nothing, d)
  store_read (p ∷ payloads) instant now_text d =
      store_normalized (normalize_payloads (p ∷ payloads)) instant now_text d

  unfoldable pub store_outcome : Outcome → ℕ → Text → Daemon → Processed × Daemon
  store_outcome waiting instant now_text d = (pending, d)
  store_outcome (returned (err e)) instant now_text d = (given_up, d)
  store_outcome (returned (ok payloads)) instant now_text d = store_read payloads instant now_text d

  -- `made` tells which pipes could be made, and `flushed` whether the requests could be sent.
  unfoldable pub process_ready :
      List Text → List Bool → Bool → List Polled → ℕ → Text → Daemon → Processed × Daemon
  process_ready mimes made flushed script instant now_text d =
      if flushed
      then store_outcome
          (read_payload_pipes max_payload_bytes payload_read_idle_timeout (asked_for mimes made)
            script)
          instant now_text d
      else (given_up, d)

-- ===== src/Capture/Run/Copied.antt =====
-- What is copied comes into the history: src/daemon/watcher.rs from the events of the compositor to
-- src/common/db.rs.
use mathlib.Core.Option
use mimeclip.Base.{ℕ, ◌≡◌, true, false, not, Option, some, List, [], ◌∷◌, ◌++◌, map, keep, All, ok}
use mimeclip.Base.Bytes.{Text, Bytes}
use mimeclip.Capture.{payload_read_idle_timeout, asked_for, new_entry}
use mimeclip.Capture.Run.{Sent, global, device, offer, WatchEnd, Meeting, Watching, process_turn}
use mimeclip.Database.{Planner}
use mimeclip.Database.Store.{NewEntry}
use mimeclip.Kind.{classify_kind}
use mimeclip.Label.{build_label}
use mimeclip.Payloads.{Payload, normalize_payloads, payload_hash}
use mimeclip.Server.{Daemon}
use mimeclip.Suppress.{should_suppress}
use mimeclip.Watcher.{selection}
use mimeclip.Watcher.History.{Event, replay, announced, firsts}
use mimeclip.Watcher.Filter.{should_skip, is_sensitive_offer}
use mimeclip.Watcher.Pipes.{returned, max_payload_bytes, read_payload_pipes}

-- What the compositor sends, as an event of the watcher's history
abbrev pub event_of : Sent → Event
event_of (global name interface version) = Event.global name interface version
event_of (device e) = Event.device e
event_of (offer oid mime) = Event.offer oid mime

-- A history, whose newest event stands first, after more events.
abbrev pub then_events : List Sent → List Event → List Event
then_events [] seen = seen
then_events (e ∷ events) seen = then_events events (event_of e ∷ seen)

-- An event that selects nothing
abbrev pub IsQuiet : Sent → Type 0
IsQuiet (device (selection id)) = ⊥
IsQuiet _ = Unit

module _ (sha256 : Bytes → Bytes) (hex : Bytes → Text) (blob_size : Bytes → Option (ℕ × ℕ))
    (plan : Planner) where
  -- The entry that the payloads make
  abbrev pub entry_for : List Payload → Text → Text → NewEntry
  entry_for ns label now_text =
      new_entry sha256 hex blob_size plan ns (classify_kind (map (λ p. p.0) ns)) label now_text

  -- What stands between a copy and its entry: no marker of a password manager, a type that is not
  -- skipped, a transfer that ends with payloads, a label that is no panic, and no restore that it
  -- comes from.
  pub record IsCopy (raw : List Text) (meeting : Meeting) (d : Daemon) (ns : List Payload)
      (label : Text) : Type 0 where
    pub first : Text
    pub others : List Text
    pub payload : Payload
    pub payloads : List Payload
    pub unmarked : is_sensitive_offer (firsts raw) ≡ false
    pub kept : keep (λ x. not (should_skip x)) (firsts raw) ≡ first ∷ others
    pub flushed : meeting.flushed ≡ true
    pub transferred :
        read_payload_pipes max_payload_bytes payload_read_idle_timeout
          (asked_for (first ∷ others) meeting.made)
          meeting.polled
        ≡ returned (ok (payload ∷ payloads))
    pub normal : normalize_payloads (payload ∷ payloads) ≡ some ns
    pub labelled : build_label blob_size (classify_kind (map (λ q. q.0) ns)) ns ≡ some label
    pub unarmed :
        (should_suppress d.suppress (payload_hash sha256 hex ns) meeting.instant).1 ≡ false

  module _ (seen : List Event) (before after : List Sent) (oid : ℕ) (raw : List Text)
      (meeting : Meeting) (w : Watching) (ns : List Payload) (label : Text)
      (reached : w.watch ≡ replay seen) (known : announced oid (then_events before seen) ≡ some raw)
      (quiet : All IsQuiet after) (c : IsCopy raw meeting w.daemon ns label) where
    abbrev turn : Watching → Option WatchEnd × Watching
    turn =
        process_turn sha256 hex blob_size plan
          (some (before ++ device (selection (some oid)) ∷ after)) meeting

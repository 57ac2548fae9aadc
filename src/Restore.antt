-- ===== src/Restore.antt =====
-- src/daemon/restore.rs: the source that offers a restored entry, from the registry's events to
-- the end of its loop. Requests to the compositor are kept in a log, newest first.

pub mod Writing
pub mod Served
use mimeclip.Base.{
  ◌≡◌, refl, ap, sym, subst, ◌∙◌, Bool, Bool-cases, inl, inr, All, true, false, Option, none, some,
  List, [], ◌∷◌, ◌++◌, map, Result, ok, err, ok-injective, arith, if◌then◌else◌,
}
use mimeclip.Base.Bytes.{Text, Bytes, text, text_eq}
use mimeclip.Payloads.{Payload}
use mimeclip.Restore.Writing.{Pipe, WriteEnd, waiting, Written, write_all_to_fd}

pub record RestoreState : Type 0 where
  pub has_manager : Bool
  pub has_seat : Bool
  pub payloads : List Payload
  pub done : Bool

-- `RestoreState::new`
unfoldable pub new_state : List Payload → RestoreState
new_state payloads = record {
  has_manager = false;
  has_seat = false;
  payloads = payloads;
  done = false;
}

-- A global of the registry, by its interface
unfoldable pub global_event : Text → RestoreState → RestoreState
global_event interface s =
    if text_eq interface (text "zwlr_data_control_manager_v1")
    then record s { has_manager = true }
    else if text_eq interface (text "wl_seat")
    then record s { has_seat = true }
    else s

pub data SourceEvent : Type 0 where
  -- a client asks for a MIME type on a pipe
  send : Text → Pipe → SourceEvent
  cancelled : SourceEvent
  -- of the device
  finished : SourceEvent
  other_event : SourceEvent

-- `payloads.iter().find(|(mime, _)| mime == &mime_type)`
unfoldable pub find_payload : Text → List Payload → Option Bytes
find_payload mime [] = none
find_payload mime ((m, d) ∷ payloads) =
    let rest = find_payload mime payloads in if text_eq m mime then some d else rest

-- What a client gets on its descriptor: nothing where there is no such payload.
pub record Reply : Type 0 where
  pub mime_type : Text
  pub written : Option Written

unfoldable pub write_found : Option Bytes → Pipe → Option Written
write_found none pipe = none
write_found (some content) pipe = some (write_all_to_fd content pipe)

unfoldable pub reply_to : List Payload → Text × Pipe → Reply
unfolding write_found
reply_to payloads (mime, pipe) = record {
  mime_type = mime;
  written = write_found (find_payload mime payloads) pipe;
}

unfoldable pub is_end_waiting : WriteEnd → Bool
is_end_waiting waiting = true
is_end_waiting _ = false

unfoldable pub is_written_waiting : Option Written → Bool
unfolding is_end_waiting
is_written_waiting none = false
is_written_waiting (some w) = is_end_waiting w.ending

-- Whether the handler has not returned from a write
abbrev pub is_waiting : Reply → Bool
is_waiting r = is_written_waiting r.written

-- The handlers, with the replies in their order.
unfoldable pub source_event : SourceEvent → RestoreState → List Reply × RestoreState
source_event (send mime pipe) s = (reply_to s.payloads (mime, pipe) ∷ [], s)
source_event cancelled s = ([], record s { done = true })
source_event finished s = ([], record s { done = true })
source_event other_event s = ([], s)

-- What the handlers of one dispatch have done, and whether one of them waits in a write.
pub record Dispatched : Type 0 where
  pub replies : List Reply
  pub blocked : Bool
  pub state : RestoreState

-- What comes after a handler, which it has to return for.
unfoldable pub after_replies : List Reply → RestoreState → Dispatched → Dispatched
after_replies [] s d = d
after_replies (reply ∷ replies) s d =
    let later = after_replies replies s d in
    if is_waiting reply
    then record { replies = reply ∷ []; blocked = true; state = s }
    else record later { replies = reply ∷ later.replies }

-- `blocking_dispatch`: all events that are there, in their order
unfoldable pub dispatch_events : List SourceEvent → RestoreState → Dispatched
dispatch_events [] s = record { replies = []; blocked = false; state = s }
dispatch_events (e ∷ events) s =
    let (replies, s') = source_event e s in
    let later = dispatch_events events s' in after_replies replies s' later

-- The test of the loop, before what a turn gives
unfoldable pub unless_done : Bool → List Reply × Bool → List Reply × Bool
unless_done true r = ([], true)
unless_done false r = r

unfoldable pub after_dispatch : Dispatched → List Reply × Bool → List Reply × Bool
after_dispatch d (later, ended) =
    if d.blocked then (d.replies, false) else (d.replies ++ later, ended)

-- `while !state.done`, over the events that each dispatch finds: the replies, and whether the loop
-- has ended.
unfoldable pub serve_events : List (List SourceEvent) → RestoreState → List Reply × Bool
serve_events [] s = ([], s.done)
serve_events (events ∷ turns) s =
    let d = dispatch_events events s in
    let r = serve_events turns d.state in unless_done s.done (after_dispatch d r)

pub data RestoreError : Type 0 where
  no_manager : RestoreError
  no_seat : RestoreError

unfoldable pub after_globals : List Text → RestoreState → RestoreState
after_globals [] s = s
after_globals (interface ∷ globals) s = after_globals globals (global_event interface s)

pub record Restored : Type 0 where
  -- `source.offer`, in order
  pub offered : List Text
  pub replies : List Reply
  pub ended : Bool

-- The rest of `restore_entry`, from the requests for the device and the source on.
unfoldable pub serve : List (List SourceEvent) → RestoreState → Restored
serve turns s = record {
  offered = map (λ p. p.0) s.payloads;
  replies = (serve_events turns s).0;
  ended = (serve_events turns s).1;
}

-- Whether there is a manager, and then whether there is a seat
unfoldable pub when_bound : Bool → Bool → Restored → Result RestoreError Restored
when_bound false has_seat r = err no_manager
when_bound true false r = err no_seat
when_bound true true r = ok r

unfoldable pub restore_with : List (List SourceEvent) → RestoreState → Result RestoreError Restored
restore_with turns s = when_bound s.has_manager s.has_seat (serve turns s)

unfoldable pub restore_entry :
    List Payload → List Text → List (List SourceEvent) → Result RestoreError Restored
restore_entry [] globals turns = ok (record { offered = []; replies = []; ended = true })
restore_entry (p ∷ payloads) globals turns =
    restore_with turns (after_globals globals (new_state (p ∷ payloads)))

-- ===== src/Capture/Run.antt =====
-- `run` of src/daemon/watcher.rs: the start of the watcher and its loop.
pub mod Prompt
pub mod Copied
use mimeclip.Base.{
  ℕ, Bool, true, false, not, Option, none, some, List, [], ◌∷◌, ◌++◌, if◌then◌else◌,
}
use mimeclip.Base.Bytes.{Text, Bytes}
use mimeclip.Capture.{Processed, pending, panicked, process_ready}
use mimeclip.Database.{Planner}
use mimeclip.Server.{Daemon}
use mimeclip.Watcher.{
  WatchState, PendingOffer, DeviceEvent, initial, registry_event, device_event, offer_event,
  take_device, receive_all, send, destroy,
}
use mimeclip.Watcher.Pipes.{Polled}

-- What the compositor sends.
pub data Sent : Type 0 where
  global : ℕ → Text → ℕ → Sent
  device : DeviceEvent → Sent
  offer : ℕ → Text → Sent

unfoldable pub dispatch_one : Sent → WatchState → WatchState
dispatch_one (global name interface version) s = registry_event name interface version s
dispatch_one (device e) s = device_event e s
dispatch_one (offer oid mime) s = offer_event oid mime s

-- All events that are there, in their order
unfoldable pub dispatch_all : List Sent → WatchState → WatchState
unfolding dispatch_one
dispatch_all [] s = s
dispatch_all (e ∷ events) s = dispatch_all events (dispatch_one e s)

-- What `process_ready` meets.
pub record Meeting : Type 0 where
  pub made : List Bool
  pub flushed : Bool
  pub polled : List Polled
  pub instant : ℕ
  pub now_text : Text

-- One turn of the loop: what `blocking_dispatch` gets, unless it fails.
pub record Turn : Type 0 where
  pub events : Option (List Sent)
  pub meeting : Meeting

pub record Watching : Type 0 where
  pub watch : WatchState
  pub daemon : Daemon

pub data WatchError : Type 0 where
  no_display : WatchError
  -- a roundtrip or a dispatch has failed
  lost : WatchError
  no_manager : WatchError
  no_seat : WatchError

-- Where the watcher is when the turns are over.
pub data WatchEnd : Type 0 where
  failed : WatchError → WatchEnd
  -- in `blocking_dispatch`
  waiting : WatchEnd
  -- in `poll`, for a transfer that goes on
  reading : WatchEnd
  crashed : WatchEnd

-- `offer.destroy()`, on every path once nothing is read any more
unfoldable pub release : Processed → ℕ → WatchState → WatchState
release pending oid s = s
release _ oid s = send (destroy oid) s

unfoldable pub stops : Option Processed → Option WatchEnd
stops (some pending) = some reading
stops (some panicked) = some crashed
stops _ = none

unfoldable pub keep_watching :
    Option WatchEnd → Watching → WatchEnd × Watching → WatchEnd × Watching
keep_watching (some end) w rest = (end, w)
keep_watching none w rest = rest

-- `sha2`, `hex`, `imagesize` and SQLite's choices
module _ (sha256 : Bytes → Bytes) (hex : Bytes → Text) (blob_size : Bytes → Option (ℕ × ℕ))
    (plan : Planner) where
  -- `if let Some(ready) = state.ready.take() { process_ready(…) }`
  unfoldable pub process_pending :
      Option PendingOffer → Meeting → Watching → Option Processed × Watching
  unfolding release
  process_pending none m w = (none, w)
  process_pending (some p) m w =
      let (r, d) =
        process_ready sha256 hex blob_size plan p.mime_types m.made m.flushed m.polled m.instant
          m.now_text w.daemon in
      let s = receive_all p.offer p.mime_types m.made (record w.watch { ready = none }) in
      (some r, record { watch = release r p.offer s; daemon = d })

  unfoldable pub process_taken : Meeting → Watching → Option Processed × Watching
  unfolding process_pending
  process_taken m w = process_pending w.watch.ready m w

  -- One turn, and where it ends the loop or keeps it: only a failed dispatch, a transfer that goes
  -- on and a panic do.
  unfoldable pub process_turn : Option (List Sent) → Meeting → Watching → Option WatchEnd × Watching
  unfolding stops process_taken
  process_turn none m w = (some (failed lost), w)
  process_turn (some events) m w =
      let (r, w') = process_taken m (record w { watch = dispatch_all events w.watch }) in
      (stops r, w')

  unfoldable pub watch_turns : List Turn → Watching → WatchEnd × Watching
  unfolding process_turn keep_watching
  watch_turns [] w = (waiting, w)
  watch_turns (t ∷ turns) w =
      let (e, w') = process_turn t.events t.meeting w in keep_watching e w' (watch_turns turns w')

  -- The first roundtrip has been made.
  unfoldable pub with_globals : Turn → List Turn → Watching → WatchEnd × Watching
  unfolding watch_turns
  with_globals t turns w =
      if not w.watch.has_manager
      then (failed no_manager, w)
      else if not w.watch.has_seat
      then (failed no_seat, w)
      else watch_turns (t ∷ turns) (record w { watch = take_device w.watch })

  unfoldable pub first_roundtrip :
      Option (List Sent) → Turn → List Turn → Watching → WatchEnd × Watching
  unfolding with_globals
  first_roundtrip none t turns w = (failed lost, w)
  first_roundtrip (some events) t turns w =
      with_globals t turns (record w { watch = dispatch_all events w.watch })

  -- The second roundtrip is a turn like those of the loop: its errors end the function, and what is
  -- selected then is processed.
  unfoldable pub run : Bool → Option (List Sent) → Turn → List Turn → Daemon → WatchEnd × Watching
  unfolding first_roundtrip
  run connected globals t turns d =
      let w : Watching = record { watch = initial; daemon = d } in
      if connected then first_roundtrip globals t turns w else (failed no_display, w)

-- ===== src/Watcher.antt =====
-- src/daemon/watcher.rs: the state of the Wayland event loop and its handlers. Objects are known
-- by their ids, and the requests that the daemon sends are kept in a log, newest first.
pub mod Filter
pub mod History
pub mod Privacy
pub mod Pipes
use mathlib.Core.Option
use mimeclip.Base.{
  ℕ, Bool, true, false, not, Option, none, some, List, [], ◌∷◌, ◌++◌, any, keep, min, ◌==◌,
  if◌then◌else◌,
}
use mimeclip.Base.Bytes.{Text, text, text_eq}
use Filter.{should_skip, is_sensitive_offer}

-- What the daemon asks of the compositor.
pub data Request : Type 0 where
  bind_manager : ℕ → ℕ → Request
  bind_seat : ℕ → ℕ → Request
  get_data_device : Request
  receive : ℕ → Text → Request
  destroy : ℕ → Request

pub record PendingOffer : Type 0 where
  pub offer : ℕ
  pub mime_types : List Text

pub record WatchState : Type 0 where
  pub has_manager : Bool
  pub has_seat : Bool
  pub has_device : Bool
  -- `HashMap<u32, Vec<String>>`
  pub pending_offers : List (ℕ × List Text)
  pub ready : Option PendingOffer
  pub sent : List Request

-- `WatchState::new`
abbrev pub initial : WatchState
initial = record {
  has_manager = false;
  has_seat = false;
  has_device = false;
  pending_offers = [];
  ready = none;
  sent = [];
}

unfoldable pub find_offer : ℕ → List (ℕ × List Text) → Option (List Text)
find_offer oid [] = none
find_offer oid ((k, mimes) ∷ offers) = if k == oid then some mimes else find_offer oid offers

-- `insert`: a new value takes the place of an old one.
unfoldable pub insert_offer : ℕ → List Text → List (ℕ × List Text) → List (ℕ × List Text)
insert_offer oid mimes offers = (oid, mimes) ∷ keep (λ o. not (o.0 == oid)) offers

-- `if !list.contains(&mime_type) { list.push(mime_type) }`
unfoldable pub push_mime : Text → List Text → List Text
push_mime mime mimes = if any (λ m. text_eq m mime) mimes then mimes else mimes ++ mime ∷ []

-- `get_mut`, and the push where the offer is pending
unfoldable pub add_mime : ℕ → Text → List (ℕ × List Text) → List (ℕ × List Text)
add_mime oid mime [] = []
add_mime oid mime ((k, mimes) ∷ offers) =
    let rest = add_mime oid mime offers in
    if k == oid then (k, push_mime mime mimes) ∷ offers else (k, mimes) ∷ rest

unfoldable pub send : Request → WatchState → WatchState
send r s = record s { sent = r ∷ s.sent }

-- `state.device = Some(manager.get_data_device(…))`
unfoldable pub take_device : WatchState → WatchState
take_device s = send get_data_device (record s { has_device = true })

-- A `wl_registry` global: the manager is bound again, the seat only once.
unfoldable pub registry_event : ℕ → Text → ℕ → WatchState → WatchState
registry_event name interface version s =
    if text_eq interface (text "zwlr_data_control_manager_v1")
    then send (bind_manager name (min version 2)) (record s { has_manager = true })
    else if text_eq interface (text "wl_seat")
    then (if not s.has_seat
        then send (bind_seat name (min version 7)) (record s { has_seat = true })
        else s)
    else s

pub data DeviceEvent : Type 0 where
  data_offer : ℕ → DeviceEvent
  selection : Option ℕ → DeviceEvent
  finished : DeviceEvent
  primary_selection : DeviceEvent

-- The offer with the MIME types that are left of it, if any.
unfoldable pub keep_offer : ℕ → List Text → WatchState → WatchState
keep_offer offer [] s = send (destroy offer) s
keep_offer offer (m ∷ ms) s = record s {
  ready = some (record { offer = offer; mime_types = m ∷ ms });
}

-- The selected offer and what it offered, the other offers forgotten.
unfoldable pub select_offer : Option ℕ → Option (List Text) → WatchState → WatchState
select_offer (some offer) (some mimes) s =
    if is_sensitive_offer mimes
    then send (destroy offer) s
    else keep_offer offer (keep (λ m. not (should_skip m)) mimes) s
select_offer (some offer) none s = s
select_offer none selected s = s

unfoldable pub device_event : DeviceEvent → WatchState → WatchState
device_event (data_offer oid) s = record s { pending_offers = insert_offer oid [] s.pending_offers }
device_event (selection id) s =
    select_offer id (Option.bind id (λ oid. find_offer oid s.pending_offers))
      (record s { pending_offers = [] })
device_event finished s = s
device_event primary_selection s = s

-- An offer announces a MIME type.
unfoldable pub offer_event : ℕ → Text → WatchState → WatchState
offer_event oid mime s = record s { pending_offers = add_mime oid mime s.pending_offers }

-- `receive` for each MIME type whose pipe could be made; `pipes` tells which.
unfoldable pub receive_all : ℕ → List Text → List Bool → WatchState → WatchState
receive_all oid [] pipes s = s
receive_all oid (m ∷ mimes) [] s = receive_all oid mimes [] (send (receive oid m) s)
receive_all oid (m ∷ mimes) (made ∷ pipes) s =
    receive_all oid mimes pipes (if made then send (receive oid m) s else s)

-- `state.ready.take()`, and the requests of `process_ready`: on every path the offer is destroyed.
unfoldable pub take_ready : List Bool → Option PendingOffer → WatchState → WatchState
take_ready pipes none s = s
take_ready pipes (some p) s =
    send (destroy p.offer) (receive_all p.offer p.mime_types pipes (record s { ready = none }))

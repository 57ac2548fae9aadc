-- ===== src/Watcher/History.antt =====
-- What the handlers of src/daemon/watcher.rs know of an offer, against the history of events.
use mathlib.Core.Option
use mimeclip.Base.{
  ℕ, ◌≡◌, refl, ap, sym, subst, ◌∙◌, Bool, Bool-cases, inl, inr, true, false, not, ◌||◌, ◌++◌, any,
  Option, none, some, List, [], ◌∷◌, keep, ◌==◌, arith, if◌then◌else◌,
}
use mimeclip.Base.Bytes.{Text, text_eq, text_eq_iff}
use mimeclip.Watcher.Filter.{should_skip}
use mimeclip.Watcher.{
  WatchState, PendingOffer, DeviceEvent, data_offer, selection, finished, primary_selection,
  initial, find_offer, insert_offer, push_mime, add_mime, send, registry_event, keep_offer,
  select_offer, device_event, offer_event, take_ready, receive_all, take_device,
}

-- What happens to the state: an event of the compositor, `run` taking the device, or its
-- `process_ready`, with the pipes that could be made.
pub data Event : Type 0 where
  global : ℕ → Text → ℕ → Event
  device : DeviceEvent → Event
  offer : ℕ → Text → Event
  bound : Event
  process : List Bool → Event

unfoldable pub handle : Event → WatchState → WatchState
handle (global name interface version) s = registry_event name interface version s
handle (device e) s = device_event e s
handle (offer oid mime) s = offer_event oid mime s
handle bound s = take_device s
handle (process pipes) s = take_ready pipes s.ready s

-- The newest event stands first.
unfoldable pub replay : List Event → WatchState
replay [] = initial
replay (e ∷ history) = handle e (replay history)

-- What an offer has announced since it was made and since the last selection, the newest first, as
-- often as it did; `none` where it was not made since.
abbrev pub announced : ℕ → List Event → Option (List Text)
announced oid [] = none
announced oid (device (data_offer k) ∷ history) =
    if k == oid then some [] else announced oid history
announced oid (device (selection _) ∷ history) = none
announced oid (offer k mime ∷ history) =
    if k == oid
    then Option.map (λ mimes. mime ∷ mimes) (announced oid history)
    else announced oid history
announced oid (_ ∷ history) = announced oid history

-- The first of each, in the order in which they came. The list has the newest first.
abbrev pub firsts : List Text → List Text
firsts [] = []
firsts (m ∷ older) =
    let rest = firsts older in if any (λ x. text_eq x m) older then rest else rest ++ m ∷ []

abbrev pub HasNoRepeat : List Text → Type 0
HasNoRepeat [] = Unit
HasNoRepeat (m ∷ ms) = (any (λ x. text_eq x m) ms ≡ false) × HasNoRepeat ms

abbrev pub IsOnce : Option (List Text) → Type 0
IsOnce none = Unit
IsOnce (some mimes) = HasNoRepeat mimes

any_of_same :
    (m k : Text) (ms : List Text)
    → any (λ x. text_eq x m) ms ≡ true
    → text_eq m k ≡ true
    → any (λ x. text_eq x k) ms ≡ true
unfolding any
any_of_same m k [] h e = h
any_of_same m k (x ∷ ms) h e =
    ground (arith, text_eq_iff x m, text_eq_iff m k, text_eq_iff x k, any_of_same m k ms)

any-snoc :
    (k m : Text) (ms : List Text)
    → any (λ x. text_eq x k) (ms ++ m ∷ []) ≡ (any (λ x. text_eq x k) ms || text_eq m k)
unfolding any
any-snoc k m [] = ground arith
any-snoc k m (x ∷ ms) = ground (arith, any-snoc k m ms)

any-firsts :
    (k : Text) (ms : List Text) → any (λ x. text_eq x k) (firsts ms) ≡ any (λ x. text_eq x k) ms
unfolding any
any-firsts k [] = refl
any-firsts k (m ∷ ms) = elim (Bool-cases (any (λ x. text_eq x m) ms)) [
  | inl known ↦ rw known (ground (arith, any-firsts k ms, any_of_same m k ms known))
  | inr new ↦ rw (new, any-snoc k m (firsts ms), any-firsts k ms) (ground arith)
]

push_mime-firsts : (m : Text) (ms : List Text) → push_mime m (firsts ms) ≡ firsts (m ∷ ms)
unfolding push_mime
push_mime-firsts m ms = rw (any-firsts m ms) refl

map-push_mime :
    (m : Text) (raw : Option (List Text))
    → Option.map (push_mime m) (Option.map firsts raw)
      ≡ Option.map firsts (Option.map (λ mimes. m ∷ mimes) raw)
map-push_mime m none = refl
map-push_mime m (some ms) = ap some (push_mime-firsts m ms)

HasNoRepeat-snoc :
    (m : Text) (ms : List Text)
    → HasNoRepeat ms
    → any (λ x. text_eq x m) ms ≡ false
    → HasNoRepeat (ms ++ m ∷ [])
unfolding any
HasNoRepeat-snoc m [] h new = (refl, tt)
HasNoRepeat-snoc m (x ∷ ms) h new = (
  ground (arith, any-snoc x m ms, text_eq_iff x m, text_eq_iff m x, h.0),
  HasNoRepeat-snoc m ms h.1 (ground (arith, new)),
)

firsts-HasNoRepeat : (ms : List Text) → HasNoRepeat (firsts ms)
firsts-HasNoRepeat [] = tt
firsts-HasNoRepeat (m ∷ ms) = elim (Bool-cases (any (λ x. text_eq x m) ms)) [
  | inl known ↦ rw known (firsts-HasNoRepeat ms)
  | inr new ↦
      rw new (HasNoRepeat-snoc m (firsts ms) (firsts-HasNoRepeat ms) (any-firsts m ms ∙ new))
]

IsOnce-firsts : (raw : Option (List Text)) → IsOnce (Option.map firsts raw)
IsOnce-firsts none = tt
IsOnce-firsts (some ms) = firsts-HasNoRepeat ms

find_offer-keep :
    (oid k : ℕ) (offers : List (ℕ × List Text))
    → (k == oid) ≡ false
    → find_offer oid (keep (λ o. not (o.0 == k)) offers) ≡ find_offer oid offers
unfolding find_offer keep
find_offer-keep oid k [] h = refl
find_offer-keep oid k ((j, mimes) ∷ offers) h = ground (arith, find_offer-keep oid k offers h)

find_offer-insert_offer :
    (oid k : ℕ) (mimes : List Text) (offers : List (ℕ × List Text))
    → find_offer oid (insert_offer k mimes offers)
      ≡ (if k == oid then some mimes else find_offer oid offers)
unfolding insert_offer find_offer
find_offer-insert_offer oid k mimes offers = ground (arith, find_offer-keep oid k offers)

find_offer-add_mime :
    (oid k : ℕ) (mime : Text) (offers : List (ℕ × List Text))
    → find_offer oid (add_mime k mime offers) ≡ (
        if k == oid
        then Option.map (push_mime mime) (find_offer oid offers)
        else find_offer oid offers)
unfolding find_offer add_mime
find_offer-add_mime oid k mime [] = ground arith
find_offer-add_mime oid k mime ((j, mimes) ∷ offers) =
    ground (arith, find_offer-add_mime oid k mime offers)

pending-keep_offer :
    (oid : ℕ) (mimes : List Text) (s : WatchState)
    → (keep_offer oid mimes s).pending_offers ≡ s.pending_offers
unfolding keep_offer send
pending-keep_offer oid [] s = refl
pending-keep_offer oid (m ∷ ms) s = refl

-- Sending and selecting leave the pending offers alone.
pending-select_offer :
    (id : Option ℕ) (selected : Option (List Text)) (s : WatchState)
    → (select_offer id selected s).pending_offers ≡ s.pending_offers
unfolding select_offer send
pending-select_offer (some oid) (some mimes) s =
    ground (arith, pending-keep_offer oid (keep (λ m. not (should_skip m)) mimes) s)
pending-select_offer (some oid) none s = refl
pending-select_offer none selected s = refl

pending-registry_event :
    (name : ℕ) (interface : Text) (version : ℕ) (s : WatchState)
    → (registry_event name interface version s).pending_offers ≡ s.pending_offers
unfolding registry_event send
pending-registry_event name interface version s = ground arith

pending-receive_all :
    (oid : ℕ) (mimes : List Text) (pipes : List Bool) (s : WatchState)
    → (receive_all oid mimes pipes s).pending_offers ≡ s.pending_offers
unfolding receive_all send
pending-receive_all oid [] pipes s = refl
pending-receive_all oid (m ∷ mimes) [] s = pending-receive_all oid mimes [] _
pending-receive_all oid (m ∷ mimes) (true ∷ pipes) s = pending-receive_all oid mimes pipes _
pending-receive_all oid (m ∷ mimes) (false ∷ pipes) s = pending-receive_all oid mimes pipes s

pending-take_ready :
    (pipes : List Bool) (ready : Option PendingOffer) (s : WatchState)
    → (take_ready pipes ready s).pending_offers ≡ s.pending_offers
unfolding take_ready send
pending-take_ready pipes none s = refl
pending-take_ready pipes (some p) s = pending-receive_all p.offer p.mime_types pipes _

pending-take_device : (s : WatchState) → (take_device s).pending_offers ≡ s.pending_offers
unfolding take_device send
pending-take_device s = refl

map_if :
    (b : Bool) (x y : Option (List Text))
    → (if b then Option.map firsts x else Option.map firsts y)
      ≡ Option.map firsts (if b then x else y)
map_if true x y = refl
map_if false x y = refl

pub find_offer-firsts :
    (oid : ℕ) (history : List Event)
    → find_offer oid (replay history).pending_offers ≡ Option.map firsts (announced oid history)
unfolding replay handle device_event offer_event
find_offer-firsts oid [] = unfold find_offer in refl
find_offer-firsts oid (global name interface version ∷ history) =
    rw (pending-registry_event name interface version (replay history))
      (find_offer-firsts oid history)
find_offer-firsts oid (device (data_offer k) ∷ history) =
    rw
      (
        find_offer-insert_offer oid k [] (replay history).pending_offers,
        find_offer-firsts oid history,
      )
      (map_if (k == oid) (some []) (announced oid history))
find_offer-firsts oid (device (selection id) ∷ history) =
    rw (pending-select_offer id _ _) (unfold find_offer in refl)
find_offer-firsts oid (device finished ∷ history) = find_offer-firsts oid history
find_offer-firsts oid (device primary_selection ∷ history) = find_offer-firsts oid history
find_offer-firsts oid (offer k mime ∷ history) =
    rw
      (
        find_offer-add_mime oid k mime (replay history).pending_offers,
        find_offer-firsts oid history,
        map-push_mime mime (announced oid history),
      )
      (map_if (k == oid) (Option.map (λ mimes. mime ∷ mimes) (announced oid history))
        (announced oid history))
find_offer-firsts oid (bound ∷ history) =
    rw (pending-take_device (replay history)) (find_offer-firsts oid history)
find_offer-firsts oid (process pipes ∷ history) =
    rw (pending-take_ready pipes (replay history).ready (replay history))
      (find_offer-firsts oid history)

-- After any history the map of pending offers holds, for each offer, exactly the MIME types that
-- it has announced since it was made, each once, in the order in which they were first announced,
-- and nothing from before the last selection.
pub find_offer-announced :
    (oid : ℕ) (history : List Event)
    → (find_offer oid (replay history).pending_offers ≡ Option.map firsts (announced oid history))
      × IsOnce (find_offer oid (replay history).pending_offers)
find_offer-announced oid history =
    let same = find_offer-firsts oid history in
    (same, subst IsOnce (sym same) (IsOnce-firsts (announced oid history)))

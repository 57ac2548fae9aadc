-- ===== src/Capture/Run/Prompt.antt =====
-- What the watcher of src/daemon/watcher.rs has taken care of when it waits for the next event.
use mimeclip.Base.{
  ℕ, ◌≡◌, ◌≢◌, refl, ap, Bool, Bool-cases, inl, inr, true, false, not, Option, none, some, List, [],
  ◌∷◌, any, ◌==◌, arith, if◌then◌else◌,
}
use mimeclip.Base.Bytes.{Text, Bytes}
use mimeclip.Capture.{Processed, stored, suppressed, given_up, nothing, pending, panicked}
use mimeclip.Capture.Run.{
  Sent, global, device, offer, dispatch_one, dispatch_all, Meeting, Turn, Watching, WatchEnd,
  WatchError, no_manager, no_seat, waiting, failed, release, stops, keep_watching, process_pending,
  process_taken, process_turn, watch_turns, with_globals, first_roundtrip, run,
}
use mimeclip.Database.{Planner}
use mimeclip.Server.{Daemon}
use mimeclip.Watcher.{
  WatchState, PendingOffer, data_offer, selection, finished, primary_selection, Request,
  bind_manager, bind_seat, get_data_device, receive, destroy, send, registry_event, keep_offer,
  select_offer, device_event, offer_event, take_device, receive_all,
}
use mimeclip.Watcher.Filter.{is_sensitive_offer}

-- Every offer that was asked for data is destroyed after that, or is one of `released`. The newest
-- request stands first.
abbrev pub IsReleased : List ℕ → List Request → Type 0
IsReleased released [] = Unit
IsReleased released (receive oid mime ∷ sent) =
    (any (λ k. k == oid) released ≡ true) × IsReleased released sent
IsReleased released (destroy oid ∷ sent) = IsReleased (oid ∷ released) sent
IsReleased released (bind_manager name version ∷ sent) = IsReleased released sent
IsReleased released (bind_seat name version ∷ sent) = IsReleased released sent
IsReleased released (get_data_device ∷ sent) = IsReleased released sent

any-cons :
    (oid x : ℕ) (xs ys : List ℕ)
    → ((k : ℕ) → any (λ j. j == k) xs ≡ true → any (λ j. j == k) ys ≡ true)
    → (k : ℕ) → any (λ j. j == k) (x ∷ xs) ≡ true
    → any (λ j. j == k) (x ∷ ys) ≡ true
unfolding any
any-cons oid x xs ys more k h = ground (arith, more k)

IsReleased-more :
    (xs ys : List ℕ) (sent : List Request)
    → ((k : ℕ) → any (λ j. j == k) xs ≡ true → any (λ j. j == k) ys ≡ true)
    → IsReleased xs sent
    → IsReleased ys sent
IsReleased-more xs ys [] more h = tt
IsReleased-more xs ys (receive oid mime ∷ sent) more h =
    (more oid h.0, IsReleased-more xs ys sent more h.1)
IsReleased-more xs ys (destroy oid ∷ sent) more h =
    IsReleased-more (oid ∷ xs) (oid ∷ ys) sent (any-cons oid oid xs ys more) h
IsReleased-more xs ys (bind_manager name version ∷ sent) more h = IsReleased-more xs ys sent more h
IsReleased-more xs ys (bind_seat name version ∷ sent) more h = IsReleased-more xs ys sent more h
IsReleased-more xs ys (get_data_device ∷ sent) more h = IsReleased-more xs ys sent more h

any-weaken :
    (oid : ℕ) (xs : List ℕ) (k : ℕ)
    → any (λ j. j == k) xs ≡ true
    → any (λ j. j == k) (oid ∷ xs) ≡ true
unfolding any
any-weaken oid xs k h = ground arith

abbrev IsClean : WatchState → Type 0
IsClean s = IsReleased [] s.sent

destroy-IsClean : (oid : ℕ) (s : WatchState) → IsClean s → IsClean (send (destroy oid) s)
unfolding send
destroy-IsClean oid s h = IsReleased-more [] (oid ∷ []) s.sent (any-weaken oid []) h

registry_event-IsClean :
    (name : ℕ) (interface : Text) (version : ℕ) (s : WatchState)
    → IsClean s
    → IsClean (registry_event name interface version s)
unfolding registry_event send
registry_event-IsClean name interface version s h = ground arith

keep_offer-IsClean :
    (oid : ℕ) (mimes : List Text) (s : WatchState) → IsClean s → IsClean (keep_offer oid mimes s)
unfolding keep_offer
keep_offer-IsClean oid [] s h = destroy-IsClean oid s h
keep_offer-IsClean oid (m ∷ mimes) s h = h

select_offer-IsClean :
    (id : Option ℕ) (selected : Option (List Text)) (s : WatchState)
    → IsClean s
    → IsClean (select_offer id selected s)
unfolding select_offer
select_offer-IsClean (some oid) (some mimes) s h = elim (Bool-cases (is_sensitive_offer mimes)) [
  | inl e ↦ rw e (destroy-IsClean oid s h)
  | inr e ↦ rw e (keep_offer-IsClean oid _ s h)
]
select_offer-IsClean (some oid) none s h = h
select_offer-IsClean none selected s h = h

dispatch_one-IsClean : (e : Sent) (s : WatchState) → IsClean s → IsClean (dispatch_one e s)
unfolding dispatch_one device_event offer_event
dispatch_one-IsClean (global name interface version) s h =
    registry_event-IsClean name interface version s h
dispatch_one-IsClean (device (data_offer k)) s h = h
dispatch_one-IsClean (device (selection id)) s h = select_offer-IsClean id _ _ h
dispatch_one-IsClean (device finished) s h = h
dispatch_one-IsClean (device primary_selection) s h = h
dispatch_one-IsClean (offer oid mime) s h = h

dispatch_all-IsClean :
    (events : List Sent) (s : WatchState) → IsClean s → IsClean (dispatch_all events s)
unfolding dispatch_all
dispatch_all-IsClean [] s h = h
dispatch_all-IsClean (e ∷ events) s h = dispatch_all-IsClean events _ (dispatch_one-IsClean e s h)

receive_all-lem :
    (oid : ℕ) (mimes : List Text) (made : List Bool) (s : WatchState)
    → IsReleased (oid ∷ []) s.sent
    → IsReleased (oid ∷ []) (receive_all oid mimes made s).sent
      × ((receive_all oid mimes made s).ready ≡ s.ready)
unfolding receive_all send any
receive_all-lem oid [] made s h = (h, refl)
receive_all-lem oid (m ∷ mimes) [] s h = receive_all-lem oid mimes [] _ (ground arith, h)
receive_all-lem oid (m ∷ mimes) (true ∷ made) s h =
    receive_all-lem oid mimes made _ (ground arith, h)
receive_all-lem oid (m ∷ mimes) (false ∷ made) s h = receive_all-lem oid mimes made s h

-- No offer stands ready, and every offer that was asked for data is destroyed.
pub record IsIdle (s : WatchState) : Type 0 where
  pub ready : s.ready ≡ none
  pub released : IsReleased [] s.sent

release-IsIdle :
    (r : Processed) (oid : ℕ) (s : WatchState)
    → stops (some r) ≡ none
    → IsReleased (oid ∷ []) s.sent
    → s.ready ≡ none
    → IsIdle (release r oid s)
unfolding release stops send
release-IsIdle (stored x) oid s h c n = record { ready = n; released = c }
release-IsIdle suppressed oid s h c n = record { ready = n; released = c }
release-IsIdle given_up oid s h c n = record { ready = n; released = c }
release-IsIdle nothing oid s h c n = record { ready = n; released = c }
release-IsIdle pending oid s h c n = cc
release-IsIdle panicked oid s h c n = cc

not-waiting : (r : Option Processed) → stops r ≢ some waiting
unfolding stops
not-waiting none h = cc
not-waiting (some (stored x)) h = cc
not-waiting (some suppressed) h = cc
not-waiting (some given_up) h = cc
not-waiting (some nothing) h = cc
not-waiting (some pending) h = cc
not-waiting (some panicked) h = cc

module _ (sha256 : Bytes → Bytes) (hex : Bytes → Text) (blob_size : Bytes → Option (ℕ × ℕ))
    (plan : Planner) where
  process_pending-IsIdle :
      (p : Option PendingOffer) (m : Meeting) (w : Watching)
      → IsClean w.watch
      → w.watch.ready ≡ p
      → stops (process_pending sha256 hex blob_size plan p m w).0 ≡ none
      → IsIdle (process_pending sha256 hex blob_size plan p m w).1.watch
  unfolding process_pending
  process_pending-IsIdle none m w c n h = record { ready = n; released = c }
  process_pending-IsIdle (some p) m w c n h =
      let (sent, ready) =
        receive_all-lem p.offer p.mime_types m.made (record w.watch { ready = none })
          (IsReleased-more [] (p.offer ∷ []) w.watch.sent (any-weaken p.offer []) c) in
      release-IsIdle _ p.offer _ h sent ready

  process_turn-IsIdle :
      (events : Option (List Sent)) (m : Meeting) (w : Watching)
      → IsClean w.watch
      → (process_turn sha256 hex blob_size plan events m w).0 ≡ none
      → IsIdle (process_turn sha256 hex blob_size plan events m w).1.watch
  unfolding process_turn process_taken
  process_turn-IsIdle none m w c h = cc
  process_turn-IsIdle (some events) m w c h =
      process_pending-IsIdle _ m (record w { watch = dispatch_all events w.watch })
        (dispatch_all-IsClean events w.watch c) refl h

  process_turn-not-waiting :
      (events : Option (List Sent)) (m : Meeting) (w : Watching)
      → (process_turn sha256 hex blob_size plan events m w).0 ≢ some waiting
  unfolding process_turn
  process_turn-not-waiting none m w h = cc
  process_turn-not-waiting (some events) m w h = not-waiting _ h

  keep_watching-IsIdle :
      (e : Option WatchEnd) (w : Watching) (rest : WatchEnd × Watching)
      → e ≢ some waiting
      → (e ≡ none → rest.0 ≡ waiting → IsIdle rest.1.watch)
      → (keep_watching e w rest).0 ≡ waiting
      → IsIdle (keep_watching e w rest).1.watch
  unfolding keep_watching
  keep_watching-IsIdle (some end) w rest other next h = absurd (other (ap some h))
  keep_watching-IsIdle none w rest other next h = next refl h

  watch_turns-IsIdle :
      (turns : List Turn) (w : Watching)
      → IsIdle w.watch
      → (watch_turns sha256 hex blob_size plan turns w).0 ≡ waiting
      → IsIdle (watch_turns sha256 hex blob_size plan turns w).1.watch
  unfolding watch_turns
  watch_turns-IsIdle [] w i h = i
  watch_turns-IsIdle (t ∷ turns) w i h =
      keep_watching-IsIdle _ _ _ (process_turn-not-waiting t.events t.meeting w)
        (λ on more.
          watch_turns-IsIdle turns _ (process_turn-IsIdle t.events t.meeting w i.released on) more)
        h

  first_turn-IsIdle :
      (t : Turn) (turns : List Turn) (w : Watching)
      → IsClean w.watch
      → (watch_turns sha256 hex blob_size plan (t ∷ turns) w).0 ≡ waiting
      → IsIdle (watch_turns sha256 hex blob_size plan (t ∷ turns) w).1.watch
  unfolding watch_turns
  first_turn-IsIdle t turns w c h =
      keep_watching-IsIdle _ _ _ (process_turn-not-waiting t.events t.meeting w)
        (λ on more. watch_turns-IsIdle turns _ (process_turn-IsIdle t.events t.meeting w c on) more)
        h

  if_failed-IsIdle :
      (b : Bool) (e : WatchError) (w : Watching) (rest : WatchEnd × Watching)
      → (rest.0 ≡ waiting → IsIdle rest.1.watch)
      → (if b then (failed e, w) else rest).0 ≡ waiting
      → IsIdle (if b then (failed e, w) else rest).1.watch
  if_failed-IsIdle true e w rest next h = cc
  if_failed-IsIdle false e w rest next h = next h

  first_roundtrip-IsIdle :
      (globals : Option (List Sent)) (t : Turn) (turns : List Turn) (w : Watching)
      → IsClean w.watch
      → (first_roundtrip sha256 hex blob_size plan globals t turns w).0 ≡ waiting
      → IsIdle (first_roundtrip sha256 hex blob_size plan globals t turns w).1.watch
  unfolding first_roundtrip with_globals take_device send
  first_roundtrip-IsIdle none t turns w c h = cc
  first_roundtrip-IsIdle (some events) t turns w c h =
      let w' : Watching = record w { watch = dispatch_all events w.watch } in
      let ready : Watching = record w' { watch = take_device w'.watch } in
      let rest = watch_turns sha256 hex blob_size plan (t ∷ turns) ready in
      if_failed-IsIdle (not w'.watch.has_manager) no_manager w'
        (if not w'.watch.has_seat then (failed no_seat, w') else rest)
        (if_failed-IsIdle (not w'.watch.has_seat) no_seat w' rest
          (first_turn-IsIdle t turns ready (dispatch_all-IsClean events w.watch c)))
        h

  -- Whenever the watcher waits for the next event, no offer stands ready, and every offer that it
  -- has asked for data was destroyed after that, whatever the compositor has sent, however the
  -- transfers ended, and whatever the database answered.
  pub run-IsIdle :
      (connected : Bool) (globals : Option (List Sent)) (t : Turn) (turns : List Turn) (d : Daemon)
      → (run sha256 hex blob_size plan connected globals t turns d).0 ≡ waiting
      → IsIdle (run sha256 hex blob_size plan connected globals t turns d).1.watch
  unfolding run
  run-IsIdle true globals t turns d h = first_roundtrip-IsIdle globals t turns _ tt h
  run-IsIdle false globals t turns d h = cc

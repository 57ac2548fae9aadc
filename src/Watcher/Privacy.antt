-- ===== src/Watcher/Privacy.antt =====
-- What the handlers of src/daemon/watcher.rs may ask of a clipboard source.
use mathlib.Core.Option
use mathlib.Core.Option.{some-injective}
use mathlib.Core.List.{mem-cons_self, mem-cons_of_mem}
use mimeclip.Base.{
  All-weaken, ℕ, ◌≡◌, refl, ap, subst, inl, inr, Bool, Bool-cases, true, false, not, Option, none,
  some, List, [], ◌∷◌, ◌++◌, keep, All, Mem, arith,
}
use mimeclip.Base.Bytes.{Text}
use mimeclip.Watcher.{
  WatchState, PendingOffer, data_offer, selection, finished, primary_selection, Request,
  bind_manager, bind_seat, get_data_device, receive, destroy, send, registry_event, keep_offer,
  select_offer, device_event, offer_event, take_ready, receive_all, take_device,
}
use mimeclip.Watcher.Filter.{should_skip, is_sensitive_offer}
use mimeclip.Watcher.History.{
  Event, global, device, offer, bound, process, handle, replay, announced, firsts,
  find_offer-firsts,
}

-- Properties of the requests and of the ready offer that the handlers keep, for any set of
-- representations that may be asked for.
module _ (Q : ℕ → Text → Type 0) where
  abbrev IsAllowed : Request → Type 0
  IsAllowed (bind_manager name version) = Unit
  IsAllowed (bind_seat name version) = Unit
  IsAllowed get_data_device = Unit
  IsAllowed (receive oid mime) = Q oid mime
  IsAllowed (destroy oid) = Unit

  abbrev IsReadyFor : Option PendingOffer → Type 0
  IsReadyFor none = Unit
  IsReadyFor (some p) = All (Q p.offer) p.mime_types

  abbrev IsSafe : WatchState → Type 0
  IsSafe s = All IsAllowed s.sent × IsReadyFor s.ready

  send-IsSafe : (r : Request) (s : WatchState) → IsAllowed r → IsSafe s → IsSafe (send r s)
  unfolding send
  send-IsSafe r s allowed safe = ((allowed, safe.0), safe.1)

  registry_event-IsSafe :
      (name : ℕ) (interface : Text) (version : ℕ) (s : WatchState)
      → IsSafe s
      → IsSafe (registry_event name interface version s)
  unfolding registry_event send
  registry_event-IsSafe name interface version s safe = ground arith

  keep_offer-IsSafe :
      (oid : ℕ) (mimes : List Text) (s : WatchState)
      → All (Q oid) mimes
      → IsSafe s
      → IsSafe (keep_offer oid mimes s)
  unfolding keep_offer send
  keep_offer-IsSafe oid [] s ms safe = ((tt, safe.0), safe.1)
  keep_offer-IsSafe oid (m ∷ mimes) s ms safe = (safe.0, ms)

  select_offer-IsSafe :
      (id : Option ℕ) (selected : Option (List Text)) (s : WatchState)
      → ((oid : ℕ) (mimes : List Text)
          → id ≡ some oid
          → selected ≡ some mimes
          → is_sensitive_offer mimes ≡ false
          → All (Q oid) (keep (λ m. not (should_skip m)) mimes))
      → IsSafe s
      → IsSafe (select_offer id selected s)
  unfolding select_offer
  select_offer-IsSafe (some oid) (some mimes) s h safe =
      elim (Bool-cases (is_sensitive_offer mimes)) [
        | inl e ↦ rw e (send-IsSafe (destroy oid) s tt safe)
        | inr e ↦ rw e (keep_offer-IsSafe oid _ s (h oid mimes refl refl e) safe)
      ]
  select_offer-IsSafe (some oid) none s h safe = safe
  select_offer-IsSafe none selected s h safe = safe

  receive_all-IsSafe :
      (oid : ℕ) (mimes : List Text) (pipes : List Bool) (s : WatchState)
      → All (Q oid) mimes
      → IsSafe s
      → IsSafe (receive_all oid mimes pipes s)
  unfolding receive_all
  receive_all-IsSafe oid [] pipes s ms safe = safe
  receive_all-IsSafe oid (m ∷ mimes) [] s ms safe =
      receive_all-IsSafe oid mimes [] _ ms.1 (send-IsSafe (receive oid m) s ms.0 safe)
  receive_all-IsSafe oid (m ∷ mimes) (true ∷ pipes) s ms safe =
      receive_all-IsSafe oid mimes pipes _ ms.1 (send-IsSafe (receive oid m) s ms.0 safe)
  receive_all-IsSafe oid (m ∷ mimes) (false ∷ pipes) s ms safe =
      receive_all-IsSafe oid mimes pipes s ms.1 safe

  take_ready-IsSafe :
      (pipes : List Bool) (ready : Option PendingOffer) (s : WatchState)
      → IsReadyFor ready
      → IsSafe s
      → IsSafe (take_ready pipes ready s)
  unfolding take_ready
  take_ready-IsSafe pipes none s ready safe = safe
  take_ready-IsSafe pipes (some p) s ready safe =
      send-IsSafe (destroy p.offer) _ tt
        (receive_all-IsSafe p.offer p.mime_types pipes _ ready (safe.0, tt))

module _ (Q R : ℕ → Text → Type 0) (weaken : (oid : ℕ) (m : Text) → Q oid m → R oid m) where
  weaken-All : (oid : ℕ) (mimes : List Text) → All (Q oid) mimes → All (R oid) mimes
  weaken-All oid [] h = tt
  weaken-All oid (m ∷ mimes) h = (weaken oid m h.0, weaken-All oid mimes h.1)

  weaken-sent : (rs : List Request) → All (IsAllowed Q) rs → All (IsAllowed R) rs
  weaken-sent [] h = tt
  weaken-sent (bind_manager name version ∷ rs) h = (tt, weaken-sent rs h.1)
  weaken-sent (bind_seat name version ∷ rs) h = (tt, weaken-sent rs h.1)
  weaken-sent (get_data_device ∷ rs) h = (tt, weaken-sent rs h.1)
  weaken-sent (receive oid m ∷ rs) h = (weaken oid m h.0, weaken-sent rs h.1)
  weaken-sent (destroy oid ∷ rs) h = (tt, weaken-sent rs h.1)

  weaken-ready : (ready : Option PendingOffer) → IsReadyFor Q ready → IsReadyFor R ready
  weaken-ready none h = tt
  weaken-ready (some p) h = weaken-All p.offer p.mime_types h

  weaken-IsSafe : (s : WatchState) → IsSafe Q s → IsSafe R s
  weaken-IsSafe s h = (weaken-sent s.sent h.0, weaken-ready s.ready h.1)

-- The offer was selected, its source has announced the MIME type before that, none of what it had
-- announced marks a secret, and the type is not one of those that are skipped.
abbrev pub WasChosen : List Event → ℕ → Text → Type 0
WasChosen history oid mime =
    (newer older : List Event) × (mimes : List Text) × (history
      ≡ newer ++ device (selection (some oid)) ∷ older)
    × (Option.map firsts (announced oid older) ≡ some mimes)
    × (is_sensitive_offer mimes ≡ false)
    × Mem mime mimes
    × (should_skip mime ≡ false)

WasChosen-cons :
    (e : Event) (history : List Event) (oid : ℕ) (mime : Text)
    → WasChosen history oid mime
    → WasChosen (e ∷ history) oid mime
WasChosen-cons e history oid mime (newer, older, mimes, split, known, unmarked, member, wanted) =
    (e ∷ newer, older, mimes, ap (◌∷◌ e) split, known, unmarked, member, wanted)

-- What the filter keeps.
kept-All :
    (mimes all : List Text)
    → ((m : Text) → Mem m mimes → Mem m all)
    → All (λ m. Mem m all × (should_skip m ≡ false)) (keep (λ m. not (should_skip m)) mimes)
unfolding keep
kept-All [] all h = tt
kept-All (m ∷ mimes) all h = elim (Bool-cases (should_skip m)) [
  | inl e ↦ rw e (kept-All mimes all (λ x i. h x (mem-cons_of_mem m i)))
  | inr e ↦ rw e ((h m mem-cons_self, e), kept-All mimes all (λ x i. h x (mem-cons_of_mem m i)))
]

bind-some :
    (id : Option ℕ) (f : ℕ → Option (List Text)) (oid : ℕ) (mimes : List Text)
    → id ≡ some oid
    → Option.bind id f ≡ some mimes
    → f oid ≡ some mimes
unfolding Option.bind
bind-some none f oid mimes e h = cc
bind-some (some k) f oid mimes e h = rw (← some-injective k oid e) h

-- The selection that is taken at the end of a history.
select-IsSafe :
    (id : Option ℕ) (history : List Event)
    → IsSafe (WasChosen (device (selection id) ∷ history)) (replay history)
    → IsSafe
        (WasChosen (device (selection id) ∷ history))
        (device_event (selection id) (replay history))
unfolding device_event
select-IsSafe id history before =
    select_offer-IsSafe (WasChosen _) id _ _
      (λ oid mimes chosen known unmarked.
        All-weaken _ _ _
          (λ m kept. (
            [],
            history,
            mimes,
            rw chosen refl,
            rw (← find_offer-firsts oid history) (bind-some id _ oid mimes chosen known),
            unmarked,
            kept.0,
            kept.1,
          ))
          (kept-All mimes mimes (λ m i. i)))
      before

step-IsSafe :
    (e : Event) (history : List Event)
    → IsSafe (WasChosen (e ∷ history)) (replay history)
    → IsSafe (WasChosen (e ∷ history)) (handle e (replay history))
unfolding handle
step-IsSafe (global name interface version) history before =
    registry_event-IsSafe (WasChosen _) name interface version (replay history) before
step-IsSafe (device (selection id)) history before = select-IsSafe id history before
step-IsSafe (device (data_offer k)) history before = unfold device_event in before
step-IsSafe (device finished) history before = unfold device_event in before
step-IsSafe (device primary_selection) history before = unfold device_event in before
step-IsSafe (offer k mime) history before = unfold offer_event in before
step-IsSafe bound history before = unfold take_device send in ((tt, before.0), before.1)
step-IsSafe (process pipes) history before =
    take_ready-IsSafe (WasChosen _) pipes (replay history).ready (replay history) before.1 before

-- Over every history of events, what the daemon has asked for and what it is about to ask for
-- was chosen.
replay-IsSafe : (history : List Event) → IsSafe (WasChosen history) (replay history)
unfolding replay
replay-IsSafe [] = (tt, tt)
replay-IsSafe (e ∷ history) = step-IsSafe e history (
    weaken-IsSafe (WasChosen history) (WasChosen (e ∷ history)) (WasChosen-cons e history)
      (replay history) (replay-IsSafe history))

middle-All :
    (P : Request → Type 0) (later : List Request) (r : Request) (earlier : List Request)
    → All P (later ++ r ∷ earlier)
    → P r
middle-All P [] r earlier h = h.0
middle-All P (x ∷ later) r earlier h = middle-All P later r earlier h.1

-- Over every history, wherever a request to receive a MIME type of an offer stands among those
-- sent, that offer was selected before, it had announced the type, no type that it had announced
-- is the password managers' hint, and the type is not one of those that are skipped.
pub received-WasChosen :
    (history : List Event) (later earlier : List Request) (oid : ℕ) (mime : Text)
    → (replay history).sent ≡ later ++ receive oid mime ∷ earlier
    → WasChosen history oid mime
received-WasChosen history later earlier oid mime e =
    middle-All (IsAllowed (WasChosen history)) later (receive oid mime) earlier
      (subst (All (IsAllowed (WasChosen history))) e (replay-IsSafe history).0)

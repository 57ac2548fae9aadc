-- ===== src/Restore/Served.antt =====
-- What `restore_entry` of src/daemon/restore.rs offers and sends.
use mimeclip.Base.{
  ◌≡◌, refl, ap, sym, subst, ◌∙◌, Bool, Bool-cases, inl, inr, All, ◌≢◌, ◌++◌, ◌||◌, true, false,
  Option, none, some, List, [], ◌∷◌, map, ok, ok-injective, arith, if◌then◌else◌,
}
use mathlib.Core.List.{append-nil, map-append}
use mimeclip.Base.Bytes.{Text, Bytes, text_eq, text_eq_iff}
use mimeclip.Payloads.{Payload}
use mimeclip.Restore.Writing.{Pipe, Written}
use mimeclip.Restore.Writing.Delivered.{IsDelivered, write_all_to_fd-IsDelivered}
use mimeclip.Restore.{
  RestoreState, new_state, global_event, SourceEvent, send, cancelled, finished, other_event,
  find_payload, Reply, write_found, reply_to, is_waiting, source_event, unless_done, Dispatched,
  after_replies, dispatch_events, after_dispatch, serve_events, after_globals, Restored, serve,
  when_bound, restore_with, restore_entry,
}

-- What clients ask for in the events of one dispatch, up to a write that waits
abbrev pub asked_in : List Payload → List SourceEvent → List (Text × Pipe)
asked_in payloads [] = []
asked_in payloads (send mime pipe ∷ events) =
    let later = asked_in payloads events in
    (mime, pipe) ∷ (if is_waiting (reply_to payloads (mime, pipe)) then [] else later)
asked_in payloads (_ ∷ events) = asked_in payloads events

-- Whether nothing is dispatched after these events: a write waits, the source was cancelled, or the
-- device is finished.
abbrev pub is_last : List Payload → List SourceEvent → Bool
is_last payloads [] = false
is_last payloads (send mime pipe ∷ events) =
    is_waiting (reply_to payloads (mime, pipe)) || is_last payloads events
is_last payloads (cancelled ∷ events) = true
is_last payloads (finished ∷ events) = true
is_last payloads (other_event ∷ events) = is_last payloads events

abbrev pub asked : List Payload → List (List SourceEvent) → List (Text × Pipe)
asked payloads [] = []
asked payloads (events ∷ turns) =
    let later = asked payloads turns in
    asked_in payloads events ++ (if is_last payloads events then [] else later)

-- One dispatch
record IsDispatched (events : List SourceEvent) (s : RestoreState) (d : Dispatched) : Type 0 where
  replies : d.replies ≡ map (reply_to s.payloads) (asked_in s.payloads events)
  payloads : d.state.payloads ≡ s.payloads
  last : (d.blocked || d.state.done) ≡ (s.done || is_last s.payloads events)

after_reply-IsDispatched :
    (mime : Text) (pipe : Pipe) (events : List SourceEvent) (s : RestoreState) (d : Dispatched)
    → IsDispatched events s d
    → IsDispatched
        (send mime pipe ∷ events)
        s
        (after_replies (reply_to s.payloads (mime, pipe) ∷ []) s d)
unfolding after_replies
after_reply-IsDispatched mime pipe events s d i =
    elim (Bool-cases (is_waiting (reply_to s.payloads (mime, pipe)))) [
      | inl waits ↦ record {
        replies = rw waits refl;
        payloads = rw waits refl;
        last = rw waits (ground arith);
      }
      | inr returns ↦ record {
        replies = rw returns (ap (◌∷◌ (reply_to s.payloads (mime, pipe))) i.replies);
        payloads = rw returns i.payloads;
        last = rw returns i.last;
      }
    ]

dispatch_events-IsDispatched :
    (events : List SourceEvent) (s : RestoreState)
    → IsDispatched events s (dispatch_events events s)
unfolding dispatch_events source_event after_replies
dispatch_events-IsDispatched [] s = record { replies = refl; payloads = refl; last = ground arith }
dispatch_events-IsDispatched (send mime pipe ∷ events) s =
    after_reply-IsDispatched mime pipe events s _ (dispatch_events-IsDispatched events s)
dispatch_events-IsDispatched (cancelled ∷ events) s =
    let i = dispatch_events-IsDispatched events (record s { done = true }) in
    record { replies = i.replies; payloads = i.payloads; last = i.last ∙ ground arith }
dispatch_events-IsDispatched (finished ∷ events) s =
    let i = dispatch_events-IsDispatched events (record s { done = true }) in
    record { replies = i.replies; payloads = i.payloads; last = i.last ∙ ground arith }
dispatch_events-IsDispatched (other_event ∷ events) s =
    let i = dispatch_events-IsDispatched events s in
    record { replies = i.replies; payloads = i.payloads; last = i.last }

unless_done-true : (b : Bool) (r : List Reply × Bool) → b ≡ true → (unless_done b r).0 ≡ []
unfolding unless_done
unless_done-true true r h = refl
unless_done-true false r h = cc

unless_done-false : (b : Bool) (r : List Reply × Bool) → b ≡ false → (unless_done b r).0 ≡ r.0
unfolding unless_done
unless_done-false true r h = cc
unless_done-false false r h = refl

serve_events-done :
    (turns : List (List SourceEvent)) (s : RestoreState)
    → s.done ≡ true
    → (serve_events turns s).0 ≡ []
unfolding serve_events
serve_events-done [] s h = refl
serve_events-done (events ∷ turns) s h = unless_done-true s.done _ h

-- The replies of a dispatch and of those that come after it
after_dispatch-asked :
    (events : List SourceEvent) (turns : List (List SourceEvent)) (s : RestoreState)
    (d : Dispatched) (blocked done : Bool)
    → d.blocked ≡ blocked
    → d.state.done ≡ done
    → s.done ≡ false
    → IsDispatched events s d
    → (d.state.done ≡ false
        → (serve_events turns d.state).0
          ≡ map (reply_to d.state.payloads) (asked d.state.payloads turns))
    → (after_dispatch d (serve_events turns d.state)).0
      ≡ map (reply_to s.payloads) (asked s.payloads (events ∷ turns))
unfolding after_dispatch
after_dispatch-asked events turns s d true done b e h i rest =
    let last : is_last s.payloads events ≡ true = ground (arith, i.last) in
    rw (b, last, append-nil (asked_in s.payloads events)) i.replies
after_dispatch-asked events turns s d false true b e h i rest =
    let last : is_last s.payloads events ≡ true = ground (arith, i.last) in
    rw
      (
        b,
        last,
        append-nil (asked_in s.payloads events),
        serve_events-done turns d.state e,
        append-nil d.replies,
      )
      i.replies
after_dispatch-asked events turns s d false false b e h i rest =
    let last : is_last s.payloads events ≡ false = ground (arith, i.last) in
    rw (b, last, i.replies, rest e, i.payloads)
      (sym (map-append (reply_to s.payloads) (asked_in s.payloads events) (asked s.payloads turns)))

serve_events-asked :
    (turns : List (List SourceEvent)) (s : RestoreState)
    → s.done ≡ false
    → (serve_events turns s).0 ≡ map (reply_to s.payloads) (asked s.payloads turns)
unfolding serve_events
serve_events-asked [] s h = refl
serve_events-asked (events ∷ turns) s h =
    let d = dispatch_events events s in
    unless_done-false s.done _ h
    ∙ after_dispatch-asked events turns s d d.blocked d.state.done refl refl h
        (dispatch_events-IsDispatched events s) (serve_events-asked turns d.state)

global_event-keeps :
    (interface : Text) (s : RestoreState)
    → ((global_event interface s).payloads ≡ s.payloads)
      × ((global_event interface s).done ≡ s.done)
unfolding global_event
global_event-keeps interface s = ground arith

after_globals-keeps :
    (globals : List Text) (s : RestoreState)
    → ((after_globals globals s).payloads ≡ s.payloads) × ((after_globals globals s).done ≡ s.done)
unfolding after_globals
after_globals-keeps [] s = (refl, refl)
after_globals-keeps (interface ∷ globals) s =
    let (p, d) = after_globals-keeps globals (global_event interface s) in
    let (p', d') = global_event-keeps interface s in (p ∙ p', d ∙ d')

-- No payload of the list has the MIME type.
abbrev IsMissing : Text → List Payload → Type 0
IsMissing mime = All (λ p. p.0 ≢ mime)

-- The contents of the first payload of the MIME type
abbrev IsFirst : Text → Bytes → List Payload → Type 0
IsFirst mime content payloads =
    (before after : List Payload) × (payloads ≡ before ++ (mime, content) ∷ after)
    × IsMissing mime before

-- What went to a client that asked for a MIME type
abbrev IsReplied : List Payload → Text → Option Written → Type 0
IsReplied payloads mime none = IsMissing mime payloads
IsReplied payloads mime (some w) =
    (content : Bytes) × IsFirst mime content payloads × IsDelivered content w

abbrev pub IsAnswer : List Payload → Reply → Type 0
IsAnswer payloads r = IsReplied payloads r.mime_type r.written

abbrev IsFound : Text → List Payload → Option Bytes → Type 0
IsFound mime payloads none = IsMissing mime payloads
IsFound mime payloads (some content) = IsFirst mime content payloads

IsFound-cons :
    (mime m : Text) (d : Bytes) (payloads : List Payload) (found : Option Bytes)
    → m ≢ mime
    → IsFound mime payloads found
    → IsFound mime ((m, d) ∷ payloads) found
IsFound-cons mime m d payloads none n h = (n, h)
IsFound-cons mime m d payloads (some content) n (before, after, split, missing) =
    ((m, d) ∷ before, after, ap (◌∷◌ (m, d)) split, (n, missing))

find_payload-IsFound :
    (mime : Text) (payloads : List Payload) → IsFound mime payloads (find_payload mime payloads)
unfolding find_payload
find_payload-IsFound mime [] = tt
find_payload-IsFound mime ((m, d) ∷ payloads) = elim (Bool-cases (text_eq m mime)) [
  | inl same ↦ rw same ([], payloads, ap (λ x. (x, d) ∷ payloads) ((text_eq_iff m mime).0 same), tt)
  | inr differ ↦ rw differ (
      IsFound-cons mime m d payloads (find_payload mime payloads)
        (λ e. cc (differ, (text_eq_iff m mime).1 e)) (find_payload-IsFound mime payloads))
]

write_found-IsReplied :
    (mime : Text) (payloads : List Payload) (found : Option Bytes) (pipe : Pipe)
    → IsFound mime payloads found
    → IsReplied payloads mime (write_found found pipe)
unfolding write_found
write_found-IsReplied mime payloads none pipe h = h
write_found-IsReplied mime payloads (some content) pipe h =
    (content, h, write_all_to_fd-IsDelivered content pipe)

replies-AreAnswers :
    (payloads : List Payload) (qs : List (Text × Pipe))
    → All (IsAnswer payloads) (map (reply_to payloads) qs)
unfolding reply_to
replies-AreAnswers payloads [] = tt
replies-AreAnswers payloads ((mime, pipe) ∷ qs) = (
  write_found-IsReplied mime payloads (find_payload mime payloads) pipe
      (find_payload-IsFound mime payloads),
  replies-AreAnswers payloads qs,
)

-- What a restore offers and sends, where the compositor has what it needs.
abbrev pub IsServed : List Payload → List (List SourceEvent) → Restored → Type 0
IsServed payloads turns r =
    (r.offered ≡ map (λ p. p.0) payloads)
    × (r.replies ≡ map (reply_to payloads) (asked payloads turns))
    × All (IsAnswer payloads) r.replies

when_bound-ok : (m t : Bool) (r served : Restored) → when_bound m t served ≡ ok r → served ≡ r
unfolding when_bound
when_bound-ok false t r served h = cc
when_bound-ok true false r served h = cc
when_bound-ok true true r served h = ok-injective h

restore_with-IsServed :
    (payloads : List Payload) (turns : List (List SourceEvent)) (s : RestoreState) (r : Restored)
    → s.payloads ≡ payloads
    → s.done ≡ false
    → restore_with turns s ≡ ok r
    → IsServed payloads turns r
unfolding restore_with serve
restore_with-IsServed payloads turns s r held h e =
    let same = serve_events-asked turns s h ∙ ap (λ ps. map (reply_to ps) (asked ps turns)) held in
    subst (IsServed payloads turns) (when_bound-ok s.has_manager s.has_seat r _ e) (
      ap (map (λ p. p.0)) held,
      same,
      subst (All (IsAnswer payloads)) (sym same)
          (replies-AreAnswers payloads (asked payloads turns)),
    )

-- A restore that does not fail has offered the MIME types of the payloads in their order, and has
-- answered what clients asked for, each in turn: all requests up to the dispatch in which the source
-- is cancelled or the device finishes, those of that dispatch included, and nothing of a later one,
-- and nothing after a write that waits for its reader. An answer is the beginning of the first
-- payload of that MIME type, all of it where the writing ended well, or nothing where there is none.
-- There has to be a payload.
pub restore_entry-IsServed :
    (p : Payload) (payloads : List Payload) (globals : List Text) (turns : List (List SourceEvent))
    (r : Restored)
    → restore_entry (p ∷ payloads) globals turns ≡ ok r
    → IsServed (p ∷ payloads) turns r
unfolding restore_entry new_state
restore_entry-IsServed p payloads globals turns r e =
    let (held, open') = after_globals-keeps globals (new_state (p ∷ payloads)) in
    restore_with-IsServed (p ∷ payloads) turns (after_globals globals (new_state (p ∷ payloads))) r
      held open' e

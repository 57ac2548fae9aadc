-- ===== src/Watcher/Pipes.antt =====
-- src/daemon/watcher.rs: `read_payload_pipes`. What `poll` and the reads give is a script, one
-- entry for each call of `poll`.
pub mod Total
pub mod Rounds
use mimeclip.Base.{
  ℕ, ◌+◌, ◌-◌, Bool, true, false, not, ◌||◌, Option, none, some, List, [], ◌∷◌, ◌++◌, map, length,
  any, ltb, Result, ok, err, and_then, if◌then◌else◌,
}
use mimeclip.Base.Bytes.{Text, Bytes}
use mimeclip.Payloads.{Payload}

-- MAX_PAYLOAD_BYTES
abbrev pub max_payload_bytes : ℕ
max_payload_bytes = 67108864

pub data PayloadReadError : Type 0 where
  too_large : ℕ → PayloadReadError
  timed_out : ℕ → PayloadReadError
  poll_failed : ℕ → PayloadReadError

pub record PayloadPipe : Type 0 where
  pub mime : Text
  pub content : Bytes
  pub done : Bool

-- What a pipe that `poll` reports gives: POLLNVAL, or the outcome of the read that follows. A
-- read of no bytes is the end of the file.
pub data PipeEvent : Type 0 where
  invalid : PipeEvent
  read_bytes : Bytes → PipeEvent
  read_failed : PipeEvent

-- One call of `poll`: EINTR, another error, or what it reports for each pipe by its index. The
-- pipes that are done are not polled, so their entries are not looked at.
pub data Polled : Type 0 where
  interrupted : Polled
  failed : ℕ → Polled
  ready : List (Option PipeEvent) → Polled

-- Whether the function has returned when the script ends, or still waits in `poll`.
pub data Outcome : Type 0 where
  returned : Result PayloadReadError (List Payload) → Outcome
  waiting : Outcome

-- A pipe before anything is read.
abbrev pub new_pipe : Text → PayloadPipe
new_pipe mime = record { mime = mime; content = []; done = false }

unfoldable pub close : PayloadPipe → PayloadPipe
close p = record p { done = true }

-- `pipes.iter().any(|pipe| !pipe.done)`
unfoldable pub is_active : List PayloadPipe → Bool
is_active pipes = any (λ p. not p.done) pipes

-- `ready_count` is not 0: one of the polled pipes has events.
unfoldable pub has_ready : List PayloadPipe → List (Option PipeEvent) → Bool
has_ready [] events = false
has_ready (p ∷ pipes) [] = false
has_ready (p ∷ pipes) (none ∷ events) = has_ready pipes events
has_ready (p ∷ pipes) (some e ∷ events) = not p.done || has_ready pipes events

-- `(!data.is_empty()).then_some(…)`, before what later pipes give
unfoldable pub push_payload : Text → Bytes → List Payload → List Payload
push_payload mime [] payloads = payloads
push_payload mime (b ∷ bs) payloads = (mime, b ∷ bs) ∷ payloads

-- The last expression: the pipes that gave something.
unfoldable pub collect : List PayloadPipe → List Payload
collect [] = []
collect (p ∷ pipes) = push_payload p.mime p.content (collect pipes)

module _ (max : ℕ) where
  -- The body of the inner loop, for one pipe.
  unfoldable pub read_pipe : ℕ → PayloadPipe → PipeEvent → Result PayloadReadError (ℕ × PayloadPipe)
  read_pipe total p invalid = ok (total, close p)
  read_pipe total p (read_bytes []) = ok (total, close p)
  read_pipe total p (read_bytes (b ∷ bs)) =
      if ltb (max - total) (length (b ∷ bs))
      then err (too_large max)
      else ok (total + length (b ∷ bs), record p { content = p.content ++ b ∷ bs })
  read_pipe total p read_failed = ok (total, close p)

  unfoldable pub serve_pipe :
      ℕ → PayloadPipe → Option PipeEvent → Result PayloadReadError (ℕ × PayloadPipe)
  serve_pipe total p none = ok (total, p)
  serve_pipe total p (some e) = if p.done then ok (total, p) else read_pipe total p e

  unfoldable pub push_pipe :
      PayloadPipe
      → Result PayloadReadError (ℕ × List PayloadPipe)
      → Result PayloadReadError (ℕ × List PayloadPipe)
  push_pipe p (ok (total, pipes)) = ok (total, p ∷ pipes)
  push_pipe p (err e) = err e

  -- `for (index, events) in ready`
  unfoldable pub serve :
      ℕ
      → List PayloadPipe
      → List (Option PipeEvent)
      → Result PayloadReadError (ℕ × List PayloadPipe)
  serve total [] events = ok (total, [])
  serve total (p ∷ pipes) [] = ok (total, p ∷ pipes)
  serve total (p ∷ pipes) (e ∷ events) =
      and_then (serve_pipe total p e) (λ r. push_pipe r.1 (serve r.0 pipes events))

  -- The rounds that follow one, unless it has failed.
  unfoldable pub resume :
      Result PayloadReadError (ℕ × List PayloadPipe) → (ℕ → List PayloadPipe → Outcome) → Outcome
  resume (ok (total, pipes)) rest = rest total pipes
  resume (err e) rest = returned (err e)

  module _ (idle_timeout : ℕ) where
    -- The outer loop, from the pipes and the size that it has reached.
    unfoldable pub drain : ℕ → List PayloadPipe → List Polled → Outcome
    drain total pipes [] = if is_active pipes then waiting else returned (ok (collect pipes))
    drain total pipes (interrupted ∷ script) =
        let rest = drain total pipes script in
        if is_active pipes then rest else returned (ok (collect pipes))
    drain total pipes (failed errno ∷ script) =
        if is_active pipes
        then returned (err (poll_failed errno))
        else returned (ok (collect pipes))
    drain total pipes (ready events ∷ script) =
        let rest = resume (serve total pipes events) (λ t served. drain t served script) in
        if is_active pipes
        then (if has_ready pipes events then rest else returned (err (timed_out idle_timeout)))
        else returned (ok (collect pipes))

    unfoldable pub read_payload_pipes : List Text → List Polled → Outcome
    read_payload_pipes mimes script = drain 0 (map new_pipe mimes) script

-- ===== src/Watcher/Pipes/Rounds.antt =====
-- The loop of `read_payload_pipes` of src/daemon/watcher.rs ends.
use mimeclip.Base.{
  ℕ, suc, ◌+◌, ◌-◌, ◌≤◌, ◌<◌, ◌≡◌, refl, inl, inr, Bool, Bool-cases, true, false, Option, none,
  some, List, [], ◌∷◌, map, length, Result-cases, ok, arith, if◌then◌else◌,
}
use mimeclip.Base.Bytes.{Text}
use mimeclip.Watcher.Pipes.{
  PayloadPipe, PipeEvent, invalid, read_bytes, read_failed, Polled, interrupted, failed, ready,
  Outcome, returned, waiting, new_pipe, close, has_ready, read_pipe, serve_pipe, serve, resume,
  drain, read_payload_pipes,
}
use mimeclip.Watcher.Pipes.Total.{serve-inv}

-- The calls of `poll` that were not interrupted.
unfoldable pub rounds : List Polled → ℕ
rounds [] = 0
rounds (interrupted ∷ script) = rounds script
rounds (failed errno ∷ script) = suc (rounds script)
rounds (ready events ∷ script) = suc (rounds script)

unfoldable pub is_returned : Outcome → Bool
is_returned (returned r) = true
is_returned waiting = false

-- One for a pipe that is not done.
unfoldable left : PayloadPipe → ℕ
left p = if p.done then 0 else 1

unfoldable active : List PayloadPipe → ℕ
active [] = 0
active (p ∷ pipes) = left p + active pipes

module _ (max : ℕ) where
  -- A pipe that is served is done or has used some of what is left of the limit.
  read_pipe-decreases :
      (total : ℕ) (p : PayloadPipe) (e : PipeEvent) (t : ℕ) (q : PayloadPipe)
      → read_pipe max total p e ≡ ok (t, q)
      → p.done ≡ false
      → total ≤ max
      → (t ≤ max) × (suc (max - t + left q) ≤ max - total + left p)
  unfolding read_pipe close left
  read_pipe-decreases total p invalid t q h d le = ground arith
  read_pipe-decreases total p (read_bytes []) t q h d le = ground arith
  read_pipe-decreases total p (read_bytes (b ∷ bs)) t q h d le = ground arith
  read_pipe-decreases total p read_failed t q h d le = ground arith

  serve_pipe-decreases :
      (total : ℕ) (p : PayloadPipe) (e : PipeEvent) (t : ℕ) (q : PayloadPipe)
      → serve_pipe max total p (some e) ≡ ok (t, q)
      → total ≤ max
      → (t ≤ max)
        × (max - t + left q ≤ max - total + left p)
        × (p.done ≡ false → suc (max - t + left q) ≤ max - total + left p)
  unfolding serve_pipe
  serve_pipe-decreases total p e t q h le = elim (Bool-cases p.done) [
    | inl d ↦ (ground arith, ground arith, λ n. ground arith)
    | inr d ↦
        let (le', less) = read_pipe-decreases total p e t q (ground arith) d le in
        (le', omega (arith, less), λ n. less)
  ]

  serve_pipe-none :
      (total : ℕ) (p : PayloadPipe) (t : ℕ) (q : PayloadPipe)
      → serve_pipe max total p none ≡ ok (t, q)
      → (t ≡ total) × (q ≡ p)
  unfolding serve_pipe
  serve_pipe-none total p t q h = (ground arith, ground arith)

  serve-decreases :
      (total : ℕ) (pipes : List PayloadPipe) (events : List (Option PipeEvent)) (t : ℕ)
      (served : List PayloadPipe)
      → serve max total pipes events ≡ ok (t, served)
      → total ≤ max
      → (t ≤ max)
        × (max - t + active served ≤ max - total + active pipes)
        × (has_ready pipes events ≡ true
            → suc (max - t + active served) ≤ max - total + active pipes)
  unfolding has_ready active
  serve-decreases total [] events t served h le = unfold serve in ground arith
  serve-decreases total (p ∷ pipes) [] t served h le = unfold serve in ground arith
  serve-decreases total (p ∷ pipes) (none ∷ events) t served h le =
      let (between, q, rest, first, later, eq) =
        serve-inv max total p pipes none events t served h in
      let (same, same_pipe) = serve_pipe-none total p between q first in
      let (le', less, strict) =
        serve-decreases between pipes events t rest later (omega (arith, same, le)) in
      rw eq (
        le',
        rw same_pipe (omega (arith, same, less)),
        λ some_ready. rw same_pipe (omega (arith, same, strict some_ready)),
      )
  serve-decreases total (p ∷ pipes) (some e ∷ events) t served h le =
      let (between, q, rest, first, later, eq) =
        serve-inv max total p pipes (some e) events t served h in
      let (le', less, strict) = serve_pipe-decreases total p e between q first le in
      let (le'', less', strict') = serve-decreases between pipes events t rest later le' in
      (
        le'',
        rw eq (omega (arith, less, less')),
        λ some_ready. rw eq (elim (Bool-cases p.done) [
          | inr d ↦ omega (arith, strict d, less')
          | inl d ↦ omega (arith, less, strict' (ground arith))
        ]),
      )

  module _ (idle_timeout : ℕ) where
    drain-is_returned :
        (total : ℕ) (pipes : List PayloadPipe) (script : List Polled)
        → total ≤ max
        → max - total + active pipes < rounds script
        → is_returned (drain max idle_timeout total pipes script) ≡ true
    unfolding drain rounds is_returned resume
    drain-is_returned total pipes [] le enough = absurd (omega (arith, enough))
    drain-is_returned total pipes (interrupted ∷ script) le enough =
        ground (arith, drain-is_returned total pipes script le enough)
    drain-is_returned total pipes (failed errno ∷ script) le enough = ground arith
    drain-is_returned total pipes (ready events ∷ script) le enough =
        elim (Bool-cases (has_ready pipes events)) [
          | inr idle ↦ ground arith
          | inl some_ready ↦ elim (Result-cases (serve max total pipes events)) [
            | inl (x, bad) ↦ rw (some_ready, bad) (ground arith)
            | inr ((t, served), fine) ↦
                let (le', less, strict) = serve-decreases total pipes events t served fine le in
                rw (some_ready, fine)
                  (ground (
                    arith,
                    drain-is_returned t served script le'
                        (omega (arith, strict some_ready, enough)),
                  ))
          ]
        ]

active-new : (mimes : List Text) → active (map new_pipe mimes) ≡ length mimes
unfolding active left
active-new [] = refl
active-new (m ∷ mimes) = omega (arith, active-new mimes)

-- The loop ends: after more calls of `poll` than the limit in bytes and the number of pipes
-- together, not counting those that a signal interrupts, the function has returned, whatever the
-- calls report.
pub read_payload_pipes-is_returned :
    (max idle_timeout : ℕ) (mimes : List Text) (script : List Polled)
    → max + length mimes < rounds script
    → is_returned (read_payload_pipes max idle_timeout mimes script) ≡ true
unfolding read_payload_pipes
read_payload_pipes-is_returned max idle_timeout mimes script enough =
    drain-is_returned max idle_timeout 0 (map new_pipe mimes) script (omega arith)
      (omega (arith, active-new mimes, enough))

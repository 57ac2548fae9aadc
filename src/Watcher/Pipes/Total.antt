-- ===== src/Watcher/Pipes/Total.antt =====
-- What `read_payload_pipes` of src/daemon/watcher.rs returns: sizes and MIME types.
use mimeclip.Base.{
  ℕ, ◌+◌, ◌≤◌, ◌≡◌, ◌≢◌, refl, ap, subst, inl, inr, Bool-cases, Option, none, some, List, [], ◌∷◌,
  map, length, length-append, All, Result, Result-cases, and_then-eq-ok, and_then-eq-err, ok, err,
  arith,
}
use mimeclip.Base.Bytes.{Text, Bytes}
use mimeclip.Payloads.{Payload}
use mimeclip.Watcher.Pipes.{
  PayloadReadError, too_large, timed_out, poll_failed, PayloadPipe, PipeEvent, invalid, read_bytes,
  read_failed, Polled, interrupted, failed, ready, Outcome, returned, waiting, new_pipe, close,
  is_active, has_ready, push_payload, collect, read_pipe, serve_pipe, push_pipe, serve, resume,
  drain, read_payload_pipes,
}

-- The bytes that the pipes hold.
abbrev pub held : List PayloadPipe → ℕ
held [] = 0
held (p ∷ pipes) = length p.content + held pipes

-- The bytes of payloads.
abbrev pub bytes_of : List Payload → ℕ
bytes_of [] = 0
bytes_of (p ∷ payloads) = length p.1 + bytes_of payloads

abbrev mimes_of : List PayloadPipe → List Text
mimes_of pipes = map (λ p. p.mime) pipes

module _ (max : ℕ) where
  -- Serving one pipe keeps count, within the limit.
  read_pipe-counts :
      (total : ℕ) (p : PayloadPipe) (e : PipeEvent) (t : ℕ) (q : PayloadPipe)
      → read_pipe max total p e ≡ ok (t, q)
      → total ≤ max
      → (t ≤ max) × (t + length p.content ≡ total + length q.content) × (q.mime ≡ p.mime)
  unfolding read_pipe close
  read_pipe-counts total p invalid t q h le = ground arith
  read_pipe-counts total p (read_bytes []) t q h le = ground arith
  read_pipe-counts total p (read_bytes (b ∷ bs)) t q h le =
      ground (arith, length-append p.content (b ∷ bs))
  read_pipe-counts total p read_failed t q h le = ground arith

  serve_pipe-counts :
      (total : ℕ) (p : PayloadPipe) (e : Option PipeEvent) (t : ℕ) (q : PayloadPipe)
      → serve_pipe max total p e ≡ ok (t, q)
      → total ≤ max
      → (t ≤ max) × (t + length p.content ≡ total + length q.content) × (q.mime ≡ p.mime)
  unfolding serve_pipe
  serve_pipe-counts total p none t q h le = ground arith
  serve_pipe-counts total p (some e) t q h le = ground (arith, read_pipe-counts total p e t q)

  push_pipe-inv :
      (q : PayloadPipe) (r : Result PayloadReadError (ℕ × List PayloadPipe)) (t : ℕ)
      (served : List PayloadPipe)
      → push_pipe max q r ≡ ok (t, served)
      → (rest : List PayloadPipe) × (r ≡ ok (t, rest)) × (served ≡ q ∷ rest)
  unfolding push_pipe
  push_pipe-inv q (ok (total, pipes)) t served h = (pipes, ground arith, ground arith)
  push_pipe-inv q (err x) t served h = cc

  -- A round that serves the pipes in order serves the first one and then the others.
  pub serve-inv :
      (total : ℕ) (p : PayloadPipe) (pipes : List PayloadPipe) (e : Option PipeEvent)
      (events : List (Option PipeEvent)) (t : ℕ) (served : List PayloadPipe)
      → serve max total (p ∷ pipes) (e ∷ events) ≡ ok (t, served)
      → (between : ℕ) × (q : PayloadPipe) × (rest : List PayloadPipe) × (serve_pipe max total p e
          ≡ ok (between, q))
        × (serve max between pipes events ≡ ok (t, rest))
        × (served ≡ q ∷ rest)
  unfolding serve
  serve-inv total p pipes e events t served h =
      let ((between, q), first, later) = and_then-eq-ok (serve_pipe max total p e) _ h in
      let (rest, last, eq) = push_pipe-inv q (serve max between pipes events) t served later in
      (between, q, rest, first, last, eq)

  serve-counts :
      (total : ℕ) (pipes : List PayloadPipe) (events : List (Option PipeEvent)) (t : ℕ)
      (served : List PayloadPipe)
      → serve max total pipes events ≡ ok (t, served)
      → total ≤ max
      → (t ≤ max) × (t + held pipes ≡ total + held served) × (mimes_of served ≡ mimes_of pipes)
  serve-counts total [] events t served h le = unfold serve in ground arith
  serve-counts total (p ∷ pipes) [] t served h le = unfold serve in ground arith
  serve-counts total (p ∷ pipes) (e ∷ events) t served h le =
      let (between, q, rest, first, later, eq) = serve-inv total p pipes e events t served h in
      let (le', sum, mime) = serve_pipe-counts total p e between q first le in
      let (le'', sums, mimes) = serve-counts between pipes events t rest later le' in
      rw eq (le'', omega (arith, sum, sums), rw (mime, mimes) refl)

-- What `collect` gives for pipes whose contents are known by their size.
abbrev pub HasData : Payload → Type 0
HasData p = p.1 ≢ []

-- `xs` is left of `ys` when some elements are passed over.
pub data IsSubsequence : List Text → List Text → Type 0 where
  nothing : (ys : List Text) → IsSubsequence [] ys
  taken : (x : Text) (xs ys : List Text) → IsSubsequence xs ys → IsSubsequence (x ∷ xs) (x ∷ ys)
  passed : (y : Text) (xs ys : List Text) → IsSubsequence xs ys → IsSubsequence xs (y ∷ ys)

abbrev pub IsGood : ℕ → List Text → List Payload → Type 0
IsGood size mimes payloads =
    (bytes_of payloads ≤ size)
    × All HasData payloads
    × IsSubsequence (map (λ p. p.0) payloads) mimes

push_payload-IsGood :
    (size : ℕ) (mimes : List Text) (payloads : List Payload) (mime : Text) (content : Bytes)
    → IsGood size mimes payloads
    → IsGood (length content + size) (mime ∷ mimes) (push_payload mime content payloads)
unfolding push_payload
push_payload-IsGood size mimes payloads mime [] (le, all, sub) =
    (omega (arith, le), all, passed mime _ _ sub)
push_payload-IsGood size mimes payloads mime (b ∷ bs) (le, all, sub) =
    (omega (arith, le), (λ e. cc, all), taken mime _ _ sub)

collect-IsGood : (pipes : List PayloadPipe) → IsGood (held pipes) (mimes_of pipes) (collect pipes)
unfolding collect
collect-IsGood [] = (omega arith, tt, nothing [])
collect-IsGood (p ∷ pipes) =
    push_payload-IsGood (held pipes) (mimes_of pipes) (collect pipes) p.mime p.content
      (collect-IsGood pipes)

-- What the function may answer: payloads that are good, its own limit as too large, or that the
-- transfer was idle or could not be polled.
abbrev pub IsGoodAnswer : ℕ → List Text → Outcome → Type 0
IsGoodAnswer max mimes (returned (ok payloads)) = IsGood max mimes payloads
IsGoodAnswer max mimes (returned (err (too_large limit))) = limit ≡ max
IsGoodAnswer max mimes (returned (err (timed_out idle_timeout))) = Unit
IsGoodAnswer max mimes (returned (err (poll_failed errno))) = Unit
IsGoodAnswer max mimes waiting = Unit

collect-IsGoodAnswer :
    (max : ℕ) (pipes : List PayloadPipe)
    → held pipes ≤ max
    → IsGoodAnswer max (mimes_of pipes) (returned (ok (collect pipes)))
collect-IsGoodAnswer max pipes le =
    let (bytes, all, sub) = collect-IsGood pipes in (omega (arith, bytes, le), all, sub)

module _ (max : ℕ) where
  serve_pipe-limit :
      (total : ℕ) (p : PayloadPipe) (e : Option PipeEvent) (x : PayloadReadError)
      → serve_pipe max total p e ≡ err x
      → x ≡ too_large max
  unfolding serve_pipe read_pipe
  serve_pipe-limit total p none x h = cc
  serve_pipe-limit total p (some invalid) x h = ground arith
  serve_pipe-limit total p (some (read_bytes [])) x h = ground arith
  serve_pipe-limit total p (some (read_bytes (b ∷ bs))) x h = ground arith
  serve_pipe-limit total p (some read_failed) x h = ground arith

  push_pipe-limit :
      (q : PayloadPipe) (r : Result PayloadReadError (ℕ × List PayloadPipe)) (x : PayloadReadError)
      → push_pipe max q r ≡ err x
      → r ≡ err x
  unfolding push_pipe
  push_pipe-limit q (ok r) x h = cc
  push_pipe-limit q (err y) x h = cc

  serve-limit :
      (total : ℕ) (pipes : List PayloadPipe) (events : List (Option PipeEvent))
      (x : PayloadReadError)
      → serve max total pipes events ≡ err x
      → x ≡ too_large max
  unfolding serve
  serve-limit total [] events x h = cc
  serve-limit total (p ∷ pipes) [] x h = cc
  serve-limit total (p ∷ pipes) (e ∷ events) x h =
      elim (and_then-eq-err (serve_pipe max total p e) _ h) [
        | inl bad ↦ serve_pipe-limit total p e x bad
        | inr ((between, q), first, later) ↦
            serve-limit between pipes events x (push_pipe-limit q _ x later)
      ]

  module _ (idle : ℕ) where
    drain-IsGoodAnswer :
        (total : ℕ) (pipes : List PayloadPipe) (script : List Polled)
        → held pipes ≡ total
        → total ≤ max
        → IsGoodAnswer max (mimes_of pipes) (drain max idle total pipes script)
    unfolding drain resume
    drain-IsGoodAnswer total pipes [] counted le = elim (Bool-cases (is_active pipes)) [
      | inl active ↦ rw active tt
      | inr finished ↦ rw finished (collect-IsGoodAnswer max pipes (omega (arith, counted, le)))
    ]
    drain-IsGoodAnswer total pipes (interrupted ∷ script) counted le =
        elim (Bool-cases (is_active pipes)) [
          | inl active ↦ rw active (drain-IsGoodAnswer total pipes script counted le)
          | inr finished ↦ rw finished (collect-IsGoodAnswer max pipes (omega (arith, counted, le)))
        ]
    drain-IsGoodAnswer total pipes (failed errno ∷ script) counted le =
        elim (Bool-cases (is_active pipes)) [
          | inl active ↦ rw active tt
          | inr finished ↦ rw finished (collect-IsGoodAnswer max pipes (omega (arith, counted, le)))
        ]
    drain-IsGoodAnswer total pipes (ready events ∷ script) counted le =
        elim (Bool-cases (is_active pipes)) [
          | inl active ↦ rw active (elim (Bool-cases (has_ready pipes events)) [
            | inr idle ↦ rw idle tt
            | inl some_ready ↦ rw some_ready (elim (Result-cases (serve max total pipes events)) [
              | inl (x, bad) ↦ rw (bad, serve-limit total pipes events x bad) refl
              | inr ((t, served), fine) ↦
                  let (le', sum, mimes) = serve-counts max total pipes events t served fine le in
                  rw (fine, ← mimes)
                    (drain-IsGoodAnswer t served script (omega (arith, sum, counted)) le')
            ])
          ])
          | inr finished ↦ rw finished (collect-IsGoodAnswer max pipes (omega (arith, counted, le)))
        ]

held-new : (mimes : List Text) → held (map new_pipe mimes) ≡ 0
held-new [] = refl
held-new (m ∷ mimes) = omega (arith, held-new mimes)

mimes_of-new : (mimes : List Text) → mimes_of (map new_pipe mimes) ≡ mimes
mimes_of-new [] = refl
mimes_of-new (m ∷ mimes) = ap (◌∷◌ m) (mimes_of-new mimes)

-- Whatever `poll` and the reads give: payloads that are returned have at most `max` bytes together,
-- none of them is empty, and their MIME types are some of those asked for, in that order; and a
-- transfer that is given up as too large is given up with that limit.
pub read_payload_pipes-IsGoodAnswer :
    (max idle_timeout : ℕ) (mimes : List Text) (script : List Polled)
    → IsGoodAnswer max mimes (read_payload_pipes max idle_timeout mimes script)
unfolding read_payload_pipes
read_payload_pipes-IsGoodAnswer max idle_timeout mimes script =
    subst (λ ms. IsGoodAnswer max ms (drain max idle_timeout 0 (map new_pipe mimes) script))
      (mimes_of-new mimes)
      (drain-IsGoodAnswer max idle_timeout 0 (map new_pipe mimes) script (held-new mimes)
        (omega arith))

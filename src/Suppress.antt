-- ===== src/Suppress.antt =====
-- src/daemon/suppress.rs: the one pending hash that keeps a restored entry from being stored
-- again. An `Instant` is its number of nanoseconds, and the clock is an argument.
pub mod Traces
use mimeclip.Base.{
  ℕ, ◌+◌, ◌*◌, ◌^◌, Bool, true, false, Option, none, some, List, [], ◌∷◌, ltb, if◌then◌else◌,
}
use mimeclip.Base.Bytes.{Text, text_eq}

-- SUPPRESS_TTL, five seconds
abbrev pub suppress_ttl : ℕ
suppress_ttl = 5 * 10 ^ 9

pub record PendingHash : Type 0 where
  pub hash : Text
  pub expires_at : ℕ

pub record SuppressState : Type 0 where
  pub pending : Option PendingHash

-- `SuppressState::default()`
abbrev pub initial : SuppressState
initial = record { pending = none }

unfoldable pub arm_at : SuppressState → Text → ℕ → SuppressState
arm_at s hash now = record {
  pending = some (record { hash = hash; expires_at = now + suppress_ttl });
}

-- The three arms of the `match`, in their order.
answer : Option PendingHash → Text → ℕ → SuppressState × Bool
answer none hash now = (record { pending = none }, false)
answer (some p) hash now =
    if ltb p.expires_at now
    then (record { pending = none }, false)
    else if text_eq p.hash hash
    then (record { pending = none }, true)
    else (record { pending = some p }, false)

unfoldable pub should_suppress_at : SuppressState → Text → ℕ → SuppressState × Bool
unfolding answer
should_suppress_at s hash now = answer s.pending hash now

-- `arm` and `should_suppress` read the clock once, here the argument `clock`.
unfoldable pub arm : SuppressState → Text → ℕ → SuppressState
unfolding arm_at
arm s hash clock = arm_at s hash clock

unfoldable pub should_suppress : SuppressState → Text → ℕ → SuppressState × Bool
unfolding should_suppress_at
should_suppress s hash clock = should_suppress_at s hash clock

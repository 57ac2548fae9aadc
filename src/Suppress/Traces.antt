-- ===== src/Suppress/Traces.antt =====
-- Histories of calls on src/daemon/suppress.rs.
use mimeclip.Base.{
  ℕ, suc, ◌+◌, ◌≤◌, ◌≡◌, ◌≢◌, refl, Bool-cases, Option-cases, inl, inr, leb→le, true, Option, none,
  some, List, [], ◌∷◌, arith, leb, All, if◌then◌else◌,
}
use mimeclip.Base.Bytes.{Text, text_eq_iff, text_eq_refl}
use mimeclip.Suppress.{
  SuppressState, PendingHash, suppress_ttl, initial, arm_at, should_suppress_at,
}

-- A query for a hash at a time.
abbrev pub Query : Type 0
Query = Text × ℕ

-- The state after queries, oldest first.
unfoldable pub after_queries : SuppressState → List Query → SuppressState
after_queries s [] = s
after_queries s ((hash, now) ∷ qs) = after_queries (should_suppress_at s hash now).0 qs

-- How many of the queries are suppressed.
unfoldable pub suppressed : SuppressState → List Query → ℕ
suppressed s [] = 0
suppressed s ((hash, now) ∷ qs) =
    let rest = suppressed (should_suppress_at s hash now).0 qs in
    if (should_suppress_at s hash now).1 then suc rest else rest

suppressed-none : (s : SuppressState) (qs : List Query) → s.pending ≡ none → suppressed s qs ≡ 0
unfolding suppressed should_suppress_at
suppressed-none s [] e = refl
suppressed-none s ((hash, now) ∷ qs) e =
    ground (arith, suppressed-none (should_suppress_at s hash now).0 qs)

should_suppress_at-clears :
    (s : SuppressState) (hash : Text) (now : ℕ)
    → (should_suppress_at s hash now).1 ≡ true
    → (should_suppress_at s hash now).0.pending ≡ none
unfolding should_suppress_at
should_suppress_at-clears s hash now h = ground arith

-- Whatever the state, between two calls of `arm` at most one query is suppressed.
pub suppressed-le-one : (s : SuppressState) (qs : List Query) → suppressed s qs ≤ 1
unfolding suppressed
suppressed-le-one s [] = omega arith
suppressed-le-one s ((hash, now) ∷ qs) = ground (
  arith,
  should_suppress_at-clears s hash now,
  suppressed-none (should_suppress_at s hash now).0 qs,
  suppressed-le-one (should_suppress_at s hash now).0 qs,
)

abbrev pub IsOther : Text → ℕ → Query → Type 0
IsOther hash now q = (q.0 ≢ hash) × (q.1 ≤ now)

-- What the pending slot may hold after queries for other hashes, none later than `now`.
abbrev Holds : Text → ℕ → ℕ → SuppressState → Type 0
Holds hash expires now s =
    (now ≤ expires → s.pending ≡ some (record { hash = hash; expires_at = expires }))
    × ((p : PendingHash) → s.pending ≡ some p → p ≡ record { hash = hash; expires_at = expires })

ask-Holds :
    (hash : Text) (expires now : ℕ) (s : SuppressState) (q : Query)
    → IsOther hash now q
    → Holds hash expires now s
    → Holds hash expires now (should_suppress_at s q.0 q.1).0
unfolding should_suppress_at
ask-Holds hash expires now s q other h =
    (λ fresh. ground (arith, text_eq_iff hash q.0, h.0 fresh), λ p e. ground (arith, h.1 p))

after_queries-Holds :
    (hash : Text) (expires now : ℕ) (s : SuppressState) (qs : List Query)
    → All (IsOther hash now) qs
    → Holds hash expires now s
    → Holds hash expires now (after_queries s qs)
unfolding after_queries
after_queries-Holds hash expires now s [] others h = h
after_queries-Holds hash expires now s (q ∷ qs) others h =
    after_queries-Holds hash expires now (should_suppress_at s q.0 q.1).0 qs others.1
      (ask-Holds hash expires now s q others.0 h)

answer-Holds :
    (hash : Text) (expires now : ℕ) (s : SuppressState)
    → Holds hash expires now s
    → (should_suppress_at s hash now).1 ≡ leb now expires
unfolding should_suppress_at
answer-Holds hash expires now s h = elim (Bool-cases (leb now expires)) [
  | inl fresh ↦ ground (arith, h.0 (leb→le now expires fresh), text_eq_refl hash)
  | inr late ↦ elim (Option-cases s.pending) [
    | inl e ↦ ground arith
    | inr (p, e) ↦ ground (arith, h.1 p e)
  ]
]

-- After `arm`, and any queries for other hashes none of which is later than `now`, the query for
-- the armed hash at `now` is suppressed exactly when at most five seconds have passed.
pub armed_window :
    (s : SuppressState) (hash : Text) (armed now : ℕ) (qs : List Query)
    → All (IsOther hash now) qs
    → (should_suppress_at (after_queries (arm_at s hash armed) qs) hash now).1
      ≡ leb now (armed + suppress_ttl)
unfolding arm_at
armed_window s hash armed now qs others =
    answer-Holds hash (armed + suppress_ttl) now (after_queries (arm_at s hash armed) qs) (
      after_queries-Holds hash (armed + suppress_ttl) now (arm_at s hash armed) qs others
        (λ _. refl, λ p e. ground arith))

-- A call on the shared state, with the time at which it is made.
pub data Event : Type 0 where
  arms : Text → ℕ → Event
  asks : Text → ℕ → Event

unfoldable pub step : SuppressState → Event → SuppressState
step s (arms hash now) = arm_at s hash now
step s (asks hash now) = (should_suppress_at s hash now).0

-- The newest event stands first.
unfoldable pub replay : List Event → SuppressState
unfolding step
replay [] = initial
replay (e ∷ history) = step (replay history) e

-- The call of `arm` that nothing has replaced, with its time.
abbrev pub last_arm : List Event → Option (Text × ℕ)
last_arm [] = none
last_arm (arms hash now ∷ history) = some (hash, now)
last_arm (asks hash now ∷ history) = last_arm history

-- The pending hash is always the last armed one, with its own deadline.
pending-last_arm :
    (history : List Event) (p : PendingHash)
    → (replay history).pending ≡ some p
    → (armed : ℕ) × (last_arm history ≡ some (p.hash, armed))
      × (p.expires_at ≡ armed + suppress_ttl)
unfolding replay arm_at should_suppress_at
pending-last_arm [] p e = cc
pending-last_arm (arms hash now ∷ history) p e = (now, ground arith, ground arith)
pending-last_arm (asks hash now ∷ history) p e = pending-last_arm history p (ground arith)

-- Over any history, a suppressed query is for the hash that was armed last, and at most five
-- seconds after that call.
pub suppressed-last_arm :
    (history : List Event) (hash : Text) (now : ℕ)
    → (should_suppress_at (replay history) hash now).1 ≡ true
    → (armed : ℕ) × (last_arm history ≡ some (hash, armed)) × (now ≤ armed + suppress_ttl)
unfolding should_suppress_at
suppressed-last_arm history hash now h = elim (Option-cases (replay history).pending) [
  | inl e ↦ absurd (ground arith)
  | inr (p, e) ↦
      let (armed, last, due) = pending-last_arm history p e in
      (armed, ground (arith, text_eq_iff p.hash hash), ground arith)
]

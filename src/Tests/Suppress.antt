-- ===== src/Tests/Suppress.antt =====
-- Runs of src/daemon/suppress.rs: its tests, and its theorems at a concrete input.
use mathlib.Core.Bool.{false≢true}
use mimeclip.Base.{ℕ, ◌+◌, ◌≤◌, ◌≡◌, ◌≢◌, refl, true, some, [], ◌∷◌, arith, leb}
use mimeclip.Base.Bytes.{Text, text, text_eq, text_eq_iff}
use mimeclip.Suppress.{suppress_ttl, initial, arm_at, should_suppress_at, arm, should_suppress}
use mimeclip.Suppress.Traces.{
  arms, asks, after_queries, suppressed, replay, last_arm, suppressed-le-one, armed_window,
  suppressed-last_arm,
}

abbrev abc : Text
abc = text "abc"

abbrev def : Text
def = text "def"

program : Unit {0}
unfolding arm_at should_suppress_at arm should_suppress text_eq after_queries suppressed replay
program = tt

-- matching_hash_is_suppressed_once
matching_hash : suppressed (arm initial abc 0) ((abc, 1) ∷ (abc, 2) ∷ []) ≡ 1
unfolding program
matching_hash = refl

-- mismatched_hash_keeps_pending_suppression
mismatched_hash :
    (should_suppress (after_queries (arm initial abc 0) ((def, 1) ∷ [])) abc 2).1 ≡ true
unfolding program
mismatched_hash = refl

-- expired_hash_is_cleared_without_suppressing
expired_hash :
    suppressed (arm initial abc 0) ((abc, suppress_ttl + 1) ∷ (abc, suppress_ttl + 2) ∷ []) ≡ 0
unfolding program
expired_hash = refl

suppressed-le-one_example : suppressed (arm_at initial abc 0) ((abc, 1) ∷ (abc, 2) ∷ []) ≤ 1
suppressed-le-one_example = suppressed-le-one (arm_at initial abc 0) ((abc, 1) ∷ (abc, 2) ∷ [])

def-ne-abc : def ≢ abc
unfolding program
def-ne-abc e = false≢true ((text_eq_iff def abc).1 e)

armed_window_example :
    (should_suppress_at (after_queries (arm_at initial abc 7) ((def, 8) ∷ [])) abc 9).1
    ≡ leb 9 (7 + suppress_ttl)
armed_window_example = armed_window initial abc 7 9 ((def, 8) ∷ []) ((def-ne-abc, omega arith), tt)

suppressed-last_arm_example :
    (armed : ℕ) × (last_arm (asks def 3 ∷ arms abc 2 ∷ arms def 1 ∷ []) ≡ some (abc, armed))
    × (4 ≤ armed + suppress_ttl)
unfolding program
suppressed-last_arm_example =
    suppressed-last_arm (asks def 3 ∷ arms abc 2 ∷ arms def 1 ∷ []) abc 4 refl

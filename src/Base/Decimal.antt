-- ===== src/Base/Decimal.antt =====
-- Decimal numbers: `write!("{n}")` and `str::parse::<u64>`.
use Prim.Native.Nat.{ℕ, zero, suc, ◌+◌, ◌-◌, ◌*◌, ◌/◌, ◌%◌, ◌^◌, ◌<◌}
use mathlib.Core.Path.{◌≡◌, refl}
use mathlib.Core.Logic.{inl, inr}
use mathlib.Core.Bool.{Bool, true, false, not, ◌&&◌}
use mathlib.Core.Option.{Option, none, some}
use mathlib.Core.List.{[], ◌∷◌, ◌++◌}
use native.Mathlib.Omega.{arith}
use native.Mathlib.Nat.{pow-suc}
use mimeclip.Base.Tests.{leb, ltb, ◌==◌, ltb→lt, Bool-cases, if◌then◌else◌}
use mimeclip.Base.Lists.{All, All-append}
use mimeclip.Base.Bytes.{Text}

-- The digits of a number of at most `digits` digits.
unfoldable pub show_digits : ℕ → ℕ → Text
show_digits zero n = (b'0' + n % 10) ∷ []
show_digits (suc digits) n =
    let rest = show_digits digits (n / 10) in
    if ltb n 10 then (b'0' + n) ∷ [] else rest ++ (b'0' + n % 10) ∷ []

-- Any `u64`, which has at most 20 digits
unfoldable pub show : ℕ → Text
show n = show_digits 19 n

-- `u64::MAX + 1`
abbrev pub u64_end : ℕ
u64_end = 2 ^ 64

unfoldable pub is_digit : ℕ → Bool
is_digit c = leb b'0' c && leb c b'9'

-- The rest of a number, after digits of the value `acc`: `none` is an invalid digit or a number
-- past `u64::MAX`.
unfoldable pub parse_digits : ℕ → Text → Option ℕ
parse_digits acc [] = some acc
parse_digits acc (c ∷ s) =
    let next = parse_digits (acc * 10 + (c - b'0')) s in
    if is_digit c then (if ltb (acc * 10 + (c - b'0')) u64_end then next else none) else none

unfoldable pub is_empty : Text → Bool
is_empty [] = true
is_empty (c ∷ s) = false

-- One `+` may stand before the digits, of which there is at least one.
unfoldable pub parse_number : Text → Option ℕ
parse_number [] = none
parse_number (c ∷ s) =
    if c == b'+' && not (is_empty s) then parse_digits 0 s else parse_digits 0 (c ∷ s)

abbrev pub IsDigit : ℕ → Type 0
IsDigit c = is_digit c ≡ true

IsDigit-of_lt : (d : ℕ) → d < 10 → IsDigit (b'0' + d)
unfolding is_digit
IsDigit-of_lt d h = ground arith

show_digits-IsDigit : (digits n : ℕ) → All IsDigit (show_digits digits n)
unfolding show_digits
show_digits-IsDigit zero n = (IsDigit-of_lt (n % 10) (omega arith), tt)
show_digits-IsDigit (suc digits) n = elim (Bool-cases (ltb n 10)) [
  | inl small ↦ rw small (IsDigit-of_lt n (ltb→lt n 10 small), tt)
  | inr large ↦ rw large (
      All-append IsDigit (show_digits digits (n / 10)) _ (show_digits-IsDigit digits (n / 10))
        (IsDigit-of_lt (n % 10) (omega arith), tt))
]

-- Digits that are read after others are read from the value of those.
parse_digits-append :
    (xs ys : Text) (acc value : ℕ)
    → parse_digits acc xs ≡ some value
    → parse_digits acc (xs ++ ys) ≡ parse_digits value ys
unfolding parse_digits
parse_digits-append [] ys acc value h = ground arith
parse_digits-append (c ∷ xs) ys acc value h =
    ground (arith, parse_digits-append xs ys (acc * 10 + (c - b'0')) value)

parse_digit :
    (acc d value : ℕ)
    → d < 10
    → value ≡ acc * 10 + d
    → value < u64_end
    → parse_digits acc ((b'0' + d) ∷ []) ≡ some value
unfolding parse_digits is_digit
parse_digit acc d value h e k = ground arith

pow_div : (digits n : ℕ) → n < 10 ^ suc (suc digits) → n / 10 < 10 ^ suc digits
pow_div digits n h = omega (arith, h, pow-suc 10 (suc digits))

parse_digits-show_digits :
    (digits n : ℕ)
    → n < 10 ^ suc digits
    → n < u64_end
    → parse_digits 0 (show_digits digits n) ≡ some n
unfolding show_digits
parse_digits-show_digits zero n h k = parse_digit 0 (n % 10) n (omega arith) (omega (arith, h)) k
parse_digits-show_digits (suc digits) n h k = elim (Bool-cases (ltb n 10)) [
  | inl small ↦ rw small (parse_digit 0 n n (ltb→lt n 10 small) (omega arith) k)
  | inr large ↦
      rw
        (
          large,
          parse_digits-append (show_digits digits (n / 10)) ((b'0' + n % 10) ∷ []) 0 (n / 10)
              (parse_digits-show_digits digits (n / 10) (pow_div digits n h) (omega (arith, k))),
        )
        (parse_digit (n / 10) (n % 10) n (omega arith) (omega arith) k)
]

-- A number's text starts with a digit.
show_digits-cons :
    (digits n : ℕ) → (c : ℕ) × (s : Text) × (show_digits digits n ≡ c ∷ s) × IsDigit c
unfolding show_digits
show_digits-cons zero n = (_, _, refl, IsDigit-of_lt (n % 10) (omega arith))
show_digits-cons (suc digits) n = elim (Bool-cases (ltb n 10)) [
  | inl small ↦ rw small (_, _, refl, IsDigit-of_lt n (ltb→lt n 10 small))
  | inr large ↦ let (c, s, e, d) = show_digits-cons digits (n / 10) in rw (large, e) (_, _, refl, d)
]

parse_number-digits : (s : Text) (c : ℕ) → IsDigit c → parse_number (c ∷ s) ≡ parse_digits 0 (c ∷ s)
unfolding parse_number is_digit
parse_number-digits s c h = ground arith

pub show-IsDigit : (n : ℕ) → All IsDigit (show n)
unfolding show
show-IsDigit n = show_digits-IsDigit 19 n

pub show-cons : (n : ℕ) → (c : ℕ) × (s : Text) × (show n ≡ c ∷ s) × IsDigit c
unfolding show
show-cons n = show_digits-cons 19 n

-- Reading a number that was written gives it back.
pub parse_number-show : (n : ℕ) → n < u64_end → parse_number (show n) ≡ some n
parse_number-show n h =
    let (c, s, e, d) = show-cons n in
    rw (e, parse_number-digits s c d, ← e)
      (unfold show in parse_digits-show_digits 19 n (omega (arith, h)) h)

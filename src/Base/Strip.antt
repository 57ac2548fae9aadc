-- ===== src/Base/Strip.antt =====
-- `str::trim`, and prefixes and suffixes taken off.
use Prim.Native.Nat.{ℕ, zero, suc}
use mathlib.Core.Path.{◌≡◌, refl, ap}
use mathlib.Core.Bool.{Bool, ◌&&◌, ◌||◌}
use mathlib.Core.Option
use mathlib.Core.Option.{Option, none, some}
use mathlib.Core.List.{[], ◌∷◌, ◌++◌, reverse, reverse-append, reverse-reverse}
use native.Mathlib.Omega.{arith}
use mimeclip.Base.Tests.{leb, ◌==◌, if◌then◌else◌}
use mimeclip.Base.Lists.{length, drop}
use mimeclip.Base.Bytes.{Text}

-- The White_Space characters of one, two and three bytes in UTF-8.
unfoldable pub white_one : ℕ → Bool
white_one a = a == b' ' || (leb 9 a && leb a 13)

unfoldable pub white_two : ℕ → ℕ → Bool
white_two a b = a == 194 && (b == 133 || b == 160)

unfoldable pub white_three : ℕ → ℕ → ℕ → Bool
white_three a b c =
    (a == 225 && b == 154 && c == 128)
    || (a == 226 && b == 128 && ((leb 128 c && leb c 138) || c == 168 || c == 169 || c == 175))
    || (a == 226 && b == 129 && c == 159)
    || (a == 227 && b == 128 && c == 128)

-- How many bytes the white space character at the start has, 0 where there is none.
unfoldable pub white_start : Text → ℕ
white_start [] = 0
white_start (a ∷ []) = if white_one a then 1 else 0
white_start (a ∷ b ∷ []) = if white_one a then 1 else if white_two a b then 2 else 0
white_start (a ∷ b ∷ c ∷ s) =
    if white_one a then 1 else if white_two a b then 2 else if white_three a b c then 3 else 0

-- The same for the end, of a text whose bytes are reversed
unfoldable pub white_end : Text → ℕ
white_end [] = 0
white_end (a ∷ []) = if white_one a then 1 else 0
white_end (a ∷ b ∷ []) = if white_one a then 1 else if white_two b a then 2 else 0
white_end (a ∷ b ∷ c ∷ s) =
    if white_one a then 1 else if white_two b a then 2 else if white_three c b a then 3 else 0

-- A text has no more characters than bytes, so its length is fuel enough.
unfoldable pub skip_white : (Text → ℕ) → ℕ → Text → Text
skip_white white zero s = s
skip_white white (suc fuel) s = elim (white s) [
  | zero ↦ s
  | suc n ↦ skip_white white fuel (drop (suc n) s)
]

unfoldable pub trim_start : Text → Text
trim_start s = skip_white white_start (length s) s

unfoldable pub trim_end : Text → Text
trim_end s = reverse (skip_white white_end (length s) (reverse s))

unfoldable pub trim_text : Text → Text
trim_text s = trim_end (trim_start s)

-- `strip_prefix`
unfoldable pub strip_prefix : Text → Text → Option Text
strip_prefix s [] = some s
strip_prefix [] (p ∷ ps) = none
strip_prefix (c ∷ s) (p ∷ ps) = let rest = strip_prefix s ps in if c == p then rest else none

-- `strip_suffix`
unfoldable pub strip_suffix : Text → Text → Option Text
strip_suffix s suffix = Option.map reverse (strip_prefix (reverse s) (reverse suffix))

skip_white-none :
    (white : Text → ℕ) (fuel : ℕ) (s : Text) → white s ≡ 0 → skip_white white fuel s ≡ s
unfolding skip_white
skip_white-none white zero s h = refl
skip_white-none white (suc fuel) s h = rw (h, skip_white) refl

-- A text that neither starts nor ends with white space is its own trimmed text.
pub trim_text-none : (s : Text) → white_start s ≡ 0 → white_end (reverse s) ≡ 0 → trim_text s ≡ s
unfolding trim_text trim_start trim_end
trim_text-none s h k =
    rw
      (
        skip_white-none white_start (length s) s h,
        skip_white-none white_end (length s) (reverse s) k,
      )
      (reverse-reverse s)

strip_prefix-append : (p s : Text) → strip_prefix (p ++ s) p ≡ some s
unfolding strip_prefix
strip_prefix-append [] s = refl
strip_prefix-append (c ∷ p) s = ground (arith, strip_prefix-append p s)

pub strip_suffix-append : (s suffix : Text) → strip_suffix (s ++ suffix) suffix ≡ some s
unfolding strip_suffix
strip_suffix-append s suffix =
    rw (reverse-append s suffix, strip_prefix-append (reverse suffix) (reverse s))
      (ap some (reverse-reverse s))

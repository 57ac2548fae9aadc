-- ===== src/Base/Utf8.antt =====
-- `String::from_utf8_lossy`: every longest part of an invalid sequence becomes U+FFFD.
use Prim.Native.Nat.{ℕ, zero, suc}
use mathlib.Core.Path.{◌≡◌, refl}
use mathlib.Core.Bool.{Bool, true, ◌&&◌}
use mathlib.Core.List.{[], ◌∷◌, ◌++◌}
use mimeclip.Base.Tests.{leb, ◌==◌, if◌then◌else◌}
use mimeclip.Base.Lists.{All}
use mimeclip.Base.Bytes.{Text, Bytes}

-- U+FFFD
abbrev pub replacement : Text
replacement = 239 ∷ 191 ∷ 189 ∷ []

-- Within a character: how many bytes are missing after the next one, the bounds of the next
-- byte, and the bytes so far. Between characters there are none so far.
pub data Decoder : Type 0 where
  between : Decoder
  within : ℕ → ℕ → ℕ → Bytes → Decoder

unfoldable pub in_range : ℕ → ℕ → ℕ → Bool
in_range low high b = leb low b && leb b high

-- The first byte of a character: what is put out, and what is waited for.
unfoldable pub start_char : ℕ → Text × Decoder
start_char b =
    if leb b 127
    then (b ∷ [], between)
    else if in_range 194 223 b
    then ([], within 0 128 191 (b ∷ []))
    else if b == 224
    then ([], within 1 160 191 (b ∷ []))
    else if b == 237
    then ([], within 1 128 159 (b ∷ []))
    else if in_range 225 239 b
    then ([], within 1 128 191 (b ∷ []))
    else if b == 240
    then ([], within 2 144 191 (b ∷ []))
    else if in_range 241 243 b
    then ([], within 2 128 191 (b ∷ []))
    else if b == 244
    then ([], within 2 128 143 (b ∷ []))
    else (replacement, between)

unfoldable pub next_char : Decoder → ℕ → Text × Decoder
next_char between b = start_char b
next_char (within zero low high so_far) b =
    if in_range low high b
    then (so_far ++ b ∷ [], between)
    else (replacement ++ (start_char b).0, (start_char b).1)
next_char (within (suc n) low high so_far) b =
    if in_range low high b
    then ([], within n 128 191 (so_far ++ b ∷ []))
    else (replacement ++ (start_char b).0, (start_char b).1)

unfoldable pub decode_from : Decoder → Bytes → Text
decode_from between [] = []
decode_from (within n low high so_far) [] = replacement
decode_from d (b ∷ bs) = (next_char d b).0 ++ decode_from (next_char d b).1 bs

unfoldable pub from_utf8_lossy : Bytes → Text
from_utf8_lossy bytes = decode_from between bytes

abbrev pub IsAscii : ℕ → Type 0
IsAscii b = leb b 127 ≡ true

-- ASCII is read as it stands.
pub from_utf8_lossy_ascii : (bytes : Bytes) → All IsAscii bytes → from_utf8_lossy bytes ≡ bytes
unfolding from_utf8_lossy decode_from next_char start_char
from_utf8_lossy_ascii [] h = refl
from_utf8_lossy_ascii (b ∷ bytes) h = rw (h.0, from_utf8_lossy_ascii bytes h.1) refl

-- Whether the byte is the second or a later one of a character
unfoldable pub is_continuation : ℕ → Bool
is_continuation b = in_range 128 191 b

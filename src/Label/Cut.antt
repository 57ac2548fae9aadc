-- ===== src/Label/Cut.antt =====
-- The cut of long texts in `build_label` of src/common/types.rs.

use mathlib.Core.Option.{some-injective}
use mathlib.Core.List.{reverse, reverse-append}
use mimeclip.Base.{
  ℕ, suc, ◌+◌, ◌≤◌, ◌≡◌, refl, ap, subst, ◌∙◌, true, false, Option, none, some, List, [], ◌∷◌, ◌++◌,
  length, take, drop, length-append, length-take-le, All, arith,
}
use mimeclip.Base.Bytes
use mimeclip.Base.Bytes.{Text, Bytes}
use mimeclip.Base.Strip.{trim_text-none, white_start, white_end, white_one, white_two, white_three}
use mimeclip.Base.Utf8.{
  IsAscii, from_utf8_lossy, decode_from, next_char, start_char, in_range, is_continuation, between,
  within,
}
use mimeclip.Kind.{EntryKind}
use mimeclip.Payloads.{Payload}
use mimeclip.Label.{cut_text, starts_character, text_payload, text_label, build_label}

cut_text-bound :
    (limit : ℕ) (s label : Text) → cut_text limit s ≡ some label → length label ≤ limit + 3
unfolding cut_text
cut_text-bound limit s label h =
    ground (arith, length-append (take limit s) (226 ∷ 128 ∷ 166 ∷ []), length-take-le limit s)

text_label-bound :
    (found : Option Bytes) (label : Text) → text_label found ≡ some label → length label ≤ 123
unfolding text_label
text_label-bound none label h =
    subst (λ l. length l ≤ 123) (some-injective (Bytes.text "text") label h) (omega arith)
text_label-bound (some bytes) label h = cut_text-bound 120 _ label h

-- A text's label has at most 120 bytes and the three of the ellipsis.
pub build_label-bound :
    (blob_size : Bytes → Option (ℕ × ℕ)) (payloads : List Payload) (label : Text)
    → build_label blob_size EntryKind.text payloads ≡ some label
    → length label ≤ 123
unfolding build_label
build_label-bound blob_size payloads label h = text_label-bound (text_payload payloads) label h

-- ASCII at the start of a text is read as it stands.
decode_from-ascii :
    (s rest : Bytes)
    → All IsAscii s
    → decode_from between (s ++ rest) ≡ s ++ decode_from between rest
unfolding decode_from next_char start_char
decode_from-ascii [] rest h = refl
decode_from-ascii (b ∷ s) rest h = rw (h.0, decode_from-ascii s rest h.1) refl

-- The bytes of a character of two bytes that is no white space.
pub record IsPair (a b : ℕ) : Type 0 where
  pub low : 194 ≤ a
  pub high : a ≤ 223
  pub next_low : 128 ≤ b
  pub next_high : b ≤ 191
  pub no_white : white_two a b ≡ false

module _ (a b : ℕ) (pair : IsPair a b) where
  start_char-pair : start_char a ≡ ([], within 0 128 191 (a ∷ []))
  unfolding start_char in_range
  start_char-pair = ground (arith, pair.low, pair.high)

  continued : in_range 128 191 b ≡ true
  unfolding in_range
  continued = ground (arith, pair.next_low, pair.next_high)

  decode_from-pair : decode_from between (a ∷ b ∷ []) ≡ a ∷ b ∷ []
  unfolding decode_from next_char
  decode_from-pair = rw (start_char-pair, continued) refl

  lossy-pair : (s : Bytes) → All IsAscii s → from_utf8_lossy (s ++ a ∷ b ∷ []) ≡ s ++ a ∷ b ∷ []
  unfolding from_utf8_lossy
  lossy-pair s h = decode_from-ascii s (a ∷ b ∷ []) h ∙ ap (◌++◌ s) decode_from-pair

  white_end-pair : (s : Bytes) → white_end (b ∷ a ∷ s) ≡ 0
  unfolding white_end white_one white_three
  white_end-pair [] = rw pair.no_white (ground (arith, pair.next_low))
  white_end-pair (c ∷ s) = rw pair.no_white (ground (arith, pair.low, pair.next_low))

drop-append : (s : Text) (a : ℕ) (rest : Text) → drop (suc (length s)) (s ++ a ∷ rest) ≡ rest
drop-append [] a rest = refl
drop-append (c ∷ s) a rest = drop-append s a rest

cut_text-pair :
    (limit : ℕ) (s : Bytes) (a b : ℕ)
    → 128 ≤ b
    → b ≤ 191
    → suc (length s) ≡ limit
    → cut_text limit (s ++ a ∷ b ∷ []) ≡ none
unfolding cut_text starts_character is_continuation in_range
cut_text-pair limit s a b low high e =
    rw (← e, length-append s (a ∷ b ∷ []), drop-append s a (b ∷ [])) (ground (arith, low, high))

-- The label of 119 bytes of ASCII and a character of two bytes that is no white space is a panic:
-- the slice of 120 bytes ends within the character. The text must not start with white space, and
-- stand as the payload that the label is made of.
pub build_label-panics :
    (blob_size : Bytes → Option (ℕ × ℕ)) (payloads : List Payload) (s : Bytes) (a b : ℕ)
    → IsPair a b
    → text_payload payloads ≡ some (s ++ a ∷ b ∷ [])
    → All IsAscii s
    → length s ≡ 119
    → white_start (s ++ a ∷ b ∷ []) ≡ 0
    → build_label blob_size EntryKind.text payloads ≡ none
unfolding build_label text_label
build_label-panics blob_size payloads s a b pair found ascii len start =
    rw
      (
        found,
        lossy-pair a b pair s ascii,
        trim_text-none (s ++ a ∷ b ∷ []) start
            (rw (reverse-append s (a ∷ b ∷ [])) (white_end-pair a b pair (reverse s))),
      )
      (cut_text-pair 120 s a b pair.next_low pair.next_high (omega (arith, len)))

-- ===== src/Screenshot/Links.antt =====
-- The file links of src/daemon/server.rs, read by the labels of src/common/types.rs.

use mathlib.Core.List.{append_assoc}
use mimeclip.Base.{
  ℕ, suc, ◌/◌, ◌%◌, ◌<◌, ◌≡◌, refl, ap, sym, subst, ◌∙◌, inl, inr, Bool-cases, true, false, some,
  List, [], ◌∷◌, ◌++◌, keep, All, All-weaken, All-append, ◌==◌, leb, arith,
}
use mimeclip.Base.Bytes.{Text, text, text_eq, starts_with}
use mimeclip.Base.Paths.{split_on, push_char, parse_path, file_name}
use mimeclip.Base.Strip.{strip_prefix}
use mimeclip.Base.Utf8.{from_utf8_lossy, IsAscii, from_utf8_lossy_ascii}
use mimeclip.Label.{
  hex_digit, pair_value, hex_pair, decode_percent, percent_decode, skip_scheme, uri_name, name_or,
  lines, to_lines, drop_return, is_path_line, paths_label, uri_label,
}
use mimeclip.Screenshot.{is_plain, upper_hex, file_uri_path, file_uri}

abbrev pub IsByte : ℕ → Type 0
IsByte b = b < 256

hex_digit-upper_hex : (d : ℕ) → d < 16 → hex_digit (upper_hex d) ≡ some d
unfolding hex_digit upper_hex
hex_digit-upper_hex d h = ground arith

hex_pair-upper_hex : (b : ℕ) → b < 256 → hex_pair (upper_hex (b / 16)) (upper_hex (b % 16)) ≡ some b
unfolding hex_pair pair_value
hex_pair-upper_hex b h =
    rw (hex_digit-upper_hex (b / 16) (omega (arith, h)), hex_digit-upper_hex (b % 16) (omega arith))
      (unfold upper_hex in ground arith)

decode_percent-plain :
    (b : ℕ) (s : Text) → (b == b'%') ≡ false → decode_percent (b ∷ s) ≡ b ∷ decode_percent s
unfolding decode_percent
decode_percent-plain b [] h = refl
decode_percent-plain b (c ∷ []) h = refl
decode_percent-plain b (c ∷ d ∷ s) h = rw (h, decode_percent) refl

decode_percent-escape :
    (x y value : ℕ) (s : Text)
    → hex_pair x y ≡ some value
    → decode_percent (b'%' ∷ x ∷ y ∷ s) ≡ value ∷ decode_percent s
unfolding decode_percent
decode_percent-escape x y value s h = rw (h, decode_percent) refl

is_plain-percent : (b : ℕ) → is_plain b ≡ true → (b == b'%') ≡ false
unfolding is_plain
is_plain-percent b h = ground arith

-- Decoding takes the escapes of a path away, whatever bytes the path has.
decode_percent-file_uri_path :
    (path : Text) → All IsByte path → decode_percent (file_uri_path path) ≡ path
unfolding file_uri_path
decode_percent-file_uri_path [] h = unfold decode_percent in refl
decode_percent-file_uri_path (b ∷ path) h = elim (Bool-cases (is_plain b)) [
  | inl plain ↦
      rw
        (
          plain,
          decode_percent-plain b (file_uri_path path) (is_plain-percent b plain),
          decode_percent-file_uri_path path h.1,
        )
        refl
  | inr escaped ↦ rw escaped (
      decode_percent-escape _ _ b (file_uri_path path) (hex_pair-upper_hex b h.0)
      ∙ ap (◌∷◌ b) (decode_percent-file_uri_path path h.1))
]

-- The bytes of an escaped path: never a line feed, nor anything that is not ASCII.
abbrev IsLinkByte : ℕ → Type 0
IsLinkByte b = (leb b 127 ≡ true) × ((b == 10) ≡ false) × ((b == 13) ≡ false)

upper_hex-IsLinkByte : (d : ℕ) → d < 16 → IsLinkByte (upper_hex d)
unfolding upper_hex
upper_hex-IsLinkByte d h = ground arith

is_plain-IsLinkByte : (b : ℕ) → is_plain b ≡ true → IsLinkByte b
unfolding is_plain
is_plain-IsLinkByte b h = ground arith

file_uri_path-IsLinkByte : (path : Text) → All IsByte path → All IsLinkByte (file_uri_path path)
unfolding file_uri_path
file_uri_path-IsLinkByte [] h = tt
file_uri_path-IsLinkByte (b ∷ path) h = elim (Bool-cases (is_plain b)) [
  | inl plain ↦ rw plain (is_plain-IsLinkByte b plain, file_uri_path-IsLinkByte path h.1)
  | inr escaped ↦ rw escaped (
    (refl, refl, refl),
    (
      upper_hex-IsLinkByte (b / 16) (omega (arith, h.0)),
      (upper_hex-IsLinkByte (b % 16) (omega arith), file_uri_path-IsLinkByte path h.1),
    ),
  )
]

push_char-cons :
    (sep c : ℕ) (parts : List Text)
    → (w : Text) × (ws : List Text) × (push_char sep c parts ≡ w ∷ ws)
unfolding push_char
push_char-cons sep c [] = (_, _, refl)
push_char-cons sep c (w ∷ ws) = elim (Bool-cases (c == sep)) [
  | inl e ↦ rw e (_, _, refl)
  | inr e ↦ rw e (_, _, refl)
]

split_on-cons : (sep : ℕ) (s : Text) → (w : Text) × (ws : List Text) × (split_on sep s ≡ w ∷ ws)
unfolding split_on
split_on-cons sep [] = ([], [], refl)
split_on-cons sep (c ∷ s) = push_char-cons sep c (split_on sep s)

-- A text without a line feed is the first part before one.
split_on-append :
    (s rest : Text)
    → All (λ c. (c == 10) ≡ false) s
    → split_on 10 (s ++ 10 ∷ rest) ≡ s ∷ split_on 10 rest
unfolding split_on push_char
split_on-append [] rest h = let (w, ws, e) = split_on-cons 10 rest in rw e refl
split_on-append (c ∷ s) rest h = rw (split_on-append s rest h.1, h.0) refl

drop_return-append : (s : Text) → drop_return (s ++ 13 ∷ []) ≡ s
unfolding drop_return
drop_return-append [] = refl
drop_return-append (c ∷ []) = refl
drop_return-append (c ∷ d ∷ s) = ap (◌∷◌ c) (drop_return-append (d ∷ s))

-- A link's text without its end of line.
abbrev link : Text → Text
link path = text "file://" ++ file_uri_path path

scheme_IsLinkByte : All IsLinkByte (text "file://")
scheme_IsLinkByte =
    let b : IsLinkByte b'f' = (refl, refl, refl) in (b, (b, (b, (b, (b, (b, (b, tt)))))))

IsLinkByte-link : (path : Text) → All IsByte path → All IsLinkByte (link path)
IsLinkByte-link path h =
    All-append IsLinkByte (text "file://") (file_uri_path path) scheme_IsLinkByte
      (file_uri_path-IsLinkByte path h)

-- The text of a link, its carriage return with it, and its line feed.
file_uri_split : (path : Text) → file_uri path ≡ (link path ++ 13 ∷ []) ++ 10 ∷ []
unfolding file_uri
file_uri_split path = sym (
    append_assoc (link path) (13 ∷ []) (10 ∷ [])
    ∙ append_assoc (text "file://") (file_uri_path path) (13 ∷ 10 ∷ []))

file_uri-IsAscii : (path : Text) → All IsByte path → All IsAscii (file_uri path)
file_uri-IsAscii path h = subst (All IsAscii) (sym (file_uri_split path)) (
    All-append IsAscii (link path ++ 13 ∷ []) (10 ∷ [])
      (All-append IsAscii (link path) (13 ∷ [])
        (All-weaken IsLinkByte IsAscii (link path) (λ c k. k.0) (IsLinkByte-link path h))
        (refl, tt))
      (refl, tt))

-- The one line of a link's text.
lines-file_uri : (path : Text) → All IsByte path → lines (file_uri path) ≡ link path ∷ []
unfolding lines
lines-file_uri path h =
    ap lines (file_uri_split path)
    ∙ ap to_lines (
        split_on-append (link path ++ 13 ∷ []) [] (
          All-append _ (link path) (13 ∷ [])
            (All-weaken IsLinkByte _ (link path) (λ c k. k.1) (IsLinkByte-link path h)) (refl, tt)))
    ∙ unfold to_lines in unfold split_on in ap (λ l. l ∷ []) (drop_return-append (link path))

-- The scheme goes, and nothing of the path with it.
skip_scheme-link :
    (fuel : ℕ) (path : Text)
    → skip_scheme (suc (suc fuel)) (link (b'/' ∷ path)) ≡ file_uri_path (b'/' ∷ path)
unfolding skip_scheme strip_prefix file_uri_path is_plain
skip_scheme-link fuel path = refl

is_path_line-link : (path : Text) → is_path_line (link path) ≡ true
unfolding is_path_line starts_with text_eq
is_path_line-link path = refl

keep-link : (path : Text) → keep is_path_line (link path ∷ []) ≡ link path ∷ []
unfolding keep
keep-link path = rw (is_path_line-link path) refl

uri_name-link :
    (path : Text)
    → All IsByte (b'/' ∷ path)
    → uri_name (link (b'/' ∷ path))
      ≡ name_or
          (from_utf8_lossy (b'/' ∷ path))
          (file_name (parse_path (from_utf8_lossy (b'/' ∷ path))))
unfolding uri_name percent_decode
uri_name-link path h =
    ap (λ s. name_or (from_utf8_lossy s) (file_name (parse_path (from_utf8_lossy s))))
      (ap decode_percent (skip_scheme-link _ path) ∙ decode_percent-file_uri_path (b'/' ∷ path) h)

-- The label of a screenshot's link is the name of the file, for every path from the root on,
-- whatever bytes it has: the escapes that the daemon writes are those that the label reads.
pub uri_label-file_uri :
    (path : Text)
    → All IsByte path
    → uri_label (some (file_uri (b'/' ∷ path)))
      ≡ name_or
          (from_utf8_lossy (b'/' ∷ path))
          (file_name (parse_path (from_utf8_lossy (b'/' ∷ path))))
unfolding uri_label
uri_label-file_uri path h =
    let bytes : All IsByte (b'/' ∷ path) = (omega arith, h) in
    ap (λ t. paths_label (keep is_path_line (lines t)))
      (from_utf8_lossy_ascii (file_uri (b'/' ∷ path)) (file_uri-IsAscii (b'/' ∷ path) bytes))
    ∙ ap (λ ls. paths_label (keep is_path_line ls)) (lines-file_uri (b'/' ∷ path) bytes)
    ∙ ap paths_label (keep-link (b'/' ∷ path))
    ∙ unfold paths_label in uri_name-link path bytes

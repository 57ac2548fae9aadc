-- ===== src/Label.antt =====
-- src/common/types.rs: the label of an entry. A panic is the outcome `none`.
pub mod Cut
use mathlib.Core.Option
use mimeclip.Base.{
  ℕ, zero, suc, ◌+◌, ◌-◌, ◌*◌, ◌≡◌, refl, Bool, true, false, not, ◌&&◌, ◌||◌, Option, none, some,
  List, [], ◌∷◌, ◌++◌, length, take, drop, map, keep, any, ◌==◌, ltb, leb, if◌then◌else◌,
}
use mimeclip.Base.Bytes
use mimeclip.Base.Bytes.{Text, Bytes, text_eq, starts_with}
use mimeclip.Base.Decimal.{show}
use mimeclip.Base.Paths.{split_on, parse_path, file_name}
use mimeclip.Base.Strip.{trim_text, strip_prefix}
use mimeclip.Base.Utf8.{from_utf8_lossy, is_continuation}
use mimeclip.Kind.{EntryKind, file, uri, image, other, uri_list}
use mimeclip.Payloads.{Payload}

-- `u8::from_str_radix(h, 16)` for one digit
unfoldable pub hex_digit : ℕ → Option ℕ
hex_digit c =
    if leb b'0' c && leb c b'9'
    then some (c - b'0')
    else if leb b'a' c && leb c b'f'
    then some (c - b'a' + 10)
    else if leb b'A' c && leb c b'F'
    then some (c - b'A' + 10)
    else none

unfoldable pub pair_value : Option ℕ → Option ℕ → Option ℕ
pair_value (some high) (some low) = some (high * 16 + low)
pair_value (some high) none = none
pair_value none low = none

-- The same for the two bytes after a `%`. A sign may stand before a digit.
unfoldable pub hex_pair : ℕ → ℕ → Option ℕ
hex_pair a b = if a == b'+' then hex_digit b else pair_value (hex_digit a) (hex_digit b)

-- The loop of `percent_decode`: `i + 2 < input.len()` is that two bytes follow the `%`.
unfoldable pub decode_percent : Text → Bytes
decode_percent [] = []
decode_percent (a ∷ []) = a ∷ []
decode_percent (a ∷ b ∷ []) = a ∷ b ∷ []
decode_percent (a ∷ b ∷ c ∷ s) = elim (if a == b'%' then hex_pair b c else none) [
  | some v ↦ v ∷ decode_percent s
  | none ↦ a ∷ decode_percent (b ∷ c ∷ s)
]

unfoldable pub percent_decode : Text → Text
percent_decode s = from_utf8_lossy (decode_percent s)

-- The closure `get`.
unfoldable pub get : Text → List Payload → Option Bytes
get mime [] = none
get mime ((m, d) ∷ payloads) =
    let rest = get mime payloads in if text_eq m mime then some d else rest

-- The first payload whose MIME type starts so
unfoldable pub get_by_prefix : Text → List Payload → Option Bytes
get_by_prefix prefix [] = none
get_by_prefix prefix ((m, d) ∷ payloads) =
    let rest = get_by_prefix prefix payloads in if starts_with m prefix then some d else rest

unfoldable pub or_else {ℓ} : {A : Type ℓ} → Option A → Option A → Option A
or_else (some a) o = some a
or_else none o = o

-- `str::lines`: the part after the last line feed is a line only where it is not empty, and a
-- carriage return before a line feed goes with it.
unfoldable pub drop_return : Text → Text
drop_return [] = []
drop_return (c ∷ []) = if c == 13 then [] else c ∷ []
drop_return (c ∷ d ∷ s) = c ∷ drop_return (d ∷ s)

unfoldable pub to_lines : List Text → List Text
to_lines [] = []
to_lines (s ∷ []) = elim s [ [] ↦ [] | c ∷ cs ↦ (c ∷ cs) ∷ [] ]
to_lines (s ∷ t ∷ rest) = drop_return s ∷ to_lines (t ∷ rest)

unfoldable pub lines : Text → List Text
lines s = to_lines (split_on 10 s)

-- `!l.starts_with('#') && !l.is_empty()`
unfoldable pub is_path_line : Text → Bool
is_path_line l = not (starts_with l (Bytes.text "#")) && not (text_eq l [])

-- `trim_start_matches("file://")`: every one that stands at the start, on fuel of the length
unfoldable pub skip_scheme : ℕ → Text → Text
skip_scheme zero s = s
skip_scheme (suc fuel) s = elim (strip_prefix s (Bytes.text "file://")) [
  | none ↦ s
  | some rest ↦ skip_scheme fuel rest
]

unfoldable pub name_or : Text → Option Text → Text
name_or p none = p
name_or p (some name) = name

-- The name of the file that a line of a URI list names.
unfoldable pub uri_name : Text → Text
uri_name line =
    let p = percent_decode (skip_scheme (length line) line) in name_or p (file_name (parse_path p))

unfoldable pub paths_label : List Text → Text
paths_label [] = Bytes.text "file"
paths_label (p ∷ []) = uri_name p
paths_label (p ∷ q ∷ rest) =
    uri_name p ++ Bytes.text " and " ++ show (length (q ∷ rest)) ++ Bytes.text " more"

unfoldable pub uri_label : Option Bytes → Text
uri_label none = Bytes.text "file"
uri_label (some data_) = paths_label (keep is_path_line (lines (from_utf8_lossy data_)))

-- `s.is_char_boundary(i)`, for `i` in the text, looks at the byte there.
unfoldable pub starts_character : Text → Bool
starts_character [] = true
starts_character (b ∷ s) = not (is_continuation b)

-- `format!("{}…", &trimmed[..limit])` where there are more bytes than that; the slice panics
-- where its bytes end within a character.
unfoldable pub cut_text : ℕ → Text → Option Text
cut_text limit trimmed =
    if ltb limit (length trimmed)
    then (if starts_character (drop limit trimmed)
        then some (take limit trimmed ++ 226 ∷ 128 ∷ 166 ∷ [])
        else none)
    else some trimmed

unfoldable pub text_payload : List Payload → Option Bytes
text_payload payloads =
    or_else (get (Bytes.text "text/plain;charset=utf-8") payloads) (
      or_else (get (Bytes.text "text/plain") payloads)
        (get_by_prefix (Bytes.text "text/") payloads))

unfoldable pub text_label : Option Bytes → Option Text
text_label none = some (Bytes.text "text")
text_label (some data_) = cut_text 120 (trim_text (from_utf8_lossy data_))

-- The formats whose size is looked up.
unfoldable pub image_format : Text → Option Text
image_format mime =
    if text_eq mime (Bytes.text "image/png")
    then some (Bytes.text "PNG")
    else if text_eq mime (Bytes.text "image/jpeg")
    then some (Bytes.text "JPEG")
    else if text_eq mime (Bytes.text "image/webp")
    then some (Bytes.text "WebP")
    else if text_eq mime (Bytes.text "image/gif")
    then some (Bytes.text "GIF")
    else none

unfoldable pub size_label : Option Text → Option (ℕ × ℕ) → Text → Text
size_label (some format) (some (width, height)) rest =
    format ++ b' ' ∷ show width ++ b'x' ∷ show height
size_label (some format) none rest = rest
size_label none size rest = rest

-- `blob_size` is that of the crate `imagesize`.
module _ (blob_size : Bytes → Option (ℕ × ℕ)) where
  unfoldable pub build_image_label : List Payload → Text
  build_image_label [] = Bytes.text "Image"
  build_image_label ((mime, data_) ∷ payloads) =
      size_label (image_format mime) (blob_size data_) (build_image_label payloads)

  unfoldable pub build_label : EntryKind → List Payload → Option Text
  build_label file payloads = some (uri_label (get uri_list payloads))
  build_label uri payloads = some (uri_label (get uri_list payloads))
  build_label EntryKind.text payloads = text_label (text_payload payloads)
  build_label image payloads = some (build_image_label payloads)
  build_label other payloads = some (Bytes.text "binary")

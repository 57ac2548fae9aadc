-- ===== src/Screenshot.antt =====
-- src/daemon/server.rs: the payloads that are offered for a screenshot's file.
pub mod Links
use mathlib.Core.Option
use mimeclip.Base.{
  ℕ, ◌+◌, ◌/◌, ◌%◌, Bool, ◌||◌, ◌&&◌, Option, none, some, List, [], ◌∷◌, ◌++◌, map, ◌==◌, ltb, leb,
  Result, ok, err, and_then, if◌then◌else◌,
}
use mimeclip.Base.Bytes.{Text, Bytes, text, text_eq, to_ascii_lowercase}
use mimeclip.Base.Paths.{FilePath, parse_path, extension}
use mimeclip.Kind.{uri_list}
use mimeclip.Payloads.{Payload}

-- MAX_SCREENSHOT_BYTES
abbrev pub max_screenshot_bytes : ℕ
max_screenshot_bytes = 67108864

-- `is_ascii_alphanumeric`, and the other bytes that stand for themselves
unfoldable pub is_plain : ℕ → Bool
is_plain b =
    (leb b'0' b && leb b b'9')
    || (leb b'A' b && leb b b'Z')
    || (leb b'a' b && leb b b'z')
    || b == b'/'
    || b == b'-'
    || b == b'.'
    || b == b'_'
    || b == b'~'

-- One digit of `{byte:02X}`
unfoldable pub upper_hex : ℕ → ℕ
upper_hex d = if ltb d 10 then b'0' + d else b'7' + d

unfoldable pub file_uri_path : Text → Text
file_uri_path [] = []
file_uri_path (b ∷ path) =
    let rest = file_uri_path path in
    if is_plain b then b ∷ rest else b'%' ∷ upper_hex (b / 16) ∷ upper_hex (b % 16) ∷ rest

-- `format!("file://{}\r\n", file_uri_path(&path_text))`
unfoldable pub file_uri : Text → Text
file_uri path = text "file://" ++ file_uri_path path ++ 13 ∷ 10 ∷ []

pub data ScreenshotError : Type 0 where
  unresolved : ScreenshotError
  no_metadata : ScreenshotError
  not_regular : ScreenshotError
  too_large : ScreenshotError
  unsupported : ScreenshotError
  unreadable : ScreenshotError

-- What the file system has at the path: `none` is an error of the call.
pub record Screenshot : Type 0 where
  -- `canonicalize`, as text
  pub resolved : Option Text
  -- `metadata`: whether it is a regular file, and its size
  pub metadata : Option (Bool × ℕ)
  -- `read`
  pub content : Option Bytes

unfoldable pub from_option {ℓ} :
    {A : Type ℓ} → ScreenshotError → Option A → Result ScreenshotError A
from_option e none = err e
from_option e (some a) = ok a

unfoldable pub mime_of_extension : Option Text → Option Text
mime_of_extension none = none
mime_of_extension (some ext) =
    if text_eq ext (text "png")
    then some (text "image/png")
    else if text_eq ext (text "jpg") || text_eq ext (text "jpeg")
    then some (text "image/jpeg")
    else if text_eq ext (text "webp")
    then some (text "image/webp")
    else if text_eq ext (text "gif")
    then some (text "image/gif")
    else none

unfoldable pub image_mime : Text → Option Text
image_mime path =
    mime_of_extension (Option.map (map to_ascii_lowercase) (extension (parse_path path)))

-- The tests of the metadata.
unfoldable pub check_metadata : Bool × ℕ → Result ScreenshotError (Unit {0})
check_metadata (is_file, size) =
    if is_file
    then (if ltb max_screenshot_bytes size then err too_large else ok tt)
    else err not_regular

unfoldable pub screenshot_payloads : Screenshot → Result ScreenshotError (List Payload)
screenshot_payloads s = and_then (from_option unresolved s.resolved) (λ path.
    and_then (from_option no_metadata s.metadata) (λ metadata.
      and_then (check_metadata metadata) (λ _.
        and_then (from_option unsupported (image_mime path)) (λ mime.
          and_then (from_option unreadable s.content) (λ content. ok (
            (mime, content)
            ∷ (text "text/plain;charset=utf-8", path)
            ∷ (uri_list, file_uri path)
            ∷ []))))))

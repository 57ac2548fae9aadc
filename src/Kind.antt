-- ===== src/Kind.antt =====
-- src/common/types.rs: the kinds of entries, their names and the classification of an offer.
-- `parse_kind` is that of src/common/db.rs.
pub mod Classes
use mimeclip.Base.{Bool, ◌&&◌, ◌||◌, List, any, if◌then◌else◌}
use mimeclip.Base.Bytes
use mimeclip.Base.Bytes.{Text, text_eq, starts_with}

pub data EntryKind : Type 0 where
  text uri file image other : EntryKind

-- `EntryKind::label`
unfoldable pub label : EntryKind → Text
label EntryKind.text = Bytes.text "text"
label uri = Bytes.text "uri"
label file = Bytes.text "file"
label image = Bytes.text "image"
label other = Bytes.text "other"

-- db.rs `parse_kind`
unfoldable pub parse_kind : Text → EntryKind
parse_kind s =
    if text_eq s (Bytes.text "text")
    then EntryKind.text
    else if text_eq s (Bytes.text "uri")
    then uri
    else if text_eq s (Bytes.text "file")
    then file
    else if text_eq s (Bytes.text "image")
    then image
    else other

abbrev pub uri_list : Text
uri_list = Bytes.text "text/uri-list"

-- The closure of the first test: a MIME type that only a file manager offers.
unfoldable pub is_file_marker : Text → Bool
is_file_marker m =
    text_eq m (Bytes.text "x-special/gnome-copied-files")
    || text_eq m (Bytes.text "x-kde-cut-selection")
    || starts_with m (Bytes.text "x-special/")

-- The closure of the second test, which counts beside a URI list only.
unfoldable pub is_file_companion : Text → Bool
is_file_companion m =
    starts_with m (Bytes.text "application/x-kde") || starts_with m (Bytes.text "x-special")

unfoldable pub is_uri_list : Text → Bool
is_uri_list m = text_eq m uri_list

unfoldable pub is_file_offer : List Text → Bool
is_file_offer mime_types =
    any is_file_marker mime_types
    || (any is_uri_list mime_types && any is_file_companion mime_types)

-- The closure `has`.
unfoldable pub has : List Text → Text → Bool
has mime_types prefix = any (λ m. starts_with m prefix) mime_types

unfoldable pub classify_kind : List Text → EntryKind
classify_kind mime_types =
    if is_file_offer mime_types
    then file
    else if has mime_types (Bytes.text "image/")
    then image
    else if any is_uri_list mime_types
    then uri
    else if has mime_types (Bytes.text "text/")
    then EntryKind.text
    else other

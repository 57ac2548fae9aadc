-- ===== src/Tests/Kind.antt =====
-- Runs of the classification of src/common/types.rs.
use mimeclip.Base.{◌≡◌, refl, List, [], ◌∷◌, any}
use mimeclip.Base.Bytes.{Text, text, text_eq, starts_with}
use mimeclip.Kind.{
  EntryKind, file, image, is_file_marker, is_file_companion, is_uri_list, is_file_offer, has,
  classify_kind,
}
use mimeclip.Kind.Classes.{IsOf, classify_kind-IsOf}

abbrev copied_file : List Text
copied_file = text "x-special/gnome-copied-files" ∷ text "text/uri-list" ∷ text "text/plain" ∷ []

abbrev copied_path : List Text
copied_path = text "text/plain" ∷ text "text/plain;charset=utf-8" ∷ []

program : Unit {0}
unfolding text_eq starts_with any is_file_marker is_file_companion is_uri_list is_file_offer has
    classify_kind
program = tt

-- The example of the README: a file and its path are different kinds.
file_and_path : (classify_kind copied_file ≡ file) × (classify_kind copied_path ≡ EntryKind.text)
unfolding program
file_and_path = (refl, refl)

screenshot : classify_kind (text "image/png" ∷ text "text/uri-list" ∷ []) ≡ image
unfolding program
screenshot = refl

classify_kind-IsOf_example : IsOf (classify_kind copied_file) copied_file
classify_kind-IsOf_example = classify_kind-IsOf copied_file

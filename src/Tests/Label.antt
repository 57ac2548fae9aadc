-- ===== src/Tests/Label.antt =====
-- Runs of the labels of src/common/types.rs and of the links of src/daemon/server.rs.
use mathlib.Core.Option
use mimeclip.Base.{Option, replicate, All-replicate}
use mimeclip.Base.{
  ℕ, ◌≤◌, ◌≡◌, refl, true, none, some, List, [], ◌∷◌, ◌++◌, keep, length, All, err, arith,
}
use mimeclip.Base.Bytes
use mimeclip.Base.Bytes.{Text, Bytes, text_eq, starts_with, to_ascii_lowercase}
use mimeclip.Base.Decimal.{show, show_digits}
use mimeclip.Base.Paths.{
  parse_path, split_on, push_char, is_component, last, name_of, file_name, extension, split_dot,
  stem_and_extension,
}
use mimeclip.Base.Strip.{
  trim_text, trim_start, trim_end, skip_white, white_start, white_end, white_one, white_two,
  white_three, strip_prefix,
}
use mimeclip.Base.Utf8.{
  from_utf8_lossy, decode_from, next_char, start_char, in_range, is_continuation, IsAscii,
}
use mimeclip.Kind.{EntryKind, file, image, uri_list}
use mimeclip.Payloads.{Payload}
use mimeclip.Label.{
  hex_digit, hex_pair, pair_value, decode_percent, percent_decode, get, get_by_prefix, or_else,
  drop_return, to_lines, lines, is_path_line, skip_scheme, name_or, uri_name, paths_label,
  uri_label, starts_character, cut_text, text_payload, text_label, image_format, size_label,
  build_image_label, build_label,
}
use mimeclip.Label.Cut.{IsPair, build_label-bound, build_label-panics}
use mimeclip.Screenshot.{
  Screenshot, too_large, is_plain, upper_hex, file_uri_path, file_uri, from_option,
  mime_of_extension, image_mime, check_metadata, screenshot_payloads,
}
use mimeclip.Screenshot.Links.{IsByte, uri_label-file_uri}

unfoldable pub program : Unit {0}
unfolding hex_digit hex_pair pair_value decode_percent percent_decode get get_by_prefix or_else
    drop_return to_lines lines is_path_line skip_scheme name_or uri_name paths_label uri_label
    starts_character cut_text text_payload text_label image_format size_label build_image_label
    build_label from_utf8_lossy decode_from next_char start_char in_range is_continuation trim_text
    trim_start trim_end skip_white white_start white_end white_one white_two white_three
    strip_prefix parse_path split_on push_char is_component last name_of file_name extension
    split_dot stem_and_extension show show_digits text_eq starts_with to_ascii_lowercase keep
    is_plain upper_hex file_uri_path file_uri from_option mime_of_extension image_mime
    check_metadata screenshot_payloads Option.bind
program = tt

abbrev no_size : Bytes → Option (ℕ × ℕ)
no_size bytes = none

abbrev one_pixel : Bytes → Option (ℕ × ℕ)
one_pixel bytes = some (1, 1)

-- image_labels_include_format_and_dimensions_when_detectable
png_label :
    build_label one_pixel image ((Bytes.text "image/png", 1 ∷ []) ∷ [])
    ≡ some (Bytes.text "PNG 1x1")
unfolding program
png_label = refl

-- image_labels_fall_back_to_generic_name_when_size_is_not_detectable
image_label :
    build_label no_size image ((Bytes.text "image/png", 1 ∷ []) ∷ []) ≡ some (Bytes.text "Image")
unfolding program
image_label = refl

files_label :
    build_label no_size file
      ((uri_list, Bytes.text "file:///a/b%20c/" ++ 13 ∷ 10 ∷ Bytes.text "file:///d") ∷ [])
    ≡ some (Bytes.text "b c and 1 more")
unfolding program
files_label = refl

abbrev said : List Payload
said = (Bytes.text "text/plain", Bytes.text " hello ") ∷ []

said_label : build_label no_size EntryKind.text said ≡ some (Bytes.text "hello")
unfolding program
said_label = refl

build_label-bound_example : length (Bytes.text "hello") ≤ 123
build_label-bound_example = build_label-bound no_size said (Bytes.text "hello") said_label

-- file_uri_path_escapes_reserved_characters
escaped :
    file_uri_path (Bytes.text "/tmp/a screenshot#1.png") ≡ Bytes.text "/tmp/a%20screenshot%231.png"
unfolding program
escaped = refl

abbrev shot : Text
shot = Bytes.text "a b.png"

shot-IsByte : All IsByte shot
shot-IsByte = (
  omega arith,
  (omega arith, (omega arith, (omega arith, (omega arith, (omega arith, (omega arith, tt)))))),
)

uri_label-file_uri_example :
    uri_label (some (file_uri (b'/' ∷ shot)))
    ≡ name_or
        (from_utf8_lossy (b'/' ∷ shot))
        (file_name (parse_path (from_utf8_lossy (b'/' ∷ shot))))
uri_label-file_uri_example = uri_label-file_uri shot shot-IsByte

-- 119 letters
abbrev letters : Bytes
letters = replicate 119 b'a'

letters-IsAscii : All IsAscii letters
letters-IsAscii = All-replicate IsAscii 119 b'a' refl

-- U+00E9
abbrev e_acute : Bytes.Bytes
e_acute = 195 ∷ 169 ∷ []

abbrev accented : List Payload
accented = (Bytes.text "text/plain", letters ++ e_acute) ∷ []

accented_text : text_payload accented ≡ some (letters ++ e_acute)
unfolding program
accented_text = refl

accented_start : white_start (letters ++ e_acute) ≡ 0
unfolding program
accented_start = refl

e_acute-IsPair : IsPair 195 169
unfolding program
e_acute-IsPair = record {
  low = omega arith;
  high = omega arith;
  next_low = omega arith;
  next_high = omega arith;
  no_white = refl;
}

build_label-panics_example : build_label no_size EntryKind.text accented ≡ none
build_label-panics_example =
    build_label-panics no_size accented letters 195 169 e_acute-IsPair accented_text letters-IsAscii
      refl accented_start

abbrev large_shot : Screenshot
large_shot = record {
  resolved = some (Bytes.text "/tmp/s.PNG");
  metadata = some (true, 67108865);
  content = some (1 ∷ []);
}

large_shot_refused : screenshot_payloads large_shot ≡ err too_large
unfolding program
large_shot_refused = refl

-- ===== src/Tests/Config.antt =====
-- Runs of src/common/config.rs.

use mimeclip.Base.{◌≡◌, refl, true, false, Option, none, some, [], ◌∷◌, keep, ok, arith}
use mimeclip.Base.Bytes.{Text, text, text_eq, starts_with, to_ascii_lowercase}
use mimeclip.Base.Decimal.{show, show_digits, is_digit, is_empty, parse_digits, parse_number}
use mimeclip.Base.Paths.{
  FilePath, parse_path, split_on, push_char, is_component, join, last, init, name_of, file_name,
  split_dot, stem_and_extension, replace_name, with_extension, parent, texts_eq, path_eq,
}
use mimeclip.Base.Strip.{
  trim_text, trim_start, trim_end, skip_white, white_start, white_end, white_one, white_two,
  white_three, strip_prefix, strip_suffix,
}
use mimeclip.Config.{
  Config, Limits, holds, normalize_size, first_unit, split_unit, size_in_bytes, parse_size, in_unit,
  format_size, default, limits, with_entries, override_entries, override_size, read_file, load,
  default_max_history_size,
}
use mimeclip.Config.Sizes.{IsUsable, parse_size-format_size, load-IsUsable}
use mimeclip.Config.Saving.{
  Files, links_to, resolve, temporary, config_path, IsAtomic, save_to_path, save_to_path-IsAtomic,
}

unfoldable pub program : Unit {0}
unfolding show show_digits is_digit is_empty parse_digits parse_number trim_text trim_start trim_end
    skip_white white_start white_end white_one white_two white_three strip_prefix strip_suffix
    to_ascii_lowercase keep normalize_size first_unit split_unit size_in_bytes parse_size in_unit
    format_size default limits with_entries override_entries override_size read_file load
program = tt

-- parses_human_history_sizes
parses_mib : parse_size (text "256MiB") ≡ ok default_max_history_size
unfolding program
parses_mib = refl

parses_gib : parse_size (text " 2 GiB ") ≡ ok 2147483648
unfolding program
parses_gib = refl

-- formats_exact_binary_sizes
formats_default : format_size default_max_history_size ≡ text "256 MiB"
unfolding program
formats_default = refl

formats_bytes : format_size 1500 ≡ text "1500 B"
unfolding program
formats_bytes = refl

parse_size-format_size_example : parse_size (format_size 1536) ≡ ok 1536
parse_size-format_size_example = parse_size-format_size 1536 (omega arith) (omega arith)

-- A file that is read as a configuration with another size than the environment gives.
abbrev read_config : Text → Option Config
read_config source = some (record { max_entries = 7; max_history_size = source })

abbrev loaded : Config
loaded = record { max_entries = 9; max_history_size = text "1 KiB" }

loads : load read_config (holds (text "x")) (some (text "9")) (some (text "1 KiB")) ≡ ok loaded
unfolding program
loads = refl

load-IsUsable_example : (l : Limits) × (limits loaded ≡ ok l) × IsUsable l
load-IsUsable_example =
    load-IsUsable read_config (holds (text "x")) (some (text "9")) (some (text "1 KiB")) loaded
      loads

paths : Unit {0}
unfolding parse_path split_on push_char is_component join last init name_of file_name split_dot
    stem_and_extension replace_name with_extension parent texts_eq path_eq text_eq starts_with keep
    resolve temporary config_path
paths = tt

abbrev target : FilePath
target = record { rooted = true; components = text "dotfiles" ∷ text "managed.toml" ∷ [] }

temporary_file :
    temporary target
    ≡ record { rooted = true; components = text "dotfiles" ∷ text "managed.toml.tmp" ∷ [] }
unfolding paths
temporary_file = refl

home_config : config_path none (some (text "/home/u/")) ≡ record {
  rooted = true;
  components = text "home" ∷ text "u" ∷ text ".config" ∷ text "mimeclip" ∷ text "config.toml" ∷ [];
}
unfolding paths
home_config = refl

abbrev no_files : Files
no_files p = none

abbrev to_text : Config → Option Text
to_text config = some config.max_history_size

leads : resolve (links_to target) (config_path none none) ≡ ok target
unfolding paths
leads = refl

apart : path_eq (temporary target) target ≡ false
unfolding paths
apart = refl

-- saving_through_a_symlink_preserves_the_link, with a full disk
save_to_path-IsAtomic_example : IsAtomic target (to_text loaded) no_files (
    save_to_path to_text loaded
      (links_to target)
      (config_path none none)
      2
      (some (1 ∷ []))
      no_files)
save_to_path-IsAtomic_example =
    save_to_path-IsAtomic to_text loaded (links_to target) (config_path none none) target 2
      (some (1 ∷ [])) no_files leads apart

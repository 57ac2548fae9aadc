-- ===== src/Config.antt =====
-- src/common/config.rs: the configuration, its limits, and sizes as a user writes them.
pub mod Sizes
pub mod Saving
use mathlib.Core.Option
use mimeclip.Base.{
  ℕ, suc, ◌+◌, ◌*◌, ◌/◌, ◌%◌, Bool, not, ◌&&◌, Option, none, some, List, [], ◌∷◌, ◌++◌, map, keep,
  ◌==◌, ltb, leb, Result, ok, err, and_then, if◌then◌else◌,
}
use mimeclip.Base.Bytes.{Text, text, to_ascii_lowercase}
use mimeclip.Base.Decimal.{show, parse_number, u64_end}
use mimeclip.Base.Strip.{trim_text, strip_suffix}

pub record Config : Type 0 where
  pub max_entries : ℕ
  pub max_history_size : Text

pub record Limits : Type 0 where
  pub max_entries : ℕ
  pub max_history_size : ℕ

pub data ConfigError : Type 0 where
  no_entries : ConfigError
  invalid_size : Text → ConfigError
  too_large : ConfigError
  no_size : ConfigError
  unreadable : ConfigError
  unparsable : ConfigError
  invalid_entries : ConfigError

-- DEFAULT_MAX_ENTRIES
abbrev pub default_max_entries : ℕ
default_max_entries = 500

-- DEFAULT_MAX_HISTORY_SIZE
abbrev pub default_max_history_size : ℕ
default_max_history_size = 268435456

abbrev pub gibibyte : ℕ
gibibyte = 1073741824

abbrev pub mebibyte : ℕ
mebibyte = 1048576

abbrev pub kibibyte : ℕ
kibibyte = 1024

-- `value.trim().to_ascii_lowercase().replace(' ', "")`
unfoldable pub normalize_size : Text → Text
normalize_size value = keep (λ c. not (c == b' ')) (map to_ascii_lowercase (trim_text value))

abbrev pub units : List (Text × ℕ)
units =
    (text "gib", gibibyte)
    ∷ (text "gb", gibibyte)
    ∷ (text "mib", mebibyte)
    ∷ (text "mb", mebibyte)
    ∷ (text "kib", kibibyte)
    ∷ (text "kb", kibibyte)
    ∷ (text "b", 1)
    ∷ []

unfoldable pub first_unit : Option Text → ℕ → Text × ℕ → Text × ℕ
first_unit (some number) multiplier rest = (number, multiplier)
first_unit none multiplier rest = rest

-- The `find_map` over the units: the number's text and the multiplier.
unfoldable pub split_unit : List (Text × ℕ) → Text → Text × ℕ
split_unit [] normalized = (normalized, 1)
split_unit ((suffix, multiplier) ∷ units) normalized =
    first_unit (strip_suffix normalized suffix) multiplier (split_unit units normalized)

-- `checked_mul`, and the test for 0
unfoldable pub size_in_bytes : Text → Option ℕ → ℕ → Result ConfigError ℕ
size_in_bytes value none multiplier = err (invalid_size value)
size_in_bytes value (some number) multiplier =
    if ltb (number * multiplier) u64_end
    then (if number * multiplier == 0 then err no_size else ok (number * multiplier))
    else err too_large

unfoldable pub parse_size : Text → Result ConfigError ℕ
parse_size value =
    let split = split_unit units (normalize_size value) in
    size_in_bytes value (parse_number split.0) split.1

-- The test of the loop of `format_size`, for one unit.
unfoldable pub in_unit : ℕ → ℕ → Bool
in_unit bytes divisor = leb divisor bytes && bytes % divisor == 0

unfoldable pub format_size : ℕ → Text
format_size bytes =
    if in_unit bytes gibibyte
    then show (bytes / gibibyte) ++ text " GiB"
    else if in_unit bytes mebibyte
    then show (bytes / mebibyte) ++ text " MiB"
    else if in_unit bytes kibibyte
    then show (bytes / kibibyte) ++ text " KiB"
    else show bytes ++ text " B"

-- `Config::default`
unfoldable pub default : Config
default = record {
  max_entries = default_max_entries;
  max_history_size = format_size default_max_history_size;
}

unfoldable pub with_entries : ℕ → ℕ → Limits
with_entries entries size = record { max_entries = entries; max_history_size = size }

unfoldable pub limits : Config → Result ConfigError Limits
limits config =
    if config.max_entries == 0
    then err no_entries
    else and_then (parse_size config.max_history_size)
        (λ size. ok (with_entries config.max_entries size))

-- What the file system and the environment have for `load`.
pub data FileState : Type 0 where
  missing : FileState
  refused : FileState
  holds : Text → FileState

unfoldable pub override_entries : Option Text → Config → Result ConfigError Config
override_entries none config = ok config
override_entries (some value) config = elim (parse_number value) [
  | none ↦ err invalid_entries
  | some n ↦ ok (record config { max_entries = n })
]

unfoldable pub override_size : Option Text → Config → Config
override_size none config = config
override_size (some value) config = record config { max_history_size = value }

-- `toml::from_str` is that of the crate `toml`.
module _ (from_toml : Text → Option Config) where
  unfoldable pub read_file : FileState → Result ConfigError Config
  read_file missing = ok default
  read_file refused = err unreadable
  read_file (holds source) = elim (from_toml source) [ none ↦ err unparsable | some c ↦ ok c ]

  -- `load`, with MIMECLIP_MAX_ENTRIES and MIMECLIP_MAX_HISTORY_SIZE
  unfoldable pub load : FileState → Option Text → Option Text → Result ConfigError Config
  load file entries size = and_then (read_file file) (λ read.
      and_then (override_entries entries read) (λ config.
        let config' = override_size size config in and_then (limits config') (λ _. ok config')))

-- ===== src/Config/Sizes.antt =====
-- Sizes of src/common/config.rs: what is formatted is parsed back, and what is accepted is valid.

use mathlib.Core.List.{reverse, reverse-cons, reverse-append, reverse-reverse, map-append}
use mimeclip.Base.{
  ℕ, ◌*◌, ◌/◌, ◌%◌, ◌≤◌, ◌<◌, ◌≡◌, refl, ap, ap₂, subst, inl, inr, Bool-cases, true, false, not,
  &&_split, Option, none, some, [], ◌∷◌, ◌++◌, map, keep, All, All-append, ◌==◌, ==_iff, leb,
  leb→le, ok, and_then-eq-ok, ok-injective, arith,
}
use mimeclip.Base.Bytes.{Text, text, to_ascii_lowercase}
use mimeclip.Base.Decimal.{
  show, u64_end, is_digit, IsDigit, show-IsDigit, show-cons, parse_number-show,
}
use mimeclip.Base.Perms.{keep-append, keep-All}
use mimeclip.Base.Strip.{
  trim_text-none, white_start, white_end, white_one, white_two, white_three, strip_prefix,
  strip_suffix, strip_suffix-append,
}
use mimeclip.Config.{
  Config, Limits, normalize_size, units, first_unit, split_unit, size_in_bytes, parse_size, in_unit,
  format_size, gibibyte, mebibyte, kibibyte, limits, with_entries, FileState, load, read_file,
  override_entries, override_size,
}

white_start-digit : (c : ℕ) (s : Text) → IsDigit c → white_start (c ∷ s) ≡ 0
unfolding white_start white_one white_two white_three is_digit
white_start-digit c [] h = ground arith
white_start-digit c (a ∷ []) h = ground arith
white_start-digit c (a ∷ b ∷ s) h = ground arith

-- Every unit ends in this letter.
white_end-B : (s : Text) → white_end (b'B' ∷ s) ≡ 0
unfolding white_end white_one white_two white_three
white_end-B [] = refl
white_end-B (a ∷ []) = ground arith
white_end-B (a ∷ b ∷ s) = ground arith

lower-digits : (s : Text) → All IsDigit s → map to_ascii_lowercase s ≡ s
unfolding to_ascii_lowercase is_digit
lower-digits [] h = refl
lower-digits (c ∷ s) h = ap₂ ◌∷◌ (ground arith) (lower-digits s h.1)

digits_have_no_space : (s : Text) → All IsDigit s → All (λ c. not (c == b' ') ≡ true) s
unfolding is_digit
digits_have_no_space [] h = tt
digits_have_no_space (c ∷ s) h = (ground arith, digits_have_no_space s h.1)

-- A number and a unit that ends in B are normalized one by one.
normalize_size-show :
    (n : ℕ) (rest : Text) (unit : Text)
    → reverse unit ≡ b'B' ∷ rest
    → normalize_size (show n ++ unit)
      ≡ show n ++ keep (λ c. not (c == b' ')) (map to_ascii_lowercase unit)
unfolding normalize_size
normalize_size-show n rest unit ends =
    let (c, s, e, d) = show-cons n in
    rw
      (
        trim_text-none (show n ++ unit) (rw e (white_start-digit c (s ++ unit) d))
            (rw (reverse-append (show n) unit, ends) (white_end-B (rest ++ reverse (show n)))),
        map-append to_ascii_lowercase (show n) unit,
        lower-digits (show n) (show-IsDigit n),
        keep-append (λ c. not (c == b' ')) (show n) (map to_ascii_lowercase unit),
        keep-All (λ c. not (c == b' ')) (show n) (digits_have_no_space (show n) (show-IsDigit n)),
      )
      refl

All-reverse : (s : Text) → All IsDigit s → All IsDigit (reverse s)
All-reverse [] h = tt
All-reverse (c ∷ s) h =
    rw (reverse-cons c s) (All-append IsDigit (reverse s) (c ∷ []) (All-reverse s h.1) (h.0, tt))

strip_prefix-digits :
    (s : Text) (p : ℕ) (ps : Text)
    → All IsDigit s
    → is_digit p ≡ false
    → strip_prefix s (p ∷ ps) ≡ none
unfolding strip_prefix is_digit
strip_prefix-digits [] p ps h k = refl
strip_prefix-digits (c ∷ s) p ps h k = ground arith

-- The suffixes that are tried before the right one do not match.
split_unit-gib : (n : ℕ) → split_unit units (show n ++ text "gib") ≡ (show n, gibibyte)
unfolding split_unit first_unit
split_unit-gib n = rw (strip_suffix-append (show n) (text "gib")) refl

split_unit-mib : (n : ℕ) → split_unit units (show n ++ text "mib") ≡ (show n, mebibyte)
unfolding split_unit first_unit strip_suffix strip_prefix
split_unit-mib n =
    rw (reverse-append (show n) (text "mib")) (ap (λ s. (s, mebibyte)) (reverse-reverse (show n)))

split_unit-kib : (n : ℕ) → split_unit units (show n ++ text "kib") ≡ (show n, kibibyte)
unfolding split_unit first_unit strip_suffix strip_prefix
split_unit-kib n =
    rw (reverse-append (show n) (text "kib")) (ap (λ s. (s, kibibyte)) (reverse-reverse (show n)))

split_unit-b : (n : ℕ) → split_unit units (show n ++ text "b") ≡ (show n, 1)
unfolding split_unit first_unit strip_suffix strip_prefix
split_unit-b n =
    let digits = All-reverse (show n) (show-IsDigit n) in
    rw
      (
        reverse-append (show n) (text "b"),
        strip_prefix-digits (reverse (show n)) b'i' (b'g' ∷ []) digits (unfold is_digit in refl),
        strip_prefix-digits (reverse (show n)) b'g' [] digits (unfold is_digit in refl),
        strip_prefix-digits (reverse (show n)) b'i' (b'm' ∷ []) digits (unfold is_digit in refl),
        strip_prefix-digits (reverse (show n)) b'm' [] digits (unfold is_digit in refl),
        strip_prefix-digits (reverse (show n)) b'i' (b'k' ∷ []) digits (unfold is_digit in refl),
        strip_prefix-digits (reverse (show n)) b'k' [] digits (unfold is_digit in refl),
      )
      (ap (λ s. (s, 1)) (reverse-reverse (show n)))

-- A number of units, written with a unit that is read as `multiplier`.
parse_size-show :
    (n multiplier : ℕ) (rest unit lower : Text)
    → reverse unit ≡ b'B' ∷ rest
    → keep (λ c. not (c == b' ')) (map to_ascii_lowercase unit) ≡ lower
    → split_unit units (show n ++ lower) ≡ (show n, multiplier)
    → n < u64_end
    → 0 < n * multiplier
    → n * multiplier < u64_end
    → parse_size (show n ++ unit) ≡ ok (n * multiplier)
unfolding parse_size
parse_size-show n multiplier rest unit lower ends lowers split h positive fits =
    rw (normalize_size-show n rest unit ends, lowers, split, parse_number-show n h)
      (unfold size_in_bytes in ground arith)

in_unit_iff :
    (bytes divisor : ℕ) → in_unit bytes divisor ≡ true → (divisor ≤ bytes) × (bytes % divisor ≡ 0)
unfolding in_unit
in_unit_iff bytes divisor h =
    let (le, divides) = &&_split (leb divisor bytes) (bytes % divisor == 0) h in
    (leb→le divisor bytes le, (==_iff (bytes % divisor) 0).0 divides)

-- The same for the number of units in a size that they measure exactly.
parse_size-exact :
    (bytes n multiplier : ℕ) (rest unit lower : Text)
    → reverse unit ≡ b'B' ∷ rest
    → keep (λ c. not (c == b' ')) (map to_ascii_lowercase unit) ≡ lower
    → split_unit units (show n ++ lower) ≡ (show n, multiplier)
    → n * multiplier ≡ bytes
    → n < u64_end
    → 0 < bytes
    → bytes < u64_end
    → parse_size (show n ++ unit) ≡ ok bytes
parse_size-exact bytes n multiplier rest unit lower ends lowers split exact h positive fits =
    subst (λ b. parse_size (show n ++ unit) ≡ ok b) exact
      (parse_size-show n multiplier rest unit lower ends lowers split h (rw exact positive)
        (rw exact fits))

-- A size that was formatted is read back as itself: from one byte up to `u64::MAX`.
pub parse_size-format_size :
    (bytes : ℕ) → 0 < bytes → bytes < u64_end → parse_size (format_size bytes) ≡ ok bytes
unfolding format_size
parse_size-format_size bytes positive fits = elim (Bool-cases (in_unit bytes gibibyte)) [
  | inl g ↦ rw g (
      parse_size-exact bytes (bytes / gibibyte) gibibyte _ (text " GiB") (text "gib") refl
        (unfold keep in unfold to_ascii_lowercase in refl) (split_unit-gib _)
        (omega (arith, in_unit_iff bytes gibibyte g)) (omega (arith, fits)) positive fits)
  | inr ng ↦ elim (Bool-cases (in_unit bytes mebibyte)) [
    | inl m ↦
        rw (ng, m)
          (parse_size-exact bytes (bytes / mebibyte) mebibyte _ (text " MiB") (text "mib") refl
            (unfold keep in unfold to_ascii_lowercase in refl) (split_unit-mib _)
            (omega (arith, in_unit_iff bytes mebibyte m)) (omega (arith, fits)) positive fits)
    | inr nm ↦ elim (Bool-cases (in_unit bytes kibibyte)) [
      | inl k ↦
          rw (ng, nm, k)
            (parse_size-exact bytes (bytes / kibibyte) kibibyte _ (text " KiB") (text "kib") refl
              (unfold keep in unfold to_ascii_lowercase in refl) (split_unit-kib _)
              (omega (arith, in_unit_iff bytes kibibyte k)) (omega (arith, fits)) positive fits)
      | inr nk ↦
          rw (ng, nm, nk)
            (parse_size-exact bytes bytes 1 _ (text " B") (text "b") refl
              (unfold keep in unfold to_ascii_lowercase in refl) (split_unit-b _) (omega arith) fits
              positive fits)
    ]
  ]
]

-- Limits that history can be kept within.
abbrev pub IsUsable : Limits → Type 0
IsUsable l = (0 < l.max_entries) × (0 < l.max_history_size) × (l.max_history_size < u64_end)

size_in_bytes-bounds :
    (value : Text) (number : Option ℕ) (multiplier size : ℕ)
    → size_in_bytes value number multiplier ≡ ok size
    → (0 < size) × (size < u64_end)
unfolding size_in_bytes
size_in_bytes-bounds value none multiplier size h = cc
size_in_bytes-bounds value (some number) multiplier size h = ground arith

pub size_bounds :
    (value : Text) (size : ℕ) → parse_size value ≡ ok size → (0 < size) × (size < u64_end)
unfolding parse_size
size_bounds value size h = size_in_bytes-bounds value _ _ size h

limits-IsUsable : (config : Config) (l : Limits) → limits config ≡ ok l → IsUsable l
unfolding limits with_entries
limits-IsUsable config l h = elim (Bool-cases (config.max_entries == 0)) [
  | inl e ↦ absurd (ground arith)
  | inr e ↦
      let (size, parsed, built) =
        and_then-eq-ok (parse_size config.max_history_size) _ (rw e at h) in
      let (positive, fits) = size_bounds config.max_history_size size parsed in
      subst IsUsable (ok-injective built) (ground arith, positive, fits)
]

-- Whatever the file and the environment hold, a configuration that is loaded has limits, with at
-- least one entry and a size of at least one byte that is a `u64`.
pub load-IsUsable :
    (from_toml : Text → Option Config) (file : FileState) (entries size : Option Text)
    (config : Config)
    → load from_toml file entries size ≡ ok config
    → (l : Limits) × (limits config ≡ ok l) × IsUsable l
unfolding load
load-IsUsable from_toml file entries size config h =
    let (read, _, h') = and_then-eq-ok (read_file from_toml file) _ h in
    let (overridden, _, h'') = and_then-eq-ok (override_entries entries read) _ h' in
    let (l, valid, same) = and_then-eq-ok (limits (override_size size overridden)) _ h'' in
    let chosen = subst (λ c. limits c ≡ ok l) (ok-injective same) valid in
    (l, chosen, limits-IsUsable config l chosen)

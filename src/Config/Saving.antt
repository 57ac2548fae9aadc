-- ===== src/Config/Saving.antt =====
-- `save_to_path` of src/common/config.rs: the steps on the file system, any of which may fail.
use mimeclip.Base.{
  ℕ, zero, suc, ◌≡◌, refl, false, Option, none, some, List, [], ◌∷◌, Result, ok, err, and_then,
  Result-cases, inl, inr, if◌then◌else◌,
}
use mimeclip.Base.Bytes.{Text, Bytes, text}
use mimeclip.Base.Paths.{FilePath, parse_path, join, with_extension, parent, path_eq, path_eq_refl}
use mimeclip.Config.{Config, ConfigError, Limits, limits}

-- The contents of the files, by their paths.
abbrev pub Files : Type 0
Files = FilePath → Option Bytes

unfoldable pub put : FilePath → Option Bytes → Files → Files
put p content files q = if path_eq p q then content else files q

pub data Step : Type 0 where
  create_dir_all : FilePath → Step
  restrict_directory : FilePath → Step
  write : FilePath → Bytes → Step
  restrict_file : FilePath → Step
  rename : FilePath → FilePath → Step
  -- the serialization, where it fails
  refuse : Step

-- What a step does to the files where the file system lets it; a rename is atomic.
unfoldable pub apply : Step → Files → Option Files
apply (create_dir_all p) files = some files
apply (restrict_directory p) files = some files
apply (write p content) files = some (put p (some content) files)
apply (restrict_file p) files = some files
apply (rename p q) files = some (put p none (put q (files p) files))
apply refuse files = none

-- A write that fails may leave anything behind, another step nothing.
unfoldable pub break : Option Bytes → Step → Files → Files
break left_over (write p content) files = put p left_over files
break left_over (create_dir_all p) files = files
break left_over (restrict_directory p) files = files
break left_over (restrict_file p) files = files
break left_over (rename p q) files = files
break left_over refuse files = files

pub data SaveError : Type 0 where
  invalid_config : ConfigError → SaveError
  unresolved_link : SaveError
  no_parent : SaveError
  step_failed : Step → SaveError

-- How a save ends, and the files that it leaves
abbrev pub Saved : Type 0
Saved = Result SaveError (Unit {0}) × Files

-- The first `good` steps succeed and the next one fails.
unfoldable pub run : ℕ → Option Bytes → List Step → Files → Saved
run good left_over [] files = (ok tt, files)
run zero left_over (s ∷ steps) files = (err (step_failed s), break left_over s files)
run (suc good) left_over (s ∷ steps) files = elim (apply s files) [
  | none ↦ (err (step_failed s), files)
  | some files' ↦ run good left_over steps files'
]

-- `config_path`, from XDG_CONFIG_HOME and HOME
unfoldable pub config_path : Option Text → Option Text → FilePath
config_path (some xdg) home = join (parse_path xdg) (text "mimeclip" ∷ text "config.toml" ∷ [])
config_path none (some home) =
    join (parse_path home) (text ".config" ∷ text "mimeclip" ∷ text "config.toml" ∷ [])
config_path none none = join (parse_path (text "/tmp")) (text "mimeclip" ∷ text "config.toml" ∷ [])

-- The path that is written: that of the configuration, or what it links to.
pub data Link : Type 0 where
  no_link : Link
  dangling : Link
  links_to : FilePath → Link

unfoldable pub resolve : Link → FilePath → Result SaveError FilePath
resolve no_link path = ok path
resolve dangling path = err unresolved_link
resolve (links_to target) path = ok target

unfoldable pub from_option {ℓ} : {A : Type ℓ} → SaveError → Option A → Result SaveError A
from_option e none = err e
from_option e (some a) = ok a

-- `path.with_extension("toml.tmp")`
unfoldable pub temporary : FilePath → FilePath
temporary path = with_extension path (text "toml.tmp")

-- The steps that write the contents, if there are any.
unfoldable pub replace : FilePath → Option Bytes → List Step
replace path none = refuse ∷ []
replace path (some contents) =
    write (temporary path) contents
    ∷ restrict_file (temporary path)
    ∷ rename (temporary path) path
    ∷ []

unfoldable pub steps_for : FilePath → Option Bytes → FilePath → List Step
steps_for path contents directory =
    create_dir_all directory ∷ restrict_directory directory ∷ replace path contents

unfoldable pub checked : Result ConfigError Limits → Result SaveError Limits
checked (ok l) = ok l
checked (err e) = err (invalid_config e)

unfoldable pub run_plan : ℕ → Option Bytes → Result SaveError (List Step) → Files → Saved
run_plan good left_over (ok steps) files = run good left_over steps files
run_plan good left_over (err e) files = (err e, files)

-- `toml::to_string_pretty` is that of the crate `toml`.
module _ (to_toml : Config → Option Text) where
  -- What `save_to_path` does on the file system, or why it does not start.
  unfoldable pub plan : Config → Link → FilePath → Result SaveError (List Step)
  plan config link path = and_then (checked (limits config)) (λ _.
      and_then (resolve link path) (λ target.
        and_then (from_option no_parent (parent target))
          (λ directory. ok (steps_for target (to_toml config) directory))))

  unfoldable pub save_to_path : Config → Link → FilePath → ℕ → Option Bytes → Files → Saved
  save_to_path config link path good left_over files =
      run_plan good left_over (plan config link path) files

-- What the file at `target` holds after a save: all of the new contents if it has succeeded, and
-- what it held before if it has not.
abbrev pub IsAtomic : FilePath → Option Bytes → Files → Saved → Type 0
IsAtomic target contents files (ok _, after) = after target ≡ contents
IsAtomic target contents files (err e, after) = after target ≡ files target

run-IsAtomic :
    (good : ℕ) (left_over : Option Bytes) (target directory : FilePath) (contents : Option Bytes)
    (files : Files)
    → path_eq (temporary target) target ≡ false
    → IsAtomic target contents files
        (run good left_over (steps_for target contents directory) files)
unfolding run steps_for replace apply break put
run-IsAtomic zero left_over target directory contents files apart = refl
run-IsAtomic (suc zero) left_over target directory contents files apart = refl
run-IsAtomic (suc (suc zero)) left_over target directory none files apart = refl
run-IsAtomic (suc (suc zero)) left_over target directory (some c) files apart = rw apart refl
run-IsAtomic (suc (suc (suc good))) left_over target directory none files apart = refl
run-IsAtomic (suc (suc (suc zero))) left_over target directory (some c) files apart = rw apart refl
run-IsAtomic (suc (suc (suc (suc zero)))) left_over target directory (some c) files apart =
    rw apart refl
run-IsAtomic (suc (suc (suc (suc (suc good))))) left_over target directory (some c) files apart =
    rw (apart, path_eq_refl target, path_eq_refl (temporary target)) refl

run_plan-IsAtomic :
    (good : ℕ) (left_over : Option Bytes) (target : FilePath) (contents : Option Bytes)
    (files : Files) (directory : Option FilePath)
    → path_eq (temporary target) target ≡ false
    → IsAtomic target contents files (
        run_plan good left_over
          (and_then (from_option no_parent directory) (λ d. ok (steps_for target contents d)))
          files)
unfolding run_plan from_option
run_plan-IsAtomic good left_over target contents files none apart = refl
run_plan-IsAtomic good left_over target contents files (some d) apart =
    run-IsAtomic good left_over target d contents files apart

-- Wherever a save stops, the file that the configuration's path leads to through a link holds what
-- it held before, or all of the new contents where the save has succeeded; what a failed write
-- leaves is never in its place. The temporary file has to be another one.
pub save_to_path-IsAtomic :
    (to_toml : Config → Option Text) (config : Config) (link : Link) (path target : FilePath)
    (good : ℕ) (left_over : Option Bytes) (files : Files)
    → resolve link path ≡ ok target
    → path_eq (temporary target) target ≡ false
    → IsAtomic target
        (to_toml config)
        files
        (save_to_path to_toml config link path good left_over files)
unfolding save_to_path plan checked run_plan
save_to_path-IsAtomic to_toml config link path target good left_over files leads apart =
    elim (Result-cases (limits config)) [
      | inl (e, bad) ↦ rw bad refl
      | inr (l, fine) ↦
          rw (fine, leads)
            (run_plan-IsAtomic good left_over target (to_toml config) files (parent target) apart)
    ]

-- ===== src/Database/Open/Permissions.antt =====
-- The permissions of the files of the database of src/common/db.rs.
use mimeclip.Base.{
  ℕ, ◌≡◌, refl, ◌⊎◌, inl, inr, Bool, Bool-cases, true, false, Option, none, some, List, [], ◌∷◌,
  ◌++◌, Result, ok, err,
}
use mimeclip.Base.Bytes.{Text, text, text_eq, text_eq_refl}
use mimeclip.Config.{Limits}
use mimeclip.Database.{DbError, Action, pure, ◌>>=◌, continue}
use mimeclip.Database.Open.{
  Disk, Opened, finish, attempt_step, step, set_mode, restrict_existing, restrict_file,
  restrict_database_permissions, open_file, entries_column_exists,
}

-- There is no such file, or only its owner reads and writes it.
abbrev pub IsPrivate : Text → Disk → Type 0
IsPrivate path d = (d.modes path ≡ none) ⊎ (d.modes path ≡ some 0o600)

-- Where `m` succeeds from `P`, it ends in `Q`.
record Ends {A : Type 0} (P Q : Disk → Type 0) (m : Action DbError Disk A) : Type 0 where
  at : (d : Disk) → P d → (a : A) → (m d).0 ≡ ok a → Q (m d).1

module _ {A B : Type 0} (P Q R : Disk → Type 0) where
  continue-ends :
      (r : Result DbError A) (f : A → Action DbError Disk B) (d : Disk)
      → ((a : A) → r ≡ ok a → Q d)
      → ((a : A) → Ends Q R (f a))
      → (b : B) → (continue r f d).0 ≡ ok b
      → R (continue r f d).1
  continue-ends (ok a) f d q k b h = (k a).at d (q a refl) b h
  continue-ends (err e) f d q k b h = cc

  Ends-bind :
      (m : Action DbError Disk A) (f : A → Action DbError Disk B)
      → Ends P Q m
      → ((a : A) → Ends Q R (f a))
      → Ends P R (m >>= f)
  unfolding ◌>>=◌
  Ends-bind m f km kf = record {
    at = λ d p b h. continue-ends (m d).0 f (m d).1 (km.at d p) kf b h;
  }

abbrev Anything : Disk → Type 0
Anything d = Unit

Ends-Anything : {A : Type 0} (m : Action DbError Disk A) → Ends Anything Anything m
Ends-Anything m = record { at = λ d p a h. tt }

module _ (P Q : Disk → Type 0) (effect : Disk → Disk)
    (sends : (d : Disk) (faults : List Bool)
      → P d
      → Q (effect (record d { faults = faults }))) where
  attempt-ends :
      (faults : List Bool) (d : Disk)
      → P d
      → (a : Unit {0}) → (attempt_step faults (λ x. ok (effect x)) d).0 ≡ ok a
      → Q (attempt_step faults (λ x. ok (effect x)) d).1
  unfolding attempt_step finish
  attempt-ends [] d p a h = sends d d.faults p
  attempt-ends (true ∷ faults) d p a h = cc
  attempt-ends (false ∷ faults) d p a h = sends d faults p

  Ends-step : Ends P Q (step (λ x. ok (effect x)))
  unfolding step
  Ends-step = record { at = λ d p a h. attempt-ends d.faults d p a h }

set_mode-same :
    (path : Text) (modes : Text → Option ℕ) → set_mode path 0o600 modes path ≡ some 0o600
unfolding set_mode
set_mode-same path modes = rw (text_eq_refl path) refl

set_mode-keeps :
    (path q : Text) (modes : Text → Option ℕ)
    → (modes q ≡ none) ⊎ (modes q ≡ some 0o600)
    → (set_mode path 0o600 modes q ≡ none) ⊎ (set_mode path 0o600 modes q ≡ some 0o600)
unfolding set_mode
set_mode-keeps path q modes p = elim (Bool-cases (text_eq path q)) [
  | inl e ↦ inr (rw e refl)
  | inr e ↦ rw e p
]

-- The file is private after that, and one that was private before stays so.
restrict_existing-IsPrivate :
    (path : Text) (mode : Option ℕ)
    → Ends (λ d. d.modes path ≡ mode) (IsPrivate path) (restrict_existing path mode)
unfolding restrict_existing pure
restrict_existing-IsPrivate path none = record { at = λ d p a h. inl p }
restrict_existing-IsPrivate path (some mode) =
    Ends-step _ _ _ (λ d faults p. inr (set_mode-same path d.modes))

restrict_existing-keeps :
    (path q : Text) (mode : Option ℕ)
    → Ends (IsPrivate q) (IsPrivate q) (restrict_existing path mode)
unfolding restrict_existing pure
restrict_existing-keeps path q none = record { at = λ d p a h. p }
restrict_existing-keeps path q (some mode) =
    Ends-step _ _ _ (λ d faults p. set_mode-keeps path q d.modes p)

restrict_file-IsPrivate : (path : Text) → Ends Anything (IsPrivate path) (restrict_file path)
unfolding restrict_file
restrict_file-IsPrivate path = record {
  at = λ d p a h. (restrict_existing-IsPrivate path (d.modes path)).at d refl a h;
}

restrict_file-keeps : (path q : Text) → Ends (IsPrivate q) (IsPrivate q) (restrict_file path)
unfolding restrict_file
restrict_file-keeps path q = record {
  at = λ d p a h. (restrict_existing-keeps path q (d.modes path)).at d p a h;
}

-- The three files of the database
pub record IsRestricted (path : Text) (d : Disk) : Type 0 where
  pub database : IsPrivate path d
  pub wal : IsPrivate (path ++ text "-wal") d
  pub shm : IsPrivate (path ++ text "-shm") d

restrict-IsRestricted :
    (path : Text) → Ends Anything (IsRestricted path) (restrict_database_permissions path)
unfolding restrict_database_permissions
restrict-IsRestricted path =
    let (wal, shm) : Text × Text = (path ++ text "-wal", path ++ text "-shm") in
    Ends-bind _ (IsPrivate path) _ _ _ (restrict_file-IsPrivate path) (λ _.
      Ends-bind _ (λ d. IsPrivate path d × IsPrivate wal d) _ _ _
        (record {
          at = λ d p a h. (
            (restrict_file-keeps wal path).at d p a h,
            (restrict_file-IsPrivate wal).at d tt a h,
          );
        })
        (λ _. record {
          at = λ d p a h. record {
            database = (restrict_file-keeps shm path).at d p.0 a h;
            wal = (restrict_file-keeps shm wal).at d p.1 a h;
            shm = (restrict_file-IsPrivate shm).at d tt a h;
          };
        }))

Ends-column :
    (path name : Text) → Ends (IsRestricted path) (IsRestricted path) (entries_column_exists name)
unfolding entries_column_exists pure
Ends-column path name =
    Ends-bind _ _ _ _ _
      (Ends-step (IsRestricted path) (IsRestricted path) (λ d. d)
        (λ d faults p. record { database = p.database; wal = p.wal; shm = p.shm }))
      (λ _. record { at = λ d p a h. p })

Ends-open_file :
    (sqlite_files : (Text → Option ℕ) → Text → Option ℕ) (path : Text) (loaded : Option Limits)
    (now later : Text)
    → Ends Anything (IsRestricted path) (open_file sqlite_files path loaded now later)
unfolding open_file pure
Ends-open_file sqlite_files path loaded now later = Ends-bind _ _ _ _ _ (Ends-Anything _) (λ _.
    Ends-bind _ _ _ _ _ (Ends-Anything _) (λ _. Ends-bind _ _ _ _ _ (Ends-Anything _) (λ _.
      Ends-bind _ _ _ _ _ (Ends-Anything _) (λ _. Ends-bind _ _ _ _ _ (Ends-Anything _) (λ _.
        Ends-bind _ _ _ _ _ (restrict-IsRestricted path)
          (λ _. Ends-bind _ _ _ _ _ (Ends-column path _) (λ _. record { at = λ d p a h. p })))))))

-- After an opening that succeeds, each of the database's file, its log and the log's index is
-- absent or read and written by its owner alone, whatever files SQLite makes meanwhile and whatever
-- modes it gives them.
pub open_file-IsRestricted :
    (sqlite_files : (Text → Option ℕ) → Text → Option ℕ) (path : Text) (loaded : Option Limits)
    (now later : Text) (d : Disk) (opened : Opened)
    → (open_file sqlite_files path loaded now later d).0 ≡ ok opened
    → IsRestricted path (open_file sqlite_files path loaded now later d).1
open_file-IsRestricted sqlite_files path loaded now later d opened h =
    (Ends-open_file sqlite_files path loaded now later).at d tt opened h

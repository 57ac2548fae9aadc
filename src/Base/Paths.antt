-- ===== src/Base/Paths.antt =====
-- `std::path`: a path is its components and whether it starts at the root.
use Prim.Native.Nat.{ℕ}
use mathlib.Core.Path.{◌≡◌, refl}
use mathlib.Core.Bool.{Bool, true, false, not, ◌&&◌, ◌||◌}
use mathlib.Core.Option
use mathlib.Core.Option.{Option, none, some}
use mathlib.Core.List.{List, [], ◌∷◌, ◌++◌, reverse}
use native.Mathlib.Omega.{arith}
use mimeclip.Base.Tests.{◌==◌, if◌then◌else◌}
use mimeclip.Base.Lists.{keep}
use mimeclip.Base.Bytes.{Text, text, text_eq, text_eq_refl, starts_with}

pub record FilePath : Type 0 where
  pub rooted : Bool
  pub components : List Text

unfoldable pub push_char : ℕ → ℕ → List Text → List Text
push_char sep c [] = (c ∷ []) ∷ []
push_char sep c (w ∷ ws) = if c == sep then [] ∷ w ∷ ws else (c ∷ w) ∷ ws

-- The parts between the separators
unfoldable pub split_on : ℕ → Text → List Text
split_on sep [] = [] ∷ []
split_on sep (c ∷ s) = push_char sep c (split_on sep s)

-- Neither the nothing between two slashes nor `.`
unfoldable pub is_component : Text → Bool
is_component w = not (text_eq w [] || text_eq w (text "."))

unfoldable pub parse_path : Text → FilePath
parse_path s = record {
  rooted = starts_with s (text "/");
  components = keep is_component (split_on b'/' s);
}

-- `base.join(path)`, for a relative path
unfoldable pub join : FilePath → List Text → FilePath
join base rest = record base { components = base.components ++ rest }

unfoldable pub last {ℓ} : {A : Type ℓ} → List A → Option A
last [] = none
last (x ∷ []) = some x
last (x ∷ y ∷ xs) = last (y ∷ xs)

unfoldable pub init {ℓ} : {A : Type ℓ} → List A → List A
init [] = []
init (x ∷ []) = []
init (x ∷ y ∷ xs) = x ∷ init (y ∷ xs)

-- `path.file_name()`
unfoldable pub name_of : Option Text → Option Text
name_of none = none
name_of (some name) = if text_eq name (text "..") then none else some name

unfoldable pub file_name : FilePath → Option Text
file_name p = name_of (last p.components)

-- What stands before and after the first dot, if there is one; the name is reversed, so the dot
-- is the last one.
unfoldable pub split_dot : Text → Option (Text × Text)
split_dot [] = none
split_dot (c ∷ s) =
    let rest = split_dot s in
    if c == b'.' then some ([], s) else Option.map (λ r. (c ∷ r.0, r.1)) rest

-- The stem and the extension; a dot at the start is part of the stem.
unfoldable pub stem_and_extension : Text → Text × Option Text
stem_and_extension name = elim (split_dot (reverse name)) [
  | none ↦ (name, none)
  | some (extension, []) ↦ (name, none)
  | some (extension, c ∷ stem) ↦ (reverse (c ∷ stem), some (reverse extension))
]

-- `path.extension()`
unfoldable pub extension : FilePath → Option Text
unfolding Option.bind
extension p = Option.bind (file_name p) (λ name. (stem_and_extension name).1)

unfoldable pub replace_name : FilePath → Option Text → Text → FilePath
replace_name p none ext = p
replace_name p (some name) ext = record p {
  components = init p.components ++ ((stem_and_extension name).0 ++ b'.' ∷ ext) ∷ [];
}

-- `path.with_extension(ext)`
unfoldable pub with_extension : FilePath → Text → FilePath
with_extension p ext = replace_name p (file_name p) ext

-- `path.parent()`
unfoldable pub parent : FilePath → Option FilePath
parent p = elim p.components [ [] ↦ none | c ∷ cs ↦ some (record p { components = init (c ∷ cs) }) ]

unfoldable pub texts_eq : List Text → List Text → Bool
texts_eq [] [] = true
texts_eq [] (b ∷ bs) = false
texts_eq (a ∷ as') [] = false
texts_eq (a ∷ as') (b ∷ bs) = text_eq a b && texts_eq as' bs

unfoldable pub path_eq : FilePath → FilePath → Bool
path_eq p q = (if p.rooted then q.rooted else not q.rooted) && texts_eq p.components q.components

texts_eq_refl : (a : List Text) → texts_eq a a ≡ true
unfolding texts_eq
texts_eq_refl [] = refl
texts_eq_refl (a ∷ as') = rw (text_eq_refl a) (texts_eq_refl as')

pub path_eq_refl : (p : FilePath) → path_eq p p ≡ true
unfolding path_eq
path_eq_refl p = rw (texts_eq_refl p.components) (ground arith)

-- ===== src/Base/Deciding.antt =====
-- A Boolean test and the predicate that it decides.
use mathlib.Core.Path.{◌≡◌, refl}
use mathlib.Core.Logic.{◌⊎◌, inl, inr}
use mathlib.Core.Bool.{Bool, true, false, ◌&&◌, ◌||◌}
use mathlib.Core.List.{List, [], ◌∷◌}
use mimeclip.Base.Lists.{any}

abbrev pub Reflects : Type 0 → Bool → Type 0
Reflects P true = P
Reflects P false = ¬ P

pub Reflects-true : (P : Type 0) (b : Bool) → Reflects P b → P → b ≡ true
Reflects-true P true r p = refl
Reflects-true P false r p = absurd (r p)

pub Reflects-false : (P : Type 0) (b : Bool) → Reflects P b → ¬ P → b ≡ false
Reflects-false P true r n = absurd (n r)
Reflects-false P false r n = refl

pub Reflects-or :
    (P Q : Type 0) (a b : Bool) → Reflects P a → Reflects Q b → Reflects (P ⊎ Q) (a || b)
Reflects-or P Q true b p q = inl p
Reflects-or P Q false true p q = inr q
Reflects-or P Q false false p q = λ h. elim h [ inl x ↦ p x | inr y ↦ q y ]

pub Reflects-and :
    (P Q : Type 0) (a b : Bool) → Reflects P a → Reflects Q b → Reflects (P × Q) (a && b)
Reflects-and P Q true true p q = (p, q)
Reflects-and P Q true false p q = λ h. q h.1
Reflects-and P Q false b p q = λ h. p h.0

-- The same test of another predicate
pub Reflects-map : (P Q : Type 0) (b : Bool) → (P → Q) → (Q → P) → Reflects P b → Reflects Q b
Reflects-map P Q true to from r = to r
Reflects-map P Q false to from r = λ q. r (from q)

-- One of the list
abbrev pub Some : {A : Type 0} → (A → Type 0) → List A → Type 0
Some P [] = ⊥
Some P (x ∷ xs) = P x ⊎ Some P xs

pub Reflects-any :
    {A : Type 0} (P : A → Type 0) (test : A → Bool) (xs : List A)
    → ((x : A) → Reflects (P x) (test x))
    → Reflects (Some P xs) (any test xs)
unfolding any
Reflects-any P test [] r = λ h. h
Reflects-any P test (x ∷ xs) r =
    Reflects-or (P x) (Some P xs) (test x) (any test xs) (r x) (Reflects-any P test xs r)

-- ===== src/Base/Sorting.antt =====
-- The stable sort of the standard library, over a test `le` that orders its elements.
use mathlib.Core.Path.{◌≡◌, refl, ◌∙◌}
use mathlib.Core.Bool.{Bool, true, false}
use mathlib.Core.List
use mathlib.Core.List.{List, [], ◌∷◌, Mem, Perm, Permᴰ, Perm-prop}
use mathlib.Core.List.Perm
use mathlib.Core.Logic.{∥∥₁_elim}
use native.Mathlib.Omega.{arith}
use mimeclip.Base.Tests.{if◌then◌else◌}
use mimeclip.Base.Lists.{All}

pub record IsTotalOrder {ℓ} {A : Type ℓ} (le : A → A → Bool) : Type ℓ where
  pub total : (a b : A) → le a b ≡ false → le b a ≡ true
  pub trans : (a b c : A) → le a b ≡ true → le b c ≡ true → le a c ≡ true

module _ {ℓ} {A : Type ℓ} (le : A → A → Bool) where
  unfoldable pub insert : A → List A → List A
  insert x [] = x ∷ []
  insert x (y ∷ ys) = let rest = insert x ys in if le x y then x ∷ y ∷ ys else y ∷ rest

  -- equal elements keep their order
  unfoldable pub sort : List A → List A
  unfolding insert
  sort [] = []
  sort (x ∷ xs) = insert x (sort xs)

  abbrev pub IsBelow : A → List A → Type 0
  IsBelow a = All (λ b. le a b ≡ true)

  abbrev pub IsSorted : List A → Type 0
  IsSorted [] = Unit
  IsSorted (x ∷ xs) = IsBelow x xs × IsSorted xs

  insert-perm : (x : A) (xs : List A) → Perm (insert x xs) (x ∷ xs)
  unfolding insert
  insert-perm x [] = Perm.refl (x ∷ [])
  insert-perm x (y ∷ ys) =
      let moved = Perm.trans (Perm.cons y (insert-perm x ys)) (Perm.swap x y ys) in
      ground (arith, Perm.refl (x ∷ y ∷ ys), moved)

  pub sort-perm : (xs : List A) → Perm (sort xs) xs
  unfolding sort
  sort-perm [] = Perm.refl []
  sort-perm (x ∷ xs) = Perm.trans (insert-perm x (sort xs)) (Perm.cons x (sort-perm xs))

module _ {ℓ} {A : Type ℓ} {le : A → A → Bool} (order : IsTotalOrder le) where
  IsBelow-insert :
      (a x : A) (xs : List A) → le a x ≡ true → IsBelow le a xs → IsBelow le a (insert le x xs)
  unfolding insert
  IsBelow-insert a x [] h below = (h, tt)
  IsBelow-insert a x (y ∷ ys) h below = ground (arith, IsBelow-insert a x ys h below.1)

  IsBelow-trans : (a x : A) (xs : List A) → le a x ≡ true → IsBelow le x xs → IsBelow le a xs
  IsBelow-trans a x [] h below = tt
  IsBelow-trans a x (y ∷ ys) h below = (order.trans a x y h below.0, IsBelow-trans a x ys h below.1)

  insert-IsSorted : (x : A) (xs : List A) → IsSorted le xs → IsSorted le (insert le x xs)
  unfolding insert
  insert-IsSorted x [] s = (tt, tt)
  insert-IsSorted x (y ∷ ys) s = ground (
    arith,
    insert-IsSorted x ys s.1,
    order.total x y,
    IsBelow-insert y x ys,
    IsBelow-trans x y ys,
  )

  pub sort-IsSorted : (xs : List A) → IsSorted le (sort le xs)
  unfolding sort
  sort-IsSorted [] = tt
  sort-IsSorted (x ∷ xs) = insert-IsSorted x (sort le xs) (sort-IsSorted xs)

  module _ (antisymm : (a b : A) → le a b ≡ true → le b a ≡ true → a ≡ b) where
    insert_comm :
        (x y : A) (zs : List A) → insert le x (insert le y zs) ≡ insert le y (insert le x zs)
    unfolding insert
    insert_comm x y [] = ground (arith, antisymm x y, order.total x y)
    insert_comm x y (z ∷ zs) = ground (
      arith,
      insert_comm x y zs,
      antisymm x y,
      order.total x y,
      order.total x z,
      order.total y z,
      order.trans x y z,
      order.trans y x z,
    )

    sort-eq_of_Permᴰ : {xs ys : List A} → Permᴰ xs ys → sort le xs ≡ sort le ys
    unfolding sort
    sort-eq_of_Permᴰ Permᴰ.nil = refl
    sort-eq_of_Permᴰ (Permᴰ.cons {a = x} e p) = rw (e, sort-eq_of_Permᴰ p)
    sort-eq_of_Permᴰ (Permᴰ.swap {a = x} {b = y} {l = l} e f) =
        rw (← e, ← f) (insert_comm x y (sort le l))
    sort-eq_of_Permᴰ (Permᴰ.trans p q) = sort-eq_of_Permᴰ p ∙ sort-eq_of_Permᴰ q

    -- One sorted list for all orders of the input.
    pub sort-eq_of_perm : IsSet A → {xs ys : List A} → Perm xs ys → sort le xs ≡ sort le ys
    sort-eq_of_perm A_set p = ∥∥₁_elim p (List.is_set A_set _ _) sort-eq_of_Permᴰ

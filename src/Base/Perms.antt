-- ===== src/Base/Perms.antt =====
-- Lists up to the order of their elements.
use mathlib.Core.HLevel.{×_prop, Unit-prop}
use mathlib.Core.List.{
  List, [], ◌∷◌, ◌++◌, Mem, Perm, Perm-prop, Permᴰ, mem-cons_self, mem-cons_of_mem,
}
use mathlib.Core.List.Perm
use mathlib.Core.Logic.{∥∥₁_elim}
use mathlib.Core.Path.{◌≡◌, refl, ap, ◌∙◌}
use mathlib.Core.Logic.{inl, inr}
use mathlib.Core.Bool.{Bool, true, false}
use native.Mathlib.Nat.{ℕ_set}
use Prim.Native.Nat.{suc}
use native.Mathlib.Omega.{arith}
use mimeclip.Base.Tests.{Bool-cases}
use mimeclip.Base.Lists.{All, length, keep}

module _ {ℓ} {A : Type ℓ} where
  keep-permᴰ : (test : A → Bool) {xs ys : List A} → Permᴰ xs ys → Perm (keep test xs) (keep test ys)
  unfolding keep
  keep-permᴰ test Permᴰ.nil = Perm.refl []
  keep-permᴰ test (Permᴰ.cons {a = x} e p) = rw (← e) (elim (Bool-cases (test x)) [
    | inl kept ↦ rw kept (Perm.cons x (keep-permᴰ test p))
    | inr gone ↦ rw gone (keep-permᴰ test p)
  ])
  keep-permᴰ test (Permᴰ.swap {a = x} {b = y} {l = l} e f) =
      rw (← e, ← f)
        (elim (Bool-cases (test x)) [
          | inl kx ↦ elim (Bool-cases (test y)) [
            | inl ky ↦ rw (kx, ky) (Perm.swap y x (keep test l))
            | inr gy ↦ rw (kx, gy) (Perm.refl (x ∷ keep test l))
          ]
          | inr gx ↦ rw gx (Perm.refl _)
        ])
  keep-permᴰ test (Permᴰ.trans p q) = Perm.trans (keep-permᴰ test p) (keep-permᴰ test q)

  pub keep-perm :
      (test : A → Bool) {xs ys : List A} → Perm xs ys → Perm (keep test xs) (keep test ys)
  keep-perm test p = ∥∥₁_elim p Perm-prop (keep-permᴰ test)

  pub keep-append :
      (test : A → Bool) (xs ys : List A) → keep test (xs ++ ys) ≡ keep test xs ++ keep test ys
  unfolding keep
  keep-append test [] ys = refl
  keep-append test (x ∷ xs) ys = ground (arith, keep-append test xs ys)

  pub keep-All : (test : A → Bool) (xs : List A) → All (λ x. test x ≡ true) xs → keep test xs ≡ xs
  unfolding keep
  keep-All test [] h = refl
  keep-All test (x ∷ xs) h = rw (h.0, keep-All test xs h.1)

  pub keep-none : (test : A → Bool) (xs : List A) → All (λ x. test x ≡ false) xs → keep test xs ≡ []
  unfolding keep
  keep-none test [] h = refl
  keep-none test (x ∷ xs) h = rw (h.0, keep-none test xs h.1)

  pub All-of_mem {κ} : (P : A → Type κ) (xs : List A) → ((x : A) → Mem x xs → P x) → All P xs
  All-of_mem P [] h = tt
  All-of_mem P (x ∷ xs) h = (h x mem-cons_self, All-of_mem P xs (λ y m. h y (mem-cons_of_mem x m)))

  length-permᴰ : {xs ys : List A} → Permᴰ xs ys → length xs ≡ length ys
  length-permᴰ Permᴰ.nil = refl
  length-permᴰ (Permᴰ.cons e p) = ap suc (length-permᴰ p)
  length-permᴰ (Permᴰ.swap e f) = refl
  length-permᴰ (Permᴰ.trans p q) = length-permᴰ p ∙ length-permᴰ q

  pub length-perm : {xs ys : List A} → Perm xs ys → length xs ≡ length ys
  length-perm p = ∥∥₁_elim p (ℕ_set _ _) length-permᴰ

module _ {ℓ κ} {A : Type ℓ} (P : A → Type κ) (P_prop : (a : A) → IsProp (P a)) where
  All-prop : (xs : List A) → IsProp (All P xs)
  All-prop [] = Unit-prop
  All-prop (x ∷ xs) = ×_prop (P_prop x) (All-prop xs)

  All-permᴰ : {xs ys : List A} → Permᴰ xs ys → All P xs → All P ys
  All-permᴰ Permᴰ.nil h = h
  All-permᴰ (Permᴰ.cons e p) h = (rw (← e) h.0, All-permᴰ p h.1)
  All-permᴰ (Permᴰ.swap e f) h = (rw (← f) h.1.0, (rw (← e) h.0, h.1.1))
  All-permᴰ (Permᴰ.trans p q) h = All-permᴰ q (All-permᴰ p h)

  pub All-perm : {xs ys : List A} → Perm xs ys → All P xs → All P ys
  All-perm {ys} p h = ∥∥₁_elim p (All-prop ys) (λ q. All-permᴰ q h)

-- ===== src/Payloads/Smallest.antt =====
-- The smallest variant of a MIME type, as `normalize_payloads` computes it and as a plain minimum.
use mathlib.Core.Logic.{∥∥₁_elim}
use mathlib.Core.List.{Permᴰ}
use native.Mathlib.Nat.{ℕ_set}
use mathlib.Core.List
use mimeclip.Base.{
  ◌≡◌, refl, sym, ◌∙◌, ap, Bool-cases, inl, inr, true, Option, none, some, List, [], ◌∷◌, ◌++◌,
  Perm, any, arith, if◌then◌else◌,
}
use mimeclip.Base.Bytes.{
  Text, Bytes, text_eq, text_le, text_eq_iff, text_le_total, text_le_trans, text_le_antisymm,
}
use mimeclip.Base.Sorting.{insert, sort}
use mimeclip.Payloads.{
  Payload, Groups, push_group, group_payloads, push_unique, remove_first, pick_variant,
}

abbrev pub min_bytes : Bytes → Bytes → Bytes
min_bytes a b = if text_le a b then a else b

-- `none` is no variant at all.
abbrev pub min_opt : Option Bytes → Option Bytes → Option Bytes
min_opt none o = o
min_opt (some a) none = some a
min_opt (some a) (some b) = some (min_bytes a b)

min_bytes_comm : (a b : Bytes) → min_bytes a b ≡ min_bytes b a
min_bytes_comm a b = ground (arith, text_le_total a b, text_le_total b a, text_le_antisymm a b)

min_bytes_assoc : (a b c : Bytes) → min_bytes (min_bytes a b) c ≡ min_bytes a (min_bytes b c)
min_bytes_assoc a b c = ground (
  arith,
  text_le_total a b,
  text_le_total b c,
  text_le_total a c,
  text_le_trans a b c,
  text_le_trans c b a,
  text_le_antisymm a c,
)

pub min_opt_comm : (a b : Option Bytes) → min_opt a b ≡ min_opt b a
min_opt_comm none none = refl
min_opt_comm none (some b) = refl
min_opt_comm (some a) none = refl
min_opt_comm (some a) (some b) = ap some (min_bytes_comm a b)

min_opt_assoc : (a b c : Option Bytes) → min_opt (min_opt a b) c ≡ min_opt a (min_opt b c)
min_opt_assoc none b c = refl
min_opt_assoc (some a) none c = refl
min_opt_assoc (some a) (some b) none = refl
min_opt_assoc (some a) (some b) (some c) = ap some (min_bytes_assoc a b c)

min_opt_left_comm : (a b c : Option Bytes) → min_opt a (min_opt b c) ≡ min_opt b (min_opt a c)
min_opt_left_comm a b c =
    sym (min_opt_assoc a b c) ∙ ap (λ o. min_opt o c) (min_opt_comm a b) ∙ min_opt_assoc b a c

min_opt_idem :
    (d : Bytes) (o : Option Bytes) → min_opt (some d) (min_opt (some d) o) ≡ min_opt (some d) o
min_opt_idem d none = ap some (ground arith)
min_opt_idem d (some e) = ap some (ground arith)

-- The lexicographically smallest of some byte strings.
abbrev pub least : List Bytes → Option Bytes
least [] = none
least (d ∷ ds) = min_opt (some d) (least ds)

-- The smallest payload of a MIME type among those that were read.
abbrev pub smallest : Text → List Payload → Option Bytes
smallest m [] = none
smallest m ((k, d) ∷ payloads) =
    if text_eq k m then min_opt (some d) (smallest m payloads) else smallest m payloads

abbrev pub least_in : Text → Groups → Option Bytes
least_in m [] = none
least_in m ((k, variants) ∷ rest) =
    if text_eq k m then min_opt (least variants) (least_in m rest) else least_in m rest

least-append : (xs ys : List Bytes) → least (xs ++ ys) ≡ min_opt (least xs) (least ys)
least-append [] ys = refl
least-append (x ∷ xs) ys =
    ap (min_opt (some x)) (least-append xs ys) ∙ sym (min_opt_assoc (some x) (least xs) (least ys))

-- A variant that is there already does not change the minimum.
least_absorbs :
    (xs : List Bytes) (d : Bytes)
    → any (λ existing. text_eq existing d) xs ≡ true
    → min_opt (least xs) (some d) ≡ least xs
unfolding any
least_absorbs [] d h = cc
least_absorbs (x ∷ xs) d h =
    min_opt_assoc (some x) (least xs) (some d) ∙ elim (Bool-cases (text_eq x d)) [
      | inl same ↦
          rw ((text_eq_iff x d).0 same, min_opt_comm (least xs) (some d))
            (min_opt_idem d (least xs))
      | inr differ ↦ ap (min_opt (some x)) (least_absorbs xs d (ground arith))
    ]

least-push_unique :
    (unique variants : List Bytes)
    → least (push_unique unique variants) ≡ min_opt (least unique) (least variants)
unfolding push_unique
least-push_unique unique [] = min_opt_comm none (least unique)
least-push_unique unique (d ∷ variants) =
    elim (Bool-cases (any (λ existing. text_eq existing d) unique)) [
      | inl old ↦ rw old (
          least-push_unique unique variants
          ∙ ap (λ o. min_opt o (least variants)) (sym (least_absorbs unique d old))
          ∙ min_opt_assoc (least unique) (some d) (least variants))
      | inr new ↦ rw new (
          least-push_unique (unique ++ d ∷ []) variants
          ∙ ap (λ o. min_opt o (least variants)) (least-append unique (d ∷ []))
          ∙ min_opt_assoc (least unique) (some d) (least variants))
    ]

remove_first-insert :
    (x : Bytes) (xs : List Bytes)
    → remove_first (insert text_le x xs) ≡ min_opt (some x) (remove_first xs)
unfolding remove_first insert
remove_first-insert x [] = refl
remove_first-insert x (y ∷ ys) = ground arith

remove_first-sort : (xs : List Bytes) → remove_first (sort text_le xs) ≡ least xs
unfolding sort
remove_first-sort [] = unfold remove_first in refl
remove_first-sort (x ∷ xs) =
    remove_first-insert x (sort text_le xs) ∙ ap (min_opt (some x)) (remove_first-sort xs)

-- The variant that is kept is the minimum.
pub pick_variant-eq-least : (variants : List Bytes) → pick_variant variants ≡ least variants
unfolding pick_variant
pick_variant-eq-least variants =
    remove_first-sort (push_unique [] variants) ∙ least-push_unique [] variants

least_in-push_group :
    (m k : Text) (d : Bytes) (grouped : Groups)
    → least_in m (push_group k d grouped)
      ≡ (if text_eq k m then min_opt (some d) (least_in m grouped) else least_in m grouped)
unfolding push_group
least_in-push_group m k d [] = refl
least_in-push_group m k d ((j, variants) ∷ rest) = ground (
  arith,
  text_eq_iff k j,
  text_eq_iff k m,
  text_eq_iff j m,
  least-append variants (d ∷ []),
  min_opt_comm (least variants) (some d),
  min_opt_assoc (some d) (least variants) (least_in m rest),
  min_opt_left_comm (some d) (least variants) (least_in m rest),
  least_in-push_group m k d rest,
)

pub least_in-group_payloads :
    (m : Text) (grouped : Groups) (payloads : List Payload)
    → least_in m (group_payloads grouped payloads)
      ≡ min_opt (smallest m payloads) (least_in m grouped)
unfolding group_payloads
least_in-group_payloads m grouped [] = refl
least_in-group_payloads m grouped ((k, d) ∷ payloads) =
    least_in-group_payloads m (push_group k d grouped) payloads ∙ grouped_once
  where
    grouped_once :
        min_opt (smallest m payloads) (least_in m (push_group k d grouped))
        ≡ min_opt (smallest m ((k, d) ∷ payloads)) (least_in m grouped)
    grouped_once = elim (Bool-cases (text_eq k m)) [
      | inl same ↦
          rw (least_in-push_group m k d grouped, same)
            (min_opt_left_comm (smallest m payloads) (some d) (least_in m grouped)
              ∙ sym (min_opt_assoc (some d) (smallest m payloads) (least_in m grouped)))
      | inr differ ↦ rw (least_in-push_group m k d grouped, differ)
    ]

smallest-eq_of_Permᴰ :
    (m : Text) {xs ys : List Payload} → Permᴰ xs ys → smallest m xs ≡ smallest m ys
smallest-eq_of_Permᴰ m Permᴰ.nil = refl
smallest-eq_of_Permᴰ m (Permᴰ.cons e p) = rw (e, smallest-eq_of_Permᴰ m p)
smallest-eq_of_Permᴰ m (Permᴰ.swap {a = x} {b = y} {l = l} e f) =
    rw (← e, ← f) (ground (arith, min_opt_left_comm (some x.1) (some y.1) (smallest m l)))
smallest-eq_of_Permᴰ m (Permᴰ.trans p q) = smallest-eq_of_Permᴰ m p ∙ smallest-eq_of_Permᴰ m q

pub Bytes-set : IsSet Bytes
Bytes-set = List.is_set ℕ_set

pub smallest-eq_of_perm :
    (m : Text) {xs ys : List Payload} → Perm xs ys → smallest m xs ≡ smallest m ys
smallest-eq_of_perm m p = ∥∥₁_elim p (hlevel Bytes-set) (smallest-eq_of_Permᴰ m)

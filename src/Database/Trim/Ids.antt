-- ===== src/Database/Trim/Ids.antt =====
-- Rows are told apart by their ids.
use mathlib.Core.HLevel.{⊥_prop}
use mathlib.Core.List.{Nodup-cons, not-mem-nil, mem-cons, mem-cons_self, mem-cons_of_mem, Nodup-nil}
use mathlib.Core.Logic.Or
use mimeclip.Base.{
  ℕ, ◌≤◌, ◌≡◌, ◌≢◌, refl, sym, subst, true, false, List, [], ◌∷◌, map, Mem, Nodup, All, any, ◌==◌,
  arith,
}
use mimeclip.Database.{EntryRow}
use mimeclip.Database.Valid.{Ascends}

abbrev pub ids : List EntryRow → List ℕ
ids = map (λ r. r.id)

Ascends-not-mem :
    (seq lo n : ℕ) (rows : List EntryRow)
    → n ≤ lo
    → Ascends (λ (r : EntryRow). r.id) seq lo rows
    → ¬ Mem n (ids rows)
Ascends-not-mem seq lo n [] h s = not-mem-nil
Ascends-not-mem seq lo n (r ∷ rows) h s = λ m.
    Or.elim ⊥_prop (mem-cons.0 m) (λ e. omega arith)
      (Ascends-not-mem seq r.id n rows (omega arith) s.1)

-- Ascending ids are distinct.
pub Ascends-Nodup :
    (seq lo : ℕ) (rows : List EntryRow)
    → Ascends (λ (r : EntryRow). r.id) seq lo rows
    → Nodup (ids rows)
Ascends-Nodup seq lo [] s = Nodup-nil
Ascends-Nodup seq lo (r ∷ rows) s =
    Nodup-cons.1
      (Ascends-not-mem seq r.id r.id rows (omega arith) s.1, Ascends-Nodup seq r.id rows s.1)

head_ne : (n : ℕ) (r : EntryRow) (rows : List EntryRow) → ¬ Mem n (ids (r ∷ rows)) → r.id ≢ n
head_ne n r rows h e = h (subst (λ i. Mem n (i ∷ ids rows)) (sym e) mem-cons_self)

test_ne : (a b : ℕ) → a ≢ b → (a == b) ≡ false
test_ne a b h = ground arith

-- A row whose id is elsewhere is none of them.
pub any_id_of_not-mem :
    (n : ℕ) (rows : List EntryRow)
    → ¬ Mem n (ids rows)
    → any (λ (k : EntryRow). k.id == n) rows ≡ false
unfolding any
any_id_of_not-mem n [] h = refl
any_id_of_not-mem n (r ∷ rows) h = ground (
  arith,
  test_ne r.id n (head_ne n r rows h),
  any_id_of_not-mem n rows (λ m. h (mem-cons_of_mem r.id m)),
)

pub any_id_of_mem :
    (n : ℕ) (rows : List EntryRow)
    → Mem n (ids rows)
    → any (λ (k : EntryRow). k.id == n) rows ≡ true
unfolding any
any_id_of_mem n [] h = absurd (not-mem-nil h)
any_id_of_mem n (r ∷ rows) h =
    Or.elim (hlevel) (mem-cons.0 h) (λ e. ground arith)
      (λ m. ground (arith, any_id_of_mem n rows m))

pub not_id-All :
    (n : ℕ) (rows : List EntryRow)
    → ¬ Mem n (ids rows)
    → All (λ (r : EntryRow). (r.id == n) ≡ false) rows
not_id-All n [] h = tt
not_id-All n (r ∷ rows) h =
    (test_ne r.id n (head_ne n r rows h), not_id-All n rows (λ m. h (mem-cons_of_mem r.id m)))

-- ===== src/Database/Trim/Size.antt =====
-- The second half of `trim` in src/common/db.rs: the oldest rows go until the sizes fit.
use mathlib.Core.List.{Nodup-cons}
use mathlib.Core.List.Perm
use mathlib.Core.Logic.{∥∥₁_elim}
use mathlib.Core.List.{Permᴰ}
use native.Mathlib.Nat.{ℕ_set}
use mimeclip.Base.{
  ℕ, ◌+◌, ◌-◌, ◌≤◌, ◌<◌, ◌≡◌, refl, sym, subst, ap, ◌∙◌, Bool-cases, inl, inr, true, false, not,
  List, [], ◌∷◌, ◌++◌, Perm, Nodup, All, keep, ok, ◌==◌, ==_refl, ◌⊎◌, arith, if◌then◌else◌,
}
use mimeclip.Base.Bytes.{
  text_le, text_eq_iff, text_le_refl, text_le_total, text_le_antisymm, text_le_trans,
}
use mimeclip.Base.Int.{ℤ, pos, negsuc, exceeds}
use mimeclip.Base.Sorting.{IsTotalOrder, IsSorted, sort, sort-perm, sort-IsSorted}
use mimeclip.Database.Valid.Rows.{All-mono}
use mimeclip.Base.Perms.{keep-All, keep-perm}
use mimeclip.Database.{EntryRow, Tables, Database, delete_where, older, ◌>>=◌}
use mimeclip.Database.Store.{total_size, delete_entry, evict}
use mimeclip.Database.Trim.{HasNoFaults, update_now, Outlives, Outlives-perm, Retains}
use mimeclip.Database.Trim.Ids.{ids, not_id-All}

-- The rows that the loop leaves of a list of rows, oldest first.
unfoldable pub survivors : ℤ → ℕ → List EntryRow → List EntryRow
survivors limit remaining [] = []
survivors limit remaining (r ∷ rows) =
    let rest = survivors limit (remaining - r.size) rows in
    if not (exceeds remaining limit) then r ∷ rows else rest

-- The tables after the loop.
unfoldable pub evicted : ℤ → ℕ → List EntryRow → Tables → Tables
evicted limit remaining [] t = t
evicted limit remaining (r ∷ rows) t =
    let after = evicted limit (remaining - r.size) rows (delete_entry r.id t) in
    if not (exceeds remaining limit) then t else after

pub evict_now :
    (limit : ℤ) (remaining : ℕ) (rows : List EntryRow) (db : Database)
    → HasNoFaults db
    → evict limit remaining rows db
      ≡ (ok tt, record db { tables = evicted limit remaining rows db.tables })
unfolding evict evicted ◌>>=◌
evict_now limit remaining [] db h = refl
evict_now limit remaining (r ∷ rows) db h = elim (Bool-cases (exceeds remaining limit)) [
  | inr fits ↦ rw fits
  | inl over ↦
      rw (over, update_now (delete_entry r.id) db h)
        (evict_now limit (remaining - r.size) rows
          (record db { tables = delete_entry r.id db.tables }) h)
]

keep_others :
    (r : EntryRow) (rows : List EntryRow)
    → Nodup (ids (r ∷ rows))
    → keep (λ (s : EntryRow). not (s.id == r.id)) (r ∷ rows) ≡ rows
unfolding keep
keep_others r rows d = rw (==_refl r.id) (
    keep-All _ rows (All-mono _ _ rows (λ s h. ap not h) (not_id-All r.id rows (Nodup-cons.0 d).0)))

delete_entry-perm :
    (r : EntryRow) (rows : List EntryRow) (t : Tables)
    → Nodup (ids (r ∷ rows))
    → Perm t.entries (r ∷ rows)
    → Perm (delete_entry r.id t).entries rows
unfolding delete_entry delete_where
delete_entry-perm r rows t d p =
    Perm.trans (keep-perm _ p)
      (subst (λ l. Perm l rows) (sym (keep_others r rows d)) (Perm.refl rows))

-- The loop leaves exactly the survivors.
pub evicted-perm :
    (limit : ℤ) (remaining : ℕ) (rows : List EntryRow) (t : Tables)
    → Nodup (ids rows)
    → Perm t.entries rows
    → Perm (evicted limit remaining rows t).entries (survivors limit remaining rows)
unfolding evicted survivors
evicted-perm limit remaining [] t d p = p
evicted-perm limit remaining (r ∷ rows) t d p = elim (Bool-cases (exceeds remaining limit)) [
  | inr fits ↦ rw fits p
  | inl over ↦ rw over (
      evicted-perm limit (remaining - r.size) rows (delete_entry r.id t) (Nodup-cons.0 d).1
        (delete_entry-perm r rows t d p))
]

pub exceeds-false : (n m : ℕ) → exceeds n (pos m) ≡ false → n ≤ m
unfolding exceeds
exceeds-false n m h = ground arith

exceeds-true : (n m : ℕ) → exceeds n (pos m) ≡ true → m < n
unfolding exceeds
exceeds-true n m h = ground arith

-- What survives fits a limit that is not negative.
pub survivors-fit :
    (limit remaining : ℕ) (rows : List EntryRow)
    → remaining ≡ total_size rows
    → total_size (survivors (pos limit) remaining rows) ≤ limit
unfolding survivors total_size
survivors-fit limit remaining [] e = omega arith
survivors-fit limit remaining (r ∷ rows) e = elim (Bool-cases (exceeds remaining (pos limit))) [
  | inr fits ↦ rw fits (omega (arith, exceeds-false remaining limit fits))
  | inl over ↦ rw over (survivors-fit limit (remaining - r.size) rows (omega arith))
]

-- The last row that goes had to go: with it the rows would not fit.
abbrev pub IsLeast : ℕ → List EntryRow → List EntryRow → Type 0
IsLeast limit rows kept =
    (kept ≡ rows)
    ⊎ ((front : List EntryRow) × (r : EntryRow) × (rows ≡ front ++ r ∷ kept)
        × (limit < r.size + total_size kept))

IsLeast-cons :
    (limit : ℕ) (r : EntryRow) (rows kept : List EntryRow)
    → limit < r.size + total_size rows
    → IsLeast limit rows kept
    → IsLeast limit (r ∷ rows) kept
IsLeast-cons limit r rows kept over (inl same) = inr ([], r, rw same, rw same over)
IsLeast-cons limit r rows kept over (inr (front, g, split, needed)) =
    inr (r ∷ front, g, rw split, needed)

-- The survivors are the rows behind some of the oldest ones.
pub survivors-IsLeast :
    (limit remaining : ℕ) (rows : List EntryRow)
    → remaining ≡ total_size rows
    → IsLeast limit rows (survivors (pos limit) remaining rows)
unfolding survivors total_size
survivors-IsLeast limit remaining [] e = inl refl
survivors-IsLeast limit remaining (r ∷ rows) e = elim (Bool-cases (exceeds remaining (pos limit))) [
  | inr fits ↦ rw fits (inl refl)
  | inl over ↦ rw over (
      IsLeast-cons limit r rows _ (omega (arith, exceeds-true remaining limit over))
        (survivors-IsLeast limit (remaining - r.size) rows (omega arith)))
]

-- A negative limit leaves nothing.
pub survivors-negative :
    (limit remaining : ℕ) (rows : List EntryRow) → survivors (negsuc limit) remaining rows ≡ []
unfolding survivors exceeds
survivors-negative limit remaining [] = refl
survivors-negative limit remaining (r ∷ rows) = survivors-negative limit (remaining - r.size) rows

total_size-permᴰ : {xs ys : List EntryRow} → Permᴰ xs ys → total_size xs ≡ total_size ys
unfolding total_size
total_size-permᴰ Permᴰ.nil = refl
total_size-permᴰ (Permᴰ.cons {a = x} e p) = rw (← e, total_size-permᴰ p)
total_size-permᴰ (Permᴰ.swap {a = x} {b = y} e f) = rw (← e, ← f) (omega arith)
total_size-permᴰ (Permᴰ.trans p q) = total_size-permᴰ p ∙ total_size-permᴰ q

pub total_size-perm : {xs ys : List EntryRow} → Perm xs ys → total_size xs ≡ total_size ys
total_size-perm p = ∥∥₁_elim p (ℕ_set _ _) total_size-permᴰ

pub older-IsTotalOrder : IsTotalOrder older
unfolding older
older-IsTotalOrder = record {
  total = λ a b h. ground (
    arith,
    text_eq_iff a.last_used_at b.last_used_at,
    text_eq_iff b.last_used_at a.last_used_at,
    text_le_total a.last_used_at b.last_used_at,
  );
  trans = λ a b c h k. ground (
    arith,
    text_eq_iff a.last_used_at b.last_used_at,
    text_eq_iff b.last_used_at c.last_used_at,
    text_eq_iff a.last_used_at c.last_used_at,
    text_le_trans a.last_used_at b.last_used_at c.last_used_at,
    text_le_antisymm a.last_used_at b.last_used_at,
  );
}

older→le : (a b : EntryRow) → older a b ≡ true → text_le a.last_used_at b.last_used_at ≡ true
unfolding older
older→le a b h =
    ground (arith, text_eq_iff a.last_used_at b.last_used_at, text_le_refl a.last_used_at)

survivors-suffix :
    (limit : ℤ) (remaining : ℕ) (rows : List EntryRow)
    → (front : List EntryRow) × (rows ≡ front ++ survivors limit remaining rows)
unfolding survivors
survivors-suffix limit remaining [] = ([], refl)
survivors-suffix limit remaining (r ∷ rows) = elim (Bool-cases (exceeds remaining limit)) [
  | inr fits ↦ ([], rw fits)
  | inl over ↦
      let (front, split) = survivors-suffix limit (remaining - r.size) rows in
      (r ∷ front, rw over (ap (◌∷◌ r) split))
]

All-split : {A : Type 0} (P : A → Type 0) (xs ys : List A) → All P (xs ++ ys) → All P ys
All-split P [] ys h = h
All-split P (x ∷ xs) ys h = All-split P xs ys h.1

pub older-Outlives :
    (front kept : List EntryRow) → IsSorted older (front ++ kept) → Outlives kept front
older-Outlives [] kept s = tt
older-Outlives (g ∷ front) kept s = (
  All-mono _ _ kept (λ k h. older→le g k h) (All-split _ front kept s.0),
  older-Outlives front kept s.1,
)

-- The loop takes away rows that were used no later than those that stay.
pub evicted-Retains :
    (limit : ℤ) (remaining : ℕ) (t : Tables)
    → Nodup (ids t.entries)
    → Retains t.entries (evicted limit remaining (sort older t.entries) t).entries
evicted-Retains limit remaining t d =
    let (front, split) = survivors-suffix limit remaining rows in
    let same =
      evicted-perm limit remaining rows t
        (Perm.nodup (Perm.map _ (Perm.symm (sort-perm older t.entries))) d)
        (Perm.symm (sort-perm older t.entries)) in
    record {
      gone = front;
      perm = Perm.trans (Perm.symm (sort-perm older t.entries)) (
          subst (λ l. Perm l (front ++ (evicted limit remaining rows t).entries)) (sym split)
            (Perm.append (Perm.refl front) (Perm.symm same)));
      outlives = Outlives-perm front (Perm.symm same) (
          older-Outlives front (survivors limit remaining rows)
            (subst (IsSorted older) split (sort-IsSorted older-IsTotalOrder t.entries)));
    }
  where
    rows : List EntryRow
    rows = sort older t.entries

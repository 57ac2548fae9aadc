-- ===== src/Database/Trim/Within.antt =====
-- `trim` of src/common/db.rs leaves a history alone that is within the limits.
use mathlib.Core.List.{mem-map_of_mem}
use mathlib.Core.List.Perm
use mimeclip.Base.{
  ℕ, zero, suc, All-of, All-weaken, ◌<◌, ◌≤◌, ◌^◌, ◌≡◌, refl, ap, Bool, true, false, not, ◌&&◌,
  List, [], ◌∷◌, All, any, keep, take, length, ◌==◌, arith, if◌then◌else◌,
}
use mimeclip.Base.Int.{as_i64_small, pos, exceeds}
use mimeclip.Base.Perms.{keep-All, All-of_mem, length-perm}
use mimeclip.Database.{EntryRow, PayloadRow, Tables, Planner, Database, delete_where}
use mimeclip.Database.Query.{newest, limit_rows}
use mimeclip.Database.Store.{total_size, is_among, trim_count}
use mimeclip.Database.Trim.Ids.{any_id_of_mem}
use mimeclip.Database.Trim.Bounds.{trimmed, trimmed_size}

take_all : {A : Type 0} (n : ℕ) (xs : List A) → length xs ≤ n → take n xs ≡ xs
take_all zero [] h = refl
take_all zero (x ∷ xs) h = absurd (omega (arith, h))
take_all (suc n) [] h = refl
take_all (suc n) (x ∷ xs) h = ap (◌∷◌ x) (take_all n xs (omega (arith, h)))

none_gone :
    (gone : EntryRow → Bool) (id : ℕ) (rows : List EntryRow)
    → All (λ r. gone r ≡ false) rows
    → any (λ r. gone r && r.id == id) rows ≡ false
unfolding any
none_gone gone id [] h = refl
none_gone gone id (r ∷ rows) h = ground (arith, none_gone gone id rows)

keep_payloads :
    (gone : EntryRow → Bool) (rows : List EntryRow) (payloads : List PayloadRow)
    → All (λ r. gone r ≡ false) rows
    → keep (λ p. not (any (λ r. gone r && r.id == p.entry_id) rows)) payloads ≡ payloads
keep_payloads gone rows payloads h =
    keep-All _ payloads (All-of _ payloads (λ p. rw (none_gone gone p.entry_id rows h) refl))

same_if : {A : Type 0} (b : Bool) {x y : A} → x ≡ y → (if b then x else y) ≡ y
same_if true e = e
same_if false e = refl

-- A deletion of no row
delete_where-none :
    (gone : EntryRow → Bool) (t : Tables)
    → All (λ r. gone r ≡ false) t.entries
    → delete_where gone t ≡ t
unfolding delete_where
delete_where-none gone t h =
    rw
      (
        keep-All (λ r. not (gone r)) t.entries (All-weaken _ _ t.entries (λ r g. rw g refl) h),
        same_if t.references (keep_payloads gone t.entries t.payloads h),
      )
      refl

trim_count-within :
    (plan : Planner) (n : ℕ) (t : Tables)
    → n < 2 ^ 63
    → length t.entries ≤ n
    → trim_count plan n t ≡ t
unfolding trim_count newest limit_rows is_among
trim_count-within plan n t small h =
    rw
      (
        as_i64_small n small,
        take_all n (plan.by_recency t.entries)
            (omega (arith, h, length-perm (plan.by_recency-perm t.entries))),
      )
      (delete_where-none _ t (
        All-of_mem _ t.entries (λ r m. ap not (
          any_id_of_mem r.id (plan.by_recency t.entries)
            (mem-map_of_mem _ ((Perm.mem_iff (plan.by_recency-perm t.entries)).1 m))))))

exceeds-le : (n m : ℕ) → n ≤ m → exceeds n (pos m) ≡ false
unfolding exceeds
exceeds-le n m h = ground (arith, h)

-- A history within both limits is not trimmed.
pub trimmed_within :
    (plan : Planner) (db : Database)
    → db.max_entries < 2 ^ 63
    → db.max_history_size < 2 ^ 63
    → length db.entries ≤ db.max_entries
    → total_size db.entries ≤ db.max_history_size
    → trimmed plan db ≡ db.tables
unfolding trimmed trimmed_size
trimmed_within plan db small small' few light =
    rw
      (
        trim_count-within plan db.max_entries db.tables small few,
        as_i64_small db.max_history_size small',
        exceeds-le _ _ light,
      )
      refl

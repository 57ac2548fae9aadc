-- ===== src/Database/Trim/Count.antt =====
-- The first DELETE of `trim` in src/common/db.rs keeps the most recently used rows.
use mathlib.Core.List.{append-nil, perm_append_comm, map-append, Nodup-append, mem-map_of_mem}
use mathlib.Core.List.Perm
use mimeclip.Base.{
  ℕ, ◌<◌, ◌≤◌, ◌^◌, ◌≡◌, refl, sym, subst, ap, ap₂, ◌∙◌, Bool, true, false, not, List, [], ◌∷◌,
  ◌++◌, Perm, Nodup, All, keep, take, drop, length, length-take-le, take-append-drop, arith,
}
use mimeclip.Base.Bytes.{text_le}
use mimeclip.Base.Int.{as_i64_small}
use mimeclip.Base.Sorting.{IsSorted}
use mimeclip.Base.Perms.{keep-All, keep-none, keep-append, keep-perm, All-of_mem, length-perm}
use mimeclip.Database.{EntryRow, Tables, Planner, delete_where, newer}
use mimeclip.Database.Query.{newest}
use mimeclip.Database.Store.{is_among, trim_count}
use mimeclip.Database.Valid.{IsValid}
use mimeclip.Database.Trim.{Outlives, Outlives-perm, Retains}
use mimeclip.Database.Trim.Ids.{ids, Ascends-Nodup, any_id_of_mem, any_id_of_not-mem}

not-not : (b : Bool) → not (not b) ≡ b
not-not true = refl
not-not false = refl

-- The rows of `kept` are those that `is_among kept` selects from `kept ++ gone`.
keep-is_among :
    (kept gone : List EntryRow)
    → Nodup (ids (kept ++ gone))
    → keep (λ r. not (not (is_among kept r))) (kept ++ gone) ≡ kept
unfolding is_among
keep-is_among kept gone d =
    keep-append _ kept gone
    ∙ ap₂ ◌++◌
        (keep-All _ kept (
          All-of_mem _ kept
            (λ r m. ap (λ (b : Bool). not (not b)) (any_id_of_mem r.id kept (mem-map_of_mem _ m)))))
        (keep-none _ gone (
          All-of_mem _ gone (λ r m.
            ap (λ (b : Bool). not (not b))
              (any_id_of_not-mem r.id kept (λ k.
                (Nodup-append.0 (subst Nodup (map-append _ kept gone) d)).2 r.id k
                  (mem-map_of_mem _ m))))))
    ∙ append-nil kept

newest_lem :
    (plan : Planner) (n : ℕ) (t : Tables)
    → n < 2 ^ 63
    → newest plan n t ≡ take n (plan.by_recency t.entries)
unfolding newest
newest_lem plan n t small = rw (as_i64_small n small)

recent-Nodup : (plan : Planner) (t : Tables) → IsValid t → Nodup (ids (plan.by_recency t.entries))
recent-Nodup plan t v =
    Perm.nodup (Perm.map _ (Perm.symm (plan.by_recency-perm t.entries)))
      (Ascends-Nodup t.entry_seq 0 t.entries v.ids)

-- What stays after the first DELETE is the first `n` rows in the order of the query.
pub trim_count-perm :
    (plan : Planner) (n : ℕ) (t : Tables)
    → n < 2 ^ 63
    → IsValid t
    → Perm (trim_count plan n t).entries (take n (plan.by_recency t.entries))
unfolding trim_count delete_where
trim_count-perm plan n t small v = rw (newest_lem plan n t small) (
    Perm.trans (keep-perm _ (Perm.symm (plan.by_recency-perm t.entries))) (
      subst (λ l. Perm (keep (λ r. not (not (is_among (take n recent) r))) recent) l) selected
        (Perm.refl _)))
  where
    recent : List EntryRow
    recent = plan.by_recency t.entries

    selected : keep (λ r. not (not (is_among (take n recent) r))) recent ≡ take n recent
    selected =
        subst (λ l. keep (λ r. not (not (is_among (take n recent) r))) l ≡ take n recent)
          (take-append-drop n recent)
          (keep-is_among (take n recent) (drop n recent)
            (subst (λ l. Nodup (ids l)) (sym (take-append-drop n recent)) (recent-Nodup plan t v)))

Outlives-cons :
    (k : EntryRow) (kept gone : List EntryRow)
    → All (λ (g : EntryRow). text_le g.last_used_at k.last_used_at ≡ true) gone
    → Outlives kept gone
    → Outlives (k ∷ kept) gone
Outlives-cons k kept [] h o = tt
Outlives-cons k kept (g ∷ gone) h o = ((h.0, o.0), Outlives-cons k kept gone h.1 o.1)

Outlives-nil : (gone : List EntryRow) → Outlives [] gone
Outlives-nil [] = tt
Outlives-nil (g ∷ gone) = (tt, Outlives-nil gone)

All-split : {A : Type 0} (P : A → Type 0) (xs ys : List A) → All P (xs ++ ys) → All P ys
All-split P [] ys h = h
All-split P (x ∷ xs) ys h = All-split P xs ys h.1

-- Under ORDER BY last_used_at DESC the rows in front outlive those behind.
newer-Outlives : (kept gone : List EntryRow) → IsSorted newer (kept ++ gone) → Outlives kept gone
unfolding newer
newer-Outlives [] gone s = Outlives-nil gone
newer-Outlives (k ∷ kept) gone s =
    Outlives-cons k kept gone (All-split _ kept gone s.0) (newer-Outlives kept gone s.1)

-- The first DELETE takes away rows that were used no later than those that stay.
pub trim_count-Retains :
    (plan : Planner) (n : ℕ) (t : Tables)
    → n < 2 ^ 63
    → IsValid t
    → Retains t.entries (trim_count plan n t).entries
trim_count-Retains plan n t small v = record {
  gone = drop n recent;
  perm = Perm.trans (Perm.symm (plan.by_recency-perm t.entries)) (
      Perm.trans
        (subst (λ l. Perm l (drop n recent ++ take n recent)) (take-append-drop n recent)
          (perm_append_comm (take n recent) (drop n recent)))
        (Perm.append (Perm.refl (drop n recent)) (Perm.symm (trim_count-perm plan n t small v))));
  outlives = Outlives-perm (drop n recent) (Perm.symm (trim_count-perm plan n t small v)) (
      newer-Outlives (take n recent) (drop n recent) (
        subst (IsSorted newer) (sym (take-append-drop n recent))
          (plan.by_recency-IsSorted t.entries)));
}
  where
    recent : List EntryRow
    recent = plan.by_recency t.entries

-- At most `n` rows stay.
pub length-trim_count :
    (plan : Planner) (n : ℕ) (t : Tables)
    → n < 2 ^ 63
    → IsValid t
    → length (trim_count plan n t).entries ≤ n
length-trim_count plan n t small v = omega (
  arith,
  length-perm (trim_count-perm plan n t small v),
  length-take-le n (plan.by_recency t.entries),
)

-- ===== src/Database/Trim/Bounds.antt =====
-- `trim` of src/common/db.rs brings the history within its limits by forgetting what was used
-- least recently.
use mathlib.Core.List.Perm
use native.Mathlib.Nat.{le_trans}
use mimeclip.Base.{
  ℕ, ◌<◌, ◌≤◌, ◌^◌, ◌≡◌, refl, sym, subst, Bool-cases, inl, inr, List, [], Perm, length,
  length-append, ok, arith, if◌then◌else◌,
}
use mimeclip.Base.Int.{ℤ, pos, as_i64, as_i64_small, as_i64_large, exceeds}
use mimeclip.Base.Sorting.{sort, sort-perm}
use mimeclip.Base.Perms.{length-perm}
use mimeclip.Database.{EntryRow, Tables, Planner, Database, older, ◌>>=◌}
use mimeclip.Database.Store.{total_size, trim_count, trim_size, trim}
use mimeclip.Database.Valid.{IsValid}
use mimeclip.Database.Valid.Methods.{trim_count-IsValid}
use mimeclip.Database.Trim.{
  HasNoFaults, update_now, query_now, Retains, Retains-refl, Retains-trans,
}
use mimeclip.Database.Trim.Ids.{Ascends-Nodup}
use mimeclip.Database.Trim.Count.{trim_count-Retains, length-trim_count}
use mimeclip.Database.Trim.Size.{
  survivors, evicted, evict_now, evicted-perm, evicted-Retains, survivors-fit, survivors-negative,
  total_size-perm, exceeds-false,
}

-- The tables after `trim`.
unfoldable pub trimmed_size : ℕ → Tables → Tables
trimmed_size max_history_size t =
    let limit = as_i64 max_history_size in
    let total = total_size t.entries in
    if exceeds total limit then evicted limit total (sort older t.entries) t else t

unfoldable pub trimmed : Planner → Database → Tables
trimmed plan db = trimmed_size db.max_history_size (trim_count plan db.max_entries db.tables)

trim_size_now :
    (db : Database)
    → HasNoFaults db
    → trim_size (as_i64 db.max_history_size) (total_size db.entries) db
      ≡ (ok tt, record db { tables = trimmed_size db.max_history_size db.tables })
unfolding trim_size trimmed_size ◌>>=◌
trim_size_now db h =
    elim (Bool-cases (exceeds (total_size db.entries) (as_i64 db.max_history_size))) [
      | inr fits ↦ rw fits
      | inl over ↦
          rw (over, query_now (λ t. sort older t.entries) db h)
            (evict_now (as_i64 db.max_history_size) (total_size db.entries) (sort older db.entries)
              db h)
    ]

pub trim_now :
    (plan : Planner) (db : Database)
    → HasNoFaults db
    → trim plan db ≡ (ok tt, record db { tables = trimmed plan db })
unfolding trim trimmed ◌>>=◌
trim_now plan db h =
    rw
      (
        update_now (trim_count plan db.max_entries) db h,
        query_now (λ t. total_size t.entries)
            (record db { tables = trim_count plan db.max_entries db.tables }) h,
      )
      (trim_size_now (record db { tables = trim_count plan db.max_entries db.tables }) h)

pub evicted-sorted :
    (limit : ℤ) (remaining : ℕ) (t : Tables)
    → IsValid t
    → Perm
        (evicted limit remaining (sort older t.entries) t).entries
        (survivors limit remaining (sort older t.entries))
evicted-sorted limit remaining t v =
    let sorted = Perm.symm (sort-perm older t.entries) in
    evicted-perm limit remaining (sort older t.entries) t
      (Perm.nodup (Perm.map _ sorted) (Ascends-Nodup t.entry_seq 0 t.entries v.ids)) sorted

pub trimmed_size-fits :
    (limit : ℕ) (t : Tables)
    → limit < 2 ^ 63
    → IsValid t
    → total_size (trimmed_size limit t).entries ≤ limit
unfolding trimmed_size
trimmed_size-fits limit t small v =
    rw (as_i64_small limit small) (elim (Bool-cases (exceeds (total_size t.entries) (pos limit))) [
      | inr fits ↦ rw fits (exceeds-false (total_size t.entries) limit fits)
      | inl over ↦ rw over (
          subst (λ (n : ℕ). n ≤ limit)
            (sym (total_size-perm (evicted-sorted (pos limit) (total_size t.entries) t v)))
            (survivors-fit limit (total_size t.entries) (sort older t.entries)
              (sym (total_size-perm (sort-perm older t.entries)))))
    ])

trimmed_size-Retains :
    (limit : ℕ) (t : Tables) → IsValid t → Retains t.entries (trimmed_size limit t).entries
unfolding trimmed_size
trimmed_size-Retains limit t v = elim (Bool-cases (exceeds (total_size t.entries) (as_i64 limit))) [
  | inr fits ↦ rw fits (Retains-refl t.entries)
  | inl over ↦ rw over (
      evicted-Retains (as_i64 limit) (total_size t.entries) t
        (Ascends-Nodup t.entry_seq 0 t.entries v.ids))
]

Retains-length :
    {before after : List EntryRow} → Retains before after → length after ≤ length before
Retains-length {after} r = omega (arith, length-perm r.perm, length-append r.gone after)

-- Where no statement fails, the tables are valid and both limits are below 2 ^ 63, `trim` succeeds
-- and leaves at most `max_entries` rows and at most `max_history_size` bytes; the rows left were
-- there and are unchanged, and none of them was last used before a row that is gone.
pub trim_lem :
    (plan : Planner) (db : Database)
    → HasNoFaults db
    → IsValid db.tables
    → db.max_entries < 2 ^ 63
    → db.max_history_size < 2 ^ 63
    → ((trim plan db).0 ≡ ok tt)
      × (length (trim plan db).1.entries ≤ db.max_entries)
      × (total_size (trim plan db).1.entries ≤ db.max_history_size)
      × Retains db.entries (trim plan db).1.entries
unfolding trimmed
trim_lem plan db h v small small' = rw (trim_now plan db h) (
    let t = trim_count plan db.max_entries db.tables in
    let valid = trim_count-IsValid plan db.max_entries db.tables v in
    let sized = trimmed_size-Retains db.max_history_size t valid in
    (
      refl,
      le_trans (Retains-length sized) (length-trim_count plan db.max_entries db.tables small v),
      trimmed_size-fits db.max_history_size t small' valid,
      Retains-trans (trim_count-Retains plan db.max_entries db.tables small v) sized,
    ))

-- A size limit of 2 ^ 63 bytes or more, which the configuration accepts, is negative as an `i64`:
-- where no statement fails and the tables are valid, `trim` then deletes the whole history.
pub trim_wipes :
    (plan : Planner) (db : Database)
    → HasNoFaults db
    → IsValid db.tables
    → 2 ^ 63 ≤ db.max_history_size
    → db.max_history_size < 2 ^ 64
    → (trim plan db).1.entries ≡ []
unfolding trimmed trimmed_size exceeds
trim_wipes plan db h v large bounded =
    rw (trim_now plan db h, as_i64_large db.max_history_size large bounded)
      (Perm.eq-nil (
        subst (Perm _) (survivors-negative _ _ _) (
          evicted-sorted _ _ (trim_count plan db.max_entries db.tables)
            (trim_count-IsValid plan db.max_entries db.tables v))))

-- ===== src/Database/Trim/Exact.antt =====
-- Which rows `trim` of src/common/db.rs takes away: the least recently used ones, and no more than
-- it has to.
use mathlib.Core.List.{append_assoc}
use mathlib.Core.List.Perm
use mimeclip.Base.{
  ℕ, zero, suc, ◌+◌, ◌<◌, ◌≤◌, ◌^◌, ◌≡◌, refl, ap, sym, subst, ◌∙◌, ◌⊎◌, Bool-cases, inl, inr, true,
  All, List, [], ◌∷◌, ◌++◌, Perm, take, length, length-append, arith,
}
use mimeclip.Base.Bytes.{text_le}
use mimeclip.Base.Int.{pos, as_i64_small, exceeds}
use mimeclip.Base.Perms.{length-perm}
use mimeclip.Base.Sorting.{IsSorted, sort, sort-perm, sort-IsSorted}
use mimeclip.Database.{EntryRow, Tables, Planner, Database, older}
use mimeclip.Database.Store.{total_size, trim_count}
use mimeclip.Database.Valid.{IsValid}
use mimeclip.Database.Valid.Methods.{trim_count-IsValid}
use mimeclip.Database.Trim.{
  Outlives, Retains, IsOutlived-perm, Outlives-map, Outlives-perm, Outlives-append, All-back,
}
use mimeclip.Database.Trim.Count.{trim_count-perm, trim_count-Retains, length-trim_count}
use mimeclip.Database.Trim.Size.{
  IsLeast, survivors-IsLeast, total_size-perm, older-Outlives, older-IsTotalOrder,
}
use mimeclip.Database.Trim.Bounds.{trimmed_size, trimmed, evicted-sorted, trimmed_size-fits}

-- The row was used no earlier than each of those.
abbrev IsLatest : EntryRow → List EntryRow → Type 0
IsLatest r = All (λ (g : EntryRow). text_le g.last_used_at r.last_used_at ≡ true)

-- Without the last of the rows that are gone, the rest would exceed the size.
abbrev IsOver : ℕ → List EntryRow → List EntryRow → Type 0
IsOver size gone after =
    (r : EntryRow) × (others : List EntryRow) × (gone ≡ others ++ r ∷ [])
    × IsLatest r others
    × (size < r.size + total_size after)

-- Rows are gone, those that were used least recently, and no more than the two limits ask for.
pub record IsTrimmed (entries size : ℕ) (before after : List EntryRow) : Type 0 where
  pub gone : List EntryRow
  pub perm : Perm before (gone ++ after)
  pub outlives : Outlives after gone
  pub few : length after ≤ entries
  pub light : total_size after ≤ size
  pub needed : (gone ≡ []) ⊎ (length after ≡ entries) ⊎ IsOver size gone after

-- The second DELETE
record IsEvicted (size : ℕ) (before after : List EntryRow) : Type 0 where
  gone : List EntryRow
  perm : Perm before (gone ++ after)
  outlives : Outlives after gone
  least : (gone ≡ []) ⊎ IsOver size gone after

outlived-IsLatest :
    (front : List EntryRow) (r : EntryRow) (kept : List EntryRow)
    → Outlives (r ∷ kept) front
    → IsLatest r front
outlived-IsLatest [] r kept o = tt
outlived-IsLatest (g ∷ front) r kept o = (o.0.0, outlived-IsLatest front r kept o.1)

least-IsEvicted :
    (size : ℕ) (before rows kept after : List EntryRow)
    → Perm before rows
    → IsSorted older rows
    → Perm after kept
    → IsLeast size rows kept
    → IsEvicted size before after
least-IsEvicted size before rows kept after p s same (inl all) = record {
  gone = [];
  perm = Perm.trans p (subst (λ l. Perm l after) all (Perm.symm same));
  outlives = tt;
  least = inl refl;
}
least-IsEvicted size before rows kept after p s same (inr (front, r, split, over)) = record {
  gone = front ++ r ∷ [];
  perm = Perm.trans p (
      subst (λ l. Perm l ((front ++ r ∷ []) ++ after))
        (append_assoc front (r ∷ []) kept ∙ sym split)
        (Perm.append (Perm.refl (front ++ r ∷ [])) (Perm.symm same)));
  outlives = Outlives-perm (front ++ r ∷ []) (Perm.symm same) (
      older-Outlives (front ++ r ∷ []) kept
        (subst (IsSorted older) (split ∙ sym (append_assoc front (r ∷ []) kept)) s));
  least = inr (
    r,
    front,
    refl,
    outlived-IsLatest front r kept
        (older-Outlives front (r ∷ kept) (subst (IsSorted older) split s)),
    subst (λ n. size < r.size + n) (sym (total_size-perm same)) over,
  );
}

trimmed_size-IsEvicted :
    (size : ℕ) (t : Tables)
    → size < 2 ^ 63
    → IsValid t
    → IsEvicted size t.entries (trimmed_size size t).entries
unfolding trimmed_size
trimmed_size-IsEvicted size t small v =
    rw (as_i64_small size small) (elim (Bool-cases (exceeds (total_size t.entries) (pos size))) [
      | inr fits ↦ rw fits (
          least-IsEvicted size t.entries (sort older t.entries) (sort older t.entries) t.entries
            (Perm.symm (sort-perm older t.entries)) (sort-IsSorted older-IsTotalOrder t.entries)
            (Perm.symm (sort-perm older t.entries)) (inl refl))
      | inl over ↦ rw over (
          least-IsEvicted size t.entries (sort older t.entries) _ _
            (Perm.symm (sort-perm older t.entries)) (sort-IsSorted older-IsTotalOrder t.entries)
            (evicted-sorted (pos size) (total_size t.entries) t v)
            (survivors-IsLeast size (total_size t.entries) (sort older t.entries)
              (sym (total_size-perm (sort-perm older t.entries)))))
    ])

length-zero : {A : Type 0} (xs : List A) → length xs ≡ 0 → xs ≡ []
length-zero [] h = refl
length-zero (x ∷ xs) h = ground (arith, h)

length-take :
    {A : Type 0} (n : ℕ) (xs : List A) → (length (take n xs) ≡ n) ⊎ (length (take n xs) ≡ length xs)
length-take zero xs = inl refl
length-take (suc n) [] = inr refl
length-take (suc n) (x ∷ xs) = ground (arith, length-take n xs)

-- The first DELETE takes rows only where it leaves as many as it may.
count-needed :
    (plan : Planner) (n : ℕ) (t : Tables)
    → n < 2 ^ 63
    → IsValid t
    → (r : Retains t.entries (trim_count plan n t).entries)
    → (r.gone ≡ []) ⊎ (length (trim_count plan n t).entries ≡ n)
count-needed plan n t small v r =
    let kept = length-perm (trim_count-perm plan n t small v) in
    let all = length-perm (plan.by_recency-perm t.entries) in
    let parts = length-perm r.perm ∙ length-append r.gone (trim_count plan n t).entries in
    elim (length-take n (plan.by_recency t.entries)) [
      | inl full ↦ inr (kept ∙ full)
      | inr whole ↦ inl (length-zero r.gone (omega (arith, kept, all, parts, whole)))
    ]

IsLatest-append :
    (r : EntryRow) (xs ys : List EntryRow) → IsLatest r xs → IsLatest r ys → IsLatest r (xs ++ ys)
IsLatest-append r [] ys hx hy = hy
IsLatest-append r (x ∷ xs) ys hx hy = (hx.0, IsLatest-append r xs ys hx.1 hy)

-- A row among the others
outlived-among :
    (r : EntryRow) (front kept gone : List EntryRow)
    → Outlives (front ++ r ∷ kept) gone
    → IsLatest r gone
outlived-among r front kept [] o = tt
outlived-among r front kept (g ∷ gone) o =
    ((All-back g front (r ∷ kept) o.0).0, outlived-among r front kept gone o.1)

joined-needed :
    (entries size : ℕ) (first second mid after : List EntryRow)
    → Perm mid (second ++ after)
    → Outlives mid first
    → (first ≡ []) ⊎ (length mid ≡ entries)
    → (second ≡ []) ⊎ IsOver size second after
    → (first ++ second ≡ []) ⊎ (length after ≡ entries) ⊎ IsOver size (first ++ second) after
joined-needed entries size first second mid after p o count (inr (r, others, split, latest, over)) =
    inr (
      inr (
        r,
        first ++ others,
        rw split (sym (append_assoc first others (r ∷ []))),
        IsLatest-append r first others
            (outlived-among r others after first (
              subst (λ l. Outlives l first)
                (ap (λ l. l ++ after) split ∙ append_assoc others (r ∷ []) after)
                (Outlives-perm first p o)))
            latest,
        over,
      ))
joined-needed entries size first second mid after p o (inl none) (inl none') =
    inl (rw (none, none') refl)
joined-needed entries size first second mid after p o (inr full) (inl none) =
    inr (inl (sym (length-perm p ∙ ap (λ l. length (l ++ after)) none) ∙ full))

-- `trim` takes away exactly what the limits ask for.
pub trimmed-IsTrimmed :
    (plan : Planner) (db : Database)
    → IsValid db.tables
    → db.max_entries < 2 ^ 63
    → db.max_history_size < 2 ^ 63
    → IsTrimmed db.max_entries db.max_history_size db.entries (trimmed plan db).entries
unfolding trimmed
trimmed-IsTrimmed plan db v small small' =
    let t = trim_count plan db.max_entries db.tables in
    let valid = trim_count-IsValid plan db.max_entries db.tables v in
    let r = trim_count-Retains plan db.max_entries db.tables small v in
    let e = trimmed_size-IsEvicted db.max_history_size t small' valid in
    let after = (trimmed_size db.max_history_size t).entries in
    record {
      gone = r.gone ++ e.gone;
      perm = Perm.trans r.perm (
          subst (Perm (r.gone ++ t.entries)) (sym (append_assoc r.gone e.gone after))
            (Perm.append (Perm.refl r.gone) e.perm));
      outlives =
          Outlives-append after r.gone e.gone
            (Outlives-map t.entries after r.gone
              (λ g h. All-back g e.gone after (IsOutlived-perm g e.perm h)) r.outlives)
            e.outlives;
      few = omega (
        arith,
        length-perm e.perm,
        length-append e.gone after,
        length-trim_count plan db.max_entries db.tables small v,
      );
      light = trimmed_size-fits db.max_history_size t small' valid;
      needed =
          joined-needed db.max_entries db.max_history_size r.gone e.gone t.entries after e.perm
            r.outlives (count-needed plan db.max_entries db.tables small v r) e.least;
    }

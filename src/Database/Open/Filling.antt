-- ===== src/Database/Open/Filling.antt =====
-- The migration of src/common/db.rs as a whole, and `init`.
use mimeclip.Base.{
  ◌≡◌, refl, sym, ap, subst, Bool, true, false, Option, none, some, List, [], ◌∷◌, map, All,
  All-map, All-of, All-weaken, arith, ℕ,
}
use mimeclip.Base.Bytes.{Text, text_eq}
use mimeclip.Database.Open.{
  StoredRow, EntriesTable, has_column, has_columns, fill_times, migrate_entries_schema, init,
  created_at_column, last_used_at_column, timestamp_column, created_from_timestamp,
  created_from_now, last_used_from_timestamp, last_used_from_created, coalesce,
}
use mimeclip.Database.Open.Times.{
  IsFrom, IsFrom-refl, visible, created_from_timestamp-IsFrom, created_from_now-IsFrom,
  last_used_from_timestamp-IsFrom, last_used_from_created-IsFrom,
}
use mimeclip.Database.Open.Migration.{Migrates, Migrates-bind, HasTables}
use mimeclip.Database.Open.Steps.{
  HasTime, IsStamped, Any, Migrates-idle, Migrates-sqlite_call, Migrates-create_entries,
  Migrates-create_payloads, Migrates-column, Migrates-add_missing, Migrates-update, visible-created,
  visible-last_used,
}

record IsCreated (b : Bool) (t : EntriesTable) : Type 0 where
  stamped : has_column timestamp_column t.columns ≡ b
  column : has_column created_at_column t.columns ≡ true
  rows : All (λ (r : StoredRow). HasTime r.created_at) t.rows

-- Every row has both times.
pub record IsFull (t : EntriesTable) : Type 0 where
  pub created : has_column created_at_column t.columns ≡ true
  pub used : has_column last_used_at_column t.columns ≡ true
  pub rows : All (λ (r : StoredRow). HasTime r.created_at × HasTime r.last_used_at) t.rows

has_columns-one :
    (x : Text) (columns : List Text)
    → has_columns (x ∷ []) columns ≡ true
    → has_column x columns ≡ true
unfolding has_columns
has_columns-one x columns h = ground arith

has_columns-two :
    (x y : Text) (columns : List Text)
    → has_columns (x ∷ y ∷ []) columns ≡ true
    → (has_column x columns ≡ true) × (has_column y columns ≡ true)
unfolding has_columns
has_columns-two x y columns h = ground arith

has_columns-three :
    (x y z : Text) (columns : List Text)
    → has_columns (x ∷ y ∷ z ∷ []) columns ≡ true
    → (has_column x columns ≡ true) × (has_column y columns ≡ true) × (has_column z columns ≡ true)
unfolding has_columns
has_columns-three x y z columns h = ground arith

coalesce-some : (v : Option Text) (t : Text) → HasTime (coalesce v (some t))
coalesce-some none t = (t, refl)
coalesce-some (some v) t = (v, refl)

coalesce_both : (v w : Option Text) (t : Text) → HasTime (coalesce v (coalesce w (some t)))
coalesce_both none w t = coalesce-some w t
coalesce_both (some v) w t = (v, refl)

coalesce_three :
    (v w x : Option Text) (t : Text) → HasTime (coalesce v (coalesce w (coalesce x (some t))))
coalesce_three none w x t = coalesce_both w x t
coalesce_three (some v) w x t = (v, refl)

abbrev IsTimed : StoredRow → Type 0
IsTimed r = HasTime r.created_at × HasTime r.last_used_at

module _ (now : Text) where
  fill-IsCreated :
      (t : EntriesTable)
      → IsStamped true t
      → has_columns (created_at_column ∷ timestamp_column ∷ []) t.columns ≡ true
      → All
          (λ r. IsFrom (visible t.columns r) (visible t.columns (created_from_timestamp now r)))
          t.rows
        × IsCreated true (record t { rows = map (created_from_timestamp now) t.rows })
  unfolding created_from_timestamp
  fill-IsCreated t p there =
      let (column, _) = has_columns-two _ _ t.columns there in
      (
        All-of _ t.rows (λ r. created_from_timestamp-IsFrom t.columns r now column p),
        record {
          stamped = p;
          column = column;
          rows =
              All-map {0, 0, 0} (λ r. Unit) _ _ t.rows
                (λ r _. coalesce_both r.created_at r.timestamp now) (All-of _ t.rows (λ _. tt));
        },
      )

  fill-IsCreated_now :
      (t : EntriesTable)
      → IsStamped false t
      → has_columns (created_at_column ∷ []) t.columns ≡ true
      → All (λ r. IsFrom (visible t.columns r) (visible t.columns (created_from_now now r))) t.rows
        × IsCreated false (record t { rows = map (created_from_now now) t.rows })
  unfolding created_from_now
  fill-IsCreated_now t p there =
      let column = has_columns-one _ t.columns there in
      (
        All-of _ t.rows (λ r. created_from_now-IsFrom t.columns r now column p),
        record {
          stamped = p;
          column = column;
          rows =
              All-map {0, 0, 0} (λ r. Unit) _ _ t.rows (λ r _. coalesce-some r.created_at now)
                (All-of _ t.rows (λ _. tt));
        },
      )

  fill_used :
      (t : EntriesTable)
      → IsCreated true t
      → has_columns (last_used_at_column ∷ timestamp_column ∷ created_at_column ∷ []) t.columns
        ≡ true
      → All
          (λ r. IsFrom (visible t.columns r) (visible t.columns (last_used_from_timestamp now r)))
          t.rows
        × IsFull (record t { rows = map (last_used_from_timestamp now) t.rows })
  unfolding last_used_from_timestamp
  fill_used t p there =
      let (used, _, _) = has_columns-three _ _ _ t.columns there in
      (
        All-weaken _ _ t.rows
            (λ r h. last_used_from_timestamp-IsFrom t.columns r now p.column used h.0 h.1 p.stamped)
            p.rows,
        record {
          created = p.column;
          used = used;
          rows =
              All-map _ _ _ t.rows
                (λ r h. (h, coalesce_three r.last_used_at r.timestamp r.created_at now)) p.rows;
        },
      )

  fill_used_created :
      (t : EntriesTable)
      → IsCreated false t
      → has_columns (last_used_at_column ∷ created_at_column ∷ []) t.columns ≡ true
      → All
          (λ r. IsFrom (visible t.columns r) (visible t.columns (last_used_from_created now r)))
          t.rows
        × IsFull (record t { rows = map (last_used_from_created now) t.rows })
  unfolding last_used_from_created
  fill_used_created t p there =
      let (used, _) = has_columns-two _ _ t.columns there in
      (
        All-weaken _ _ t.rows
            (λ r h. last_used_from_created-IsFrom t.columns r now p.column used h.0 h.1 p.stamped)
            p.rows,
        record {
          created = p.column;
          used = used;
          rows =
              All-map _ _ _ t.rows (λ r h. (h, coalesce_both r.last_used_at r.created_at now))
                p.rows;
        },
      )

Migrates-fill_times :
    (now later : Text) (b : Bool)
    → Migrates (HasTables (IsStamped b)) (λ _. HasTables IsFull) (fill_times now later b)
unfolding fill_times
Migrates-fill_times now later true =
    Migrates-bind _ _
      (Migrates-update (created_at_column ∷ timestamp_column ∷ []) _ _ _ (fill-IsCreated now))
      (λ _.
        Migrates-update (last_used_at_column ∷ timestamp_column ∷ created_at_column ∷ []) _ _ _
          (fill_used later))
Migrates-fill_times now later false =
    Migrates-bind _ _ (Migrates-update (created_at_column ∷ []) _ _ _ (fill-IsCreated_now now))
      (λ _.
        Migrates-update (last_used_at_column ∷ created_at_column ∷ []) _ _ _
          (fill_used_created later))

Migrates-migrate :
    (now later : Text)
    → Migrates (HasTables Any) (λ _. HasTables IsFull) (migrate_entries_schema now later)
unfolding migrate_entries_schema text_eq
Migrates-migrate now later = Migrates-bind _ _ (Migrates-column _ created_at_column) (λ a.
    Migrates-bind _ _ (Migrates-column _ last_used_at_column) (λ b.
      Migrates-bind _ _ (Migrates-column _ timestamp_column) (λ c.
        Migrates-bind _ _ (Migrates-add_missing c _ (λ t p. p.1) _ _ refl visible-created a) (λ _.
          Migrates-bind _ _ (Migrates-add_missing c _ (λ t p. p) _ _ refl visible-last_used b)
            (λ _. Migrates-fill_times now later c)))))

map_self : (rows : List StoredRow) → map (λ r. r) rows ≡ rows
map_self [] = refl
map_self (r ∷ rows) = ap (◌∷◌ r) (map_self rows)

-- The index on `last_used_at`
index :
    (t : EntriesTable)
    → IsFull t
    → has_columns (last_used_at_column ∷ []) t.columns ≡ true
    → All (λ r. IsFrom (visible t.columns r) (visible t.columns r)) t.rows
      × IsFull (record t { rows = map (λ r. r) t.rows })
index t f there = (
  All-of _ t.rows (λ r. IsFrom-refl (visible t.columns r)),
  subst (λ rows. IsFull (record t { rows = rows })) (sym (map_self t.rows)) f,
)

pub Migrates-init :
    (sqlite_files : (Text → Option ℕ) → Text → Option ℕ) (now later : Text)
    → Migrates (λ _. Unit) (λ _. HasTables IsFull) (init sqlite_files now later)
unfolding init
Migrates-init sqlite_files now later = Migrates-bind _ _ (Migrates-sqlite_call _ sqlite_files) (λ _.
    Migrates-bind _ _ (Migrates-idle _) (λ _. Migrates-bind _ _ Migrates-create_entries (λ _.
      Migrates-bind _ _ Migrates-create_payloads (λ _. Migrates-bind _ _ (Migrates-idle _) (λ _.
        Migrates-bind _ _ (Migrates-migrate now later) (λ _.
          Migrates-bind _ _ (Migrates-idle _)
            (λ _. Migrates-update (last_used_at_column ∷ []) _ _ _ index)))))))

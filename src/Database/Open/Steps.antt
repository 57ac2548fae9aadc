-- ===== src/Database/Open/Steps.antt =====
-- The statements of `init` of src/common/db.rs, one after the other.
use mimeclip.Base.{
  ◌≡◌, refl, sym, ap, subst, ◌∙◌, Bool, true, false, ◌||◌, Option, none, some, List, [], ◌∷◌, ◌++◌,
  map, any, All, Result, ok, err, ok-injective, arith, ℕ, if◌then◌else◌,
}
use mimeclip.Base.Bytes.{Text, text_eq}
use mimeclip.Database.{DbError, pure}
use mimeclip.Database.Open.{
  StoredRow, EntriesTable, Content, step, on_entries, new_payloads, new_entries, create_entries,
  create_payloads, has_column, has_columns, add_column, update_rows, add_missing,
  entries_column_exists, columns_of, sqlite_call, created_at_column, last_used_at_column,
  timestamp_column, clear_created_at, clear_last_used_at,
}
use mimeclip.Database.Open.Times.{rows_in, IsFrom, IsFrom-refl, visible, cell}
use mimeclip.Database.Open.Migration.{
  Pairs, Pairs-refl, IsAdvance-refl, Migrates, Migrates-step, Migrates-pure, Migrates-bind,
  HasTables, Migrates-on_entries,
}

abbrev pub HasTime : Option Text → Type 0
HasTime v = (t : Text) × (v ≡ some t)

abbrev pub IsStamped : Bool → EntriesTable → Type 0
IsStamped b t = has_column timestamp_column t.columns ≡ b

-- Steps that leave the tables alone
pub Migrates-idle : (P : Content → Type 0) → Migrates P (λ _. P) (step ok)
Migrates-idle P = Migrates-step P P ok (λ d p. (IsAdvance-refl d.content, p))

pub Migrates-sqlite_call :
    (P : Content → Type 0) (sqlite_files : (Text → Option ℕ) → Text → Option ℕ)
    → Migrates P (λ _. P) (sqlite_call sqlite_files)
unfolding sqlite_call
Migrates-sqlite_call P sqlite_files = Migrates-step P P _ (λ d p. (IsAdvance-refl d.content, p))

abbrev pub HasEntries : Content → Type 0
HasEntries c = (t : EntriesTable) × (c.entries ≡ some t)

new_entries-rows :
    (e : Option EntriesTable) → Pairs IsFrom (rows_in e) (rows_in (some (new_entries e)))
unfolding new_entries rows_in
new_entries-rows none = tt
new_entries-rows (some t) = Pairs-refl (map (visible t.columns) t.rows)

pub Migrates-create_entries : Migrates (λ _. Unit) (λ _. HasEntries) create_entries
unfolding create_entries
Migrates-create_entries = Migrates-step _ _ _ (λ d p. (
  record {
    rows = new_entries-rows d.entries;
    payloads = refl;
    entry_seq = refl;
    payload_seq = refl;
  },
  (new_entries d.entries, refl),
))

abbrev pub Any : EntriesTable → Type 0
Any t = Unit

pub Migrates-create_payloads : Migrates HasEntries (λ _. HasTables Any) create_payloads
unfolding create_payloads new_payloads
Migrates-create_payloads = Migrates-step _ _ _ (λ d p. (
  record {
    rows = Pairs-refl (rows_in d.entries);
    payloads = refl;
    entry_seq = refl;
    payload_seq = refl;
  },
  record {
    table = p.0;
    entries = p.1;
    has = tt;
    stored = new_payloads d.payloads;
    payloads = refl;
  },
))

-- What `entries_column_exists` says is so.
pub Migrates-column :
    (P : EntriesTable → Type 0) (name : Text)
    → Migrates
        (HasTables P)
        (λ b. HasTables (λ t. P t × (has_column name t.columns ≡ b)))
        (entries_column_exists name)
unfolding entries_column_exists columns_of pure
Migrates-column P name = Migrates-bind _ _ (Migrates-idle (HasTables P)) (λ u. record {
  at = λ d p. IsAdvance-refl d.content;
  holds = λ d p b h. record {
    table = p.table;
    entries = p.entries;
    has = (p.has, ap (λ e. has_column name (columns_of e)) (sym p.entries) ∙ ok-injective h);
    stored = p.stored;
    payloads = p.payloads;
  };
})

has_column-append :
    (name x : Text) (columns : List Text)
    → has_column name (columns ++ x ∷ []) ≡ (has_column name columns || text_eq name x)
unfolding has_column any
has_column-append name x [] = ground arith
has_column-append name x (c ∷ columns) = ground (arith, has_column-append name x columns)

has_column-other :
    (name x : Text) (columns : List Text)
    → text_eq name x ≡ false
    → has_column name (columns ++ x ∷ []) ≡ has_column name columns
has_column-other name x columns e = ground (arith, has_column-append name x columns)

cell_other :
    (columns : List Text) (name x : Text) (v : Option Text)
    → text_eq name x ≡ false
    → cell (columns ++ x ∷ []) name v ≡ cell columns name v
unfolding cell
cell_other columns name x v e = rw (has_column-other name x columns e) refl

if_none : (b : Bool) → Path (Option Text) (if b then none else none) none
if_none true = refl
if_none false = refl

cell_new :
    (columns : List Text) (name : Text) (v : Option Text)
    → has_column name columns ≡ false
    → cell (columns ++ name ∷ []) name none ≡ cell columns name v
unfolding cell
cell_new columns name v new = if_none _ ∙ rw new refl

-- A new column has nothing in it yet.
pub visible-created :
    (columns : List Text) (r : StoredRow)
    → has_column created_at_column columns ≡ false
    → visible (columns ++ created_at_column ∷ []) (clear_created_at r) ≡ visible columns r
unfolding visible clear_created_at text_eq
visible-created columns r new =
    rw
      (
        cell_new columns created_at_column r.created_at new,
        cell_other columns last_used_at_column created_at_column r.last_used_at refl,
        cell_other columns timestamp_column created_at_column r.timestamp refl,
      )
      refl

pub visible-last_used :
    (columns : List Text) (r : StoredRow)
    → has_column last_used_at_column columns ≡ false
    → visible (columns ++ last_used_at_column ∷ []) (clear_last_used_at r) ≡ visible columns r
unfolding visible clear_last_used_at text_eq
visible-last_used columns r new =
    rw
      (
        cell_new columns last_used_at_column r.last_used_at new,
        cell_other columns created_at_column last_used_at_column r.created_at refl,
        cell_other columns timestamp_column last_used_at_column r.timestamp refl,
      )
      refl

rows-clear :
    (columns columns' : List Text) (clear : StoredRow → StoredRow) (rows : List StoredRow)
    → ((r : StoredRow) → visible columns' (clear r) ≡ visible columns r)
    → Pairs IsFrom (map (visible columns) rows) (map (visible columns') (map clear rows))
rows-clear columns columns' clear [] same = tt
rows-clear columns columns' clear (r ∷ rows) same = (
  subst (IsFrom (visible columns r)) (sym (same r)) (IsFrom-refl (visible columns r)),
  rows-clear columns columns' clear rows same,
)

refused_if :
    (b : Bool) (e : DbError) (t t' : EntriesTable)
    → Path (Result DbError EntriesTable) (if b then err e else ok t) (ok t')
    → (b ≡ false) × (t ≡ t')
refused_if true e t t' h = cc
refused_if false e t t' h = (refl, ok-injective h)

done_if :
    (b : Bool) (e : DbError) (t t' : EntriesTable)
    → Path (Result DbError EntriesTable) (if b then ok t else err e) (ok t')
    → (b ≡ true) × (t ≡ t')
done_if true e t t' h = (refl, ok-injective h)
done_if false e t t' h = cc

module _ (b : Bool) (P : EntriesTable → Type 0) (known : (t : EntriesTable) → P t → IsStamped b t)
    (name : Text) (clear : StoredRow → StoredRow) (other : text_eq timestamp_column name ≡ false)
    (same : (columns : List Text) (r : StoredRow)
      → has_column name columns ≡ false
      → visible (columns ++ name ∷ []) (clear r) ≡ visible columns r) where
  add_column-keeps :
      (t t' : EntriesTable)
      → P t
      → add_column name clear t ≡ ok t'
      → Pairs IsFrom (rows_in (some t)) (rows_in (some t')) × IsStamped b t'
  unfolding add_column rows_in
  add_column-keeps t t' p done =
      let (new, e) = refused_if (has_column name t.columns) _ _ t' done in
      subst (λ x. Pairs IsFrom (rows_in (some t)) (rows_in (some x)) × IsStamped b x) e
        (
          rows-clear t.columns _ clear t.rows (λ r. same t.columns r new),
          has_column-other timestamp_column name t.columns other ∙ known t p,
        )

  pub Migrates-add_missing :
      (there : Bool)
      → Migrates (HasTables P) (λ _. HasTables (IsStamped b)) (add_missing name clear there)
  unfolding add_missing
  Migrates-add_missing true = Migrates-pure _ _ _ (λ c h. record {
    table = h.table;
    entries = h.entries;
    has = known h.table h.has;
    stored = h.stored;
    payloads = h.payloads;
  })
  Migrates-add_missing false = Migrates-on_entries _ _ _ add_column-keeps

-- An UPDATE that names columns which are there.
module _ (names : List Text) (change : StoredRow → StoredRow) (P Q : EntriesTable → Type 0)
    (good : (t : EntriesTable)
      → P t
      → has_columns names t.columns ≡ true
      → All (λ r. IsFrom (visible t.columns r) (visible t.columns (change r))) t.rows
        × Q (record t { rows = map change t.rows })) where
  rows-update :
      (columns : List Text) (rows : List StoredRow)
      → All (λ r. IsFrom (visible columns r) (visible columns (change r))) rows
      → Pairs IsFrom (map (visible columns) rows) (map (visible columns) (map change rows))
  rows-update columns [] all = tt
  rows-update columns (r ∷ rows) all = (all.0, rows-update columns rows all.1)

  update_rows-keeps :
      (t t' : EntriesTable)
      → P t
      → update_rows names change t ≡ ok t'
      → Pairs IsFrom (rows_in (some t)) (rows_in (some t')) × Q t'
  unfolding update_rows rows_in
  update_rows-keeps t t' p done =
      let (there, e) = done_if (has_columns names t.columns) _ _ t' done in
      let (rows, q) = good t p there in
      subst (λ x. Pairs IsFrom (rows_in (some t)) (rows_in (some x)) × Q x) e
        (rows-update t.columns t.rows rows, q)

  pub Migrates-update :
      Migrates (HasTables P) (λ _. HasTables Q) (on_entries (update_rows names change))
  Migrates-update = Migrates-on_entries _ _ _ update_rows-keeps

-- ===== src/Database/Valid/Trimming.antt =====
-- What every deletion that goes by the ids keeps, `trim` of src/common/db.rs keeps.
use mimeclip.Base.{ℕ, ◌-◌, ◌≡◌, ap, Bool, not, List, [], ◌∷◌, any, ◌==◌}
use mimeclip.Base.Int.{ℤ, as_i64, exceeds}
use mimeclip.Database.{EntryRow, Tables, Planner, delete_where, update}
use mimeclip.Database.Query.{newest}
use mimeclip.Database.Store.{is_among, delete_entry, evict, trim_count, trim_size, trim}
use mimeclip.Database.Valid.{Keeps, Keeps-pure, Keeps-bind, Keeps-query, Keeps-update, Keeps-if}

-- Rows with one id are deleted together.
abbrev pub IsById : (EntryRow → Bool) → Type 0
IsById gone = (r s : EntryRow) → r.id ≡ s.id → gone r ≡ gone s

module _ (P : Tables → Type 0)
    (keeps : (gone : EntryRow → Bool)
      → IsById gone
      → (t : Tables) → P t
      → P (delete_where gone t)) where
  pub delete_entry-keeps : (entry_id : ℕ) (t : Tables) → P t → P (delete_entry entry_id t)
  unfolding delete_entry
  delete_entry-keeps entry_id t p =
      keeps (λ r. r.id == entry_id) (λ r s e. ap (λ i. i == entry_id) e) t p

  pub trim_count-keeps : (plan : Planner) (n : ℕ) (t : Tables) → P t → P (trim_count plan n t)
  unfolding trim_count is_among
  trim_count-keeps plan n t p =
      keeps _ (λ r s e. ap (λ i. not (any (λ (q : EntryRow). q.id == i) (newest plan n t))) e) t p

  evict-Keeps :
      (limit : ℤ) (remaining : ℕ) (rows : List EntryRow) → Keeps P (evict limit remaining rows)
  unfolding evict
  evict-Keeps limit remaining [] = Keeps-pure tt
  evict-Keeps limit remaining (r ∷ rows) =
      Keeps-if (not (exceeds remaining limit)) _ _ (Keeps-pure tt) (
        Keeps-bind (update (delete_entry r.id)) _ (Keeps-update _ (delete_entry-keeps r.id))
          (λ _. evict-Keeps limit (remaining - r.size) rows))

  trim_size-Keeps : (limit : ℤ) (total : ℕ) → Keeps P (trim_size limit total)
  unfolding trim_size
  trim_size-Keeps limit total =
      Keeps-if (exceeds total limit) _ _
        (Keeps-bind _ _ (Keeps-query _) (λ rows. evict-Keeps limit total rows)) (Keeps-pure tt)

  pub trim-Keeps : (plan : Planner) → Keeps P (trim plan)
  unfolding trim
  trim-Keeps plan = record {
    at = λ db.
        (Keeps-bind _ _ (Keeps-update _ (trim_count-keeps plan db.max_entries)) (λ _.
            Keeps-bind _ _ (Keeps-query _)
              (λ total. trim_size-Keeps (as_i64 db.max_history_size) total))).at
          db;
  }

-- ===== src/Database/History/Usable.antt =====
-- A usable database of src/common/db.rs, what trimming keeps of it, and an insert into it.
use mimeclip.Base.{ℕ, suc, ◌≡◌, refl, sym, subst, ◌∙◌, inl, inr, Bool, true, Option, none, some}
use mimeclip.Config.{Limits}
use mimeclip.Database.{EntryRow, Tables, Planner, Database, delete_where}
use mimeclip.Database.Calls.{inserts}
use mimeclip.Database.Query.{id_of_hash, payloads_of}
use mimeclip.Database.Store.{NewEntry, append_entry, refresh, insert}
use mimeclip.Database.Valid.{IsValid}
use mimeclip.Database.Valid.Trimming.{IsById, trim-Keeps}
use mimeclip.Database.Trim.{HasNoFaults}
use mimeclip.Database.Trim.Bounds.{trimmed, trim_now}
use mimeclip.Database.Trim.Exact.{IsTrimmed, trimmed-IsTrimmed}
use mimeclip.Database.Limited.{limits_of}
use mimeclip.Database.History.{Item, History, history, Forgets, IsKeyOf}
use mimeclip.Database.History.Steps.{IsSmall, IsTrimOf, IsStep}
use mimeclip.Database.Valid.Methods.{refresh-IsValid}
use mimeclip.Database.History.Rows.{found_row, hash_of_row}
use mimeclip.Database.History.Forgetting.{Forgets-refl, trim-Forgets}
use mimeclip.Database.History.Inserting.{
  added, added-IsValid, added-IsLike, added-HasNoFaults, any_of_none, insert_fresh, insert_known,
}
use mimeclip.Database.History.Changes.{history-added, history-refreshed, history_next}

-- A database of the current schema, no statement of which fails, and which knows whether the older
-- column is there.
pub record IsUsable (db : Database) : Type 0 where
  pub valid : IsValid db.tables
  pub references : db.references ≡ true
  pub no_faults : HasNoFaults db
  pub timestamp : db.has_legacy_timestamp ≡ db.timestamp_column

-- What a call leaves of a usable database, beside its validity
pub record IsLeft (db : Database) : Type 0 where
  pub references : db.references ≡ true
  pub no_faults : HasNoFaults db
  pub timestamp : db.has_legacy_timestamp ≡ db.timestamp_column
  pub small : IsSmall (limits_of db)

pub left : (db : Database) → IsUsable db → IsSmall (limits_of db) → IsLeft db
left db u small = record {
  references = u.references;
  no_faults = u.no_faults;
  timestamp = u.timestamp;
  small = small;
}

-- What deletions by the ids keep, the trimmed tables keep.
module _ (P : Tables → Type 0)
    (keeps : (gone : EntryRow → Bool)
      → IsById gone
      → (t : Tables) → P t
      → P (delete_where gone t)) where
  trimmed-keeps :
      (plan : Planner) (db : Database) → HasNoFaults db → P db.tables → P (trimmed plan db)
  trimmed-keeps plan db h p =
      subst (λ x. P x.1.tables) (trim_now plan db h) ((trim-Keeps P keeps plan).at db p)

-- The parts of the schema that no call changes
abbrev IsFixed : Bool → Tables → Type 0
IsFixed b t = (t.references ≡ true) × (b ≡ t.timestamp_column)

pub trimmed-IsFixed :
    (b : Bool) (plan : Planner) (db : Database)
    → HasNoFaults db
    → IsFixed b db.tables
    → IsFixed b (trimmed plan db)
unfolding delete_where
trimmed-IsFixed b = trimmed-keeps (IsFixed b) (λ gone by_id t f. f)

trimmed-Forgets :
    (plan : Planner) (db : Database)
    → HasNoFaults db
    → Forgets (history db.tables) (history (trimmed plan db))
trimmed-Forgets plan db h =
    subst (λ x. Forgets (history db.tables) (history x.1.tables)) (trim_now plan db h)
      ((trim-Forgets (history db.tables) plan).at db (Forgets-refl (history db.tables)))

-- Forgetting, up to what the history before it is
Forgets-from : (a b c : History) → ((i : ℕ) → b i ≡ a i) → Forgets b c → Forgets a c
Forgets-from a b c same f i = elim (f i) [ inl lost ↦ inl lost | inr kept ↦ inr (kept ∙ same i) ]

-- The id that `insert` takes is that of the hash.
pub fresh-IsKeyOf :
    (e : NewEntry) (db : Database)
    → IsUsable db
    → id_of_hash e.hash db.tables ≡ none
    → IsKeyOf e.hash (suc db.entry_seq) (history db.tables)
unfolding id_of_hash history
fresh-IsKeyOf e db u fresh = inr (
  history_next e db u.valid u.references,
  λ i item found.
      hash_of_row e.hash i _ db.entries item (any_of_none e.hash db.entries fresh) found,
)

pub known_item :
    (e : NewEntry) (db : Database) (id : ℕ)
    → IsUsable db
    → id_of_hash e.hash db.tables ≡ some id
    → (item : Item) × (history db.tables id ≡ some item) × (item.hash ≡ e.hash)
unfolding id_of_hash history
known_item e db id u known =
    let (_, item, found, same) =
      found_row db.entry_seq 0 e.hash id (payloads_of id db.tables) db.entries u.valid.ids known in
    (item, found, same)

pub trimmed-IsTrimOf :
    (plan : Planner) (db : Database) (h : History) (l : Limits)
    → HasNoFaults db
    → IsValid db.tables
    → limits_of db ≡ l
    → IsSmall l
    → ((i : ℕ) → history db.tables i ≡ h i)
    → IsTrimOf l h (trimmed plan db)
trimmed-IsTrimOf plan db h l no_faults v are small same = record {
  rows = db.tables;
  valid = v;
  same = same;
  forgets = Forgets-from h (history db.tables) _ same (trimmed-Forgets plan db no_faults);
  trimmed =
      let s = subst IsSmall (sym are) small in
      subst
        (λ (x : Limits).
          IsTrimmed x.max_entries x.max_history_size db.entries (trimmed plan db).entries)
        are (trimmed-IsTrimmed plan db v s.0 s.1);
}

module _ (plan : Planner) (e : NewEntry) (db : Database) (u : IsUsable db)
    (small : IsSmall (limits_of db)) where
  added_limits : limits_of (added e db) ≡ limits_of db
  unfolding append_entry
  added_limits = rw ((added-IsLike e db).max_entries, (added-IsLike e db).max_history_size) refl

  fresh-IsStep :
      (db' : Database)
      → id_of_hash e.hash db.tables ≡ none
      → db' ≡ record (added e db) { tables = trimmed plan (added e db) }
      → IsStep (inserts e) db db'
  fresh-IsStep db' fresh is =
      let none' = any_of_none e.hash db.entries (unfold id_of_hash in fresh) in
      rw is (
        added_limits,
        suc db.entry_seq,
        fresh-IsKeyOf e db u fresh,
        trimmed-IsTrimOf plan (added e db) _ (limits_of db) (added-HasNoFaults e db u.no_faults)
            (added-IsValid e db u.no_faults u.timestamp none' u.valid) added_limits small
            (history-added e db u.valid u.references),
      )

  known-IsStep :
      (id : ℕ)
      → id_of_hash e.hash db.tables ≡ some id
      → IsStep
          (inserts e)
          db
          (record db { tables = trimmed plan (record db { tables = refresh e id db.tables }) })
  known-IsStep id known =
      let (item, found, same) = known_item e db id u known in
      (
        refl,
        id,
        inl (item, found, same),
        trimmed-IsTrimOf plan (record db { tables = refresh e id db.tables }) _ (limits_of db)
            u.no_faults (refresh-IsValid e id db.tables u.valid) refl small
            (history-refreshed e id db.tables item found),
      )

  pub insert_found-IsStep :
      (found : Option ℕ)
      → id_of_hash e.hash db.tables ≡ found
      → IsStep (inserts e) db (insert plan e db).1 × IsLeft (insert plan e db).1
  unfolding append_entry refresh
  insert_found-IsStep none fresh =
      let like = added-IsLike e db in
      let fixed =
        trimmed-IsFixed (added e db).has_legacy_timestamp plan (added e db)
          (added-HasNoFaults e db u.no_faults)
          (
            like.references ∙ u.references,
            like.has_legacy_timestamp ∙ u.timestamp ∙ sym like.timestamp_column,
          ) in
      rw (insert_fresh plan e db u.no_faults u.timestamp fresh) (
        fresh-IsStep _ fresh refl,
        record {
          references = fixed.0;
          no_faults = added-HasNoFaults e db u.no_faults;
          timestamp = fixed.1;
          small = subst IsSmall (sym added_limits) small;
        },
      )
  insert_found-IsStep (some id) known =
      let fixed =
        trimmed-IsFixed db.has_legacy_timestamp plan (record db { tables = refresh e id db.tables })
          u.no_faults (u.references, u.timestamp) in
      rw (insert_known plan e db id u.no_faults known) (
        known-IsStep id known,
        record {
          references = fixed.0;
          no_faults = u.no_faults;
          timestamp = fixed.1;
          small = small;
        },
      )

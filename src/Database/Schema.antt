-- ===== src/Database/Schema.antt =====
-- The schema of src/common/db.rs, and the rows that its statements read and write.
use mimeclip.Base.{ℕ, Bool, not, ◌&&◌, List, any, keep, ◌==◌, leb, if◌then◌else◌, Perm}
use mimeclip.Base.Bytes.{Text, Bytes, text_le, text_eq}
use mimeclip.Base.Sorting.{IsSorted}

-- A row of `entries`. Times are the texts that `to_rfc3339` writes.
pub record EntryRow : Type 0 where
  pub id : ℕ
  pub hash : Text
  pub kind : Text
  pub label : Text
  pub preview : Text
  pub size : ℕ
  pub created_at : Text
  pub last_used_at : Text

-- A row of `payloads`.
pub record PayloadRow : Type 0 where
  pub id : ℕ
  pub entry_id : ℕ
  pub mime_type : Text
  pub content : Bytes

pub record Tables : Type 0 where
  pub entries : List EntryRow
  pub payloads : List PayloadRow
  -- AUTOINCREMENT: the largest id that was ever given out
  pub entry_seq : ℕ
  pub payload_seq : ℕ
  -- `payloads.entry_id` REFERENCES entries(id) ON DELETE CASCADE. A table that stood there before
  -- `init` is left as it is, and may lack the reference.
  pub references : Bool
  -- the NOT NULL column `timestamp` of the older schema
  pub timestamp_column : Bool

-- DELETE FROM entries WHERE gone
unfoldable pub delete_where : (EntryRow → Bool) → Tables → Tables
delete_where gone t = record t {
  entries = keep (λ r. not (gone r)) t.entries;
  payloads =
      if t.references
      then keep (λ p. not (any (λ r. gone r && r.id == p.entry_id) t.entries)) t.payloads
      else t.payloads;
}

-- `a` comes before `b` under ORDER BY last_used_at DESC.
unfoldable pub newer : EntryRow → EntryRow → Bool
newer a b = text_le b.last_used_at a.last_used_at

-- `a` comes before `b` under ORDER BY last_used_at ASC, id ASC.
unfoldable pub older : EntryRow → EntryRow → Bool
older a b =
    if text_eq a.last_used_at b.last_used_at
    then leb a.id b.id
    else text_le a.last_used_at b.last_used_at

-- ORDER BY last_used_at DESC leaves the order of equal times to SQLite: any choice of it.
pub record Planner : Type 0 where
  pub by_recency : List EntryRow → List EntryRow
  pub by_recency-perm : (rows : List EntryRow) → Perm (by_recency rows) rows
  pub by_recency-IsSorted : (rows : List EntryRow) → IsSorted newer (by_recency rows)

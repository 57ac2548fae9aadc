-- ===== src/Database/History.antt =====
-- What the history of src/common/db.rs is to its callers: entries by their ids, with all that they
-- hold, and what the calls do to it. No order of rows and no other table is left.
pub mod Forgetting
pub mod Rows
pub mod Inserting
pub mod Owners
pub mod Changes
pub mod Steps
pub mod Usable
pub mod Refinement
pub mod Recorded
use mathlib.Core.Option
use mimeclip.Base.{
  ℕ, ◌≡◌, ◌≢◌, ◌⊎◌, inl, inr, refl, Option, none, some, List, [], ◌∷◌, ◌==◌, if◌then◌else◌,
}
use mimeclip.Base.Bytes.{Text}
use mimeclip.Kind
use mimeclip.Payloads.{Payload}
use mimeclip.Database.{EntryRow, Tables}
use mimeclip.Database.Query.{first_row, payloads_of}
use mimeclip.Database.Store.{NewEntry}

pub record Item : Type 0 where
  pub hash : Text
  pub kind : Text
  pub label : Text
  pub preview : Text
  pub size : ℕ
  pub created_at : Text
  pub last_used_at : Text
  pub payloads : List Payload

abbrev pub History : Type 0
History = ℕ → Option Item

unfoldable pub item_of : List Payload → EntryRow → Item
item_of payloads r = record {
  hash = r.hash;
  kind = r.kind;
  label = r.label;
  preview = r.preview;
  size = r.size;
  created_at = r.created_at;
  last_used_at = r.last_used_at;
  payloads = payloads;
}

-- The history that the tables hold.
unfoldable pub history : Tables → History
unfolding first_row item_of
history t i = first_row (λ r. r.id == i) (item_of (payloads_of i t)) t.entries

-- A new entry, or one that is copied again: that keeps its payloads and its time of creation.
abbrev pub recorded : NewEntry → Option Item → Item
recorded e none = record {
  hash = e.hash;
  kind = Kind.label e.kind;
  label = e.label;
  preview = e.preview;
  size = e.size;
  created_at = e.created_at;
  last_used_at = e.created_at;
  payloads = e.payloads;
}
recorded e (some item) = record item {
  kind = Kind.label e.kind;
  label = e.label;
  preview = e.preview;
  size = e.size;
  last_used_at = e.created_at;
}

abbrev pub put : NewEntry → ℕ → History → History
put e id h i = if i == id then some (recorded e (h i)) else h i

abbrev pub used : Text → ℕ → History → History
used now id h i =
    if i == id then Option.map (λ (item : Item). record item { last_used_at = now }) (h i) else h i

abbrev pub removed : ℕ → History → History
removed id h i = if i == id then none else h i

-- Some entries may be gone, and the others are what they were.
abbrev pub Forgets : History → History → Type 0
Forgets h h' = (i : ℕ) → (h' i ≡ none) ⊎ (h' i ≡ h i)

-- The id of the entry with the hash, or one that is free where no entry has it.
abbrev pub IsKeyOf : Text → ℕ → History → Type 0
IsKeyOf hash id h =
    ((item : Item) × (h id ≡ some item) × (item.hash ≡ hash))
    ⊎ ((h id ≡ none) × ((i : ℕ) (item : Item) → h i ≡ some item → item.hash ≢ hash))

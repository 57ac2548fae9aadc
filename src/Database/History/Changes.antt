-- ===== src/Database/History/Changes.antt =====
-- The history of src/common/db.rs after an insert that adds a row, and after an UPDATE.
use mathlib.Core.Option
use mimeclip.Base.{
  ℕ, suc, ◌≤◌, ◌<◌, ◌≡◌, refl, ap, sym, subst, ◌∙◌, inl, inr, Bool-cases, true, false, none, some,
  List, [], ◌++◌, map, All, ◌==◌, ==_iff, ==_refl, arith, if◌then◌else◌,
}
use mimeclip.Base.Bytes.{Text}
use mimeclip.Payloads.{Payload}
use mimeclip.Database.{EntryRow, PayloadRow, Tables, Database}
use mimeclip.Database.Query.{first_row, payloads_of}
use mimeclip.Database.Store.{NewEntry, new_row, append_entry, refresh_row, refresh, touch_row}
use mimeclip.Database.Valid.{IsValid}
use mimeclip.Database.History.{Item, History, item_of, history, recorded, put, used}
use mimeclip.Database.History.Rows.{
  first_row-last, first_row-before, first_row-map, first_row-ext, first_row-after, first_row-above,
  Ascends-bound,
}
use mimeclip.Database.History.Inserting.{added, added-IsLike}
use mimeclip.Database.History.Owners.{payloads-above, payloads-added, payloads-other}

module _ (e : NewEntry) (db : Database) (v : IsValid db.tables)
    (references : db.references ≡ true) where
  ids_bound : All (λ (r : EntryRow). (0 < r.id) × (r.id ≤ db.entry_seq)) db.entries
  ids_bound = Ascends-bound db.entry_seq 0 db.entries v.ids

  no_orphans : payloads_of (suc db.entry_seq) db.tables ≡ []
  unfolding payloads_of
  no_orphans =
      ap (map (λ (p : PayloadRow). (p.mime_type, p.content)))
        (payloads-above db.entry_seq db.entries db.payloads ids_bound (v.owned references))

  -- The next id is free.
  pub history_next : history db.tables (suc db.entry_seq) ≡ none
  unfolding history
  history_next = first_row-above db.entry_seq _ db.entries ids_bound

  payloads_next : payloads_of (suc db.entry_seq) (added e db).tables ≡ e.payloads
  unfolding added append_entry payloads_of
  payloads_next =
      payloads-added (suc db.entry_seq) e.payloads (append_entry (new_row e (suc db.entry_seq)) db)
      ∙ ap (λ ps. ps ++ e.payloads) no_orphans

  added_here : history (added e db).tables (suc db.entry_seq) ≡ some (recorded e none)
  unfolding history append_entry new_row item_of
  added_here =
      rw ((added-IsLike e db).entries, payloads_next)
        (first_row-last _ (item_of e.payloads) db.entries (new_row e (suc db.entry_seq))
          history_none (==_refl (suc db.entry_seq)))
    where
      history_none :
          first_row (λ (r : EntryRow). r.id == suc db.entry_seq) (item_of e.payloads) db.entries
          ≡ none
      history_none = first_row-above db.entry_seq _ db.entries ids_bound

  added_there :
      (i : ℕ)
      → (suc db.entry_seq == i) ≡ false
      → history (added e db).tables i ≡ history db.tables i
  unfolding history append_entry new_row added payloads_of
  added_there i other = rw (added-IsLike e db).entries (
      first_row-before _ _ db.entries (new_row e (suc db.entry_seq)) other
      ∙ ap (λ ps. first_row (λ (r : EntryRow). r.id == i) (item_of ps) db.entries)
          (payloads-other (suc db.entry_seq) i e.payloads
            (append_entry (new_row e (suc db.entry_seq)) db) other))

  -- The new entry is there, with the next id, and all others are as they were.
  pub history-added :
      (i : ℕ) → history (added e db).tables i ≡ put e (suc db.entry_seq) (history db.tables) i
  history-added i = elim (Bool-cases (i == suc db.entry_seq)) [
    | inl h ↦ rw h (
        subst (λ k. history (added e db).tables k ≡ some (recorded e (history db.tables k)))
          (sym ((==_iff i (suc db.entry_seq)).0 h))
          (added_here ∙ ap (λ o. some (recorded e o)) (sym history_next)))
    | inr h ↦ rw h (added_there i (ground arith))
  ]

-- A change of the row with one id
module _ (change : EntryRow → EntryRow) (upd : Item → Item) (id : ℕ)
    (ids : (r : EntryRow) → (change r).id ≡ r.id)
    (others : (r : EntryRow) → (r.id == id) ≡ false → change r ≡ r)
    (one : (payloads : List Payload) (r : EntryRow)
      → (r.id == id) ≡ true
      → item_of payloads (change r) ≡ upd (item_of payloads r)) where
  history-changed :
      (t : Tables) (i : ℕ)
      → history (record t { entries = map change t.entries }) i
        ≡ (if i == id then Option.map upd (history t i) else history t i)
  unfolding history payloads_of
  history-changed t i = elim (Bool-cases (i == id)) [
    | inl h ↦ rw h (
        first_row-map _ _ change t.entries (λ r. ap (λ k. k == i) (ids r))
        ∙ first_row-ext _ _ (λ r. upd (item_of (payloads_of i t) r)) t.entries
            (λ r here. one (payloads_of i t) r (ground arith))
        ∙ first_row-after _ _ upd t.entries)
    | inr h ↦ rw h (
        first_row-map _ _ change t.entries (λ r. ap (λ k. k == i) (ids r))
        ∙ first_row-ext _ _ (item_of (payloads_of i t)) t.entries
            (λ r here. ap (item_of (payloads_of i t)) (others r (ground arith))))
  ]

pub history-touched :
    (now : Text) (id : ℕ) (t : Tables) (i : ℕ)
    → history (record t { entries = map (touch_row now id) t.entries }) i
      ≡ used now id (history t) i
unfolding touch_row item_of
history-touched now id t i =
    history-changed _ (λ item. record item { last_used_at = now }) id (λ r. ground arith)
      (λ r h. rw h refl) (λ ps r h. rw h refl) t i

put_known :
    (e : NewEntry) (id : ℕ) (h : History) (item : Item)
    → h id ≡ some item
    → (i : ℕ)
    → (if i == id then Option.map (λ (x : Item). recorded e (some x)) (h i) else h i) ≡ put e id h i
put_known e id h item known i = elim (Bool-cases (i == id)) [
  | inl here ↦ rw here (
      subst (λ k. Option.map (λ (x : Item). recorded e (some x)) (h k) ≡ some (recorded e (h k)))
        (sym ((==_iff i id).0 here)) (rw known refl))
  | inr other ↦ rw other refl
]

pub history-refreshed :
    (e : NewEntry) (id : ℕ) (t : Tables) (item : Item)
    → history t id ≡ some item
    → (i : ℕ) → history (refresh e id t) i ≡ put e id (history t) i
unfolding refresh refresh_row item_of
history-refreshed e id t item known i =
    history-changed _ (λ x. recorded e (some x)) id (λ r. ground arith) (λ r h. rw h refl)
      (λ ps r h. rw h refl) t i
    ∙ put_known e id (history t) item known i

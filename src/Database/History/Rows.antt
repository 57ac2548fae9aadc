-- ===== src/Database/History/Rows.antt =====
-- The rows of src/common/db.rs by their ids.
use mathlib.Core.Option
use mathlib.Core.Option.{some-injective}
use mimeclip.Base.{
  ℕ, suc, ◌≤◌, ◌<◌, ◌≡◌, ◌≢◌, refl, ap, ◌∙◌, Bool, Bool-cases, inl, inr, true, false, none, some,
  List, [], ◌∷◌, ◌++◌, any, map, All, All-weaken, ◌==◌, ==_iff, arith,
}
use mimeclip.Base.Bytes.{Text, text_eq, text_eq_iff}
use mimeclip.Database.{EntryRow}
use mimeclip.Database.Query.{first_row}
use mimeclip.Database.Valid.{Ascends}
use mimeclip.Database.Valid.Rows.{Ascends-le}
use mimeclip.Database.History.{Item, item_of}
use mimeclip.Payloads.{Payload}

module _ {A : Type 0} (test : EntryRow → Bool) (f : EntryRow → A) where
  pub first_row-last :
      (rows : List EntryRow) (r : EntryRow)
      → first_row test f rows ≡ none
      → test r ≡ true
      → first_row test f (rows ++ r ∷ []) ≡ some (f r)
  unfolding first_row
  first_row-last [] r h k = rw k refl
  first_row-last (s ∷ rows) r h k = elim (Bool-cases (test s)) [
    | inl e ↦ let l = rw e at h in cc
    | inr e ↦ let l = rw e at h in rw e (first_row-last rows r l k)
  ]

  pub first_row-before :
      (rows : List EntryRow) (r : EntryRow)
      → test r ≡ false
      → first_row test f (rows ++ r ∷ []) ≡ first_row test f rows
  unfolding first_row
  first_row-before [] r k = rw k refl
  first_row-before (s ∷ rows) r k = elim (Bool-cases (test s)) [
    | inl e ↦ rw e refl
    | inr e ↦ rw e (first_row-before rows r k)
  ]

  pub first_row-map :
      (change : EntryRow → EntryRow) (rows : List EntryRow)
      → ((r : EntryRow) → test (change r) ≡ test r)
      → first_row test f (map change rows) ≡ first_row test (λ r. f (change r)) rows
  unfolding first_row
  first_row-map change [] same = refl
  first_row-map change (r ∷ rows) same = elim (Bool-cases (test r)) [
    | inl e ↦ rw (same r, e) refl
    | inr e ↦ rw (same r, e) (first_row-map change rows same)
  ]

  pub first_row-ext :
      (g : EntryRow → A) (rows : List EntryRow)
      → ((r : EntryRow) → test r ≡ true → f r ≡ g r)
      → first_row test f rows ≡ first_row test g rows
  unfolding first_row
  first_row-ext g [] same = refl
  first_row-ext g (r ∷ rows) same = elim (Bool-cases (test r)) [
    | inl e ↦ rw e (ap some (same r e))
    | inr e ↦ rw e (first_row-ext g rows same)
  ]

  pub first_row-after :
      {B : Type 0} (g : A → B) (rows : List EntryRow)
      → first_row test (λ r. g (f r)) rows ≡ Option.map g (first_row test f rows)
  unfolding first_row
  first_row-after g [] = refl
  first_row-after g (r ∷ rows) = elim (Bool-cases (test r)) [
    | inl e ↦ rw e refl
    | inr e ↦ rw e (first_row-after g rows)
  ]

-- No row has an id above the sequence.
pub first_row-above :
    {A : Type 0} (seq : ℕ) (f : EntryRow → A) (rows : List EntryRow)
    → All (λ (r : EntryRow). (0 < r.id) × (r.id ≤ seq)) rows
    → first_row (λ r. r.id == suc seq) f rows ≡ none
unfolding first_row
first_row-above seq f [] h = refl
first_row-above seq f (r ∷ rows) h = ground (arith, first_row-above seq f rows)

pub owner-le :
    (seq id : ℕ) (rows : List EntryRow)
    → All (λ (r : EntryRow). (0 < r.id) × (r.id ≤ seq)) rows
    → any (λ (r : EntryRow). r.id == id) rows ≡ true
    → id ≤ seq
unfolding any
owner-le seq id [] h k = cc
owner-le seq id (r ∷ rows) h k = elim (Bool-cases (r.id == id)) [
  | inl e ↦ ground arith
  | inr e ↦ owner-le seq id rows h.1 (ground arith)
]

-- The row with a hash that is found by its id.
pub found_row :
    (seq lo : ℕ) (hash : Text) (id : ℕ) (payloads : List Payload) (rows : List EntryRow)
    → Ascends (λ (r : EntryRow). r.id) seq lo rows
    → first_row (λ r. text_eq r.hash hash) (λ r. r.id) rows ≡ some id
    → (lo < id)
      × (item : Item) × (first_row (λ r. r.id == id) (item_of payloads) rows ≡ some item)
      × (item.hash ≡ hash)
unfolding first_row item_of
found_row seq lo hash id payloads [] a h = cc
found_row seq lo hash id payloads (r ∷ rows) a h = elim (Bool-cases (text_eq r.hash hash)) [
  | inl e ↦
      let same = some-injective r.id id (rw e at h) in
      (
        omega (arith, a.0, same),
        item_of payloads r,
        rw ((==_iff r.id id).1 same) refl,
        (text_eq_iff r.hash hash).0 e,
      )
  | inr e ↦
      let (lt, item, found, is) = found_row seq r.id hash id payloads rows a.1 (rw e at h) in
      (omega (arith, a.0, lt), item, rw (unequal r.id id lt) found, is)
]
  where
    unequal : (a b : ℕ) → a < b → (a == b) ≡ false
    unequal a b h = ground arith

pub hash_of_row :
    (hash : Text) (i : ℕ) (payloads : List Payload) (rows : List EntryRow) (item : Item)
    → any (λ (r : EntryRow). text_eq r.hash hash) rows ≡ false
    → first_row (λ r. r.id == i) (item_of payloads) rows ≡ some item
    → item.hash ≢ hash
unfolding first_row any item_of
hash_of_row hash i payloads [] item h k e = cc
hash_of_row hash i payloads (r ∷ rows) item h k e = elim (Bool-cases (r.id == i)) [
  | inl here ↦
      let first = some-injective (item_of payloads r) item (rw here at k) in
      let found = (text_eq_iff r.hash hash).1 (ap (λ (x : Item). x.hash) first ∙ e) in ground arith
  | inr other ↦ hash_of_row hash i payloads rows item (ground arith) (rw other at k) e
]

-- Ids are positive, and at most the sequence.
pub Ascends-bound :
    (seq lo : ℕ) (rows : List EntryRow)
    → Ascends (λ (r : EntryRow). r.id) seq lo rows
    → All (λ (r : EntryRow). (0 < r.id) × (r.id ≤ seq)) rows
Ascends-bound seq lo rows a =
    All-weaken _ _ rows (λ r h. (omega (arith, h.0), h.1)) (Ascends-le _ seq lo rows a)

-- ===== src/Database/Valid/Rows.antt =====
-- How the statements of src/common/db.rs act on the invariant of the tables.
use native.Mathlib.Nat.{le_trans, le_of_lt}
use mimeclip.Base.{
  ℕ, suc, ◌≤◌, ◌<◌, ◌≡◌, Bool, Bool-cases, inl, inr, true, false, not, ◌&&◌, List, [], ◌∷◌, ◌++◌,
  any, keep, map, All, ◌==◌, arith, if◌then◌else◌,
}
use mimeclip.Base.Bytes.{text_eq}
use mimeclip.Database.{EntryRow, PayloadRow, Tables, delete_where}
use mimeclip.Database.Valid.{Ascends, HasDistinctHashes, IsOwned, IsValid}

Ascends-mono :
    {A : Type 0} (key : A → ℕ) (seq lo hi : ℕ) (xs : List A)
    → lo ≤ hi
    → Ascends key seq hi xs
    → Ascends key seq lo xs
Ascends-mono key seq lo hi [] h s = omega arith
Ascends-mono key seq lo hi (x ∷ xs) h s = (omega arith, s.1)

Ascends-keep :
    {A : Type 0} (key : A → ℕ) (test : A → Bool) (seq lo : ℕ) (xs : List A)
    → Ascends key seq lo xs
    → Ascends key seq lo (keep test xs)
unfolding keep
Ascends-keep key test seq lo [] s = s
Ascends-keep key test seq lo (x ∷ xs) s = elim (Bool-cases (test x)) [
  | inl kept ↦ rw kept (s.0, Ascends-keep key test seq (key x) xs s.1)
  | inr gone ↦ rw gone (
      Ascends-mono key seq lo (key x) (keep test xs) (omega arith)
        (Ascends-keep key test seq (key x) xs s.1))
]

-- A row with the next id goes to the end.
pub Ascends-append :
    {A : Type 0} (key : A → ℕ) (seq lo : ℕ) (xs : List A) (x : A)
    → key x ≡ suc seq
    → Ascends key seq lo xs
    → Ascends key (suc seq) lo (xs ++ x ∷ [])
Ascends-append key seq lo [] x e s = (omega arith, omega arith)
Ascends-append key seq lo (y ∷ ys) x e s = (s.0, Ascends-append key seq (key y) ys x e s.1)

pub Ascends-map :
    {A : Type 0} (key : A → ℕ) (f : A → A) (seq lo : ℕ) (xs : List A)
    → ((x : A) → key (f x) ≡ key x)
    → Ascends key seq lo xs
    → Ascends key seq lo (map f xs)
Ascends-map key f seq lo [] same s = s
Ascends-map key f seq lo (x ∷ xs) same s =
    (rw same s.0, rw same (Ascends-map key f seq (key x) xs same s.1))

pub All-mono :
    {A : Type 0} (P Q : A → Type 0) (xs : List A) → ((x : A) → P x → Q x) → All P xs → All Q xs
All-mono P Q [] f h = tt
All-mono P Q (x ∷ xs) f h = (f x h.0, All-mono P Q xs f h.1)

Ascends-head :
    {A : Type 0} (key : A → ℕ) (seq lo : ℕ) (xs : List A) → Ascends key seq lo xs → lo ≤ seq
Ascends-head key seq lo [] s = s
Ascends-head key seq lo (x ∷ xs) s = le_trans (le_of_lt s.0) (Ascends-head key seq (key x) xs s.1)

-- The largest id bounds every id.
pub Ascends-le :
    {A : Type 0} (key : A → ℕ) (seq lo : ℕ) (xs : List A)
    → Ascends key seq lo xs
    → All (λ x. (lo < key x) × (key x ≤ seq)) xs
Ascends-le key seq lo [] s = tt
Ascends-le key seq lo (x ∷ xs) s = (
  ((s.0, Ascends-head key seq (key x) xs s.1)),
  All-mono _ _ xs (λ y h. (omega arith, h.1)) (Ascends-le key seq (key x) xs s.1),
)

All-keep :
    {A : Type 0} (P Q : A → Type 0) (test : A → Bool) (xs : List A)
    → ((x : A) → P x → test x ≡ true → Q x)
    → All P xs
    → All Q (keep test xs)
unfolding keep
All-keep P Q test [] f h = tt
All-keep P Q test (x ∷ xs) f h = elim (Bool-cases (test x)) [
  | inl kept ↦ rw kept (f x h.0 kept, All-keep P Q test xs f h.1)
  | inr gone ↦ rw gone (All-keep P Q test xs f h.1)
]

HasDistinctHashes-keep :
    (test : EntryRow → Bool) (rows : List EntryRow)
    → HasDistinctHashes rows
    → HasDistinctHashes (keep test rows)
unfolding keep
HasDistinctHashes-keep test [] d = tt
HasDistinctHashes-keep test (r ∷ rows) d = elim (Bool-cases (test r)) [
  | inl kept ↦ rw kept (
    All-keep (λ s. text_eq s.hash r.hash ≡ false) (λ s. text_eq s.hash r.hash ≡ false) test rows
        (λ s h _. h) d.0,
    HasDistinctHashes-keep test rows d.1,
  )
  | inr gone ↦ rw gone (HasDistinctHashes-keep test rows d.1)
]

-- An owner that is not deleted stays.
owner-keep :
    (gone : EntryRow → Bool) (entry_id : ℕ) (rows : List EntryRow)
    → any (λ (r : EntryRow). r.id == entry_id) rows ≡ true
    → any (λ (r : EntryRow). gone r && r.id == entry_id) rows ≡ false
    → any (λ (r : EntryRow). r.id == entry_id) (keep (λ r. not (gone r)) rows) ≡ true
unfolding any keep
owner-keep gone entry_id [] h k = h
owner-keep gone entry_id (r ∷ rows) h k = ground (arith, owner-keep gone entry_id rows)

if_both : {A : Type 0} (P : A → Type 0) (b : Bool) {x y : A} → P x → P y → P (if b then x else y)
if_both P true px py = px
if_both P false px py = py

if_true : {A : Type 0} {b : Bool} (x y : A) → b ≡ true → (if b then x else y) ≡ x
if_true x y e = rw e

-- Deleting entries keeps the invariant: no payload is left without its entry.
pub delete_where-IsValid :
    (gone : EntryRow → Bool) (t : Tables) → IsValid t → IsValid (delete_where gone t)
unfolding delete_where
delete_where-IsValid gone t v = record {
  ids = Ascends-keep (λ r. r.id) (λ r. not (gone r)) t.entry_seq 0 t.entries v.ids;
  payload_ids =
      if_both (Ascends (λ (p : PayloadRow). p.id) t.payload_seq 0) t.references
        (Ascends-keep (λ p. p.id) _ t.payload_seq 0 t.payloads v.payload_ids) v.payload_ids;
  hashes = HasDistinctHashes-keep (λ r. not (gone r)) t.entries v.hashes;
  owned = λ on. rw (if_true _ _ on) (
      All-keep (IsOwned t.entries) (IsOwned (keep (λ r. not (gone r)) t.entries)) _ t.payloads
        (λ p h kept. owner-keep gone p.entry_id t.entries h (ground arith)) (v.owned on));
}

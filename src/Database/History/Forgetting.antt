-- ===== src/Database/History/Forgetting.antt =====
-- Deletions of src/common/db.rs, and `trim`, only ever forget entries of the history.
use mimeclip.Base.{
  ℕ, ◌≡◌, refl, ap, subst, ◌∙◌, ◌⊎◌, inl, inr, Bool, Bool-cases, true, false, not, ◌&&◌, none, List,
  [], ◌∷◌, any, keep, ◌==◌, ==_iff, arith,
}
use mimeclip.Database.{EntryRow, Tables, Planner, delete_where}
use mimeclip.Database.Query.{first_row, payloads_of}
use mimeclip.Database.Store.{delete_entry, trim}
use mimeclip.Database.Valid.{Keeps}
use mimeclip.Database.Valid.Trimming.{trim-Keeps}
use mimeclip.Database.Lasting.{delete_payloads}
use mimeclip.Database.History.{History, item_of, history, removed, Forgets}

any_exists :
    {A : Type 0} (test : A → Bool) (xs : List A) → any test xs ≡ true → (x : A) × (test x ≡ true)
unfolding any
any_exists test [] h = cc
any_exists test (x ∷ xs) h = elim (Bool-cases (test x)) [
  | inl e ↦ (x, e)
  | inr e ↦ any_exists test xs (ground arith)
]

module _ {A : Type 0} (gone : EntryRow → Bool) (i : ℕ) (f : EntryRow → A) where
  first_row-keep :
      (rows : List EntryRow)
      → any (λ r. gone r && r.id == i) rows ≡ false
      → first_row (λ r. r.id == i) f (keep (λ r. not (gone r)) rows)
        ≡ first_row (λ r. r.id == i) f rows
  unfolding first_row keep any
  first_row-keep [] h = refl
  first_row-keep (r ∷ rows) h = ground (arith, first_row-keep rows)

  first_row-gone :
      ((r s : EntryRow) → r.id ≡ s.id → gone r ≡ gone s)
      → (s : EntryRow) → s.id ≡ i
      → gone s ≡ true
      → (rows : List EntryRow) → first_row (λ r. r.id == i) f (keep (λ r. not (gone r)) rows) ≡ none
  unfolding first_row keep
  first_row-gone by_id s e g [] = refl
  first_row-gone by_id s e g (r ∷ rows) = ground (arith, first_row-gone by_id s e g rows, by_id r s)

module _ (gone : EntryRow → Bool) (by_id : (r s : EntryRow) → r.id ≡ s.id → gone r ≡ gone s)
    (t : Tables) (i : ℕ) where
  -- No row with the id is deleted
  history-kept :
      any (λ (r : EntryRow). gone r && r.id == i) t.entries ≡ false
      → history (delete_where gone t) i ≡ history t i
  unfolding history delete_where payloads_of
  history-kept h =
      first_row-keep gone i _ t.entries h
      ∙ ap (λ p. first_row (λ (r : EntryRow). r.id == i) (item_of p) t.entries)
          (delete_payloads (record { id = i; payloads = []; hash = []; created_at = [] }) gone by_id
            t.references t h)

  -- or every one
  history-gone :
      any (λ (r : EntryRow). gone r && r.id == i) t.entries ≡ true
      → history (delete_where gone t) i ≡ none
  unfolding history delete_where
  history-gone h =
      let (s, e) = any_exists _ t.entries h in
      first_row-gone gone i _ by_id s (ground arith) (ground arith) t.entries

  delete_where-forgets :
      (history (delete_where gone t) i ≡ none) ⊎ (history (delete_where gone t) i ≡ history t i)
  delete_where-forgets = elim (Bool-cases (any (λ (r : EntryRow). gone r && r.id == i) t.entries)) [
    | inl h ↦ inl (history-gone h)
    | inr h ↦ inr (history-kept h)
  ]

pub Forgets-refl : (h : History) → Forgets h h
Forgets-refl h i = inr refl

pub Forgets-trans : (a b c : History) → Forgets a b → Forgets b c → Forgets a c
Forgets-trans a b c f g i = elim (g i) [
  | inl lost ↦ inl lost
  | inr same ↦ elim (f i) [ inl lost ↦ inl (same ∙ lost) | inr same' ↦ inr (same ∙ same') ]
]

first_row-deleted :
    {A : Type 0} (i : ℕ) (f : EntryRow → A) (rows : List EntryRow)
    → first_row (λ r. r.id == i) f (keep (λ r. not (r.id == i)) rows) ≡ none
unfolding first_row keep
first_row-deleted i f [] = refl
first_row-deleted i f (r ∷ rows) = ground (arith, first_row-deleted i f rows)

no_row-both :
    (entry_id i : ℕ) (rows : List EntryRow)
    → (i == entry_id) ≡ false
    → any (λ (r : EntryRow). r.id == entry_id && r.id == i) rows ≡ false
unfolding any
no_row-both entry_id i [] h = refl
no_row-both entry_id i (r ∷ rows) h = ground (arith, no_row-both entry_id i rows h)

removed_here :
    (entry_id : ℕ) (t : Tables) (i : ℕ) → i ≡ entry_id → history (delete_entry entry_id t) i ≡ none
unfolding delete_entry delete_where history
removed_here entry_id t i e =
    subst
      (λ k.
        first_row (λ (r : EntryRow). r.id == i) (item_of (payloads_of i (delete_entry entry_id t)))
          (keep (λ (r : EntryRow). not (r.id == k)) t.entries)
        ≡ none)
      e (first_row-deleted i _ t.entries)

-- DELETE FROM entries WHERE id = …
pub delete_entry-removed :
    (entry_id : ℕ) (t : Tables) (i : ℕ)
    → history (delete_entry entry_id t) i ≡ removed entry_id (history t) i
unfolding delete_entry
delete_entry-removed entry_id t i = elim (Bool-cases (i == entry_id)) [
  | inl e ↦ rw e (removed_here entry_id t i ((==_iff i entry_id).0 e))
  | inr e ↦ rw e (
      history-kept (λ r. r.id == entry_id) (λ r s same. ap (λ k. k == entry_id) same) t i
        (no_row-both entry_id i t.entries e))
]

module _ (h : History) where
  abbrev IsWithin : Tables → Type 0
  IsWithin t = Forgets h (history t)

  pub trim-Forgets : (plan : Planner) → Keeps IsWithin (trim plan)
  trim-Forgets =
      trim-Keeps IsWithin
        (λ gone by_id t f. Forgets-trans h (history t) _ f (delete_where-forgets gone by_id t))

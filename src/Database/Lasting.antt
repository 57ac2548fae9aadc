-- ===== src/Database/Lasting.antt =====
-- What no method of src/common/db.rs changes in an entry while it stays in the history.
pub mod Methods
pub mod Inserts
use mimeclip.Base.{
  ℕ, suc, ◌≤◌, ◌≡◌, refl, ap, sym, subst, ◌∙◌, inl, inr, Bool, Bool-cases, true, false, not, ◌&&◌,
  ◌||◌, List, [], ◌∷◌, ◌++◌, any, keep, map, All, All-append, ◌==◌, ==_iff, arith, if◌then◌else◌,
}
use mimeclip.Base.Perms.{keep-append}
use mimeclip.Base.Bytes.{Text}
use mimeclip.Database.{EntryRow, PayloadRow, Tables, delete_where}
use mimeclip.Database.Query.{payloads_of}
use mimeclip.Payloads.{Payload}

unfoldable pub has_id : ℕ → List EntryRow → Bool
has_id entry_id rows = any (λ (r : EntryRow). r.id == entry_id) rows

-- What an entry keeps: its payloads, its hash and its time of creation.
pub record Kept : Type 0 where
  pub id : ℕ
  pub payloads : List Payload
  pub hash : Text
  pub created_at : Text

abbrev pub IsRowOf : Kept → EntryRow → Type 0
IsRowOf k r = r.id ≡ k.id → (r.hash ≡ k.hash) × (r.created_at ≡ k.created_at)

-- The id was given out, and as long as there is an entry with it, it is what it was.
pub record IsLasting (k : Kept) (t : Tables) : Type 0 where
  pub given_out : k.id ≤ t.entry_seq
  pub held : has_id k.id t.entries ≡ true → payloads_of k.id t ≡ k.payloads
  pub rows : All (IsRowOf k) t.entries

module _ (k : Kept) (gone : EntryRow → Bool) where
  -- A deletion that goes by the id takes an entry whole.
  keep-rows :
      (rows : List EntryRow)
      → All (IsRowOf k) rows
      → All (IsRowOf k) (keep (λ r. not (gone r)) rows)
  unfolding keep
  keep-rows [] h = tt
  keep-rows (r ∷ rows) h = elim (Bool-cases (gone r)) [
    | inl g ↦ rw g (keep-rows rows h.1)
    | inr s ↦ rw s (h.0, keep-rows rows h.1)
  ]

  has_id-keep :
      (rows : List EntryRow)
      → has_id k.id (keep (λ r. not (gone r)) rows) ≡ true
      → has_id k.id rows ≡ true
  unfolding has_id keep any
  has_id-keep [] h = h
  has_id-keep (r ∷ rows) h = ground (arith, has_id-keep rows)

  survivor :
      (rows : List EntryRow)
      → has_id k.id (keep (λ r. not (gone r)) rows) ≡ true
      → (s : EntryRow) × (s.id ≡ k.id) × (gone s ≡ false)
  unfolding has_id keep any
  survivor [] h = cc
  survivor (r ∷ rows) h = elim (Bool-cases (gone r)) [
    | inl g ↦ survivor rows (ground arith)
    | inr s ↦ elim (Bool-cases (r.id == k.id)) [
      | inl e ↦ (r, ground arith, s)
      | inr e ↦ survivor rows (ground arith)
    ]
  ]

  module _ (by_id : (r s : EntryRow) → r.id ≡ s.id → gone r ≡ gone s) where
    none_gone :
        (s : EntryRow) (rows : List EntryRow)
        → s.id ≡ k.id
        → gone s ≡ false
        → any (λ r. gone r && r.id == k.id) rows ≡ false
    unfolding any
    none_gone s [] e g = refl
    none_gone s (r ∷ rows) e g = ground (arith, none_gone s rows e g, by_id r s)

    payloads-keep :
        (rows : List EntryRow) (payloads : List PayloadRow)
        → any (λ r. gone r && r.id == k.id) rows ≡ false
        → keep
            (λ p. p.entry_id == k.id)
            (keep (λ p. not (any (λ r. gone r && r.id == p.entry_id) rows)) payloads)
          ≡ keep (λ p. p.entry_id == k.id) payloads
    unfolding keep
    payloads-keep rows [] h = refl
    payloads-keep rows (p ∷ payloads) h =
        let later = payloads-keep rows payloads h in
        elim (Bool-cases (p.entry_id == k.id)) [
          | inl e ↦
              let same = (==_iff p.entry_id k.id).0 e in
              rw (subst (λ i. any (λ r. gone r && r.id == i) rows ≡ false) (sym same) h, e, later)
                refl
          | inr e ↦ elim (Bool-cases (any (λ r. gone r && r.id == p.entry_id) rows)) [
            | inl g ↦ rw (g, e, later) refl
            | inr g ↦ rw (g, e, later) refl
          ]
        ]

    pub delete_payloads :
        (references : Bool) (t : Tables)
        → any (λ r. gone r && r.id == k.id) t.entries ≡ false
        → map
            (λ (p : PayloadRow). (p.mime_type, p.content))
            (keep
              (λ p. p.entry_id == k.id)
              (if references
                then keep (λ p. not (any (λ r. gone r && r.id == p.entry_id) t.entries)) t.payloads
                else t.payloads))
          ≡ payloads_of k.id t
    unfolding payloads_of
    delete_payloads true t h = ap (map _) (payloads-keep t.entries t.payloads h)
    delete_payloads false t h = refl

    pub delete_where-IsLasting : (t : Tables) → IsLasting k t → IsLasting k (delete_where gone t)
    unfolding delete_where payloads_of
    delete_where-IsLasting t l = record {
      given_out = l.given_out;
      held = λ h.
          let (s, e, g) = survivor t.entries h in
          delete_payloads t.references t (none_gone s t.entries e g)
          ∙ l.held (has_id-keep t.entries h);
      rows = keep-rows t.entries l.rows;
    }

-- ===== src/Database/Lasting/Methods.antt =====
-- Every method of src/common/db.rs leaves the entries that stay as they are, whatever statements
-- fail.
use mimeclip.Base.{
  ℕ, suc, ◌≡◌, ◌≢◌, refl, ap, sym, ◌∙◌, inl, inr, Bool, Bool-cases, false, not, xor, ◌&&◌, List, [],
  ◌∷◌, ◌++◌, any, keep, map, All, All-append, ◌==◌, arith, if◌then◌else◌,
}
use mimeclip.Base.Bytes.{Text, text_eq}
use mimeclip.Base.Perms.{keep-append}
use mathlib.Core.List.{append-nil}
use mimeclip.Payloads.{Payload}
use mimeclip.Database.{EntryRow, PayloadRow, Tables, Planner, Database}
use mimeclip.Database.Query.{payloads_of}
use mimeclip.Database.Store.{
  NewEntry, delete_entry, trim, refresh_row, refresh, new_row, append_entry, row_effect, insert_row,
  new_payload, append_payload, payload_effect, insert_payload, insert_payloads, touch_row,
}
use mimeclip.Database.Valid.{Keeps, Keeps-pure, Keeps-bind, Keeps-execute, Settled}
use mimeclip.Database.Valid.Trimming.{delete_entry-keeps, trim-Keeps}
use mimeclip.Database.Lasting.{Kept, IsRowOf, IsLasting, has_id, delete_where-IsLasting}

-- A change of the rows that leaves ids, hashes and times of creation alone.
abbrev IsGentle : (EntryRow → EntryRow) → Type 0
IsGentle f =
    (r : EntryRow) → ((f r).id ≡ r.id) × ((f r).hash ≡ r.hash) × ((f r).created_at ≡ r.created_at)

unequal : (a b : ℕ) → a ≢ b → (a == b) ≡ false
unequal a b h = ground (arith, h)

module _ (k : Kept) where
  pub delete_entry-IsLasting :
      (entry_id : ℕ) (t : Tables) → IsLasting k t → IsLasting k (delete_entry entry_id t)
  delete_entry-IsLasting = delete_entry-keeps (IsLasting k) (delete_where-IsLasting k)

  pub trim-Lasting : (plan : Planner) → Keeps (IsLasting k) (trim plan)
  trim-Lasting = trim-Keeps (IsLasting k) (delete_where-IsLasting k)

  module _ (f : EntryRow → EntryRow) (gentle : IsGentle f) where
    has_id-map : (rows : List EntryRow) → has_id k.id (map f rows) ≡ has_id k.id rows
    unfolding has_id any
    has_id-map [] = refl
    has_id-map (r ∷ rows) = rw ((gentle r).0, has_id-map rows) refl

    rows-map : (rows : List EntryRow) → All (IsRowOf k) rows → All (IsRowOf k) (map f rows)
    rows-map [] h = tt
    rows-map (r ∷ rows) h =
        let (i, s, c) = gentle r in
        ((λ e. let (x, y) = h.0 (sym i ∙ e) in (s ∙ x, c ∙ y)), rows-map rows h.1)

    map-IsLasting :
        (t : Tables) → IsLasting k t → IsLasting k (record t { entries = map f t.entries })
    unfolding payloads_of
    map-IsLasting t l = record {
      given_out = l.given_out;
      held = λ h. l.held (sym (has_id-map t.entries) ∙ h);
      rows = rows-map t.entries l.rows;
    }

  pub refresh-IsLasting :
      (e : NewEntry) (entry_id : ℕ) (t : Tables)
      → IsLasting k t
      → IsLasting k (refresh e entry_id t)
  unfolding refresh refresh_row
  refresh-IsLasting e entry_id t l = map-IsLasting _ (λ r. ground arith) t l

  pub touch-IsLasting :
      (now : Text) (entry_id : ℕ) (t : Tables)
      → IsLasting k t
      → IsLasting k (record t { entries = map (touch_row now entry_id) t.entries })
  unfolding touch_row
  touch-IsLasting now entry_id t l = map-IsLasting _ (λ r. ground arith) t l

  has_id-append :
      (rows : List EntryRow) (r : EntryRow)
      → r.id ≢ k.id
      → has_id k.id (rows ++ r ∷ []) ≡ has_id k.id rows
  unfolding has_id any
  has_id-append [] r h = ground arith
  has_id-append (q ∷ rows) r h = rw (has_id-append rows r h) refl

  append_entry-IsLasting :
      (r : EntryRow) (db : Database)
      → r.id ≡ suc db.entry_seq
      → IsLasting k db.tables
      → IsLasting k (append_entry r db).tables
  unfolding append_entry payloads_of
  append_entry-IsLasting r db e l =
      let other : r.id ≢ k.id = λ same. omega (arith, e, same, l.given_out) in
      record {
        given_out = omega (arith, l.given_out);
        held = λ h. l.held (sym (has_id-append db.entries r other) ∙ h);
        rows =
            All-append (IsRowOf k) db.entries (r ∷ []) l.rows ((λ same. absurd (other same)), tt);
      }

  row_effect-Settled :
      (e : NewEntry) (with_timestamp : Bool) (db : Database)
      → IsLasting k db.tables
      → Settled (IsLasting k) (row_effect e with_timestamp db)
  unfolding row_effect new_row
  row_effect-Settled e with_timestamp db l =
      elim (Bool-cases (any (λ (r : EntryRow). text_eq r.hash e.hash) db.entries)) [
        | inl twice ↦ rw twice tt
        | inr fresh ↦ elim (Bool-cases (xor with_timestamp db.timestamp_column)) [
          | inl wrong ↦ rw (fresh, wrong) tt
          | inr right ↦ rw (fresh, right) (append_entry-IsLasting _ db refl l)
        ]
      ]

  pub insert_row-Lasting :
      (e : NewEntry) (with_timestamp : Bool) → Keeps (IsLasting k) (insert_row e with_timestamp)
  unfolding insert_row
  insert_row-Lasting e with_timestamp = Keeps-execute _ (row_effect-Settled e with_timestamp)

  append_payload-IsLasting :
      (p : PayloadRow) (db : Database)
      → p.entry_id ≢ k.id
      → IsLasting k db.tables
      → IsLasting k (append_payload p db).tables
  unfolding append_payload payloads_of keep
  append_payload-IsLasting p db other l = record {
    given_out = l.given_out;
    held = λ h.
        ap (map _) (
          keep-append (λ q. q.entry_id == k.id) db.payloads (p ∷ [])
          ∙ ap (λ b. keep (λ q. q.entry_id == k.id) db.payloads ++ (if b then p ∷ [] else []))
              (unequal p.entry_id k.id other)
          ∙ append-nil _)
        ∙ l.held h;
    rows = l.rows;
  }

  payload_effect-Settled :
      (entry_id : ℕ) (p : Payload) (db : Database)
      → entry_id ≢ k.id
      → IsLasting k db.tables
      → Settled (IsLasting k) (payload_effect entry_id p db)
  unfolding payload_effect new_payload
  payload_effect-Settled entry_id p db other l =
      elim (Bool-cases
        (db.references && not (any (λ (r : EntryRow). r.id == entry_id) db.entries))) [
          | inl orphan ↦ rw orphan tt
          | inr owned ↦ rw owned (append_payload-IsLasting _ db other l)
        ]

  pub insert_payloads-Lasting :
      (entry_id : ℕ) (payloads : List Payload)
      → entry_id ≢ k.id
      → Keeps (IsLasting k) (insert_payloads entry_id payloads)
  unfolding insert_payloads insert_payload
  insert_payloads-Lasting entry_id [] other = Keeps-pure tt
  insert_payloads-Lasting entry_id (p ∷ payloads) other =
      Keeps-bind _ _ (Keeps-execute _ (λ db. payload_effect-Settled entry_id p db other))
        (λ _. insert_payloads-Lasting entry_id payloads other)

-- ===== src/Database/History/Owners.antt =====
-- The payloads of each entry in src/common/db.rs, before and after an insert.

use mathlib.Core.List.{append-nil, append_assoc, map-append}
use mimeclip.Base.{
  ℕ, suc, ◌≤◌, ◌<◌, ◌≡◌, refl, ap, sym, ◌∙◌, Bool, true, false, List, [], ◌∷◌, ◌++◌, keep, map, All,
  ◌==◌, ==_refl, arith, if◌then◌else◌,
}
use mimeclip.Base.Perms.{keep-append}
use mimeclip.Payloads.{Payload}
use mimeclip.Database.{EntryRow, PayloadRow, Database}
use mimeclip.Database.Query.{payloads_of}
use mimeclip.Database.Store.{new_payload, append_payload}
use mimeclip.Database.Valid.{IsOwned}
use mimeclip.Database.History.Rows.{owner-le}
use mimeclip.Database.History.Inserting.{add_payloads}

-- Payloads with no owner above the sequence
pub payloads-above :
    (seq : ℕ) (rows : List EntryRow) (payloads : List PayloadRow)
    → All (λ (r : EntryRow). (0 < r.id) × (r.id ≤ seq)) rows
    → All (IsOwned rows) payloads
    → keep (λ (p : PayloadRow). p.entry_id == suc seq) payloads ≡ []
unfolding keep
payloads-above seq rows [] h o = refl
payloads-above seq rows (p ∷ payloads) h o =
    let le = owner-le seq p.entry_id rows h o.0 in ground (arith, payloads-above seq rows payloads)

one_payload :
    (i n entry_id : ℕ) (p : Payload) (db : Database)
    → payloads_of i (append_payload (new_payload n entry_id p) db).tables
      ≡ payloads_of i db.tables ++ (if entry_id == i then p ∷ [] else [])
unfolding append_payload new_payload payloads_of keep
one_payload i n entry_id p db =
    ap (map _) (
      keep-append _ db.payloads
        (record { id = n; entry_id = entry_id; mime_type = p.0; content = p.1 } ∷ []))
    ∙ map-append _ (keep _ db.payloads) _
    ∙ ap (λ ps. payloads_of i db.tables ++ ps) (last (entry_id == i))
  where
    last :
        (b : Bool)
        → map
            (λ (q : PayloadRow). (q.mime_type, q.content))
            (if b
              then record { id = n; entry_id = entry_id; mime_type = p.0; content = p.1 } ∷ []
              else [])
          ≡ (if b then p ∷ [] else [])
    last true = refl
    last false = refl

-- The payloads of each entry after those of a new one were added
pub payloads-added :
    (entry_id : ℕ) (payloads : List Payload) (db : Database)
    → payloads_of entry_id (add_payloads entry_id payloads db).tables
      ≡ payloads_of entry_id db.tables ++ payloads
unfolding add_payloads
payloads-added entry_id [] db = sym (append-nil _)
payloads-added entry_id (p ∷ payloads) db =
    payloads-added entry_id payloads
      (append_payload (new_payload (suc db.payload_seq) entry_id p) db)
    ∙ ap (λ ps. ps ++ payloads)
        (one_payload entry_id (suc db.payload_seq) entry_id p db ∙ rw (==_refl entry_id) refl)
    ∙ append_assoc (payloads_of entry_id db.tables) (p ∷ []) payloads

pub payloads-other :
    (entry_id i : ℕ) (payloads : List Payload) (db : Database)
    → (entry_id == i) ≡ false
    → payloads_of i (add_payloads entry_id payloads db).tables ≡ payloads_of i db.tables
unfolding add_payloads
payloads-other entry_id i [] db other = refl
payloads-other entry_id i (p ∷ payloads) db other =
    payloads-other entry_id i payloads
      (append_payload (new_payload (suc db.payload_seq) entry_id p) db) other
    ∙ one_payload i (suc db.payload_seq) entry_id p db
    ∙ rw other (append-nil _)

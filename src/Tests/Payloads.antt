-- ===== src/Tests/Payloads.antt =====
-- Runs of the normal form and the hash of src/daemon/watcher.rs, on the data of its tests.
use mathlib.Core.List.Perm
use mimeclip.Base.{◌⊎◌, ◌≡◌, refl, some, List, [], ◌∷◌, ◌++◌, Perm, any, arith}
use mimeclip.Base.Bytes.{Text, Bytes, text, text_eq, text_le}
use mimeclip.Base.Sorting.{insert, sort}
use mimeclip.Payloads.{
  Payload, push_group, group_payloads, push_unique, remove_first, pick_variant, push_normalized,
  normalize_groups, normalize_payloads, payload_le, encode, payload_hash,
}
use mimeclip.Payloads.Smallest.{smallest}
use mimeclip.Payloads.Normal.{
  IsStrict, find_payload, normalize_payloads_lem, normalize_payloads-eq_of_perm,
}
use mimeclip.Payloads.Encoding.{
  payload_hash-eq_of_perm, IsCollision, payload_hash-perm, payload_hash_collision,
}

abbrev plain : Text
plain = text "text/plain"

abbrev utf8 : Text
utf8 = text "text/plain;charset=utf-8"

abbrev duplicated : List Payload
duplicated = (plain, text "x") ∷ (utf8, text "x") ∷ (plain, text "x") ∷ []

abbrev beta_first : List Payload
beta_first = (plain, text "beta") ∷ (plain, text "alpha") ∷ []

abbrev alpha_first : List Payload
alpha_first = (plain, text "alpha") ∷ (plain, text "beta") ∷ []

program : Unit {0}
unfolding text_eq text_le any insert sort push_group group_payloads push_unique remove_first
    pick_variant push_normalized normalize_groups normalize_payloads payload_le encode payload_hash
program = tt

duplicate_names : normalize_payloads duplicated ≡ some ((plain, text "x") ∷ (utf8, text "x") ∷ [])
unfolding program
duplicate_names = refl

different_bytes : normalize_payloads beta_first ≡ some ((plain, text "alpha") ∷ [])
unfolding program
different_bytes = refl

normalize_payloads_lem_example :
    (ns : List Payload) × (normalize_payloads duplicated ≡ some ns)
    × IsStrict ns
    × ((m : Text) → find_payload m ns ≡ smallest m duplicated)
normalize_payloads_lem_example = normalize_payloads_lem duplicated

normalize_payloads-eq_of_perm_example :
    normalize_payloads beta_first ≡ normalize_payloads alpha_first
normalize_payloads-eq_of_perm_example =
    normalize_payloads-eq_of_perm (Perm.swap (plain, text "alpha") (plain, text "beta") [])

-- A digest and a text of it for the runs.
abbrev no_digest : Bytes → Bytes
no_digest bytes = bytes

payload_hash-eq_of_perm_example :
    payload_hash no_digest no_digest beta_first ≡ payload_hash no_digest no_digest alpha_first
payload_hash-eq_of_perm_example =
    payload_hash-eq_of_perm no_digest no_digest
      (Perm.swap (plain, text "alpha") (plain, text "beta") [])

same_hash :
    payload_hash no_digest no_digest beta_first ≡ payload_hash no_digest no_digest alpha_first
unfolding program
same_hash = refl

payload_hash-perm_example :
    Perm beta_first alpha_first ⊎ IsCollision (λ bytes. no_digest (no_digest bytes))
payload_hash-perm_example =
    payload_hash-perm no_digest no_digest beta_first alpha_first (omega arith) (omega arith)
      same_hash

payload_hash_collision_example :
    payload_hash no_digest no_digest ((text "a", text "b" ++ 0 ∷ (text "c" ++ 0 ∷ text "d")) ∷ [])
    ≡ payload_hash no_digest no_digest ((text "a", text "b") ∷ (text "c", text "d") ∷ [])
unfolding program
payload_hash_collision_example =
    payload_hash_collision no_digest no_digest (text "a") (text "b") (text "c") (text "d") refl

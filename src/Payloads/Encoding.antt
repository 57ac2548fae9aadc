-- ===== src/Payloads/Encoding.antt =====
-- What `payload_hash` of src/daemon/watcher.rs hashes, and which payloads it tells apart.
use mathlib.Core.List
use mathlib.Core.List.Perm
use mimeclip.Base.{
  ◌≡◌, ◌≢◌, refl, sym, ◌∙◌, ap, Bool-cases, subst, ◌⊎◌, inl, inr, true, false, List, [], ◌∷◌, ◌++◌,
  Perm, All, arith,
}
use mimeclip.Base.Bytes.{
  Text, Bytes, text_eq, text_le, text_eq_iff, text_le_total, text_le_trans, text_le_antisymm,
  text_le_refl,
}
use mimeclip.Base.Sorting.{IsTotalOrder, insert, sort, sort-perm, sort-eq_of_perm}
use mimeclip.Payloads.{Payload, payload_le, encode, payload_hash}
use mimeclip.Payloads.Smallest.{Bytes-set}

payload_le-IsTotalOrder : IsTotalOrder payload_le
unfolding payload_le
payload_le-IsTotalOrder = record {
  total = λ (m, d) (k, e) h.
      ground (arith, text_eq_iff m k, text_eq_iff k m, text_le_total d e, text_le_total m k);
  trans = λ (m, d) (k, e) (j, f) h h'. ground (
    arith,
    text_eq_iff m k,
    text_eq_iff k j,
    text_eq_iff m j,
    text_le_trans d e f,
    text_le_trans m k j,
    text_le_antisymm m k,
  );
}

payload_le_antisymm : (a b : Payload) → payload_le a b ≡ true → payload_le b a ≡ true → a ≡ b
unfolding payload_le
payload_le_antisymm (m, d) (k, e) h h' =
    ground (arith, text_eq_iff m k, text_eq_iff k m, text_le_antisymm d e, text_le_antisymm m k)

Payload-set : IsSet Payload
Payload-set = hlevel Bytes-set

-- The hash depends on the payloads and not on their order, whatever the digest.
pub payload_hash-eq_of_perm :
    (sha256 : Bytes → Bytes) (hex : Bytes → Text) {xs ys : List Payload}
    → Perm xs ys
    → payload_hash sha256 hex xs ≡ payload_hash sha256 hex ys
unfolding payload_hash
payload_hash-eq_of_perm sha256 hex p =
    ap (λ (zs : List Payload). hex (sha256 (encode zs)))
      (sort-eq_of_perm payload_le-IsTotalOrder payload_le_antisymm Payload-set p)

abbrev pub IsNulFree : Bytes → Type 0
IsNulFree = All (λ b. b ≢ 0)

-- No zero byte, in the MIME type or in the data.
abbrev pub IsPlain : Payload → Type 0
IsPlain p = IsNulFree p.0 × IsNulFree p.1

split_at_nul :
    (xs ys us vs : Bytes)
    → IsNulFree xs
    → IsNulFree ys
    → xs ++ 0 ∷ us ≡ ys ++ 0 ∷ vs
    → (xs ≡ ys) × (us ≡ vs)
split_at_nul [] [] us vs hx hy e = (refl, cc)
split_at_nul [] (y ∷ ys) us vs hx hy e = absurd (hy.0 (cc))
split_at_nul (x ∷ xs) [] us vs hx hy e = absurd (hx.0 (cc))
split_at_nul (x ∷ xs) (y ∷ ys) us vs hx hy e =
    let (p, q) = split_at_nul xs ys us vs hx.1 hy.1 (cc) in (cc, q)

encode_step_ne_nil : (m rest : Bytes) → m ++ 0 ∷ rest ≢ []
encode_step_ne_nil [] rest e = cc
encode_step_ne_nil (x ∷ m) rest e = cc

-- Without zero bytes the hashed bytes can be read back.
encode-injective :
    (xs ys : List Payload) → All IsPlain xs → All IsPlain ys → encode xs ≡ encode ys → xs ≡ ys
unfolding encode
encode-injective [] [] hx hy e = refl
encode-injective [] ((k, f) ∷ ys) hx hy e = absurd (encode_step_ne_nil k _ (sym e))
encode-injective ((m, d) ∷ xs) [] hx hy e = absurd (encode_step_ne_nil m _ e)
encode-injective ((m, d) ∷ xs) ((k, f) ∷ ys) hx hy e =
    let (p, rest) = split_at_nul m k (d ++ 0 ∷ encode xs) (f ++ 0 ∷ encode ys) hx.0.0 hy.0.0 e in
    let (q, tail) = split_at_nul d f (encode xs) (encode ys) hx.0.1 hy.0.1 rest in
    cc (p, q, encode-injective xs ys hx.1 hy.1 tail)

All-insert :
    (x : Payload) (xs : List Payload)
    → IsPlain x
    → All IsPlain xs
    → All IsPlain (insert payload_le x xs)
unfolding insert
All-insert x [] hx h = (hx, tt)
All-insert x (y ∷ ys) hx h = elim (Bool-cases (payload_le x y)) [
  | inl le ↦ rw le (hx, h)
  | inr gt ↦ rw gt (h.0, All-insert x ys hx h.1)
]

All-sort : (xs : List Payload) → All IsPlain xs → All IsPlain (sort payload_le xs)
unfolding sort
All-sort [] h = tt
All-sort (x ∷ xs) h = All-insert x (sort payload_le xs) h.0 (All-sort xs h.1)

-- Two byte strings that the digest does not tell apart
abbrev pub IsCollision : (Bytes → Text) → Type 0
IsCollision digest = (a b : Bytes) × (a ≢ b) × (digest a ≡ digest b)

-- Where no MIME type and no payload has a zero byte, equal hashes mean the same payloads, in
-- whatever order, or two byte strings that the digest does not tell apart.
pub payload_hash-perm :
    (sha256 : Bytes → Bytes) (hex : Bytes → Text) (xs ys : List Payload)
    → All IsPlain xs
    → All IsPlain ys
    → payload_hash sha256 hex xs ≡ payload_hash sha256 hex ys
    → Perm xs ys ⊎ IsCollision (λ bytes. hex (sha256 bytes))
unfolding payload_hash
payload_hash-perm sha256 hex xs ys hx hy e =
    let a = encode (sort payload_le xs) in
    let b = encode (sort payload_le ys) in
    elim (Bool-cases (text_eq a b)) [
      | inr differ ↦ inr (a, b, (λ same. cc (differ, (text_eq_iff a b).1 same)), e)
      | inl same ↦
          let sorted =
            encode-injective (sort payload_le xs) (sort payload_le ys) (All-sort xs hx)
              (All-sort ys hy) ((text_eq_iff a b).0 same) in
          inl (
            Perm.trans (Perm.symm (sort-perm payload_le xs))
              (subst (λ zs. Perm zs ys) (sym sorted) (sort-perm payload_le ys)))
    ]

encode_joined :
    (m d k e : Bytes) → encode ((m, d ++ 0 ∷ (k ++ 0 ∷ e)) ∷ []) ≡ encode ((m, d) ∷ (k, e) ∷ [])
unfolding encode
encode_joined m d k e = simp List.append_assoc

sort_one : (p : Payload) → sort payload_le (p ∷ []) ≡ p ∷ []
unfolding sort
sort_one p = refl

sort_pair :
    (m d k e : Bytes)
    → text_le k m ≡ false
    → sort payload_le ((m, d) ∷ (k, e) ∷ []) ≡ (m, d) ∷ (k, e) ∷ []
unfolding sort payload_le
sort_pair m d k e h = ground (arith, text_eq_iff m k, text_le_refl m, text_le_total k m)

-- With zero bytes two different lists of payloads can have one hash, whatever the digest: one
-- payload whose data holds a zero byte, a later MIME type, a zero byte and more data has the hash
-- of the two payloads that these would be.
pub payload_hash_collision :
    (sha256 : Bytes → Bytes) (hex : Bytes → Text) (m d k e : Bytes)
    → text_le k m ≡ false
    → payload_hash sha256 hex ((m, d ++ 0 ∷ (k ++ 0 ∷ e)) ∷ [])
      ≡ payload_hash sha256 hex ((m, d) ∷ (k, e) ∷ [])
unfolding payload_hash
payload_hash_collision sha256 hex m d k e h =
    ap (λ (bytes : Bytes). hex (sha256 bytes))
      (ap encode (sort_one (m, d ++ 0 ∷ (k ++ 0 ∷ e)))
        ∙ encode_joined m d k e
        ∙ ap encode (sym (sort_pair m d k e h)))

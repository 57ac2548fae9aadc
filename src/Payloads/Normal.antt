-- ===== src/Payloads/Normal.antt =====
-- `normalize_payloads` of src/daemon/watcher.rs returns the canonical form of an offer.
use mimeclip.Base.{
  ◌≡◌, ◌≢◌, refl, sym, ◌∙◌, Bool-cases, Option-cases, inl, inr, false, Option, none, some, List, [],
  ◌∷◌, ◌++◌, Perm, All, arith, if◌then◌else◌,
}
use mimeclip.Base.Bytes.{
  Text, Bytes, text_eq, text_le, text_eq_iff, text_eq_refl, text_le_total, text_le_trans,
  text_le_antisymm, text_le_refl,
}
use mimeclip.Payloads.{
  Payload, Groups, push_group, group_payloads, push_normalized, normalize_groups,
  normalize_payloads,
}
use mimeclip.Payloads.Smallest.{
  min_opt_comm, least, smallest, least_in, pick_variant-eq-least, least_in-group_payloads,
  smallest-eq_of_perm,
}

-- `j` stands strictly before every key of the list.
abbrev pub Before {ℓ} : {A : Type ℓ} → Text → List (Text × A) → Type ℓ
Before j [] = Unit
Before j ((k, _) ∷ rest) = (text_le k j ≡ false) × Before j rest

-- Strictly ascending MIME types: none occurs twice.
abbrev pub IsStrict {ℓ} : {A : Type ℓ} → List (Text × A) → Type ℓ
IsStrict [] = Unit
IsStrict ((k, _) ∷ rest) = Before k rest × IsStrict rest

-- `get` of a payload list: the first payload of the MIME type.
unfoldable pub find_payload : Text → List Payload → Option Bytes
find_payload m [] = none
find_payload m ((k, d) ∷ rest) = if text_eq k m then some d else find_payload m rest

Before-trans {ℓ} :
    {A : Type ℓ} (i j : Text) (rest : List (Text × A))
    → text_le j i ≡ false
    → Before j rest
    → Before i rest
Before-trans i j [] h b = tt
Before-trans i j ((k, a) ∷ rest) h b =
    (ground (arith, b.0, text_le_total k j, text_le_trans j k i), Before-trans i j rest h b.1)

Before-push_group :
    (j m : Text) (d : Bytes) (grouped : Groups)
    → text_le m j ≡ false
    → Before j grouped
    → Before j (push_group m d grouped)
unfolding push_group
Before-push_group j m d [] h b = (h, tt)
Before-push_group j m d ((k, variants) ∷ rest) h b =
    ground (arith, Before-push_group j m d rest h b.1)

push_group-IsStrict :
    (m : Text) (d : Bytes) (grouped : Groups) → IsStrict grouped → IsStrict (push_group m d grouped)
unfolding push_group
push_group-IsStrict m d [] s = (tt, tt)
push_group-IsStrict m d ((k, variants) ∷ rest) s = ground (
  arith,
  push_group-IsStrict m d rest s.1,
  Before-push_group k m d rest,
  Before-trans m k rest,
  text_eq_iff m k,
  text_le_antisymm m k,
)

group_payloads-IsStrict :
    (grouped : Groups) (payloads : List Payload)
    → IsStrict grouped
    → IsStrict (group_payloads grouped payloads)
unfolding group_payloads
group_payloads-IsStrict grouped [] s = s
group_payloads-IsStrict grouped ((m, d) ∷ payloads) s =
    group_payloads-IsStrict (push_group m d grouped) payloads (push_group-IsStrict m d grouped s)

-- No group is empty, so `remove(0)` does not panic.
abbrev HasVariant : Text × List Bytes → Type 0
HasVariant g = least g.1 ≢ none

least-snoc-ne-none : (xs : List Bytes) (d : Bytes) → least (xs ++ d ∷ []) ≢ none
least-snoc-ne-none [] d e = cc
least-snoc-ne-none (x ∷ xs) d e = ground (arith, least-snoc-ne-none xs d)

push_group-HasVariant :
    (m : Text) (d : Bytes) (grouped : Groups)
    → All HasVariant grouped
    → All HasVariant (push_group m d grouped)
unfolding push_group
push_group-HasVariant m d [] h = (λ e. cc, tt)
push_group-HasVariant m d ((k, variants) ∷ rest) h = elim (Bool-cases (text_eq m k)) [
  | inl same ↦ rw same (least-snoc-ne-none variants d, h.1)
  | inr differ ↦ elim (Bool-cases (text_le m k)) [
    | inl smaller ↦ rw (differ, smaller) (λ e. cc, h)
    | inr larger ↦ rw (differ, larger) (h.0, push_group-HasVariant m d rest h.1)
  ]
]

group_payloads-HasVariant :
    (grouped : Groups) (payloads : List Payload)
    → All HasVariant grouped
    → All HasVariant (group_payloads grouped payloads)
unfolding group_payloads
group_payloads-HasVariant grouped [] h = h
group_payloads-HasVariant grouped ((m, d) ∷ payloads) h =
    group_payloads-HasVariant (push_group m d grouped) payloads
      (push_group-HasVariant m d grouped h)

-- What `normalize_groups` makes of the groups.
record Normal (grouped : Groups) (ns : List Payload) : Type 0 where
  returned : normalize_groups grouped ≡ some ns
  strict : IsStrict ns
  before : (j : Text) → Before j grouped → Before j ns
  least : (m : Text) → smallest m ns ≡ least_in m grouped

push_normalized-some :
    (k : Text) (d : Bytes) (ns : List Payload)
    → push_normalized k (some d) (some ns) ≡ some ((k, d) ∷ ns)
unfolding push_normalized
push_normalized-some k d ns = refl

normalize_groups-Normal :
    (grouped : Groups)
    → IsStrict grouped
    → All HasVariant grouped
    → (ns : List Payload) × Normal grouped ns
unfolding normalize_groups
normalize_groups-Normal [] s h =
    ([], record { returned = refl; strict = tt; before = λ j b. tt; least = λ m. refl })
normalize_groups-Normal ((k, variants) ∷ rest) s h =
    let (ns, n) = normalize_groups-Normal rest s.1 h.1 in
    elim (Option-cases (least variants)) [
      | inl e ↦ absurd (h.0 e)
      | inr (d, e) ↦ (
        (k, d) ∷ ns,
        record {
          returned =
              rw (pick_variant-eq-least variants, e, n.returned) (push_normalized-some k d ns);
          strict = (n.before k s.0, n.strict);
          before = λ j b. (b.0, n.before j b.1);
          least = λ m. rw (n.least m, e);
        },
      )
    ]

-- In a strictly ascending list a MIME type has one payload.
smallest-eq-none : (m : Text) (ns : List Payload) → Before m ns → smallest m ns ≡ none
smallest-eq-none m [] b = refl
smallest-eq-none m ((k, d) ∷ ns) b =
    ground (arith, text_eq_iff k m, text_le_refl m, smallest-eq-none m ns b.1)

find_payload-eq-smallest :
    (m : Text) (ns : List Payload) → IsStrict ns → find_payload m ns ≡ smallest m ns
unfolding find_payload
find_payload-eq-smallest m [] s = refl
find_payload-eq-smallest m ((k, d) ∷ ns) s =
    ground (arith, text_eq_iff k m, smallest-eq-none m ns, find_payload-eq-smallest m ns s.1)

-- Normalizing never panics; the result has each MIME type once, in ascending order, with the
-- lexicographically smallest of the payloads that were read for it, and no other MIME type.
pub normalize_payloads_lem :
    (payloads : List Payload)
    → (ns : List Payload) × (normalize_payloads payloads ≡ some ns)
      × IsStrict ns
      × ((m : Text) → find_payload m ns ≡ smallest m payloads)
unfolding normalize_payloads
normalize_payloads_lem payloads =
    let (ns, n) =
      normalize_groups-Normal (group_payloads [] payloads) (group_payloads-IsStrict [] payloads tt)
        (group_payloads-HasVariant [] payloads tt) in
    (
      ns,
      n.returned,
      n.strict,
      λ m.
          find_payload-eq-smallest m ns n.strict
          ∙ n.least m
          ∙ least_in-group_payloads m [] payloads
          ∙ min_opt_comm (smallest m payloads) none,
    )

find_payload-eq-none : (m : Text) (ns : List Payload) → Before m ns → find_payload m ns ≡ none
unfolding find_payload
find_payload-eq-none m [] b = refl
find_payload-eq-none m ((k, d) ∷ ns) b =
    ground (arith, text_eq_iff k m, text_le_refl m, find_payload-eq-none m ns b.1)

-- A key below the head of a strict list is not found in it.
find_payload_below :
    (m j : Text) (e : Bytes) (ys : List Payload)
    → text_le j m ≡ false
    → Before j ys
    → find_payload m ((j, e) ∷ ys) ≡ none
find_payload_below m j e ys h b = find_payload-eq-none m ((j, e) ∷ ys) (h, Before-trans m j ys h b)

find_payload_head :
    (k : Text) (d : Bytes) (xs : List Payload) → find_payload k ((k, d) ∷ xs) ≡ some d
unfolding find_payload
find_payload_head k d xs = rw (text_eq_refl k)

-- Equal heads: what is found in the tails agrees too.
find_payload_tails :
    (k j : Text) (d e : Bytes) (xs ys : List Payload) (m : Text)
    → k ≡ j
    → Before k xs
    → Before j ys
    → find_payload m ((k, d) ∷ xs) ≡ find_payload m ((j, e) ∷ ys)
    → find_payload m xs ≡ find_payload m ys
unfolding find_payload
find_payload_tails k j d e xs ys m same bx by h =
    ground (
      arith,
      text_eq_iff k m,
      text_eq_iff j m,
      find_payload-eq-none m xs,
      find_payload-eq-none m ys,
    )

-- A strictly ascending list is determined by what is found in it.
IsStrict-eq :
    (xs ys : List Payload)
    → IsStrict xs
    → IsStrict ys
    → ((m : Text) → find_payload m xs ≡ find_payload m ys)
    → xs ≡ ys
IsStrict-eq [] [] sx sy h = refl
IsStrict-eq [] ((j, e) ∷ ys) sx sy h =
    cc (h j, find_payload_head j e ys, find_payload-eq-none j [] tt)
IsStrict-eq ((k, d) ∷ xs) [] sx sy h =
    cc (h k, find_payload_head k d xs, find_payload-eq-none k [] tt)
IsStrict-eq ((k, d) ∷ xs) ((j, e) ∷ ys) sx sy h = elim (Bool-cases (text_le j k)) [
  | inr below ↦ cc (h k, find_payload_head k d xs, find_payload_below k j e ys below sy.0)
  | inl le ↦ elim (Bool-cases (text_le k j)) [
    | inr below ↦ cc (h j, find_payload_head j e ys, find_payload_below j k d xs below sx.0)
    | inl ge ↦
        let same = text_le_antisymm k j ge le in
        let tails =
          IsStrict-eq xs ys sx.1 sy.1
            (λ m. find_payload_tails k j d e xs ys m same sx.0 sy.0 (h m)) in
        cc (h k, same, tails, find_payload_head k d xs, find_payload_head j e ys)
  ]
]

-- The normal form depends on the payloads that were read, and not on their order.
pub normalize_payloads-eq_of_perm :
    {xs ys : List Payload} → Perm xs ys → normalize_payloads xs ≡ normalize_payloads ys
normalize_payloads-eq_of_perm {xs} {ys} p =
    let (nx, ex, sx, fx) = normalize_payloads_lem xs in
    let (ny, ey, sy, fy) = normalize_payloads_lem ys in
    let same = IsStrict-eq nx ny sx sy (λ m. fx m ∙ smallest-eq_of_perm m p ∙ sym (fy m)) in
    cc (ex, ey, same)

-- A list that is in normal form is its own normal form.
normalize_payloads_idem : (ns : List Payload) → IsStrict ns → normalize_payloads ns ≡ some ns
normalize_payloads_idem ns s =
    let (nn, e, sn, f) = normalize_payloads_lem ns in
    cc (e, IsStrict-eq nn ns sn s (λ m. f m ∙ sym (find_payload-eq-smallest m ns s)))

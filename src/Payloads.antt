-- ===== src/Payloads.antt =====
-- src/daemon/watcher.rs: the payloads of one offer, their normal form and their hash.
pub mod Smallest
pub mod Normal
pub mod Encoding
use mimeclip.Base.{◌≡◌, Bool, true, Option, none, some, List, [], ◌∷◌, ◌++◌, any, if◌then◌else◌}
use mimeclip.Base.Bytes.{Text, Bytes, text_eq, text_le}
use mimeclip.Base.Sorting.{sort}

-- A MIME type and the bytes that were read for it: `(String, Vec<u8>)`.
abbrev pub Payload : Type 0
Payload = Text × Bytes

-- `BTreeMap<String, Vec<Vec<u8>>>`, its keys in ascending order
abbrev pub Groups : Type 0
Groups = List (Text × List Bytes)

-- `grouped.entry(mime).or_default().push(data)`
unfoldable pub push_group : Text → Bytes → Groups → Groups
push_group m d [] = (m, d ∷ []) ∷ []
push_group m d ((k, variants) ∷ rest) =
    let later = push_group m d rest in
    if text_eq m k
    then (k, variants ++ d ∷ []) ∷ rest
    else if text_le m k
    then (m, d ∷ []) ∷ (k, variants) ∷ rest
    else (k, variants) ∷ later

-- The first loop of `normalize_payloads`.
unfoldable pub group_payloads : Groups → List Payload → Groups
group_payloads grouped [] = grouped
group_payloads grouped ((m, d) ∷ payloads) = group_payloads (push_group m d grouped) payloads

-- The inner loop: variants that are already there are passed over.
unfoldable pub push_unique : List Bytes → List Bytes → List Bytes
push_unique unique [] = unique
push_unique unique (d ∷ variants) =
    push_unique (if any (λ existing. text_eq existing d) unique then unique else unique ++ d ∷ [])
      variants

-- `remove(0)`; `none` is its panic on an empty vector
unfoldable pub remove_first {ℓ} : {A : Type ℓ} → List A → Option A
remove_first [] = none
remove_first (x ∷ xs) = some x

-- `unique_variants.sort(); unique_variants.remove(0)`
unfoldable pub pick_variant : List Bytes → Option Bytes
pick_variant variants = remove_first (sort text_le (push_unique [] variants))

-- `normalized.push((mime, …))`, behind a variant that may be missing
unfoldable pub push_normalized : Text → Option Bytes → Option (List Payload) → Option (List Payload)
push_normalized m (some d) (some rest) = some ((m, d) ∷ rest)
push_normalized m (some d) none = none
push_normalized m none rest = none

-- The second loop of `normalize_payloads`.
unfoldable pub normalize_groups : Groups → Option (List Payload)
normalize_groups [] = some []
normalize_groups ((m, variants) ∷ rest) =
    push_normalized m (pick_variant variants) (normalize_groups rest)

-- `none` is a panic.
unfoldable pub normalize_payloads : List Payload → Option (List Payload)
normalize_payloads payloads = normalize_groups (group_payloads [] payloads)

-- `a.0.cmp(&b.0).then_with(|| a.1.cmp(&b.1))`
unfoldable pub payload_le : Payload → Payload → Bool
payload_le a b = if text_eq a.0 b.0 then text_le a.1 b.1 else text_le a.0 b.0

-- What the hasher is fed, in this order.
unfoldable pub encode : List Payload → Bytes
encode [] = []
encode ((m, d) ∷ payloads) = m ++ 0 ∷ (d ++ 0 ∷ encode payloads)

-- SHA-256 and the hexadecimal text of a digest are those of the crates `sha2` and `hex`.
module _ (sha256 : Bytes → Bytes) (hex : Bytes → Text) where
  unfoldable pub payload_hash : List Payload → Text
  payload_hash payloads = hex (sha256 (encode (sort payload_le payloads)))

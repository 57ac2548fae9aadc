-- ===== src/Capture/Restored.antt =====
-- A restored entry comes back to the watcher: src/daemon/server.rs, suppress.rs and watcher.rs
-- together.

use mimeclip.Base.{
  ℕ, ◌+◌, ◌≤◌, ◌≡◌, refl, ap, ◌∙◌, true, Option, some, List, [], ◌∷◌, Perm, ok, arith,
}
use mimeclip.Base.Bytes.{Text, Bytes, text_eq_refl}
use mimeclip.Database.{Planner}
use mimeclip.Database.Query.{hash_of_id, payloads_of}
use mimeclip.Payloads.{Payload, normalize_payloads, payload_hash}
use mimeclip.Payloads.Normal.{normalize_payloads-eq_of_perm}
use mimeclip.Server.{Daemon, Surroundings, done, restore, dispatch}
use mimeclip.Server.Restoring.{restore-lem}
use mimeclip.Suppress.{
  SuppressState, suppress_ttl, arm, arm_at, should_suppress, should_suppress_at,
}
use mimeclip.Watcher.Pipes.{returned}
use mimeclip.Capture.{store_payloads, store_normalized, store_read, store_outcome}

should_suppress-arm :
    (s : SuppressState) (hash : Text) (armed now : ℕ)
    → now ≤ armed + suppress_ttl
    → (should_suppress (arm s hash armed) hash now).1 ≡ true
unfolding should_suppress should_suppress_at arm arm_at
should_suppress-arm s hash armed now h = ground (arith, text_eq_refl hash)

module _ (sha256 : Bytes → Bytes) (hex : Bytes → Text) (blob_size : Bytes → Option (ℕ × ℕ))
    (plan : Planner) where
  -- Payloads whose hash is armed are not stored.
  store_payloads-armed :
      (ps : List Payload) (s : SuppressState) (armed now : ℕ) (now_text : Text) (d : Daemon)
      → d.suppress ≡ arm s (payload_hash sha256 hex ps) armed
      → now ≤ armed + suppress_ttl
      → (store_payloads sha256 hex blob_size plan ps now now_text d).1.db ≡ d.db
  unfolding store_payloads
  store_payloads-armed ps s armed now now_text d e h =
      rw (e, should_suppress-arm s (payload_hash sha256 hex ps) armed now h) refl

  store_read-armed :
      (qs ps : List Payload) (s : SuppressState) (armed now : ℕ) (now_text : Text) (d : Daemon)
      → normalize_payloads qs ≡ some ps
      → d.suppress ≡ arm s (payload_hash sha256 hex ps) armed
      → now ≤ armed + suppress_ttl
      → (store_read sha256 hex blob_size plan qs now now_text d).1.db ≡ d.db
  unfolding store_read store_normalized
  store_read-armed [] ps s armed now now_text d n e h = refl
  store_read-armed (q ∷ qs) ps s armed now now_text d n e h =
      rw n (store_payloads-armed ps s armed now now_text d e h)

  -- A restored entry is not stored again. Where an entry's hash is that of its payloads, which are
  -- in normal form, and a request to restore it has been answered with `Ok`, then reading the same
  -- payloads back from the clipboard, in any order and at most five seconds after the request,
  -- leaves the history as the request left it.
  pub restored-not_stored :
      (env : Surroundings) (entry_id : ℕ) (d after : Daemon) (ps qs : List Payload) (now : ℕ)
      (now_text : Text)
      → dispatch env (restore entry_id) d ≡ (done, after)
      → payloads_of entry_id d.db.tables ≡ ps
      → hash_of_id entry_id d.db.tables ≡ some (payload_hash sha256 hex ps)
      → normalize_payloads ps ≡ some ps
      → Perm qs ps
      → now ≤ env.instant + suppress_ttl
      → (store_outcome sha256 hex blob_size plan (returned (ok qs)) now now_text after).1.db
        ≡ after.db
  unfolding store_outcome
  restored-not_stored env entry_id d after ps qs now now_text answered held hashed normal same h =
      let (hash, known, _, armed) = restore-lem env entry_id d after answered in
      let eq : hash ≡ payload_hash sha256 hex ps = cc (known, hashed) in
      store_read-armed qs ps d.suppress env.instant now now_text after
        (normalize_payloads-eq_of_perm same ∙ normal)
        (armed ∙ ap (λ x. arm d.suppress x env.instant) eq) h

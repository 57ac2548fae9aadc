-- ===== src/Entry.antt =====
-- src/common/types.rs: what a client sees of an entry. A `DateTime` is its number of seconds.
use mimeclip.Base.{ℕ, List}
use mimeclip.Base.Bytes.{Text}
use mimeclip.Kind.{EntryKind}

pub record MimePayload : Type 0 where
  pub mime_type : Text
  pub data_b64 : Text

pub record Entry : Type 0 where
  pub id : ℕ
  pub hash : Text
  pub kind : EntryKind
  pub label : Text
  pub preview : Text
  pub size : ℕ
  pub created_at : ℕ
  pub last_used_at : ℕ
  pub mime_types : List Text

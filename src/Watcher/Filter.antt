-- ===== src/Watcher/Filter.antt =====
-- The MIME types that src/daemon/watcher.rs never asks for.
use mimeclip.Base.{Bool, List, [], ◌∷◌, any, map}
use mimeclip.Base.Bytes.{Text, text, text_eq, starts_with, to_ascii_lowercase}

-- SKIP_MIME_PREFIXES
abbrev pub skip_mime_prefixes : List Text
skip_mime_prefixes =
    text "application/vnd.portal.filetransfer"
    ∷ text "application/vnd.portal.files"
    ∷ text "application/x-moz-custom-clipdata"
    ∷ []

unfoldable pub should_skip : Text → Bool
should_skip mime = any (λ prefix. starts_with mime prefix) skip_mime_prefixes

-- PASSWORD_MANAGER_HINT_MIME
abbrev pub password_manager_hint_mime : Text
password_manager_hint_mime = text "x-kde-passwordManagerHint"

unfoldable pub eq_ignore_ascii_case : Text → Text → Bool
eq_ignore_ascii_case a b = text_eq (map to_ascii_lowercase a) (map to_ascii_lowercase b)

unfoldable pub is_sensitive_offer : List Text → Bool
is_sensitive_offer mime_types =
    any (λ mime. eq_ignore_ascii_case mime password_manager_hint_mime) mime_types

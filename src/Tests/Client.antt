-- ===== src/Tests/Client.antt =====
-- Runs of src/cli/main.rs.

use mimeclip.Base.{◌≡◌, refl, some, [], ◌∷◌, ◌++◌, replicate, ok, arith}
use mimeclip.Base.Bytes.{text}
use mimeclip.Base.Utf8.{
  from_utf8_lossy, decode_from, next_char, start_char, in_range, is_continuation,
}
use mimeclip.Config.{Config}
use mimeclip.Client.{
  max_history_size, apply_setting, connected, absent, broken, made, given_up, retries, connect_from,
  connect_with_retry, connect_with_retry-lem, request_of, screenshot,
}
use mimeclip.Server.{offer_screenshot}
use mimeclip.Tests.Config.{program}

attempts : Unit {0}
unfolding connect_from connect_with_retry request_of from_utf8_lossy decode_from next_char
    start_char in_range is_continuation
attempts = tt

third_attempt : connect_with_retry (absent ∷ absent ∷ connected ∷ []) ≡ made 2
unfolding attempts
third_attempt = refl

screenshot_request : request_of (screenshot (text "s.png")) ≡ some (offer_screenshot (text "s.png"))
unfolding attempts
screenshot_request = refl

connect_with_retry-lem_example :
    (connect_with_retry (absent ∷ absent ∷ connected ∷ []) ≡ made 2)
    × (connect_with_retry (absent ∷ absent ∷ broken ∷ []) ≡ given_up 2)
    × (connect_with_retry (replicate retries absent ++ absent ∷ []) ≡ given_up retries)
connect_with_retry-lem_example = connect_with_retry-lem 2 [] (omega arith)

abbrev before : Config
before = record { max_entries = 7; max_history_size = text "1 GiB" }

abbrev after : Config
after = record { max_entries = 7; max_history_size = text "64 MiB" }

set_size : apply_setting (max_history_size (text "65536 kb")) before ≡ ok after
unfolding program apply_setting
set_size = refl

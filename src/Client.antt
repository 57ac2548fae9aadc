-- ===== src/Client.antt =====
-- src/cli/main.rs: the requests of the commands, the settings, and the connection to the daemon.
pub mod Settings
pub mod Main
use mimeclip.Base.{
  ℕ, zero, suc, ◌+◌, ◌-◌, ◌≤◌, ◌≡◌, refl, ap, sym, ◌∙◌, Bool, Option, none, some, List, [], ◌∷◌,
  ◌++◌, replicate, Result, ok, and_then, and_then-eq-ok, ok-injective, arith,
}
use mimeclip.Base.Bytes.{Text, Bytes}
use mimeclip.Base.Utf8.{from_utf8_lossy}
use mimeclip.Config.{Config, ConfigError, parse_size, format_size}
use mimeclip.Config.Sizes.{parse_size-format_size, size_bounds}
use mimeclip.Config.Sizes.{parse_size-format_size, size_bounds}
use mimeclip.Server.{
  Request, list_entries, decode, delete_entry, restore, offer_screenshot, clear_all, ping,
}

pub data ConfigSetting : Type 0 where
  max_history_size : Text → ConfigSetting
  max_entries : ℕ → ConfigSetting

pub data ConfigCmd : Type 0 where
  show : ConfigCmd
  set : ConfigSetting → ConfigCmd

pub data Cmd : Type 0 where
  -- with `--json` or without
  list : ℕ → Bool → Cmd
  decode_entry : ℕ → Cmd
  delete : ℕ → Cmd
  restore_entry : ℕ → Cmd
  screenshot : Bytes → Cmd
  clear : Cmd
  config : Option ConfigCmd → Cmd
  ping_daemon : Cmd

-- The request of a command; `none` is one that is handled before any request.
unfoldable pub request_of : Cmd → Option Request
request_of (list limit json) = some (list_entries (some limit))
request_of (decode_entry id) = some (decode id)
request_of (delete id) = some (delete_entry id)
request_of (restore_entry id) = some (restore id)
request_of (screenshot path) = some (offer_screenshot (from_utf8_lossy path))
request_of clear = some clear_all
request_of (config action) = none
request_of ping_daemon = some ping

-- The `match setting` of `handle_config`
unfoldable pub apply_setting : ConfigSetting → Config → Result ConfigError Config
apply_setting (max_history_size size) c =
    and_then (parse_size size) (λ bytes. ok (record c { max_history_size = format_size bytes }))
apply_setting (max_entries count) c = ok (record c { max_entries = count })

pub data Attempt : Type 0 where
  connected : Attempt
  -- not found, or the connection refused
  absent : Attempt
  broken : Attempt

pub data Connection : Type 0 where
  -- with the number of waits before it
  made : ℕ → Connection
  given_up : ℕ → Connection
  trying : ℕ → Connection

-- RETRIES
abbrev pub retries : ℕ
retries = 5

-- The loop, with the attempts that are left after this one, over what the attempts give.
unfoldable pub connect_from : ℕ → ℕ → List Attempt → Connection
connect_from left waits [] = trying waits
connect_from left waits (connected ∷ attempts) = made waits
connect_from zero waits (absent ∷ attempts) = given_up waits
connect_from (suc left) waits (absent ∷ attempts) = connect_from left (suc waits) attempts
connect_from left waits (broken ∷ attempts) = given_up waits

unfoldable pub connect_with_retry : List Attempt → Connection
connect_with_retry attempts = connect_from retries 0 attempts

connect_from-absent :
    (n left waits : ℕ) (rest : List Attempt)
    → connect_from (n + left) waits (replicate n absent ++ rest)
      ≡ connect_from left (n + waits) rest
unfolding connect_from
connect_from-absent zero left waits rest =
    ap (λ m. connect_from m waits rest) (omega arith)
    ∙ ap (λ w. connect_from left w rest) (omega arith)
connect_from-absent (suc n) left waits rest =
    let e : suc n + left ≡ suc (n + left) = omega arith in
    ap (λ m. connect_from m waits (absent ∷ (replicate n absent ++ rest))) e
    ∙ connect_from-absent n left (suc waits) rest
    ∙ ap (λ w. connect_from left w rest) (omega arith)

-- Some attempts find no daemon, and the number of those is at most that of the retries.
connect_after :
    (n : ℕ) (rest : List Attempt)
    → n ≤ retries
    → connect_with_retry (replicate n absent ++ rest) ≡ connect_from (retries - n) n rest
unfolding connect_with_retry
connect_after n rest le =
    ap (λ m. connect_from m 0 (replicate n absent ++ rest)) (omega (arith, le))
    ∙ connect_from-absent n (retries - n) 0 rest
    ∙ ap (λ w. connect_from (retries - n) w rest) (omega arith)

connect_from-connected :
    (left waits : ℕ) (rest : List Attempt) → connect_from left waits (connected ∷ rest) ≡ made waits
unfolding connect_from
connect_from-connected zero waits rest = refl
connect_from-connected (suc left) waits rest = refl

connect_from-broken :
    (left waits : ℕ) (rest : List Attempt)
    → connect_from left waits (broken ∷ rest) ≡ given_up waits
unfolding connect_from
connect_from-broken zero waits rest = refl
connect_from-broken (suc left) waits rest = refl

-- A client waits for a daemon that is not there yet five times at most: it connects where one of
-- the first six attempts finds it, gives up at once on any other error, and gives up at the sixth
-- attempt otherwise.
pub connect_with_retry-lem :
    (n : ℕ) (rest : List Attempt)
    → n ≤ retries
    → (connect_with_retry (replicate n absent ++ connected ∷ rest) ≡ made n)
      × (connect_with_retry (replicate n absent ++ broken ∷ rest) ≡ given_up n)
      × (connect_with_retry (replicate retries absent ++ absent ∷ rest) ≡ given_up retries)
connect_with_retry-lem n rest le = (
  connect_after n (connected ∷ rest) le ∙ connect_from-connected (retries - n) n rest,
  connect_after n (broken ∷ rest) le ∙ connect_from-broken (retries - n) n rest,
  connect_after retries (absent ∷ rest) (omega arith) ∙ unfold connect_from in refl,
)

-- A size that is set is read back from the configuration as the same number of bytes, and the
-- other setting stays.
parse_size-apply_setting :
    (size : Text) (c after : Config)
    → apply_setting (max_history_size size) c ≡ ok after
    → (parse_size after.max_history_size ≡ parse_size size) × (after.max_entries ≡ c.max_entries)
unfolding apply_setting
parse_size-apply_setting size c after h =
    let (bytes, parsed, built) = and_then-eq-ok (parse_size size) _ h in
    let (positive, fits) = size_bounds size bytes parsed in
    let same = ok-injective built in
    (
      ap (λ (x : Config). parse_size x.max_history_size) (sym same)
          ∙ parse_size-format_size bytes positive fits
          ∙ sym parsed,
      ap (λ (x : Config). x.max_entries) (sym same),
    )

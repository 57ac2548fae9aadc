-- ===== src/Client/Main.antt =====
-- `main` of src/cli/main.rs: a command, its request, and what is printed of the response.
pub mod Answered
use mimeclip.Base.{ℕ, Bool, true, false, Option, none, some, List, map}
use mimeclip.Base.Action.{pure, ◌>>=◌}
use mimeclip.Base.Bytes.{Text}
use mimeclip.Client.{Cmd, list, decode_entry, config, request_of}
use mimeclip.Client.Settings.{Shell, Command, send_request, handle_config}
use mimeclip.Config.{Config, Limits}
use mimeclip.Entry.{Entry, MimePayload}
use mimeclip.Kind.{label}
use mimeclip.Server.{Request, Response, Message, done, entries, payloads, error, pong}

-- A line of the list
pub record Row : Type 0 where
  pub id : ℕ
  pub kind : Text
  pub created_at : ℕ
  pub label : Text

pub data Output : Type 0 where
  -- on the standard error; the status is then 1
  failed : Message → Output
  pong_line : Output
  silent : Output
  json_list : List Entry → Output
  table : List Row → Output
  json_payloads : List MimePayload → Output
  settings : Limits → Output
  -- the last arm of the `match`
  ignored : Output
  -- `unreachable!`
  panicked : Output

unfoldable pub row_of : Entry → Row
row_of e = record { id = e.id; kind = label e.kind; created_at = e.created_at; label = e.label }

unfoldable pub print_response : Cmd → Response → Output
unfolding row_of
print_response cmd (error message) = failed message
print_response cmd pong = pong_line
print_response cmd done = silent
print_response (list limit true) (entries es) = json_list es
print_response (list limit false) (entries es) = table (map row_of es)
print_response (decode_entry id) (payloads ps) = json_payloads ps
print_response _ _ = ignored

-- The crate `toml`
module _ (from_toml : Text → Option Config) (to_toml : Config → Option Text) where
  unfoldable pub send_command : Shell → Cmd → Option Request → Command Output
  unfolding print_response
  send_command sh cmd none = pure panicked
  send_command sh cmd (some request) = do
    response ← send_request from_toml to_toml sh request
    pure (print_response cmd response)

  unfoldable pub main : Shell → Cmd → Command Output
  unfolding request_of send_command
  main sh (config action) = do
    limits ← handle_config from_toml to_toml sh action
    pure (settings limits)
  main sh cmd = send_command sh cmd (request_of cmd)

-- ===== src/Client/Main/Answered.antt =====
-- What src/cli/main.rs prints against what src/daemon/server.rs answers.
use mimeclip.Base.{
  ℕ, ◌≡◌, refl, ap, subst, ◌∙◌, Bool, true, false, Option, none, some, List, Result, ok, err,
  ok-injective,
}
use mimeclip.Base.Action.{pure, bind-ok}
use mimeclip.Base.Bytes.{Text, Bytes}
use mimeclip.Client.{
  Cmd, list, decode_entry, delete, restore_entry, screenshot, clear, config, ping_daemon,
  Connection, made, given_up, trying, request_of, connect_with_retry,
}
use mimeclip.Client.Main.{
  Output, failed, pong_line, silent, json_list, table, json_payloads, settings, print_response,
  send_command, main,
}
use mimeclip.Client.Settings.{
  Shell, Machine, receive, send_over, surroundings, send_request, handle_config,
}
use mimeclip.Config.{Config}
use mimeclip.Database.{Database, DbError}
use mimeclip.Server.{
  Request, Response, done, entries, payloads, error, Daemon, Surroundings, dispatch, with_db,
  respond_with, deleted, offer_payloads, restore_found,
}
use mimeclip.Screenshot.{ScreenshotError}
use mimeclip.Payloads.{Payload}

-- What a command is for, or the daemon's error
unfoldable pub fits : Cmd → Output → Bool
fits (config action) (settings l) = true
fits (config action) _ = false
fits cmd (failed message) = true
fits (list limit true) (json_list es) = true
fits (list limit false) (table rows) = true
fits (decode_entry id) (json_payloads ps) = true
fits (delete id) silent = true
fits (restore_entry id) silent = true
fits (screenshot path) silent = true
fits clear silent = true
fits ping_daemon pong_line = true
fits _ _ = false

abbrev Prints : Cmd → Response → Type 0
Prints cmd response = fits cmd (print_response cmd response) ≡ true

respond-Prints :
    {A : Type 0} (cmd : Cmd) (respond : A → Response) (r : Result DbError A × Database) (d : Daemon)
    → ((a : A) → Prints cmd (respond a))
    → ((message : _) → Prints cmd (error message))
    → Prints cmd (respond_with r respond d).0
unfolding respond_with
respond-Prints cmd respond (ok a, db) d good bad = good a
respond-Prints cmd respond (err e, db) d good bad = bad _

deleted-Prints : (id id' : ℕ) (found : Bool) → Prints (delete id) (deleted id' found)
unfolding deleted fits print_response
deleted-Prints id id' true = refl
deleted-Prints id id' false = refl

offer-Prints :
    (path : Bytes) (r : Result ScreenshotError (List Payload)) (d : Daemon)
    → Prints (screenshot path) (offer_payloads r d).0
unfolding offer_payloads fits print_response
offer-Prints path (ok ps) d = refl
offer-Prints path (err e) d = refl

restore-Prints :
    (instant id id' : ℕ) (r : Result DbError (Option (Text × List Payload)) × Database) (d : Daemon)
    → Prints (restore_entry id) (restore_found instant id' r d).0
unfolding restore_found fits print_response
restore-Prints instant id id' (ok (some (hash, ps)), db) d = refl
restore-Prints instant id id' (ok none, db) d = refl
restore-Prints instant id id' (err e, db) d = refl

abbrev IsAnswered : Surroundings → Daemon → Cmd → Option Request → Type 0
IsAnswered env d cmd none = Unit
IsAnswered env d cmd (some request) = Prints cmd (dispatch env request d).0

dispatch-Prints :
    (env : Surroundings) (d : Daemon) (cmd : Cmd) → IsAnswered env d cmd (request_of cmd)
unfolding request_of dispatch with_db fits print_response
dispatch-Prints env d (list limit true) =
    respond-Prints (list limit true) entries _ d (λ es. refl) (λ m. refl)
dispatch-Prints env d (list limit false) =
    respond-Prints (list limit false) entries _ d (λ es. refl) (λ m. refl)
dispatch-Prints env d (decode_entry id) =
    respond-Prints (decode_entry id) payloads _ d (λ ps. refl) (λ m. refl)
dispatch-Prints env d (delete id) =
    respond-Prints (delete id) (deleted id) _ d (deleted-Prints id id) (λ m. refl)
dispatch-Prints env d (restore_entry id) = restore-Prints env.instant id id _ d
dispatch-Prints env d (screenshot path) = offer-Prints path _ d
dispatch-Prints env d clear = respond-Prints clear (λ u. done) _ d (λ u. refl) (λ m. refl)
dispatch-Prints env d (config action) = tt
dispatch-Prints env d ping_daemon = refl

send_over-ok :
    (c : Connection) (answered : Bool) (env : Surroundings) (request : Request) (m : Machine)
    (r : Response)
    → (send_over c answered env request m).0 ≡ ok r
    → (dispatch env request m.daemon).0 ≡ r
unfolding send_over receive
send_over-ok (made waits) true env request m r h = ok-injective h
send_over-ok (made waits) false env request m r h = cc
send_over-ok (given_up waits) answered env request m r h = cc
send_over-ok (trying waits) answered env request m r h = cc

module _ (from_toml : Text → Option Config) (to_toml : Config → Option Text) where
  send_command-fits :
      (sh : Shell) (cmd : Cmd) (request : Request) (m : Machine) (output : Output)
      → ((env : Surroundings) → Prints cmd (dispatch env request m.daemon).0)
      → (send_command from_toml to_toml sh cmd (some request) m).0 ≡ ok output
      → fits cmd output ≡ true
  unfolding send_command send_request pure
  send_command-fits sh cmd request m output prints h =
      let send = send_request from_toml to_toml sh request in
      let (response, sent, printed) = bind-ok send (λ r. pure (print_response cmd r)) m output h in
      let e =
        send_over-ok (connect_with_retry sh.attempts) sh.answered
          (surroundings from_toml to_toml sh m.files) request m response sent in
      subst (λ o. fits cmd o ≡ true) (ap (print_response cmd) e ∙ ok-injective printed)
        (prints (surroundings from_toml to_toml sh m.files))

  -- A command that ends without an error of its own prints what it is for, or the daemon's error,
  -- whatever it meets: the response that the daemon gives is never one that it passes over, and it
  -- never comes to the arm that cannot be reached.
  pub main-fits :
      (sh : Shell) (cmd : Cmd) (m : Machine) (output : Output)
      → (main from_toml to_toml sh cmd m).0 ≡ ok output
      → fits cmd output ≡ true
  unfolding main request_of pure
  main-fits sh (config action) m output h =
      let (l, handled, shown) =
        bind-ok (handle_config from_toml to_toml sh action) (λ l. pure (settings l)) m output h in
      subst (λ o. fits (config action) o ≡ true) (ok-injective shown) (unfold fits in refl)
  main-fits sh (list limit json) m output h =
      send_command-fits sh (list limit json) _ m output
        (λ env. dispatch-Prints env m.daemon (list limit json)) h
  main-fits sh (decode_entry id) m output h =
      send_command-fits sh (decode_entry id) _ m output
        (λ env. dispatch-Prints env m.daemon (decode_entry id)) h
  main-fits sh (delete id) m output h =
      send_command-fits sh (delete id) _ m output (λ env. dispatch-Prints env m.daemon (delete id))
        h
  main-fits sh (restore_entry id) m output h =
      send_command-fits sh (restore_entry id) _ m output
        (λ env. dispatch-Prints env m.daemon (restore_entry id)) h
  main-fits sh (screenshot path) m output h =
      send_command-fits sh (screenshot path) _ m output
        (λ env. dispatch-Prints env m.daemon (screenshot path)) h
  main-fits sh clear m output h =
      send_command-fits sh clear _ m output (λ env. dispatch-Prints env m.daemon clear) h
  main-fits sh ping_daemon m output h =
      send_command-fits sh ping_daemon _ m output (λ env. dispatch-Prints env m.daemon ping_daemon)
        h

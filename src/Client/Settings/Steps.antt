-- ===== src/Client/Settings/Steps.antt =====
-- What the steps of a change of the settings in src/cli/main.rs have done when they succeed.
use mimeclip.Base.{
  ℕ, zero, suc, ◌≡◌, refl, ap, sym, ◌∙◌, Bool, true, false, Option, none, some, Result, ok, err,
  and_then, Result-cases, inl, inr, ok-injective,
}
use mimeclip.Base.Action.{pure, fail}
use mimeclip.Base.Bytes.{Text, Bytes}
use mimeclip.Base.Paths.{FilePath, parent}
use mimeclip.Client.{Connection, made, given_up, trying}
use mimeclip.Client.Settings.{
  Machine, contents, file_at, try_config, receive, send_over, check_reload, settle_save,
}
use mimeclip.Config.{Config, ConfigError, limits}
use mimeclip.Config.Saving.{
  Files, Link, no_link, dangling, links_to, resolve, SaveError, save_to_path, IsAtomic, plan,
  checked, run_plan, from_option, no_parent, steps_for, replace, run, apply,
}
use mimeclip.Database.{Database, DbError}
use mimeclip.Database.Limited.{limits_of, reload_config-limits}
use mimeclip.Database.Store
use mimeclip.Server.{
  Response, done, error, entries, payloads, pong, reload, Daemon, Surroundings, dispatch, with_db,
  respond_with,
}

pub try-ok :
    {A : Type 0} (r : Result ConfigError A) (m : Machine) (a : A)
    → (try_config r m).0 ≡ ok a
    → (r ≡ ok a) × ((try_config r m).1 ≡ m)
unfolding try_config pure fail
try-ok (ok x) m a h = (ap ok (ok-injective h), refl)
try-ok (err e) m a h = cc

pub check_reload-ok :
    (r : Response) (m : Machine) (u : Unit {0})
    → (check_reload r m).0 ≡ ok u
    → (r ≡ done) × ((check_reload r m).1 ≡ m)
unfolding check_reload pure fail
check_reload-ok done m u h = (refl, refl)
check_reload-ok (entries es) m u h = cc
check_reload-ok (payloads ps) m u h = cc
check_reload-ok (error e) m u h = cc
check_reload-ok pong m u h = cc

-- A response that is `Ok` comes from a database that has loaded the limits.
respond-done :
    (r : Result DbError (Unit {0})) (db : Database) (d : Daemon)
    → (respond_with (r, db) (λ _. done) d).0 ≡ done
    → (r ≡ ok tt) × ((respond_with (r, db) (λ _. done) d).1.db ≡ db)
unfolding respond_with
respond-done (ok u) db d h = (refl, refl)
respond-done (err e) db d h = cc

dispatch-reload :
    (env : Surroundings) (d : Daemon)
    → (dispatch env reload d).0 ≡ done
    → env.loaded ≡ some (limits_of (dispatch env reload d).1.db)
unfolding dispatch with_db
dispatch-reload env d h =
    let (good, same) = respond-done _ (Store.reload_config env.plan env.loaded d.db).1 d h in
    reload_config-limits env.plan env.loaded d.db tt good
    ∙ ap (λ db. some (limits_of db)) (sym same)

pub send_over-done :
    (c : Connection) (answered : Bool) (env : Surroundings) (m : Machine)
    → (send_over c answered env reload m).0 ≡ ok done
    → (env.loaded ≡ some (limits_of (send_over c answered env reload m).1.daemon.db))
      × ((send_over c answered env reload m).1.files ≡ m.files)
unfolding send_over receive
send_over-done (made waits) true env m h = (dispatch-reload env m.daemon (ok-injective h), refl)
send_over-done (made waits) false env m h = cc
send_over-done (given_up waits) answered env m h = cc
send_over-done (trying waits) answered env m h = cc

pub settle_save-ok :
    (r : Result SaveError (Unit {0})) (files : Files) (m : Machine) (u : Unit {0})
    → (settle_save (r, files) m).0 ≡ ok u
    → (r ≡ ok tt) × ((settle_save (r, files) m).1 ≡ record m { files = files })
unfolding settle_save
settle_save-ok (ok u) files m u' h = (refl, refl)
settle_save-ok (err e) files m u' h = cc

pub file_at-contents :
    (link : Link) (path target : FilePath) (files : Files)
    → resolve link path ≡ ok target
    → file_at link path files ≡ contents (files target)
unfolding file_at resolve
file_at-contents no_link path target files h = ap (λ p. contents (files p)) (ok-injective h)
file_at-contents dangling path target files h = cc
file_at-contents (links_to t) path target files h = ap (λ p. contents (files p)) (ok-injective h)

module _ (to_toml : Config → Option Text) where
  plan_some-ok :
      (written : Option Text) (directory : Option FilePath) (target : FilePath) (good : ℕ)
      (left_over : Option Bytes) (files : Files) (u : Unit {0})
      → (run_plan good left_over
          (and_then (from_option no_parent directory) (λ d. ok (steps_for target written d)))
          files).0
        ≡ ok u
      → (source : Text) × (written ≡ some source)
  unfolding run_plan from_option steps_for replace run apply
  plan_some-ok (some source) directory target good left_over files u h = (source, refl)
  plan_some-ok none none target good left_over files u h = cc
  plan_some-ok none (some d) target zero left_over files u h = cc
  plan_some-ok none (some d) target (suc zero) left_over files u h = cc
  plan_some-ok none (some d) target (suc (suc zero)) left_over files u h = cc
  plan_some-ok none (some d) target (suc (suc (suc good))) left_over files u h = cc

  -- A save that succeeds has a target and something to write.
  pub save_to_path-ok :
      (c : Config) (link : Link) (path : FilePath) (good : ℕ) (left_over : Option Bytes)
      (files : Files) (u : Unit {0})
      → (save_to_path to_toml c link path good left_over files).0 ≡ ok u
      → (target : FilePath) × (source : Text) × (resolve link path ≡ ok target)
        × (to_toml c ≡ some source)
  unfolding save_to_path plan checked run_plan
  save_to_path-ok c link path good left_over files u h = elim (Result-cases (limits c)) [
    | inl (e, bad) ↦ let k = rw bad at h in cc
    | inr (l, fine) ↦ elim (Result-cases (resolve link path)) [
      | inl (e, lost) ↦ let k = rw (fine, lost) at h in cc
      | inr (target, leads) ↦
          let k = rw (fine, leads) at h in
          let (source, written) =
            plan_some-ok (to_toml c) (parent target) target good left_over files u k in
          (target, source, leads, written)
    ]
  ]

  pub IsAtomic-ok :
      (target : FilePath) (written : Option Bytes) (files : Files) (r : Result SaveError (Unit {0}))
      (after : Files)
      → r ≡ ok tt
      → IsAtomic target written files (r, after)
      → after target ≡ written
  IsAtomic-ok target written files (ok u) after h i = i
  IsAtomic-ok target written files (err e) after h i = cc

-- ===== src/Client/Settings/Applied.antt =====
-- What a change of the settings with src/cli/main.rs has done when it succeeds: to the file, and to
-- the daemon.
use mimeclip.Base.{◌≡◌, refl, ap, sym, subst, ◌∙◌, false, Option, some, Result, ok, err, and_then}
use mathlib.Core.Option.{some-injective}
use mimeclip.Base.Action.{◌>>=◌, bind-ok, bind-step}
use mimeclip.Base.Bytes.{Text}
use mimeclip.Base.Paths.{FilePath, path_eq}
use mimeclip.Client.{ConfigSetting, apply_setting, connect_with_retry}
use mimeclip.Client.Settings.{
  Machine, Shell, Command, contents, file_at, try_config, check_reload, loaded, daemon_limits,
  surroundings, send_request, reload_config, print_config, save, apply_config, set_config,
}
use mimeclip.Config.{Config, ConfigError, Limits, FileState, read_file, limits}
use mimeclip.Config.Saving.{resolve, temporary, save_to_path, save_to_path-IsAtomic}
use mimeclip.Database.Limited.{limits_of}
use mimeclip.Server.{reload}
use mimeclip.Client.Settings.Steps.{
  try-ok, check_reload-ok, send_over-done, settle_save-ok, file_at-contents, save_to_path-ok,
  IsAtomic-ok,
}

daemon_limits-some :
    (r : Result ConfigError Limits) (l : Limits) → daemon_limits r ≡ some l → r ≡ ok l
unfolding daemon_limits
daemon_limits-some (ok l') l h = ap ok (some-injective _ _ h)
daemon_limits-some (err e) l h = cc

module _ (from_toml : Text → Option Config) (to_toml : Config → Option Text) where
  reload_config-ok :
      (sh : Shell) (m : Machine) (u : Unit {0})
      → (reload_config from_toml to_toml sh m).0 ≡ ok u
      → let after = (reload_config from_toml to_toml sh m).1 in
        (and_then (loaded from_toml to_toml sh sh.others m.files) limits
          ≡ ok (limits_of after.daemon.db))
        × (after.files ≡ m.files)
  unfolding reload_config send_request surroundings
  reload_config-ok sh m u h =
      let send = send_request from_toml to_toml sh reload in
      let (response, sent, checked') = bind-ok send check_reload m u h in
      let (is_done, same) = check_reload-ok response (send m).1 u checked' in
      let e : (reload_config from_toml to_toml sh m).1 ≡ (send m).1 =
        ap (λ p. p.1) (bind-step send check_reload m response sent) ∙ same in
      let (used, kept) =
        send_over-done (connect_with_retry sh.attempts) sh.answered
          (surroundings from_toml to_toml sh m.files) m (sent ∙ ap ok is_done) in
      (
        daemon_limits-some _ _ (used ∙ ap (λ n. some (limits_of n.daemon.db)) (sym e)),
        ap (λ n. n.files) e ∙ kept,
      )

  print_config-ok :
      (sh : Shell) (m : Machine) (l : Limits)
      → (print_config from_toml to_toml sh m).0 ≡ ok l
      → (and_then (loaded from_toml to_toml sh sh.own m.files) limits ≡ ok l)
        × ((print_config from_toml to_toml sh m).1 ≡ m)
  unfolding print_config
  print_config-ok sh m l h =
      let read = loaded from_toml to_toml sh sh.own m.files in
      let (config, got, rest) = bind-ok (try_config read) (λ c. try_config (limits c)) m l h in
      let (is_read, same) = try-ok read m config got in
      let step = bind-step (try_config read) (λ c. try_config (limits c)) m config got in
      let (fine, same') = try-ok (limits config) _ l rest in
      (rw is_read fine, ap (λ p. p.1) step ∙ same' ∙ same)

  -- The file holds the configuration, what is shown are the limits of a load of the file, and the
  -- daemon's database works with the limits that the daemon loads from it.
  pub record IsApplied (sh : Shell) (config : Config) (shown : Limits) (m : Machine) : Type 0 where
    pub stored : read_file from_toml (file_at sh.link sh.path m.files) ≡ ok config
    pub told : and_then (loaded from_toml to_toml sh sh.own m.files) limits ≡ ok shown
    pub used :
        and_then (loaded from_toml to_toml sh sh.others m.files) limits ≡ ok (limits_of m.daemon.db)

  read_file-stored :
      (config : Config) (source : Text) (file : FileState)
      → from_toml source ≡ some config
      → file ≡ contents (some source)
      → read_file from_toml file ≡ ok config
  unfolding read_file contents
  read_file-stored config source file reads e = rw (e, reads) refl

  save-stored :
      (sh : Shell) (config : Config) (m : Machine) (u : Unit {0})
      → ((c : Config) (source : Text) → to_toml c ≡ some source → from_toml source ≡ some c)
      → ((target : FilePath)
          → resolve sh.link sh.path ≡ ok target
          → path_eq (temporary target) target ≡ false)
      → (save from_toml to_toml sh config m).0 ≡ ok u
      → read_file from_toml (file_at sh.link sh.path (save from_toml to_toml sh config m).1.files)
        ≡ ok config
  unfolding save
  save-stored sh config m u reads apart h =
      let saved = save_to_path to_toml config sh.link sh.path sh.good sh.left_over m.files in
      let (is_ok, settled) = settle_save-ok saved.0 saved.1 m u h in
      let (target, source, leads, written) =
        save_to_path-ok to_toml config sh.link sh.path sh.good sh.left_over m.files tt is_ok in
      let holds_it = IsAtomic-ok to_toml target (to_toml config) m.files saved.0 saved.1 is_ok (
        save_to_path-IsAtomic to_toml config sh.link sh.path target sh.good sh.left_over m.files
          leads (apart target leads)) in
      read_file-stored config source _ (reads config source written) (
        ap (λ n. file_at sh.link sh.path n.files) settled
        ∙ file_at-contents sh.link sh.path target saved.1 leads
        ∙ ap contents (holds_it ∙ written))

  -- Both ways to change a setting end here.
  apply_config-IsApplied :
      (sh : Shell) (config : Config) (m : Machine) (printed : Limits)
      → ((c : Config) (source : Text) → to_toml c ≡ some source → from_toml source ≡ some c)
      → ((target : FilePath)
          → resolve sh.link sh.path ≡ ok target
          → path_eq (temporary target) target ≡ false)
      → (apply_config from_toml to_toml sh config m).0 ≡ ok printed
      → IsApplied sh config printed (apply_config from_toml to_toml sh config m).1
  unfolding apply_config
  apply_config-IsApplied sh config m printed reads apart h =
      let keep = save from_toml to_toml sh config in
      let told = print_config from_toml to_toml sh in
      let tell : Command Limits = reload_config from_toml to_toml sh >>= λ _. told in
      let (u, kept, rest) = bind-ok keep (λ _. tell) m printed h in
      let (u', reloaded, shown) =
        bind-ok (reload_config from_toml to_toml sh) (λ _. told) (keep m).1 printed rest in
      let m' = (keep m).1 in
      let (used, same) = reload_config-ok sh m' u' reloaded in
      let (listed, still) =
        print_config-ok sh (reload_config from_toml to_toml sh m').1 printed shown in
      let last =
        ap (λ p. p.1)
          (bind-step keep (λ _. tell) m u kept
            ∙ bind-step (reload_config from_toml to_toml sh) (λ _. told) m' u' reloaded)
        ∙ still in
      subst (IsApplied sh config printed) (sym last) (record {
        stored =
            ap (λ f. read_file from_toml (file_at sh.link sh.path f)) same
            ∙ save-stored sh config m u reads apart kept;
        told = listed;
        used = ap (λ f. and_then (loaded from_toml to_toml sh sh.others f) limits) same ∙ used;
      })

  -- When `config set` has succeeded, the file that the configuration's path leads to holds the
  -- configuration that was loaded, with the setting applied; the limits that are printed are those
  -- of a load of that file, and the daemon's database works with the limits that the daemon loads
  -- from it. What is written as TOML has to be read as the same configuration, and the temporary
  -- file has to be another one.
  pub set_config-IsApplied :
      (sh : Shell) (setting : ConfigSetting) (m : Machine) (printed : Limits)
      → ((c : Config) (source : Text) → to_toml c ≡ some source → from_toml source ≡ some c)
      → ((target : FilePath)
          → resolve sh.link sh.path ≡ ok target
          → path_eq (temporary target) target ≡ false)
      → (set_config from_toml to_toml sh setting m).0 ≡ ok printed
      → (config changed : Config) × (loaded from_toml to_toml sh sh.own m.files ≡ ok config)
        × (apply_setting setting config ≡ ok changed)
        × IsApplied sh changed printed (set_config from_toml to_toml sh setting m).1
  unfolding set_config
  set_config-IsApplied sh setting m printed reads apart h =
      let read = loaded from_toml to_toml sh sh.own m.files in
      let finish : Config → Command Limits = apply_config from_toml to_toml sh in
      let change : Config → Command Limits = λ c. try_config (apply_setting setting c) >>= finish in
      let (config, got, rest) = bind-ok (try_config read) change m printed h in
      let (is_read, same) = try-ok read m config got in
      let (changed, got', rest') =
        bind-ok (try_config (apply_setting setting config)) finish _ printed rest in
      let (is_changed, same') = try-ok (apply_setting setting config) _ changed got' in
      let at = same' ∙ same in
      let last =
        bind-step (try_config read) change m config got
        ∙ bind-step (try_config (apply_setting setting config)) finish _ changed got'
        ∙ ap (finish changed) at in
      (
        config,
        changed,
        is_read,
        is_changed,
        subst (IsApplied sh changed printed) (sym (ap (λ p. p.1) last)) (
            apply_config-IsApplied sh changed m printed reads apart
              (ap (λ n. (finish changed n).0) (sym at) ∙ rest')),
      )

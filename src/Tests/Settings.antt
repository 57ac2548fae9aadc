-- ===== src/Tests/Settings.antt =====
-- Runs of `main` of src/cli/main.rs with a daemon.
use mimeclip.Base.{
  ◌≡◌, refl, ap, sym, subst, true, false, Option, none, some, [], ◌∷◌, keep, ok, ok-injective,
}
use mimeclip.Base.Action.{◌>>=◌, pure, fail}
use mimeclip.Base.Bytes.{Text, text, text_eq, starts_with}
use mimeclip.Base.Paths.{
  FilePath, parse_path, split_on, push_char, is_component, join, last, init, name_of, file_name,
  split_dot, stem_and_extension, replace_name, with_extension, parent, texts_eq, path_eq,
}
use mimeclip.Client.{
  delete, max_entries, connected, request_of, apply_setting, connect_from, connect_with_retry,
}
use mimeclip.Client.Main.{silent, failed, print_response, send_command, main}
use mimeclip.Client.Main.Answered.{fits, main-fits}
use mimeclip.Client.Settings.{
  Machine, Overrides, Shell, contents, file_at, try_config, receive, send_over, check_reload,
  settle_save, loaded, daemon_limits, surroundings, send_request, reload_config, print_config, save,
  apply_config, set_config,
}
use mimeclip.Client.Settings.Applied.{IsApplied, set_config-IsApplied}
use mimeclip.Config.{Config, Limits}
use mimeclip.Config.Saving.{
  links_to, resolve, temporary, config_path, save_to_path, plan, checked, run_plan, from_option,
  steps_for, replace, run, apply, break, put,
}
use mimeclip.Database.Store
use mimeclip.Screenshot.{Screenshot}
use mimeclip.Server.{no_entry, dispatch, with_db, respond_with, deleted}
use mimeclip.Suppress.{initial}
use mimeclip.Tests.Config
use mimeclip.Tests.Database
use mimeclip.Tests.Database.{stable, empty}
use mimeclip.Tests.Server.{filled}

settings : Unit {0}
unfolding Config.program Database.program parse_path split_on push_char is_component join last init
    name_of file_name split_dot stem_and_extension replace_name with_extension parent texts_eq
    path_eq text_eq starts_with keep resolve temporary config_path connect_from connect_with_retry
    apply_setting contents file_at try_config receive send_over check_reload settle_save loaded
    daemon_limits surroundings send_request reload_config print_config save apply_config set_config
    save_to_path plan checked run_plan from_option steps_for replace run apply break put
    Store.set_limits Store.reload_config dispatch with_db respond_with deleted request_of
    print_response send_command main ◌>>=◌ pure fail
settings = tt

-- A text that holds both settings
abbrev write_config : Config → Option Text
write_config c = some (c.max_entries ∷ c.max_history_size)

abbrev read_config : Text → Option Config
read_config [] = none
read_config (n ∷ size) = some (record { max_entries = n; max_history_size = size })

abbrev read_if_any : Option Text → Option Config
read_if_any none = none
read_if_any (some source) = read_config source

abbrev target : FilePath
target = record { rooted = true; components = text "dotfiles" ∷ text "managed.toml" ∷ [] }

abbrev unset : Overrides
unset = record { entries = none; size = none }

abbrev no_file : Screenshot
no_file = record { resolved = none; metadata = none; content = none }

abbrev shell : Shell
shell = record {
  path = config_path none none;
  link = links_to target;
  good = 5;
  left_over = none;
  own = unset;
  attempts = connected ∷ [];
  answered = true;
  terminal = false;
  size_line = [];
  count_line = [];
  others = unset;
  env = record {
    plan = stable;
    base64 = λ b. b;
    parse_time = λ t. none;
    now = 0;
    now_text = text "12:00";
    instant = 0;
    loaded = none;
    file_at = λ path. no_file;
  };
}

abbrev machine : Machine
machine = record {
  files = λ path. none;
  daemon = record { db = empty; suppress = initial; offered = [] };
}

abbrev printed : Limits
printed = record { max_entries = 7; max_history_size = 268435456 }

sets : (set_config read_config write_config shell (max_entries 7) machine).0 ≡ ok printed
unfolding settings
sets = refl

reads : (c : Config) (source : Text) → write_config c ≡ some source → read_config source ≡ some c
reads c source h = ap read_if_any (sym h)

apart :
    (t : FilePath)
    → resolve (links_to target) (config_path none none) ≡ ok t
    → path_eq (temporary t) t ≡ false
unfolding settings
apart t h = subst (λ t'. path_eq (temporary t') t' ≡ false) (ok-injective h) refl

set_config-IsApplied_example :
    (config changed : Config) × (loaded read_config write_config shell unset machine.files
      ≡ ok config)
    × (apply_setting (max_entries 7) config ≡ ok changed)
    × IsApplied read_config write_config shell changed printed
        (set_config read_config write_config shell (max_entries 7) machine).1
set_config-IsApplied_example =
    set_config-IsApplied read_config write_config shell (max_entries 7) machine printed reads apart
      sets

abbrev with_entry : Machine
with_entry = record machine { daemon = record { db = filled; suppress = initial; offered = [] } }

deletes : (main read_config write_config shell (delete 1) with_entry).0 ≡ ok silent
unfolding settings
deletes = refl

deletes_none :
    (main read_config write_config shell (delete 2) with_entry).0 ≡ ok (failed (no_entry 2))
unfolding settings
deletes_none = refl

main-fits_example : fits (delete 1) silent ≡ true
main-fits_example = main-fits read_config write_config shell (delete 1) with_entry silent deletes

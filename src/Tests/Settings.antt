-- ===== src/Tests/Settings.antt =====
-- A config.ini and messages of the log.
use spartan_launcher.Prelude.{
  refl, true, false, Option, some, List, [], ◌∷◌, Bytes, codes, lower, iequal, same_text,
}
use spartan_launcher.Config.{
  Settings, Parsed, Started, new_settings, handle_setting, new_session_state, process_config,
  after_config, check_settings, handle_settings, supervisor_setting, child_setting,
}
use spartan_launcher.Config.Entries.{HasEntries, new_session_state-HasEntries}

abbrev settings : Settings
settings = new_settings (codes "libjvm.so")

abbrev config : Bytes → Parsed
config path = record {
  settings =
      (codes "SupervisorProcessSettings", codes "MainEntryPoint", codes "app.Main")
      ∷ (codes "ChildProcessSettings", codes "ChildProcessMaxCount", codes "12")
      ∷ [];
  errors = [];
  failed = false;
}

abbrev session_of : Started → Settings
session_of (Started.init_exception what) = settings
session_of (Started.started st) = st

abbrev config_result : Started
config_result =
    new_session_state (λ path. true) config (λ s. s) (codes "process_cfg_exception")
      (codes "/opt/app") (codes "config.ini") (codes "libjvm.so")

new_session_state_example : HasEntries (session_of config_result).session
unfolding new_session_state process_config after_config check_settings handle_settings
    handle_setting supervisor_setting child_setting iequal lower same_text
new_session_state_example =
    new_session_state-HasEntries (λ path. true) config (λ s. s) (codes "process_cfg_exception")
      (codes "/opt/app") (codes "config.ini") (codes "libjvm.so") (session_of config_result) refl

abbrev arguments : Bytes → Option (List Bytes)
arguments text = some (codes "-Xmx9m" ∷ [])

abbrev path_argument : Bytes → Option (List Bytes)
path_argument text = some (codes "-Djava.library.path=/lib" ∷ codes "-server" ∷ [])

-- ===== src/Config.antt =====
-- The settings of config.ini: the constructor of `sessionState` and what it calls, in
-- src/main/cpp/session-state.cpp and src/main/cpp/cfgparse.cpp. The library path option is in
-- Config/LibraryPath.
pub mod LibraryPath
pub mod Laws
pub mod Entries
use spartan_launcher.Prelude.{
  ℕ, ◌+◌, ◌-◌, ◌*◌, ◌%◌, ◌^◌, Bool, true, false, not, ◌&&◌, Option, none, some, List, [], ◌∷◌, ◌++◌,
  ltb, if◌then◌else◌, Bytes, codes, is_empty, iequal, replace, ℤ, pos, negsuc,
}
use spartan_launcher.Session.{WhichMethod, MethodDescriptor, SessionState, new_session, no_name}
use spartan_launcher.Stream.Numbers.{take_digits, take_sign, skip_space, value}
use spartan_launcher.Text.{path_concat, split_last_slash}
use spartan_launcher.Log.{LoggingLevel, str_to_level, default_level}

-- What the handler of a setting changes: the session, the JVM's command line and the logging
-- level, which are global.
pub record Settings : Type 0 where
  pub session : SessionState
  pub jvm_cmd_line_args : Bytes
  pub logging_level : LoggingLevel

abbrev pub method : Bytes → Bytes → Bool → WhichMethod → MethodDescriptor
method name descriptor is_static which = record {
  is_static_method = is_static;
  which_method = which;
  full_method_name = name;
  descriptor = descriptor;
}

-- The descriptors' types.
abbrev pub main_type : Bytes
main_type = codes "([Ljava/lang/String;)V"

abbrev pub status_type : Bytes
status_type = codes "(Ljava/io/PrintStream;)V"

abbrev pub shutdown_type : Bytes
shutdown_type = codes "()V"

abbrev pub notify_type : Bytes
notify_type = codes "(ILjava/lang/String;)V"

abbrev pub completion_type : Bytes
completion_type = codes "(I)V"

abbrev pub command_type : Bytes
command_type = codes "([Ljava/lang/String;Ljava/io/PrintStream;)V"

-- An entry point named by a setting; an empty value leaves the old one.
unfoldable pub named_entry :
    MethodDescriptor → Bytes → Bytes → Bytes → Bool → WhichMethod → MethodDescriptor
named_entry old value suffix descriptor is_static which =
    if not (is_empty value)
    then method (replace b'.' b'/' value ++ suffix) descriptor is_static which
    else old

-- The section SupervisorProcessSettings. `unset` is the local string that the branch of
-- SupervisorEntryPoint tests before it assigns it.
unfoldable pub supervisor_setting : SessionState → Bytes → Bytes → SessionState
supervisor_setting ss name value =
    if iequal name (codes "MainEntryPoint")
    then record ss {
      spartan_main_entry_point =
          named_entry ss.spartan_main_entry_point value (codes "/main") main_type true
            WhichMethod.main;
    }
    else if iequal name (codes "GetStatusEntryPoint")
    then record ss {
      spartan_get_status_entry_point =
          named_entry ss.spartan_get_status_entry_point value [] status_type false
            WhichMethod.get_status;
    }
    else if iequal name (codes "SupervisorShutdownEntryPoint")
    then record ss {
      spartan_supervisor_shutdown_entry_point =
          named_entry ss.spartan_supervisor_shutdown_entry_point value [] shutdown_type false
            WhichMethod.supervisor_shutdown;
    }
    else if iequal name (codes "ChildNotifyEntryPoint")
    then record ss {
      spartan_child_notify_entry_point =
          named_entry ss.spartan_child_notify_entry_point value [] notify_type false
            WhichMethod.child_notify;
    }
    else if iequal name (codes "ChildCompletionNotifyEntryPoint")
    then record ss {
      spartan_child_completion_notify_entry_point =
          named_entry ss.spartan_child_completion_notify_entry_point value [] completion_type false
            WhichMethod.child_completion_notify;
    }
    else if iequal name (codes "SupervisorEntryPoint")
    then (let unset : Bytes = [] in
        if not (is_empty unset)
        then record ss {
          spartan_supervisor_entry_point =
              named_entry ss.spartan_supervisor_entry_point value [] command_type false
                WhichMethod.supervisor_do_cmd;
        }
        else ss)
    else ss

-- `std::stoi`: `none` is one of its two exceptions.
unfoldable pub stoi : Bytes → Option ℤ
stoi text =
    let sign = take_sign (skip_space text) in
    let ds = (take_digits sign.1).0 in
    let n = value 0 ds in
    if is_empty ds
    then none
    else if sign.0
    then (if ltb (2 ^ 31) n then none else if ltb 0 n then some (negsuc (n - 1)) else some (pos 0))
    else if ltb (2 ^ 31 - 1) n
    then none
    else some (pos n)

-- `static_cast<short int>` of an `int`: the low 16 bits, read as a signed number.
abbrev signed_16 : ℕ → ℤ
signed_16 n = if ltb n (2 ^ 15) then pos n else negsuc (2 ^ 16 - 1 - n)

unfoldable pub to_short_int : ℤ → ℤ
to_short_int (pos n) = signed_16 (n % 2 ^ 16)
to_short_int (negsuc n) = signed_16 (2 ^ 16 - 1 - n % 2 ^ 16)

abbrev count_of : Option ℤ → ℤ
count_of none = pos 40
count_of (some n) = to_short_int n

-- The count that a value of ChildProcessMaxCount stands for; 40 if it is no `int`.
unfoldable pub max_count_of : Bytes → ℤ
max_count_of value = count_of (stoi value)

-- The section ChildProcessSettings.
unfoldable pub child_setting : SessionState → Bytes → Bytes → SessionState
child_setting ss name value =
    if iequal name (codes "ChildProcessMaxCount")
    then record ss { child_process_max_count = max_count_of value }
    else if iequal name (codes "ChildProcessorEntryPoint")
    then record ss {
      spartan_child_processor_entry_point =
          named_entry ss.spartan_child_processor_entry_point value [] command_type true
            WhichMethod.child_do_cmd;
    }
    else if iequal name (codes "ChildProcessorCommands")
    then record ss { spartan_child_processor_commands = value }
    else ss

-- The handler that the constructor gives to `process_config`; `prepend` is
-- `prepend_to_java_library_path`, where that returns.
unfoldable pub handle_setting : (Bytes → Bytes) → Settings → Bytes → Bytes → Bytes → Settings
handle_setting prepend st section name value =
    if iequal section (codes "JvmSettings")
    then (if iequal name (codes "CommandLineArgs")
        then record st { jvm_cmd_line_args = prepend value }
        else st)
    else if iequal section (codes "SupervisorProcessSettings")
    then record st { session = supervisor_setting st.session name value }
    else if iequal section (codes "ChildProcessSettings")
    then record st { session = child_setting st.session name value }
    else if iequal section (codes "LoggingSettings")
    then (if iequal name (codes "LoggingLevel")
        then record st {
          logging_level = str_to_level value;
          session = record (st.session) { spartan_logging_level = value };
        }
        else st)
    else st

-- What the INI parser does with a file: the settings that it hands over, the errors that it
-- reports, and whether it returns a negative number.
pub record Parsed : Type 0 where
  pub settings : List (Bytes × Bytes × Bytes)
  pub errors : List Bytes
  pub failed : Bool

unfoldable pub handle_settings :
    (Bytes → Bytes) → Settings → List (Bytes × Bytes × Bytes) → Settings
handle_settings prepend st [] = st
handle_settings prepend st ((section, name, value) ∷ more) =
    handle_settings prepend (handle_setting prepend st section name value) more

-- `process_config`: whether there is a file, the settings behind it, or the exception's text.
pub data Processed : Type 0 where
  no_file : Processed
  cfg_exception : Bytes → Processed
  processed : Settings → Processed

abbrev joined : List Bytes → Bytes
joined [] = []
joined (s ∷ ss) = s ++ joined ss

unfoldable pub process_config :
    (Bytes → Bool) → (Bytes → Parsed) → (Bytes → Bytes) → Settings → Bytes → Bytes → Processed
process_config is_regular ini_parse prepend st dirpath cfgfilename =
    let path = path_concat dirpath cfgfilename in
    let p = ini_parse path in
    if not (is_regular path)
    then no_file
    else if p.failed
    then cfg_exception (codes "can't load \"" ++ (path ++ (codes "\"\n" ++ joined p.errors)))
    else processed (handle_settings prepend st p.settings)

-- `spartan/SpartanBase` stands for a class that is not given.
abbrev pub class_or_base : Option (Bytes × Bytes) → Bytes
class_or_base none = codes "spartan/SpartanBase"
class_or_base (some (front, _)) =
    if is_empty front then codes "spartan/SpartanBase" else replace b'.' b'/' front

-- The class of the main entry point, or the default one.
unfoldable pub class_of : MethodDescriptor → Bytes
class_of main_entry = class_or_base (split_last_slash main_entry.full_method_name)

-- An entry point that no setting named.
unfoldable pub default_entry :
    MethodDescriptor → Bytes → Bytes → Bytes → Bool → WhichMethod → MethodDescriptor
default_entry old class suffix descriptor is_static which =
    if no_name old then method (class ++ suffix) descriptor is_static which else old

unfoldable pub complete_entries : SessionState → SessionState
complete_entries ss =
    let class = class_of ss.spartan_main_entry_point in
    record ss {
      spartan_get_status_entry_point =
          default_entry ss.spartan_get_status_entry_point class (codes "/status") status_type false
            WhichMethod.get_status;
      spartan_supervisor_shutdown_entry_point =
          default_entry ss.spartan_supervisor_shutdown_entry_point class
            (codes "/supervisorShutdown") shutdown_type false WhichMethod.supervisor_shutdown;
      spartan_child_notify_entry_point =
          default_entry ss.spartan_child_notify_entry_point class (codes "/childProcessNotify")
            notify_type false WhichMethod.child_notify;
      spartan_child_completion_notify_entry_point =
          default_entry ss.spartan_child_completion_notify_entry_point class
            (codes "/childProcessCompletionNotify") completion_type false
            WhichMethod.child_completion_notify;
      spartan_supervisor_entry_point =
          default_entry ss.spartan_supervisor_entry_point class (codes "/supervisorDoCommand")
            command_type false WhichMethod.supervisor_do_cmd;
      spartan_child_processor_entry_point =
          default_entry ss.spartan_child_processor_entry_point class (codes "/childWorkerDoCommand")
            command_type true WhichMethod.child_do_cmd;
    }

-- The constructor: a session, or the text of its exception.
pub data Started : Type 0 where
  init_exception : Bytes → Started
  started : Settings → Started

abbrev quoted : Bytes → Bytes
quoted s = b'"' ∷ s ++ b'"' ∷ []

unfoldable pub check_settings : Bytes → Settings → Started
check_settings cfg_file st =
    let ss = st.session in
    if not (no_name ss.spartan_child_processor_entry_point)
      && is_empty ss.spartan_child_processor_commands
    then init_exception (
        quoted cfg_file
        ++ (codes " missing required setting " ++ quoted (codes "ChildProcessorCommands")))
    else started (record st { session = complete_entries ss })

-- `exception_name` is what `process_cfg_exception::name` gives.
unfoldable pub after_config : Bytes → Bytes → Processed → Started
after_config cfg_file exception_name no_file =
    init_exception (quoted cfg_file ++ codes " not found")
after_config cfg_file exception_name (cfg_exception what) = init_exception (
    codes "failure attempting to process "
    ++ (quoted cfg_file ++ (codes ":\n\t" ++ (exception_name ++ (codes ": " ++ what)))))
after_config cfg_file exception_name (processed st) = check_settings cfg_file st

abbrev pub new_settings : Bytes → Settings
new_settings jvmlib_path = record {
  session = record new_session { jvmlib_path = jvmlib_path };
  jvm_cmd_line_args = [];
  logging_level = default_level;
}

unfoldable pub new_session_state :
    (Bytes → Bool) → (Bytes → Parsed) → (Bytes → Bytes) → Bytes → Bytes → Bytes → Bytes → Started
new_session_state is_regular ini_parse prepend exception_name cfg_dir cfg_file jvmlib_path =
    after_config cfg_file exception_name
      (process_config is_regular ini_parse prepend (new_settings jvmlib_path) cfg_dir cfg_file)

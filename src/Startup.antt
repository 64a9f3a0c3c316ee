-- ===== src/Startup.antt =====
-- The settings of a process at its start, in src/main/cpp/spartan.cpp: environment variables, the
-- executable's folder, the names that `one_time_init_main` derives, and the exit flag.
pub mod Cache
use spartan_launcher.Prelude.{
  ℕ, ◌-◌, Bool, true, false, Option, none, some, List, [], ◌∷◌, Bytes, codes, take,
}
use spartan_launcher.Text.{jlauncher_queue_name, jsupervisor_queue_name}

-- `get_env_var`, by what `getenv` gives; `none` where the assertion fails.
abbrev pub env_var_of : Bool → Option Bytes → Option Bytes
env_var_of do_assert (some val) = some val
env_var_of true none = none
env_var_of false none = some []

-- The size of the buffer for the path of the executable, its NUL included.
abbrev pub strbuf_size : ℕ
strbuf_size = 2048

-- `get_executable_dir`, by the target of the link and `dirname`.
unfoldable pub get_executable_dir : (Bytes → Bytes) → Option Bytes → Bytes
get_executable_dir dirname none = codes "."
get_executable_dir dirname (some link) = dirname (take (strbuf_size - 1) link)

-- The settings, and whether a signal to end has come.
pub record ProcessSettings : Type 0 where
  pub parent_thrd_pid : ℕ
  pub s_progpath : Bytes
  pub s_progname : Bytes
  pub s_jlauncher_queue_name : Bytes
  pub s_jsupervisor_queue_name : Bytes
  pub flag : Bool

abbrev pub set_exit_flag_true : ProcessSettings → ProcessSettings
set_exit_flag_true s = record s { flag = true }

-- `one_time_init_main`, up to its call of `forkable_main_entry`, where memory does not run out.
unfoldable pub one_time_init_main : (Bytes → Bytes) → ℕ → Bytes → ProcessSettings
one_time_init_main basename pid argv0 = record {
  parent_thrd_pid = pid;
  s_progpath = argv0;
  s_progname = basename argv0;
  s_jlauncher_queue_name = jlauncher_queue_name (basename argv0);
  s_jsupervisor_queue_name = jsupervisor_queue_name (basename argv0);
  flag = false;
}

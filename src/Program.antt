-- ===== src/Program.antt =====
-- Starting a program, or a command of this program, from Java: src/main/cpp/launch-program.cpp.
-- What the system, the JVM and the file system give is a parameter. Spawn is the call from Java to
-- its result, Instance the pid file by which a program is the first of its kind.
pub mod Spawn
pub mod Instance
pub mod Search
use spartan_launcher.Prelude.{
  ℕ, ◌+◌, Bool, true, false, not, ◌&&◌, ◌||◌, Option, none, some, List, [], ◌∷◌, ◌++◌, ◌==◌,
  if◌then◌else◌, Bytes, is_empty, length,
}
use spartan_launcher.Text.{unsnoc}
use spartan_launcher.Text.Fields.{tokens}

-- A folder's path with a program's name behind it.
unfoldable pub program_in : Bytes → Bytes → Bytes
unfolding unsnoc
program_in prog path = elim (unsnoc path) [
  | none ↦ path ++ b'/' ∷ prog
  | some (front, end_char) ↦ if end_char == b'/' then path ++ prog else path ++ b'/' ∷ prog
]

-- The loop over the folders; `is_program` is a `stat` that shows a regular file or a link.
unfoldable pub search_in : (Bytes → Bool) → Bytes → List Bytes → Option Bytes
search_in is_program prog [] = none
search_in is_program prog (path ∷ paths) =
    let rest = search_in is_program prog paths in
    if is_program (program_in prog path) then some (program_in prog path) else rest

-- `get_env_var`
abbrev pub get_env_var : Option Bytes → Bytes
get_env_var none = []
get_env_var (some val) = val

-- `find_program_path`, by the variable's value; `none` is its exception.
unfoldable pub find_program_path : (Bytes → Bool) → Option Bytes → Bytes → Option Bytes
find_program_path is_program val prog =
    let path_env_var = get_env_var val in
    if is_empty path_env_var
    then none
    else search_in is_program prog (tokens (length path_env_var + 1) b':' path_env_var)

abbrev pub or_itself : Bytes → Option Bytes → Bytes × Bool
or_itself prog none = (prog, false)
or_itself prog (some path) = (path, true)

-- `try_resolve_program_path`
unfoldable pub try_resolve_program_path : (Bytes → Bool) → Option Bytes → Bytes → Bytes × Bool
try_resolve_program_path is_program val prog =
    or_itself prog (find_program_path is_program val prog)

abbrev pub has_separator : Bytes → Bool
has_separator [] = false
has_separator (c ∷ s) = c == b'/' || c == b'\\' || has_separator s

-- The program that `launch_program_helper` starts: a name is searched for, a path is checked.
unfoldable pub resolved_program : (Bytes → Bool) → Option Bytes → Bytes → Option Bytes
resolved_program is_program val prog_name =
    if not (has_separator prog_name)
    then find_program_path is_program val prog_name
    else if is_program prog_name
    then some prog_name
    else none

-- `killpid_helper` and `killpg_helper`: what a call signals, or the exception that Java gets.
pub data Killed : Type 0 where
  signalled signalled_group : ℕ → Killed
  kill_process_exception kill_process_group_exception : Killed

unfoldable pub killpid_helper : (ℕ → Bool) → ℕ → Killed
killpid_helper kill pid = if kill pid then signalled pid else kill_process_exception

abbrev pub kill_group : (ℕ → Bool) → Option ℕ → Killed
kill_group killpg none = kill_process_exception
kill_group killpg (some pgid) =
    if killpg pgid then signalled_group pgid else kill_process_group_exception

unfoldable pub killpg_helper : (ℕ → Option ℕ) → (ℕ → Bool) → ℕ → Killed
killpg_helper getpgid killpg pid = kill_group killpg (getpgid pid)

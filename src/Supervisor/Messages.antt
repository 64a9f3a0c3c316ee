-- ===== src/Supervisor/Messages.antt =====
-- The messages of the supervisor's queue, in src/main/cpp/spartan.cpp: those that the launcher sends
-- of its child processes, `handle_supervisor_msg` and `msg_dispatch_for_supervisor`.
pub mod Notices
pub mod Dispatched
use spartan_launcher.Prelude.{
  ℕ, ◌-◌, Bool, true, false, not, ◌&&◌, ◌||◌, Option, none, some, List, [], ◌∷◌, ◌++◌, ◌==◌,
  if◌then◌else◌, Bytes, codes, iequal, length, same_text, starts_with,
}
use spartan_launcher.Text.{field, skip, strtok}
use spartan_launcher.Stream.Numbers.{format_ℕ}
use spartan_launcher.Session.{MethodDescriptor, MethodDescriptorCmd, SessionState, no_name}
use spartan_launcher.Pipes.{Sending}
use spartan_launcher.Launcher.{remove_quotes, listed}
use spartan_launcher.Supervisor.Invoke.{Invoked, core_invoke_command}

abbrev pub shutdown_cmd : Bytes
shutdown_cmd = codes "--SHUTDOWN"

abbrev pub status_cmd : Bytes
status_cmd = codes "--STATUS"

abbrev pub notify_cmd : Bytes
notify_cmd = codes "--CHILD_PID_NOTIFY"

abbrev pub completion_cmd : Bytes
completion_cmd = codes "--CHILD_PID_COMPLETION_NOTIFY"

-- The messages of `supervisor_child_processor_notify`, of
-- `supervisor_child_processor_completion_notify` and of `client_status_request`. The text is
-- formatted again where the buffer was too small.
unfoldable pub notify_message : ℕ → Bytes → Bytes
notify_message pid command_line = notify_cmd ++ b' ' ∷ (format_ℕ pid ++ b' ' ∷ command_line)

unfoldable pub completion_message : ℕ → Bytes
completion_message pid = completion_cmd ++ b' ' ∷ format_ℕ pid

unfoldable pub status_message : Bytes → Bytes
status_message uds_socket_name = status_cmd ++ b' ' ∷ uds_socket_name

-- What a message asks of the Java program: to be told of a child that was forked, by its pid and
-- the command line, or of one that ended; a command, by its method; or nothing, as there is no
-- method. A null pointer ends the program.
pub data Task : Type 0 where
  notified : Bytes → Bytes → Task
  completed : Bytes → Task
  command : MethodDescriptor → Task
  no_method : Task
  null_pointer : Task

-- The text behind a token and the byte behind that, which is beyond the text where the token is at
-- its end; `beyond` is what the memory holds there.
abbrev pub behind_token : Bytes → Bytes → Option (Bytes × Bytes) → Option Bytes
behind_token beyond text none = none
behind_token beyond text (some (token, rest)) =
    some (if length token == length text then beyond else rest)

abbrev pub notice : SessionState → Bytes → Option Bytes → Task
notice ss pid none = null_pointer
notice ss pid (some cmd_line) =
    if not (no_name ss.spartan_child_notify_entry_point) then notified pid cmd_line else no_method

abbrev pub notify_task : SessionState → Bytes → Option (Bytes × Bytes) → Task
notify_task ss beyond none = null_pointer
notify_task ss beyond (some (pid, rest)) =
    notice ss pid (behind_token beyond (skip b' ' rest) (strtok b' ' rest))

abbrev pub completion_task : SessionState → Option (Bytes × Bytes) → Task
completion_task ss none = null_pointer
completion_task ss (some (pid, rest)) =
    if not (no_name ss.spartan_child_completion_notify_entry_point)
    then completed pid
    else no_method

-- The annotated method of a command, of that name in any case.
abbrev pub find_command : Bytes → List MethodDescriptorCmd → Option MethodDescriptor
find_command cmd [] = none
find_command cmd (m ∷ methods) =
    let rest = find_command cmd methods in if iequal m.command cmd then some m.base else rest

abbrev pub command_method : SessionState → Option (Bytes × Bytes) → Option MethodDescriptor
command_method ss none = none
command_method ss (some (token, _)) =
    find_command (remove_quotes token) (listed ss.sp_spartan_supervisor_commands)

abbrev pub or_default : SessionState → Option MethodDescriptor → Task
or_default ss (some m) = command m
or_default ss none =
    if not (no_name ss.spartan_supervisor_entry_point)
    then command ss.spartan_supervisor_entry_point
    else no_method

abbrev pub next_token : Option (Bytes × Bytes) → Option (Bytes × Bytes)
next_token none = none
next_token (some (_, rest)) = strtok b' ' rest

abbrev pub task_of : SessionState → Bytes → Option (Bytes × Bytes) → Task
task_of ss beyond none = null_pointer
task_of ss beyond (some (cmd, rest)) =
    if starts_with cmd notify_cmd
    then notify_task ss beyond (strtok b' ' rest)
    else if starts_with cmd completion_cmd
    then completion_task ss (strtok b' ' rest)
    else or_default ss (command_method ss (next_token (strtok b' ' rest)))

-- `handle_supervisor_msg`, up to the call into Java.
unfoldable pub supervisor_task : SessionState → Bytes → Bytes → Task
supervisor_task ss beyond msg = task_of ss beyond (strtok b' ' msg)

-- The supervisor: its count, which holds the message that is handled, the tasks that it did, and whether an exception left the thread of the
-- work queue, or a null pointer was read, which ends the program.
pub record Supervisor : Type 0 where
  pub child_process_count : ℕ
  pub tasks : List Task
  pub terminated : Bool

abbrev pub ends_program : Invoked → Bool
ends_program Invoked.null_pointer = true
ends_program (Invoked.open_write_pipe_exception _) = true
ends_program _ = false

abbrev pub did : Task → Bool → Supervisor → Supervisor
did task ended sup = record sup {
  child_process_count = sup.child_process_count - 1;
  tasks = sup.tasks ++ task ∷ [];
  terminated = ended;
}

abbrev pub do_task :
    (Bytes → Option (List Bytes)) → Sending → Bytes → Supervisor → Task → Supervisor
do_task parse_argv sys msg sup (command m) =
    did (command m) (ends_program (core_invoke_command parse_argv sys m msg)) sup
do_task parse_argv sys msg sup null_pointer = did null_pointer true sup
do_task parse_argv sys msg sup task = did task false sup

-- `handle_supervisor_msg`, whole.
unfoldable pub handle_supervisor_msg :
    (Bytes → Option (List Bytes)) → Sending → SessionState → Bytes → Bytes → Supervisor → Supervisor
handle_supervisor_msg parse_argv sys ss beyond msg sup =
    do_task parse_argv sys msg sup (supervisor_task ss beyond msg)

-- What the supervisor does with a message that comes: it shuts down with the exit code of the Java
-- method, starts a thread for the status, passes over a request as it ends, or queues the message;
-- or a string is made of a null pointer.
pub data Dispatch : Type 0 where
  shut_down : ℕ → Dispatch
  status : Bytes → Dispatch
  passed_over : Dispatch
  queued : Bytes → Dispatch
  no_socket : Dispatch

abbrev pub status_of : Option (Bytes × Bytes) → Dispatch
status_of none = no_socket
status_of (some (uds_socket_name, _)) = status uds_socket_name

-- `msg_dispatch_for_supervisor`; `ending` tells a signal or a shutdown that has begun, and
-- `shutdown` is the result of the Java method.
unfoldable pub msg_dispatch_for_supervisor : Bool → ℕ → Bytes → Dispatch
msg_dispatch_for_supervisor ending shutdown msg =
    if same_text msg shutdown_cmd
    then shut_down shutdown
    else if starts_with msg status_cmd
    then (if not ending then status_of (next_token (strtok b' ' msg)) else passed_over)
    else queued msg

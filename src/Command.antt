-- ===== src/Command.antt =====
-- The command line of the program: `forkable_main_entry` of src/main/cpp/spartan.cpp. What it
-- starts is a parameter, `Services`.
pub mod Laws
use spartan_launcher.Prelude.{
  ℕ, zero, suc, Bool, true, false, not, ◌&&◌, ◌||◌, Option, none, some, List, [], ◌∷◌, ◌++◌, ◌==◌,
  if◌then◌else◌, Bytes, codes, is_empty, iequal, lower, ℤ, pos, same_text,
}
use spartan_launcher.Message.{is_pipe_option}
use spartan_launcher.Log.{LoggingLevel, str_to_level}
use spartan_launcher.Session.{SessionState}
use spartan_launcher.Text.{field}

pub data Operation : Type 0 where
  none_yet service invoked_command status stop command : Operation

-- The local variables that the loop over the arguments sets.
pub record Chosen : Type 0 where
  pub operation : Operation
  pub pipe_option : Bytes
  pub command : Bytes

abbrev pub nothing_chosen : Chosen
nothing_chosen = record { operation = none_yet; pipe_option = []; command = [] }

abbrev pub is_none_yet : Operation → Bool
is_none_yet none_yet = true
is_none_yet _ = false

-- Whether the argument is an option, and its text behind the `-`.
abbrev pub option_of : Bytes → Option Bytes
option_of [] = none
option_of (c ∷ s) = if c == b'-' then some s else none

-- An argument that starts with `-`.
unfoldable pub choose_option : Chosen → Bytes → Bytes → Chosen
choose_option s arg optn =
    if iequal optn (codes "service")
    then (if is_none_yet s.operation then record s { operation = service } else s)
    else if is_pipe_option arg
    then (if is_none_yet s.operation
        then record s { operation = invoked_command; pipe_option = arg }
        else s)
    else s

-- Any other argument.
unfoldable pub choose_word : Chosen → Bytes → Chosen
choose_word s optn =
    if iequal optn (codes "status")
    then (if is_none_yet s.operation
        then record s { operation = status; command = codes "status" }
        else s)
    else if iequal optn (codes "stop")
    then (if is_none_yet s.operation
        then record s { operation = stop; command = codes "stop" }
        else s)
    else if is_none_yet s.operation
    then record s { operation = command; command = optn }
    else if is_empty s.command
    then record s { command = optn }
    else s

unfoldable pub choose_arg : Chosen → Bytes → Chosen
choose_arg s arg = elim (option_of arg) [
  | none ↦ choose_word s arg
  | some optn ↦ choose_option s arg optn
]

-- The loop over the arguments.
unfoldable pub choose : Chosen → List Bytes → Chosen
choose s [] = s
choose s (arg ∷ args) = choose (choose_arg s arg) args

pub data Target : Type 0 where
  launcher supervisor : Target

-- What the program does; an exit code is a number, 0 for success. `run_service` is the session's
-- constructor and the supervisor, `none` for an exception.
pub record Services : Type 0 where
  pub run_service : Option ℕ
  pub status_request : Bytes → ℕ
  pub send_stop : ℕ
  -- The session in shared memory, `none` if it cannot be read.
  pub read_shared : Option SessionState
  -- `get_child_processor_commands`
  pub child_commands : SessionState → Option (List Bytes)
  -- `bind_uds_socket_name`
  pub bind_socket : Bytes → Bytes
  -- The flattened arguments, sent with a socket's name to a queue.
  pub send_command : Bytes → Target → ℕ
  pub echo_response : Bytes → ℤ → ℕ

abbrev pub is_member : Bytes → List Bytes → Bool
is_member c [] = false
is_member c (d ∷ cs) = same_text c d || is_member c cs

-- The queue that a command goes to.
unfoldable pub queue_of : List Bytes → Bytes → Target
queue_of commands c = if is_member c commands then launcher else supervisor

-- What a run leaves: its exit code, the socket's name that a command was sent with and the queue it
-- was sent to, if that succeeded, and the logging level that was set.
pub record Ran : Type 0 where
  pub exit_code : ℕ
  pub sent : Option (Bytes × Target)
  pub level : Option LoggingLevel

abbrev pub failed : Ran
failed = record { exit_code = 1; sent = none; level = none }

abbrev pub exit_only : ℕ → Ran
exit_only code = record { exit_code = code; sent = none; level = none }

-- The logging level that a command's case sets before it reads the session's commands.
abbrev pub level_of : SessionState → Option LoggingLevel
level_of session =
    if not (is_empty session.spartan_logging_level)
    then some (str_to_level session.spartan_logging_level)
    else none

module _ (sv : Services) where
  -- The case of a command; `socket` is the name that the option gave.
  unfoldable pub run_with : Bytes → Bytes → SessionState → List Bytes → Ran
  run_with c socket session commands =
      let uds = if is_empty socket then sv.bind_socket c else socket in
      let code = sv.send_command uds (queue_of commands c) in
      record {
        exit_code =
            if code == 0 && is_empty socket
            then sv.echo_response uds session.supervisor_pid
            else code;
        sent = if code == 0 then some (uds, queue_of commands c) else none;
        level = level_of session;
      }

  abbrev pub run_commands : Bytes → Bytes → SessionState → Option (List Bytes) → Ran
  run_commands c socket session none = record failed { level = level_of session }
  run_commands c socket session (some commands) = run_with c socket session commands

  abbrev pub run_shared : Bytes → Bytes → Option SessionState → Ran
  run_shared c socket none = failed
  run_shared c socket (some session) = run_commands c socket session (sv.child_commands session)

  unfoldable pub run_command : Bytes → Bytes → Ran
  run_command word socket = run_shared (lower word) socket sv.read_shared

  abbrev pub run_service_code : Option ℕ → Ran
  run_service_code none = failed
  run_service_code (some code) = exit_only code

  -- One round of the state machine: the run's result, or the socket of the next round, which
  -- processes the command.
  pub data Round : Type 0 where
    ends : Ran → Round
    again : Bytes → Round

  unfoldable pub round : Chosen → Operation → Bytes → Round
  round s service socket = ends (run_service_code sv.run_service)
  round s invoked_command socket =
      if is_empty s.command then ends failed else again (field b'=' s.pipe_option).1
  round s status socket = ends (exit_only (sv.status_request (sv.bind_socket s.command)))
  round s stop socket = ends (exit_only sv.send_stop)
  round s command socket = ends (run_command s.command socket)
  round s none_yet socket = ends failed

  -- The loop, on fuel; two rounds are enough.
  unfoldable pub rounds : ℕ → Chosen → Operation → Bytes → Option Ran
  rounds zero s op socket = none
  rounds (suc f) s op socket = elim (round s op socket) [
    | ends r ↦ some r
    | again next ↦ rounds f s command next
  ]

  -- `forkable_main_entry`, on the arguments behind the program's name.
  unfoldable pub forkable_main_entry : List Bytes → Option Ran
  forkable_main_entry [] = some (failed)
  forkable_main_entry (arg ∷ args) =
      let s = choose nothing_chosen (arg ∷ args) in rounds 2 s s.operation []

-- ===== src/Supervisor/Messages/Dispatched.antt =====
-- What the supervisor does with the messages of clients.
use spartan_launcher.Prelude.{
  ℕ, ◌≡◌, refl, ap, ◌∙◌, Bool, true, false, Option, some, List, ◌∷◌, arith, if◌then◌else◌, Bytes,
  codes, Lacks, same_text, starts_with,
}
use spartan_launcher.Session.{MethodDescriptor, SessionState}
use spartan_launcher.Pipes.{Sending}
use spartan_launcher.Supervisor.Invoke.{parse_extended_invoke_option}
use spartan_launcher.Supervisor.Invoke.Answering.{core_invoke_command-gone}
use spartan_launcher.Supervisor.Messages.{
  status_message, Task, Supervisor, supervisor_task, handle_supervisor_msg, do_task, ends_program,
  Dispatch, status_of, next_token, msg_dispatch_for_supervisor,
}
use spartan_launcher.Supervisor.Messages.Notices.{strtok_word, strtok_last}

-- A request for the status is answered on the socket that it names, if the name holds no space;
-- unless the supervisor is about to end, when it is passed over.
pub msg_dispatch_for_supervisor-status :
    (ending : Bool) (shutdown c : ℕ) (name : Bytes)
    → Lacks b' ' (c ∷ name)
    → msg_dispatch_for_supervisor ending shutdown (status_message (c ∷ name))
      ≡ (if ending then Dispatch.passed_over else Dispatch.status (c ∷ name))
unfolding msg_dispatch_for_supervisor status_message same_text starts_with
msg_dispatch_for_supervisor-status true shutdown c name h = refl
msg_dispatch_for_supervisor-status false shutdown c name h =
    ap (λ t. status_of (next_token t))
      (strtok_word b' ' b'-' (codes "-STATUS") (c ∷ name) (omega arith))
    ∙ ap status_of (strtok_last b' ' c name h)

-- A client that sends a command to the supervisor and goes away before it is answered ends the
-- supervisor, and its Java program: the exception leaves the thread of the work queue.
pub handle_supervisor_msg-gone :
    (parse_argv : Bytes → Option (List Bytes)) (sys : Sending) (ss : SessionState)
    (beyond msg : Bytes) (sup : Supervisor) (m : MethodDescriptor)
    (option uds_socket_name cmd : Bytes) (args : List Bytes) (extended : Bool)
    → supervisor_task ss beyond msg ≡ Task.command m
    → parse_argv msg ≡ some (option ∷ uds_socket_name ∷ cmd ∷ args)
    → parse_extended_invoke_option option ≡ some extended
    → sys.sendto_ok ≡ false
    → (handle_supervisor_msg parse_argv sys ss beyond msg sup).terminated ≡ true
unfolding handle_supervisor_msg
handle_supervisor_msg-gone parse_argv sys ss beyond msg sup m option uds_socket_name cmd args
      extended task parsed opt gone =
    ap (λ t. (do_task parse_argv sys msg sup t).terminated) task
    ∙ ap ends_program (
        core_invoke_command-gone parse_argv sys m msg option uds_socket_name cmd args extended
          parsed opt gone)

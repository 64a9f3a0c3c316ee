-- ===== src/Tests/Supervisors.antt =====
-- Messages of the supervisor, and the queue that it opens.
use spartan_launcher.Prelude.{
  ◌||◌, ◌≡◌, refl, inr, true, false, Option, some, List, [], ◌∷◌, Bytes, codes, same_text,
  starts_with,
}
use spartan_launcher.Text.{strtok, split_last_slash}
use spartan_launcher.Session.{WhichMethod, MethodDescriptor, SessionState, new_session}
use spartan_launcher.Pipes.{
  Sending, Response, obtain_response_stream, open_write_anon_pipe, Datagram, End,
}
use spartan_launcher.Supervisor.Invoke.{
  Streams, JavaCall, std_invoke_descriptor, parse_extended_invoke_option, invoke_java_method,
  call_command, core_invoke_command,
}
use spartan_launcher.Supervisor.Invoke.Answering.{answering, core_invoke_command-Answers}
use spartan_launcher.Supervisor.Jni.{invoke_jni}
use spartan_launcher.Supervisor.Jni.Refinement.{
  MadeBehind, entry_count, IsOrFails, FindsAll, invoke_jni-refines,
}
use spartan_launcher.Supervisor.Messages.{Supervisor, supervisor_task, handle_supervisor_msg}
use spartan_launcher.Supervisor.Messages.Dispatched.{handle_supervisor_msg-gone}

abbrev report : MethodDescriptor
report = record {
  is_static_method = false;
  which_method = WhichMethod.supervisor_do_cmd;
  full_method_name = codes "a/Main/report";
  descriptor = std_invoke_descriptor;
}

abbrev session : SessionState
session = record new_session {
  spartan_supervisor_entry_point = report;
  spartan_child_notify_entry_point = report;
}

abbrev message : Bytes
message = codes "--EXTENDED_INVOKE=false /tmp/x report all"

abbrev parse : Bytes → Option (List Bytes)
parse msg =
    some (codes "--EXTENDED_INVOKE=false" ∷ codes "/tmp/x" ∷ codes "report" ∷ codes "all" ∷ [])

abbrev sending : Sending
sending = record {
  socket_made = true;
  pipe = λ n. some 40;
  sendto_ok = true;
  sendmsg_ok = true;
  own_pid = 77;
}

abbrev sent : List Datagram
sent =
    Datagram.counts (record { pid = 77; fd_rtn_count = 1 })
    ∷ Datagram.rights (End.read_end 40 ∷ End.descriptor 0 ∷ [])
    ∷ []

abbrev call : JavaCall
call =
    JavaCall.called (codes "a/Main") (codes "report") (some (codes "report" ∷ codes "all" ∷ []))
      (End.write_end 40 ∷ [])

core_invoke_command-Answers_example :
    ◌≡◌ {A = Bytes} (codes "/tmp/x") (codes "/tmp/x")
    × (r : Response) × (obtain_response_stream sent ≡ some r)
    × (call
        ≡ JavaCall.called
            (codes "a/Main")
            (codes "report")
            (some (codes "report" ∷ codes "all" ∷ []))
            (answering false r))
unfolding core_invoke_command invoke_java_method call_command open_write_anon_pipe
    parse_extended_invoke_option split_last_slash strtok same_text starts_with
core_invoke_command-Answers_example =
    core_invoke_command-Answers parse sending report message (codes "--EXTENDED_INVOKE=false")
      (codes "/tmp/x") (codes "report") (codes "all" ∷ []) false false (codes "a/Main")
      (codes "report") call (codes "/tmp/x") sent refl refl refl (inr refl) refl refl

abbrev one_task : Supervisor
one_task = record { child_process_count = 2; tasks = []; terminated = false }

handle_supervisor_msg-gone_example :
    (handle_supervisor_msg parse
      (record sending { sendto_ok = false })
      session
      []
      message
      one_task).terminated
    ≡ true
unfolding supervisor_task parse_extended_invoke_option strtok same_text starts_with
handle_supervisor_msg-gone_example =
    handle_supervisor_msg-gone parse (record sending { sendto_ok = false }) session [] message
      one_task report (codes "--EXTENDED_INVOKE=false") (codes "/tmp/x") (codes "report")
      (codes "all" ∷ []) false refl refl refl refl

invoke_jni-refines_example :
    IsOrFails
      (invoke_jni
        (λ n. true)
        true
        false
        report
        (codes "report" ∷ [])
        (Streams.one (End.write_end 40)))
      (invoke_java_method report (codes "report" ∷ []) (Streams.one (End.write_end 40)))
    × (FindsAll (λ n. true)
        → invoke_jni
            (λ n. true)
            true
            false
            report
            (codes "report" ∷ [])
            (Streams.one (End.write_end 40))
          ≡ invoke_java_method report (codes "report" ∷ []) (Streams.one (End.write_end 40)))
    × MadeBehind
        (λ n. true)
        (entry_count true (false || report.is_static_method))
        (invoke_jni
          (λ n. true)
          true
          false
          report
          (codes "report" ∷ [])
          (Streams.one (End.write_end 40)))
invoke_jni-refines_example =
    invoke_jni-refines (λ n. true) true false report (codes "report" ∷ [])
      (Streams.one (End.write_end 40))

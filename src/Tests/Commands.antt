-- ===== src/Tests/Commands.antt =====
-- Command lines, the messages that they become, and the commands of a session.
use spartan_launcher.Prelude.{
  drop, ℕ, ◌≡◌, ◌≢◌, ◌<◌, refl, Bool, true, false, Option, none, some, List, [], ◌∷◌, ◌++◌, arith,
  Bytes, codes, lower, ℤ, pos, length, is_empty,
}
use spartan_launcher.Session.{WhichMethod, MethodDescriptor, SessionState, new_session}
use spartan_launcher.Message.{flatten, fill, buffer_size}
use spartan_launcher.Message.Quotes.{present, spaced, flatten-spaced}
use spartan_launcher.Command.{Services, forkable_main_entry, run_command}
use spartan_launcher.Command.Laws.{forkable_main_entry_pipe, forkable_main_entry_ends}
use spartan_launcher.Text.Fields.{fields}
use spartan_launcher.Dispatch.{
  MethInfo, DispatchInfo, main_entry_method, entry_points_class, full_name,
  child_processor_commands,
}
use spartan_launcher.Dispatch.Laws.{StandsIn, main_entry_method-StandsIn}

abbrev argv : List Bytes
argv = codes "--EXTENDED_INVOKE=false" ∷ codes "/sock" ∷ codes "echo" ∷ [] ∷ codes "a b" ∷ []

flatten-spaced_example :
    (flatten argv ≡ spaced (codes "--EXTENDED_INVOKE=false" ∷ present (drop 1 argv)))
    × (length (fill argv []) < buffer_size argv)
flatten-spaced_example = flatten-spaced b'-' (codes "-EXTENDED_INVOKE=false") (drop 1 argv)

abbrev services : Services
services = record {
  run_service = some 0;
  status_request = λ socket. 0;
  send_stop = 0;
  read_shared = some new_session;
  child_commands = child_processor_commands;
  bind_socket = λ word. b'/' ∷ word;
  send_command = λ socket target. 0;
  echo_response = λ socket pid. 0;
}

forkable_main_entry_pipe_example :
    forkable_main_entry services (codes "-pipe=/sock" ∷ codes "echo" ∷ codes "stop" ∷ [])
    ≡ some (run_command services (codes "echo") (codes "/sock"))
unfolding spartan_launcher.Prelude.iequal spartan_launcher.Prelude.lower
    spartan_launcher.Prelude.same_text
forkable_main_entry_pipe_example =
    forkable_main_entry_pipe services (codes "/sock") (codes "echo") (codes "stop" ∷ []) refl refl
      refl refl

forkable_main_entry_ends_example : forkable_main_entry services (codes "status" ∷ []) ≢ none
forkable_main_entry_ends_example = forkable_main_entry_ends services (codes "status" ∷ [])

abbrev app_session : SessionState
app_session = record new_session {
  spartan_child_processor_commands = codes "Echo,list";
  spartan_main_entry_point = record {
    is_static_method = true;
    which_method = WhichMethod.main;
    full_method_name = codes "app/Main/main";
    descriptor = [];
  };
}

abbrev annotations : DispatchInfo
annotations = record {
  system_properties = [];
  system_class_path = codes "a.jar" ∷ codes "b.jar" ∷ [];
  main_entry_point = none;
  supervisor_commands = [];
  child_worker_commands = [];
}

abbrev dispatched : Option SessionState → SessionState
dispatched none = new_session
dispatched (some ss) = ss

abbrev info : MethInfo
info = record { class_name = codes "app.Other"; method_name = codes "main"; descriptor = [] }

abbrev entry : MethodDescriptor
entry = record {
  is_static_method = false;
  which_method = WhichMethod.get_status;
  full_method_name = codes "spartan/SpartanBase/status";
  descriptor = [];
}

abbrev base_session : SessionState
base_session = record new_session {
  spartan_get_status_entry_point = entry;
  spartan_supervisor_shutdown_entry_point = entry;
  spartan_child_notify_entry_point = entry;
  spartan_child_completion_notify_entry_point = entry;
  spartan_supervisor_entry_point = entry;
}

main_entry_method_example :
    (r : SessionState) × (main_entry_method base_session (some info) ≡ some r)
    × (r.spartan_main_entry_point.full_method_name ≡ full_name info)
    × StandsIn (entry_points_class (full_name info)) r.spartan_get_status_entry_point
    × StandsIn (entry_points_class (full_name info)) r.spartan_supervisor_shutdown_entry_point
    × StandsIn (entry_points_class (full_name info)) r.spartan_child_notify_entry_point
    × StandsIn (entry_points_class (full_name info)) r.spartan_child_completion_notify_entry_point
    × StandsIn (entry_points_class (full_name info)) r.spartan_supervisor_entry_point
unfolding fields
main_entry_method_example = main_entry_method-StandsIn base_session info refl refl refl refl refl

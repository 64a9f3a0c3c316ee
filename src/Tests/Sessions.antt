-- ===== src/Tests/Sessions.antt =====
-- A session of a small Java program, and the memory that holds it.
use spartan_launcher.Prelude.{
  ◌≡◌, ◌<◌, ◌≤◌, ◌^◌, refl, false, some, [], ◌∷◌, arith, codes, pos, length,
}
use spartan_launcher.Session.{
  WhichMethod, MethodDescriptor, MethodDescriptorCmd, SessionState, new_session,
}
use spartan_launcher.Session.Serial.{
  TypeNames, put_session, read_session, to_short, of_short, put_method, put_command, put_vector,
  put_elements,
}
use spartan_launcher.Stream.Numbers.{format_ℤ, format_ℕ, digits}
use spartan_launcher.Session.Serial.Elements.{IsPlainMethod, IsPlainCommand, ArePlainNames}
use spartan_launcher.Session.Serial.RoundTrip.{IsPlainSession, merged, read_session-put_session}
use spartan_launcher.Stream.{reading}
use spartan_launcher.Shm.{ShmAllocator, serialize_session, new_allocator}
use spartan_launcher.Shm.Allocations.{IsSound, allocs, Packed, allocs-Packed}

abbrev pub names : TypeNames
names = record {
  method_descriptor = codes "16methodDescriptor";
  method_descriptor_cmd = codes "19methodDescriptorCmd";
  session_state = codes "12sessionState";
  vector_of_commands = codes "St6vectorI19methodDescriptorCmd";
  vector_of_strings = codes "St6vectorISs";
}

pub names-ArePlainNames : ArePlainNames names
names-ArePlainNames = record {
  method_descriptor = ground arith;
  method_descriptor_cmd = ground arith;
  session_state = ground arith;
  vector_of_commands = ground arith;
  vector_of_strings = ground arith;
}

abbrev entry : MethodDescriptor
entry = record {
  is_static_method = false;
  which_method = WhichMethod.get_status;
  full_method_name = codes "app/Main/status";
  descriptor = codes "()V";
}

entry-IsPlainMethod : IsPlainMethod entry
unfolding to_short of_short
entry-IsPlainMethod = record {
  which = (omega arith, refl);
  name = ground arith;
  descriptor = ground arith;
}

abbrev start_cmd : MethodDescriptorCmd
start_cmd = record {
  base = entry;
  command = codes "start";
  jvm_options_command_line = codes "-Xmx9m";
}

abbrev pub session : SessionState
session = record {
  supervisor_pid = pos 1234;
  child_process_max_count = pos 40;
  spartan_main_entry_point = entry;
  spartan_get_status_entry_point = entry;
  spartan_supervisor_shutdown_entry_point = entry;
  spartan_child_notify_entry_point = entry;
  spartan_child_completion_notify_entry_point = entry;
  spartan_supervisor_entry_point = entry;
  spartan_child_processor_entry_point = entry;
  spartan_child_processor_commands = codes "start,stop";
  system_class_path = codes "app.jar";
  sp_spartan_supervisor_commands = some (start_cmd ∷ []);
  sp_spartan_child_processor_commands = some [];
  sp_serialized_system_properties = some (codes "a=b" ∷ []);
  spartan_logging_level = codes "INFO";
  jvmlib_path = codes "libjvm.so";
}

start_cmd-IsPlainCommand : IsPlainCommand start_cmd
start_cmd-IsPlainCommand = record {
  base = entry-IsPlainMethod;
  command = ground arith;
  jvm_options = ground arith;
}

pub session-IsPlainSession : IsPlainSession session
session-IsPlainSession = record {
  pid = omega arith;
  max_count = omega arith;
  main_entry = entry-IsPlainMethod;
  get_status = entry-IsPlainMethod;
  shutdown = entry-IsPlainMethod;
  child_notify = entry-IsPlainMethod;
  completion = entry-IsPlainMethod;
  supervisor = entry-IsPlainMethod;
  processor = entry-IsPlainMethod;
  commands = ground arith;
  class_path = ground arith;
  supervisor_commands = (start_cmd-IsPlainCommand, tt);
  supervisor_count = omega arith;
  child_commands = tt;
  child_count = omega arith;
  properties = (ground arith, tt);
  property_count = omega arith;
  level = ground arith;
  jvmlib = ground arith;
}

read_session-put_session_example :
    read_session (pos 7) new_session (reading (put_session names session (codes "rest")))
    ≡ (merged new_session session, reading (codes "rest"))
read_session-put_session_example =
    read_session-put_session names names-ArePlainNames (pos 7) new_session session (codes "rest")
      session-IsPlainSession

pub length-serialize_session : length (serialize_session names session) < 2 ^ 20
unfolding serialize_session put_session put_method put_command put_vector put_elements format_ℤ
    format_ℕ digits to_short
length-serialize_session = omega arith

abbrev half_full : ShmAllocator
half_full = record { base_addr = 8192; max_size = 4096; curr_offset = 2048 }

half_full-IsSound : IsSound half_full
half_full-IsSound = record { small = omega arith; inside = omega arith }

allocs_example :
    let r = allocs (new_allocator 8192 4096) [] (100 ∷ 5000 ∷ 200 ∷ []) in
    Packed 8192 r.0.curr_offset r.1 × (r.0.curr_offset ≤ 4096)
allocs_example =
    allocs-Packed 8192 4096 (100 ∷ 5000 ∷ 200 ∷ []) (omega arith)
      (omega arith, (omega arith, (omega arith, tt)))

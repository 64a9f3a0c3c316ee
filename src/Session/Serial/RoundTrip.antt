-- ===== src/Session/Serial/RoundTrip.antt =====
-- The text form of a whole session, written by the supervisor and read by every other process.
use spartan_launcher.Prelude.{◌-◌, ◌^◌, ◌≡◌, List, [], ◌∷◌, ◌++◌, Bytes, ℤ, Lacks, Option}
use spartan_launcher.Session.{MethodDescriptor, MethodDescriptorCmd, SessionState, no_command}
use spartan_launcher.Stream.{reading}
use spartan_launcher.Stream.Laws.{getline-append, skip_newline_lem, read_int-format_ℤ, InRange}
use spartan_launcher.Session.Serial.{
  TypeNames, put_method, put_command, put_vector, put_session, read_property, moved_string,
  moved_command, read_command_element, read_entry, read_vector, read_session,
}
use spartan_launcher.Session.Serial.Elements.{
  IsPlainMethod, IsPlainCommand, ArePlainNames, taken, AllOf, Countable, read_vector-put_vector,
  read_method-put_method, read_command_element-put_command,
}

-- A session that its text form can hold: no text has its own delimiter in it, the numbers are
-- those of their C++ types, and the loop that reads a vector can count its elements.
pub record IsPlainSession (ss : SessionState) : Type 0 where
  pub pid : InRange (2 ^ 31) (2 ^ 31 - 1) ss.supervisor_pid
  pub max_count : InRange (2 ^ 15) (2 ^ 15 - 1) ss.child_process_max_count
  pub main_entry : IsPlainMethod ss.spartan_main_entry_point
  pub get_status : IsPlainMethod ss.spartan_get_status_entry_point
  pub shutdown : IsPlainMethod ss.spartan_supervisor_shutdown_entry_point
  pub child_notify : IsPlainMethod ss.spartan_child_notify_entry_point
  pub completion : IsPlainMethod ss.spartan_child_completion_notify_entry_point
  pub supervisor : IsPlainMethod ss.spartan_supervisor_entry_point
  pub processor : IsPlainMethod ss.spartan_child_processor_entry_point
  pub commands : Lacks b'\n' ss.spartan_child_processor_commands
  pub class_path : Lacks b'\n' ss.system_class_path
  pub supervisor_commands : AllOf IsPlainCommand ss.sp_spartan_supervisor_commands
  pub supervisor_count : Countable ss.sp_spartan_supervisor_commands
  pub child_commands : AllOf IsPlainCommand ss.sp_spartan_child_processor_commands
  pub child_count : Countable ss.sp_spartan_child_processor_commands
  pub properties : AllOf (Lacks b'\r') ss.sp_serialized_system_properties
  pub property_count : Countable ss.sp_serialized_system_properties
  pub level : Lacks b'\n' ss.spartan_logging_level
  pub jvmlib : Lacks b'\n' ss.jvmlib_path

-- What is read back: all of the written session, but for its empty vectors.
abbrev pub merged : SessionState → SessionState → SessionState
merged self ss = record ss {
  sp_spartan_supervisor_commands =
      taken self.sp_spartan_supervisor_commands ss.sp_spartan_supervisor_commands;
  sp_spartan_child_processor_commands =
      taken self.sp_spartan_child_processor_commands ss.sp_spartan_child_processor_commands;
  sp_serialized_system_properties =
      taken self.sp_serialized_system_properties ss.sp_serialized_system_properties;
}

module _ (t : TypeNames) (names : ArePlainNames t) (stale : ℤ) where
  read_entry-put_method :
      (old m : MethodDescriptor) (k : Bytes)
      → IsPlainMethod m
      → read_entry stale old (reading (put_method t m (b'\n' ∷ k))) ≡ (m, reading k)
  unfolding read_entry
  read_entry-put_method old m k p =
      rw (read_method-put_method t names stale old m _ p, skip_newline_lem _)

  read_commands :
      (self v : Option (List MethodDescriptorCmd)) (k : Bytes)
      → AllOf IsPlainCommand v
      → Countable v
      → read_vector
          (read_command_element stale)
          moved_command
          no_command
          self
          (reading (put_vector t.vector_of_commands (put_command t) b'\n' v k))
        ≡ (taken self v, reading k)
  read_commands self v k =
      read_vector-put_vector (put_command t) b'\n' (read_command_element stale) moved_command
        IsPlainCommand (read_command_element-put_command t names stale) t.vector_of_commands
        no_command self v k names.vector_of_commands

  read_properties :
      (self v : Option (List Bytes)) (k : Bytes)
      → AllOf (Lacks b'\r') v
      → Countable v
      → read_vector read_property moved_string [] self
          (reading (put_vector t.vector_of_strings ◌++◌ b'\r' v k))
        ≡ (taken self v, reading k)
  read_properties self v k =
      read_vector-put_vector ◌++◌ b'\r' read_property moved_string (Lacks b'\r')
        (λ old x r h. getline-append b'\r' [] x r h) t.vector_of_strings [] self v k
        names.vector_of_strings

  -- Reading what was written for a session, whose texts hold no delimiter of their own, whose
  -- numbers are in range and whose vectors have fewer than 2 ^ 32 elements, gives the session back, and leaves the stream behind
  -- it; where a vector was empty or null, the target keeps its own.
  pub read_session-put_session :
      (self ss : SessionState) (k : Bytes)
      → IsPlainSession ss
      → read_session stale self (reading (put_session t ss k)) ≡ (merged self ss, reading k)
  unfolding read_session put_session
  read_session-put_session self ss k p = rw (
    getline-append b'\n' [] _ _ names.session_state,
    read_int-format_ℤ (2 ^ 31) (2 ^ 31 - 1) self.supervisor_pid ss.supervisor_pid _ p.pid,
    skip_newline_lem _,
    read_int-format_ℤ (2 ^ 15) (2 ^ 15 - 1) self.child_process_max_count ss.child_process_max_count
        _ p.max_count,
    skip_newline_lem _,
    read_entry-put_method self.spartan_main_entry_point _ _ p.main_entry,
    read_entry-put_method self.spartan_get_status_entry_point _ _ p.get_status,
    read_entry-put_method self.spartan_supervisor_shutdown_entry_point _ _ p.shutdown,
    read_entry-put_method self.spartan_child_notify_entry_point _ _ p.child_notify,
    read_entry-put_method self.spartan_child_completion_notify_entry_point _ _ p.completion,
    read_entry-put_method self.spartan_supervisor_entry_point _ _ p.supervisor,
    read_entry-put_method self.spartan_child_processor_entry_point _ _ p.processor,
    getline-append b'\n' self.spartan_child_processor_commands _ _ p.commands,
    getline-append b'\n' self.system_class_path _ _ p.class_path,
    read_commands self.sp_spartan_supervisor_commands _ _ p.supervisor_commands p.supervisor_count,
    skip_newline_lem _,
    read_commands _ _ _ p.child_commands p.child_count,
    skip_newline_lem _,
    read_properties _ _ _ p.properties p.property_count,
    skip_newline_lem _,
    getline-append b'\n' self.spartan_logging_level _ _ p.level,
    getline-append b'\n' self.jvmlib_path _ _ p.jvmlib,
  )

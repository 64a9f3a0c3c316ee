-- ===== src/Session/Serial.antt =====
-- The text form of a session: `operator<<` and `operator>>` of `methodDescriptor`,
-- `methodDescriptorCmd` and `sessionState` in src/main/cpp/session-state.cpp, with the helpers
-- `stream_vec_out` and `stream_vec_in`. A writer takes what is written after it.
pub mod Elements
pub mod RoundTrip
use spartan_launcher.Prelude.{
  ℕ, zero, suc, ◌≡◌, Option, none, some, List, [], ◌∷◌, ◌++◌, ◌==◌, ltb, if◌then◌else◌, length,
  Bytes, ℤ, pos, negsuc,
}
use spartan_launcher.Session.{
  WhichMethod, MethodDescriptor, MethodDescriptorCmd, SessionState, no_command,
}
use spartan_launcher.Stream.{Read, ◌>>=◌, ◌>>◌, return, getline, skip_newline}
use spartan_launcher.Stream.Numbers.{
  format_ℕ, format_ℤ, bit, read_pid, read_short, read_bool, read_size,
}

-- What the compiler gives for `typeid(T).name()`.
pub record TypeNames : Type 0 where
  pub method_descriptor : Bytes
  pub method_descriptor_cmd : Bytes
  pub session_state : Bytes
  pub vector_of_commands : Bytes
  pub vector_of_strings : Bytes

-- `static_cast<short int>(which)`
unfoldable pub to_short : WhichMethod → ℤ
to_short WhichMethod.none = pos 0
to_short WhichMethod.main = pos 1
to_short WhichMethod.get_status = pos 2
to_short WhichMethod.supervisor_shutdown = pos 3
to_short WhichMethod.child_notify = pos 4
to_short WhichMethod.child_completion_notify = pos 5
to_short WhichMethod.supervisor_do_cmd = pos 6
to_short WhichMethod.child_do_cmd = pos 7
to_short WhichMethod.get_cmd_dispatch_info = pos 8
to_short (WhichMethod.other z) = z

-- `static_cast<WhichMethod>(sint)`
unfoldable pub of_short : ℤ → WhichMethod
of_short (negsuc n) = WhichMethod.other (negsuc n)
of_short (pos n) =
    if n == 0
    then WhichMethod.none
    else if n == 1
    then WhichMethod.main
    else if n == 2
    then WhichMethod.get_status
    else if n == 3
    then WhichMethod.supervisor_shutdown
    else if n == 4
    then WhichMethod.child_notify
    else if n == 5
    then WhichMethod.child_completion_notify
    else if n == 6
    then WhichMethod.supervisor_do_cmd
    else if n == 7
    then WhichMethod.child_do_cmd
    else if n == 8
    then WhichMethod.get_cmd_dispatch_info
    else WhichMethod.other (pos n)

-- `os << text << '\n'`
abbrev pub line : Bytes → Bytes → Bytes
line text k = text ++ (b'\n' ∷ k)

-- The elements of a vector, each with `delim` behind it.
unfoldable pub put_elements : {T : Type 0} → (T → Bytes → Bytes) → ℕ → List T → Bytes → Bytes
put_elements put delim [] k = k
put_elements put delim (x ∷ xs) k = put x (delim ∷ put_elements put delim xs k)

-- `stream_vec_out`; a null pointer is written as an empty vector.
unfoldable pub put_vector :
    {T : Type 0} → Bytes → (T → Bytes → Bytes) → ℕ → Option (List T) → Bytes → Bytes
put_vector name put delim none k = line name (line (format_ℕ 0) (b'\n' ∷ k))
put_vector name put delim (some v) k =
    line name (line (format_ℕ (length v)) (put_elements put delim v (b'\n' ∷ k)))

-- The loop of `stream_vec_in`: `t` is what the loop's one element variable holds, `moved` what a
-- push by move leaves in it. The loop counts with an
-- `unsigned int`: for 2 ^ 32 elements or more it never ends, which is not modelled.
unfoldable pub read_elements : {T : Type 0} → (T → Read T) → (T → T) → ℕ → T → Read (List T)
read_elements read moved zero t = return []
read_elements read moved (suc n) t = do
  x ← read t
  xs ← read_elements read moved n (moved x)
  return (x ∷ xs)

-- What `stream_vec_in` does with the count: an empty vector leaves the target pointer alone.
unfoldable pub read_some :
    {T : Type 0} → (T → Read T) → (T → T) → T → Option (List T) → ℕ → Read (Option (List T))
read_some read moved t self zero = return self
read_some read moved t self (suc n) = do v ← read_elements read moved (suc n) t; return (some v)

-- `stream_vec_in`
unfoldable pub read_vector :
    {T : Type 0} → (T → Read T) → (T → T) → T → Option (List T) → Read (Option (List T))
read_vector read moved t self = do
  getline b'\n' []
  count ← read_size 0
  skip_newline
  v ← read_some read moved t self count
  skip_newline
  return v

-- A string element: cleared, then read up to a carriage return.
abbrev pub read_property : Bytes → Read Bytes
read_property str = getline b'\r' []

abbrev pub moved_string : Bytes → Bytes
moved_string _ = []

-- A moved-from descriptor: its strings are empty.
abbrev pub moved_command : MethodDescriptorCmd → MethodDescriptorCmd
moved_command c = record c {
  base = record (c.base) { full_method_name = []; descriptor = [] };
  command = [];
  jvm_options_command_line = [];
}

module _ (t : TypeNames) where
  unfoldable pub put_method : MethodDescriptor → Bytes → Bytes
  put_method m k = line t.method_descriptor (
      line (bit m.is_static_method)
        (line (format_ℤ (to_short m.which_method)) (line m.full_method_name (line m.descriptor k))))

  unfoldable pub put_command : MethodDescriptorCmd → Bytes → Bytes
  put_command c k =
      line t.method_descriptor_cmd
        (put_method c.base (line c.command (line c.jvm_options_command_line k)))

  unfoldable pub put_session : SessionState → Bytes → Bytes
  put_session ss k =
      let entry = λ (m : MethodDescriptor) (r : Bytes). put_method m (b'\n' ∷ r) in
      line t.session_state (
        line (format_ℤ ss.supervisor_pid) (
          line (format_ℤ ss.child_process_max_count) (
            entry ss.spartan_main_entry_point (
              entry ss.spartan_get_status_entry_point (
                entry ss.spartan_supervisor_shutdown_entry_point (
                  entry ss.spartan_child_notify_entry_point (
                    entry ss.spartan_child_completion_notify_entry_point (
                      entry ss.spartan_supervisor_entry_point (
                        entry ss.spartan_child_processor_entry_point (
                          line ss.spartan_child_processor_commands (
                            line ss.system_class_path (
                              put_vector t.vector_of_commands put_command b'\n'
                                ss.sp_spartan_supervisor_commands
                                (b'\n'
                                  ∷ put_vector t.vector_of_commands put_command b'\n'
                                      ss.sp_spartan_child_processor_commands
                                      (b'\n'
                                        ∷ put_vector t.vector_of_strings ◌++◌ b'\r'
                                            ss.sp_serialized_system_properties
                                            (b'\n'
                                              ∷ line ss.spartan_logging_level
                                                  (line ss.jvmlib_path k))))))))))))))))

-- `stale` is what the uninitialised local `sint` of the reader holds.
module _ (stale : ℤ) where
  unfoldable pub read_method : MethodDescriptor → Read MethodDescriptor
  read_method self = do
    getline b'\n' []
    is_static ← read_bool self.is_static_method
    skip_newline
    sint ← read_short stale
    skip_newline
    name ← getline b'\n' self.full_method_name
    descriptor ← getline b'\n' self.descriptor
    return (record {
      is_static_method = is_static;
      which_method = of_short sint;
      full_method_name = name;
      descriptor = descriptor;
    })

  unfoldable pub read_command : MethodDescriptorCmd → Read MethodDescriptorCmd
  read_command self = do
    getline b'\n' []
    base ← read_method self.base
    command ← getline b'\n' self.command
    jvm_options ← getline b'\n' self.jvm_options_command_line
    return (record { base = base; command = command; jvm_options_command_line = jvm_options })

  -- `stream_in_vec_elm`
  unfoldable pub read_command_element : MethodDescriptorCmd → Read MethodDescriptorCmd
  read_command_element self = do c ← read_command self; skip_newline; return c

  unfoldable pub read_entry : MethodDescriptor → Read MethodDescriptor
  read_entry self = do m ← read_method self; skip_newline; return m

  unfoldable pub read_session : SessionState → Read SessionState
  read_session self = do
    getline b'\n' []
    pid ← read_pid self.supervisor_pid
    skip_newline
    count ← read_short self.child_process_max_count
    skip_newline
    main_entry ← read_entry self.spartan_main_entry_point
    status ← read_entry self.spartan_get_status_entry_point
    shutdown ← read_entry self.spartan_supervisor_shutdown_entry_point
    child ← read_entry self.spartan_child_notify_entry_point
    completion ← read_entry self.spartan_child_completion_notify_entry_point
    supervisor ← read_entry self.spartan_supervisor_entry_point
    processor ← read_entry self.spartan_child_processor_entry_point
    commands ← getline b'\n' self.spartan_child_processor_commands
    class_path ← getline b'\n' self.system_class_path
    supervisor_commands ←
        read_vector read_command_element moved_command no_command
          self.sp_spartan_supervisor_commands
    skip_newline
    child_commands ←
        read_vector read_command_element moved_command no_command
          self.sp_spartan_child_processor_commands
    skip_newline
    properties ← read_vector read_property moved_string [] self.sp_serialized_system_properties
    skip_newline
    level ← getline b'\n' self.spartan_logging_level
    jvmlib ← getline b'\n' self.jvmlib_path
    return (record {
      supervisor_pid = pid;
      child_process_max_count = count;
      spartan_main_entry_point = main_entry;
      spartan_get_status_entry_point = status;
      spartan_supervisor_shutdown_entry_point = shutdown;
      spartan_child_notify_entry_point = child;
      spartan_child_completion_notify_entry_point = completion;
      spartan_supervisor_entry_point = supervisor;
      spartan_child_processor_entry_point = processor;
      spartan_child_processor_commands = commands;
      system_class_path = class_path;
      sp_spartan_supervisor_commands = supervisor_commands;
      sp_spartan_child_processor_commands = child_commands;
      sp_serialized_system_properties = properties;
      spartan_logging_level = level;
      jvmlib_path = jvmlib;
    })

-- ===== src/Session.antt =====
-- The data of src/main/cpp/session-state.h: which Java methods the launcher calls, and the
-- information part of `sessionState`. The handles of the loaded JVM are in Handles.
pub mod Handles
pub mod Life
pub mod Serial
use spartan_launcher.Prelude.{ℕ, ℤ, pos, Bool, true, Option, List, [], Bytes, is_empty}

-- `enum class WhichMethod : short`; `other` is a value that names no enumerator.
pub data WhichMethod : Type 0 where
  none main get_status supervisor_shutdown child_notify child_completion_notify : WhichMethod
  supervisor_do_cmd child_do_cmd get_cmd_dispatch_info : WhichMethod
  other : ℤ → WhichMethod

pub record MethodDescriptor : Type 0 where
  pub is_static_method : Bool
  pub which_method : WhichMethod
  pub full_method_name : Bytes
  pub descriptor : Bytes

pub record MethodDescriptorCmd : Type 0 where
  pub base : MethodDescriptor
  pub command : Bytes
  pub jvm_options_command_line : Bytes

-- The default constructors.
abbrev pub no_method : MethodDescriptor
no_method = record {
  is_static_method = true;
  which_method = WhichMethod.none;
  full_method_name = [];
  descriptor = [];
}

abbrev pub no_command : MethodDescriptorCmd
no_command = record { base = no_method; command = []; jvm_options_command_line = [] }

-- `methodDescriptor::empty`
abbrev pub no_name : MethodDescriptor → Bool
no_name m = is_empty m.full_method_name

-- The information part of `sessionState`; a null shared pointer is `none`.
pub record SessionState : Type 0 where
  pub supervisor_pid : ℤ
  pub child_process_max_count : ℤ
  pub spartan_main_entry_point : MethodDescriptor
  pub spartan_get_status_entry_point : MethodDescriptor
  pub spartan_supervisor_shutdown_entry_point : MethodDescriptor
  pub spartan_child_notify_entry_point : MethodDescriptor
  pub spartan_child_completion_notify_entry_point : MethodDescriptor
  pub spartan_supervisor_entry_point : MethodDescriptor
  pub spartan_child_processor_entry_point : MethodDescriptor
  pub spartan_child_processor_commands : Bytes
  pub system_class_path : Bytes
  pub sp_spartan_supervisor_commands : Option (List MethodDescriptorCmd)
  pub sp_spartan_child_processor_commands : Option (List MethodDescriptorCmd)
  pub sp_serialized_system_properties : Option (List Bytes)
  pub spartan_logging_level : Bytes
  pub jvmlib_path : Bytes

-- A default-constructed session.
abbrev pub new_session : SessionState
new_session = record {
  supervisor_pid = pos 0;
  child_process_max_count = pos 0;
  spartan_main_entry_point = no_method;
  spartan_get_status_entry_point = no_method;
  spartan_supervisor_shutdown_entry_point = no_method;
  spartan_child_notify_entry_point = no_method;
  spartan_child_completion_notify_entry_point = no_method;
  spartan_supervisor_entry_point = no_method;
  spartan_child_processor_entry_point = no_method;
  spartan_child_processor_commands = [];
  system_class_path = [];
  sp_spartan_supervisor_commands = Option.none;
  sp_spartan_child_processor_commands = Option.none;
  sp_serialized_system_properties = Option.none;
  spartan_logging_level = [];
  jvmlib_path = [];
}

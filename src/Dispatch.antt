-- ===== src/Dispatch.antt =====
-- The commands and entry points that the annotations of the Java program add to a session:
-- src/main/cpp/process-cmd-dispatch-info.cpp. What is read through JNI from the Java object
-- CommandDispatchInfo is a record.
pub mod Laws
use spartan_launcher.Prelude.{
  ℕ, zero, suc, ◌+◌, Bool, true, false, not, Option, none, some, List, [], ◌∷◌, ◌++◌, map,
  if◌then◌else◌, Bytes, codes, is_empty, istarts_with, lower, replace, length, pos,
}
use spartan_launcher.Session.{
  WhichMethod, MethodDescriptor, MethodDescriptorCmd, SessionState, no_name,
}
use spartan_launcher.Text.{str_split, strtok, split_last_slash}
use spartan_launcher.Text.Fields.{tokens}

-- The Java objects: MethInfo, CmdInfo and ChildCmdInfo. A CmdInfo has no JVM arguments.
pub record MethInfo : Type 0 where
  pub class_name : Bytes
  pub method_name : Bytes
  pub descriptor : Bytes

pub record CmdInfo : Type 0 where
  pub meth : MethInfo
  pub cmd : Bytes
  pub jvm_args : List Bytes

pub record DispatchInfo : Type 0 where
  pub system_properties : List Bytes
  pub system_class_path : List Bytes
  pub main_entry_point : Option MethInfo
  pub supervisor_commands : List CmdInfo
  pub child_worker_commands : List CmdInfo

-- A text with a separator in front of each part but the first; an empty text has none yet.
unfoldable pub join_onto : ℕ → Bytes → List Bytes → Bytes
join_onto sep text [] = text
join_onto sep text (s ∷ parts) =
    join_onto sep (if not (is_empty text) then text ++ sep ∷ s else text ++ s) parts

-- The method's name that `extract_method_info` forms.
unfoldable pub full_name : MethInfo → Bytes
full_name m = replace b'.' b'/' m.class_name ++ b'/' ∷ m.method_name

abbrev pub entry_of : MethInfo → Bool → WhichMethod → MethodDescriptor
entry_of m is_static which = record {
  is_static_method = is_static;
  which_method = which;
  full_method_name = full_name m;
  descriptor = m.descriptor;
}

abbrev pub supervisor_command : CmdInfo → MethodDescriptorCmd
supervisor_command c = record {
  base = entry_of c.meth false WhichMethod.supervisor_do_cmd;
  command = c.cmd;
  jvm_options_command_line = [];
}

abbrev pub child_command : CmdInfo → MethodDescriptorCmd
child_command c = record {
  base = entry_of c.meth true WhichMethod.child_do_cmd;
  command = c.cmd;
  jvm_options_command_line = join_onto b' ' [] c.jvm_args;
}

-- An array that is empty leaves the session's vector.
abbrev pub unless_empty : {A B : Type 0} → (A → B) → Option (List B) → List A → Option (List B)
unless_empty f old [] = old
unless_empty f old (x ∷ xs) = some (map f (x ∷ xs))

abbrev pub class_with_slash : Option (Bytes × Bytes) → Bytes
class_with_slash none = codes "spartan/SpartanBase/"
class_with_slash (some (front, name)) = front ++ b'/' ∷ []

-- The class of the main entry point with its slash, or the default one.
unfoldable pub entry_points_class : Bytes → Bytes
entry_points_class name = class_with_slash (split_last_slash name)

abbrev pub last_or : Bytes → List Bytes → Bytes
last_or old [] = old
last_or old (s ∷ parts) = last_or s parts

-- The name of an entry point, moved to the class unless it stands there.
unfoldable pub reclass : Bytes → MethodDescriptor → MethodDescriptor
reclass class m =
    let parts = str_split m.full_method_name b'/' (pos 0) in
    if not (istarts_with m.full_method_name class)
    then (if is_empty parts then m else record m { full_method_name = class ++ last_or [] parts })
    else m

-- `extract_main_entry_method_info`; `none` is its exception.
unfoldable pub main_entry_method : SessionState → Option MethInfo → Option SessionState
main_entry_method ss none = none
main_entry_method ss (some m) =
    let main_entry = entry_of m true WhichMethod.main in
    let class = entry_points_class main_entry.full_method_name in
    some (record ss {
      spartan_main_entry_point = main_entry;
      spartan_get_status_entry_point = reclass class ss.spartan_get_status_entry_point;
      spartan_supervisor_shutdown_entry_point =
          reclass class ss.spartan_supervisor_shutdown_entry_point;
      spartan_child_notify_entry_point = reclass class ss.spartan_child_notify_entry_point;
      spartan_child_completion_notify_entry_point =
          reclass class ss.spartan_child_completion_notify_entry_point;
      spartan_supervisor_entry_point = reclass class ss.spartan_supervisor_entry_point;
    })

abbrev pub add_commands : DispatchInfo → Option SessionState → Option SessionState
add_commands info none = none
add_commands info (some ss) = some (record ss {
  sp_spartan_supervisor_commands =
      unless_empty supervisor_command ss.sp_spartan_supervisor_commands info.supervisor_commands;
  sp_spartan_child_processor_commands =
      unless_empty child_command ss.sp_spartan_child_processor_commands info.child_worker_commands;
})

-- `apply_cmd_dsp_info_to_session_state`
unfoldable pub apply_cmd_dsp_info : DispatchInfo → SessionState → Option SessionState
apply_cmd_dsp_info info ss =
    let read = record ss {
      sp_serialized_system_properties =
          unless_empty (λ x. x) ss.sp_serialized_system_properties info.system_properties;
      system_class_path = join_onto b':' [] info.system_class_path;
    } in
    add_commands info (
      if no_name ss.spartan_main_entry_point
      then main_entry_method read info.main_entry_point
      else some read)

abbrev pub keep_main : MethodDescriptor → Option SessionState → Option SessionState
keep_main saved none = none
keep_main saved (some ss) =
    some (if not (no_name saved) then record ss { spartan_main_entry_point = saved } else ss)

-- The session that `process_initial_cmd_dispatch_info` puts in shared memory: a main entry point
-- of config.ini takes precedence.
unfoldable pub process_initial : DispatchInfo → SessionState → Option SessionState
process_initial info ss = keep_main ss.spartan_main_entry_point (apply_cmd_dsp_info info ss)

-- The commands of config.ini; `none` where the first `strtok_r` gives a null pointer, of which a
-- string is made.
abbrev pub first_and_more : Option (Bytes × Bytes) → Option (List Bytes)
first_and_more none = none
first_and_more (some (t, rest)) = some (t ∷ tokens (length rest + 1) b',' rest)

unfoldable pub configured_commands : Bytes → Option (List Bytes)
configured_commands text =
    if is_empty text then some [] else first_and_more (strtok b',' (lower text))

abbrev pub annotated_commands : Option (List MethodDescriptorCmd) → List Bytes
annotated_commands none = []
annotated_commands (some v) = map (λ (c : MethodDescriptorCmd). lower c.command) v

abbrev pub and_annotated : List Bytes → Option (List Bytes) → Option (List Bytes)
and_annotated more none = none
and_annotated more (some commands) = some (commands ++ more)

-- `get_child_processor_commands`; the set is a list, of which only the members count.
unfoldable pub child_processor_commands : SessionState → Option (List Bytes)
child_processor_commands ss =
    and_annotated (annotated_commands ss.sp_spartan_child_processor_commands)
      (configured_commands ss.spartan_child_processor_commands)

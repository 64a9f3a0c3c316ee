-- ===== src/Session/Life.antt =====
-- The life of the JVM in a process: `open_jvm_runtime_module` and `create_jvm` of
-- src/main/cpp/createjvm.cpp, the handles of a session that own it, and what `supervisor` and
-- `invoke_child_process_action` of src/main/cpp/spartan.cpp do with them.
pub mod Owned
use spartan_launcher.Prelude.{ℕ, Bool, true, false, Option, none, some, List, [], ◌∷◌, ◌++◌, Bytes}
use spartan_launcher.Session.Handles.{
  Cleanup, close_libjvm, cleanup_jvm, cleanup_jnienv, FullSession, let_go,
}
use spartan_launcher.Jvm.{JvmOptions, create_jvm_options}

-- The loader and the JVM: `dlopen` gives a library, and `JNI_CreateJavaVM` of it a JVM and the
-- environment of the thread; `none` is a failure.
pub record Runtime : Type 0 where
  pub dlopen : Bytes → Option ℕ
  pub create_java_vm : ℕ → JvmOptions → Option (ℕ × ℕ)
  pub parse_argv : Bytes → Option (List Bytes)
  pub java_classpath : Bytes
  pub jvm_cmd_line_args : Bytes

-- `none` is the exception.
unfoldable pub open_jvm_runtime_module : Runtime → Bytes → Option ℕ
open_jvm_runtime_module rt jvmlib_path = rt.dlopen jvmlib_path

abbrev pub with_options : Runtime → ℕ → Option JvmOptions → Option (ℕ × ℕ)
with_options rt hlibjvm none = none
with_options rt hlibjvm (some options) = rt.create_java_vm hlibjvm options

unfoldable pub create_jvm : Runtime → ℕ → Bytes → Option (ℕ × ℕ)
create_jvm rt hlibjvm jvm_override_optns =
    with_options rt hlibjvm
      (create_jvm_options rt.parse_argv rt.java_classpath jvm_override_optns rt.jvm_cmd_line_args)

-- The session that comes of a step, with the deleters that were called; an exception leaves the
-- session as it was.
pub record Step : Type 0 where
  pub session : FullSession
  pub cleanups : List Cleanup
  pub failed : Bool

abbrev pub jvm_made : FullSession → Option (ℕ × ℕ) → Step
jvm_made ss none = record { session = ss; cleanups = []; failed = true }
jvm_made ss (some (jvmp, envp)) = record {
  session = record ss { jvm_sp = some jvmp; env_sp = some envp };
  cleanups = let_go cleanup_jvm ss.jvm_sp ++ let_go cleanup_jnienv ss.env_sp;
  failed = false;
}

abbrev pub in_library : Runtime → FullSession → Bytes → Option ℕ → Step
in_library rt ss optns none = jvm_made ss none
in_library rt ss optns (some hlibjvm) = jvm_made ss (create_jvm rt hlibjvm optns)

-- `sessionState::create_jvm`, of a session that has the library.
unfoldable pub session_create_jvm : Runtime → FullSession → Bytes → Step
session_create_jvm rt ss jvm_override_optns = in_library rt ss jvm_override_optns ss.libjvm_sp

-- A session that goes out of scope: its members in the reverse of their order.
unfoldable pub destroy_session : FullSession → List Cleanup
destroy_session ss =
    let_go cleanup_jnienv ss.env_sp
    ++ (let_go cleanup_jvm ss.jvm_sp ++ let_go close_libjvm ss.libjvm_sp)

-- The handles are released: nothing deletes them.
abbrev pub release_all : FullSession → FullSession
release_all ss = record ss { libjvm_sp = none; jvm_sp = none; env_sp = none }

abbrev pub released : Step → Step
released s = elim s.failed [ true ↦ s | false ↦ record s { session = release_all s.session } ]

-- What `invoke_child_process_action` does with the handles before the action runs.
abbrev pub for_action : Runtime → Bytes → FullSession → Option ℕ → Step
for_action rt optns ss (some jvm) = record { session = ss; cleanups = []; failed = false }
for_action rt optns ss none = released (session_create_jvm rt ss optns)

unfoldable pub prepare_action : Runtime → Bytes → FullSession → Step
prepare_action rt jvm_override_optns ss = for_action rt jvm_override_optns ss ss.jvm_sp

-- The supervisor hands the library and the JVM over to the session that it read from shared
-- memory, and detaches its own thread.
unfoldable pub hand_over : FullSession → FullSession → FullSession × FullSession × List Cleanup
hand_over session shm_session = (
  record session { libjvm_sp = none; jvm_sp = none; env_sp = none },
  record shm_session { libjvm_sp = session.libjvm_sp; jvm_sp = session.jvm_sp },
  let_go close_libjvm shm_session.libjvm_sp
      ++ (let_go cleanup_jvm shm_session.jvm_sp ++ let_go cleanup_jnienv session.env_sp),
)

-- `cleanup_supervisor_jvm_ctx`, in the supervisor, or in the launcher.
abbrev pub cleanup_supervisor_jvm_ctx : Bool → FullSession → FullSession
cleanup_supervisor_jvm_ctx true session = release_all session
cleanup_supervisor_jvm_ctx false session = record session { libjvm_sp = none }

-- The end of the supervisor: the clean-up, then its session from shared memory, and at last the
-- session of its caller.
unfoldable pub end_of_supervisor : FullSession × FullSession × List Cleanup → List Cleanup
end_of_supervisor (session, shm_session, cleanups) =
    cleanups
    ++ (destroy_session shm_session ++ destroy_session (cleanup_supervisor_jvm_ctx true session))

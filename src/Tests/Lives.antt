-- ===== src/Tests/Lives.antt =====
-- A session with a library, and a runtime that makes a JVM.
use spartan_launcher.Prelude.{◌≡◌, refl, none, some, [], ◌∷◌, codes}
use spartan_launcher.Session.{new_session}
use spartan_launcher.Session.Handles.{Cleanup, FullSession}
use spartan_launcher.Session.Life.{
  Runtime, create_jvm, prepare_action, session_create_jvm, hand_over, end_of_supervisor,
}
use spartan_launcher.Session.Life.Owned.{
  HasLibrary, IsPrepared, prepare_action-IsPrepared, end_of_supervisor_lem,
}
use spartan_launcher.Jvm.{create_jvm_options}

abbrev runtime : Runtime
runtime = record {
  dlopen = λ path. some 7;
  create_java_vm = λ h options. some (8, 9);
  parse_argv = λ text. some (codes "-Xmx1g" ∷ []);
  java_classpath = [];
  jvm_cmd_line_args = codes "-Xmx1g";
}

abbrev with_library : FullSession
with_library = record { info = new_session; libjvm_sp = some 7; jvm_sp = none; env_sp = none }

abbrev from_shm : FullSession
from_shm = record { info = new_session; libjvm_sp = none; jvm_sp = none; env_sp = none }

with_library-HasLibrary : HasLibrary with_library 7
with_library-HasLibrary = record { libjvm = refl; no_jvm = refl; no_env = refl }

jvm_is_made : create_jvm runtime 7 [] ≡ some (8, 9)
unfolding create_jvm create_jvm_options
jvm_is_made = refl

prepare_action-IsPrepared_example : IsPrepared with_library (prepare_action runtime [] with_library)
prepare_action-IsPrepared_example =
    prepare_action-IsPrepared runtime [] with_library 7 with_library-HasLibrary

end_of_supervisor_example :
    end_of_supervisor (hand_over (session_create_jvm runtime with_library []).session from_shm)
    ≡ Cleanup.cleanup_jnienv 9 ∷ Cleanup.cleanup_jvm 8 ∷ Cleanup.close_libjvm 7 ∷ []
end_of_supervisor_example =
    end_of_supervisor_lem runtime [] with_library from_shm 7 8 9 with_library-HasLibrary jvm_is_made
      refl refl refl

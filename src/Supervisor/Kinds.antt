-- ===== src/Supervisor/Kinds.antt =====
-- `invoke_java_method` of src/main/cpp/spartan.cpp whole: each kind of method with the reads and the
-- call that are its own, what comes of an exception of Java, and the detachment of the thread.
pub mod Ends
pub mod Notified
use spartan_launcher.Prelude.{
  ℕ, ◌+◌, ◌%◌, ◌^◌, Bool, true, false, ◌||◌, Option, none, some, List, [], ◌∷◌, ◌++◌, if◌then◌else◌,
  Bytes, codes, get_or, drop,
}
use spartan_launcher.Text.{split_last_slash}
use spartan_launcher.Session.{WhichMethod, MethodDescriptor}
use spartan_launcher.Pipes.{End}
use spartan_launcher.Jni.{first_null}
use spartan_launcher.Supervisor.Invoke.{Streams, JavaCall}
use spartan_launcher.Supervisor.Jni.{
  JavaRead, java_read, args_reads, object_reads, loader_reads, invoke_jni,
}

-- What became of the dispatch information that Java gave: it stands in shared memory, or an `int`
-- or another exception was thrown.
pub data Processing : Type 0 where
  stored : Processing
  threw : ℕ → Processing
  other_exception : Processing

-- What Java does in a call: of each read whether it is not null, whether the method that is called
-- raises an exception, and whether the thread can be detached. `strtol` gives a 64-bit pattern.
pub record Java : Type 0 where
  pub found : ℕ → Bool
  pub raises : Bool
  pub detaches : Bool
  pub processing : Processing
  pub strtol : Bytes → ℕ
  pub progname : Bytes
  pub level : ℕ

-- The call that is made, by the class and the name of the method.
pub data Called : Type 0 where
  static_info : Bytes → Bytes → Called
  -- `SpartanBase.main` with the program's name, the level, the method itself, and its arguments.
  spartan_main : Bytes → ℕ → Bytes → Bytes → Option (List Bytes) → Called
  shutdown : Bytes → Bytes → Called
  -- The pid is the 32-bit pattern of a `jint`.
  child_notify : Bytes → Bytes → ℕ → Bytes → Called
  completion_notify : Bytes → Bytes → ℕ → Called
  with_streams : Bytes → Bytes → Option (List Bytes) → List End → Called
  nothing : Called

-- How `invoke_java_method` ends: with an exit code, with that of a failure since a number was
-- thrown, or with the end of the process.
pub data Exit : Type 0 where
  returns : ℕ → Exit
  fails : ℕ → Exit
  exits : Exit

abbrev pub spartan_base : Bytes
spartan_base = codes "spartan/SpartanBase"

-- The reads of a kind of method that has no streams. Only the first two kinds are static.
abbrev pub kind_reads : WhichMethod → Bytes → Bytes → List JavaRead
kind_reads WhichMethod.get_cmd_dispatch_info class name =
    java_read 3 class name ∷ java_read 4 class name ∷ []
kind_reads WhichMethod.main class name =
    java_read 3 spartan_base name
    ∷ java_read 4 spartan_base name
    ∷ java_read 4 class name
    ∷ java_read 5 (codes "java/lang/String{\"program name\"}") name
    ∷ []
kind_reads WhichMethod.child_notify class name =
    java_read 5 (codes "java/lang/String{\"child process command line arguments\"}") name ∷ []
kind_reads _ class name = []

-- All of its reads, in their order.
unfoldable pub plain_reads : Bool → Bool → WhichMethod → Bytes → Bytes → List JavaRead
plain_reads has_args made which class name =
    args_reads has_args class name
    ++ (java_read 3 class name
        ∷ java_read 4 class name
        ∷ (object_reads made class name ++ (loader_reads name ++ kind_reads which class name)))

abbrev pub has_argv : Option (List Bytes) → Bool
has_argv none = false
has_argv (some argv) = true

-- The arguments of the array are those behind the first.
abbrev pub jargs : Option (List Bytes) → Option (List Bytes)
jargs none = none
jargs (some argv) = some (drop 1 argv)

abbrev pub words : Option (List Bytes) → List Bytes
words none = []
words (some argv) = argv

abbrev pub pid_of : Java → List Bytes → ℕ
pid_of java argv = java.strtol (get_or argv 0 []) % 2 ^ 32

abbrev pub kind_call : Java → WhichMethod → Bytes → Bytes → Option (List Bytes) → Called
kind_call java WhichMethod.get_cmd_dispatch_info class name argv = static_info class name
kind_call java WhichMethod.main class name argv =
    spartan_main java.progname java.level class name (jargs argv)
kind_call java WhichMethod.supervisor_shutdown class name argv = shutdown class name
kind_call java WhichMethod.child_notify class name argv =
    child_notify class name (pid_of java (words argv)) (get_or (words argv) 1 [])
kind_call java WhichMethod.child_completion_notify class name argv =
    completion_notify class name (pid_of java (words argv))
kind_call java _ class name argv = nothing

-- Detaching the thread fails too where an exception is pending.
abbrev pub jni_detach_thread : Bool → Bool → ℕ
jni_detach_thread detaches pending = if detaches then (if pending then 1 else 0) else 1

-- The end of a call that leaves, or does not leave, an exception to be checked.
abbrev pub after_call : Java → Bool → Exit
after_call java true = returns 1
after_call java false = returns (jni_detach_thread java.detaches false)

abbrev pub after_processing : Java → Processing → Exit
after_processing java stored = after_call java false
after_processing java (threw which) = fails which
after_processing java other_exception = exits

abbrev pub after_info : Java → Bool → Exit
after_info java true = after_call java true
after_info java false = after_processing java java.processing

-- Where nothing is called there is no exception.
abbrev pub after_plain : Java → Called → Exit
after_plain java (static_info class name) = after_info java java.raises
after_plain java nothing = after_call java false
after_plain java _ = after_call java java.raises

abbrev pub unless_thrown_by : Java → Option JavaRead → Called → Exit × Called
unless_thrown_by java none call = (after_plain java call, call)
unless_thrown_by java (some r) call = (fails r.thrown, nothing)

abbrev pub invoke_plain :
    Java → Bool → MethodDescriptor → Option (List Bytes) → Option (Bytes × Bytes) → Exit × Called
invoke_plain java made m argv none = (fails 1, nothing)
invoke_plain java made m argv (some (class, name)) =
    unless_thrown_by java
      (first_null java.found 0
        (plain_reads (has_argv argv) (made || m.is_static_method) m.which_method class name))
      (kind_call java m.which_method class name argv)

-- An exception of a method with streams is described, which clears it, unless the method is
-- static: then it is left to be checked behind the `switch`.
abbrev pub left_behind : Bool → Bool → Bool
left_behind is_static raised = if is_static then raised else false

abbrev pub invoke_streams : Java → Bool → JavaCall → Exit × Called
invoke_streams java is_static (JavaCall.failed thrown) = (fails thrown, nothing)
invoke_streams java is_static (JavaCall.called class name args ends) =
    (after_call java (left_behind is_static java.raises), with_streams class name args ends)

abbrev pub takes_streams : WhichMethod → Bool
takes_streams WhichMethod.get_status = true
takes_streams WhichMethod.child_do_cmd = true
takes_streams WhichMethod.supervisor_do_cmd = true
takes_streams _ = false

-- `invoke_java_method`; `made` tells whether an earlier call made the object.
unfoldable pub invoke_any :
    Java → Bool → MethodDescriptor → Option (List Bytes) → Streams → Exit × Called
invoke_any java made m argv streams =
    if takes_streams m.which_method
    then invoke_streams java m.is_static_method
        (invoke_jni java.found (has_argv argv) made m (drop 1 (words argv)) streams)
    else invoke_plain java made m argv (split_last_slash m.full_method_name)

-- `invoke_java_child_processor_notify` and `invoke_java_child_processor_completion_notify`; these
-- methods have no streams.
unfoldable pub notify_java :
    Java → Bool → MethodDescriptor → Streams → Bytes → Bytes → Exit × Called
notify_java java made m streams child_pid command_line =
    invoke_any java made m (some (child_pid ∷ command_line ∷ [])) streams

unfoldable pub completion_java : Java → Bool → MethodDescriptor → Streams → Bytes → Exit × Called
completion_java java made m streams child_pid =
    invoke_any java made m (some (child_pid ∷ [])) streams

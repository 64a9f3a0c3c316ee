-- ===== src/Supervisor/Kinds/Notified.antt =====
-- From the notices that the launcher sends of its children to the calls into Java, through
-- `handle_supervisor_msg` of src/main/cpp/spartan.cpp.
use spartan_launcher.Prelude.{
  ℕ, ◌+◌, ◌<◌, ◌^◌, ◌%◌, ◌≡◌, refl, Bool, true, false, ◌||◌, Option, none, some, List, [], ◌∷◌,
  ◌++◌, Bytes, Lacks, arith,
}
use spartan_launcher.Text.{split_last_slash}
use spartan_launcher.Stream.Numbers.{format_ℕ}
use spartan_launcher.Session.{WhichMethod, MethodDescriptor, SessionState, no_name}
use spartan_launcher.Jni.{first_null-none}
use spartan_launcher.Supervisor.Invoke.{Streams}
use spartan_launcher.Supervisor.Jni.Refinement.{FindsAll}
use spartan_launcher.Supervisor.Messages.{Task, supervisor_task, notify_message, completion_message}
use spartan_launcher.Supervisor.Messages.Notices.{
  supervisor_task-notified, supervisor_task-completed,
}
use spartan_launcher.Supervisor.Kinds.{
  Java, Called, Exit, child_notify, completion_notify, after_call, after_plain, kind_call,
  takes_streams, plain_reads, invoke_any, notify_java, completion_java,
}

-- What `handle_supervisor_msg` calls for a notice; the commands are those of Invoke.
unfoldable pub tell_java : Java → Bool → Streams → SessionState → Task → Option (Exit × Called)
tell_java java made streams ss (Task.notified pid cmd_line) =
    some (notify_java java made ss.spartan_child_notify_entry_point streams pid cmd_line)
tell_java java made streams ss (Task.completed pid) =
    some (completion_java java made ss.spartan_child_completion_notify_entry_point streams pid)
tell_java java made streams ss _ = none

-- The method is of that kind, class and name.
pub record IsMethod (m : MethodDescriptor) (which : WhichMethod) (class name : Bytes) : Type 0 where
  pub kind : m.which_method ≡ which
  pub split : split_last_slash m.full_method_name ≡ some (class, name)

module _ (java : Java) (made : Bool) (streams : Streams) (found : FindsAll java.found) where
  -- Where every read succeeds, a method without streams is called as its kind has it.
  pub invoke_any-plain :
      (m : MethodDescriptor) (which : WhichMethod) (class name : Bytes) (argv : List Bytes)
      → takes_streams which ≡ false
      → IsMethod m which class name
      → let call = kind_call java which class name (some argv) in
        invoke_any java made m (some argv) streams ≡ (after_plain java call, call)
  unfolding invoke_any
  invoke_any-plain m which class name argv plain method = rw (
    method.kind,
    plain,
    method.split,
    first_null-none java.found 0 (plain_reads true (made || m.is_static_method) which class name)
        (λ i h. found (0 + i)),
  )

  -- Where every read through JNI succeeds, the notice of a forked child comes to Java as a call of
  -- the session's method for it, with the number of the child's pid and with the command line
  -- behind its first word; and that of a child that ended as a call with the pid. An exception of
  -- the method is a failure of the call.
  pub tell_java-notices :
      (ss : SessionState) (beyond : Bytes) (pid c : ℕ) (word rest : Bytes)
      (class name class' name' : Bytes)
      → Lacks b' ' (c ∷ word)
      → no_name ss.spartan_child_notify_entry_point ≡ false
      → no_name ss.spartan_child_completion_notify_entry_point ≡ false
      → IsMethod ss.spartan_child_notify_entry_point WhichMethod.child_notify class name
      → IsMethod ss.spartan_child_completion_notify_entry_point WhichMethod.child_completion_notify
          class' name'
      → java.strtol (format_ℕ pid) ≡ pid
      → pid < 2 ^ 31
      → (tell_java java made streams ss
            (supervisor_task ss beyond (notify_message pid ((c ∷ word) ++ b' ' ∷ rest)))
          ≡ some (after_call java java.raises, child_notify class name pid rest))
        × (tell_java java made streams ss (supervisor_task ss beyond (completion_message pid))
            ≡ some (after_call java java.raises, completion_notify class' name' pid))
  unfolding tell_java notify_java completion_java
  tell_java-notices ss beyond pid c word rest class name class' name' h n n' m m' number small =
      let same : java.strtol (format_ℕ pid) % 2 ^ 32 ≡ pid = omega (arith, number) in
      (
        rw
            (
              supervisor_task-notified ss beyond pid c word rest h n,
              invoke_any-plain ss.spartan_child_notify_entry_point WhichMethod.child_notify class
                  name (format_ℕ pid ∷ rest ∷ []) refl m,
              same,
            )
            refl,
        rw
            (
              supervisor_task-completed ss beyond pid n',
              invoke_any-plain ss.spartan_child_completion_notify_entry_point
                  WhichMethod.child_completion_notify class' name' (format_ℕ pid ∷ []) refl m',
              same,
            )
            refl,
      )

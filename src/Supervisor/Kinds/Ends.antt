-- ===== src/Supervisor/Kinds/Ends.antt =====
-- What an exit code of `invoke_java_method` says of the call that was made.
use spartan_launcher.Prelude.{
  ◌≡◌, refl, sym, ap, ◌∙◌, Bool, true, false, ◌||◌, Option, none, some, List, [], Bytes, arith,
  Bool-cases, inl, inr, drop,
}
use spartan_launcher.Text.{split_last_slash}
use spartan_launcher.Session.{WhichMethod, MethodDescriptor}
use spartan_launcher.Jni.{first_null}
use spartan_launcher.Pipes.{End}
use spartan_launcher.Supervisor.Invoke.{
  Streams, JavaCall, call_command, call_by, call_on, invoke_java_method,
}
use spartan_launcher.Supervisor.Jni.{JavaRead, invoke_jni}
use spartan_launcher.Supervisor.Jni.Refinement.{IsOrFails, invoke_jni-refines}
use spartan_launcher.Supervisor.Kinds.{
  Java, Called, Exit, static_info, spartan_main, shutdown, child_notify, completion_notify,
  with_streams, nothing, stored, returns, after_call, after_info, after_plain, kind_call,
  unless_thrown_by, invoke_plain, invoke_streams, takes_streams, has_argv, words, invoke_any,
  plain_reads,
}

-- The call of the method by that class and name, without an exception.
abbrev pub IsCall : Java → MethodDescriptor → WhichMethod → Bytes → Bytes → Type 0
IsCall java m which class name =
    (m.which_method ≡ which)
    × (split_last_slash m.full_method_name ≡ some (class, name))
    × (java.raises ≡ false)

-- A call that fits the kind of the method, and that raised no exception; of an instance method
-- with streams the exception is not told. A method with streams is called by the class and name of
-- its full name, with the arguments and the streams that its descriptor takes of those given. Where
-- there is no call, the kind is none of the known.
abbrev pub Fits : Java → MethodDescriptor → List Bytes → Streams → Called → Type 0
Fits java m args streams (static_info class name) =
    IsCall java m WhichMethod.get_cmd_dispatch_info class name × (java.processing ≡ stored)
Fits java m args streams (spartan_main progname level class name main_args) =
    IsCall java m WhichMethod.main class name
Fits java m args streams (shutdown class name) =
    IsCall java m WhichMethod.supervisor_shutdown class name
Fits java m args streams (child_notify class name pid text) =
    IsCall java m WhichMethod.child_notify class name
Fits java m args streams (completion_notify class name pid) =
    IsCall java m WhichMethod.child_completion_notify class name
Fits java m args streams (with_streams class name given ends) =
    (takes_streams m.which_method ≡ true)
    × (split_last_slash m.full_method_name ≡ some (class, name))
    × (invoke_java_method m args streams ≡ JavaCall.called class name given ends)
    × (m.is_static_method ≡ true → java.raises ≡ false)
Fits java m args streams nothing =
    (takes_streams m.which_method ≡ false) × (kind_call java m.which_method [] [] none ≡ nothing)

after_call-zero :
    (java : Java) (raised : Bool)
    → after_call java raised ≡ returns 0
    → (raised ≡ false) × (java.detaches ≡ true)
after_call-zero java true h = ground (arith, h)
after_call-zero java false h = ground (arith, h)

after_info-zero :
    (java : Java) (raised : Bool)
    → after_info java raised ≡ returns 0
    → (raised ≡ false) × (java.processing ≡ stored) × (java.detaches ≡ true)
after_info-zero java true h = ground (arith, h)
after_info-zero java false h = ground (arith, h)

-- A method with streams is called by the class and name of its full name.
invoke_java_method-named :
    (m : MethodDescriptor) (args : List Bytes) (streams : Streams) (class name : Bytes)
    (given : Option (List Bytes)) (ends : List End)
    → invoke_java_method m args streams ≡ JavaCall.called class name given ends
    → split_last_slash m.full_method_name ≡ some (class, name)
unfolding invoke_java_method call_command
invoke_java_method-named m args streams class name given ends h =
    by_split (split_last_slash m.full_method_name) refl h
  where
    by_which :
        (is_static : Bool) (which : WhichMethod) (c n : Bytes)
        → call_by is_static which c n m.descriptor args streams
          ≡ JavaCall.called class name given ends
        → ◌≡◌ {A = Bytes × Bytes} (c, n) (class, name)
    by_which is_static which c n k = ground (arith, k)

    by_split :
        (split : Option (Bytes × Bytes))
        → split_last_slash m.full_method_name ≡ split
        → call_on m args streams split ≡ JavaCall.called class name given ends
        → split_last_slash m.full_method_name ≡ some (class, name)
    by_split none e k = absurd cc
    by_split (some (c, n)) e k = e ∙ ap some (by_which m.is_static_method m.which_method c n k)

module _ (java : Java) (m : MethodDescriptor) (given : List Bytes) (streams : Streams) where
  -- What holds of an end and a call: where the exit code is 0, the call fits, and the thread was
  -- detached.
  abbrev pub IfZero : Exit × Called → Type 0
  IfZero (e, call) = e ≡ returns 0 → Fits java m given streams call × (java.detaches ≡ true)

  kind_call-IfZero :
      (which : WhichMethod) (class name : Bytes) (argv : Option (List Bytes))
      → m.which_method ≡ which
      → split_last_slash m.full_method_name ≡ some (class, name)
      → takes_streams m.which_method ≡ false
      → let call = kind_call java which class name argv in IfZero (after_plain java call, call)
  kind_call-IfZero WhichMethod.get_cmd_dispatch_info class name argv w s t h =
      let z = after_info-zero java java.raises h in (((w, s, z.0), z.1), z.2)
  kind_call-IfZero WhichMethod.main class name argv w s t h =
      let z = after_call-zero java java.raises h in ((w, s, z.0), z.1)
  kind_call-IfZero WhichMethod.supervisor_shutdown class name argv w s t h =
      let z = after_call-zero java java.raises h in ((w, s, z.0), z.1)
  kind_call-IfZero WhichMethod.child_notify class name argv w s t h =
      let z = after_call-zero java java.raises h in ((w, s, z.0), z.1)
  kind_call-IfZero WhichMethod.child_completion_notify class name argv w s t h =
      let z = after_call-zero java java.raises h in ((w, s, z.0), z.1)
  kind_call-IfZero WhichMethod.none class name argv w s t h =
      ((t, ap (λ k. kind_call java k [] [] none) w), (after_call-zero java false h).1)
  kind_call-IfZero WhichMethod.get_status class name argv w s t h =
      ((t, ap (λ k. kind_call java k [] [] none) w), (after_call-zero java false h).1)
  kind_call-IfZero WhichMethod.supervisor_do_cmd class name argv w s t h =
      ((t, ap (λ k. kind_call java k [] [] none) w), (after_call-zero java false h).1)
  kind_call-IfZero WhichMethod.child_do_cmd class name argv w s t h =
      ((t, ap (λ k. kind_call java k [] [] none) w), (after_call-zero java false h).1)
  kind_call-IfZero (WhichMethod.other z) class name argv w s t h =
      ((t, ap (λ k. kind_call java k [] [] none) w), (after_call-zero java false h).1)

  unless_thrown_by-IfZero :
      (r : Option JavaRead) (call : Called)
      → IfZero (after_plain java call, call)
      → IfZero (unless_thrown_by java r call)
  unless_thrown_by-IfZero none call h z = h z
  unless_thrown_by-IfZero (some r) call h z = ground (arith, z)

  invoke_plain-IfZero :
      (made : Bool) (argv : Option (List Bytes)) (split : Option (Bytes × Bytes))
      → split_last_slash m.full_method_name ≡ split
      → takes_streams m.which_method ≡ false
      → IfZero (invoke_plain java made m argv split)
  invoke_plain-IfZero made argv none s t z = ground (arith, z)
  invoke_plain-IfZero made argv (some (class, name)) s t z =
      unless_thrown_by-IfZero
        (first_null java.found 0
          (plain_reads (has_argv argv) (made || m.is_static_method) m.which_method class name))
        (kind_call java m.which_method class name argv)
        (kind_call-IfZero m.which_method class name argv refl s t) z

  invoke_streams-IfZero :
      (is_static : Bool) (call : JavaCall)
      → m.is_static_method ≡ is_static
      → takes_streams m.which_method ≡ true
      → IsOrFails call (invoke_java_method m given streams)
      → IfZero (invoke_streams java is_static call)
  invoke_streams-IfZero is_static (JavaCall.failed thrown) s t same z = ground (arith, z)
  invoke_streams-IfZero true (JavaCall.called class name args ends) s t same z =
      let r = after_call-zero java java.raises z in
      (
        (
          t,
          invoke_java_method-named m given streams class name args ends (sym same),
          sym same,
          λ _. r.0,
        ),
        r.1,
      )
  invoke_streams-IfZero false (JavaCall.called class name args ends) s t same z =
      let r = after_call-zero java false z in
      (
        (
          t,
          invoke_java_method-named m given streams class name args ends (sym same),
          sym same,
          λ h. ground (arith, s, h),
        ),
        r.1,
      )

-- Where `invoke_java_method` gives the exit code 0 it has made the call that the kind of the method
-- asks for, which raised no exception, the dispatch information that it asked for stands in shared
-- memory, and the thread is detached. A method with streams was called by the class and the name
-- of its full name, with the arguments behind the first word and the streams of its descriptor.
-- The exceptions are an instance method with streams, of which an exception is not told, and a
-- kind that is not known, which takes no streams and of which no call is made.
pub invoke_any-zero :
    (java : Java) (m : MethodDescriptor) (made : Bool) (argv : Option (List Bytes))
    (streams : Streams)
    → IfZero java m (drop 1 (words argv)) streams (invoke_any java made m argv streams)
unfolding invoke_any
invoke_any-zero java m made argv streams =
    let given = drop 1 (words argv) in
    elim (Bool-cases (takes_streams m.which_method)) [
      | inl takes ↦ rw takes (
          invoke_streams-IfZero java m given streams m.is_static_method
            (invoke_jni java.found (has_argv argv) made m given streams) refl takes
            (invoke_jni-refines java.found (has_argv argv) made m given streams).0)
      | inr takes ↦ rw takes (
          invoke_plain-IfZero java m given streams made argv (split_last_slash m.full_method_name)
            refl takes)
    ]

-- ===== src/Tests/Calls.antt =====
-- A Java program that is told of a child process.
use spartan_launcher.Prelude.{drop, ◌≡◌, ◌++◌, refl, ap, true, false, some, [], ◌∷◌, arith, codes}
use spartan_launcher.Stream.Numbers.{format_ℕ, value, digits}
use spartan_launcher.Text.{split_last_slash}
use spartan_launcher.Session.{WhichMethod, MethodDescriptor, SessionState, new_session}
use spartan_launcher.Pipes.{End}
use spartan_launcher.Supervisor.Invoke.{Streams}
use spartan_launcher.Supervisor.Messages.{notify_message, completion_message, supervisor_task}
use spartan_launcher.Supervisor.Kinds.{
  words, Java, Processing, invoke_any, returns, child_notify, completion_notify, after_call,
}
use spartan_launcher.Supervisor.Kinds.Ends.{Fits, invoke_any-zero}
use spartan_launcher.Supervisor.Kinds.Notified.{
  IsMethod, tell_java, invoke_any-plain, tell_java-notices,
}

abbrev java : Java
java = record {
  found = λ n. true;
  raises = false;
  detaches = true;
  processing = Processing.stored;
  strtol = value 0;
  progname = codes "app";
  level = 2;
}

abbrev forked_method : MethodDescriptor
forked_method = record {
  is_static_method = false;
  which_method = WhichMethod.child_notify;
  full_method_name = codes "a/Main/forked";
  descriptor = codes "(ILjava/lang/String;)V";
}

abbrev ended_method : MethodDescriptor
ended_method = record {
  is_static_method = false;
  which_method = WhichMethod.child_completion_notify;
  full_method_name = codes "a/Main/ended";
  descriptor = codes "(I)V";
}

abbrev told : SessionState
told = record new_session {
  spartan_child_notify_entry_point = forked_method;
  spartan_child_completion_notify_entry_point = ended_method;
}

forked_method-IsMethod :
    IsMethod forked_method WhichMethod.child_notify (codes "a/Main") (codes "forked")
unfolding split_last_slash
forked_method-IsMethod = record { kind = refl; split = refl }

ended_method-IsMethod :
    IsMethod ended_method WhichMethod.child_completion_notify (codes "a/Main") (codes "ended")
unfolding split_last_slash
ended_method-IsMethod = record { kind = refl; split = refl }

value-4001 : value 0 (format_ℕ 4001) ≡ 4001
unfolding value format_ℕ digits
value-4001 = refl

tell_java-notices_example :
    (tell_java java true (Streams.one (End.write_end 3)) told (
        supervisor_task told []
          (notify_message 4001 (codes "--EXTENDED_INVOKE=false" ++ b' ' ∷ codes "/tmp/x report")))
      ≡ some (
        after_call java java.raises,
        child_notify (codes "a/Main") (codes "forked") 4001 (codes "/tmp/x report"),
      ))
    × (tell_java java true
          (Streams.one (End.write_end 3))
          told
          (supervisor_task told [] (completion_message 4001))
        ≡ some
            (after_call java java.raises, completion_notify (codes "a/Main") (codes "ended") 4001))
tell_java-notices_example =
    tell_java-notices java true (Streams.one (End.write_end 3)) (λ n. refl) told [] 4001 b'-'
      (codes "-EXTENDED_INVOKE=false") (codes "/tmp/x report") (codes "a/Main") (codes "forked")
      (codes "a/Main") (codes "ended") (omega arith) refl refl forked_method-IsMethod
      ended_method-IsMethod value-4001 (omega arith)

succeeds :
    (invoke_any java true forked_method
      (some (format_ℕ 4001 ∷ codes "x" ∷ []))
      (Streams.one (End.write_end 3))).0
    ≡ returns 0
succeeds =
    ap (λ r. r.0)
      (invoke_any-plain java true (Streams.one (End.write_end 3)) (λ n. refl) forked_method
        WhichMethod.child_notify (codes "a/Main") (codes "forked") (format_ℕ 4001 ∷ codes "x" ∷ [])
        refl forked_method-IsMethod)

invoke_any-zero_example :
    Fits java forked_method
      (drop 1 (words (some (format_ℕ 4001 ∷ codes "x" ∷ []))))
      (Streams.one (End.write_end 3))
      (invoke_any java true forked_method
        (some (format_ℕ 4001 ∷ codes "x" ∷ []))
        (Streams.one (End.write_end 3))).1
    × (java.detaches ≡ true)
invoke_any-zero_example =
    invoke_any-zero java forked_method true (some (format_ℕ 4001 ∷ codes "x" ∷ []))
      (Streams.one (End.write_end 3)) succeeds

-- ===== src/Launcher/Teardown.antt =====
-- The frame of `supervisor` in src/main/cpp/spartan.cpp: the fork of the supervisor, the queue, the
-- exit code of the message loop, and the clean-up on every return, in both processes.
pub mod Shutdown
use spartan_launcher.Prelude.{
  ℕ, Bool, true, false, Option, none, some, List, [], ◌∷◌, ◌++◌, if◌then◌else◌, Bytes,
}
use spartan_launcher.Text.{jlauncher_queue_name, jsupervisor_queue_name}
use spartan_launcher.Launcher.Waiting.{
  WaitidRound, Waits, waitid_on_forked_children, teardown_completion,
}
use spartan_launcher.Supervisor.Opening.{Names, open_queue, try_attempts}

-- What `fork` gave: an error, the pid in the launcher, or that this is the supervisor.
pub data Forked : Type 0 where
  fork_failed : Forked
  in_launcher : ℕ → Forked
  in_supervisor : Forked

-- What the calls of a process give: the fork; whether the supervisor could be set up, which throws
-- otherwise, and whether its thread for the Java program was started; the state of the queue's name; the exit code of the message loop; the result of
-- sending the shutdown message; the count of children at the end, and what `waitid` tells then; and
-- the exit code of the Java program.
pub record Life : Type 0 where
  pub forked : Forked
  pub set_up : Bool
  pub thread_started : Bool
  pub names : Names
  pub loop_exit : ℕ
  pub send_result : ℕ
  pub child_process_count : ℕ
  pub waitid_rounds : List WaitidRound
  pub jvm_exit : ℕ

-- What the clean-up does, in order.
pub data Ending : Type 0 where
  sent_shutdown : Bytes → Ending
  waited : Waits ℕ → Ending
  unlinked : Bytes → Ending
  joined : Ending

-- What comes of it: the exit code that is returned, if not an exception; what the clean-up did; and
-- what `exit_code` holds behind it, which nothing reads.
pub record Left : Type 0 where
  pub exit_result : Option ℕ
  pub endings : List Ending
  pub exit_code : ℕ

abbrev pub if_returned : Waits ℕ → List Ending → List Ending
if_returned w endings = if w.returned then endings else []

-- `cleanup_supervisor_jvm_ctx`
abbrev pub cleanup : Bytes → Life → Forked → List Ending
cleanup progname r fork_failed = []
cleanup progname r (in_launcher pid) =
    let queue = jsupervisor_queue_name progname in
    let w =
      waitid_on_forked_children teardown_completion r.waitid_rounds r.child_process_count [] in
    sent_shutdown queue ∷ waited w ∷ if_returned w (unlinked queue ∷ [])
cleanup progname r in_supervisor = if r.thread_started then joined ∷ [] else []

abbrev pub code_behind : Life → ℕ → Forked → ℕ
code_behind r exit_code fork_failed = exit_code
code_behind r exit_code (in_launcher pid) = r.send_result
code_behind r exit_code in_supervisor = r.jvm_exit

-- A return, or an exception, is followed by the clean-up.
abbrev pub leave_supervisor : Bytes → Life → ℕ → Option ℕ → Left
leave_supervisor progname r exit_code result = record {
  exit_result = result;
  endings = cleanup progname r r.forked;
  exit_code = code_behind r exit_code r.forked;
}

abbrev pub with_queue : Bytes → Life → Bool → Left
with_queue progname r true = leave_supervisor progname r r.loop_exit (some r.loop_exit)
with_queue progname r false = leave_supervisor progname r 0 (some 1)

-- The queue is the process's own; either name is opened in the same way.
abbrev pub run_queue : Bytes → Life → Left
run_queue progname r = with_queue progname r (open_queue try_attempts r.names).0

abbrev pub forked_to : Bytes → Life → Forked → Left
forked_to progname r fork_failed = leave_supervisor progname r 0 (some 1)
forked_to progname r (in_launcher pid) = run_queue progname r
forked_to progname r in_supervisor =
    if r.set_up then run_queue progname r else leave_supervisor progname r 0 none

-- `supervisor`
unfoldable pub supervisor : Bytes → Life → Left
supervisor progname r = forked_to progname r r.forked

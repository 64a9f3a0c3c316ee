-- ===== src/Tests/Queues.antt =====
-- Interleavings of the launcher's threads, and messages for its loop.
use spartan_launcher.Prelude.{
  All, some, ◌≡◌, ◌≤◌, ◌++◌, ◌+◌, refl, true, false, List, [], ◌∷◌, map, arith, codes, length,
  same_text,
}
use spartan_launcher.Launcher.{Launcher, new_launcher, Fork, Event, run}
use spartan_launcher.Launcher.Queue.{stops, run_running, run_accepted}
use spartan_launcher.Launcher.Groups.{Grouped, run-AreGrouped}
use spartan_launcher.Launcher.Waiting.{
  ChildStatus, Waitid, si_pid, waitid_on_forked_children, launcher_completion,
}
use spartan_launcher.Launcher.Waiting.Counts.{
  less, round_of, statuses, waitid_on_forked_children-statuses,
}
use spartan_launcher.Launcher.Teardown.{Forked, Life, supervisor}
use spartan_launcher.Launcher.Teardown.Shutdown.{all_ended, supervisor-all_ended}
use spartan_launcher.Launcher.Loop.{
  Loop, stop_cmd, message_loop, pass, locked_out, en_queues, result, message_loop-result,
}

abbrev events : List Event
events =
    Event.message (codes "a b one")
    ∷ Event.message (codes "a b two")
    ∷ Event.de_queue
    ∷ Event.handle (Fork.forked 4001)
    ∷ Event.handle Fork.fork_failed
    ∷ Event.child_stopped true
    ∷ Event.child_ended true
    ∷ []

run_running_example : (run 3 events new_launcher).running ≤ 3 + stops events
run_running_example = run_running 3 events (omega arith)

run_accepted_example :
    (run 3 events new_launcher).accepted
    ≡ (run 3 events new_launcher).handled
      ++ ((run 3 events new_launcher).taken ++ (run 3 events new_launcher).dispatch_msg_queue)
run_accepted_example = run_accepted 3 events (omega arith)

abbrev waiting : Launcher
waiting = record new_launcher { dispatch_msg_queue = codes "a b one" ∷ [] }

abbrev loop : Loop
loop = record {
  buffer = codes "a b one\0";
  launcher = new_launcher;
  loop_continue = true;
  exit_code = 0;
}

message_loop-result_example :
    result (
        message_loop (map pass (codes "a b one" ∷ codes "a b two" ∷ []) ++ pass stop_cmd ∷ []) loop)
      ≡ (en_queues (codes "a b one" ∷ codes "a b two" ∷ []) new_launcher, false, 0)
    × (result (
          message_loop
            (map pass (codes "a b one" ∷ codes "a b two" ∷ []) ++ locked_out (codes "c d x") ∷ [])
            loop)
        ≡ (en_queues (codes "a b one" ∷ codes "a b two" ∷ []) new_launcher, false, 1))
unfolding same_text
message_loop-result_example =
    message_loop-result (codes "a b one" ∷ codes "a b two" ∷ []) (codes "c d x") [] loop
      ((omega arith, refl), ((omega arith, refl), tt)) (omega arith, refl)

run-AreGrouped_example :
    All (Grouped (run 3 events new_launcher).prcs_grps) (run 3 events new_launcher).children
run-AreGrouped_example = run-AreGrouped 3 events new_launcher tt

-- A child that stops, and exits later.
abbrev stop_and_exit : List ChildStatus
stop_and_exit = ChildStatus.stopped 4001 ∷ ChildStatus.exited 4001 ∷ []

waitid-statuses_example :
    let w =
      waitid_on_forked_children
        (launcher_completion 3)
        (statuses false stop_and_exit)
        new_launcher
        [] in
    (w.state.child_process_count ≡ less new_launcher.child_process_count (length stop_and_exit))
    × (w.notified ≡ [] ++ map si_pid stop_and_exit)
    × (w.returned ≡ false)
waitid-statuses_example = waitid_on_forked_children-statuses 3 stop_and_exit new_launcher []

abbrev life : Life
life = record {
  forked = Forked.in_launcher 4000;
  set_up = true;
  thread_started = false;
  names = record { exists = true; may_open = true };
  loop_exit = 0;
  send_result = 0;
  child_process_count = 2;
  waitid_rounds = statuses true stop_and_exit ++ round_of true Waitid.no_children ∷ [];
  jvm_exit = 0;
}

supervisor-all_ended_example :
    ((supervisor (codes "app") life).endings ≡ all_ended (codes "app") 2 stop_and_exit)
    × ((supervisor (codes "app") life).exit_result ≡ some 0)
supervisor-all_ended_example =
    supervisor-all_ended (codes "app") life 4000 stop_and_exit [] refl refl (omega arith)

-- ===== src/Launcher/Teardown/Shutdown.antt =====
-- How the launcher ends.
use spartan_launcher.Prelude.{
  ℕ, ◌-◌, ◌≤◌, ◌≡◌, refl, ap, ◌∙◌, sym, subst, Bool, true, false, some, List, [], ◌∷◌, ◌++◌,
  if◌then◌else◌, Bytes, length,
}
use spartan_launcher.Text.{jsupervisor_queue_name}
use spartan_launcher.Launcher.Waiting.{
  ChildStatus, Waitid, WaitidRound, Waits, waitid_on_forked_children, teardown_completion,
}
use spartan_launcher.Launcher.Waiting.Counts.{
  statuses, round_of, waitid_on_forked_children-teardown,
}
use spartan_launcher.Supervisor.Opening.{Names, open_queue_enough}
use spartan_launcher.Launcher.Teardown.{
  in_launcher, Life, Ending, sent_shutdown, waited, unlinked, if_returned, Left, cleanup,
  with_queue, forked_to, supervisor,
}

-- What the launcher's clean-up does when all of its children end.
abbrev pub all_ended : Bytes → ℕ → List ChildStatus → List Ending
all_ended progname count ss =
    sent_shutdown (jsupervisor_queue_name progname)
    ∷ waited (record { state = count - length ss; notified = []; returned = true })
    ∷ unlinked (jsupervisor_queue_name progname)
    ∷ []

cleanup_all :
    (progname : Bytes) (r : Life) (pid : ℕ) (ss : List ChildStatus) (rounds : List WaitidRound)
    → r.waitid_rounds ≡ statuses true ss ++ round_of true Waitid.no_children ∷ rounds
    → length ss ≤ r.child_process_count
    → cleanup progname r (in_launcher pid) ≡ all_ended progname r.child_process_count ss
cleanup_all progname r pid ss rounds e h =
    let q = jsupervisor_queue_name progname in
    ap (λ (w : Waits ℕ). sent_shutdown q ∷ waited w ∷ if_returned w (unlinked q ∷ []))
      (ap (λ rs. waitid_on_forked_children teardown_completion rs r.child_process_count []) e
        ∙ waitid_on_forked_children-teardown ss r.child_process_count [] rounds h)

-- Where the launcher has forked the supervisor, and at its end `waitid` tells no more statuses than
-- children are counted and then that none is left, with no signal that interrupts it, the launcher
-- leaves `supervisor` with these steps: it has sent the supervisor the shutdown message, then
-- waited until no child was left, and then removed the supervisor's queue, whether its own queue
-- could be opened or not. The exit code is that of the message loop, or of a failure where the
-- launcher's queue could not be opened.
pub supervisor-all_ended :
    (progname : Bytes) (r : Life) (pid : ℕ) (ss : List ChildStatus) (rounds : List WaitidRound)
    → r.forked ≡ in_launcher pid
    → r.waitid_rounds ≡ statuses true ss ++ round_of true Waitid.no_children ∷ rounds
    → length ss ≤ r.child_process_count
    → ((supervisor progname r).endings ≡ all_ended progname r.child_process_count ss)
      × ((supervisor progname r).exit_result ≡ some (if r.names.may_open then r.loop_exit else 1))
unfolding supervisor
supervisor-all_ended progname r pid ss rounds f e h =
    let run : supervisor progname r ≡ with_queue progname r r.names.may_open =
      ap (forked_to progname r) f
      ∙ ap (λ (o : Bool × Names). with_queue progname r o.0) (open_queue_enough r.names) in
    subst
      (λ (l : Left).
        (l.endings ≡ all_ended progname r.child_process_count ss)
        × (l.exit_result ≡ some (if r.names.may_open then r.loop_exit else 1)))
      (sym run) (left r.names.may_open)
  where
    left :
        (may_open : Bool)
        → ((with_queue progname r may_open).endings ≡ all_ended progname r.child_process_count ss)
          × ((with_queue progname r may_open).exit_result
              ≡ some (if may_open then r.loop_exit else 1))
    left true = (ap (cleanup progname r) f ∙ cleanup_all progname r pid ss rounds e h, refl)
    left false = (ap (cleanup progname r) f ∙ cleanup_all progname r pid ss rounds e h, refl)

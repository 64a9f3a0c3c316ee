-- ===== src/Launcher/Waiting.antt =====
-- Waiting for child processes: `waitid_on_forked_children` of `supervisor` in
-- src/main/cpp/spartan.cpp, in the launcher's thread and in the teardown of the launcher.
pub mod Counts
use spartan_launcher.Prelude.{
  ℕ, zero, suc, Bool, true, false, not, ◌||◌, List, [], ◌∷◌, ◌++◌, leb, if◌then◌else◌,
}
use spartan_launcher.Launcher.{Launcher, child_process_completion}

-- What `waitid` tells of a child: that it exited, or that it stopped and may go on.
pub data ChildStatus : Type 0 where
  exited stopped : ℕ → ChildStatus

-- What a call of it gives: a status, `EINTR`, `ECHILD`, or another error.
pub data Waitid : Type 0 where
  status : ChildStatus → Waitid
  eintr no_children other_error : Waitid

abbrev pub si_pid : ChildStatus → ℕ
si_pid (exited pid) = pid
si_pid (stopped pid) = pid

-- A round of the loop: the call, the flags as the round reads them, and whether the completion
-- procedure gets the lock.
pub record WaitidRound : Type 0 where
  pub waitid : Waitid
  pub flag : Bool
  pub jvm_shutting_down : Bool
  pub shutting_down : Bool
  pub locked : Bool

-- Where the loop has come to: the state of the completion procedure, the children of which the
-- supervisor was told, and whether the loop has returned; else it waits.
pub record Waits (S : Type 0) : Type 0 where
  pub state : S
  pub notified : List ℕ
  pub returned : Bool

module _ {S : Type 0} (completion : WaitidRound → S → Bool × S) where
  -- Nothing is sent once the supervisor shuts down, or a signal to end came.
  abbrev notify : Bool → ℕ → List ℕ → List ℕ
  notify true pid notified = notified
  notify false pid notified = notified ++ pid ∷ []

  -- A status, by what the completion procedure gives.
  abbrev pub after_status : (S → List ℕ → Waits S) → List ℕ → Bool × S → Waits S
  after_status rest notified (true, state) = record {
    state = state;
    notified = notified;
    returned = true;
  }
  after_status rest notified (false, state) = rest state notified

  abbrev pub after_waitid : WaitidRound → (S → List ℕ → Waits S) → S → List ℕ → Waitid → Waits S
  after_waitid r rest state notified (status s) =
      after_status rest (notify (r.jvm_shutting_down || r.flag) (si_pid s) notified)
        (completion r state)
  after_waitid r rest state notified eintr = record {
    state = state;
    notified = notified;
    returned = true;
  }
  after_waitid r rest state notified no_children =
      if r.flag
      then record { state = state; notified = notified; returned = true }
      else rest state notified
  after_waitid r rest state notified other_error = rest state notified

  unfoldable pub waitid_on_forked_children : List WaitidRound → S → List ℕ → Waits S
  waitid_on_forked_children [] state notified = record {
    state = state;
    notified = notified;
    returned = false;
  }
  waitid_on_forked_children (r ∷ rounds) state notified =
      after_waitid r (waitid_on_forked_children rounds) state notified r.waitid

-- The completion procedure of the launcher's thread.
abbrev pub launcher_completion : ℕ → WaitidRound → Launcher → Bool × Launcher
launcher_completion child_process_max_count r l =
    (r.shutting_down, child_process_completion child_process_max_count r.locked l)

-- That of the teardown, over the count of children; what is left of a count of 0 is not read. A
-- count below 0 does what 0 does, and stands for it here.
abbrev pub teardown_completion : WaitidRound → ℕ → Bool × ℕ
teardown_completion r zero = (true, zero)
teardown_completion r (suc child_process_count) = (false, child_process_count)

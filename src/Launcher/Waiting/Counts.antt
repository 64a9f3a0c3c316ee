-- ===== src/Launcher/Waiting/Counts.antt =====
-- What the statuses of children do to the count, and when the waiting ends.
use spartan_launcher.Prelude.{
  ℕ, zero, suc, ◌+◌, ◌-◌, ◌≤◌, ◌≡◌, refl, sym, ap, ◌∙◌, Bool, true, false, List, [], ◌∷◌, ◌++◌,
  append_assoc, append-nil, map, length, arith, ℤ, pos, negsuc, leb, if◌then◌else◌,
}
use spartan_launcher.Launcher.{Launcher, child_process_completion, decremented}
use spartan_launcher.Launcher.Waiting.{
  ChildStatus, Waitid, WaitidRound, Waits, si_pid, waitid_on_forked_children, launcher_completion,
  teardown_completion,
}

-- A round of a status, or of no child, in a launcher that is not, or is, being torn down.
abbrev pub round_of : Bool → Waitid → WaitidRound
round_of ending w = record {
  waitid = w;
  flag = ending;
  jvm_shutting_down = false;
  shutting_down = false;
  locked = true;
}

abbrev pub statuses : Bool → List ChildStatus → List WaitidRound
statuses ending ss = map (λ s. round_of ending (Waitid.status s)) ss

-- The difference of an integer and a number.
abbrev pub less : ℤ → ℕ → ℤ
less (pos c) n = if leb n c then pos (c - n) else negsuc (n - c - 1)
less (negsuc c) n = negsuc (c + n)

less-suc : (c : ℤ) (n : ℕ) → less (decremented c) n ≡ less c (suc n)
less-suc (pos zero) n = ground arith
less-suc (pos (suc c)) n = ground arith
less-suc (negsuc c) n = ap negsuc (omega arith)

less_zero : (c : ℤ) → c ≡ less c 0
less_zero (pos c) = ground arith
less_zero (negsuc c) = ap negsuc (omega arith)

-- While no signal to end has come, nothing shuts down, and the lock is obtained, the statuses that
-- `waitid` tells lower the count, one each and below zero too, be they of children that exited or
-- that only stopped; the supervisor is told of each as if it had ended; and the thread goes on to
-- wait.
pub waitid_on_forked_children-statuses :
    (max : ℕ) (ss : List ChildStatus) (l : Launcher) (notified : List ℕ)
    → let w = waitid_on_forked_children (launcher_completion max) (statuses false ss) l notified in
      (w.state.child_process_count ≡ less l.child_process_count (length ss))
      × (w.notified ≡ notified ++ map si_pid ss)
      × (w.returned ≡ false)
unfolding waitid_on_forked_children child_process_completion
waitid_on_forked_children-statuses max [] l notified =
    (less_zero l.child_process_count, sym (append-nil notified), refl)
waitid_on_forked_children-statuses max (s ∷ ss) l notified =
    let h =
      waitid_on_forked_children-statuses max ss (child_process_completion max true l)
        (notified ++ si_pid s ∷ []) in
    (
      h.0 ∙ less-suc l.child_process_count (length ss),
      h.1 ∙ append_assoc notified (si_pid s ∷ []) (map si_pid ss),
      h.2,
    )

abbrev at_end : ℕ → List ℕ → Waits ℕ
at_end count notified = record { state = count; notified = notified; returned = true }

-- The teardown waits for as many children as are counted: where these are all, it returns when
-- `waitid` finds no more. The supervisor is told of none of them.
pub waitid_on_forked_children-teardown :
    (ss : List ChildStatus) (count : ℕ) (notified : List ℕ) (rounds : List WaitidRound)
    → length ss ≤ count
    → waitid_on_forked_children teardown_completion
        (statuses true ss ++ round_of true Waitid.no_children ∷ rounds)
        count
        notified
      ≡ record { state = count - length ss; notified = notified; returned = true }
unfolding waitid_on_forked_children
waitid_on_forked_children-teardown [] count notified rounds h =
    ap (λ c. at_end c notified) (omega arith)
waitid_on_forked_children-teardown (s ∷ ss) zero notified rounds h = absurd (omega arith)
waitid_on_forked_children-teardown (s ∷ ss) (suc count) notified rounds h =
    waitid_on_forked_children-teardown ss count notified rounds (omega arith)
    ∙ ap (λ c. at_end c notified) (omega arith)

-- Where more children end than are counted, the teardown returns at the one behind the count, and
-- does not wait for those that follow.
pub waitid_on_forked_children-left :
    (ss : List ChildStatus) (count : ℕ) (s : ChildStatus) (notified : List ℕ)
    (rounds : List WaitidRound)
    → length ss ≡ count
    → waitid_on_forked_children teardown_completion
        (statuses true ss ++ round_of true (Waitid.status s) ∷ rounds)
        count
        notified
      ≡ record { state = 0; notified = notified; returned = true }
unfolding waitid_on_forked_children
waitid_on_forked_children-left [] zero s notified rounds h = refl
waitid_on_forked_children-left [] (suc count) s notified rounds h = absurd (omega arith)
waitid_on_forked_children-left (t ∷ ss) zero s notified rounds h = absurd (omega arith)
waitid_on_forked_children-left (t ∷ ss) (suc count) s notified rounds h =
    waitid_on_forked_children-left ss count s notified rounds (omega arith)

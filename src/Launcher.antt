-- ===== src/Launcher.antt =====
-- The work queue of the launcher process: `supervisor` of src/main/cpp/spartan.cpp. The message
-- loop puts messages into the queue, one thread takes them out to fork child processes, and
-- another waits for the children to end. Each holds the lock for one step, or fails to get it; the
-- steps are interleaved in any order, as a list of events.
pub mod Queue
pub mod Groups
pub mod Loop
pub mod Waiting
pub mod Teardown
use spartan_launcher.Prelude.{
  ℕ, zero, suc, ◌+◌, ◌-◌, Bool, true, false, not, ◌&&◌, Option, none, some, List, [], ◌∷◌, ◌++◌,
  ◌==◌, ltb, if◌then◌else◌, Bytes, codes, is_empty, iequal, length, take, drop, same_text, ℤ, pos,
  negsuc, leb,
}
use spartan_launcher.Session.{MethodDescriptor, MethodDescriptorCmd, SessionState}
use spartan_launcher.Text.{strtok}

-- The variables of the work queue. `taken` are the messages that the thread took out and has not
-- handled; `running` counts the processes that were forked and have not ended, with the
-- supervisor's own; `accepted`, `handled` and `childless` tell of the past: the messages put in,
-- those handled, how many of these got no child, of the children the command, the pid and the
-- process group given to `setpgid`, and the calls of `supervisor_child_processor_notify`.
-- `terminated` tells that an exception left the thread, which ends the program.
pub record Launcher : Type 0 where
  pub dispatch_msg_queue : List Bytes
  pub qready : Bool
  pub child_process_count : ℤ
  pub taken : List Bytes
  pub prcs_grps : List (Bytes × ℕ)
  pub running : ℕ
  pub accepted : List Bytes
  pub handled : List Bytes
  pub childless : ℕ
  pub children : List (Bytes × ℕ × ℕ)
  pub notified : List (ℕ × Bytes)
  pub terminated : Bool

abbrev pub new_launcher : Launcher
new_launcher = record {
  dispatch_msg_queue = [];
  qready = false;
  child_process_count = pos 1;
  taken = [];
  prcs_grps = [];
  running = 1;
  accepted = [];
  handled = [];
  childless = 0;
  children = [];
  notified = [];
  terminated = false;
}

-- What comes of a message that is handled: a child with its pid, no child, or no try as the
-- program shuts down.
pub data Fork : Type 0 where
  forked : ℕ → Fork
  fork_failed shutting_down : Fork

-- A step of a thread: a message comes in, messages are taken out, one is handled, or `waitid` tells
-- that a child ended, or that one stopped, and the lock is obtained or not.
pub data Event : Type 0 where
  message : Bytes → Event
  de_queue : Event
  handle : Fork → Event
  child_ended child_stopped : Bool → Event

-- `en_queue_dispatch_msg`, when it gets the lock.
unfoldable pub en_queue : Bytes → Launcher → Launcher
en_queue msg l = record l {
  dispatch_msg_queue = l.dispatch_msg_queue ++ msg ∷ [];
  qready = true;
  accepted = l.accepted ++ msg ∷ [];
}

-- The headroom up to the bound, which the thread waits for: where the difference is not positive
-- nothing is taken, so 0 stands for it.
abbrev pub headroom : ℕ → ℤ → ℕ
headroom max (pos count) = max - count
headroom max (negsuc count) = max + suc count

-- The sum and the difference that the atomic count holds.
abbrev pub plus : ℤ → ℕ → ℤ
plus (pos count) n = pos (count + n)
plus (negsuc count) n = if leb (suc count) n then pos (n - suc count) else negsuc (count - n)

abbrev pub decremented : ℤ → ℤ
decremented (pos zero) = negsuc 0
decremented (pos (suc count)) = pos count
decremented (negsuc count) = negsuc (suc count)

abbrev pub below : ℤ → ℕ → Bool
below (pos count) max = ltb count max
below (negsuc count) max = true

-- How many messages a round takes.
unfoldable pub de_queue_count : ℕ → Launcher → ℕ
de_queue_count child_process_max_count l =
    let count_headroom = headroom child_process_max_count l.child_process_count in
    let queue_count = length l.dispatch_msg_queue in
    if ltb count_headroom queue_count then count_headroom else queue_count

-- A round of the thread under the lock; it starts when the last round's messages are handled.
unfoldable pub take_batch : ℕ → Launcher → Launcher
take_batch child_process_max_count l =
    let n = de_queue_count child_process_max_count l in
    if is_empty l.taken
    then record l {
      qready = false;
      taken = take n l.dispatch_msg_queue;
      dispatch_msg_queue = drop n l.dispatch_msg_queue;
      child_process_count = plus l.child_process_count n;
    }
    else l

-- The command of a message: its third word, without quotes.
abbrev pub third : Option (Bytes × Bytes) → Option (Bytes × Bytes)
third none = none
third (some (_, rest)) = strtok b' ' rest

abbrev pub remove_quotes : Bytes → Bytes
remove_quotes [] = []
remove_quotes (c ∷ s) = let rest = remove_quotes s in if c == b'"' then rest else c ∷ rest

abbrev pub word_of : Option (Bytes × Bytes) → Option Bytes
word_of none = none
word_of (some (word, _)) = some (remove_quotes word)

-- `none` where a string is made of a null pointer.
unfoldable pub command_of : Bytes → Option Bytes
command_of msg = word_of (third (third (strtok b' ' msg)))

abbrev pub find_group : Bytes → List (Bytes × ℕ) → Option ℕ
find_group cmd [] = none
find_group cmd ((c, pgid) ∷ groups) =
    let rest = find_group cmd groups in if same_text c cmd then some pgid else rest

-- The group of a new child: that of its command, or its own.
abbrev pub group_or : ℕ → Option ℕ → ℕ
group_or pid none = pid
group_or pid (some pgid) = pgid

abbrev pub add_group : Bytes → ℕ → Option ℕ → List (Bytes × ℕ) → List (Bytes × ℕ)
add_group cmd pid none groups = (cmd, pid) ∷ groups
add_group cmd pid (some pgid) groups = groups

-- A message that is handled without a child.
abbrev pub no_child : Bytes → List Bytes → Launcher → Launcher
no_child msg rest l = record l {
  taken = rest;
  handled = l.handled ++ msg ∷ [];
  childless = l.childless + 1;
}

-- `handle_launcher_msg` of the first message taken, by its command, and the loop around it.
unfoldable pub handle_msg : Fork → Bytes → List Bytes → Option Bytes → Launcher → Launcher
handle_msg shutting_down msg rest cmd l = no_child msg rest l
handle_msg fork_failed msg rest none l = record l { terminated = true }
handle_msg fork_failed msg rest (some cmd) l = no_child msg rest l
handle_msg (forked pid) msg rest none l = record l { terminated = true }
handle_msg (forked pid) msg rest (some cmd) l =
    let group = find_group cmd l.prcs_grps in
    record l {
      taken = rest;
      handled = l.handled ++ msg ∷ [];
      running = l.running + 1;
      children = l.children ++ (cmd, pid, group_or pid group) ∷ [];
      notified = l.notified ++ (pid, msg) ∷ [];
      prcs_grps = add_group cmd pid group l.prcs_grps;
    }

abbrev pub handle_next : Fork → List Bytes → Launcher → Launcher
handle_next fork [] l = l
handle_next fork (msg ∷ rest) l = handle_msg fork msg rest (command_of msg) l

-- `child_process_completion`, with or without the lock. It does not know what `waitid` told.
unfoldable pub child_process_completion : ℕ → Bool → Launcher → Launcher
child_process_completion child_process_max_count locked l = record l {
  qready =
      if locked
        && (below l.child_process_count child_process_max_count
            && not (is_empty l.dispatch_msg_queue))
      then true
      else l.qready;
  child_process_count = decremented l.child_process_count;
}

-- A child can end or stop only where one runs. One that stopped is still there.
unfoldable pub live_step : ℕ → Event → Launcher → Launcher
live_step max (message msg) l = en_queue msg l
live_step max de_queue l = take_batch max l
live_step max (handle fork) l = handle_next fork l.taken l
live_step max (child_ended locked) l =
    if ltb 0 l.running
    then record (child_process_completion max locked l) { running = l.running - 1 }
    else l
live_step max (child_stopped locked) l =
    if ltb 0 l.running then child_process_completion max locked l else l

unfoldable pub step : ℕ → Event → Launcher → Launcher
step max e l = if l.terminated then l else live_step max e l

unfoldable pub run : ℕ → List Event → Launcher → Launcher
run max [] l = l
run max (e ∷ events) l = run max events (step max e l)

-- The Java method of a command: the first annotated one of that name, in any case, or the default.
abbrev pub find_method : Bytes → List MethodDescriptorCmd → MethodDescriptor → MethodDescriptor
find_method cmd [] default = default
find_method cmd (m ∷ methods) default =
    let rest = find_method cmd methods default in if iequal m.command cmd then m.base else rest

abbrev pub listed : Option (List MethodDescriptorCmd) → List MethodDescriptorCmd
listed none = []
listed (some methods) = methods

unfoldable pub child_method : SessionState → Bytes → MethodDescriptor
child_method ss cmd =
    find_method cmd (listed ss.sp_spartan_child_processor_commands)
      ss.spartan_child_processor_entry_point

unfoldable pub supervisor_method : SessionState → Bytes → MethodDescriptor
supervisor_method ss cmd =
    find_method cmd (listed ss.sp_spartan_supervisor_commands) ss.spartan_supervisor_entry_point

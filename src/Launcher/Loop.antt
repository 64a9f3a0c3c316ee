-- ===== src/Launcher/Loop.antt =====
-- The message loop of the launcher process, at the end of `supervisor` in src/main/cpp/spartan.cpp.
use spartan_launcher.Prelude.{
  ℕ, suc, ◌≡◌, refl, ap, ◌∙◌, Bool, true, false, not, ◌&&◌, List, [], ◌∷◌, ◌++◌, map, if◌then◌else◌,
  Bytes, codes, length, drop, same_text, All, arith,
}
use spartan_launcher.Text.{field}
use spartan_launcher.Launcher.{Launcher, en_queue}

-- What `mq_timedreceive` gives.
pub data Received : Type 0 where
  timed_out failed : Received
  received : Bytes → Received

-- The variables of the loop: the buffer as it is in memory, the work queue, and the results.
pub record Loop : Type 0 where
  pub buffer : Bytes
  pub launcher : Launcher
  pub loop_continue : Bool
  pub exit_code : ℕ

-- One pass: what is received, whether a signal to terminate came, and whether the lock of the work
-- queue is free.
pub record Pass : Type 0 where
  pub what : Received
  pub flag : Bool
  pub lock_free : Bool

abbrev pub stop_cmd : Bytes
stop_cmd = codes "--STOP"

-- `msg_dispatch_for_launcher`, with the results put where the loop keeps them.
unfoldable pub msg_dispatch : Bool → Bytes → Loop → Loop
msg_dispatch lock_free msg s =
    if same_text msg stop_cmd
    then record s { loop_continue = false; exit_code = 0 }
    else if lock_free
    then record s { launcher = en_queue msg s.launcher; loop_continue = true; exit_code = 0 }
    else record s { loop_continue = false; exit_code = 1 }

-- A message goes over the front of the buffer.
abbrev pub overlay : Bytes → Bytes → Bytes
overlay msg buffer = msg ++ drop (length msg) buffer

-- The text of the buffer, when no size bounds it: the bytes before a NUL.
abbrev pub text_of : Bytes → Bytes
text_of buffer = (field 0 buffer).0

-- The body of the loop. An error sets the results, and goes on to the dispatch with the size -1.
unfoldable pub receive : Pass → Received → Loop → Loop
receive p timed_out s = if p.flag then record s { loop_continue = false } else s
receive p failed s =
    msg_dispatch p.lock_free (text_of s.buffer) (record s { loop_continue = false; exit_code = 1 })
receive p (received []) s = if not p.flag then s else msg_dispatch p.lock_free [] s
receive p (received (c ∷ msg)) s =
    msg_dispatch p.lock_free (c ∷ msg) (record s { buffer = overlay (c ∷ msg) s.buffer })

-- The loop, as long as there is something to receive.
unfoldable pub message_loop : List Pass → Loop → Loop
message_loop [] s = s
message_loop (p ∷ passes) s =
    let next = receive p p.what s in
    let rest = message_loop passes next in if next.loop_continue && not p.flag then rest else next

-- A pass that receives a message, with no signal to terminate, and gets the lock.
abbrev pub pass : Bytes → Pass
pass msg = record { what = received msg; flag = false; lock_free = true }

-- The messages are put into the work queue one after the other.
pub en_queues : List Bytes → Launcher → Launcher
en_queues [] l = l
en_queues (msg ∷ msgs) l = en_queues msgs (en_queue msg l)

-- A message that is not empty and not the one to stop.
abbrev pub IsWork : Bytes → Type 0
IsWork msg = (length msg ≡ suc (length (drop 1 msg))) × (same_text msg stop_cmd ≡ false)

abbrev pub result : Loop → Launcher × Bool × ℕ
result s = (s.launcher, s.loop_continue, s.exit_code)

message_loop_work :
    (c : ℕ) (msg : Bytes) (passes : List Pass) (s : Loop)
    → same_text (c ∷ msg) stop_cmd ≡ false
    → message_loop (pass (c ∷ msg) ∷ passes) s
      ≡ message_loop passes (record s {
        buffer = overlay (c ∷ msg) s.buffer;
        launcher = en_queue (c ∷ msg) s.launcher;
        loop_continue = true;
        exit_code = 0;
      })
unfolding message_loop receive msg_dispatch
message_loop_work c msg passes s h = rw (message_loop, receive, msg_dispatch, h) refl

message_loop_stop :
    (passes : List Pass) (s : Loop)
    → result (message_loop (pass stop_cmd ∷ passes) s) ≡ (s.launcher, false, 0)
unfolding message_loop receive msg_dispatch same_text
message_loop_stop passes s = refl

-- A pass of which the lock is not obtained within its time.
abbrev pub locked_out : Bytes → Pass
locked_out msg = record (pass msg) { lock_free = false }

message_loop_lost :
    (msg : Bytes) (passes : List Pass) (s : Loop)
    → IsWork msg
    → result (message_loop (locked_out msg ∷ passes) s) ≡ (s.launcher, false, 1)
unfolding message_loop receive msg_dispatch
message_loop_lost [] passes s h = absurd (ground (arith, h.0))
message_loop_lost (c ∷ msg) passes s h = rw (message_loop, receive, msg_dispatch, h.1) refl

-- The messages go into the work queue up to a pass that ends the loop.
message_loop_up_to :
    (code : ℕ) (last : Pass) (msgs : List Bytes) (passes : List Pass) (s : Loop)
    → ((t : Loop) → result (message_loop (last ∷ passes) t) ≡ (t.launcher, false, code))
    → All IsWork msgs
    → result (message_loop (map pass msgs ++ last ∷ passes) s)
      ≡ (en_queues msgs s.launcher, false, code)
unfolding en_queues
message_loop_up_to code last [] passes s ends h = ends s
message_loop_up_to code last ([] ∷ msgs) passes s ends h = absurd (ground (arith, h.0.0))
message_loop_up_to code last ((c ∷ msg) ∷ msgs) passes s ends h =
    ap result (message_loop_work c msg (map pass msgs ++ last ∷ passes) s h.0.1)
    ∙ message_loop_up_to code last msgs passes _ ends h.1

-- Messages that are not empty and do not say to stop, each received with no time-out and no signal
-- to terminate, and with the lock of the work queue obtained in its time, go into the work queue in
-- their order. Behind them, the one that says to stop ends the loop with success; and one for
-- which the lock is not obtained ends it with a failure, and is lost. Nothing is received behind
-- either.
pub message_loop-result :
    (msgs : List Bytes) (msg : Bytes) (passes : List Pass) (s : Loop)
    → All IsWork msgs
    → IsWork msg
    → (result (message_loop (map pass msgs ++ pass stop_cmd ∷ passes) s)
        ≡ (en_queues msgs s.launcher, false, 0))
      × (result (message_loop (map pass msgs ++ locked_out msg ∷ passes) s)
          ≡ (en_queues msgs s.launcher, false, 1))
message_loop-result msgs msg passes s h k = (
  message_loop_up_to 0 (pass stop_cmd) msgs passes s (message_loop_stop passes) h,
  message_loop_up_to 1 (locked_out msg) msgs passes s (λ t. message_loop_lost msg passes t k) h,
)

-- An error of the queue does not end the loop: what the buffer holds is taken as a message again,
-- and the failure is overwritten, if the buffer does not say to stop and the lock is free.
pub receive_failed :
    (s : Loop) (p : Pass)
    → same_text (text_of s.buffer) stop_cmd ≡ false
    → p.lock_free ≡ true
    → result (receive p failed s) ≡ (en_queue (text_of s.buffer) s.launcher, true, 0)
unfolding receive msg_dispatch
receive_failed s p h k = rw (receive, msg_dispatch, h, k) refl

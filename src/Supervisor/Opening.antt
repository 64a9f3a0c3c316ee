-- ===== src/Supervisor/Opening.antt =====
-- The queue of the launcher or of the supervisor, as `supervisor` of src/main/cpp/spartan.cpp opens
-- it. The name may be there already, left by a program that ended; then it is taken away.
use spartan_launcher.Prelude.{ℕ, zero, suc, ◌≡◌, Bool, true, false, ltb, if◌then◌else◌, arith}

-- The system: whether the name is there, and whether a queue could be opened if it were not.
pub record Names : Type 0 where
  pub exists : Bool
  pub may_open : Bool

-- The exclusive open: a queue, or an error.
abbrev pub mq_open_ex : Names → Bool
mq_open_ex n = if n.exists then false else n.may_open

-- An attempt that failed takes the name away, whatever failed, and is followed by another while
-- `try_attempts`, less one, is positive.
unfoldable pub open_queue : ℕ → Names → Bool × Names
open_queue zero n = (false, n)
open_queue (suc attempts) n =
    let rest = open_queue attempts (record n { exists = false }) in
    if mq_open_ex n
    then (true, record n { exists = true })
    else if ltb 0 attempts
    then rest
    else (false, record n { exists = false })

abbrev pub try_attempts : ℕ
try_attempts = 2

-- The two attempts are enough: the queue is open just if one may be opened, whether or not the name
-- was there; else no name is left.
pub open_queue_enough :
    (n : Names) → open_queue try_attempts n ≡ (n.may_open, record n { exists = n.may_open })
unfolding open_queue
open_queue_enough n = ground arith

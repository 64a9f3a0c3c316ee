-- ===== src/Signals.antt =====
-- Handlers of signals: src/main/cpp/signal-handling.cpp, on one thread, and what the handler that
-- src/main/cpp/echo-streams.cpp registers for Ctrl-C does to them.
pub mod Nesting
pub mod Sequences
use spartan_launcher.Prelude.{Bool, true, false, List, [], ◌∷◌, ◌++◌, if◌then◌else◌}

pub data Signal : Type 0 where
  sigint sigterm sigtstp : Signal

-- What is done for a signal: what the system does, nothing, or one of the three handlers.
pub data Handler : Type 0 where
  by_default ignored : Handler
  signal_callback_handler signal_callback_ctrl_c_handler signal_callback_ctrl_z_handler : Handler

-- A call of the handler that was registered for Ctrl-C, or for Ctrl-Z, with its argument.
pub data Callback : Type 0 where
  ctrl_c_handler ctrl_z_handler : Signal → Callback

-- Whether the mutexes are held, what is done for each signal, and the calls that were made.
pub record Signals : Type 0 where
  pub quit_flag : Bool
  pub signals_guard : Bool
  pub ctrl_z_guard : Bool
  pub int : Handler
  pub term : Handler
  pub tstp : Handler
  pub ctrl_z_handler_sig : Signal
  pub calls : List Callback

-- What comes of signals: the thread goes on, waits for a mutex that it holds itself, or a signal is
-- left to the system, which ends or stops the process.
pub data Run : Type 0 where
  running : Signals → Run
  deadlocked : Run
  left_to_system : Signal → Run

abbrev pub handler_of : Signal → Signals → Handler
handler_of sigint s = s.int
handler_of sigterm s = s.term
handler_of sigtstp s = s.tstp

-- `signal`, which gives the handler before as well: that is `handler_of`.
abbrev pub set_handler : Signal → Handler → Signals → Signals
set_handler sigint h s = record s { int = h }
set_handler sigterm h s = record s { term = h }
set_handler sigtstp h s = record s { tstp = h }

unfoldable pub set_signals_handler : Signals → Signals
set_signals_handler s = record s {
  quit_flag = false;
  int = signal_callback_ctrl_c_handler;
  term = signal_callback_handler;
  tstp = signal_callback_handler;
}

unfoldable pub register_ctrl_z_handler : Signal → Signals → Signals
register_ctrl_z_handler sig s = record s {
  ctrl_z_handler_sig = sig;
  tstp = signal_callback_ctrl_z_handler;
}

-- A signal, with those that arrive while the registered handler runs for it. A signal does not
-- arrive during its own handler, where the system holds it back.
mutual
  pub data Arrival : Type 0 where
    arrives : Signal → Arrivals → Arrival

  pub data Arrivals : Type 0 where
    no_more : Arrivals
    next : Arrival → Arrivals → Arrivals

abbrev pub bind : Run → (Signals → Run) → Run
bind (running s) f = f s
bind deadlocked f = deadlocked
bind (left_to_system sig) f = left_to_system sig

-- `signal_callback_handler`
abbrev pub quit : Signals → Run
quit s = if s.signals_guard then deadlocked else running (record s { quit_flag = true })

-- The mutex is held for the call of the handler, and the signals that arrive during it. The only
-- handler that is registered, that of `stdout_echo_response_stream`, first has SIGINT ignored; it is
-- taken to return, where it does not end the process.
abbrev pub ctrl_c : Signal → (Signals → Run) → Signals → Run
ctrl_c sig inner s =
    if s.signals_guard
    then deadlocked
    else bind
        (inner (record s {
          signals_guard = true;
          int = ignored;
          calls = s.calls ++ ctrl_c_handler sig ∷ [];
        }))
        (λ (t : Signals). running (record t { signals_guard = false }))

-- The handler's signal is ignored while the handler is called, and set back.
abbrev pub ctrl_z : (Signals → Run) → Signals → Run
ctrl_z inner s =
    let sig = s.ctrl_z_handler_sig in
    if s.ctrl_z_guard
    then deadlocked
    else bind
        (inner (
          set_handler sig ignored
            (record s { ctrl_z_guard = true; calls = s.calls ++ ctrl_z_handler sig ∷ [] })))
        (λ (t : Signals).
          running (record (set_handler sig (handler_of sig s) t) { ctrl_z_guard = false }))

abbrev pub run_handler : Signal → (Signals → Run) → Signals → Handler → Run
run_handler sig inner s by_default = left_to_system sig
run_handler sig inner s ignored = running s
run_handler sig inner s signal_callback_handler = quit s
run_handler sig inner s signal_callback_ctrl_c_handler = ctrl_c sig inner s
run_handler sig inner s signal_callback_ctrl_z_handler = ctrl_z inner s

unfoldable mutual
  pub deliver : Arrival → Signals → Run
  deliver (arrives sig inner) s = run_handler sig (deliver_all inner) s (handler_of sig s)

  pub deliver_all : Arrivals → Signals → Run
  deliver_all no_more s = running s
  deliver_all (next a rest) s = bind (deliver a s) (deliver_all rest)

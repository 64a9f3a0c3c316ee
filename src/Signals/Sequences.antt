-- ===== src/Signals/Sequences.antt =====
-- Signals one after the other, and a signal during the handler for another.
use spartan_launcher.Prelude.{
  ◌≡◌, ◌≢◌, refl, ◌∙◌, Bool, true, false, ◌||◌, List, [], ◌∷◌, ◌++◌, append-nil, arith,
}
use spartan_launcher.Signals.{
  Signal, sigint, sigterm, sigtstp, Handler, ignored, signal_callback_handler,
  signal_callback_ctrl_c_handler, Callback, ctrl_c_handler, Signals, running, deadlocked,
  set_signals_handler, Arrivals, arrives, no_more, next, deliver, deliver_all,
}

-- What is done for SIGINT, by whether it came before.
abbrev pub int_handler : Bool → Handler
int_handler true = ignored
int_handler false = signal_callback_ctrl_c_handler

-- A thread with the handlers of `set_signals_handler`, and any handler for Ctrl-Z.
abbrev pub ready : Bool → Bool → Signal → Bool → List Callback → Signals
ready quit_flag ctrl_z_guard sig pressed calls = record {
  quit_flag = quit_flag;
  signals_guard = false;
  ctrl_z_guard = ctrl_z_guard;
  int = int_handler pressed;
  term = signal_callback_handler;
  tstp = signal_callback_handler;
  ctrl_z_handler_sig = sig;
  calls = calls;
}

-- Signals one after the other.
abbrev pub flat : List Signal → Arrivals
flat [] = no_more
flat (sig ∷ sigs) = next (arrives sig no_more) (flat sigs)

-- Whether one of them asks to quit, whether one is a Ctrl-C, and the call for the first of these.
abbrev pub quits : List Signal → Bool
quits [] = false
quits (sigint ∷ sigs) = quits sigs
quits (_ ∷ sigs) = true

abbrev pub presses : List Signal → Bool
presses [] = false
presses (sigint ∷ sigs) = true
presses (_ ∷ sigs) = presses sigs

abbrev pub call_if : Bool → List Callback
call_if true = ctrl_c_handler sigint ∷ []
call_if false = []

deliver_all-pressed :
    (sigs : List Signal) (q held : Bool) (z : Signal) (calls : List Callback)
    → deliver_all (flat sigs) (ready q held z true calls)
      ≡ running (ready (q || quits sigs) held z true calls)
unfolding deliver_all deliver
deliver_all-pressed [] q held z calls = ground arith
deliver_all-pressed (sigint ∷ sigs) q held z calls = deliver_all-pressed sigs q held z calls
deliver_all-pressed (sigterm ∷ sigs) q held z calls =
    deliver_all-pressed sigs true held z calls ∙ ground arith
deliver_all-pressed (sigtstp ∷ sigs) q held z calls =
    deliver_all-pressed sigs true held z calls ∙ ground arith

deliver_all-ready :
    (sigs : List Signal) (q held : Bool) (z : Signal) (calls : List Callback)
    → deliver_all (flat sigs) (ready q held z false calls)
      ≡ running (ready (q || quits sigs) held z (presses sigs) (calls ++ call_if (presses sigs)))
unfolding deliver_all deliver
deliver_all-ready [] q held z calls = rw (append-nil calls) (ground arith)
deliver_all-ready (sigint ∷ sigs) q held z calls =
    deliver_all-pressed sigs q held z (calls ++ ctrl_c_handler sigint ∷ [])
deliver_all-ready (sigterm ∷ sigs) q held z calls =
    deliver_all-ready sigs true held z calls ∙ ground arith
deliver_all-ready (sigtstp ∷ sigs) q held z calls =
    deliver_all-ready sigs true held z calls ∙ ground arith

-- After `set_signals_handler`, signals that come one after the other call the registered handler
-- for the first Ctrl-C and for no other, SIGINT being ignored from then on, and set the flag just if
-- one of them is another signal. The handler is taken to return.
pub deliver_all-flat :
    (sigs : List Signal) (s : Signals)
    → s.signals_guard ≡ false
    → deliver_all (flat sigs) (set_signals_handler s)
      ≡ running (record (set_signals_handler s) {
        quit_flag = quits sigs;
        int = int_handler (presses sigs);
        calls = s.calls ++ call_if (presses sigs);
      })
unfolding set_signals_handler
deliver_all-flat sigs s free =
    rw free (deliver_all-ready sigs false s.ctrl_z_guard s.ctrl_z_handler_sig s.calls)

-- A signal to quit that arrives while the handler for Ctrl-C runs makes the thread wait for a mutex
-- that it holds itself.
pub deliver_nested :
    (sig : Signal) (inner rest : Arrivals) (s : Signals)
    → sig ≢ sigint
    → s.signals_guard ≡ false
    → deliver (arrives sigint (next (arrives sig inner) rest)) (set_signals_handler s) ≡ deadlocked
unfolding set_signals_handler deliver deliver_all
deliver_nested sigint inner rest s other free = absurd (other refl)
deliver_nested sigterm inner rest s other free = rw free refl
deliver_nested sigtstp inner rest s other free = rw free refl

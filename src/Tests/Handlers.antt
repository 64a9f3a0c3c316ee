-- ===== src/Tests/Handlers.antt =====
-- Signals to a thread, and the thread that runs a Java program.
use spartan_launcher.Prelude.{
  ◌≡◌, ◌++◌, ◌↔◌, refl, true, false, some, List, [], ◌∷◌, codes, arith, ℕ, ◌≢◌, ◌==◌, Bool-cases,
  inl, inr,
}
use spartan_launcher.Session.{WhichMethod, MethodDescriptor}
use spartan_launcher.Startup.Cache.{Pc, Cache, update, CacheStep, Reach, new_cache, read-stored}
use spartan_launcher.Signals.{
  Signal, Handler, Signals, Run, Arrival, Arrivals, set_signals_handler, register_ctrl_z_handler,
  deliver, deliver_all,
}
use spartan_launcher.Signals.Nesting.{Steady, deliver-Steady}
use spartan_launcher.Signals.Sequences.{
  flat, quits, presses, int_handler, call_if, deliver_all-flat,
}
use spartan_launcher.Supervisor.Kinds.{Exit}
use spartan_launcher.Supervisor.Entry.{Entry, invoke_jvm_entrypoint}
use spartan_launcher.Supervisor.Entry.Order.{
  notices, IsOrder, Succeeds, invoke_jvm_entrypoint-notices, invoke_jvm_entrypoint-IsOrder,
  invoke_jvm_entrypoint_iff,
}

abbrev at_start : Signals
at_start = record {
  quit_flag = true;
  signals_guard = false;
  ctrl_z_guard = false;
  int = Handler.by_default;
  term = Handler.by_default;
  tstp = Handler.by_default;
  ctrl_z_handler_sig = Signal.sigint;
  calls = [];
}

-- Ctrl-C, Ctrl-C, and a signal to end.
abbrev three_signals : List Signal
three_signals = Signal.sigint ∷ Signal.sigint ∷ Signal.sigterm ∷ []

deliver_all-flat_example :
    deliver_all (flat three_signals) (set_signals_handler at_start)
    ≡ Run.running (record (set_signals_handler at_start) {
      quit_flag = quits three_signals;
      int = int_handler (presses three_signals);
      calls = at_start.calls ++ call_if (presses three_signals);
    })
deliver_all-flat_example = deliver_all-flat three_signals at_start refl

-- Ctrl-Z, and a Ctrl-C while its handler runs.
abbrev during_ctrl_z : Arrival
during_ctrl_z =
    Arrival.arrives Signal.sigtstp
      (Arrivals.next (Arrival.arrives Signal.sigint Arrivals.no_more) Arrivals.no_more)

deliver-Steady_example :
    let s = register_ctrl_z_handler Signal.sigint (set_signals_handler at_start) in
    Steady s (deliver during_ctrl_z s)
deliver-Steady_example =
    deliver-Steady during_ctrl_z
      (register_ctrl_z_handler Signal.sigint (set_signals_handler at_start))

abbrev main_of_app : MethodDescriptor
main_of_app = record {
  is_static_method = true;
  which_method = WhichMethod.main;
  full_method_name = codes "a/Main/main";
  descriptor = codes "([Ljava/lang/String;)V";
}

abbrev entry : Entry
entry = record {
  has_jvm = true;
  creates_jvm = false;
  info = Exit.returns 0;
  allocated = true;
  main_method = some main_of_app;
  main = λ m. Exit.returns 0;
}

invoke_jvm_entrypoint-notices_example : notices (invoke_jvm_entrypoint entry).0 ≡ 1
invoke_jvm_entrypoint-notices_example = invoke_jvm_entrypoint-notices entry (ground arith)

invoke_jvm_entrypoint-IsOrder_example : IsOrder false true (invoke_jvm_entrypoint entry).0
invoke_jvm_entrypoint-IsOrder_example = invoke_jvm_entrypoint-IsOrder entry (λ h. refl)

invoke_jvm_entrypoint_iff_example :
    (invoke_jvm_entrypoint entry).1 ≡ some 0 ↔ Succeeds entry (some main_of_app)
invoke_jvm_entrypoint_iff_example = invoke_jvm_entrypoint_iff entry

-- A thread that made the exchange and the store.
abbrev claimed_cache : Cache
claimed_cache = record new_cache { flag = true; pc = update new_cache.pc 0 Pc.claimed }

abbrev stored_cache : Cache
stored_cache = record claimed_cache {
  cached = codes "/opt/jdk";
  pc = update claimed_cache.pc 0 Pc.reading;
}

no_claim : (j : ℕ) → stored_cache.pc j ≢ Pc.claimed
no_claim j h = elim (Bool-cases (0 == j)) [
  | inl same ↦ ground (arith, same, h)
  | inr apart ↦ ground (arith, apart, h)
]

read-stored_example :
    (t : Cache) × CacheStep (codes "/opt/jdk") stored_cache t
    × (t.pc 0 ≡ Pc.returned (codes "/opt/jdk"))
read-stored_example =
    read-stored (codes "/opt/jdk") stored_cache 0
      (Reach.later (Reach.later Reach.start (CacheStep.exchange_first 0 refl refl))
        (CacheStep.store 0 refl))
      refl no_claim

-- ===== src/Echo/Response/Interrupts.antt =====
-- What Ctrl-C does to a client that passes streams on.
use spartan_launcher.Prelude.{◌<◌, ◌≡◌, refl, none, [], ◌∷◌, arith}
use spartan_launcher.Echo.Response.{SigState, Handled, cleared, on_sigint}

-- The handler takes the state away, so that it would signal no process if it ran again.
pub on_sigint_again : (s : SigState) → on_sigint (on_sigint s).1 ≡ (Handled.ignored, cleared)
unfolding on_sigint
on_sigint_again s = refl

-- A request for the status gives no pid of the supervisor, which is then signalled as if it were a
-- child process.
pub on_sigint_status :
    (s : SigState)
    → s.supervisor_pid ≡ none
    → 0 < s.child_prcs_pid
    → (on_sigint s).0 ≡ Handled.killed (s.rsp_fd ∷ s.err_fd ∷ s.wrt_fd ∷ []) s.child_prcs_pid
unfolding on_sigint
on_sigint_status s v h = ground arith

-- ===== src/Signals/Nesting.antt =====
-- Signals in any nesting: what stays as it was.
use spartan_launcher.Prelude.{
  ◌≡◌, refl, sym, ◌∙◌, Bool, true, false, List, [], ◌∷◌, ◌++◌, if◌then◌else◌, ◌⊎◌, inl, inr,
}
use spartan_launcher.Signals.{
  Signal, sigint, sigterm, sigtstp, Handler, by_default, ignored, signal_callback_handler,
  signal_callback_ctrl_c_handler, signal_callback_ctrl_z_handler, Callback, ctrl_c_handler,
  ctrl_z_handler, Signals, Run, running, deadlocked, left_to_system, handler_of, set_handler,
  Arrival, Arrivals, arrives, no_more, next, bind, ctrl_c, ctrl_z, run_handler, deliver,
  deliver_all,
}

-- A handler that is the same, or that is now to ignore.
abbrev pub IsKept : Handler → Handler → Type 0
IsKept before now = (now ≡ before) ⊎ (now ≡ ignored)

-- The mutexes and the handlers are the same, but that SIGINT may be ignored now.
pub record IsSame (s t : Signals) : Type 0 where
  pub signals_guard : t.signals_guard ≡ s.signals_guard
  pub ctrl_z_guard : t.ctrl_z_guard ≡ s.ctrl_z_guard
  pub int : IsKept s.int t.int
  pub term : t.term ≡ s.term
  pub tstp : t.tstp ≡ s.tstp
  pub ctrl_z_handler_sig : t.ctrl_z_handler_sig ≡ s.ctrl_z_handler_sig

-- Where the thread goes on, they are the same as before.
abbrev pub Steady : Signals → Run → Type 0
Steady s (running t) = IsSame s t
Steady s deadlocked = Unit
Steady s (left_to_system sig) = Unit

self-IsSame : (s : Signals) → IsSame s s
self-IsSame s = record {
  signals_guard = refl;
  ctrl_z_guard = refl;
  int = inl refl;
  term = refl;
  tstp = refl;
  ctrl_z_handler_sig = refl;
}

IsKept-trans : (a b c : Handler) → IsKept a b → IsKept b c → IsKept a c
IsKept-trans a b c (inl e) (inl f) = inl (f ∙ e)
IsKept-trans a b c (inr e) (inl f) = inr (f ∙ e)
IsKept-trans a b c h (inr f) = inr f

from_ignored : (h : Handler) → IsKept ignored h → h ≡ ignored
from_ignored h (inl e) = e
from_ignored h (inr e) = e

IsSame-trans : (s t u : Signals) → IsSame s t → IsSame t u → IsSame s u
IsSame-trans s t u a b = record {
  signals_guard = b.signals_guard ∙ a.signals_guard;
  ctrl_z_guard = b.ctrl_z_guard ∙ a.ctrl_z_guard;
  int = IsKept-trans s.int t.int u.int a.int b.int;
  term = b.term ∙ a.term;
  tstp = b.tstp ∙ a.tstp;
  ctrl_z_handler_sig = b.ctrl_z_handler_sig ∙ a.ctrl_z_handler_sig;
}

Steady-from : (s t : Signals) (r : Run) → IsSame s t → Steady t r → Steady s r
Steady-from s t (running u) h k = IsSame-trans s t u h k
Steady-from s t deadlocked h k = tt
Steady-from s t (left_to_system sig) h k = tt

bind-Steady :
    (s u : Signals) (r : Run) (f : Signals → Run)
    → Steady u r
    → ((t : Signals) → IsSame u t → Steady s (f t))
    → Steady s (bind r f)
bind-Steady s u (running t) f h k = k t h
bind-Steady s u deadlocked f h k = tt
bind-Steady s u (left_to_system sig) f h k = tt

-- The handler of a signal set back, in a state that is the same but for that handler.
set_back :
    (sig : Signal) (s t : Signals) (before : Handler)
    → IsSame (set_handler sig ignored s) t
    → before ≡ handler_of sig s
    → IsSame s (set_handler sig before t)
set_back sigint s t before h e = record {
  signals_guard = h.signals_guard;
  ctrl_z_guard = h.ctrl_z_guard;
  int = inl e;
  term = h.term;
  tstp = h.tstp;
  ctrl_z_handler_sig = h.ctrl_z_handler_sig;
}
set_back sigterm s t before h e = record {
  signals_guard = h.signals_guard;
  ctrl_z_guard = h.ctrl_z_guard;
  int = h.int;
  term = e;
  tstp = h.tstp;
  ctrl_z_handler_sig = h.ctrl_z_handler_sig;
}
set_back sigtstp s t before h e = record {
  signals_guard = h.signals_guard;
  ctrl_z_guard = h.ctrl_z_guard;
  int = h.int;
  term = h.term;
  tstp = e;
  ctrl_z_handler_sig = h.ctrl_z_handler_sig;
}

unless_held-Steady :
    (s : Signals) (held : Bool) (r : Run)
    → (held ≡ false → Steady s r)
    → Steady s (if held then deadlocked else r)
unless_held-Steady s true r h = tt
unless_held-Steady s false r h = h refl

handler_kept :
    (sig : Signal) (s : Signals) (held : Bool) (calls : List Callback)
    → handler_of sig s ≡ handler_of sig (record s { ctrl_z_guard = held; calls = calls })
handler_kept sigint s held calls = refl
handler_kept sigterm s held calls = refl
handler_kept sigtstp s held calls = refl

module _ (inner : Signals → Run) (steady : (s : Signals) → Steady s (inner s)) where
  ctrl_c-Steady : (sig : Signal) (s : Signals) → Steady s (ctrl_c sig inner s)
  ctrl_c-Steady sig s =
      let u = record s {
        signals_guard = true;
        int = ignored;
        calls = s.calls ++ ctrl_c_handler sig ∷ [];
      } in
      unless_held-Steady s s.signals_guard
        (bind (inner u) (λ (t : Signals). running (record t { signals_guard = false })))
        (λ free.
          bind-Steady s u (inner u) (λ (t : Signals). running (record t { signals_guard = false }))
            (steady u)
            λ t h. record {
              signals_guard = sym free;
              ctrl_z_guard = h.ctrl_z_guard;
              int = inr (from_ignored t.int h.int);
              term = h.term;
              tstp = h.tstp;
              ctrl_z_handler_sig = h.ctrl_z_handler_sig;
            })

  ctrl_z-Steady : (s : Signals) → Steady s (ctrl_z inner s)
  ctrl_z-Steady s =
      let sig = s.ctrl_z_handler_sig in
      let called = record s { ctrl_z_guard = true; calls = s.calls ++ ctrl_z_handler sig ∷ [] } in
      let u = set_handler sig ignored called in
      let restore = λ (t : Signals).
        running (record (set_handler sig (handler_of sig s) t) { ctrl_z_guard = false }) in
      unless_held-Steady s s.ctrl_z_guard (bind (inner u) restore) (λ free.
        bind-Steady s u (inner u) restore (steady u) λ t h.
          let b =
            set_back sig called t (handler_of sig s) h
              (handler_kept sig s true (s.calls ++ ctrl_z_handler sig ∷ [])) in
          record {
            signals_guard = b.signals_guard;
            ctrl_z_guard = sym free;
            int = b.int;
            term = b.term;
            tstp = b.tstp;
            ctrl_z_handler_sig = b.ctrl_z_handler_sig;
          })

  run_handler-Steady :
      (sig : Signal) (s : Signals) (h : Handler) → Steady s (run_handler sig inner s h)
  run_handler-Steady sig s by_default = tt
  run_handler-Steady sig s ignored = self-IsSame s
  run_handler-Steady sig s signal_callback_handler =
      unless_held-Steady s s.signals_guard (running (record s { quit_flag = true })) (λ free.
        record {
          signals_guard = refl;
          ctrl_z_guard = refl;
          int = inl refl;
          term = refl;
          tstp = refl;
          ctrl_z_handler_sig = refl;
        })
  run_handler-Steady sig s signal_callback_ctrl_c_handler = ctrl_c-Steady sig s
  run_handler-Steady sig s signal_callback_ctrl_z_handler = ctrl_z-Steady s

mutual
  unfolding deliver deliver_all

  nested-Steady : (a : Arrival) (s : Signals) → Steady s (deliver a s)
  nested-Steady (arrives sig inner) s =
      run_handler-Steady (deliver_all inner) (deliver_all-Steady inner) sig s (handler_of sig s)

  deliver_all-Steady : (arrivals : Arrivals) (s : Signals) → Steady s (deliver_all arrivals s)
  deliver_all-Steady no_more s = self-IsSame s
  deliver_all-Steady (next a rest) s =
      bind-Steady s s (deliver a s) (deliver_all rest) (nested-Steady a s)
        (λ t h. Steady-from s t (deliver_all rest t) h (deliver_all-Steady rest t))

-- However signals nest: where the thread goes on behind them, the mutexes are as they were, and
-- each signal has the handler that it had before, but that SIGINT may be ignored from then on. A
-- handler that the program registers is taken to return.
pub deliver-Steady : (a : Arrival) (s : Signals) → Steady s (deliver a s)
deliver-Steady a s = nested-Steady a s

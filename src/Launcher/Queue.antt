-- ===== src/Launcher/Queue.antt =====
-- The bound on child processes, and the order of the messages, in any interleaving of the steps.
mod Counted
use spartan_launcher.Prelude.{
  Option, none, some, ℕ, suc, ◌+◌, ◌-◌, ◌≤◌, ◌<◌, ◌≡◌, refl, sym, ap, ◌∙◌, Bool, true, false,
  if◌then◌else◌, List, [], ◌∷◌, ◌++◌, append_assoc, arith, ltb, leb, subst, ltb→lt, Bytes, is_empty,
  length, take-append-drop, length-take, Bool-cases, inl, inr, ℤ, pos, negsuc,
}
use spartan_launcher.Launcher.Queue.Counted.{
  Reaches, IsWithin, Reaches-plus, Reaches-ended, Reaches-more, Reaches-stopped,
  IsWithin-decremented, IsWithin-plus, within,
}
use spartan_launcher.Launcher.{
  Launcher, new_launcher, Fork, Event, no_child, command_of, live_step, en_queue, de_queue_count,
  take_batch, handle_msg, handle_next, child_process_completion, step, run, plus, decremented,
  headroom,
}

-- The count, with as many more as children stopped, is no less than that of the running processes,
-- of the messages taken out, and of those that were handled without a child; it never exceeds the
-- bound. The messages keep their order.
record IsSound (max stopped : ℕ) (l : Launcher) : Type 0 where
  pub counted : Reaches stopped l.child_process_count (l.running + length l.taken + l.childless)
  pub bounded : IsWithin max l.child_process_count
  pub in_order : l.accepted ≡ l.handled ++ (l.taken ++ l.dispatch_msg_queue)

en_queue-IsSound :
    (max n : ℕ) (msg : Bytes) (l : Launcher) → IsSound max n l → IsSound max n (en_queue msg l)
unfolding en_queue
en_queue-IsSound max n msg l s = record {
  counted = s.counted;
  bounded = s.bounded;
  in_order =
      ap (λ x. x ++ msg ∷ []) s.in_order
      ∙ (append_assoc l.handled (l.taken ++ l.dispatch_msg_queue) (msg ∷ [])
          ∙ ap (λ x. l.handled ++ x) (append_assoc l.taken l.dispatch_msg_queue (msg ∷ [])));
}

de_queue_count_le :
    (max : ℕ) (l : Launcher)
    → (de_queue_count max l ≤ length l.dispatch_msg_queue)
      × (de_queue_count max l ≤ headroom max l.child_process_count)
unfolding de_queue_count
de_queue_count_le max l = ground arith

empty_nil : (s : List Bytes) → is_empty s ≡ true → s ≡ []
empty_nil [] e = refl
empty_nil (m ∷ s) e = absurd (ground arith)

take_batch-IsSound : (max n : ℕ) (l : Launcher) → IsSound max n l → IsSound max n (take_batch max l)
unfolding take_batch
take_batch-IsSound max n l s = elim (Bool-cases (is_empty l.taken)) [
  | inr e ↦ rw e s
  | inl e ↦
      let le = de_queue_count_le max l in
      let free = empty_nil l.taken e in
      let m = de_queue_count max l in
      rw e (record {
        counted =
            subst (Reaches n (plus l.child_process_count m))
              (let none_taken : length l.taken ≡ 0 = ap length free in
                omega (arith, none_taken, length-take m l.dispatch_msg_queue le.0))
              (Reaches-plus n m (l.running + length l.taken + l.childless) l.child_process_count
                s.counted);
        bounded = IsWithin-plus max m l.child_process_count le.1 s.bounded;
        in_order =
            s.in_order
            ∙ (ap (λ x. l.handled ++ (x ++ l.dispatch_msg_queue)) free
                ∙ ap (λ x. l.handled ++ x) (sym (take-append-drop m l.dispatch_msg_queue)));
      })
]

handled_in_order :
    (l : Launcher) (max n : ℕ) (msg : Bytes) (rest : List Bytes)
    → l.taken ≡ msg ∷ rest
    → IsSound max n l
    → l.accepted ≡ (l.handled ++ msg ∷ []) ++ (rest ++ l.dispatch_msg_queue)
handled_in_order l max n msg rest e s =
    s.in_order
    ∙ (ap (λ x. l.handled ++ (x ++ l.dispatch_msg_queue)) e
        ∙ sym (append_assoc l.handled (msg ∷ []) (rest ++ l.dispatch_msg_queue)))

-- A message that was taken is handled: it still counts, as a process or without a child.
still_counted :
    (l : Launcher) (max n total : ℕ) (msg : Bytes) (rest : List Bytes)
    → l.taken ≡ msg ∷ rest
    → IsSound max n l
    → l.running + suc (length rest) + l.childless ≡ total
    → Reaches n l.child_process_count total
still_counted l max n total msg rest e s h =
    subst (Reaches n l.child_process_count) (ap (λ x. l.running + length x + l.childless) e ∙ h)
      s.counted

no_child-IsSound :
    (max n : ℕ) (msg : Bytes) (rest : List Bytes) (l : Launcher)
    → l.taken ≡ msg ∷ rest
    → IsSound max n l
    → IsSound max n (no_child msg rest l)
no_child-IsSound max n msg rest l e s = record {
  counted = still_counted l max n _ msg rest e s (omega arith);
  bounded = s.bounded;
  in_order = handled_in_order l max n msg rest e s;
}

terminated-IsSound :
    (max n : ℕ) (l : Launcher) → IsSound max n l → IsSound max n (record l { terminated = true })
terminated-IsSound max n l s = record {
  counted = s.counted;
  bounded = s.bounded;
  in_order = s.in_order;
}

handle_msg-IsSound :
    (max n : ℕ) (fork : Fork) (msg : Bytes) (rest : List Bytes) (cmd : Option Bytes) (l : Launcher)
    → l.taken ≡ msg ∷ rest
    → IsSound max n l
    → IsSound max n (handle_msg fork msg rest cmd l)
unfolding handle_msg
handle_msg-IsSound max n Fork.shutting_down msg rest cmd l e s =
    no_child-IsSound max n msg rest l e s
handle_msg-IsSound max n Fork.fork_failed msg rest none l e s = terminated-IsSound max n l s
handle_msg-IsSound max n Fork.fork_failed msg rest (some cmd) l e s =
    no_child-IsSound max n msg rest l e s
handle_msg-IsSound max n (Fork.forked pid) msg rest none l e s = terminated-IsSound max n l s
handle_msg-IsSound max n (Fork.forked pid) msg rest (some cmd) l e s = record {
  counted = still_counted l max n _ msg rest e s (omega arith);
  bounded = s.bounded;
  in_order = handled_in_order l max n msg rest e s;
}

handle_next-IsSound :
    (max n : ℕ) (fork : Fork) (taken : List Bytes) (l : Launcher)
    → l.taken ≡ taken
    → IsSound max n l
    → IsSound max n (handle_next fork taken l)
handle_next-IsSound max n fork [] l e s = s
handle_next-IsSound max n fork (msg ∷ rest) l e s =
    handle_msg-IsSound max n fork msg rest (command_of msg) l e s

ended-IsSound :
    (max n : ℕ) (locked : Bool) (l : Launcher)
    → 0 < l.running
    → IsSound max n l
    → IsSound max n (record (child_process_completion max locked l) { running = l.running - 1 })
unfolding child_process_completion
ended-IsSound max n locked l r s = record {
  counted = Reaches-ended n _ l.child_process_count (
      subst (Reaches n l.child_process_count)
        (let one : l.running ≡ suc (l.running - 1) = omega (arith, r) in omega (arith, one))
        s.counted);
  bounded = IsWithin-decremented max l.child_process_count s.bounded;
  in_order = s.in_order;
}

stopped-IsSound :
    (max n : ℕ) (locked : Bool) (l : Launcher)
    → IsSound max n l
    → IsSound max (n + 1) (child_process_completion max locked l)
unfolding child_process_completion
stopped-IsSound max n locked l s = record {
  counted = Reaches-stopped n _ l.child_process_count s.counted;
  bounded = IsWithin-decremented max l.child_process_count s.bounded;
  in_order = s.in_order;
}

more-IsSound : (max n k : ℕ) (l : Launcher) → n ≤ k → IsSound max n l → IsSound max k l
more-IsSound max n k l le s = record {
  counted = Reaches-more n k _ l.child_process_count le s.counted;
  bounded = s.bounded;
  in_order = s.in_order;
}

-- How often a step tells of a child that stopped.
abbrev stop_of : Event → ℕ
stop_of (Event.child_stopped locked) = 1
stop_of _ = 0

live_step-IsSound :
    (max n : ℕ) (e : Event) (l : Launcher)
    → IsSound max n l
    → IsSound max (n + stop_of e) (live_step max e l)
unfolding live_step
live_step-IsSound max n (Event.message msg) l s =
    more-IsSound max n (n + 0) _ (omega arith) (en_queue-IsSound max n msg l s)
live_step-IsSound max n Event.de_queue l s =
    more-IsSound max n (n + 0) _ (omega arith) (take_batch-IsSound max n l s)
live_step-IsSound max n (Event.handle fork) l s =
    more-IsSound max n (n + 0) _ (omega arith) (handle_next-IsSound max n fork l.taken l refl s)
live_step-IsSound max n (Event.child_ended locked) l s =
    more-IsSound max n (n + 0) _ (omega arith) (elim (Bool-cases (ltb 0 l.running)) [
      | inl e ↦ rw e (ended-IsSound max n locked l (ltb→lt 0 l.running e) s)
      | inr e ↦ rw e s
    ])
live_step-IsSound max n (Event.child_stopped locked) l s = elim (Bool-cases (ltb 0 l.running)) [
  | inl e ↦ rw e (stopped-IsSound max n locked l s)
  | inr e ↦ rw e (more-IsSound max n (n + 1) l (omega arith) s)
]

step-IsSound :
    (max n : ℕ) (e : Event) (l : Launcher)
    → IsSound max n l
    → IsSound max (n + stop_of e) (step max e l)
unfolding step
step-IsSound max n e l s =
    elim l.terminated as (λ b. IsSound max (n + stop_of e) (if b then l else live_step max e l)) [
      | true ↦ more-IsSound max n (n + stop_of e) l (omega arith) s
      | false ↦ live_step-IsSound max n e l s
    ]

-- How often the steps tell of a child that stopped.
abbrev pub stops : List Event → ℕ
stops [] = 0
stops (e ∷ events) = stop_of e + stops events

run-IsSound :
    (max n : ℕ) (events : List Event) (l : Launcher)
    → IsSound max n l
    → IsSound max (n + stops events) (run max events l)
unfolding run
run-IsSound max n [] l s = more-IsSound max n (n + 0) l (omega arith) s
run-IsSound max n (e ∷ events) l s =
    subst (λ k. IsSound max k (run max events (step max e l))) (omega arith)
      (run-IsSound max (n + stop_of e) events (step max e l) (step-IsSound max n e l s))

new_launcher-IsSound : (max : ℕ) → 1 ≤ max → IsSound max 0 new_launcher
new_launcher-IsSound max h = record { counted = omega arith; bounded = h; in_order = refl }

-- In any interleaving, no more processes run at once than the bound allows, if it allows one, and
-- one more for each time that `waitid` told of a child that stopped, which takes it from the count
-- although it is still there. The supervisor's own process is counted with them.
pub run_running :
    (max : ℕ) (events : List Event)
    → 1 ≤ max
    → (run max events new_launcher).running ≤ max + stops events
run_running max events h =
    let l = run max events new_launcher in
    let s = run-IsSound max 0 events new_launcher (new_launcher-IsSound max h) in
    within max (stops events) l.running (length l.taken + l.childless) l.child_process_count
      (subst (Reaches (stops events) l.child_process_count) (omega arith) (
        Reaches-more (0 + stops events) (stops events) _ l.child_process_count (omega arith)
          s.counted))
      s.bounded

-- In any interleaving, every message that was put in is handled, taken out, or in the queue, once
-- each and in the order in which they came.
pub run_accepted :
    (max : ℕ) (events : List Event)
    → 1 ≤ max
    → let l = run max events new_launcher in
      l.accepted ≡ l.handled ++ (l.taken ++ l.dispatch_msg_queue)
run_accepted max events h =
    (run-IsSound max 0 events new_launcher (new_launcher-IsSound max h)).in_order

-- ===== src/Launcher/Groups.antt =====
-- The process groups of the launcher's children.
use spartan_launcher.Prelude.{
  true, false, if◌then◌else◌, ℕ, ◌≡◌, refl, sym, ap, ◌∙◌, Option, none, some, List, [], ◌∷◌, Bytes,
  same_text, same_text_self, same_text→eq, All, All-append, Bool-cases, Option-cases, inl, inr, ltb,
  is_empty,
}
use spartan_launcher.Launcher.{
  Launcher, Fork, Event, en_queue, take_batch, command_of, find_group, handle_msg, handle_next,
  live_step, child_process_completion, step, run,
}

-- Each child stands in the group that its command has.
abbrev pub Grouped : List (Bytes × ℕ) → Bytes × ℕ × ℕ → Type 0
Grouped groups (cmd, pid, pgid) = find_group cmd groups ≡ some pgid

abbrev pub AreGrouped : Launcher → Type 0
AreGrouped l = All (Grouped l.prcs_grps) l.children

find_group_new :
    (cmd : Bytes) (pid : ℕ) (groups : List (Bytes × ℕ))
    → find_group cmd ((cmd, pid) ∷ groups) ≡ some pid
find_group_new cmd pid groups = rw (same_text_self cmd) refl

find_group_old :
    (cmd other : Bytes) (pid pgid : ℕ) (groups : List (Bytes × ℕ))
    → find_group cmd groups ≡ none
    → find_group other groups ≡ some pgid
    → find_group other ((cmd, pid) ∷ groups) ≡ some pgid
find_group_old cmd other pid pgid groups n s = elim (Bool-cases (same_text cmd other)) [
  | inr e ↦ rw e s
  | inl e ↦
      let c : Option.none ≡ some pgid =
        sym n ∙ (ap (λ x. find_group x groups) (same_text→eq cmd other e) ∙ s) in
      absurd cc
]

new_group :
    (cmd : Bytes) (pid : ℕ) (groups : List (Bytes × ℕ)) (children : List (Bytes × ℕ × ℕ))
    → find_group cmd groups ≡ none
    → All (Grouped groups) children
    → All (Grouped ((cmd, pid) ∷ groups)) children
new_group cmd pid groups [] n h = tt
new_group cmd pid groups ((other, p, pgid) ∷ children) n h =
    (find_group_old cmd other pid pgid groups n h.0, new_group cmd pid groups children n h.1)

forked-AreGrouped :
    (pid : ℕ) (msg : Bytes) (rest : List Bytes) (cmd : Bytes) (l : Launcher)
    → AreGrouped l
    → AreGrouped (handle_msg (Fork.forked pid) msg rest (some cmd) l)
unfolding handle_msg
forked-AreGrouped pid msg rest cmd l h = elim (Option-cases (find_group cmd l.prcs_grps)) [
  | inl e ↦ rw e (
      All-append (Grouped ((cmd, pid) ∷ l.prcs_grps)) l.children ((cmd, pid, pid) ∷ [])
        (new_group cmd pid l.prcs_grps l.children e h) (find_group_new cmd pid l.prcs_grps, tt))
  | inr (pgid, e) ↦
      rw e (All-append (Grouped l.prcs_grps) l.children ((cmd, pid, pgid) ∷ []) h (e, tt))
]

handle_msg-AreGrouped :
    (fork : Fork) (msg : Bytes) (rest : List Bytes) (cmd : Option Bytes) (l : Launcher)
    → AreGrouped l
    → AreGrouped (handle_msg fork msg rest cmd l)
unfolding handle_msg
handle_msg-AreGrouped (Fork.forked pid) msg rest none l h = h
handle_msg-AreGrouped (Fork.forked pid) msg rest (some cmd) l h =
    forked-AreGrouped pid msg rest cmd l h
handle_msg-AreGrouped Fork.fork_failed msg rest none l h = h
handle_msg-AreGrouped Fork.fork_failed msg rest (some cmd) l h = h
handle_msg-AreGrouped Fork.shutting_down msg rest cmd l h = h

handle_next-AreGrouped :
    (fork : Fork) (taken : List Bytes) (l : Launcher)
    → AreGrouped l
    → AreGrouped (handle_next fork taken l)
handle_next-AreGrouped fork [] l h = h
handle_next-AreGrouped fork (msg ∷ rest) l h =
    handle_msg-AreGrouped fork msg rest (command_of msg) l h

take_batch-AreGrouped : (max : ℕ) (l : Launcher) → AreGrouped l → AreGrouped (take_batch max l)
unfolding take_batch
take_batch-AreGrouped max l h = elim (Bool-cases (is_empty l.taken)) [
  | inl e ↦ rw e h
  | inr e ↦ rw e h
]

live_step-AreGrouped :
    (max : ℕ) (e : Event) (l : Launcher) → AreGrouped l → AreGrouped (live_step max e l)
unfolding live_step en_queue child_process_completion
live_step-AreGrouped max (Event.message msg) l h = h
live_step-AreGrouped max Event.de_queue l h = take_batch-AreGrouped max l h
live_step-AreGrouped max (Event.handle fork) l h = handle_next-AreGrouped fork l.taken l h
live_step-AreGrouped max (Event.child_ended locked) l h = elim (Bool-cases (ltb 0 l.running)) [
  | inl e ↦ rw e h
  | inr e ↦ rw e h
]
live_step-AreGrouped max (Event.child_stopped locked) l h = elim (Bool-cases (ltb 0 l.running)) [
  | inl e ↦ rw e h
  | inr e ↦ rw e h
]

step-AreGrouped : (max : ℕ) (e : Event) (l : Launcher) → AreGrouped l → AreGrouped (step max e l)
unfolding step
step-AreGrouped max e l h =
    elim l.terminated as (λ b. AreGrouped (if b then l else live_step max e l)) [
      | true ↦ h
      | false ↦ live_step-AreGrouped max e l h
    ]

-- In any interleaving, the process group that `setpgid` is asked to put a child into is the one that
-- is kept for its command, so that it is the same for all children of a command. Whether `setpgid`
-- succeeds is not looked at, and a group that is kept is never removed, so that the group in which
-- a child really stands may be another.
pub run-AreGrouped :
    (max : ℕ) (events : List Event) (l : Launcher)
    → All (Grouped l.prcs_grps) l.children
    → All (Grouped (run max events l).prcs_grps) (run max events l).children
unfolding run
run-AreGrouped max [] l h = h
run-AreGrouped max (e ∷ events) l h =
    run-AreGrouped max events (step max e l) (step-AreGrouped max e l h)

-- ===== src/Supervisor/Messages/Notices.antt =====
-- What the Java program is told of child processes.
use spartan_launcher.Prelude.{
  ℕ, ◌≡◌, ◌≢◌, refl, ap, ◌∙◌, false, some, [], ◌∷◌, ◌++◌, arith, ◌==◌, Bytes, codes, length,
  length-append, Lacks, starts_with,
}
use spartan_launcher.Text.{field, skip, strtok}
use spartan_launcher.Stream.Numbers.{format_ℕ}
use spartan_launcher.Stream.Laws.{format_ℕ-word}
use spartan_launcher.Session.{SessionState, no_name}
use spartan_launcher.Supervisor.Messages.{
  notify_cmd, completion_cmd, notify_message, completion_message, Task, supervisor_task, task_of,
  notify_task, notice, completion_task, behind_token,
}

field-Lacks : (c : ℕ) (a b : Bytes) → Lacks c a → field c (a ++ c ∷ b) ≡ (a, b)
unfolding field
field-Lacks c [] b h = ground arith
field-Lacks c (n ∷ a) b h =
    let miss : (n == c) ≡ false = ground (arith, h.0) in
    rw (field, miss) (ap (λ (p : Bytes × Bytes). (n ∷ p.0, p.1)) (field-Lacks c a b h.1))

field_whole : (c : ℕ) (a : Bytes) → Lacks c a → field c a ≡ (a, [])
unfolding field
field_whole c [] h = refl
field_whole c (n ∷ a) h =
    let miss : (n == c) ≡ false = ground (arith, h.0) in
    rw (field, miss) (ap (λ (p : Bytes × Bytes). (n ∷ p.0, p.1)) (field_whole c a h.1))

skip_word : (c n : ℕ) (s : Bytes) → n ≢ c → skip c (n ∷ s) ≡ n ∷ s
unfolding skip
skip_word c n s h = ground (arith, h)

-- A word is a token, with what is behind its delimiter.
pub strtok_word :
    (c n : ℕ) (a b : Bytes) → Lacks c (n ∷ a) → strtok c ((n ∷ a) ++ c ∷ b) ≡ some (n ∷ a, b)
unfolding strtok
strtok_word c n a b h =
    rw (strtok, skip_word c n (a ++ c ∷ b) h.0) (ap some (field-Lacks c (n ∷ a) b h))

pub strtok_last : (c n : ℕ) (a : Bytes) → Lacks c (n ∷ a) → strtok c (n ∷ a) ≡ some (n ∷ a, [])
unfolding strtok
strtok_last c n a h = rw (strtok, skip_word c n a h.0) (ap some (field_whole c (n ∷ a) h))

-- The launcher tells the supervisor of a child that it forked: the Java program is told the pid and
-- the command line, but without the first word of the message that was forked for, if that has
-- more than one. That word is the option for the kind of call, and not the socket's name.
pub supervisor_task-notified :
    (ss : SessionState) (beyond : Bytes) (pid c : ℕ) (word rest : Bytes)
    → Lacks b' ' (c ∷ word)
    → no_name ss.spartan_child_notify_entry_point ≡ false
    → supervisor_task ss beyond (notify_message pid ((c ∷ word) ++ b' ' ∷ rest))
      ≡ Task.notified (format_ℕ pid) rest
unfolding supervisor_task notify_message
supervisor_task-notified ss beyond pid c word rest h named =
    let (d, ds, number, lacks) = format_ℕ-word pid in
    let args = (c ∷ word) ++ b' ' ∷ rest in
    let first : strtok b' ' (notify_cmd ++ b' ' ∷ (format_ℕ pid ++ b' ' ∷ args))
        ≡ some (notify_cmd, format_ℕ pid ++ b' ' ∷ args) =
      strtok_word b' ' b'-' (codes "-CHILD_PID_NOTIFY") (format_ℕ pid ++ b' ' ∷ args)
        (omega arith) in
    let second : strtok b' ' (format_ℕ pid ++ b' ' ∷ args) ≡ some (format_ℕ pid, args) =
      rw number (strtok_word b' ' d ds args lacks) in
    let third = strtok_word b' ' c word rest h in
    let longer : (length (c ∷ word) == length args) ≡ false =
      ground (arith, length-append (c ∷ word) (b' ' ∷ rest)) in
    let skipped = skip_word b' ' c (word ++ b' ' ∷ rest) h.0 in
    ap (task_of ss beyond) first
    ∙ (unfold starts_with in
        ap (notify_task ss beyond) second
        ∙ (ap (λ t. notice ss (format_ℕ pid) (behind_token beyond t (strtok b' ' args))) skipped
            ∙ (ap (λ t. notice ss (format_ℕ pid) (behind_token beyond args t)) third
                ∙ rw (longer, named) refl)))

-- Of a child that ended, the Java program is told the pid.
pub supervisor_task-completed :
    (ss : SessionState) (beyond : Bytes) (pid : ℕ)
    → no_name ss.spartan_child_completion_notify_entry_point ≡ false
    → supervisor_task ss beyond (completion_message pid) ≡ Task.completed (format_ℕ pid)
unfolding supervisor_task completion_message
supervisor_task-completed ss beyond pid named =
    let (d, ds, number, lacks) = format_ℕ-word pid in
    let first : strtok b' ' (completion_cmd ++ b' ' ∷ format_ℕ pid)
        ≡ some (completion_cmd, format_ℕ pid) =
      strtok_word b' ' b'-' (codes "-CHILD_PID_COMPLETION_NOTIFY") (format_ℕ pid) (omega arith) in
    let second : strtok b' ' (format_ℕ pid) ≡ some (format_ℕ pid, []) =
      rw number (strtok_last b' ' d ds lacks) in
    ap (task_of ss beyond) first
    ∙ (unfold starts_with in ap (completion_task ss) second ∙ rw named refl)

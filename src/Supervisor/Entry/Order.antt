-- ===== src/Supervisor/Entry/Order.antt =====
-- What the other thread and the other processes see of the thread that runs the Java program.
use spartan_launcher.Prelude.{
  ℕ, suc, ◌≡◌, ◌≢◌, ◌↔◌, Bool, true, false, ◌||◌, Option, none, some, List, [], ◌∷◌, arith,
}
use spartan_launcher.Session.{MethodDescriptor, no_name}
use spartan_launcher.Supervisor.Kinds.{returns, exits}
use spartan_launcher.Supervisor.Entry.{
  Seen, satisfied, broken, unlinked, process_ended, main_called, Entry, invoke_child_process_action,
  promised, invoke_jvm_entrypoint,
}

-- How often the waiting thread is let proceed.
abbrev pub notices : List Seen → ℕ
notices [] = 0
notices (satisfied ∷ seens) = suc (notices seens)
notices (broken ∷ seens) = suc (notices seens)
notices (_ ∷ seens) = notices seens

-- An order of what is seen, behind a promise that was satisfied, or not, and while the shared
-- memory is there, or not: the main method is called only behind the promise and while the memory
-- is there; the memory is removed once; and nothing is seen behind the end of the process.
abbrev pub IsOrder : Bool → Bool → List Seen → Type 0
IsOrder promised there [] = Unit
IsOrder promised there (satisfied ∷ seens) = (promised ≡ false) × IsOrder true there seens
IsOrder promised there (broken ∷ seens) = (promised ≡ false) × IsOrder true there seens
IsOrder promised there (unlinked ∷ seens) = (there ≡ true) × IsOrder promised false seens
IsOrder promised there (process_ended ∷ seens) = seens ≡ []
IsOrder promised there (main_called m ∷ seens) =
    (promised ≡ true) × (there ≡ true) × IsOrder promised there seens

-- Unless the first call ends the process, the waiting thread is let proceed exactly once.
pub invoke_jvm_entrypoint-notices :
    (e : Entry) → e.info ≢ exits → notices (invoke_jvm_entrypoint e).0 ≡ 1
unfolding invoke_jvm_entrypoint invoke_child_process_action
invoke_jvm_entrypoint-notices e h = ground (arith, h)

-- The main method is called only behind the promise, and while the shared memory is there, which
-- is removed at most once; where the call for the dispatch information left no memory, it has
-- failed.
pub invoke_jvm_entrypoint-IsOrder :
    (e : Entry)
    → (e.info ≡ returns 0 → e.allocated ≡ true)
    → IsOrder false e.allocated (invoke_jvm_entrypoint e).0
unfolding invoke_jvm_entrypoint invoke_child_process_action
invoke_jvm_entrypoint-IsOrder e h = ground (arith, h)

-- Every call of the thread succeeded, and there is a main method.
abbrev pub Succeeds : Entry → Option MethodDescriptor → Type 0
Succeeds e none = ⊥
Succeeds e (some m) =
    (e.has_jvm || e.creates_jvm ≡ true)
    × (e.info ≡ returns 0)
    × (no_name m ≡ false)
    × (e.main m ≡ returns 0)

-- `jvm_exit` is 0 exactly when every call succeeded and there is a main method.
pub invoke_jvm_entrypoint_iff :
    (e : Entry) → (invoke_jvm_entrypoint e).1 ≡ some 0 ↔ Succeeds e e.main_method
unfolding invoke_jvm_entrypoint invoke_child_process_action
invoke_jvm_entrypoint_iff e = ground arith

-- ===== src/Supervisor/Entry.antt =====
-- The thread of the supervisor that runs the Java program: `invoke_jvm_entrypoint` and its action
-- in `supervisor`, and `invoke_child_process_action`, of src/main/cpp/spartan.cpp.
pub mod Order
use spartan_launcher.Prelude.{
  ℕ, zero, suc, Bool, true, false, ◌||◌, Option, none, some, List, [], ◌∷◌, ◌++◌, if◌then◌else◌,
}
use spartan_launcher.Session.{MethodDescriptor, no_name}
use spartan_launcher.Supervisor.Kinds.{Exit, returns, fails, exits}

-- What the other thread and the other processes see of it: that the promise was satisfied or
-- broken, which lets the waiting thread proceed, that the program's main method was called, that
-- the shared memory was removed, and that the whole process ended.
pub data Seen : Type 0 where
  satisfied broken unlinked process_ended : Seen
  main_called : MethodDescriptor → Seen

-- How an action ends: with a code, with an exception, or not at all.
pub data Acted : Type 0 where
  code : ℕ → Acted
  threw gone : Acted

-- What the calls of the thread give: whether the session has a JVM or can make one; how the call
-- for the dispatch information ends, and whether it left shared memory; the main method of the
-- session that is read back, unless that throws; and how a call of it ends.
pub record Entry : Type 0 where
  pub has_jvm : Bool
  pub creates_jvm : Bool
  pub info : Exit
  pub allocated : Bool
  pub main_method : Option MethodDescriptor
  pub main : MethodDescriptor → Exit

-- The owner of the shared memory goes out of scope with the action.
abbrev pub shm_allocator_cleanup : Bool → List Seen
shm_allocator_cleanup allocated = if allocated then unlinked ∷ [] else []

-- The end of the action, with what is seen at it.
abbrev pub leaving : Bool → Acted → List Seen × Acted
leaving allocated a = (shm_allocator_cleanup allocated, a)

abbrev pub then_see : Seen → List Seen × Acted → List Seen × Acted
then_see seen (seens, a) = (seen ∷ seens, a)

-- A call that ends the process is the last that is seen.
abbrev pub call_ended : Bool → Exit → List Seen × Acted
call_ended allocated (returns c) = leaving allocated (code c)
call_ended allocated (fails which) = leaving allocated (code 1)
call_ended allocated exits = (process_ended ∷ [], gone)

abbrev pub with_session : Entry → Option MethodDescriptor → List Seen × Acted
with_session e none = leaving e.allocated threw
with_session e (some m) =
    if no_name m
    then then_see satisfied (leaving e.allocated (code 1))
    else then_see satisfied (then_see (main_called m) (call_ended e.allocated (e.main m)))

abbrev pub info_ended : Entry → Exit → List Seen × Acted
info_ended e exits = (process_ended ∷ [], gone)
info_ended e (fails which) = then_see satisfied (leaving e.allocated (code 1))
info_ended e (returns zero) = with_session e e.main_method
info_ended e (returns (suc c)) = then_see satisfied (leaving e.allocated (code (suc c)))

abbrev pub action : Entry → List Seen × Acted
action e = info_ended e e.info

-- The exit code, which is that of a failure where there is an exception.
abbrev pub caught : List Seen × Acted → List Seen × Option ℕ
caught (seens, code c) = (seens, some c)
caught (seens, threw) = (seens, some 1)
caught (seens, gone) = (seens, none)

-- `invoke_child_process_action`, given an action that may run.
unfoldable pub invoke_child_process_action : Bool → Bool → List Seen × Acted → List Seen × Option ℕ
invoke_child_process_action has_jvm creates_jvm acted =
    if has_jvm || creates_jvm then caught acted else ([], some 1)

-- A promise that goes out of scope and was not satisfied is broken.
abbrev pub promised : List Seen → Bool
promised [] = false
promised (satisfied ∷ seens) = true
promised (process_ended ∷ seens) = true
promised (_ ∷ seens) = promised seens

abbrev pub end_of_promise : List Seen × Option ℕ → List Seen × Option ℕ
end_of_promise (seens, jvm_exit) =
    (if promised seens then seens else seens ++ broken ∷ [], jvm_exit)

-- `invoke_jvm_entrypoint`: what is seen of it, and `jvm_exit`.
unfoldable pub invoke_jvm_entrypoint : Entry → List Seen × Option ℕ
invoke_jvm_entrypoint e =
    end_of_promise (invoke_child_process_action e.has_jvm e.creates_jvm (action e))

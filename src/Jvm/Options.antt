-- ===== src/Jvm/Options.antt =====
-- The options that the JVM gets: those whose prefix is new, and the room for them.
use spartan_launcher.Prelude.{
  suc, ◌+◌, ◌-◌, ◌≤◌, ◌<◌, ◌≡◌, refl, ap, ◌∙◌, Option, none, some, List, [], ◌∷◌, ◌++◌, arith, ltb,
  ltb→lt, same_text, if◌then◌else◌, Bytes, codes, length, length-append, take, map, replicate,
  take-length-append, Bool-cases, inl, inr,
}
use spartan_launcher.Jvm.{
  JvmOptions, set_option, set_options, set_java_vm_options, option_count, mark, prefix_of,
  is_member, removed_count, given, consolidate_jvm_options, base_optns,
}
use spartan_launcher.Jvm.Compacting.{compacted, compact-before}

-- The arguments whose prefix no earlier one has; `seen` are the earlier prefixes.
unfoldable pub firsts : List Bytes → List Bytes → List Bytes
firsts seen [] = []
firsts seen (a ∷ args) =
    let kept = firsts (prefix_of a ∷ seen) args in
    let left = firsts seen args in if is_member (prefix_of a) seen then left else a ∷ kept

given-mark : (seen args : List Bytes) → given (mark seen args) ≡ firsts seen args
unfolding mark firsts
given-mark seen [] = refl
given-mark seen (a ∷ args) = elim (Bool-cases (is_member (prefix_of a) seen)) [
  | inl dup ↦ rw dup (given-mark seen args)
  | inr new ↦ rw new (ap (◌∷◌ a) (given-mark (prefix_of a ∷ seen) args))
]

length-mark : (seen args : List Bytes) → length (mark seen args) ≡ length args
unfolding mark
length-mark seen [] = refl
length-mark seen (a ∷ args) =
    let more = if is_member (prefix_of a) seen then seen else prefix_of a ∷ seen in
    ap suc (length-mark more args)

length-given :
    (argv : List (Option Bytes)) → length (map some (given argv)) + removed_count argv ≡ length argv
unfolding removed_count
length-given [] = omega arith
length-given (none ∷ argv) = omega (arith, length-given argv)
length-given (some a ∷ argv) = omega (arith, length-given argv)

take-given :
    (argv : List (Option Bytes))
    → take (length argv - removed_count argv) (compacted argv) ≡ map some (given argv)
take-given argv =
    let kept = map some (given argv) in
    let n : length argv - removed_count argv ≡ length kept = omega (arith, length-given argv) in
    rw n (take-length-append kept (replicate (removed_count argv) none))

short_given : (args : List Bytes) → length args < 2 → mark [] args ≡ map some (firsts [] args)
unfolding mark firsts
short_given [] h = refl
short_given (a ∷ []) h = refl
short_given (a ∷ b ∷ args) h = absurd (omega arith)

-- Marking and compacting leave the arguments whose prefix no earlier one has, in their order, and
-- no null pointer.
pub consolidate_jvm_options-firsts :
    (args : List Bytes) → consolidate_jvm_options args ≡ map some (firsts [] args)
unfolding consolidate_jvm_options
consolidate_jvm_options-firsts args = elim (Bool-cases (ltb (length args) 2)) [
  | inl short ↦ rw short (short_given args (ltb→lt (length args) 2 short))
  | inr long ↦
      rw
        (
          long,
          compact-before (mark [] args) (length (mark [] args)) [] (omega arith),
          ← length-mark [] args,
        )
        (take-given (mark [] args) ∙ ap (map some) (given-mark [] args))
]

-- Of two options that start with -XX: only the first is left, whatever they set.
pub consolidate_jvm_options_xx :
    (p q : Bytes)
    → consolidate_jvm_options ((codes "-XX:" ++ p) ∷ (codes "-XX:" ++ q) ∷ [])
      ≡ some (codes "-XX:" ++ p) ∷ []
consolidate_jvm_options_xx p q =
    consolidate_jvm_options-firsts ((codes "-XX:" ++ p) ∷ (codes "-XX:" ++ q) ∷ []) ∙ firsts_xx
  where
    firsts_xx :
        map some (firsts [] ((codes "-XX:" ++ p) ∷ (codes "-XX:" ++ q) ∷ []))
        ≡ some (codes "-XX:" ++ p) ∷ []
    firsts_xx = unfold firsts prefix_of same_text in refl

set_option-passed :
    (o : JvmOptions) (arg : Bytes) → length (set_option o arg).passed ≤ length o.passed + 1
unfolding set_option
set_option-passed o arg = ground (arith, length-append o.passed (arg ∷ []))

passed_only :
    (o : JvmOptions) (args : List Bytes)
    → length (set_options o args).passed ≤ length o.passed + length args
unfolding set_options
passed_only o [] = omega arith
passed_only o (arg ∷ args) =
    omega (arith, set_option-passed o arg, passed_only (set_option o arg) args)

-- The count given to the JVM never exceeds the room that was allocated for the options.
pub option_count_le :
    (java_classpath : Bytes) (argv : List Bytes)
    → option_count (set_java_vm_options java_classpath argv) ≤ length argv + base_optns
unfolding option_count set_java_vm_options
option_count_le java_classpath argv = omega (arith, passed_only _ argv)

-- ===== src/Jvm.antt =====
-- The options of the Java VM: src/main/cpp/createjvm.cpp. `chdir` and the parsing of an argument
-- string are parameters.
pub mod Compacting
pub mod Options
use spartan_launcher.Prelude.{
  ℕ, zero, suc, ◌+◌, ◌-◌, Bool, true, false, not, ◌&&◌, ◌||◌, Option, none, some, List, [], ◌∷◌,
  ◌++◌, ◌==◌, ltb, if◌then◌else◌, Bytes, codes, is_empty, is_digit, starts_with, same_text, length,
  get_or, set, take, drop,
}

-- `jvm_classpath_optn_str`, `set_cwd_optn`, `base_optns`, `PATH_SEPARATOR` and `USER_CLASSPATH`
abbrev pub jvm_classpath_optn : Bytes
jvm_classpath_optn = codes "-Djava.class.path="

abbrev pub set_cwd_optn : Bytes
set_cwd_optn = codes "-Duser.dir="

abbrev pub base_optns : ℕ
base_optns = 3

abbrev pub user_classpath : Bytes
user_classpath = codes "."

-- `get_java_classpath`
unfoldable pub get_java_classpath : Bytes → Bytes
get_java_classpath [] = jvm_classpath_optn ++ user_classpath
get_java_classpath (c ∷ s) =
    jvm_classpath_optn ++ (if not (c == b'.') then user_classpath ++ b':' ∷ c ∷ s else c ∷ s)

-- The options handed to the JVM, without the two that hold callbacks: the class path first, then
-- those passed on; and the folders given to `chdir`, in order.
pub record JvmOptions : Type 0 where
  pub class_path : Bytes
  pub passed : List Bytes
  pub chdirs : List Bytes

-- One round of the loop of `set_JavaVMOptions`.
unfoldable pub set_option : JvmOptions → Bytes → JvmOptions
set_option o arg =
    if starts_with arg jvm_classpath_optn
    then record o { class_path = arg }
    else if starts_with arg set_cwd_optn
    then (if ltb (length set_cwd_optn) (length arg)
        then record o { chdirs = o.chdirs ++ drop (length set_cwd_optn) arg ∷ [] }
        else o)
    else record o { passed = o.passed ++ arg ∷ [] }

unfoldable pub set_options : JvmOptions → List Bytes → JvmOptions
set_options o [] = o
set_options o (arg ∷ args) = set_options (set_option o arg) args

unfoldable pub set_java_vm_options : Bytes → List Bytes → JvmOptions
set_java_vm_options java_classpath argv =
    set_options
      (record { class_path = get_java_classpath java_classpath; passed = []; chdirs = [] }) argv

-- The count that is returned.
unfoldable pub option_count : JvmOptions → ℕ
option_count o = base_optns + length o.passed

-- A byte of `char_set`.
abbrev pub ends_prefix : ℕ → Bool
ends_prefix c = c == b'=' || c == b':' || is_digit c

unfoldable pub prefix_of : Bytes → Bytes
prefix_of [] = []
prefix_of (c ∷ s) = if ends_prefix c then [] else c ∷ prefix_of s

abbrev pub is_member : Bytes → List Bytes → Bool
is_member s [] = false
is_member s (t ∷ ts) = same_text s t || is_member s ts

-- The first loop of `consolidate_jvm_options`: an argument whose prefix was seen becomes null.
unfoldable pub mark : List Bytes → List Bytes → List (Option Bytes)
mark seen [] = []
mark seen (a ∷ args) =
    let dup = is_member (prefix_of a) seen in
    (if dup then none else some a) ∷ mark (if dup then seen else prefix_of a ∷ seen) args

unfoldable pub removed_count : List (Option Bytes) → ℕ
removed_count [] = 0
removed_count (none ∷ argv) = 1 + removed_count argv
removed_count (some a ∷ argv) = removed_count argv

-- One round of the compacting loop, at the indices i and j.
pub record Compact : Type 0 where
  pub argv : List (Option Bytes)
  pub i : ℕ
  pub j : ℕ

abbrev pub compact_at : Compact → Option Bytes → Option Bytes → Compact
compact_at s (some curr) next = record s { i = s.i + 1; j = s.j + 1 }
compact_at s none none = record s { j = s.j + 1 }
compact_at s none (some next) = record {
  argv = set (set s.argv s.i (some next)) s.j none;
  i = s.i + 1;
  j = s.j + 1;
}

unfoldable pub compact_step : Compact → Compact
compact_step s = compact_at s (get_or s.argv s.i none) (get_or s.argv s.j none)

abbrev pub in_bounds : Compact → Bool
in_bounds s = ltb s.i (length s.argv - 1) && ltb s.j (length s.argv)

-- The compacting loop, on fuel; each round moves j on.
unfoldable pub compact : ℕ → Compact → List (Option Bytes)
compact zero s = s.argv
compact (suc f) s = let more = compact f (compact_step s) in if in_bounds s then more else s.argv

abbrev pub given : List (Option Bytes) → List Bytes
given [] = []
given (none ∷ argv) = given argv
given (some a ∷ argv) = a ∷ given argv

-- `consolidate_jvm_options`: the first `argc` entries of what is left; a null pointer among them
-- would be lost here, and Options shows that there is none.
unfoldable pub consolidate_jvm_options : List Bytes → List (Option Bytes)
consolidate_jvm_options args =
    let marked = mark [] args in
    let argv = compact (length marked) (record { argv = marked; i = 0; j = 1 }) in
    if ltb (length args) 2 then marked else take (length args - removed_count marked) argv

-- The command line of `create_jvm`.
unfoldable pub jvm_command_line : Bytes → Bytes → Bytes
jvm_command_line override jvm_cmd_line_args =
    (if is_empty override then [] else override ++ b' ' ∷ []) ++ jvm_cmd_line_args

abbrev pub options_of : Bytes → Option (List Bytes) → Option JvmOptions
options_of java_classpath none = none
options_of java_classpath (some args) =
    some (set_java_vm_options java_classpath (given (consolidate_jvm_options args)))

-- The options that `create_jvm` gives to the JVM; `none` is its exception.
unfoldable pub create_jvm_options :
    (Bytes → Option (List Bytes)) → Bytes → Bytes → Bytes → Option JvmOptions
create_jvm_options parse_argv java_classpath override jvm_cmd_line_args =
    options_of java_classpath (parse_argv (jvm_command_line override jvm_cmd_line_args))

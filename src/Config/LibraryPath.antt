-- ===== src/Config/LibraryPath.antt =====
-- `prepend_to_java_library_path` and `get_cfg_dir` of src/main/cpp/session-state.cpp.
use spartan_launcher.Prelude.{
  ℕ, ◌+◌, ◌≡◌, refl, ap, ◌∙◌, Bool, true, false, Option, none, some, List, [], ◌∷◌, ◌++◌,
  append_assoc, arith, if◌then◌else◌, Bytes, codes, is_empty, lower, starts_with, length, drop,
  length-append, drop-length-append, Lacks,
}
use spartan_launcher.Text.{field}

abbrev after : ℕ → Option Bytes → Option Bytes
after c none = none
after c (some front) = some (c ∷ front)

-- `strstr`: what precedes the first occurrence.
unfoldable pub strstr : Bytes → Bytes → Option Bytes
strstr [] needle = if is_empty needle then some [] else none
strstr (c ∷ s) needle = if starts_with (c ∷ s) needle then some [] else after c (strstr s needle)

-- `java_lib_path_optn_str`
abbrev pub library_path_option : Bytes
library_path_option = codes "-djava.library.path="

-- The first argument that holds the option, from the option on.
unfoldable pub find_option : List Bytes → Option Bytes
find_option [] = none
find_option (arg ∷ argv) = elim (strstr (lower arg) library_path_option) [
  | none ↦ find_option argv
  | some front ↦ some (drop (length front) arg)
]

-- `PATH_SEPARATOR`
abbrev pub list_separator : ℕ
list_separator = b':'

-- The option with the executable's directory in front of its value; `strchr` starts behind the
-- first byte.
unfoldable pub prepended : Bytes → Bytes → Bytes
prepended executable_dir [] = []
prepended executable_dir (c ∷ s) =
    let key = (field b'=' s).0 in
    let value = (field b'=' s).1 in c ∷ key ++ b'=' ∷ (executable_dir ++ list_separator ∷ value)

-- The option replaced in the text; `none` when the text does not hold it as it was parsed, which
-- the code takes to be impossible.
unfoldable pub replace_option : Bytes → Bytes → Bytes → Option Bytes
replace_option executable_dir args option = elim (strstr args option) [
  | none ↦ none
  | some front ↦
      some (front ++ (prepended executable_dir option ++ drop (length front + length option) args))
]

abbrev found_option : Option (List Bytes) → Option Bytes
found_option none = none
found_option (some argv) = find_option argv

abbrev with_option : Bytes → Bytes → Option Bytes → Option Bytes
with_option executable_dir args none = some (args ++ b' ' ∷ library_path_option ++ executable_dir)
with_option executable_dir args (some option) = replace_option executable_dir args option

-- `prepend_to_java_library_path`; `parse_argv` is `poptParseArgvString`.
unfoldable pub prepend_to_java_library_path :
    (Bytes → Option (List Bytes)) → Bytes → Bytes → Option Bytes
prepend_to_java_library_path parse_argv executable_dir args =
    with_option executable_dir args (found_option (parse_argv args))

pub data FileKind : Type 0 where
  regular link another : FileKind

-- `get_cfg_dir`: `lstat` and `stat` give `none` when they fail, `resolve` is
-- `try_resolve_program_path`.
pub record FileSystem : Type 0 where
  pub lstat : Bytes → Option FileKind
  pub stat : Bytes → Option FileKind
  pub resolve : Bytes → Option Bytes
  pub dirname : Bytes → Bytes

abbrev is_regular : Option FileKind → Bool
is_regular (some FileKind.regular) = true
is_regular _ = false

abbrev is_link : Option FileKind → Bool
is_link (some FileKind.link) = true
is_link _ = false

-- The program's full path, and what it names.
unfoldable pub program_file : FileSystem → Bytes → Bytes × Option FileKind
program_file fs progpath = elim (fs.lstat progpath) [
  | some kind ↦ (progpath, some kind)
  | none ↦ elim (fs.resolve progpath) [
    | none ↦ (progpath, none)
    | some found ↦ (found, fs.lstat found)
  ]
]

unfoldable pub get_cfg_dir : FileSystem → Bytes → Bytes → Bytes → Bytes
get_cfg_dir fs executable_dir progpath cfg_file =
    let found = program_file fs progpath in
    let dir = fs.dirname found.0 in
    if is_link found.1
    then (if is_regular (fs.stat (dir ++ b'/' ∷ cfg_file)) then dir else executable_dir)
    else executable_dir

-- Without the option in the parsed arguments, one is added behind them, which starts with a
-- lowercase -d.
pub prepend_missing :
    (parse_argv : Bytes → Option (List Bytes)) (executable_dir args : Bytes) (argv : List Bytes)
    → parse_argv args ≡ some argv
    → find_option argv ≡ none
    → prepend_to_java_library_path parse_argv executable_dir args
      ≡ some (args ++ codes " -djava.library.path=" ++ executable_dir)
unfolding prepend_to_java_library_path
prepend_missing parse_argv executable_dir args argv p f = rw (p, f) refl

drop_both :
    (front option rest : Bytes)
    → drop (length front + length option) (front ++ (option ++ rest)) ≡ rest
drop_both front option rest =
    rw (← length-append front option, ← append_assoc front option rest)
      (drop-length-append (front ++ option) rest)

replaced :
    (executable_dir front option rest : Bytes)
    → strstr (front ++ (option ++ rest)) option ≡ some front
    → replace_option executable_dir (front ++ (option ++ rest)) option
      ≡ some (front ++ (prepended executable_dir option ++ rest))
unfolding replace_option
replaced executable_dir front option rest s =
    rw (replace_option, s)
      (ap (λ x. some (front ++ (prepended executable_dir option ++ x)))
        (drop_both front option rest))

field_key : (key value : Bytes) → Lacks b'=' key → field b'=' (key ++ b'=' ∷ value) ≡ (key, value)
unfolding field
field_key [] value h = refl
field_key (c ∷ key) value h = ground (arith, field_key key value h.1)

prepended_lem :
    (executable_dir key value : Bytes)
    → Lacks b'=' key
    → prepended executable_dir (b'-' ∷ key ++ b'=' ∷ value)
      ≡ b'-' ∷ key ++ b'=' ∷ (executable_dir ++ list_separator ∷ value)
unfolding prepended
prepended_lem executable_dir key value h = rw (field_key key value h) refl

-- Where the arguments hold the option and the text holds it as it was parsed, its first occurrence
-- there gives way to the same option with the executable's directory in front of the value; the
-- rest of the text stays as it is.
pub prepend_found :
    (parse_argv : Bytes → Option (List Bytes)) (executable_dir front key value rest : Bytes)
    (argv : List Bytes)
    → parse_argv (front ++ ((b'-' ∷ key ++ b'=' ∷ value) ++ rest)) ≡ some argv
    → find_option argv ≡ some (b'-' ∷ key ++ b'=' ∷ value)
    → strstr (front ++ ((b'-' ∷ key ++ b'=' ∷ value) ++ rest)) (b'-' ∷ key ++ b'=' ∷ value)
      ≡ some front
    → Lacks b'=' key
    → prepend_to_java_library_path parse_argv executable_dir
        (front ++ ((b'-' ∷ key ++ b'=' ∷ value) ++ rest))
      ≡ some (front ++ ((b'-' ∷ key ++ b'=' ∷ (executable_dir ++ list_separator ∷ value)) ++ rest))
unfolding prepend_to_java_library_path
prepend_found parse_argv executable_dir front key value rest argv p f s k =
    let option = b'-' ∷ key ++ b'=' ∷ value in
    rw (p, f)
      (replaced executable_dir front option rest s
        ∙ ap (λ x. some (front ++ (x ++ rest))) (prepended_lem executable_dir key value k))

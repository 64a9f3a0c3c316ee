-- ===== src/Text.antt =====
-- Small text helpers: src/main/cpp/str-split.cpp, src/main/cpp/path-concat.cpp and
-- src/main/cpp/mq-queue.cpp, and the `strtok_r` and `strrchr` that other files call.
pub mod Fields
pub mod Paths
use spartan_launcher.Prelude.{
  ℕ, zero, suc, ◌+◌, Bool, true, false, not, ◌&&◌, ◌||◌, Option, none, some, List, [], ◌∷◌, ◌++◌,
  ◌==◌, leb, if◌then◌else◌, Bytes, codes, is_empty, ℤ, pos, negsuc,
}

-- The local variables of `str_split`.
pub record Split : Type 0 where
  pub buf : Bytes
  pub v : List Bytes
  pub added : ℕ
  pub at_limit : Bool

-- A delimiter behind a fragment that is not empty.
unfoldable pub split_here : ℕ → ℕ → Split → Split
split_here limit n s =
    let added = if limit == 0 then s.added else s.added + 1 in
    let full = not (limit == 0) && leb limit added in
    let at_limit = s.at_limit || full in
    let buf = if full then s.buf ++ n ∷ [] else s.buf in
    if at_limit
    then record s { buf = buf; added = added; at_limit = at_limit }
    else record s { buf = []; v = s.v ++ buf ∷ []; added = added; at_limit = at_limit }

-- One round of the loop over the input.
unfoldable pub split_step : ℕ → ℕ → Split → ℕ → Split
split_step c limit s n =
    if not (n == c)
    then record s { buf = s.buf ++ n ∷ [] }
    else if not (is_empty s.buf)
    then split_here limit n s
    else s

unfoldable pub split_loop : ℕ → ℕ → Split → Bytes → Split
split_loop c limit s [] = s
split_loop c limit s (n ∷ text) = split_loop c limit (split_step c limit s n) text

abbrev split_end : Split → List Bytes
split_end s = if not (is_empty s.buf) then s.v ++ s.buf ∷ [] else s.v

abbrev pub at_least_zero : ℤ → ℕ
at_least_zero (pos n) = n
at_least_zero (negsuc n) = 0

abbrev pub no_split : Split
no_split = record { buf = []; v = []; added = 0; at_limit = false }

-- `str_split`; a negative limit is taken as 0.
pub str_split : Bytes → ℕ → ℤ → List Bytes
unfolding split_loop split_step
str_split text c limit = split_end (split_loop c (at_least_zero limit) no_split text)

-- What precedes the first delimiter, and what follows it.
unfoldable pub field : ℕ → Bytes → Bytes × Bytes
field c [] = ([], [])
field c (n ∷ s) = if n == c then ([], s) else (n ∷ (field c s).0, (field c s).1)

unfoldable pub skip : ℕ → Bytes → Bytes
skip c [] = []
skip c (n ∷ s) = if n == c then skip c s else n ∷ s

-- `strtok_r` with one delimiter: the token and the saved rest.
unfoldable pub strtok : ℕ → Bytes → Option (Bytes × Bytes)
unfolding field skip
strtok c s = elim (skip c s) [ [] ↦ none | n ∷ r ↦ some (field c (n ∷ r)) ]

-- `kPathSeparator`
abbrev pub path_separator : ℕ
path_separator = b'/'

-- The text before its last byte, and that byte.
unfoldable pub unsnoc : Bytes → Option (Bytes × ℕ)
unsnoc [] = none
unsnoc (n ∷ []) = some ([], n)
unsnoc (n ∷ m ∷ s) = elim (unsnoc (m ∷ s)) [ none ↦ none | some (front, z) ↦ some (n ∷ front, z) ]

-- `path_concat`
unfoldable pub path_concat : Bytes → Bytes → Bytes
unfolding unsnoc
path_concat a b = elim (unsnoc a) [
  | none ↦ b
  | some (front, z) ↦
      if not (z == b'/') && not (z == b'\\')
      then a ++ path_separator ∷ b
      else if not (z == path_separator)
      then front ++ path_separator ∷ b
      else a ++ b
]

-- `get_jlauncher_mq_queue_name` and `get_jsupervisor_mq_queue_name`
unfoldable pub jlauncher_queue_name : Bytes → Bytes
jlauncher_queue_name prog = b'/' ∷ prog ++ codes "_JLauncher"

unfoldable pub jsupervisor_queue_name : Bytes → Bytes
jsupervisor_queue_name prog = b'/' ∷ prog ++ codes "_JSupervisor"

-- What precedes the last slash, and what follows it, if there is a slash and something follows.
unfoldable pub split_last_slash : Bytes → Option (Bytes × Bytes)
split_last_slash [] = none
split_last_slash (n ∷ s) = elim (split_last_slash s) [
  | some (front, name) ↦ some (n ∷ front, name)
  | none ↦ if n == b'/' && not (is_empty s) then some ([], s) else none
]

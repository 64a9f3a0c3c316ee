-- ===== src/Fifo.antt =====
-- The names of pipes and sockets: src/main/cpp/fifo-pipe.cpp. The numbers that `rand_r` gives, and
-- `RAND_MAX`, are parameters.
pub mod Names
use spartan_launcher.Prelude.{
  ℕ, ◌+◌, ◌-◌, ◌*◌, ◌/◌, ◌%◌, ◌^◌, Bool, true, false, Option, none, some, List, [], ◌∷◌, ◌++◌, ltb,
  if◌then◌else◌, Bytes, codes, length, same_text,
}
use spartan_launcher.Stream.Numbers.{format_ℕ}

-- The variables of `get_rnd_nbr`, which are unsigned.
abbrev pub range : ℕ → ℕ → ℕ
range min_n max_n = (1 + max_n - min_n) % 2 ^ 32

abbrev pub buckets : ℕ → ℕ → ℕ → ℕ
buckets rand_max min_n max_n = rand_max / range min_n max_n

abbrev pub limit : ℕ → ℕ → ℕ → ℕ
limit rand_max min_n max_n = buckets rand_max min_n max_n * range min_n max_n

-- `get_rnd_nbr`, with the numbers that are left; `none` where those given are at an end.
unfoldable pub get_rnd_nbr : ℕ → ℕ → ℕ → List ℕ → Option (ℕ × List ℕ)
get_rnd_nbr rand_max min_n max_n [] = none
get_rnd_nbr rand_max min_n max_n (rnd_n ∷ more) =
    let rest = get_rnd_nbr rand_max min_n max_n more in
    if ltb rnd_n (limit rand_max min_n max_n)
    then some ((min_n + rnd_n / buckets rand_max min_n max_n) % 2 ^ 32, more)
    else rest

-- The text that `snprintf` formats.
abbrev pub pipe_name : Bytes → Bytes → ℕ → ℕ → Bytes
pipe_name progname basename pid n =
    codes "/tmp/" ++ (progname ++ b'_' ∷ (basename ++ b'_' ∷ (format_ℕ pid ++ b'_' ∷ format_ℕ n)))

-- The attempts to format a name, by the numbers that they draw, each its own: a buffer that is too
-- small is made as large as that attempt's text; `none` where those given are at an end.
unfoldable pub format_name : ℕ → (ℕ → Bytes) → List ℕ → Option Bytes
format_name strbuf_size text [] = none
format_name strbuf_size text (n ∷ numbers) =
    let rest = format_name (length (text n) + 1) text numbers in
    if ltb (length (text n)) strbuf_size then some (text n) else rest

-- `make_fifo_pipe_name`
unfoldable pub make_fifo_pipe_name : Bytes → Bytes → ℕ → List ℕ → Option Bytes
make_fifo_pipe_name progname basename pid numbers =
    format_name 256 (pipe_name progname basename pid) numbers

abbrev pub jlauncher_fifo_pipe_basename : Bytes
jlauncher_fifo_pipe_basename = codes "JLauncher_FIFO_pipe"

-- `make_jlauncher_fifo_pipe_name`
unfoldable pub make_jlauncher_fifo_pipe_name : Bytes → ℕ → List ℕ → Option Bytes
make_jlauncher_fifo_pipe_name progname pid numbers =
    make_fifo_pipe_name progname jlauncher_fifo_pipe_basename pid numbers

-- The pipes that are there, by their names, behind a call; and what it gave, `none` for its
-- exception.
pub record FifoCall (A : Type 0) : Type 0 where
  pub pipes : List Bytes
  pub gave : Option A

abbrev pub without : Bytes → List Bytes → List Bytes
without name [] = []
without name (p ∷ pipes) =
    let rest = without name pipes in if same_text p name then rest else p ∷ rest

-- `make_fifo_pipe`, by whether `mkfifo` succeeds.
unfoldable pub make_fifo_pipe : Bool → Bytes → List Bytes → FifoCall (Unit {0})
make_fifo_pipe true name pipes = record { pipes = name ∷ pipes; gave = some tt }
make_fifo_pipe false name pipes = record { pipes = pipes; gave = none }

-- `open_fifo_pipe` and `close_fifo_pipe`, which remove the name where they fail.
unfoldable pub open_fifo_pipe : Option ℕ → Bytes → List Bytes → FifoCall ℕ
open_fifo_pipe (some fd) name pipes = record { pipes = pipes; gave = some fd }
open_fifo_pipe none name pipes = record { pipes = without name pipes; gave = none }

unfoldable pub close_fifo_pipe : Bool → Bytes → List Bytes → FifoCall (Unit {0})
close_fifo_pipe true name pipes = record { pipes = pipes; gave = some tt }
close_fifo_pipe false name pipes = record { pipes = without name pipes; gave = none }

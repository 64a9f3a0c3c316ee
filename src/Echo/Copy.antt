-- ===== src/Echo/Copy.antt =====
-- Copying a pipe that is ready: `write_to_output_stream` of src/main/cpp/read-on-ready.cpp.
pub mod Laws
use spartan_launcher.Prelude.{
  ℕ, zero, suc, ◌+◌, ◌%◌, ◌^◌, Bool, true, false, Option, none, some, List, [], ◌∷◌, ◌++◌, ◌==◌,
  ltb, if◌then◌else◌, Bytes, length, take,
}

-- `WRITE_RESULT`
pub data WriteResult : Type 0 where
  no_op success failure interrupted end_of_file pipe_conn_broken : WriteResult

-- What a `read` gives: bytes (none at the end of the file), -1 as it would block, or another -1.
pub data Read : Type 0 where
  bytes : Bytes → Read
  would_block failed : Read

-- A turn of the copying: whether a signal came before it, what is read, and how many bytes the
-- `write` of these then takes, `none` for -1. A `read` gives no more than it is asked for.
pub record Turn : Type 0 where
  pub signalled : Bool
  pub what : Read
  pub written : Option ℕ

-- The bytes that the output has, and the counters `read_total`, `n_read` and `n_writ`.
pub record Copy : Type 0 where
  pub output : Bytes
  pub read_total : ℕ
  pub n_read : ℕ
  pub n_writ : ℕ

abbrev pub ullint : ℕ → ℕ
ullint n = n % 2 ^ 64

abbrev pub taken : Option ℕ → ℕ
taken none = 0
taken (some nw) = nw

abbrev pub is_all : Bytes → Option ℕ → Bool
is_all text none = false
is_all text (some nw) = nw == length text

-- `write_output`
unfoldable pub write_output : Bytes → Option ℕ → Copy → WriteResult × Copy
write_output text nw c = (
  if is_all text nw then success else failure,
  record {
    output = c.output ++ take (taken nw) text;
    read_total = ullint (c.read_total + length text);
    n_read = ullint (c.n_read + length text);
    n_writ = ullint (c.n_writ + taken nw);
  },
)

-- `EAGAIN` means a broken pipe where nothing was read.
abbrev pub blocked : Copy → WriteResult
blocked c = if ltb 0 c.read_total then no_op else pipe_conn_broken

-- Whether the copying stops at the result of a `write`.
abbrev pub goes_on : WriteResult → Bool
goes_on no_op = true
goes_on success = true
goes_on _ = false

-- What follows a `write`.
abbrev pub after_write : (Copy → WriteResult × Copy) → WriteResult × Copy → WriteResult × Copy
after_write rest (wr, c) = if goes_on wr then rest c else (wr, c)

-- A turn of the lambda `echo`, by the signal, the read and the write.
unfoldable pub echo_turn :
    Bool → Read → Option ℕ → (Copy → WriteResult × Copy) → Copy → WriteResult × Copy
echo_turn true what nw rest c = (interrupted, c)
echo_turn false would_block nw rest c = (blocked c, c)
echo_turn false failed nw rest c = (failure, c)
echo_turn false (bytes []) nw rest c = (end_of_file, c)
echo_turn false (bytes (b ∷ text)) nw rest c = after_write rest (write_output (b ∷ text) nw c)

-- The lambda `echo`. Behind the turns that are listed, the file is at its end.
unfoldable pub echo : List Turn → Copy → WriteResult × Copy
echo [] c = (end_of_file, c)
echo (t ∷ turns) c = echo_turn t.signalled t.what t.written (echo turns) c

-- The first read, where `poll` shows an error or a hang-up; no signal is looked for.
unfoldable pub hung_up_turn :
    Read → Option ℕ → (Copy → WriteResult × Copy) → Copy → WriteResult × Copy
hung_up_turn would_block nw rest c = (pipe_conn_broken, c)
hung_up_turn failed nw rest c = (failure, c)
hung_up_turn (bytes []) nw rest c = (end_of_file, c)
hung_up_turn (bytes (b ∷ text)) nw rest c = after_write rest (write_output (b ∷ text) nw c)

unfoldable pub read_hung_up : List Turn → Copy → WriteResult × Copy
read_hung_up [] c = (end_of_file, c)
read_hung_up (t ∷ turns) c = hung_up_turn t.what t.written (echo turns) c

abbrev pub new_copy : Bytes → ℕ → Copy
new_copy output n_writ = record { output = output; read_total = 0; n_read = 0; n_writ = n_writ }

-- `write_to_output_stream`: for an output that has no descriptor, a pipe hung up, or any other.
unfoldable pub write_to_output_stream : Bool → Bool → List Turn → Bytes → ℕ → WriteResult × Copy
write_to_output_stream has_fd hung_up turns output n_writ =
    let c = new_copy output n_writ in
    if has_fd then (if hung_up then read_hung_up turns c else echo turns c) else (failure, c)

-- ===== src/Echo/Response.antt =====
-- `stdout_echo_response_stream` of src/main/cpp/echo-streams.cpp: the tables of the pipes that a
-- client obtained, the exit code of their rounds, and the handler of Ctrl-C.
pub mod Tables
pub mod Exit
pub mod Interrupts
use spartan_launcher.Prelude.{
  ℕ, Bool, true, false, not, ◌&&◌, ◌||◌, Option, none, some, List, [], ◌∷◌, ◌==◌, if◌then◌else◌,
}
use spartan_launcher.Pipes.{End, Response}
use spartan_launcher.Echo.Copy.{WriteResult}
use spartan_launcher.Echo.Streams.{Fcntl, FdMap, insert, add_one, add_three}
use spartan_launcher.Echo.Rounds.{Output, Streams, Outcome, Poll, is_end, multi_read_on_ready}

-- What the calls of the client give: the numbers of the ends that it obtained, the duplicate of its
-- stdin and whether that does not block, whether there is a stream for the third end, and the
-- calls of `stream_ctx`.
pub record Client : Type 0 where
  pub fd_of : End → ℕ
  pub dup_stdin : Option ℕ
  pub stdin_nonblock : Bool
  pub fdopen_ok : Bool
  pub fcntl : Fcntl
  pub outputs : ℕ → Output

-- The numbers of the outputs: stdout, stderr, and the stream for the third end.
abbrev pub started : (ℕ → Output) → FdMap → List (ℕ × ℕ) → Outcome
started outputs m os = record {
  streams = record {
    is_ctrl_z_registered = false;
    fd_map = m;
    output_streams_map = os;
    outputs = outputs;
  };
  ec = 0;
  wr = WriteResult.no_op;
}

abbrev pub with_map : Client → List (ℕ × ℕ) → Option FdMap → Option Outcome
with_map cl os none = none
with_map cl os (some m) = some (started cl.outputs m os)

-- The three streams of a react command, by the duplicate of stdin.
abbrev pub react_tables : Client → ℕ → ℕ → Option ℕ → Option Outcome
react_tables cl rsp err none = none
react_tables cl rsp err (some in') =
    if cl.stdin_nonblock && cl.fdopen_ok
    then with_map cl (insert in' 2 (insert err 1 (insert rsp 0 [])))
        (add_three cl.fcntl rsp err in' [])
    else none

abbrev pub tables_for : Client → ℕ → Option End → Option End → Option Outcome
tables_for cl rsp (some err) (some wrt) = react_tables cl rsp (cl.fd_of err) cl.dup_stdin
tables_for cl rsp _ _ = with_map cl (insert rsp 0 []) (add_one cl.fcntl rsp [])

-- The tables before the first round; `none` where the code returns with a failure.
unfoldable pub tables : Client → Response → Option Outcome
tables cl r = tables_for cl (cl.fd_of r.rdr_fd) r.err_fd r.wrt_fd

abbrev pub exit_status : Outcome → ℕ
exit_status o = if o.ec == 0 || is_end o.wr then 0 else 1

abbrev pub echo_rounds : List (Bool × Poll) → Option Outcome → ℕ
echo_rounds rounds none = 1
echo_rounds rounds (some o) = exit_status (multi_read_on_ready rounds o)

-- `stdout_echo_response_stream`, from what the client obtained: the exit code after the rounds;
-- `none` is the exception where nothing was obtained.
unfoldable pub stdout_echo_response_stream :
    Client → Option Response → List (Bool × Poll) → Option ℕ
stdout_echo_response_stream cl none rounds = none
stdout_echo_response_stream cl (some r) rounds = some (echo_rounds rounds (tables cl r))

-- `s_sig_state`, with -1 as `none`; a pid of 0 is none.
pub record SigState : Type 0 where
  pub child_prcs_pid : ℕ
  pub supervisor_pid : Option ℕ
  pub rsp_fd : Option ℕ
  pub err_fd : Option ℕ
  pub wrt_fd : Option ℕ

-- What the handler does: closes descriptors, signals a process and ends the client; warns; or
-- nothing.
pub data Handled : Type 0 where
  killed : List (Option ℕ) → ℕ → Handled
  warned ignored : Handled

abbrev pub cleared : SigState
cleared = record {
  child_prcs_pid = 0;
  supervisor_pid = some 0;
  rsp_fd = none;
  err_fd = none;
  wrt_fd = none;
}

abbrev pub is_pid : Option ℕ → ℕ → Bool
is_pid none pid = false
is_pid (some n) pid = n == pid

-- The handler that is set for SIGINT, which then is ignored: it takes the state away, under the
-- lock.
unfoldable pub on_sigint : SigState → Handled × SigState
on_sigint s = (
  if not (s.child_prcs_pid == 0) && not (is_pid s.supervisor_pid s.child_prcs_pid)
      then killed (s.rsp_fd ∷ s.err_fd ∷ s.wrt_fd ∷ []) s.child_prcs_pid
      else if not (is_pid s.supervisor_pid 0)
      then warned
      else ignored,
  cleared,
)

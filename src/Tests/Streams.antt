-- ===== src/Tests/Streams.antt =====
-- Pipes that are copied, read together, and handed over.
use spartan_launcher.Prelude.{
  ℕ, ◌≢◌, ltb, length, Bytes, ◌&&◌, ◌+◌, ◌≡◌, ◌⊎◌, ◌++◌, refl, true, false, Bool, none, some, List,
  [], ◌∷◌, arith, codes, if◌then◌else◌,
}
use mathlib.Core.List.{Perm}
use spartan_launcher.Pipes.{End, Sending, Response, open_react_anon_pipes, obtain_response_stream}
use spartan_launcher.Pipes.Handshake.{
  open_react_anon_pipes-obtained, open_react_anon_pipes-closed, kept_three, all_ends,
}
use spartan_launcher.Pipes.{address}
use spartan_launcher.Pipes.Binding.{Binding, bind_uds_socket_name, bind_uds_socket_name-apart}
use spartan_launcher.Stream.Numbers.{format_ℕ, digits}
use spartan_launcher.Fifo.{pipe_name, format_name, make_fifo_pipe_name}
use spartan_launcher.Capture.{Calls, PipeRead, get_capture, new_capture, capture_stdout_stderr}
use spartan_launcher.Capture.Restored.{capture_stdout_stderr-back}
use spartan_launcher.Echo.Copy.{WriteResult, Read, Turn, new_copy, write_to_output_stream}
use spartan_launcher.Echo.Copy.Laws.{Copies, copied, as_read, turn, write_to_output_stream-Copies}
use spartan_launcher.Echo.Streams.{insert, stream_ctx, add_three}
use spartan_launcher.Echo.Rounds.{Outcome, Poll, is_end, multi_read_on_ready}
use spartan_launcher.Echo.Copy.{goes_on}
use spartan_launcher.Echo.Response.{Client, started, tables, exit_status, SigState}
use spartan_launcher.Echo.Response.Tables.{react_table}
use spartan_launcher.Echo.Response.Exit.{echo-together}

abbrev blocked_turn : Turn
blocked_turn = record { signalled = false; what = Read.would_block; written = some 0 }

abbrev turns : List Turn
turns = turn b'a' (codes "bc") ∷ blocked_turn ∷ []

write_to_output_stream_example :
    Copies
      (copied (as_read false turns))
      (new_copy (codes "> ") 2)
      (write_to_output_stream true false turns (codes "> ") 2)
unfolding copied
write_to_output_stream_example =
    write_to_output_stream-Copies (codes "> ") 2 false turns (refl, (refl, tt)) (omega arith)

abbrev client : Client
client = record {
  fd_of = λ e. elim e [ End.read_end p ↦ p | End.write_end p ↦ p | End.descriptor p ↦ p ];
  dup_stdin = some 9;
  stdin_nonblock = true;
  fdopen_ok = true;
  fcntl = record { dup = λ fd. some (fd + 10); set_nonblock = λ fd. true };
  outputs = λ id. record { has_fd = true; bytes = []; bytes_written = 0 };
}

abbrev react_response : Response
react_response = record {
  pid = 4001;
  rdr_fd = End.read_end 5;
  err_fd = some (End.read_end 6);
  wrt_fd = some (End.write_end 7);
}

abbrev start : Outcome
start = started client.outputs (react_table (5, 15) (6, 16) (9, 19)) ((5, 0) ∷ (6, 1) ∷ (9, 2) ∷ [])

abbrev one_round : List (Bool × Poll)
one_round = (false, Poll.ready (record { fd = 5; hung_up = false; turns = [] } ∷ [])) ∷ []

echo-together_example :
    let end = multi_read_on_ready one_round start in
    ((end.streams.fd_map ≡ start.streams.fd_map)
      × (end.wr ≡ WriteResult.no_op)
      × (exit_status end ≡ 0))
    ⊎ ((end.streams.fd_map ≡ [])
        × (end.streams.output_streams_map ≡ [])
        × (goes_on end.wr ≡ false)
        × (exit_status end ≡ (if is_end end.wr then 0 else 1)))
unfolding tables add_three insert stream_ctx
echo-together_example =
    echo-together client react_response start one_round
      (λ d e. (ground arith, ground arith, ground arith)) refl

abbrev results : List (ℕ × WriteResult)
results = (5, WriteResult.end_of_file) ∷ (6, WriteResult.failure) ∷ []

abbrev signals : SigState
signals = record {
  child_prcs_pid = 4001;
  supervisor_pid = some 77;
  rsp_fd = some 5;
  err_fd = none;
  wrt_fd = none;
}

abbrev sending : Sending
sending = record {
  socket_made = true;
  pipe = λ n. some (n + 40);
  sendto_ok = true;
  sendmsg_ok = true;
  own_pid = 4001;
}

abbrev kept : End × End × End
kept = (End.write_end 40, End.write_end 41, End.read_end 42)

open_react_anon_pipes-obtained_example :
    (a : ℕ) × (b : ℕ) × (c : ℕ) × ((End.write_end a, End.write_end b, End.read_end c) ≡ kept)
    × (obtain_response_stream (open_react_anon_pipes sending).sent
        ≡ some (record {
          pid = 4001;
          rdr_fd = End.read_end a;
          err_fd = some (End.read_end b);
          wrt_fd = some (End.write_end c);
        }))
unfolding open_react_anon_pipes
open_react_anon_pipes-obtained_example = open_react_anon_pipes-obtained sending kept refl

open_react_anon_pipes-closed_example :
    Perm
      ((open_react_anon_pipes sending).closed ++ kept_three (open_react_anon_pipes sending).result)
      (all_ends (open_react_anon_pipes sending).made)
open_react_anon_pipes-closed_example = open_react_anon_pipes-closed sending

-- A capture in which a read fails.
abbrev calls : Calls
calls = record {
  made = true;
  start_stdout = true;
  start_stderr = true;
  action_returns = true;
  reads = PipeRead.some_bytes (codes "ab") ∷ PipeRead.failed ∷ [];
  stop_stdout = true;
  stop_stderr = true;
  stop_stderr_failing = true;
  end_stdout = true;
  end_stderr = true;
}

capture_stdout_stderr-back_example : capture_stdout_stderr calls ≡ (
  if (true && true) && true
      then get_capture [] (PipeRead.some_bytes (codes "ab") ∷ PipeRead.failed ∷ [])
      else none,
  new_capture,
)
capture_stdout_stderr-back_example =
    capture_stdout_stderr-back calls
      (record { stop_stdout = refl; stop_stderr = refl; end_stdout = refl; end_stderr = refl }) refl

abbrev name_of : ℕ → Bytes
name_of pid = pipe_name (codes "tool") (codes "JLauncher_UDS") pid 7

bound_as :
    (pid : ℕ)
    → ltb (length (name_of pid)) 256 ≡ true
    → bind_uds_socket_name (codes "tool") pid (7 ∷ []) (some 5) (λ a. true)
      ≡ Binding.bound 5 (name_of pid) (address (name_of pid))
unfolding bind_uds_socket_name make_fifo_pipe_name format_name
bound_as pid h = rw h refl

bind_uds_socket_name-apart_example :
    (address (name_of 4001) ≢ address (name_of 4002))
    × (address (name_of 4001) ≡ address (name_of 4001))
    × (address (name_of 4002) ≡ address (name_of 4002))
unfolding format_ℕ digits
bind_uds_socket_name-apart_example =
    bind_uds_socket_name-apart (codes "tool") 4001 4002 (7 ∷ []) (7 ∷ []) (some 5) (some 5)
      (λ a. true) (λ a. true) 5 5 (name_of 4001) (name_of 4002) (address (name_of 4001))
      (address (name_of 4002)) (bound_as 4001 refl) (bound_as 4002 refl) (omega arith) (omega arith)
      (ground arith)

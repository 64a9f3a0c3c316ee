-- ===== src/Echo/Rounds.antt =====
-- The rounds over the pipes: `poll_for_io` of src/main/cpp/read-multi-strm.cpp and
-- `multi_read_on_ready` of src/main/cpp/read-on-ready.cpp.
pub mod Together
use spartan_launcher.Prelude.{
  ℕ, zero, suc, ◌+◌, Bool, true, false, not, ◌||◌, ◌&&◌, Option, none, some, List, [], ◌∷◌, ◌++◌,
  ◌==◌, if◌then◌else◌, Bytes, is_empty,
}
use spartan_launcher.Echo.Copy.{WriteResult, Turn, Copy, goes_on, write_to_output_stream}
use spartan_launcher.Echo.Streams.{
  StreamCtx, ReactIoCtx, FdMap, is_valid_init, find, erase, lookup_react_io_ctx,
  lookup_mutable_stream_ctx,
}

-- What an output has, and `output_stream_context`: whether it has a descriptor, and its counter.
pub record Output : Type 0 where
  pub has_fd : Bool
  pub bytes : Bytes
  pub bytes_written : ℕ

-- The tables of the loop: the pipes, and for each the number of its output.
pub record Streams : Type 0 where
  pub is_ctrl_z_registered : Bool
  pub fd_map : FdMap
  pub output_streams_map : List (ℕ × ℕ)
  pub outputs : ℕ → Output

-- A pipe that `poll` shows: its descriptor, whether it shows an error or hang-up, and its turns.
pub record Ready : Type 0 where
  pub fd : ℕ
  pub hung_up : Bool
  pub turns : List Turn

abbrev pub is_some {ℓ} : {A : Type ℓ} → Option A → Bool
is_some none = false
is_some (some _) = true

-- `poll_for_io`: only pipes of the table are polled.
unfoldable pub poll_for_io : FdMap → List Ready → List Ready
poll_for_io m [] = []
poll_for_io m (r ∷ shown) =
    let rest = poll_for_io m shown in
    if is_some (lookup_react_io_ctx r.fd m) then r ∷ rest else rest

-- The results of the futures, with the tables.
abbrev pub Launched : Type 0
Launched = List (ℕ × WriteResult) × Streams

abbrev pub put_output : ℕ → Copy → Streams → Streams
put_output id c s = record s {
  outputs = λ k.
      if k == id
      then record (s.outputs id) { bytes = c.output; bytes_written = c.n_writ }
      else s.outputs k;
}

abbrev pub add_result : ℕ × WriteResult → Launched → Launched
add_result r (results, s) = (r ∷ results, s)

-- The future of a pipe, by the output that was found for it.
unfoldable pub launch_on : Ready → (Streams → Launched) → Streams → Option ℕ → Launched
launch_on r rest s none = rest s
launch_on r rest s (some id) =
    let o = s.outputs id in
    let (wr, c) = write_to_output_stream o.has_fd r.hung_up r.turns o.bytes o.bytes_written in
    add_result (r.fd, wr) (rest (put_output id c s))

-- A pipe by its context; one that is not valid is taken out, and ends the loop over the pipes.
unfoldable pub launch_ctx : Ready → (Streams → Launched) → Streams → Option StreamCtx → Launched
launch_ctx r rest s none = rest s
launch_ctx r rest s (some ctx) =
    if is_valid_init ctx
    then launch_on r rest (record s { is_ctrl_z_registered = true })
        (find r.fd s.output_streams_map)
    else (
      [],
      record s {
        fd_map = erase r.fd s.fd_map;
        output_streams_map = erase r.fd s.output_streams_map;
      },
    )

-- The loop that starts the futures.
unfoldable pub launch : List Ready → Streams → Launched
launch [] s = ([], s)
launch (r ∷ pollfds) s = launch_ctx r (launch pollfds) s (lookup_mutable_stream_ctx r.fd s.fd_map)

-- The variables `ec` and `wr`, with the tables.
pub record Outcome : Type 0 where
  pub streams : Streams
  pub ec : ℕ
  pub wr : WriteResult

abbrev pub drop_fd : Option ℕ → Streams → Streams
drop_fd none s = s
drop_fd (some fd) s = record s {
  fd_map = erase fd s.fd_map;
  output_streams_map = erase fd s.output_streams_map;
}

abbrev pub drop_ctx : Option ReactIoCtx → Streams → Streams
drop_ctx none s = s
drop_ctx (some c) s =
    drop_fd c.stdin_ctx.orig_fd (drop_fd c.stderr_ctx.orig_fd (drop_fd c.stdout_ctx.orig_fd s))

abbrev pub is_no_op : WriteResult → Bool
is_no_op WriteResult.no_op = true
is_no_op _ = false

abbrev pub is_end : WriteResult → Bool
is_end WriteResult.end_of_file = true
is_end _ = false

-- A result that cannot go on takes the pipes out that belong together.
unfoldable pub harvest_one : ℕ → WriteResult → Outcome → Outcome
harvest_one fd wr2 o = if goes_on wr2 then o else record {
  streams = drop_ctx (lookup_react_io_ctx fd o.streams.fd_map) o.streams;
  ec = if is_end wr2 then o.ec else 1;
  wr = if is_no_op o.wr then wr2 else o.wr;
}

-- The loop over the results.
unfoldable pub harvest : List (ℕ × WriteResult) → Outcome → Outcome
harvest [] o = o
harvest ((fd, wr2) ∷ results) o = harvest results (harvest_one fd wr2 o)

-- What a call of `poll` gives: `EINTR`, or the pipes that are ready.
pub data Poll : Type 0 where
  eintr : Poll
  ready : List Ready → Poll

unfoldable pub after_launch : ℕ → Launched → Outcome
after_launch ec (results, s) =
    harvest results (record { streams = s; ec = ec; wr = WriteResult.no_op })

unfoldable pub round : Poll → Outcome → Outcome
round eintr o = o
round (ready shown) o = after_launch o.ec (launch (poll_for_io o.streams.fd_map shown) o.streams)

-- `multi_read_on_ready`, as far as there are rounds: each with whether a signal came before it.
unfoldable pub multi_read_on_ready : List (Bool × Poll) → Outcome → Outcome
multi_read_on_ready [] o = o
multi_read_on_ready ((interrupted, poll) ∷ rounds) o =
    let rest = multi_read_on_ready rounds (round poll o) in
    if is_empty o.streams.fd_map || interrupted then o else rest

-- ===== src/Echo/Streams.antt =====
-- The pipes that are read together: src/main/cpp/stream-ctx.cpp and
-- src/main/cpp/read-multi-strm.cpp. A descriptor that is -1 is `none`; a map is a list of pairs,
-- whose order says nothing.
use spartan_launcher.Prelude.{
  ℕ, Bool, true, false, Option, none, some, List, [], ◌∷◌, ◌==◌, if◌then◌else◌,
}

pub record StreamCtx : Type 0 where
  pub orig_fd : Option ℕ
  pub dup_fd : Option ℕ
  pub is_stderr_flag : Bool

-- `stream_ctx` by default.
abbrev pub no_stream : StreamCtx
no_stream = record { orig_fd = none; dup_fd = none; is_stderr_flag = false }

-- What the two calls give: `dup` of a descriptor, and whether `fcntl` makes that one not block.
pub record Fcntl : Type 0 where
  pub dup : ℕ → Option ℕ
  pub set_nonblock : ℕ → Bool

abbrev pub stream_of : Fcntl → ℕ → Option ℕ → Option StreamCtx
stream_of sys fd none = none
stream_of sys fd (some copy) =
    if sys.set_nonblock copy
    then some (record { orig_fd = some fd; dup_fd = some copy; is_stderr_flag = false })
    else none

-- `stream_ctx::stream_ctx`; `none` is its exception.
unfoldable pub stream_ctx : Fcntl → ℕ → Option StreamCtx
stream_ctx sys fd = stream_of sys fd (sys.dup fd)

abbrev pub both_set : Option ℕ → Option ℕ → Bool
both_set (some _) (some _) = true
both_set _ _ = false

abbrev pub is_valid_init : StreamCtx → Bool
is_valid_init c = both_set c.orig_fd c.dup_fd

pub record ReactIoCtx : Type 0 where
  pub stdout_ctx : StreamCtx
  pub stderr_ctx : StreamCtx
  pub stdin_ctx : StreamCtx

module _ {ℓ} {A : Type ℓ} where
  unfoldable pub find : ℕ → List (ℕ × A) → Option A
  find fd [] = none
  find fd ((k, a) ∷ m) = let rest = find fd m in if k == fd then some a else rest

  -- `erase`
  unfoldable pub erase : ℕ → List (ℕ × A) → List (ℕ × A)
  erase fd [] = []
  erase fd ((k, a) ∷ m) = let rest = erase fd m in if k == fd then rest else (k, a) ∷ rest

  -- `insert`: a key that is there keeps its value.
  unfoldable pub insert : ℕ → A → List (ℕ × A) → List (ℕ × A)
  insert fd a [] = (fd, a) ∷ []
  insert fd a ((k, b) ∷ m) =
      let rest = insert fd a m in if k == fd then (k, b) ∷ m else (k, b) ∷ rest

abbrev pub FdMap : Type 0
FdMap = List (ℕ × ReactIoCtx)

-- `lookup_react_io_ctx`
unfoldable pub lookup_react_io_ctx : ℕ → FdMap → Option ReactIoCtx
unfolding find
lookup_react_io_ctx fd m = find fd m

abbrev pub is_fd : Option ℕ → ℕ → Bool
is_fd none fd = false
is_fd (some n) fd = n == fd

abbrev pub stream_in : ℕ → Option ReactIoCtx → Option StreamCtx
stream_in fd none = none
stream_in fd (some c) =
    if is_fd c.stdout_ctx.orig_fd fd
    then some c.stdout_ctx
    else if is_fd c.stderr_ctx.orig_fd fd
    then some c.stderr_ctx
    else if is_fd c.stdin_ctx.orig_fd fd
    then some c.stdin_ctx
    else none

-- `lookup_mutable_stream_ctx`
unfoldable pub lookup_mutable_stream_ctx : ℕ → FdMap → Option StreamCtx
unfolding find
lookup_mutable_stream_ctx fd m = stream_in fd (find fd m)

abbrev pub with_one : ℕ → FdMap → Option StreamCtx → Option FdMap
with_one fd m none = none
with_one fd m (some c) =
    some (insert fd (record { stdout_ctx = c; stderr_ctx = no_stream; stdin_ctx = no_stream }) m)

-- `operator +=` for one descriptor; `none` is the exception of `stream_ctx`.
unfoldable pub add_one : Fcntl → ℕ → FdMap → Option FdMap
unfolding insert
add_one sys fd m = with_one fd m (stream_ctx sys fd)

abbrev pub with_three :
    ℕ → ℕ → ℕ → FdMap → Option StreamCtx → Option StreamCtx → Option StreamCtx → Option FdMap
with_three out err in' m (some a) (some b) (some c) =
    let item : ReactIoCtx = record {
      stdout_ctx = a;
      stderr_ctx = record b { is_stderr_flag = true };
      stdin_ctx = c;
    } in
    some (insert in' item (insert err item (insert out item m)))
with_three out err in' m _ _ _ = none

-- `operator +=` for three descriptors, by `add_entry_to_map`: one shared item for all of them.
unfoldable pub add_three : Fcntl → ℕ → ℕ → ℕ → FdMap → Option FdMap
unfolding insert
add_three sys out err in' m =
    with_three out err in' m (stream_ctx sys out) (stream_ctx sys err) (stream_ctx sys in')

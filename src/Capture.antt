-- ===== src/Capture.antt =====
-- Capturing what a call writes to stdout and stderr: src/main/cpp/StdOutCapture.cpp. The program
-- uses it for the description of Java exceptions. What the system calls give is a parameter.
pub mod Restored
use spartan_launcher.Prelude.{
  ℕ, Bool, true, false, not, ◌&&◌, Option, none, some, List, [], ◌∷◌, ◌++◌, ◌==◌, if◌then◌else◌,
  Bytes,
}

-- Where a descriptor leads: to what it did before, or into the pipe.
pub data Target : Type 0 where
  before pipe : Target

-- What the object holds, and where stdout and stderr lead.
pub record Capture : Type 0 where
  pub stdout : Target
  pub stderr : Target
  pub is_capturing : Bool

-- What a `read` of the pipe gives: bytes, 0 or `EAGAIN`, or another error.
pub data PipeRead : Type 0 where
  some_bytes : Bytes → PipeRead
  no_more failed : PipeRead

-- What the calls give: whether the constructor's succeed, each `dup2` in turn (that of the branch
-- where another failed included), whether the action throws, and the reads.
pub record Calls : Type 0 where
  pub made : Bool
  pub start_stdout : Bool
  pub start_stderr : Bool
  pub action_returns : Bool
  pub reads : List PipeRead
  pub stop_stdout : Bool
  pub stop_stderr : Bool
  pub stop_stderr_failing : Bool
  pub end_stdout : Bool
  pub end_stderr : Bool

abbrev pub new_capture : Capture
new_capture = record { stdout = before; stderr = before; is_capturing = false }

-- `dup2` onto a descriptor.
abbrev pub dup2 : Bool → Target → Target → Target
dup2 true to from = to
dup2 false to from = from

-- `start_capture`: whether it returns, and the state.
unfoldable pub start_capture : Calls → Capture → Bool × Capture
start_capture calls c =
    if c.is_capturing
    then (true, c)
    else if not calls.start_stdout
    then (false, c)
    else if not calls.start_stderr
    then (false, record c { stdout = pipe })
    else (true, record { stdout = pipe; stderr = pipe; is_capturing = true })

-- The text of a buffer, as a C string.
unfoldable pub c_str : Bytes → Bytes
c_str [] = []
c_str (b ∷ buf) = let rest = c_str buf in if b == 0 then [] else b ∷ rest

-- `get_capture`: what the reads give; `none` is its exception. Behind those that are listed, the
-- pipe has no more.
unfoldable pub get_capture : Bytes → List PipeRead → Option Bytes
get_capture capture_buf [] = some capture_buf
get_capture capture_buf (some_bytes [] ∷ reads) = some capture_buf
get_capture capture_buf (some_bytes (b ∷ buf) ∷ reads) =
    get_capture (capture_buf ++ c_str (b ∷ buf)) reads
get_capture capture_buf (no_more ∷ reads) = some capture_buf
get_capture capture_buf (failed ∷ reads) = none

-- `stop_capture`
unfoldable pub stop_capture : Calls → Capture → Bool × Capture
stop_capture calls c =
    if not c.is_capturing
    then (true, c)
    else if not calls.stop_stdout
    then (
      false,
      record c { stderr = dup2 calls.stop_stderr_failing before c.stderr; is_capturing = false },
    )
    else (
      calls.stop_stderr,
      record {
        stdout = before;
        stderr = dup2 calls.stop_stderr before c.stderr;
        is_capturing = false;
      },
    )

-- `~StdOutCapture`
unfoldable pub destroyed : Calls → Capture → Capture
destroyed calls c =
    if c.is_capturing
    then record {
      stdout = dup2 calls.end_stdout before c.stdout;
      stderr = dup2 calls.end_stderr before c.stderr;
      is_capturing = false;
    }
    else c

-- The text, or `none` for an exception; and where stdout and stderr lead behind the destructor.
abbrev pub Captured : Type 0
Captured = Option Bytes × Capture

abbrev pub after_stop : Calls → Bytes → Bool × Capture → Captured
after_stop calls text (stopped, c) = (if stopped then some text else none, destroyed calls c)

abbrev pub after_get : Calls → Capture → Option Bytes → Captured
after_get calls c none = (none, destroyed calls c)
after_get calls c (some text) = after_stop calls text (stop_capture calls c)

abbrev pub after_start : Calls → Bool × Capture → Captured
after_start calls (started, c) =
    if started && calls.action_returns
    then after_get calls c (get_capture [] calls.reads)
    else (none, destroyed calls c)

-- `capture_stdout_stderr`
unfoldable pub capture_stdout_stderr : Calls → Captured
capture_stdout_stderr calls =
    if calls.made then after_start calls (start_capture calls new_capture) else (none, new_capture)

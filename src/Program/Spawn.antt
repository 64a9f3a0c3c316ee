-- ===== src/Program/Spawn.antt =====
-- `invokeCommand` and `invokeCommandEx` of src/main/cpp/launch-program.cpp, from the check of the
-- command to the object that Java gets. Ends of pipes are closed by their owners, whichever way the
-- code leaves.
use spartan_launcher.Prelude.{
  ℕ, ◌+◌, Bool, true, false, not, ◌&&◌, Option, none, some, List, [], ◌∷◌, ◌++◌, if◌then◌else◌,
  Bytes, codes, lower,
}
use spartan_launcher.Command.{is_member}
use spartan_launcher.Pipes.{End, Datagram, Response, obtain_response_stream}
use spartan_launcher.Program.{resolved_program}

-- The arguments of the forked program behind its name: `fork2main` puts the option for the socket
-- in front.
abbrev pub child_args : Bytes → List Bytes → List Bytes
child_args uds_socket_name args = (codes "-pipe=" ++ uds_socket_name) ∷ args

-- The exceptions of the program.
pub data Raised : Type 0 where
  find_program_path create_uds_socket bind_uds_socket_name fork obtain_rsp_stream : Raised
  interrupted : Raised

-- What a `waitpid` gives: -1, or the status of the child.
pub data Waited : Type 0 where
  wait_failed signalled stopped exited continued : Waited

-- What the calls give.
pub record Spawning : Type 0 where
  pub is_program : Bytes → Bool
  pub path_var : Option Bytes
  pub socket_made : Bool
  pub bound : Bool
  pub forked : Bool
  pub datagrams : List Datagram
  pub waits : List Waited
  pub new_string : Bool
  pub jni : ℕ → Bool

-- The loop that waits for the forked child; behind the statuses that are listed, it has exited.
unfoldable pub wait_for : List Waited → Option Raised
wait_for [] = none
wait_for (wait_failed ∷ waits) = some fork
wait_for (signalled ∷ waits) = some interrupted
wait_for (stopped ∷ waits) = some interrupted
wait_for (exited ∷ waits) = none
wait_for (continued ∷ waits) = wait_for waits

-- `fork2main`: the exception, if any.
unfoldable pub fork2main : Spawning → Option Raised
fork2main sp =
    if not sp.socket_made
    then some create_uds_socket
    else if not sp.bound
    then some bind_uds_socket_name
    else if not sp.forked
    then some fork
    else none

-- `launch_program_helper`: what was obtained, an exception with the ends that are closed, or a read
-- through a null pointer, of the second of three streams.
pub data Launched : Type 0 where
  launched : Response → Launched
  raised : Raised → List End → Launched
  null_pointer : Launched

abbrev pub opt_end : Option End → List End
opt_end none = []
opt_end (some e) = e ∷ []

-- The ends of a response.
abbrev pub ends_of : Response → List End
ends_of r = r.rdr_fd ∷ (opt_end r.err_fd ++ opt_end r.wrt_fd)

abbrev pub is_null : Option End → Bool
is_null none = true
is_null (some _) = false

abbrev pub after_wait : Response → Option Raised → Launched
after_wait r none = launched r
after_wait r (some ex) = raised ex (ends_of r)

abbrev pub after_obtain : Spawning → Bool → Option Response → Launched
after_obtain sp is_extended none = raised obtain_rsp_stream []
after_obtain sp is_extended (some r) =
    if is_extended && is_null r.err_fd then null_pointer else after_wait r (wait_for sp.waits)

abbrev pub after_fork : Spawning → Bool → Option Raised → Launched
after_fork sp is_extended (some ex) = raised ex []
after_fork sp is_extended none = after_obtain sp is_extended (obtain_response_stream sp.datagrams)

abbrev pub after_search : Spawning → Bool → Option Bytes → Launched
after_search sp is_extended none = raised find_program_path []
after_search sp is_extended (some path) = after_fork sp is_extended (fork2main sp)

unfoldable pub launch_program_helper : Spawning → Bool → Bytes → Launched
launch_program_helper sp is_extended prog_name =
    after_search sp is_extended (resolved_program sp.is_program sp.path_var prog_name)

-- The steps that make the object for Java.
pub data JniStep : Type 0 where
  find_class get_method new_object get_field : Bytes → JniStep

abbrev pub make_fdesc : List JniStep
make_fdesc = new_object (codes "java/io/FileDescriptor") ∷ get_field (codes "fd") ∷ []

abbrev pub class_and_ctor : Bytes → List JniStep
class_and_ctor name = find_class name ∷ get_method name ∷ []

abbrev pub input_strm : Bytes
input_strm = codes "java/io/FileInputStream"

abbrev pub output_strm : Bytes
output_strm = codes "java/io/FileOutputStream"

abbrev pub response_class : Bool → Bytes
response_class false = codes "spartan/Spartan$InvokeResponse"
response_class true = codes "spartan/Spartan$InvokeResponseEx"

abbrev pub when : Bool → List JniStep → List JniStep
when true steps = steps
when false steps = []

unfoldable pub jni_steps : Bool → List JniStep
jni_steps is_extended =
    class_and_ctor (codes "java/io/FileDescriptor")
    ++ (make_fdesc
        ++ (when is_extended (make_fdesc ++ make_fdesc)
            ++ (class_and_ctor input_strm
                ++ (new_object input_strm
                    ∷ (when is_extended (
                          new_object input_strm
                          ∷ (class_and_ctor output_strm ++ new_object output_strm ∷ []))
                        ++ (class_and_ctor (response_class is_extended)
                            ++ new_object (response_class is_extended) ∷ []))))))

pub data JavaException : Type 0 where
  invoke_command class_not_found interrupted_exception : JavaException

-- `check_result`: the exception for a step that gives null.
abbrev pub exception_of : JniStep → JavaException
exception_of (find_class _) = class_not_found
exception_of _ = invoke_command

-- The steps up to the first that gives null.
unfoldable pub run_steps : (ℕ → Bool) → ℕ → List JniStep → Option JavaException
run_steps jni n [] = none
run_steps jni n (step ∷ steps) =
    let rest = run_steps jni (n + 1) steps in if jni n then rest else some (exception_of step)

-- What Java gets: a response with a pid, or an exception, or nothing as the program crashes; the
-- ends that it is given and those that are closed.
pub data Answer : Type 0 where
  response : ℕ → Answer
  threw : JavaException → Answer
  crashed : Answer

pub record Invoked : Type 0 where
  pub answer : Answer
  pub given : List End
  pub closed : List End

abbrev pub java_exception : Raised → JavaException
java_exception interrupted = interrupted_exception
java_exception _ = invoke_command

abbrev pub after_steps : Bool → Response → Option JavaException → Invoked
after_steps is_extended r (some ex) = record { answer = threw ex; given = []; closed = ends_of r }
after_steps true r none = record { answer = response r.pid; given = ends_of r; closed = [] }
after_steps false r none = record {
  answer = response r.pid;
  given = r.rdr_fd ∷ [];
  closed = opt_end r.err_fd ++ opt_end r.wrt_fd;
}

abbrev pub after_launch : Spawning → Bool → Launched → Invoked
after_launch sp is_extended (launched r) =
    after_steps is_extended r (run_steps sp.jni 0 (jni_steps is_extended))
after_launch sp is_extended (raised ex closed) = record {
  answer = threw (java_exception ex);
  given = [];
  closed = closed;
}
after_launch sp is_extended null_pointer = record { answer = crashed; given = []; closed = [] }

-- `invoke_spartan_subcommand`
unfoldable pub invoke_spartan_subcommand : Spawning → Bool → Bytes → Invoked
invoke_spartan_subcommand sp is_extended prog =
    after_launch sp is_extended (launch_program_helper sp is_extended prog)

abbrev pub answer_only : Answer → Invoked
answer_only answer = record { answer = answer; given = []; closed = [] }

-- Whether the command is one of the child processor's; `none` where the set cannot be made.
abbrev pub is_known : Option (List Bytes) → List Bytes → Option Bool
is_known commands [] = some true
is_known none (arg ∷ args) = none
is_known (some commands) (arg ∷ args) = some (is_member (lower arg) commands)

abbrev pub after_check : Spawning → Bool → Bytes → Option Bool → Invoked
after_check sp is_extended progpath none = answer_only crashed
after_check sp is_extended progpath (some false) = answer_only (threw invoke_command)
after_check sp is_extended progpath (some true) =
    if sp.new_string
    then invoke_spartan_subcommand sp is_extended progpath
    else answer_only (threw invoke_command)

-- `launchProgram_core_invokeCommand`; an exception that leaves it ends the program.
unfoldable pub core_invoke_command :
    Spawning → Option (List Bytes) → Bool → Bytes → List Bytes → Invoked
core_invoke_command sp commands is_extended progpath args =
    after_check sp is_extended progpath (is_known commands args)

-- ===== src/Supervisor/Invoke.antt =====
-- From a command line to a Java method: `parse_extended_invoke_option`, `core_invoke_command` and
-- `invoke_java_method` of src/main/cpp/spartan.cpp, in the supervisor or in a child process.
pub mod Answering
use spartan_launcher.Prelude.{
  ℕ, Bool, true, false, not, ◌&&◌, ◌||◌, Option, none, some, List, [], ◌∷◌, ◌++◌, if◌then◌else◌,
  Bytes, codes, same_text, starts_with,
}
use spartan_launcher.Text.{strtok, split_last_slash}
use spartan_launcher.Session.{WhichMethod, MethodDescriptor}
use spartan_launcher.Pipes.{
  End, Datagram, Sending, Opened, open_write_anon_pipe, open_react_anon_pipes,
}

abbrev pub extended_invoke_cmd : Bytes
extended_invoke_cmd = codes "--EXTENDED_INVOKE"

abbrev pub std_invoke_descriptor : Bytes
std_invoke_descriptor = codes "([Ljava/lang/String;Ljava/io/PrintStream;)V"

abbrev pub react_invoke_descriptor : Bytes
react_invoke_descriptor =
    codes "([Ljava/lang/String;Ljava/io/PrintStream;Ljava/io/PrintStream;Ljava/io/InputStream;)V"

abbrev pub is_true : Option (Bytes × Bytes) → Option Bool
is_true none = none
is_true (some (val, _)) = some (same_text val (codes "true"))

abbrev pub after_first : Option (Bytes × Bytes) → Option (Bytes × Bytes)
after_first none = none
after_first (some (_, rest)) = strtok b'=' rest

-- `parse_extended_invoke_option`; `none` where a null pointer is compared.
unfoldable pub parse_extended_invoke_option : Bytes → Option Bool
parse_extended_invoke_option option =
    if starts_with option extended_invoke_cmd
    then is_true (after_first (strtok b'=' option))
    else some false

-- The streams that a method is given: one for the response, or three.
pub data Streams : Type 0 where
  one : End → Streams
  three : End → End → End → Streams

-- What comes of a call: the method that is called, by its class and name, with its arguments, if it
-- takes any, and its streams; or the number of the error, which is thrown as an `int`.
pub data JavaCall : Type 0 where
  called : Bytes → Bytes → Option (List Bytes) → List End → JavaCall
  failed : ℕ → JavaCall

abbrev pub first_end : Streams → End
first_end (one e) = e
first_end (three e _ _) = e

-- `is_extended_invoke` of `invoke_java_method`.
abbrev pub takes_three : Streams → Bytes → Bool
takes_three (one _) signature = false
takes_three (three _ _ _) signature = same_text react_invoke_descriptor signature

abbrev pub all_three : Streams → List End
all_three (one e) = e ∷ []
all_three (three a b c) = a ∷ b ∷ c ∷ []

-- The call of a method that has arguments and streams, static or not.
unfoldable pub call_command : Bytes → Bytes → Bytes → List Bytes → Streams → JavaCall
call_command class name signature args streams =
    if not (takes_three streams signature)
    then (if not (same_text std_invoke_descriptor signature)
        then failed 6
        else called class name (some args) (first_end streams ∷ []))
    else called class name (some args) (all_three streams)

abbrev pub call_by : Bool → WhichMethod → Bytes → Bytes → Bytes → List Bytes → Streams → JavaCall
call_by is_static WhichMethod.child_do_cmd class name signature args streams =
    call_command class name signature args streams
call_by is_static WhichMethod.supervisor_do_cmd class name signature args streams =
    call_command class name signature args streams
call_by true WhichMethod.get_status class name signature args streams =
    call_command class name signature args streams
call_by false WhichMethod.get_status class name signature args streams =
    called class name none (first_end streams ∷ [])
call_by is_static _ class name signature args streams = failed 0

abbrev pub call_on : MethodDescriptor → List Bytes → Streams → Option (Bytes × Bytes) → JavaCall
call_on m args streams none = failed 1
call_on m args streams (some (class, name)) =
    call_by m.is_static_method m.which_method class name m.descriptor args streams

-- `invoke_java_method` of a method that has streams, where the JVM finds and makes all that it is
-- asked for. The class and the name stand before and behind the last slash.
unfoldable pub invoke_java_method : MethodDescriptor → List Bytes → Streams → JavaCall
invoke_java_method m args streams = call_on m args streams (split_last_slash m.full_method_name)

-- What `core_invoke_command` comes to: its call with the name of the socket that the datagrams were
-- sent to and these, a failure, a null pointer, or the exception of a pipe that could not be opened.
pub data Invoked : Type 0 where
  java : JavaCall → Bytes → List Datagram → Invoked
  failure : Invoked
  null_pointer : Invoked
  open_write_pipe_exception : List Datagram → Invoked

abbrev pub on_one : MethodDescriptor → List Bytes → Bytes → Opened End → Option End → Invoked
on_one m args uds o none = open_write_pipe_exception o.sent
on_one m args uds o (some e) = java (invoke_java_method m args (one e)) uds o.sent

abbrev pub on_three :
    MethodDescriptor
    → List Bytes
    → Bytes
    → Opened (End × End × End)
    → Option (End × End × End)
    → Invoked
on_three m args uds o none = open_write_pipe_exception o.sent
on_three m args uds o (some (a, b, c)) = java (invoke_java_method m args (three a b c)) uds o.sent

-- The pipes are opened with the name of the socket, to which both of their datagrams are sent.
abbrev pub with_option : Sending → MethodDescriptor → Bytes → List Bytes → Option Bool → Invoked
with_option sys m uds args none = null_pointer
with_option sys m uds args (some extended) =
    if extended || same_text react_invoke_descriptor m.descriptor
    then on_three m args uds (open_react_anon_pipes sys) (open_react_anon_pipes sys).result
    else on_one m args uds (open_write_anon_pipe sys) (open_write_anon_pipe sys).result

-- The arguments of the command line: the option, the socket's name, and at least the command. The
-- method gets those from the command on.
abbrev pub with_args : Sending → MethodDescriptor → List Bytes → Invoked
with_args sys m (option ∷ uds_socket_name ∷ cmd ∷ args) =
    with_option sys m uds_socket_name (cmd ∷ args) (parse_extended_invoke_option option)
with_args sys m _ = failure

abbrev pub with_parsed : Sending → MethodDescriptor → Option (List Bytes) → Invoked
with_parsed sys m none = failure
with_parsed sys m (some argv) = with_args sys m argv

-- `core_invoke_command`; `parse_argv` is `poptParseArgvString`, and the pipes go to the socket that
-- the command line names.
unfoldable pub core_invoke_command :
    (Bytes → Option (List Bytes)) → Sending → MethodDescriptor → Bytes → Invoked
core_invoke_command parse_argv sys m msg = with_parsed sys m (parse_argv msg)

-- `supervisor_status_response`: the status method on a pipe to the socket.
unfoldable pub supervisor_status_response : Sending → MethodDescriptor → Bytes → Invoked
supervisor_status_response sys m uds =
    on_one m [] uds (open_write_anon_pipe sys) (open_write_anon_pipe sys).result

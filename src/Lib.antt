-- ===== src/Lib.antt =====
-- Spartan launcher: a native program that runs a Java service as one supervisor process and its
-- child processes. It reads config.ini, loads the JVM, and passes command lines between the
-- processes over message queues, pipes and shared memory. The paths below are under src/main/cpp.
--
-- The parts, and the modules that model them:
--   Startup   spartan.cpp: `one_time_init_main` and what it sets, and the cached environment.
--   Text      str-split.cpp, path-concat.cpp, mq-queue.cpp: `str_split`, `path_concat`, the queue
--             names, and `strtok_r` as other files call it.
--   Stream    what the program uses of `std::istream` and `std::ostream` (see below), and in
--             Stream/Memory memBufStream.cpp and memBufStream.h.
--   Session   session-state.h and session-state.cpp: the descriptors of the Java entry methods,
--             `sessionState`, its copy and move (Session/Handles), its text form
--             (Session/Serial: the operators << and >>), and in Session/Life the life of the
--             JVM that it owns, with `create_jvm` of createjvm.cpp.
--   Config    session-state.cpp and cfgparse.cpp: the constructor of `sessionState` from
--             config.ini (`handle_setting` is its handler, `complete_entries` its defaults,
--             `new_session_state` the whole), `process_config`, and in Config/LibraryPath
--             `prepend_to_java_library_path` and `get_cfg_dir`.
--   Log       log.cpp and log.h: `str_to_level`, `set_progname`, `set_syslogging` and `vlog`.
--   Dispatch  process-cmd-dispatch-info.cpp: what the annotations of the Java program add to a
--             session (`process_initial`), and `get_child_processor_commands`.
--   Shm       shm.cpp and process-cmd-dispatch-info.cpp: the allocator over shared memory, the
--             image that the supervisor lays out there, and `get_cmd_dispatch_info`, by which
--             every other process reads it; in Shm/Objects the same over the calls of the
--             system, which are an interface with laws (Shm/Objects/View).
--   Jvm       createjvm.cpp: the options of the JVM, from the command line through
--             `consolidate_jvm_options` to `set_JavaVMOptions`.
--   Walk      findfiles.cpp and findfiles.h: `walk_file_tree`, `visit_dir`, `visit_file` and
--             `findfiles`; and `determine_jvmlib_path` of createjvm.cpp, which uses them.
--             In Walk/Java the walk that Java calls, of walk-file-tree.cpp.
--   Message   send-mq-msg.cpp and the filter lambda of spartan.cpp: a command line as a message.
--   Command   spartan.cpp: `forkable_main_entry`, the choice of an operation and its rounds.
--   Launcher  spartan.cpp: the work queue of `supervisor` in the launcher process, whose threads
--             are interleaved steps; the choice of a Java method; in Launcher/Loop the message
--             loop, in Launcher/Waiting the waiting for children (`waitid_on_forked_children`),
--             and in Launcher/Teardown the fork and the clean-up around them.
--   Supervisor  spartan.cpp: the messages of the supervisor (`handle_supervisor_msg`,
--             `msg_dispatch_for_supervisor`), in Supervisor/Invoke the way from a command line to
--             a Java method (`core_invoke_command`, `invoke_java_method`), in
--             Supervisor/Jni what it reads through JNI, in Supervisor/Kinds every kind of
--             method with its exceptions and exit code, in Supervisor/Entry the thread that
--             runs the Java program, and in Supervisor/Opening the opening of a queue.
--   Pipes     open-anon-pipes.cpp and launch-program.cpp: the pipes that go over a socket, from
--             `bind_uds_socket_name` (Pipes/Binding), `open_write_anon_pipe` and
--             `open_react_anon_pipes` to `obtain_response_stream`.
--   Program   launch-program.cpp: `find_program_path`; in Program/Spawn `invokeCommand` with
--             `launch_program_helper` and `invoke_spartan_subcommand`; in Program/Instance
--             `isFirstInstance`.
--   Capture   StdOutCapture.cpp: what a call writes to stdout and stderr, as a text.
--   Fifo      fifo-pipe.cpp: `get_rnd_nbr`, `make_fifo_pipe_name`, and the pipes themselves.
--   Signals   signal-handling.cpp: the handlers, on one thread, with signals that nest; the handler
--             of echo-streams.cpp for Ctrl-C is taken to have SIGINT ignored and to return.
--   Jni       spartan.cpp and walk-file-tree.cpp: chains of reads through JNI.
--   Echo      read-on-ready.cpp, read-multi-strm.cpp, stream-ctx.cpp, echo-streams.cpp: the
--             copying of a pipe, the tables of pipes, the rounds over them, and
--             `stdout_echo_response_stream`.
--
-- A run goes from Command: as a service it makes a session by Config, adds to it by Dispatch and
-- lays it out by Shm; as a command it reads that session back, takes the commands that Dispatch
-- finds in it to choose a queue, and sends the message that Message makes. The launcher receives
-- such messages by Launcher, which forks a child process for each. The child, or the
-- supervisor, comes by Supervisor/Invoke to a Java method, and answers through Pipes; the client
-- obtains the other ends and passes on by Echo what it reads of them. Java itself starts commands
-- by Program, whose forked program runs Command. Around it all stands Launcher/Teardown: the
-- supervisor is forked first, runs the Java program by Supervisor/Entry, and is shut down last.
--
-- Texts are lists of bytes. A C string is the bytes before its NUL. A stream is the bytes not yet
-- read, with eofbit and failbit. Integers of the program keep their width where they can leave it:
-- an `int` offset is its 32-bit pattern, sums of `size_t` are taken modulo 2^64, the cast to
-- `short` takes the low 16 bits, and numbers that are read are held to the range of their type.
-- The launcher's atomic count of children is an integer, since `waitid` tells of children that
-- stop too, and each status takes one from the count. A message of descriptors holds the further
-- descriptor 0 that its length makes room for.
-- The names that `typeid` gives are parameters, as the compiler chooses them. What an
-- uninitialised local holds is a parameter too. The callback of a walk answers by the visits so
-- far, so that it may keep any state of its own.
--
-- Fuel: `digits` takes the number itself as its fuel, which is at least its count of digits.
-- `tokens` has fuel for every byte of its text, by Text.Fields. `compact` has fuel for every
-- entry of its array, by Jvm.Compacting. `rounds` has two, by Command.Laws.
-- `try_resolve_program_path` uses `tokens` with that fuel. `open_queue` has the two attempts of
-- the program, by Supervisor.Opening, and `format_name` needs three, by Fifo.Names. The loops
-- over reads, polls and waits go over the list of what the calls give; behind its end stands the
-- end of the file, no further round, an exit, or, of `waitid`, that the thread still waits.
--
-- Not modelled: the SIGINT handlers of the two processes of spartan.cpp; the entry points of
-- launch-program.cpp that only pass on to a helper; exceptions and format2str; the vendored
-- ini.cpp and string-view.h; popt, the JVM and JNI, and the calls of the operating system. What
-- the program relies on of these is a parameter: the parser of config.ini gives its settings, its
-- errors and its result, popt the arguments of a text, the message queue a queue and a result, a
-- socket, a pipe or a lock what their calls return. The futures of a round of Echo are run in
-- order, as each writes to an output of its own.
pub mod Prelude
pub mod Text
pub mod Stream
pub mod Session
pub mod Config
pub mod Log
pub mod Shm
pub mod Capture
pub mod Command
pub mod Dispatch
pub mod Echo
pub mod Fifo
pub mod Jni
pub mod Jvm
pub mod Launcher
pub mod Message
pub mod Pipes
pub mod Program
pub mod Signals
pub mod Startup
pub mod Supervisor
pub mod Tests
pub mod Walk

-- ===== src/Tests/Programs.antt =====
-- Programs that are searched for, started and counted.
use spartan_launcher.Prelude.{◌≡◌, refl, true, Bool, none, some, [], ◌∷◌, Bytes, codes, same_text}
use spartan_launcher.Text.Fields.{fields}
use spartan_launcher.Session.{new_session}
use spartan_launcher.Command.{Services}
use spartan_launcher.Pipes.{End, Datagram, Response}
use spartan_launcher.Program.{program_in, find_program_path}
use spartan_launcher.Program.Search.{find_program_path-first}
use spartan_launcher.Program.Instance.{Flock, Host}
use spartan_launcher.Program.Spawn.{Spawning}

abbrev is_tool : Bytes → Bool
is_tool path = same_text path (codes "/usr/bin/tool")

find_program_path_example :
    find_program_path is_tool (some (b'/' ∷ codes "bin:/usr/bin/:/opt")) (codes "tool")
    ≡ some (program_in (codes "tool") (codes "/usr/bin/"))
unfolding fields program_in same_text
find_program_path_example =
    find_program_path-first is_tool (codes "tool") b'/' (codes "bin:/usr/bin/:/opt")
      (codes "/bin" ∷ []) (codes "/usr/bin/") (codes "/opt" ∷ []) refl (refl, tt) refl

abbrev host : Host
host = record {
  home_var = some (codes "/home/me");
  home_of_user = none;
  progpath = codes "/usr/bin/tool";
  can_open = λ path. same_text path (codes "/home/me/tool.pid");
  flock = λ path. Flock.locked;
  can_dup = λ path. true;
}

abbrev spawning : Spawning
spawning = record {
  is_program = is_tool;
  path_var = none;
  socket_made = true;
  bound = true;
  forked = true;
  datagrams =
      Datagram.counts (record { pid = 4001; fd_rtn_count = 1 })
      ∷ Datagram.rights (End.read_end 40 ∷ End.descriptor 0 ∷ [])
      ∷ [];
  waits = [];
  new_string = true;
  jni = λ n. true;
}

abbrev one_response : Response
one_response = record { pid = 4001; rdr_fd = End.read_end 40; err_fd = none; wrt_fd = none }

abbrev services : Services
services = record {
  run_service = some 0;
  status_request = λ socket. 0;
  send_stop = 0;
  read_shared = some new_session;
  child_commands = λ session. some (codes "report" ∷ []);
  bind_socket = λ word. codes "/tmp/x";
  send_command = λ socket target. 0;
  echo_response = λ socket pid. 0;
}

-- ===== src/Pipes.antt =====
-- The pipes between a client and the process that answers it, which go over a datagram socket:
-- src/main/cpp/open-anon-pipes.cpp, and `init_sockaddr` and `obtain_response_stream` of
-- src/main/cpp/launch-program.cpp. What the system calls give is a parameter.
pub mod Handshake
pub mod Address
pub mod Binding
use spartan_launcher.Prelude.{
  ℕ, zero, suc, ◌+◌, ◌-◌, ◌%◌, ◌^◌, Bool, true, false, not, ◌&&◌, ◌||◌, Option, none, some, List,
  [], ◌∷◌, ◌++◌, ◌==◌, if◌then◌else◌, Bytes, length, take, replicate, get_or,
}

-- `sun_path`: the name cut to 107 bytes, with zeros behind it and in place of its first byte.
abbrev pub sun_path_size : ℕ
sun_path_size = 108

abbrev pub zero_first : Bytes → Bytes
zero_first [] = []
zero_first (c ∷ path) = 0 ∷ path

unfoldable pub sun_path : Bytes → Bytes
sun_path name =
    let cut = take (sun_path_size - 1) name in
    zero_first (cut ++ replicate (sun_path_size - length cut) 0)

-- The length that `init_sockaddr` gives, from `sizeof(sockaddr_un) - (108 - size)`, and the bytes
-- of the path that this length covers; two bytes are those of the family.
unfoldable pub addr_len : Bytes → ℕ
addr_len name = (length name + 2) % 2 ^ 32

unfoldable pub address : Bytes → Bytes
unfolding sun_path addr_len
address name = take (addr_len name - 2) (sun_path name)

-- The ends of pipes, and any other descriptor.
pub data End : Type 0 where
  read_end write_end descriptor : ℕ → End

-- `pid_buffer_t`
pub record PidBuffer : Type 0 where
  pub pid : ℕ
  pub fd_rtn_count : ℕ

-- What goes over the socket: a process and a count, or a message with descriptors.
pub data Datagram : Type 0 where
  counts : PidBuffer → Datagram
  rights : List End → Datagram

-- What the calls give: whether there is a socket, the pipe that each call of `pipe` makes, whether
-- the two sends succeed; and the pid.
pub record Sending : Type 0 where
  pub socket_made : Bool
  pub pipe : ℕ → Option ℕ
  pub sendto_ok : Bool
  pub sendmsg_ok : Bool
  pub own_pid : ℕ

-- What is left of a call: what was sent, the pipes that were made, the ends that were closed, and
-- the result, `none` for an exception.
pub record Opened (A : Type 0) : Type 0 where
  pub sent : List Datagram
  pub made : List ℕ
  pub closed : List End
  pub result : Option A

abbrev pub raised : {A : Type 0} → List Datagram → List ℕ → List End → Opened A
raised sent made closed = record { sent = sent; made = made; closed = closed; result = none }

-- The two sends: with the count, and then with the descriptors, which `sizeof(cmsg_payload)` as the
-- length of the message makes one more than are filled in, a 0. What is open then is closed where
-- one fails; else the ends that were sent, and the others are the result.
abbrev pub send_ends : {A : Type 0} → Sending → ℕ → List ℕ → List End → List End → A → Opened A
send_ends sys count made passed all kept =
    let first = counts (record { pid = sys.own_pid; fd_rtn_count = count }) in
    if sys.sendto_ok
    then (if sys.sendmsg_ok
        then record {
          sent = first ∷ rights (passed ++ descriptor 0 ∷ []) ∷ [];
          made = made;
          closed = passed;
          result = some kept;
        }
        else raised (first ∷ []) made all)
    else raised [] made all

abbrev pub with_pipe : Sending → Option ℕ → Opened End
with_pipe sys none = raised [] [] []
with_pipe sys (some p) =
    send_ends sys 1 (p ∷ []) (read_end p ∷ []) (read_end p ∷ write_end p ∷ []) (write_end p)

-- `open_write_anon_pipe`
unfoldable pub open_write_anon_pipe : Sending → Opened End
open_write_anon_pipe sys = if sys.socket_made then with_pipe sys (sys.pipe 0) else raised [] [] []

-- Both ends of a pipe.
abbrev pub ends : ℕ → List End
ends p = read_end p ∷ write_end p ∷ []

abbrev pub with_pipes : Sending → Option ℕ → Option ℕ → Option ℕ → Opened (End × End × End)
with_pipes sys none b c = raised [] [] []
with_pipes sys (some a) none c = raised [] (a ∷ []) (ends a)
with_pipes sys (some a) (some b) none = raised [] (a ∷ b ∷ []) (ends a ++ ends b)
with_pipes sys (some a) (some b) (some c) =
    send_ends sys 3 (a ∷ b ∷ c ∷ []) (read_end a ∷ read_end b ∷ write_end c ∷ [])
      (ends a ++ (ends b ++ ends c)) (write_end a, write_end b, read_end c)

-- `open_react_anon_pipes`
unfoldable pub open_react_anon_pipes : Sending → Opened (End × End × End)
open_react_anon_pipes sys =
    if sys.socket_made
    then with_pipes sys (sys.pipe 0) (sys.pipe 1) (sys.pipe 2)
    else raised [] [] []

-- What a client obtains; an end that is not there is a null pointer.
pub record Response : Type 0 where
  pub pid : ℕ
  pub rdr_fd : End
  pub err_fd : Option End
  pub wrt_fd : Option End

-- The descriptors of a message that holds some; those that it does not hold are zero. What it holds
-- behind these is not named, although the process has obtained it and holds it open.
abbrev pub response : PidBuffer → List End → Response
response b fds =
    if b.fd_rtn_count == 1
    then record { pid = b.pid; rdr_fd = get_or fds 0 (descriptor 0); err_fd = none; wrt_fd = none }
    else record {
      pid = b.pid;
      rdr_fd = get_or fds 0 (descriptor 0);
      err_fd = some (get_or fds 1 (descriptor 0));
      wrt_fd = some (get_or fds 2 (descriptor 0));
    }

abbrev pub received_message : PidBuffer → List Datagram → Option Response
received_message b (rights fds ∷ _) = some (response b fds)
received_message b _ = none

-- `obtain_response_stream`, from the datagrams that come; `none` is its exception, also for a
-- message without descriptors. The first datagram is taken as a process and a count.
unfoldable pub obtain_response_stream : List Datagram → Option Response
obtain_response_stream (counts b ∷ more) =
    if not (b.fd_rtn_count == 1) && not (b.fd_rtn_count == 3) then none else received_message b more
obtain_response_stream _ = none

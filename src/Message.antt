-- ===== src/Message.antt =====
-- Command lines as messages: src/main/cpp/send-mq-msg.cpp, and the filter that
-- src/main/cpp/spartan.cpp gives to it.
pub mod Quotes
use spartan_launcher.Prelude.{
  ℕ, zero, suc, ◌+◌, ◌-◌, Bool, true, false, not, ◌&&◌, Option, none, some, List, [], ◌∷◌, ◌++◌,
  ◌==◌, if◌then◌else◌, Bytes, codes, is_empty, istarts_with, length, take, ltb,
}

-- `pipe_optn`
abbrev pub pipe_option : Bytes
pipe_option = codes "pipe="

-- The test of the filter: a `-` and then the option's name, in any case.
unfoldable pub is_pipe_option : Bytes → Bool
is_pipe_option [] = false
is_pipe_option (c ∷ s) = c == b'-' && istarts_with s pipe_option

-- The filter: the first such argument is taken out.
unfoldable pub without_pipe : List Bytes → List Bytes
without_pipe [] = []
without_pipe (a ∷ args) =
    let rest = without_pipe args in if is_pipe_option a then args else a ∷ rest

-- The argument array: two leading entries in place of the program's name.
unfoldable pub argv_dup : Bytes → Bytes → List Bytes → List Bytes
argv_dup extended_invoke_cmd uds_socket_name args = extended_invoke_cmd ∷ uds_socket_name ∷ args

-- The size of the buffer; three bytes go with each argument.
unfoldable pub buffer_size : List Bytes → ℕ
buffer_size [] = 1
buffer_size (a ∷ args) = length a + 3 + buffer_size args

abbrev pub quoted : Bytes → Bytes
quoted a = b'"' ∷ a ++ b'"' ∷ b' ' ∷ []

-- The loop that fills the buffer: each argument that is not empty, in quotes, with a space.
unfoldable pub fill : List Bytes → Bytes → Bytes
fill [] buf = buf
fill (a ∷ args) buf = fill args (if length a == 0 then buf else buf ++ quoted a)

-- The text of the message: the last space is cut off.
unfoldable pub flatten : List Bytes → Bytes
flatten argv = let buf = fill argv [] in take (length buf - 1) buf

-- What the two calls of the queue give: a queue, and whether the send failed.
pub record Queues : Type 0 where
  pub mq_open : Bytes → Option ℕ
  pub mq_send : ℕ → Bytes → Bool

-- `send_mq_msg`: the message that was sent, if any, and whether that counts as a success; the
-- queue is closed in either case.
unfoldable pub send_on : Queues → Bytes → Option ℕ → Bool
send_on qs msg none = false
send_on qs msg (some mqd) = qs.mq_send mqd msg

unfoldable pub send_mq_msg : Queues → Bytes → Bytes → Bool
send_mq_msg qs msg queue_name = send_on qs msg (qs.mq_open queue_name)

-- `send_flattened_argv_mq_msg`, with the filter of its only caller.
unfoldable pub send_flattened_argv_mq_msg : Queues → List Bytes → Bytes → Bytes → Bytes → Bool
send_flattened_argv_mq_msg qs args extended_invoke_cmd uds_socket_name queue_name =
    send_mq_msg qs (flatten (without_pipe (argv_dup extended_invoke_cmd uds_socket_name args)))
      queue_name

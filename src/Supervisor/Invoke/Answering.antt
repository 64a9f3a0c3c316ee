-- ===== src/Supervisor/Invoke/Answering.antt =====
-- The Java method gets the arguments of the command line, and the ends of pipes that answer those
-- of the client.
use spartan_launcher.Prelude.{
  ℕ, ◌≡◌, ◌⊎◌, inl, inr, refl, sym, ap, ◌∙◌, Bool, true, false, ◌||◌, Option, some, List, [], ◌∷◌,
  Bytes, if◌then◌else◌, same_text, same_text_self, Option-cases, map,
}
use spartan_launcher.Text.{split_last_slash}
use spartan_launcher.Session.{WhichMethod, MethodDescriptor}
use spartan_launcher.Pipes.{
  End, Datagram, Sending, Opened, Response, open_write_anon_pipe, open_react_anon_pipes,
  obtain_response_stream,
}
use spartan_launcher.Pipes.Handshake.{
  IsLost, open_write_anon_pipe-IsLost, open_react_anon_pipes-IsLost, open_write_anon_pipe-obtained,
  open_react_anon_pipes-obtained,
}
use spartan_launcher.Program.Spawn.{ends_of}
use spartan_launcher.Supervisor.Invoke.{
  Streams, JavaCall, Invoked, std_invoke_descriptor, react_invoke_descriptor,
  parse_extended_invoke_option, call_command, call_by, invoke_java_method, on_one, on_three,
  with_option, with_parsed, core_invoke_command, all_three, first_end, call_on,
}

-- The other end of a pipe.
abbrev pub other_end : End → End
other_end (End.read_end p) = End.write_end p
other_end (End.write_end p) = End.read_end p
other_end (End.descriptor n) = End.descriptor n

-- The ends that answer those of the client, as many as the method's descriptor takes.
abbrev pub answering : Bool → Response → List End
answering true r = map other_end (ends_of r)
answering false r = other_end r.rdr_fd ∷ []

-- A method that runs a command.
abbrev pub RunsCommand : WhichMethod → Type 0
RunsCommand which = (which ≡ WhichMethod.child_do_cmd) ⊎ (which ≡ WhichMethod.supervisor_do_cmd)

-- The descriptor is that of one stream, or of three.
abbrev pub HasDescriptor : Bool → Bytes → Type 0
HasDescriptor true d = d ≡ react_invoke_descriptor
HasDescriptor false d = d ≡ std_invoke_descriptor

is_react :
    (react : Bool) (d : Bytes) → HasDescriptor react d → same_text react_invoke_descriptor d ≡ react
is_react true d e =
    ap (same_text react_invoke_descriptor) e ∙ same_text_self react_invoke_descriptor
is_react false d e = ap (same_text react_invoke_descriptor) e ∙ unfold same_text in refl

is_std : (d : Bytes) → d ≡ std_invoke_descriptor → same_text std_invoke_descriptor d ≡ true
is_std d e = ap (same_text std_invoke_descriptor) e ∙ same_text_self std_invoke_descriptor

module _ (m : MethodDescriptor) (class name : Bytes) (args : List Bytes) (uds : Bytes)
    (split : split_last_slash m.full_method_name ≡ some (class, name))
    (runs : RunsCommand m.which_method) where
  invoke-command :
      (streams : Streams)
      → invoke_java_method m args streams ≡ call_command class name m.descriptor args streams
  unfolding invoke_java_method
  invoke-command streams = ap (call_on m args streams) split ∙ by_which runs
    where
      by_which :
          RunsCommand m.which_method
          → call_by m.is_static_method m.which_method class name m.descriptor args streams
            ≡ call_command class name m.descriptor args streams
      by_which (inl e) =
          ap (λ w. call_by m.is_static_method w class name m.descriptor args streams) e
      by_which (inr e) =
          ap (λ w. call_by m.is_static_method w class name m.descriptor args streams) e

  -- The ends that a method is called with.
  abbrev ends_for : Bool → Streams → List End
  ends_for true streams = all_three streams
  ends_for false streams = first_end streams ∷ []

  invoke-three :
      (react : Bool) (a b c : End)
      → HasDescriptor react m.descriptor
      → invoke_java_method m args (Streams.three a b c)
        ≡ JavaCall.called class name (some args) (ends_for react (Streams.three a b c))
  unfolding call_command
  invoke-three true a b c h =
      invoke-command (Streams.three a b c) ∙ rw (is_react true m.descriptor h) refl
  invoke-three false a b c h =
      invoke-command (Streams.three a b c)
      ∙ rw (is_react false m.descriptor h, is_std m.descriptor h) refl

  invoke-one :
      (a : End)
      → HasDescriptor false m.descriptor
      → invoke_java_method m args (Streams.one a) ≡ JavaCall.called class name (some args) (a ∷ [])
  unfolding call_command
  invoke-one a h = invoke-command (Streams.one a) ∙ rw (is_std m.descriptor h) refl

  -- The datagrams were sent to the client's socket, and what it obtains is a response whose ends
  -- answer those that the method is called with.
  abbrev pub Answers : Bool → Invoked → Type 0
  Answers react i =
      (call : JavaCall) (to : Bytes) (sent : List Datagram)
      → i ≡ Invoked.java call to sent
      → (to ≡ uds)
        × (r : Response) × (obtain_response_stream sent ≡ some r)
        × (call ≡ JavaCall.called class name (some args) (answering react r))

  on_three-Answers :
      (sys : Sending) (react : Bool)
      → HasDescriptor react m.descriptor
      → Answers react
          (on_three m args uds (open_react_anon_pipes sys) (open_react_anon_pipes sys).result)
  on_three-Answers sys react h call to sent e =
      elim (Option-cases (open_react_anon_pipes sys).result) [
        | inl n ↦
            absurd (let x = sym (ap (on_three m args uds (open_react_anon_pipes sys)) n) ∙ e in cc)
        | inr (kept, n) ↦
            let (a, b, c, ends, obtained) = open_react_anon_pipes-obtained sys kept n in
            let x =
              sym (ap (on_three m args uds (open_react_anon_pipes sys)) (n ∙ ap some (sym ends)))
              ∙ e in
            let to_it : uds ≡ to = cc in
            let sent_all : (open_react_anon_pipes sys).sent ≡ sent = cc in
            let call_is : invoke_java_method m args
                  (Streams.three (End.write_end a) (End.write_end b) (End.read_end c))
                ≡ call =
              cc in
            (
              sym to_it,
              _,
              ap obtain_response_stream (sym sent_all) ∙ obtained,
              sym call_is
                  ∙ (invoke-three react (End.write_end a) (End.write_end b) (End.read_end c) h
                      ∙ ap (JavaCall.called class name (some args)) (same react a b c)),
            )
      ]
    where
      same :
          (react : Bool) (a b c : ℕ)
          → ends_for react (Streams.three (End.write_end a) (End.write_end b) (End.read_end c))
            ≡ answering react (record {
              pid = sys.own_pid;
              rdr_fd = End.read_end a;
              err_fd = some (End.read_end b);
              wrt_fd = some (End.write_end c);
            })
      same true a b c = refl
      same false a b c = refl

  on_one-Answers :
      (sys : Sending)
      → HasDescriptor false m.descriptor
      → Answers false
          (on_one m args uds (open_write_anon_pipe sys) (open_write_anon_pipe sys).result)
  on_one-Answers sys h call to sent e = elim (Option-cases (open_write_anon_pipe sys).result) [
    | inl n ↦ absurd (let x = sym (ap (on_one m args uds (open_write_anon_pipe sys)) n) ∙ e in cc)
    | inr (kept, n) ↦
        let (p, end, obtained) = open_write_anon_pipe-obtained sys kept n in
        let x =
          sym (ap (on_one m args uds (open_write_anon_pipe sys)) (n ∙ ap some (sym end))) ∙ e in
        let to_it : uds ≡ to = cc in
        let sent_all : (open_write_anon_pipe sys).sent ≡ sent = cc in
        let call_is : invoke_java_method m args (Streams.one (End.write_end p)) ≡ call = cc in
        (
          sym to_it,
          _,
          ap obtain_response_stream (sym sent_all) ∙ obtained,
          sym call_is ∙ invoke-one (End.write_end p) h,
        )
  ]

  with_option-Answers :
      (sys : Sending) (react extended : Bool)
      → HasDescriptor react m.descriptor
      → Answers react (with_option sys m uds args (some extended))
  with_option-Answers sys react true h = on_three-Answers sys react h
  with_option-Answers sys true false h =
      rw (is_react true m.descriptor h) (on_three-Answers sys true h)
  with_option-Answers sys false false h = rw (is_react false m.descriptor h) (on_one-Answers sys h)

-- The command that a message holds comes to its Java method: where a method is called, it gets the
-- command and its arguments, and the two datagrams are sent to the socket that the message names,
-- whose process obtains from them the other ends of the pipes that the method is called with. These are as many as the method's descriptor takes,
-- whatever the message's option asked for.
pub core_invoke_command-Answers :
    (parse_argv : Bytes → Option (List Bytes)) (sys : Sending) (m : MethodDescriptor)
    (msg option uds_socket_name cmd : Bytes) (args : List Bytes) (react extended : Bool)
    (class name : Bytes) (call : JavaCall) (to : Bytes) (sent : List Datagram)
    → parse_argv msg ≡ some (option ∷ uds_socket_name ∷ cmd ∷ args)
    → parse_extended_invoke_option option ≡ some extended
    → split_last_slash m.full_method_name ≡ some (class, name)
    → RunsCommand m.which_method
    → HasDescriptor react m.descriptor
    → core_invoke_command parse_argv sys m msg ≡ Invoked.java call to sent
    → (to ≡ uds_socket_name)
      × (r : Response) × (obtain_response_stream sent ≡ some r)
      × (call ≡ JavaCall.called class name (some (cmd ∷ args)) (answering react r))
unfolding core_invoke_command
core_invoke_command-Answers parse_argv sys m msg option uds_socket_name cmd args react extended
      class name call to sent parsed opt split runs h e =
    with_option-Answers m class name (cmd ∷ args) uds_socket_name split runs sys react extended h
      call to sent
      (sym (ap (with_parsed sys m) parsed ∙ ap (with_option sys m uds_socket_name (cmd ∷ args)) opt)
        ∙ e)

lost_three :
    (sys : Sending) (m : MethodDescriptor) (args : List Bytes) (uds : Bytes)
    (o : Opened (End × End × End))
    → IsLost o
    → on_three m args uds o o.result ≡ Invoked.open_write_pipe_exception []
lost_three sys m args uds o (s, r) =
    ap (on_three m args uds o) r ∙ ap Invoked.open_write_pipe_exception s

lost_one :
    (sys : Sending) (m : MethodDescriptor) (args : List Bytes) (uds : Bytes) (o : Opened End)
    → IsLost o
    → on_one m args uds o o.result ≡ Invoked.open_write_pipe_exception []
lost_one sys m args uds o (s, r) =
    ap (on_one m args uds o) r ∙ ap Invoked.open_write_pipe_exception s

gone_by :
    (sys : Sending) (m : MethodDescriptor) (args : List Bytes) (uds : Bytes) (three : Bool)
    → sys.sendto_ok ≡ false
    → (if three
        then on_three m args uds (open_react_anon_pipes sys) (open_react_anon_pipes sys).result
        else on_one m args uds (open_write_anon_pipe sys) (open_write_anon_pipe sys).result)
      ≡ Invoked.open_write_pipe_exception []
gone_by sys m args uds true gone =
    lost_three sys m args uds (open_react_anon_pipes sys) (open_react_anon_pipes-IsLost sys gone)
gone_by sys m args uds false gone =
    lost_one sys m args uds (open_write_anon_pipe sys) (open_write_anon_pipe-IsLost sys gone)

-- A client that went away, so that nothing can be sent to its socket, makes the call leave by an
-- exception, before any method is called.
pub core_invoke_command-gone :
    (parse_argv : Bytes → Option (List Bytes)) (sys : Sending) (m : MethodDescriptor)
    (msg option uds_socket_name cmd : Bytes) (args : List Bytes) (extended : Bool)
    → parse_argv msg ≡ some (option ∷ uds_socket_name ∷ cmd ∷ args)
    → parse_extended_invoke_option option ≡ some extended
    → sys.sendto_ok ≡ false
    → core_invoke_command parse_argv sys m msg ≡ Invoked.open_write_pipe_exception []
unfolding core_invoke_command
core_invoke_command-gone parse_argv sys m msg option uds_socket_name cmd args extended parsed opt
      gone =
    ap (with_parsed sys m) parsed
    ∙ (ap (with_option sys m uds_socket_name (cmd ∷ args)) opt
        ∙ gone_by sys m (cmd ∷ args) uds_socket_name
            (extended || same_text react_invoke_descriptor m.descriptor) gone)

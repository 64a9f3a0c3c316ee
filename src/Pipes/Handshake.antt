-- ===== src/Pipes/Handshake.antt =====
-- The client obtains the other ends of the pipes that the answering process keeps.
use spartan_launcher.Prelude.{
  ℕ, ◌≡◌, inl, inr, refl, ap, ◌∙◌, Bool, true, false, Option, none, some, List, [], ◌∷◌, ◌++◌,
  arith, Bool-cases, if◌then◌else◌,
}
use mathlib.Core.List.{Perm, perm_middle}
use mathlib.Core.List.Perm
use spartan_launcher.Pipes.{
  End, Datagram, Sending, Opened, raised, send_ends, with_pipe, with_pipes, open_write_anon_pipe,
  ends, open_react_anon_pipes, obtain_response_stream,
}

-- What was sent, where a call has a result.
sends-result :
    {A : Type 0} (sys : Sending) (n : ℕ) (made : List ℕ) (passed all : List End) (kept a : A)
    → (send_ends sys n made passed all kept).result ≡ some a
    → (kept ≡ a)
      × ((send_ends sys n made passed all kept).sent
          ≡ Datagram.counts (record { pid = sys.own_pid; fd_rtn_count = n })
            ∷ Datagram.rights (passed ++ End.descriptor 0 ∷ [])
            ∷ [])
sends-result sys n made passed all kept a h = ground arith

-- Where the answering process has a pipe to write to, the client obtains its pid and the end to
-- read from, of that same pipe, and no other end.
pub open_write_anon_pipe-obtained :
    (sys : Sending) (e : End)
    → (open_write_anon_pipe sys).result ≡ some e
    → (p : ℕ) × (End.write_end p ≡ e)
      × (obtain_response_stream (open_write_anon_pipe sys).sent
          ≡ some
              (record { pid = sys.own_pid; rdr_fd = End.read_end p; err_fd = none; wrt_fd = none }))
unfolding open_write_anon_pipe
open_write_anon_pipe-obtained sys e h = go sys.socket_made (sys.pipe 0) h
  where
    go :
        (made : Bool) (p : Option ℕ)
        → (if made then with_pipe sys p else raised [] [] []).result ≡ some e
        → (p' : ℕ) × (End.write_end p' ≡ e)
          × (obtain_response_stream (if made then with_pipe sys p else raised [] [] []).sent
              ≡ some (record {
                pid = sys.own_pid;
                rdr_fd = End.read_end p';
                err_fd = none;
                wrt_fd = none;
              }))
    go false p h = absurd cc
    go true none h = absurd cc
    go true (some p) h =
        let r = sends-result sys 1 (p ∷ []) (End.read_end p ∷ []) (ends p) (End.write_end p) e h in
        (p, r.0, ap obtain_response_stream r.1 ∙ unfold obtain_response_stream in refl)

-- With the three streams of a react command, the client obtains the other end of each of the three
-- pipes: two to read from, and one to write to.
pub open_react_anon_pipes-obtained :
    (sys : Sending) (kept : End × End × End)
    → (open_react_anon_pipes sys).result ≡ some kept
    → (a : ℕ) × (b : ℕ) × (c : ℕ) × ((End.write_end a, End.write_end b, End.read_end c) ≡ kept)
      × (obtain_response_stream (open_react_anon_pipes sys).sent
          ≡ some (record {
            pid = sys.own_pid;
            rdr_fd = End.read_end a;
            err_fd = some (End.read_end b);
            wrt_fd = some (End.write_end c);
          }))
unfolding open_react_anon_pipes
open_react_anon_pipes-obtained sys kept h =
    go sys.socket_made (sys.pipe 0) (sys.pipe 1) (sys.pipe 2) h
  where
    go :
        (made : Bool) (p q r : Option ℕ)
        → (if made then with_pipes sys p q r else raised [] [] []).result ≡ some kept
        → (a : ℕ) × (b : ℕ) × (c : ℕ) × ((End.write_end a, End.write_end b, End.read_end c) ≡ kept)
          × (obtain_response_stream (if made then with_pipes sys p q r else raised [] [] []).sent
              ≡ some (record {
                pid = sys.own_pid;
                rdr_fd = End.read_end a;
                err_fd = some (End.read_end b);
                wrt_fd = some (End.write_end c);
              }))
    go false p q r h = absurd cc
    go true none q r h = absurd cc
    go true (some a) none r h = absurd cc
    go true (some a) (some b) none h = absurd cc
    go true (some a) (some b) (some c) h =
        let s =
          sends-result sys 3 (a ∷ b ∷ c ∷ [])
            (End.read_end a ∷ End.read_end b ∷ End.write_end c ∷ []) (ends a ++ (ends b ++ ends c))
            (End.write_end a, End.write_end b, End.read_end c) kept h in
        (a, b, c, s.0, ap obtain_response_stream s.1 ∙ unfold obtain_response_stream in refl)

-- The ends that are open behind a call.
abbrev pub kept_one : Option End → List End
kept_one none = []
kept_one (some e) = e ∷ []

abbrev pub kept_three : Option (End × End × End) → List End
kept_three none = []
kept_three (some (a, b, c)) = a ∷ b ∷ c ∷ []

abbrev pub all_ends : List ℕ → List End
all_ends [] = []
all_ends (p ∷ pipes) = ends p ++ all_ends pipes

-- The ends that are sent and those that are kept.
sorted_ends :
    (a b c : ℕ)
    → Perm
        (End.read_end a
          ∷ End.read_end b
          ∷ End.write_end c
          ∷ End.write_end a
          ∷ End.write_end b
          ∷ End.read_end c
          ∷ [])
        (all_ends (a ∷ b ∷ c ∷ []))
sorted_ends a b c = Perm.cons (End.read_end a) (
    Perm.trans
      (perm_middle (End.read_end b ∷ End.write_end c ∷ []) (End.write_end b ∷ End.read_end c ∷ []))
      (Perm.cons (End.write_end a) (
        Perm.cons (End.read_end b) (
          Perm.trans (perm_middle (End.write_end c ∷ []) (End.read_end c ∷ []))
            (Perm.cons (End.write_end b) (perm_middle (End.write_end c ∷ []) []))))))

-- No end of a pipe is lost: of those that were made, each is closed or given to the caller, and
-- not both, whichever call fails.
pub open_react_anon_pipes-closed :
    (sys : Sending)
    → Perm
        ((open_react_anon_pipes sys).closed ++ kept_three (open_react_anon_pipes sys).result)
        (all_ends (open_react_anon_pipes sys).made)
unfolding open_react_anon_pipes
open_react_anon_pipes-closed sys = go sys.socket_made (sys.pipe 0) (sys.pipe 1) (sys.pipe 2)
  where
    go :
        (made : Bool) (p q r : Option ℕ)
        → let o = if made then with_pipes sys p q r else raised [] [] [] in
          Perm (o.closed ++ kept_three o.result) (all_ends o.made)
    go false p q r = Perm.refl []
    go true none q r = Perm.refl []
    go true (some a) none r = Perm.refl (ends a)
    go true (some a) (some b) none = Perm.refl (ends a ++ ends b)
    go true (some a) (some b) (some c) = elim (Bool-cases sys.sendto_ok) [
      | inr e ↦ rw (send_ends, e) (Perm.refl (ends a ++ (ends b ++ ends c)))
      | inl e ↦ elim (Bool-cases sys.sendmsg_ok) [
        | inr f ↦ rw (send_ends, e, f) (Perm.refl (ends a ++ (ends b ++ ends c)))
        | inl f ↦ rw (send_ends, e, f) (sorted_ends a b c)
      ]
    ]

-- Nothing is sent, and there is no result, where the first send fails.
abbrev pub IsLost : {A : Type 0} → Opened A → Type 0
IsLost o = (o.sent ≡ []) × (o.result ≡ none)

send_ends-IsLost :
    {A : Type 0} (sys : Sending) (n : ℕ) (made : List ℕ) (passed all : List End) (kept : A)
    → sys.sendto_ok ≡ false
    → IsLost (send_ends sys n made passed all kept)
send_ends-IsLost sys n made passed all kept gone = rw (send_ends, gone) (refl, refl)

pub open_write_anon_pipe-IsLost :
    (sys : Sending) → sys.sendto_ok ≡ false → IsLost (open_write_anon_pipe sys)
unfolding open_write_anon_pipe
open_write_anon_pipe-IsLost sys gone = go sys.socket_made (sys.pipe 0)
  where
    go : (made : Bool) (p : Option ℕ) → IsLost (if made then with_pipe sys p else raised [] [] [])
    go false p = (refl, refl)
    go true none = (refl, refl)
    go true (some p) =
        send_ends-IsLost sys 1 (p ∷ []) (End.read_end p ∷ []) (ends p) (End.write_end p) gone

pub open_react_anon_pipes-IsLost :
    (sys : Sending) → sys.sendto_ok ≡ false → IsLost (open_react_anon_pipes sys)
unfolding open_react_anon_pipes
open_react_anon_pipes-IsLost sys gone = go sys.socket_made (sys.pipe 0) (sys.pipe 1) (sys.pipe 2)
  where
    go :
        (made : Bool) (p q r : Option ℕ)
        → IsLost (if made then with_pipes sys p q r else raised [] [] [])
    go false p q r = (refl, refl)
    go true none q r = (refl, refl)
    go true (some a) none r = (refl, refl)
    go true (some a) (some b) none = (refl, refl)
    go true (some a) (some b) (some c) =
        send_ends-IsLost sys 3 (a ∷ b ∷ c ∷ [])
          (End.read_end a ∷ End.read_end b ∷ End.write_end c ∷ []) (ends a ++ (ends b ++ ends c))
          (End.write_end a, End.write_end b, End.read_end c) gone

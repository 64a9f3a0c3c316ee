-- ===== src/Pipes/Binding.antt =====
-- The socket of a client: `bind_uds_socket_name` of src/main/cpp/launch-program.cpp.
use spartan_launcher.Prelude.{
  ℕ, ◌+◌, ◌≤◌, ◌≡◌, ◌≢◌, refl, sym, ap, subst, ◌∙◌, Bool, true, false, Option, none, some, List, [],
  ◌∷◌, ◌++◌, ltb, Bool-cases, inl, inr, Bytes, codes, length, drop, drop-length-append, arith,
}
use spartan_launcher.Stream.Numbers.{format_ℕ, value, take_digits}
use spartan_launcher.Stream.Laws.{take_digits-append, format_ℕ-AreDigits, value-format_ℕ}
use spartan_launcher.Fifo.{pipe_name, format_name, make_fifo_pipe_name}
use spartan_launcher.Pipes.{address}
use spartan_launcher.Pipes.Address.{address_iff}

-- A socket with its name and address; or the exception, with the descriptor that is closed.
pub data Binding : Type 0 where
  bound : ℕ → Bytes → Bytes → Binding
  no_name_exception create_uds_socket_exception : Binding
  bind_uds_socket_name_exception : ℕ → Binding

abbrev pub uds_basename : Bytes
uds_basename = codes "JLauncher_UDS"

abbrev pub bind_address : ℕ → Bytes → Bool → Binding
bind_address fd name true = bound fd name (address name)
bind_address fd name false = bind_uds_socket_name_exception fd

abbrev pub with_socket : (Bytes → Bool) → Bytes → Option ℕ → Binding
with_socket bind name none = create_uds_socket_exception
with_socket bind name (some fd) = bind_address fd name (bind (address name))

abbrev pub with_name : Option ℕ → (Bytes → Bool) → Option Bytes → Binding
with_name socket bind none = no_name_exception
with_name socket bind (some name) = with_socket bind name socket

-- `bind_uds_socket_name`, by the program's name, the pid and the random numbers, and what `socket`
-- and `bind` give.
unfoldable pub bind_uds_socket_name : Bytes → ℕ → List ℕ → Option ℕ → (Bytes → Bool) → Binding
bind_uds_socket_name progname pid numbers socket bind =
    with_name socket bind (make_fifo_pipe_name progname uds_basename pid numbers)

-- The name is one of the process's own, with some number.
abbrev pub IsNamed : Bytes → ℕ → Bytes → Type 0
IsNamed progname pid name = (n : ℕ) × (name ≡ pipe_name progname uds_basename pid n)

format_name-is :
    (size : ℕ) (text : ℕ → Bytes) (numbers : List ℕ) (name : Bytes)
    → format_name size text numbers ≡ some name
    → (n : ℕ) × (name ≡ text n)
unfolding format_name
format_name-is size text [] name h = ground (arith, h)
format_name-is size text (n ∷ numbers) name h = elim (Bool-cases (ltb (length (text n)) size)) [
  | inl fits ↦ (n, ground (arith, h, fits))
  | inr small ↦ format_name-is (length (text n) + 1) text numbers name (ground (arith, h, small))
]

-- A socket that was bound has the address of such a name.
abbrev pub Named : Bytes → ℕ → Binding → Type 0
Named progname pid (bound fd name a) = IsNamed progname pid name × (a ≡ address name)
Named progname pid _ = Unit

with_name-Named :
    (progname : Bytes) (pid : ℕ) (numbers : List ℕ) (socket : Option ℕ) (bind : Bytes → Bool)
    (name : Option Bytes)
    → make_fifo_pipe_name progname uds_basename pid numbers ≡ name
    → Named progname pid (with_name socket bind name)
unfolding make_fifo_pipe_name
with_name-Named progname pid numbers socket bind none h = tt
with_name-Named progname pid numbers none bind (some name) h = tt
with_name-Named progname pid numbers (some fd) bind (some name) h =
    elim (Bool-cases (bind (address name))) [
      | inl b ↦ rw b (format_name-is 256 (pipe_name progname uds_basename pid) numbers name h, refl)
      | inr b ↦ rw b tt
    ]

cancel : (a x y : Bytes) → a ++ x ≡ a ++ y → x ≡ y
cancel a x y e = sym (drop-length-append a x) ∙ (ap (drop (length a)) e ∙ drop-length-append a y)

-- A number with an underscore behind it tells which number it is.
number_apart : (p q : ℕ) (x y : Bytes) → format_ℕ p ++ b'_' ∷ x ≡ format_ℕ q ++ b'_' ∷ y → p ≡ q
number_apart p q x y e =
    let digits =
      sym (take_digits-append (format_ℕ p) b'_' x (format_ℕ-AreDigits p) refl)
      ∙ (ap take_digits e ∙ take_digits-append (format_ℕ q) b'_' y (format_ℕ-AreDigits q) refl) in
    sym (value-format_ℕ p) ∙ (ap (λ r. value 0 r.0) digits ∙ value-format_ℕ q)

name_apart :
    (progname : Bytes) (p q n m : ℕ)
    → drop 1 (pipe_name progname uds_basename p n) ≡ drop 1 (pipe_name progname uds_basename q m)
    → p ≡ q
name_apart progname p q n m e =
    number_apart p q (format_ℕ n) (format_ℕ m)
      (cancel (codes "_JLauncher_UDS_") _ _ (cancel progname _ _ (cancel (codes "tmp/") _ _ e)))

same_address :
    (progname : Bytes) (p q : ℕ) (name other : Bytes)
    → IsNamed progname p name
    → IsNamed progname q other
    → length name ≤ 107
    → length other ≤ 107
    → address name ≡ address other
    → p ≡ q
same_address progname p q name other (n, e) (m, f) h k a =
    let long : length (pipe_name progname uds_basename p n) ≤ 107 =
      subst (λ x. length x ≤ 107) e h in
    let long' : length (pipe_name progname uds_basename q m) ≤ 107 =
      subst (λ x. length x ≤ 107) f k in
    name_apart progname p q n m (
      (address_iff b'/' b'/' (drop 1 (pipe_name progname uds_basename p n))
          (drop 1 (pipe_name progname uds_basename q m)) long long').0
        (sym (ap address e) ∙ (a ∙ ap address f)))

-- Where two processes of one program both have bound a socket, by names of at most 107 bytes, they
-- have different addresses, so that what is sent to one never comes to the other; and each address
-- is that of the name which the process passes on.
pub bind_uds_socket_name-apart :
    (progname : Bytes) (pid pid' : ℕ) (numbers numbers' : List ℕ) (socket socket' : Option ℕ)
    (bind bind' : Bytes → Bool) (fd fd' : ℕ) (name name' a a' : Bytes)
    → bind_uds_socket_name progname pid numbers socket bind ≡ bound fd name a
    → bind_uds_socket_name progname pid' numbers' socket' bind' ≡ bound fd' name' a'
    → length name ≤ 107
    → length name' ≤ 107
    → pid ≢ pid'
    → (a ≢ a') × (a ≡ address name) × (a' ≡ address name')
unfolding bind_uds_socket_name
bind_uds_socket_name-apart progname pid pid' numbers numbers' socket socket' bind bind' fd fd' name
      name' a a' b b' h h' apart =
    let first = subst (Named progname pid) b (
      with_name-Named progname pid numbers socket bind
        (make_fifo_pipe_name progname uds_basename pid numbers) refl) in
    let second = subst (Named progname pid') b' (
      with_name-Named progname pid' numbers' socket' bind'
        (make_fifo_pipe_name progname uds_basename pid' numbers') refl) in
    (
      (λ e. apart (
          same_address progname pid pid' name name' first.0 second.0 h h'
            (sym first.1 ∙ (e ∙ second.1)))),
      first.1,
      second.1,
    )

-- ===== src/Echo/Response/Tables.antt =====
-- The tables that a client makes hold pipes that belong together.
use spartan_launcher.Prelude.{
  ℕ, ◌≡◌, ◌≢◌, ◌⊎◌, inl, inr, refl, sym, ap, ◌∙◌, Bool, true, false, ◌&&◌, Option, none, some, List,
  [], ◌∷◌, ◌==◌, arith, Bool-cases,
}
use mathlib.Core.Option.{some-injective}
use spartan_launcher.Echo.Streams.{
  StreamCtx, ReactIoCtx, FdMap, Fcntl, find, erase, insert, lookup_react_io_ctx,
  lookup_mutable_stream_ctx, no_stream, stream_ctx, stream_of, is_valid_init, stream_in, add_one,
  add_three,
}
use spartan_launcher.Echo.Rounds.{Outcome}
use spartan_launcher.Echo.Rounds.Together.{IsFamily}
use spartan_launcher.Pipes.{End}
use spartan_launcher.Echo.Response.{Client, with_map, react_tables, tables_for, started}

abbrev pub ctx : ℕ → ℕ → Bool → StreamCtx
ctx fd dup err = record { orig_fd = some fd; dup_fd = some dup; is_stderr_flag = err }

-- The items of the table for one stream, and for three.
abbrev pub one_item : ℕ → ℕ → ReactIoCtx
one_item a d = record { stdout_ctx = ctx a d false; stderr_ctx = no_stream; stdin_ctx = no_stream }

abbrev pub react_item : ℕ × ℕ → ℕ × ℕ → ℕ × ℕ → ReactIoCtx
react_item (a, d) (b, e) (c, f) = record {
  stdout_ctx = ctx a d false;
  stderr_ctx = ctx b e true;
  stdin_ctx = ctx c f false;
}

-- A table in which every descriptor has the same item.
abbrev same_items : ReactIoCtx → List ℕ → FdMap
same_items item [] = []
same_items item (fd ∷ fds) = (fd, item) ∷ same_items item fds

lookup-same :
    (item c : ReactIoCtx) (fds : List ℕ) (fd : ℕ)
    → lookup_react_io_ctx fd (same_items item fds) ≡ some c
    → item ≡ c
unfolding lookup_react_io_ctx find
lookup-same item c [] fd h = absurd cc
lookup-same item c (k ∷ fds) fd h = elim (Bool-cases (k == fd)) [
  | inl e ↦ some-injective item c (rw e at h)
  | inr e ↦ lookup-same item c fds fd (rw e at h)
]

-- Every stream of the item was set up, or is not there.
abbrev IsSetUp : StreamCtx → Type 0
IsSetUp c = (c.orig_fd ≡ none) ⊎ (is_valid_init c ≡ true)

stream_in-valid :
    (item : ReactIoCtx) (c : StreamCtx) (fd : ℕ)
    → IsSetUp item.stdout_ctx
    → IsSetUp item.stderr_ctx
    → IsSetUp item.stdin_ctx
    → stream_in fd (some item) ≡ some c
    → is_valid_init c ≡ true
stream_in-valid item c fd x y z h = ground arith

lookup_stream :
    (item : ReactIoCtx) (fds : List ℕ) (fd : ℕ) (c : StreamCtx)
    → lookup_mutable_stream_ctx fd (same_items item fds) ≡ some c
    → stream_in fd (some item) ≡ some c
unfolding lookup_mutable_stream_ctx find
lookup_stream item [] fd c h = absurd cc
lookup_stream item (k ∷ fds) fd c h = elim (Bool-cases (k == fd)) [
  | inl e ↦ rw e at h
  | inr e ↦ lookup_stream item fds fd c (rw e at h)
]

-- The two tables, and the outputs that go with them.
abbrev pub one_table : ℕ → ℕ → FdMap
one_table a d = same_items (one_item a d) (a ∷ [])

abbrev pub react_table : ℕ × ℕ → ℕ × ℕ → ℕ × ℕ → FdMap
react_table p q r = same_items (react_item p q r) (p.0 ∷ q.0 ∷ r.0 ∷ [])

one-IsFamily : (a d id : ℕ) → IsFamily (one_table a d) ((a, id) ∷ [])
unfolding erase
one-IsFamily a d id = record {
  together = λ fd c s found h.
      let same : (a == a) ≡ true = ground arith in
      rw (← lookup-same (one_item a d) c (a ∷ []) fd found) (ground (arith, h.0, h.1));
  valid = λ fd c found.
      stream_in-valid (one_item a d) c fd (inr refl) (inl refl) (inl refl)
        (lookup_stream (one_item a d) (a ∷ []) fd c found);
}

-- Three pipes have three descriptors.
abbrev pub AreDistinct : ℕ → ℕ → ℕ → Type 0
AreDistinct a b c = (a ≢ b) × (a ≢ c) × (b ≢ c)

erase_three {ℓ} :
    {A : Type ℓ} (a b c : ℕ) (x y z : A)
    → erase c (erase b (erase a ((a, x) ∷ (b, y) ∷ (c, z) ∷ []))) ≡ []
unfolding erase
erase_three a b c x y z = ground arith

react-IsFamily :
    (a b c : ℕ × ℕ) → IsFamily (react_table a b c) ((a.0, 0) ∷ (b.0, 1) ∷ (c.0, 2) ∷ [])
react-IsFamily a b c = record {
  together = λ fd i s found h.
      rw (← lookup-same (react_item a b c) i (a.0 ∷ b.0 ∷ c.0 ∷ []) fd found) (
        ap (λ m. erase c.0 (erase b.0 (erase a.0 m))) h.0
            ∙ erase_three a.0 b.0 c.0 (react_item a b c) (react_item a b c) (react_item a b c),
        ap (λ m. erase c.0 (erase b.0 (erase a.0 m))) h.1 ∙ erase_three a.0 b.0 c.0 0 1 2,
      );
  valid = λ fd i found.
      stream_in-valid (react_item a b c) i fd (inr refl) (inr refl) (inr refl)
        (lookup_stream (react_item a b c) (a.0 ∷ b.0 ∷ c.0 ∷ []) fd i found);
}

insert_three {ℓ} :
    {A : Type ℓ} (a b c : ℕ) (x y z : A)
    → AreDistinct a b c
    → insert c z (insert b y (insert a x [])) ≡ (a, x) ∷ (b, y) ∷ (c, z) ∷ []
unfolding insert
insert_three a b c x y z h = ground (arith, h.0, h.1, h.2)

stream_ctx-cases :
    (sys : Fcntl) (fd : ℕ)
    → (stream_ctx sys fd ≡ none) ⊎ ((d : ℕ) × (stream_ctx sys fd ≡ some (ctx fd d false)))
unfolding stream_ctx
stream_ctx-cases sys fd = go (sys.dup fd)
  where
    go :
        (dup : Option ℕ)
        → (stream_of sys fd dup ≡ none) ⊎ ((d : ℕ) × (stream_of sys fd dup ≡ some (ctx fd d false)))
    go none = inl refl
    go (some d) = elim (Bool-cases (sys.set_nonblock d)) [
      | inl e ↦ inr (d, rw e refl)
      | inr e ↦ inl (rw e refl)
    ]

-- The tables that an outcome starts with are those of a family.
unfoldable pub Starts : Client → Outcome → Type 0
Starts cl o = (m : FdMap) × (os : List (ℕ × ℕ)) × IsFamily m os × (o ≡ started cl.outputs m os)

one-Starts :
    (cl : Client) (rsp : ℕ) (o : Outcome)
    → with_map cl (insert rsp 0 []) (add_one cl.fcntl rsp []) ≡ some o
    → Starts cl o
unfolding Starts add_one insert
one-Starts cl rsp o h = elim (stream_ctx-cases cl.fcntl rsp) [
  | inl e ↦ absurd (let x : Option.none ≡ some o = rw e at h in cc)
  | inr (d, e) ↦ (
    one_table rsp d,
    (rsp, 0) ∷ [],
    one-IsFamily rsp d 0,
    sym (some-injective (started cl.outputs (one_table rsp d) ((rsp, 0) ∷ [])) o (rw e at h)),
  )
]

add_three-react :
    (sys : Fcntl) (a b c : ℕ × ℕ)
    → AreDistinct a.0 b.0 c.0
    → stream_ctx sys a.0 ≡ some (ctx a.0 a.1 false)
    → stream_ctx sys b.0 ≡ some (ctx b.0 b.1 false)
    → stream_ctx sys c.0 ≡ some (ctx c.0 c.1 false)
    → add_three sys a.0 b.0 c.0 [] ≡ some (react_table a b c)
unfolding add_three
add_three-react sys a b c h x y z =
    rw (add_three, x, y, z)
      (ap some
        (insert_three a.0 b.0 c.0 (react_item a b c) (react_item a b c) (react_item a b c) h))

add_three-cases :
    (sys : Fcntl) (a b c : ℕ)
    → AreDistinct a b c
    → (add_three sys a b c [] ≡ none)
      ⊎ ((d : ℕ) × (e : ℕ) × (f : ℕ) × (add_three sys a b c []
            ≡ some (react_table (a, d) (b, e) (c, f))))
unfolding add_three
add_three-cases sys a b c h = elim (stream_ctx-cases sys a) [
  | inl x ↦ inl (rw (add_three, x) refl)
  | inr (d, x) ↦ elim (stream_ctx-cases sys b) [
    | inl y ↦ inl (rw (add_three, x, y) refl)
    | inr (e, y) ↦ elim (stream_ctx-cases sys c) [
      | inl z ↦ inl (rw (add_three, x, y, z) refl)
      | inr (f, z) ↦ inr (d, e, f, add_three-react sys (a, d) (b, e) (c, f) h x y z)
    ]
  ]
]

three-Starts :
    (cl : Client) (a b c : ℕ) (o : Outcome)
    → AreDistinct a b c
    → with_map cl (insert c 2 (insert b 1 (insert a 0 []))) (add_three cl.fcntl a b c []) ≡ some o
    → Starts cl o
unfolding Starts
three-Starts cl a b c o h e = elim (add_three-cases cl.fcntl a b c h) [
  | inl x ↦ absurd (let y : Option.none ≡ some o = rw x at e in cc)
  | inr (d, k, f, x) ↦
      let os = insert_three a b c 0 1 2 h in
      (
        react_table (a, d) (b, k) (c, f),
        (a, 0) ∷ (b, 1) ∷ (c, 2) ∷ [],
        react-IsFamily (a, d) (b, k) (c, f),
        sym (
            some-injective _ o (
              sym (ap (λ y. with_map cl y (some (react_table (a, d) (b, k) (c, f)))) os)
              ∙ rw x at e)),
      )
]

-- The descriptors of the three streams, where they are used, are three.
abbrev pub AreApart : Client → ℕ → Option End → Option End → Type 0
AreApart cl rsp (some err) (some wrt) =
    (d : ℕ) → cl.dup_stdin ≡ some d → AreDistinct rsp (cl.fd_of err) d
AreApart cl rsp none wrt = Unit
AreApart cl rsp (some err) none = Unit

react-Starts :
    (cl : Client) (a b : ℕ) (dup : Option ℕ) (o : Outcome)
    → ((d : ℕ) → dup ≡ some d → AreDistinct a b d)
    → react_tables cl a b dup ≡ some o
    → Starts cl o
react-Starts cl a b none o h e = absurd cc
react-Starts cl a b (some c) o h e = elim (Bool-cases (cl.stdin_nonblock && cl.fdopen_ok)) [
  | inl k ↦ three-Starts cl a b c o (h c refl) (rw k at e)
  | inr k ↦ absurd (let y : Option.none ≡ some o = rw k at e in cc)
]

pub tables_for-Starts :
    (cl : Client) (rsp : ℕ) (err wrt : Option End) (o : Outcome)
    → AreApart cl rsp err wrt
    → tables_for cl rsp err wrt ≡ some o
    → Starts cl o
tables_for-Starts cl rsp none wrt o h e = one-Starts cl rsp o e
tables_for-Starts cl rsp (some err) none o h e = one-Starts cl rsp o e
tables_for-Starts cl rsp (some err) (some wrt) o h e =
    react-Starts cl rsp (cl.fd_of err) cl.dup_stdin o h e

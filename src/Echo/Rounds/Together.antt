-- ===== src/Echo/Rounds/Together.antt =====
-- The pipes of a subcommand end together, and the first that ends decides the exit code.
use spartan_launcher.Prelude.{
  ℕ, ◌≡◌, ◌⊎◌, inl, inr, refl, sym, ap, ◌∙◌, Bool, true, false, ◌||◌, Option, none, some, List, [],
  ◌∷◌, subst, if◌then◌else◌, is_empty, Bool-cases, Option-cases, All,
}
use spartan_launcher.Echo.Copy.{WriteResult, goes_on, write_to_output_stream}
use spartan_launcher.Echo.Streams.{
  StreamCtx, ReactIoCtx, FdMap, is_valid_init, find, lookup_react_io_ctx, lookup_mutable_stream_ctx,
}
use spartan_launcher.Echo.Rounds.{
  Streams, Ready, is_some, poll_for_io, Launched, put_output, launch_on, launch_ctx, launch,
  Outcome, drop_ctx, is_no_op, is_end, harvest_one, harvest, Poll, after_launch, round,
  multi_read_on_ready,
}

-- The tables hold these entries.
abbrev pub Holds : FdMap → List (ℕ × ℕ) → Streams → Type 0
Holds m os s = (s.fd_map ≡ m) × (s.output_streams_map ≡ os)

-- Pipes that belong together: whichever is looked up, its group is all that the tables hold; and
-- each was set up.
pub record IsFamily (m : FdMap) (os : List (ℕ × ℕ)) : Type 0 where
  pub together :
      (fd : ℕ) (c : ReactIoCtx) (s : Streams)
      → lookup_react_io_ctx fd m ≡ some c
      → Holds m os s
      → Holds [] [] (drop_ctx (some c) s)
  pub valid :
      (fd : ℕ) (c : StreamCtx) → lookup_mutable_stream_ctx fd m ≡ some c → is_valid_init c ≡ true

-- The pipe stands in the table.
abbrev pub IsIn : FdMap → ℕ → Type 0
IsIn m fd = is_some (lookup_react_io_ctx fd m) ≡ true

poll_for_io-IsIn :
    (m : FdMap) (shown : List Ready) → All (λ (r : Ready). IsIn m r.fd) (poll_for_io m shown)
unfolding poll_for_io
poll_for_io-IsIn m [] = tt
poll_for_io-IsIn m (r ∷ shown) = elim (Bool-cases (is_some (lookup_react_io_ctx r.fd m))) [
  | inl e ↦ rw (poll_for_io, e) (e, poll_for_io-IsIn m shown)
  | inr e ↦ rw (poll_for_io, e) (poll_for_io-IsIn m shown)
]

-- The results are those of pipes in the table, and the tables are as before.
abbrev Keeps : FdMap → List (ℕ × ℕ) → Launched → Type 0
Keeps m os l = All (λ (r : ℕ × WriteResult). IsIn m r.0) l.0 × Holds m os l.1

module _ {m : FdMap} {os : List (ℕ × ℕ)} (family : IsFamily m os) where
  launch_on-Keeps :
      (r : Ready) (rest : Streams → Launched) (s : Streams) (found : Option ℕ)
      → IsIn m r.fd
      → Holds m os s
      → ((t : Streams) → Holds m os t → Keeps m os (rest t))
      → Keeps m os (launch_on r rest s found)
  unfolding launch_on
  launch_on-Keeps r rest s none i h next = next s h
  launch_on-Keeps r rest s (some id) i h next =
      let o = s.outputs id in
      let copy = write_to_output_stream o.has_fd r.hung_up r.turns o.bytes o.bytes_written in
      let k = next (put_output id copy.1 s) h in ((i, k.0), k.1)

  launch_ctx-Keeps :
      (r : Ready) (rest : Streams → Launched) (s : Streams) (found : Option StreamCtx)
      → found ≡ lookup_mutable_stream_ctx r.fd m
      → IsIn m r.fd
      → Holds m os s
      → ((t : Streams) → Holds m os t → Keeps m os (rest t))
      → Keeps m os (launch_ctx r rest s found)
  unfolding launch_ctx
  launch_ctx-Keeps r rest s none e i h next = next s h
  launch_ctx-Keeps r rest s (some c) e i h next =
      rw (launch_ctx, family.valid r.fd c (sym e))
        (launch_on-Keeps r rest (record s { is_ctrl_z_registered = true })
          (find r.fd s.output_streams_map) i h next)

  launch-Keeps :
      (pollfds : List Ready) (s : Streams)
      → All (λ (r : Ready). IsIn m r.fd) pollfds
      → Holds m os s
      → Keeps m os (launch pollfds s)
  unfolding launch
  launch-Keeps [] s i h = (tt, h)
  launch-Keeps (r ∷ pollfds) s i h =
      launch_ctx-Keeps r (launch pollfds) s (lookup_mutable_stream_ctx r.fd s.fd_map)
        (ap (lookup_mutable_stream_ctx r.fd) h.0) i.0 h (λ t k. launch-Keeps pollfds t i.1 k)

  -- All are open and nothing has ended, or none is and the first result that ended one is kept.
  abbrev pub Together : Outcome → Type 0
  Together o =
      (Holds m os o.streams × (o.ec ≡ 0) × (o.wr ≡ WriteResult.no_op))
      ⊎ (Holds [] [] o.streams × (goes_on o.wr ≡ false) × (is_end o.wr ≡ false → o.ec ≡ 1))

  lookup_some : (fd : ℕ) → IsIn m fd → (c : ReactIoCtx) × (lookup_react_io_ctx fd m ≡ some c)
  lookup_some fd i = elim (Option-cases (lookup_react_io_ctx fd m)) [
    | inl e ↦ absurd (let x : false ≡ true = ap is_some (sym e) ∙ i in cc)
    | inr p ↦ p
  ]

  lookup_none : (fd : ℕ) → lookup_react_io_ctx fd [] ≡ none
  unfolding lookup_react_io_ctx find
  lookup_none fd = refl

  -- What a result that cannot go on leaves, by the group that was found.
  abbrev stopped : Option ReactIoCtx → WriteResult → Outcome → Outcome
  stopped found wr2 o = record {
    streams = drop_ctx found o.streams;
    ec = if is_end wr2 then o.ec else 1;
    wr = if is_no_op o.wr then wr2 else o.wr;
  }

  harvest_one-stopped :
      (fd : ℕ) (wr2 : WriteResult) (o : Outcome) (found : Option ReactIoCtx)
      → goes_on wr2 ≡ false
      → lookup_react_io_ctx fd o.streams.fd_map ≡ found
      → harvest_one fd wr2 o ≡ stopped found wr2 o
  unfolding harvest_one
  harvest_one-stopped fd wr2 o found g e = rw (harvest_one, g) (ap (λ f. stopped f wr2 o) e)

  first_end :
      (wr2 : WriteResult) (ec : ℕ) (wr : WriteResult)
      → wr ≡ WriteResult.no_op
      → is_end (if is_no_op wr then wr2 else wr) ≡ false
      → (if is_end wr2 then ec else 1) ≡ 1
  first_end wr2 ec wr w e =
      let e' = sym (ap (λ x. is_end (if is_no_op x then wr2 else x)) w) ∙ e in rw e' refl

  stopped_open :
      (fd : ℕ) (wr2 : WriteResult) (o : Outcome)
      → goes_on wr2 ≡ false
      → IsIn m fd
      → Holds m os o.streams
      → o.wr ≡ WriteResult.no_op
      → Together (harvest_one fd wr2 o)
  stopped_open fd wr2 o g i h w =
      let p = lookup_some fd i in
      let found = ap (lookup_react_io_ctx fd) h.0 ∙ p.1 in
      rw (harvest_one-stopped fd wr2 o (some p.0) g found) (
        inr (
          family.together fd p.0 o.streams p.1 h,
          ap (λ x. goes_on (if is_no_op x then wr2 else x)) w ∙ g,
          first_end wr2 o.ec o.wr w,
        ))

  goes_on_no_op : (wr : WriteResult) → goes_on wr ≡ false → is_no_op wr ≡ false
  goes_on_no_op WriteResult.no_op g = cc
  goes_on_no_op WriteResult.success g = refl
  goes_on_no_op WriteResult.failure g = refl
  goes_on_no_op WriteResult.interrupted g = refl
  goes_on_no_op WriteResult.end_of_file g = refl
  goes_on_no_op WriteResult.pipe_conn_broken g = refl

  either_one : (b : Bool) (n : ℕ) → n ≡ 1 → (if b then n else 1) ≡ 1
  either_one true n e = e
  either_one false n e = refl

  stopped_closed :
      (fd : ℕ) (wr2 : WriteResult) (o : Outcome)
      → goes_on wr2 ≡ false
      → Holds [] [] o.streams
      → goes_on o.wr ≡ false
      → (is_end o.wr ≡ false → o.ec ≡ 1)
      → Together (harvest_one fd wr2 o)
  stopped_closed fd wr2 o g h k e =
      let found = ap (lookup_react_io_ctx fd) h.0 ∙ lookup_none fd in
      let n = goes_on_no_op o.wr k in
      let same : (if is_no_op o.wr then wr2 else o.wr) ≡ o.wr = rw n refl in
      rw (harvest_one-stopped fd wr2 o none g found) (
        inr (
          h,
          ap goes_on same ∙ k,
          λ x. either_one (is_end wr2) o.ec (e (sym (ap is_end same) ∙ x)),
        ))

  harvest_one-Together :
      (fd : ℕ) (wr2 : WriteResult) (o : Outcome)
      → IsIn m fd
      → Together o
      → Together (harvest_one fd wr2 o)
  unfolding harvest_one
  harvest_one-Together fd wr2 o i t = elim (Bool-cases (goes_on wr2)) [
    | inl g ↦ rw (harvest_one, g) t
    | inr g ↦ elim t [
      | inl (h, _, w) ↦ stopped_open fd wr2 o g i h w
      | inr (h, k, e) ↦ stopped_closed fd wr2 o g h k e
    ]
  ]

  harvest-Together :
      (results : List (ℕ × WriteResult)) (o : Outcome)
      → All (λ (r : ℕ × WriteResult). IsIn m r.0) results
      → Together o
      → Together (harvest results o)
  unfolding harvest
  harvest-Together [] o i t = t
  harvest-Together ((fd, wr2) ∷ results) o i t =
      harvest-Together results (harvest_one fd wr2 o) i.1 (harvest_one-Together fd wr2 o i.0 t)

  round-Together :
      (poll : Poll) (o : Outcome)
      → Holds m os o.streams
      → o.ec ≡ 0
      → Together o
      → Together (round poll o)
  unfolding round after_launch
  round-Together Poll.eintr o h e t = t
  round-Together (Poll.ready shown) o h e t =
      let pollfds = poll_for_io o.streams.fd_map shown in
      let i =
        subst (λ x. All (λ (r : Ready). IsIn x r.fd) pollfds) h.0
          (poll_for_io-IsIn o.streams.fd_map shown) in
      let k = launch-Keeps pollfds o.streams i h in
      harvest-Together (launch pollfds o.streams).0 _ k.0 (inl (k.1, e, refl))

  next-Together :
      (interrupted : Bool) (poll : Poll) (o : Outcome)
      → Together o
      → (is_empty o.streams.fd_map || interrupted) ≡ false
      → Together (round poll o)
  next-Together interrupted poll o (inl t) e = round-Together poll o t.0 t.1 (inl t)
  next-Together interrupted poll o (inr t) e =
      absurd (let x : true ≡ false = sym (ap (λ f. is_empty f || interrupted) t.0.0) ∙ e in cc)

  -- After any rounds, either every pipe is still open, no result has ended one, and the exit code
  -- is that of success; or no pipe is in the tables, for what ends one pipe ends all that belong to
  -- it, and the first result that ended one is kept: if that is not the end of its file, the exit
  -- code is that of a failure.
  pub multi_read_on_ready-Together :
      (rounds : List (Bool × Poll)) (o : Outcome)
      → Together o
      → Together (multi_read_on_ready rounds o)
  unfolding multi_read_on_ready
  multi_read_on_ready-Together [] o t = t
  multi_read_on_ready-Together ((interrupted, poll) ∷ rounds) o t =
      elim (Bool-cases (is_empty o.streams.fd_map || interrupted)) [
        | inl e ↦ rw (multi_read_on_ready, e) t
        | inr e ↦
            rw (multi_read_on_ready, e)
              (multi_read_on_ready-Together rounds (round poll o)
                (next-Together interrupted poll o t e))
      ]

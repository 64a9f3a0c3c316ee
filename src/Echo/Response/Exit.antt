-- ===== src/Echo/Response/Exit.antt =====
-- The exit code of a client.
use spartan_launcher.Prelude.{
  ℕ, ◌≡◌, ◌⊎◌, inl, inr, refl, sym, ap, subst, ◌∙◌, Bool, false, some, List, [], ◌∷◌, arith,
  if◌then◌else◌, Bool-cases,
}
use spartan_launcher.Echo.Copy.{WriteResult, goes_on}
use spartan_launcher.Echo.Rounds.{
  Streams, Outcome, Poll, is_end, is_no_op, harvest, harvest_one, multi_read_on_ready,
}
use spartan_launcher.Echo.Rounds.Together.{Together, multi_read_on_ready-Together}
use spartan_launcher.Pipes.{Response}
use spartan_launcher.Echo.Response.Tables.{Starts, AreApart, tables_for-Starts}
use spartan_launcher.Echo.Response.{Client, tables, exit_status}

exit-wr :
    (ec : ℕ) (wr : WriteResult) (s : Streams)
    → (is_end wr ≡ false → ec ≡ 1)
    → exit_status (record { streams = s; ec = ec; wr = wr }) ≡ (if is_end wr then 0 else 1)
exit-wr ec wr s h = elim (Bool-cases (is_end wr)) [
  | inl e ↦ rw e (ground arith)
  | inr e ↦ rw (e, h e) refl
]

-- The pipes that a client obtained are read until one of them ends, and then none of them is: the
-- tables are either as they were made, where no result has ended a pipe and the client counts as
-- successful, or empty. Then the exit code is that of success just if the first result that ended
-- one is the end of its file.
pub echo-together :
    (cl : Client) (r : Response) (o : Outcome) (rounds : List (Bool × Poll))
    → AreApart cl (cl.fd_of r.rdr_fd) r.err_fd r.wrt_fd
    → tables cl r ≡ some o
    → let end = multi_read_on_ready rounds o in
      ((end.streams.fd_map ≡ o.streams.fd_map)
        × (end.wr ≡ WriteResult.no_op)
        × (exit_status end ≡ 0))
      ⊎ ((end.streams.fd_map ≡ [])
          × (end.streams.output_streams_map ≡ [])
          × (goes_on end.wr ≡ false)
          × (exit_status end ≡ (if is_end end.wr then 0 else 1)))
unfolding tables Starts
echo-together cl r o rounds h e =
    let s = tables_for-Starts cl (cl.fd_of r.rdr_fd) r.err_fd r.wrt_fd o h e in
    let start = subst (Together s.2) (sym s.3) (inl ((refl, refl), refl, refl)) in
    elim (multi_read_on_ready-Together s.2 rounds o start) [
      | inl (k, ec, wr) ↦
          inl (k.0 ∙ sym (ap (λ (x : Outcome). x.streams.fd_map) s.3), wr, rw ec refl)
      | inr (k, g, ec) ↦
          let end = multi_read_on_ready rounds o in
          inr (k.0, k.1, g, exit-wr end.ec end.wr end.streams ec)
    ]

no_op_stops : (wr : WriteResult) → goes_on wr ≡ false → is_no_op wr ≡ false
no_op_stops WriteResult.no_op g = cc
no_op_stops WriteResult.success g = refl
no_op_stops WriteResult.failure g = refl
no_op_stops WriteResult.interrupted g = refl
no_op_stops WriteResult.end_of_file g = refl
no_op_stops WriteResult.pipe_conn_broken g = refl

-- The first result that cannot go on.
abbrev pub first_stop : List (ℕ × WriteResult) → WriteResult
first_stop [] = WriteResult.no_op
first_stop ((fd, wr) ∷ results) = if goes_on wr then first_stop results else wr

harvest_one-kept :
    (fd : ℕ) (wr2 : WriteResult) (o : Outcome)
    → goes_on o.wr ≡ false
    → (is_end o.wr ≡ false → o.ec ≡ 1)
    → ((harvest_one fd wr2 o).wr ≡ o.wr) × (is_end o.wr ≡ false → (harvest_one fd wr2 o).ec ≡ 1)
unfolding harvest_one
harvest_one-kept fd wr2 o g h = elim (Bool-cases (goes_on wr2)) [
  | inl k ↦ rw (harvest_one, k) (refl, h)
  | inr k ↦
      rw (harvest_one, k)
        ((let n = no_op_stops o.wr g in rw n refl), (λ e. (let x = h e in ground arith)))
]

harvest_kept :
    (results : List (ℕ × WriteResult)) (o : Outcome)
    → goes_on o.wr ≡ false
    → (is_end o.wr ≡ false → o.ec ≡ 1)
    → exit_status (harvest results o) ≡ (if is_end o.wr then 0 else 1)
unfolding harvest
harvest_kept [] o g h = exit-wr o.ec o.wr o.streams h
harvest_kept ((fd, wr2) ∷ results) o g h =
    let k = harvest_one-kept fd wr2 o g h in
    harvest_kept results (harvest_one fd wr2 o) (ap goes_on k.0 ∙ g)
      (λ e. k.1 (sym (ap is_end k.0) ∙ e))
    ∙ ap (λ x. if is_end x then 0 else 1) k.0

-- The exit code of a result that ended a pipe, or of none.
abbrev pub status_of : WriteResult → ℕ
status_of WriteResult.failure = 1
status_of WriteResult.interrupted = 1
status_of WriteResult.pipe_conn_broken = 1
status_of _ = 0

-- Of the results of one round only the first that ends a pipe decides the exit code: a failure
-- behind the end of a file is lost, while the same two results the other way round are a failure.
pub harvest-exit :
    (results : List (ℕ × WriteResult)) (s : Streams)
    → exit_status (harvest results (record { streams = s; ec = 0; wr = WriteResult.no_op }))
      ≡ status_of (first_stop results)
unfolding harvest harvest_one
harvest-exit [] s = refl
harvest-exit ((fd, WriteResult.no_op) ∷ results) s = harvest-exit results s
harvest-exit ((fd, WriteResult.success) ∷ results) s = harvest-exit results s
harvest-exit ((fd, WriteResult.failure) ∷ results) s = harvest_kept results _ refl (λ e. refl)
harvest-exit ((fd, WriteResult.interrupted) ∷ results) s = harvest_kept results _ refl (λ e. refl)
harvest-exit ((fd, WriteResult.end_of_file) ∷ results) s = harvest_kept results _ refl (λ e. cc)
harvest-exit ((fd, WriteResult.pipe_conn_broken) ∷ results) s =
    harvest_kept results _ refl (λ e. refl)

-- ===== src/Echo/Copy/Laws.antt =====
-- What a copy of a pipe comes to, when the output takes every byte.
use spartan_launcher.Prelude.{
  ℕ, ◌+◌, ◌^◌, ◌<◌, ◌≡◌, refl, sym, ap, ◌∙◌, Bool, true, false, Option, some, List, [], ◌∷◌, ◌++◌,
  append_assoc, append-nil, arith, if◌then◌else◌, Bytes, length, length-append, take, ltb, All,
  ◌==◌,
}
use spartan_launcher.Echo.Copy.{
  WriteResult, Read, Turn, Copy, ullint, write_output, after_write, echo_turn, echo, hung_up_turn,
  read_hung_up, write_to_output_stream, new_copy,
}

-- How a run of turns stops.
pub data Stop : Type 0 where
  by_signal at_end at_block at_failure : Stop

-- The bytes up to the stop, and the stop: what a turn adds to those behind it.
abbrev pub copied_turn : Bool → Read → Bytes × Stop → Bytes × Stop
copied_turn true what rest = ([], by_signal)
copied_turn false Read.would_block rest = ([], at_block)
copied_turn false Read.failed rest = ([], at_failure)
copied_turn false (Read.bytes []) rest = ([], at_end)
copied_turn false (Read.bytes (b ∷ text)) rest = ((b ∷ text) ++ rest.0, rest.1)

unfoldable pub copied : List Turn → Bytes × Stop
copied [] = ([], at_end)
copied (t ∷ turns) = copied_turn t.signalled t.what (copied turns)

-- The result for a stop, by whether anything was read.
abbrev pub result_of : Bool → Stop → WriteResult
result_of any by_signal = WriteResult.interrupted
result_of any at_end = WriteResult.end_of_file
result_of any at_failure = WriteResult.failure
result_of any at_block = if any then WriteResult.no_op else WriteResult.pipe_conn_broken

abbrev pub amount : Read → ℕ
amount (Read.bytes text) = length text
amount _ = 0

-- The output takes all that the turn has read.
abbrev pub IsWhole : Turn → Type 0
IsWhole t = t.written ≡ some (amount t.what)

-- The copy has put out the bytes, and counted them.
abbrev pub Copies : Bytes × Stop → Copy → WriteResult × Copy → Type 0
Copies (text, stop) c (wr, end) =
    (wr ≡ result_of (ltb 0 (c.read_total + length text)) stop)
    × (end.output ≡ c.output ++ text)
    × (end.n_writ ≡ c.n_writ + length text)

abbrev pub Fits : Bytes × Stop → Copy → Type 0
Fits (text, stop) c = (c.read_total + length text < 2 ^ 64) × (c.n_writ + length text < 2 ^ 64)

take_self : (s : Bytes) → take (length s) s ≡ s
take_self [] = refl
take_self (b ∷ s) = ap (◌∷◌ b) (take_self s)

-- A copy of which `text` was put out.
abbrev put : Bytes → Copy → Copy
put text c = record {
  output = c.output ++ text;
  read_total = ullint (c.read_total + length text);
  n_read = ullint (c.n_read + length text);
  n_writ = ullint (c.n_writ + length text);
}

write_output-put :
    (text : Bytes) (nw : Option ℕ) (c : Copy)
    → nw ≡ some (length text)
    → write_output text nw c ≡ (WriteResult.success, put text c)
unfolding write_output
write_output-put text nw c e =
    let same : (length text == length text) ≡ true = ground arith in
    rw (e, same)
      (ap (λ x. (WriteResult.success, record (put text c) { output = c.output ++ x }))
        (take_self text))

-- The rest copies what is behind the turn, from the copy that has put out the turn's bytes.
after-Copies :
    (text : Bytes) (nw : Option ℕ) (more : Bytes × Stop) (rest : Copy → WriteResult × Copy)
    (c : Copy)
    → nw ≡ some (length text)
    → Fits (text ++ more.0, more.1) c
    → ((d : Copy) → Fits more d → Copies more d (rest d))
    → Copies (text ++ more.0, more.1) c (after_write rest (write_output text nw c))
after-Copies text nw more rest c e fits next =
    let long = length-append text more.0 in
    let h = next (put text c) (omega (arith, long, fits.0), omega (arith, long, fits.1)) in
    rw (write_output-put text nw c e) (
      h.0 ∙ ap (λ n. result_of (ltb 0 n) more.1) (omega (arith, long, fits.0)),
      h.1 ∙ append_assoc c.output text more.0,
      omega (arith, long, h.2, fits.1),
    )

echo_turn-Copies :
    (signalled : Bool) (what : Read) (nw : Option ℕ) (more : Bytes × Stop)
    (rest : Copy → WriteResult × Copy) (c : Copy)
    → nw ≡ some (amount what)
    → Fits (copied_turn signalled what more) c
    → ((d : Copy) → Fits more d → Copies more d (rest d))
    → Copies (copied_turn signalled what more) c (echo_turn signalled what nw rest c)
unfolding echo_turn
echo_turn-Copies true what nw more rest c e fits next =
    (refl, sym (append-nil c.output), omega arith)
echo_turn-Copies false Read.would_block nw more rest c e fits next = (
  ap (λ n. if ltb 0 n then WriteResult.no_op else WriteResult.pipe_conn_broken) (omega arith),
  sym (append-nil c.output),
  omega arith,
)
echo_turn-Copies false Read.failed nw more rest c e fits next =
    (refl, sym (append-nil c.output), omega arith)
echo_turn-Copies false (Read.bytes []) nw more rest c e fits next =
    (refl, sym (append-nil c.output), omega arith)
echo_turn-Copies false (Read.bytes (b ∷ text)) nw more rest c e fits next =
    after-Copies (b ∷ text) nw more rest c e fits next

echo-Copies :
    (turns : List Turn) (c : Copy)
    → All IsWhole turns
    → Fits (copied turns) c
    → Copies (copied turns) c (echo turns c)
unfolding copied echo
echo-Copies [] c h fits = (refl, sym (append-nil c.output), omega arith)
echo-Copies (t ∷ turns) c h fits =
    echo_turn-Copies t.signalled t.what t.written (copied turns) (echo turns) c h.0 fits
      (λ d f. echo-Copies turns d h.1 f)

-- The turns as a pipe that hung up has them: its first read looks for no signal.
abbrev pub as_read : Bool → List Turn → List Turn
as_read hung_up [] = []
as_read hung_up (t ∷ turns) = (if hung_up then record t { signalled = false } else t) ∷ turns

hung_up-echo :
    (t : Turn) (turns : List Turn) (c : Copy)
    → c.read_total ≡ 0
    → read_hung_up (t ∷ turns) c ≡ echo_turn false t.what t.written (echo turns) c
unfolding read_hung_up
hung_up-echo t turns c z = go t.what t.written
  where
    go :
        (what : Read) (nw : Option ℕ)
        → hung_up_turn what nw (echo turns) c ≡ echo_turn false what nw (echo turns) c
    go Read.would_block nw = unfold hung_up_turn echo_turn in rw z refl
    go Read.failed nw = unfold hung_up_turn echo_turn in refl
    go (Read.bytes []) nw = unfold hung_up_turn echo_turn in refl
    go (Read.bytes (b ∷ text)) nw = unfold hung_up_turn echo_turn in refl

as_read-IsWhole :
    (hung_up : Bool) (turns : List Turn) → All IsWhole turns → All IsWhole (as_read hung_up turns)
as_read-IsWhole hung_up [] h = tt
as_read-IsWhole true (t ∷ turns) h = h
as_read-IsWhole false (t ∷ turns) h = h

module _ (output : Bytes) (n_writ : ℕ) where
  read_hung_up-Copies :
      (turns : List Turn)
      → All IsWhole turns
      → Fits (copied (as_read true turns)) (new_copy output n_writ)
      → Copies
          (copied (as_read true turns))
          (new_copy output n_writ)
          (read_hung_up turns (new_copy output n_writ))
  unfolding read_hung_up echo copied
  read_hung_up-Copies [] h fits = (refl, sym (append-nil output), omega arith)
  read_hung_up-Copies (t ∷ turns) h fits =
      rw (hung_up-echo t turns (new_copy output n_writ) refl)
        (echo-Copies (record t { signalled = false } ∷ turns) (new_copy output n_writ) h fits)

  -- With an output that takes every byte, the pipe's bytes go there in order, up to the first turn
  -- that reads none or that a signal precedes, and are counted; the result tells that turn, and
  -- whether a pipe that would block gave anything. The first read of a pipe that hung up looks for
  -- no signal. Both hold where the count stays below 2^64.
  pub write_to_output_stream-Copies :
      (hung_up : Bool) (turns : List Turn)
      → All IsWhole turns
      → Fits (copied (as_read hung_up turns)) (new_copy output n_writ)
      → Copies
          (copied (as_read hung_up turns))
          (new_copy output n_writ)
          (write_to_output_stream true hung_up turns output n_writ)
  unfolding write_to_output_stream
  write_to_output_stream-Copies true turns h fits = read_hung_up-Copies turns h fits
  write_to_output_stream-Copies false [] h fits = echo-Copies [] (new_copy output n_writ) h fits
  write_to_output_stream-Copies false (t ∷ turns) h fits =
      echo-Copies (t ∷ turns) (new_copy output n_writ) h fits

-- A turn that reads bytes, which the output takes.
abbrev pub turn : ℕ → Bytes → Turn
turn b text = record {
  signalled = false;
  what = Read.bytes (b ∷ text);
  written = some (length (b ∷ text));
}

abbrev pub turns_of : List (ℕ × Bytes) → List Turn → List Turn
turns_of [] more = more
turns_of ((b, text) ∷ texts) more = turn b text ∷ turns_of texts more

abbrev pub joined : List (ℕ × Bytes) → Bytes
joined [] = []
joined ((b, text) ∷ texts) = (b ∷ text) ++ joined texts

echo_short :
    (b : ℕ) (text : Bytes) (nw : ℕ) (more : List Turn) (c : Copy)
    → (nw == length (b ∷ text)) ≡ false
    → let r = echo (record (turn b text) { written = some nw } ∷ more) c in
      (r.0 ≡ WriteResult.failure) × (r.1.output ≡ c.output ++ take nw (b ∷ text))
unfolding echo echo_turn write_output
echo_short b text nw more c h = rw (echo, echo_turn, write_output, h) (refl, refl)

echo-turn :
    (b : ℕ) (text : Bytes) (more : List Turn) (c : Copy)
    → echo (turn b text ∷ more) c ≡ echo more (put (b ∷ text) c)
unfolding echo echo_turn
echo-turn b text more c =
    ap (after_write (echo more)) (write_output-put (b ∷ text) (some (length (b ∷ text))) c refl)

-- A `write` that takes less than was read ends the copy as a failure: what was read before is put
-- out whole, of the last bytes those that were taken, and nothing of what follows.
pub echo-short :
    (texts : List (ℕ × Bytes)) (b : ℕ) (text : Bytes) (nw : ℕ) (more : List Turn) (c : Copy)
    → (nw == length (b ∷ text)) ≡ false
    → ((echo (turns_of texts (record (turn b text) { written = some nw } ∷ more)) c).0
        ≡ WriteResult.failure)
      × ((echo (turns_of texts (record (turn b text) { written = some nw } ∷ more)) c).1.output
          ≡ (c.output ++ joined texts) ++ take nw (b ∷ text))
echo-short [] b text nw more c h =
    let s = echo_short b text nw more c h in
    (s.0, s.1 ∙ ap (λ x. x ++ take nw (b ∷ text)) (sym (append-nil c.output)))
echo-short ((d, first) ∷ texts) b text nw more c h =
    let s = echo-short texts b text nw more (put (d ∷ first) c) h in
    rw (echo-turn d first (turns_of texts (record (turn b text) { written = some nw } ∷ more)) c) (
      s.0,
      s.1 ∙ ap (λ x. x ++ take nw (b ∷ text)) (append_assoc c.output (d ∷ first) (joined texts)),
    )

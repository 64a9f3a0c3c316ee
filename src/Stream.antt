-- ===== src/Stream.antt =====
-- The parts of `std::istream` and `std::ostream` that src/main/cpp/session-state.cpp uses, over a
-- buffer of bytes: the text not yet read, and the state bits.
pub mod Numbers
pub mod Laws
pub mod Memory
use spartan_launcher.Prelude.{
  ℕ, ◌+◌, Bool, true, false, ◌||◌, Option, none, some, List, [], ◌∷◌, ◌==◌, if◌then◌else◌, Bytes,
  is_empty,
}

pub record IStream : Type 0 where
  pub rest : Bytes
  pub eof : Bool
  pub fail : Bool

-- A stream in a good state.
abbrev pub reading : Bytes → IStream
reading k = record { rest = k; eof = false; fail = false }

-- A read takes the stream and returns the value that the target variable has afterwards.
abbrev pub Read : Type 0 → Type 0
Read A = IStream → A × IStream

infixl 5 ◌>>=◌ ◌>>◌
abbrev pub ◌>>=◌ : {A B : Type 0} → Read A → (A → Read B) → Read B
◌>>=◌ m f s = f (m s).0 (m s).1

abbrev pub ◌>>◌ : {A B : Type 0} → Read A → Read B → Read B
◌>>◌ m k = m >>= λ _. k

abbrev pub return : {A : Type 0} → A → Read A
return a s = (a, s)

-- The text before the first `delim`, and what follows it; `none` if there is none.
unfoldable pub cut : ℕ → Bytes → Bytes × Option Bytes
cut delim [] = ([], none)
cut delim (c ∷ cs) = if c == delim then ([], some cs) else (c ∷ (cut delim cs).0, (cut delim cs).1)

after_cut : Bytes × Option Bytes → Bytes × IStream
after_cut (line, some k) = (line, reading k)
after_cut (line, none) = (line, record { rest = []; eof = true; fail = is_empty line })

-- `std::getline(is, str, delim)`: a stream that is not good leaves `str` alone.
unfoldable pub getline : ℕ → Bytes → Read Bytes
unfolding cut after_cut
getline delim str s =
    if s.eof || s.fail then (str, record s { fail = true }) else after_cut (cut delim s.rest)

drop_delim : Bytes → Unit {0} × IStream
drop_delim [] = (tt, record { rest = []; eof = true; fail = true })
drop_delim (c ∷ cs) =
    (tt, if c == b'\n' then reading cs else record { rest = c ∷ cs; eof = false; fail = true })

-- `is.getline(&c, 1)`: there is room for no character, so any but the newline is a failure.
unfoldable pub skip_newline : Read (Unit {0})
unfolding drop_delim
skip_newline s = if s.eof || s.fail then (tt, record s { fail = true }) else drop_delim s.rest

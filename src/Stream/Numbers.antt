-- ===== src/Stream/Numbers.antt =====
-- Decimal output (`os << n`) and input (`is >> n`) of the integer types.
use spartan_launcher.Prelude.{
  ℕ, zero, suc, ◌+◌, ◌-◌, ◌*◌, ◌/◌, ◌%◌, ◌^◌, Bool, true, false, not, ◌||◌, [], ◌∷◌, ◌==◌, ltb,
  if◌then◌else◌, Bytes, is_empty, is_digit, is_space, ℤ, pos, negsuc,
}
use spartan_launcher.Stream.{IStream, Read}

-- The digits of a positive number in front of `out`; the fuel is at least the number.
unfoldable pub digits : ℕ → ℕ → Bytes → Bytes
digits zero n out = out
digits (suc f) n out =
    let more = digits f (n / 10) ((b'0' + n % 10) ∷ out) in if n == 0 then out else more

unfoldable pub format_ℕ : ℕ → Bytes
unfolding digits
format_ℕ n = if n == 0 then b'0' ∷ [] else digits n n []

unfoldable pub format_ℤ : ℤ → Bytes
unfolding format_ℕ
format_ℤ (pos n) = format_ℕ n
format_ℤ (negsuc n) = b'-' ∷ format_ℕ (suc n)

unfoldable pub take_digits : Bytes → Bytes × Bytes
take_digits [] = ([], [])
take_digits (c ∷ cs) =
    if is_digit c then (c ∷ (take_digits cs).0, (take_digits cs).1) else ([], c ∷ cs)

unfoldable pub value : ℕ → Bytes → ℕ
value acc [] = acc
value acc (c ∷ cs) = value (acc * 10 + (c - b'0')) cs

unfoldable pub skip_space : Bytes → Bytes
skip_space [] = []
skip_space (c ∷ cs) = if is_space c then skip_space cs else c ∷ cs

-- An optional sign: whether it is a minus, and the rest.
unfoldable pub take_sign : Bytes → Bool × Bytes
take_sign [] = (false, [])
take_sign (c ∷ cs) =
    if c == b'-' then (true, cs) else if c == b'+' then (false, cs) else (false, c ∷ cs)

-- The integer of a sign and a magnitude, held to the range -low … high; and whether it fits.
unfoldable pub ranged : ℕ → ℕ → Bool → ℕ → ℤ × Bool
ranged low high minus zero = (pos 0, true)
ranged low high true (suc n) =
    if ltb low (suc n) then (negsuc (low - 1), false) else (negsuc n, true)
ranged low high false (suc n) = if ltb high (suc n) then (pos high, false) else (pos (suc n), true)

-- `num_get` from the sign on.
unfoldable pub scan_int : ℕ → ℕ → Bytes → ℤ × IStream
scan_int low high text =
    let minus = (take_sign text).0 in
    let ds = (take_digits (take_sign text).1).0 in
    let left = (take_digits (take_sign text).1).1 in
    let r = ranged low high minus (value 0 ds) in
    if is_empty ds
    then (pos 0, record { rest = left; eof = is_empty left; fail = true })
    else (r.0, record { rest = left; eof = is_empty left; fail = not r.1 })

-- `is >> n` for a signed `n` in the range -low … high; `old` is what `n` held.
unfoldable pub read_int : ℕ → ℕ → ℤ → Read ℤ
read_int low high old s =
    if s.eof || s.fail
    then (old, record s { fail = true })
    else if is_empty (skip_space s.rest)
    then (old, record { rest = []; eof = true; fail = true })
    else scan_int low high (skip_space s.rest)

abbrev pub read_pid : ℤ → Read ℤ
read_pid = read_int (2 ^ 31) (2 ^ 31 - 1)

abbrev pub read_short : ℤ → Read ℤ
read_short = read_int (2 ^ 15) (2 ^ 15 - 1)

abbrev is_one : ℤ → Bool
is_one (pos n) = n == 1
is_one (negsuc n) = false

abbrev is_bit : ℤ → Bool
is_bit (pos n) = ltb n 2
is_bit (negsuc n) = false

-- `os << b` without `boolalpha`
abbrev pub bit : Bool → Bytes
bit true = b'1' ∷ []
bit false = b'0' ∷ []

-- `is >> b` without `boolalpha`: 0 or 1; any other number is true, and a failure.
bool_of : Bool → ℤ × IStream → Bool × IStream
bool_of old (z, s) = if is_bit z then (is_one z, s) else (true, record s { fail = true })

unfoldable pub read_bool : Bool → Read Bool
unfolding bool_of
read_bool old s =
    if s.eof || s.fail || is_empty (skip_space s.rest)
    then (old, (read_int 0 0 (pos 0) s).1)
    else bool_of old (scan_int (2 ^ 63) (2 ^ 63 - 1) (skip_space s.rest))

-- `is >> n` for a 64-bit `size_t`: a negative number is taken modulo 2^64.
size_of : ℤ → ℕ
size_of (pos n) = n
size_of (negsuc n) = 2 ^ 64 - (n + 1)

unfoldable pub read_size : ℕ → Read ℕ
unfolding size_of
read_size old s =
    if s.eof || s.fail || is_empty (skip_space s.rest)
    then (old, (read_int 0 0 (pos 0) s).1)
    else let r = scan_int (2 ^ 64 - 1) (2 ^ 64 - 1) (skip_space s.rest) in
      (
        if r.1.fail
            then (if is_empty (take_digits (take_sign (skip_space s.rest)).1).0
                then 0
                else 2 ^ 64 - 1)
            else size_of r.0,
        r.1,
      )

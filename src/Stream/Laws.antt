-- ===== src/Stream/Laws.antt =====
-- What a good stream reads back of the text that was written for it.

use spartan_launcher.Prelude.{
  Lacks, subst, ℕ, zero, suc, ◌+◌, ◌-◌, ◌/◌, ◌%◌, ◌^◌, ◌<◌, ◌≤◌, ◌≡◌, ◌≢◌, refl, Bool, true, false,
  [], ◌∷◌, ◌++◌, arith, Bytes, Lacks, All, is_digit, is_empty, ℤ, pos, negsuc, some,
}
use spartan_launcher.Stream.{reading, cut, getline, skip_newline}
use spartan_launcher.Stream.Numbers.{
  digits, format_ℕ, format_ℤ, take_digits, value, skip_space, take_sign, ranged, scan_int, read_int,
  bit, read_bool, read_size,
}

cut-append :
    (delim : ℕ) (line k : Bytes)
    → Lacks delim line
    → cut delim (line ++ (delim ∷ k)) ≡ (line, some k)
unfolding cut
cut-append delim [] k h = ground arith
cut-append delim (c ∷ cs) k h = ground (arith, cut-append delim cs k h.1)

-- A line is read back up to its end.
pub getline-append :
    (delim : ℕ) (old line k : Bytes)
    → Lacks delim line
    → getline delim old (reading (line ++ (delim ∷ k))) ≡ (line, reading k)
unfolding getline
getline-append delim old line k h = rw (cut-append delim line k h)

pub skip_newline_lem : (k : Bytes) → skip_newline (reading (b'\n' ∷ k)) ≡ (tt, reading k)
unfolding skip_newline
skip_newline_lem k = refl

pub AreDigits : Bytes → Type 0
AreDigits = All (λ c. is_digit c ≡ true)

digits-AreDigits : (f n : ℕ) (out : Bytes) → AreDigits out → AreDigits (digits f n out)
unfolding digits AreDigits
digits-AreDigits zero n out h = h
digits-AreDigits (suc f) n out h =
    ground (arith, digits-AreDigits f (n / 10) ((b'0' + n % 10) ∷ out))

value-digits : (f n : ℕ) (out : Bytes) → n ≤ f → value 0 (digits f n out) ≡ value n out
unfolding digits value
value-digits zero zero out h = refl
value-digits zero (suc n) out h = absurd (omega arith)
value-digits (suc f) n out h =
    let d = b'0' + n % 10 in ground (arith, value-digits f (n / 10) (d ∷ out))

pub format_ℕ-AreDigits : (n : ℕ) → AreDigits (format_ℕ n)
unfolding format_ℕ AreDigits
format_ℕ-AreDigits n = ground (arith, digits-AreDigits n n [])

pub value-format_ℕ : (n : ℕ) → value 0 (format_ℕ n) ≡ n
unfolding format_ℕ value
value-format_ℕ n = ground (arith, value-digits n n [])

digits-ne-nil : (f n : ℕ) (out : Bytes) → out ≢ [] → digits f n out ≢ []
unfolding digits
digits-ne-nil zero n out h = h
digits-ne-nil (suc f) n out h = ground (arith, digits-ne-nil f (n / 10) ((b'0' + n % 10) ∷ out))

cons-of-ne-nil : (s : Bytes) → s ≢ [] → (c : ℕ) × (cs : Bytes) × (s ≡ c ∷ cs)
cons-of-ne-nil [] h = absurd (h refl)
cons-of-ne-nil (c ∷ cs) h = (c, cs, refl)

format_ℕ-ne-nil : (n : ℕ) → format_ℕ n ≢ []
unfolding format_ℕ
format_ℕ-ne-nil zero = λ e. cc
format_ℕ-ne-nil (suc n) =
    unfold digits in
    ground (arith, digits-ne-nil n (suc n / 10) ((b'0' + suc n % 10) ∷ []) (λ e. cc))

digits-Lacks : (s : Bytes) → AreDigits s → Lacks b' ' s
unfolding AreDigits
digits-Lacks [] h = tt
digits-Lacks (d ∷ ds) h = ground (arith, digits-Lacks ds h.1)

-- A number is a word.
pub format_ℕ-word : (n : ℕ) → (c : ℕ) × (cs : Bytes) × (format_ℕ n ≡ c ∷ cs) × (Lacks b' ' (c ∷ cs))
format_ℕ-word n =
    let (c, cs, e) = cons-of-ne-nil (format_ℕ n) (format_ℕ-ne-nil n) in
    (c, cs, e, subst (Lacks b' ') e (digits-Lacks (format_ℕ n) (format_ℕ-AreDigits n)))

pub take_digits-append :
    (ds : Bytes) (c : ℕ) (k : Bytes)
    → AreDigits ds
    → is_digit c ≡ false
    → take_digits (ds ++ (c ∷ k)) ≡ (ds, c ∷ k)
unfolding take_digits AreDigits
take_digits-append [] c k h e = ground arith
take_digits-append (d ∷ ds) c k h e = ground (arith, take_digits-append ds c k h.1)

take_sign_digit : (d : ℕ) (ds : Bytes) → is_digit d ≡ true → take_sign (d ∷ ds) ≡ (false, d ∷ ds)
unfolding take_sign
take_sign_digit d ds h = ground arith

skip_space_digit : (d : ℕ) (ds : Bytes) → is_digit d ≡ true → skip_space (d ∷ ds) ≡ d ∷ ds
unfolding skip_space
skip_space_digit d ds h = ground arith

-- The integer lies in the range -low … high.
abbrev pub InRange : ℕ → ℕ → ℤ → Type 0
InRange low high (pos n) = n ≤ high
InRange low high (negsuc n) = n < low

ranged_pos : (low high n : ℕ) → n ≤ high → ranged low high false n ≡ (pos n, true)
unfolding ranged
ranged_pos low high zero h = refl
ranged_pos low high (suc n) h = ground arith

ranged_neg : (low high n : ℕ) → n < low → ranged low high true (suc n) ≡ (negsuc n, true)
unfolding ranged
ranged_neg low high n h = ground arith

scan_int_at :
    (low high : ℕ) (text : Bytes) {minus : Bool} {t ds left : Bytes} {z : ℤ}
    → take_sign text ≡ (minus, t)
    → take_digits t ≡ (ds, left)
    → is_empty ds ≡ false
    → is_empty left ≡ false
    → ranged low high minus (value 0 ds) ≡ (z, true)
    → scan_int low high text ≡ (z, reading left)
unfolding scan_int
scan_int_at low high text a b c d e = rw (a, b, c, d, e)

is_empty_of_ne : (s : Bytes) → s ≢ [] → is_empty s ≡ false
is_empty_of_ne [] h = absurd (h refl)
is_empty_of_ne (c ∷ cs) h = refl

take_sign_digits : (s k : Bytes) → AreDigits s → s ≢ [] → take_sign (s ++ k) ≡ (false, s ++ k)
unfolding AreDigits
take_sign_digits [] k h ne = absurd (ne refl)
take_sign_digits (d ∷ ds) k h ne = take_sign_digit d (ds ++ k) h.0

skip_space_digits : (s k : Bytes) → AreDigits s → s ≢ [] → skip_space (s ++ k) ≡ s ++ k
unfolding AreDigits
skip_space_digits [] k h ne = absurd (ne refl)
skip_space_digits (d ∷ ds) k h ne = skip_space_digit d (ds ++ k) h.0

take_digits-format_ℕ :
    (n : ℕ) (k : Bytes) → take_digits (format_ℕ n ++ (b'\n' ∷ k)) ≡ (format_ℕ n, b'\n' ∷ k)
take_digits-format_ℕ n k = take_digits-append (format_ℕ n) b'\n' k (format_ℕ-AreDigits n) refl

take_sign_minus : (t : Bytes) → take_sign (b'-' ∷ t) ≡ (true, t)
unfolding take_sign
take_sign_minus t = refl

-- A number in range is read back, up to the newline behind it.
scan_int-format_ℤ :
    (low high : ℕ) (z : ℤ) (k : Bytes)
    → InRange low high z
    → scan_int low high (format_ℤ z ++ (b'\n' ∷ k)) ≡ (z, reading (b'\n' ∷ k))
unfolding format_ℤ
scan_int-format_ℤ low high (pos n) k h =
    scan_int_at low high _ (take_sign_digits _ _ (format_ℕ-AreDigits n) (format_ℕ-ne-nil n))
      (take_digits-format_ℕ n k) (is_empty_of_ne _ (format_ℕ-ne-nil n)) refl
      (rw (value-format_ℕ n) (ranged_pos low high n h))
scan_int-format_ℤ low high (negsuc n) k h =
    scan_int_at low high _ (take_sign_minus (format_ℕ (suc n) ++ (b'\n' ∷ k)))
      (take_digits-format_ℕ (suc n) k) (is_empty_of_ne _ (format_ℕ-ne-nil (suc n))) refl
      (rw (value-format_ℕ (suc n)) (ranged_neg low high n h))

skip_space-format_ℤ : (z : ℤ) (k : Bytes) → skip_space (format_ℤ z ++ k) ≡ format_ℤ z ++ k
unfolding format_ℤ
skip_space-format_ℤ (pos n) k = skip_space_digits _ k (format_ℕ-AreDigits n) (format_ℕ-ne-nil n)
skip_space-format_ℤ (negsuc n) k = unfold skip_space in refl

is_empty-format_ℤ : (z : ℤ) (k : Bytes) → is_empty (format_ℤ z ++ k) ≡ false
unfolding format_ℤ
is_empty-format_ℤ (pos n) k = is_empty-append (format_ℕ n) k (format_ℕ-ne-nil n)
  where
    is_empty-append : (s t : Bytes) → s ≢ [] → is_empty (s ++ t) ≡ false
    is_empty-append [] t h = absurd (h refl)
    is_empty-append (c ∷ cs) t h = refl
is_empty-format_ℤ (negsuc n) k = refl

pub read_int-format_ℤ :
    (low high : ℕ) (old z : ℤ) (k : Bytes)
    → InRange low high z
    → read_int low high old (reading (format_ℤ z ++ (b'\n' ∷ k))) ≡ (z, reading (b'\n' ∷ k))
unfolding read_int
read_int-format_ℤ low high old z k h =
    rw (skip_space-format_ℤ z (b'\n' ∷ k), is_empty-format_ℤ z (b'\n' ∷ k))
      (scan_int-format_ℤ low high z k h)

pub read_bool-bit :
    (old b : Bool) (k : Bytes)
    → read_bool old (reading (bit b ++ (b'\n' ∷ k))) ≡ (b, reading (b'\n' ∷ k))
unfolding read_bool skip_space scan_int take_digits take_sign ranged value
read_bool-bit old true k = refl
read_bool-bit old false k = refl

pub read_size-format_ℕ :
    (old n : ℕ) (k : Bytes)
    → n < 2 ^ 64
    → read_size old (reading (format_ℕ n ++ (b'\n' ∷ k))) ≡ (n, reading (b'\n' ∷ k))
unfolding read_size format_ℤ
read_size-format_ℕ old n k h = rw (
  skip_space-format_ℤ (pos n) (b'\n' ∷ k),
  is_empty-format_ℤ (pos n) (b'\n' ∷ k),
  scan_int-format_ℤ (2 ^ 64 - 1) (2 ^ 64 - 1) (pos n) k (omega arith),
)

-- ===== src/Fifo/Names.antt =====
-- The numbers of the names, and how often a name is formatted.
use spartan_launcher.Prelude.{
  ℕ, zero, suc, ◌+◌, ◌-◌, ◌*◌, ◌/◌, ◌%◌, ◌^◌, ◌≤◌, ◌<◌, ◌≡◌, inl, inr, refl, subst, true, false,
  some, List, [], ◌∷◌, ◌++◌, ltb, arith, Bytes, codes, length, length-append, All, Bool-cases,
}
use native.Mathlib.Nat.{div-lt_iff_lt-mul, mul_comm}
use spartan_launcher.Stream.Numbers.{digits, format_ℕ}
use spartan_launcher.Fifo.{
  range, buckets, limit, get_rnd_nbr, pipe_name, format_name, make_fifo_pipe_name,
}

positive_of : (b r n : ℕ) → n < b * r → 0 < b
positive_of zero r n h = absurd (omega arith)
positive_of (suc b) r n h = omega arith

-- The first number below the limit is taken, those in front of it are passed over, and the result
-- is in the range asked for.
pub get_rnd_nbr_lem :
    (rand_max min_n max_n : ℕ) (front : List ℕ) (rnd_n : ℕ) (back : List ℕ)
    → min_n ≤ max_n
    → max_n < 2 ^ 32 - 1
    → All (λ r. ltb r (limit rand_max min_n max_n) ≡ false) front
    → rnd_n < limit rand_max min_n max_n
    → (n : ℕ) × (get_rnd_nbr rand_max min_n max_n (front ++ rnd_n ∷ back) ≡ some (n, back))
      × (min_n ≤ n)
      × (n ≤ max_n)
unfolding get_rnd_nbr
get_rnd_nbr_lem rand_max min_n max_n [] rnd_n back le high over below =
    let b = buckets rand_max min_n max_n in
    let r = range min_n max_n in
    let is_below : ltb rnd_n (limit rand_max min_n max_n) ≡ true = ground arith in
    let wide : r ≡ 1 + max_n - min_n = omega arith in
    let positive : 0 < b = positive_of b r rnd_n below in
    let small : rnd_n / b < r =
      (div-lt_iff_lt-mul positive).1 (subst (λ x. rnd_n < x) (mul_comm b r) below) in
    (
      (min_n + rnd_n / b) % 2 ^ 32,
      rw is_below refl,
      omega (arith, wide, small, le, high),
      omega (arith, wide, small, le, high),
    )
get_rnd_nbr_lem rand_max min_n max_n (f ∷ front) rnd_n back le high over below =
    rw over.0 (get_rnd_nbr_lem rand_max min_n max_n front rnd_n back le high over.1 below)

digits_zero : (f : ℕ) (out : Bytes) → digits f 0 out ≡ out
unfolding digits
digits_zero zero out = refl
digits_zero (suc f) out = refl

length-digits_one :
    (f n : ℕ) (out : Bytes) → n < 10 → n ≤ f → length (digits f n out) ≤ length out + 1
unfolding digits
length-digits_one zero n out h l = omega arith
length-digits_one (suc f) n out h l =
    let none_left : n / 10 ≡ 0 = omega arith in rw (none_left, digits_zero f) (ground arith)

length-digits_ge : (f n : ℕ) (out : Bytes) → length out ≤ length (digits f n out)
unfolding digits
length-digits_ge zero n out = omega arith
length-digits_ge (suc f) n out =
    let more = length-digits_ge f (n / 10) ((b'0' + n % 10) ∷ out) in ground arith

-- A number below 100 has one digit or two.
length-format_ℕ : (n : ℕ) → 0 < n → n < 100 → (1 ≤ length (format_ℕ n)) × (length (format_ℕ n) ≤ 2)
unfolding format_ℕ digits
length-format_ℕ zero p h = absurd (omega arith)
length-format_ℕ (suc m) p h =
    let first = b'0' + suc m % 10 in
    let at_least = length-digits_ge m (suc m / 10) (first ∷ []) in
    let at_most = length-digits_one m (suc m / 10) (first ∷ []) (omega arith) (omega arith) in
    (ground (arith, at_least), ground (arith, at_most))

-- The numbers that an attempt may draw.
abbrev pub IsDrawn : ℕ → Type 0
IsDrawn n = (0 < n) × (n < 100)

-- Texts that differ in length by one at most.
format_name_three :
    (size base : ℕ) (text : ℕ → Bytes) (a b c : ℕ) (more : List ℕ)
    → ((n : ℕ) → IsDrawn n → (base + 1 ≤ length (text n)) × (length (text n) ≤ base + 2))
    → IsDrawn a
    → IsDrawn b
    → IsDrawn c
    → (n : ℕ) × IsDrawn n × (format_name size text (a ∷ b ∷ c ∷ more) ≡ some (text n))
unfolding format_name
format_name_three size base text a b c more h ha hb hc =
    let la = h a ha in
    let lb = h b hb in
    let lc = h c hc in
    elim (Bool-cases (ltb (length (text a)) size)) [
      | inl e ↦ (a, ha, rw e refl)
      | inr e ↦ elim (Bool-cases (ltb (length (text b)) (length (text a) + 1))) [
        | inl k ↦ (b, hb, rw (e, k) refl)
        | inr k ↦
            let longer : length (text a) + 1 ≤ length (text b) = ground (arith, k) in
            let last : ltb (length (text c)) (length (text b) + 1) ≡ true =
              ground (arith, longer, la, lc) in
            (c, hc, rw (e, k, last) refl)
      ]
    ]

-- Three attempts give a name, however long its parts are: an attempt may draw a number that is
-- longer than the one before, but not twice. The name ends in one of the numbers drawn.
pub make_fifo_pipe_name_enough :
    (progname basename : Bytes) (pid a b c : ℕ) (more : List ℕ)
    → IsDrawn a
    → IsDrawn b
    → IsDrawn c
    → (n : ℕ) × IsDrawn n
      × (make_fifo_pipe_name progname basename pid (a ∷ b ∷ c ∷ more)
          ≡ some (pipe_name progname basename pid n))
unfolding make_fifo_pipe_name
make_fifo_pipe_name_enough progname basename pid a b c more ha hb hc =
    format_name_three 256 (length front) (pipe_name progname basename pid) a b c more
      (λ n h. (
        (let l = length-format_ℕ n h.0 h.1 in let s = split n in omega (arith, l, s)),
        (let l = length-format_ℕ n h.0 h.1 in let s = split n in omega (arith, l, s)),
      ))
      ha hb hc
  where
    front : Bytes
    front = codes "/tmp/" ++ (progname ++ b'_' ∷ (basename ++ b'_' ∷ (format_ℕ pid ++ b'_' ∷ [])))

    parts :
        (tail : Bytes)
        → length (
            codes "/tmp/"
            ++ (progname ++ b'_' ∷ (basename ++ b'_' ∷ (format_ℕ pid ++ b'_' ∷ tail))))
          ≡ 8 + length progname + length basename + length (format_ℕ pid) + length tail
    parts tail = omega (
      arith,
      length-append progname (b'_' ∷ (basename ++ b'_' ∷ (format_ℕ pid ++ b'_' ∷ tail))),
      length-append basename (b'_' ∷ (format_ℕ pid ++ b'_' ∷ tail)),
      length-append (format_ℕ pid) (b'_' ∷ tail),
    )

    split :
        (n : ℕ) → length (pipe_name progname basename pid n) ≡ length front + length (format_ℕ n)
    split n = omega (arith, parts (format_ℕ n), parts [])

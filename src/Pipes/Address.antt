-- ===== src/Pipes/Address.antt =====
-- Which names give the same address.
use spartan_launcher.Prelude.{
  ℕ, suc, ◌+◌, ◌-◌, ◌%◌, ◌^◌, ◌≤◌, ◌<◌, ◌≡◌, ◌↔◌, zero, refl, sym, ap, ◌∙◌, [], ◌∷◌, ◌++◌, arith,
  Bytes, length, take, take-length-append, replicate,
}
use spartan_launcher.Pipes.{zero_first, sun_path, addr_len, address}

take_long : (n : ℕ) (s : Bytes) → length s ≤ n → take n s ≡ s
take_long zero [] h = refl
take_long zero (c ∷ s) h = absurd (omega arith)
take_long (suc n) [] h = refl
take_long (suc n) (c ∷ s) h = ap (◌∷◌ c) (take_long n s (omega arith))

sun_path_short :
    (c : ℕ) (s : Bytes)
    → length (c ∷ s) ≤ 107
    → sun_path (c ∷ s) ≡ (0 ∷ s) ++ replicate (108 - length (c ∷ s)) 0
unfolding sun_path
sun_path_short c s h =
    ap (λ x. zero_first (x ++ replicate (108 - length x) 0)) (take_long 107 (c ∷ s) h)

-- A name of at most 107 bytes, which is not empty, gives an abstract address: a zero, and then the
-- name without its first byte, all of it and nothing behind it.
pub address_lem : (c : ℕ) (s : Bytes) → length (c ∷ s) ≤ 107 → address (c ∷ s) ≡ 0 ∷ s
unfolding address addr_len
address_lem c s h =
    let same : (length (c ∷ s) + 2) % 2 ^ 32 - 2 ≡ length (0 ∷ s) = omega arith in
    rw same (
      ap (take (length (0 ∷ s))) (sun_path_short c s h)
      ∙ take-length-append (0 ∷ s) (replicate (108 - length (c ∷ s)) 0))

-- Two such names have the same address just if they are the same from the second byte on; so names
-- that start with a slash are told apart.
pub address_iff :
    (c d : ℕ) (s t : Bytes)
    → length (c ∷ s) ≤ 107
    → length (d ∷ t) ≤ 107
    → (address (c ∷ s) ≡ address (d ∷ t)) ↔ (s ≡ t)
address_iff c d s t h k = (
  λ e. let x = sym (address_lem c s h) ∙ (e ∙ address_lem d t k) in cc,
  λ e. address_lem c s h ∙ (ap (◌∷◌ 0) e ∙ sym (address_lem d t k)),
)

-- A longer name gives a length beyond the end of the address, of 110 bytes, from 109 bytes on.
pub addr_len_long :
    (name : Bytes) → length name < 2 ^ 32 - 2 → (108 < length name) ↔ (110 < addr_len name)
unfolding addr_len
addr_len_long name h = omega arith

-- ===== src/Launcher/Queue/Counted.antt =====
-- What the atomic count of children is worth, which children that stop can take below zero.
use spartan_launcher.Prelude.{ℕ, suc, ◌+◌, ◌≤◌, arith, Bool-cases, inl, inr, ℤ, pos, negsuc, leb}
use spartan_launcher.Launcher.{plus, decremented, headroom}

-- A count, with `n` more, is no less than a number.
abbrev pub Reaches : ℕ → ℤ → ℕ → Type 0
Reaches n (pos count) total = total ≤ count + n
Reaches n (negsuc count) total = total + suc count ≤ n

abbrev pub IsWithin : ℕ → ℤ → Type 0
IsWithin max (pos count) = count ≤ max
IsWithin max (negsuc count) = Unit

-- What a count is worth after a step.
pub Reaches-plus : (n m total : ℕ) (c : ℤ) → Reaches n c total → Reaches n (plus c m) (total + m)
Reaches-plus n m total (pos c) h = omega (arith, h)
Reaches-plus n m total (negsuc c) h = ground (arith, h)

pub Reaches-ended :
    (n total : ℕ) (c : ℤ) → Reaches n c (suc total) → Reaches n (decremented c) total
Reaches-ended n total (pos ℕ.zero) h = omega (arith, h)
Reaches-ended n total (pos (suc c)) h = omega (arith, h)
Reaches-ended n total (negsuc c) h = omega (arith, h)

pub Reaches-more : (n k total : ℕ) (c : ℤ) → n ≤ k → Reaches n c total → Reaches k c total
Reaches-more n k total (pos c) le h = omega (arith, h, le)
Reaches-more n k total (negsuc c) le h = omega (arith, h, le)

pub Reaches-stopped :
    (n total : ℕ) (c : ℤ) → Reaches n c total → Reaches (n + 1) (decremented c) total
Reaches-stopped n total c h = Reaches-ended (n + 1) total c (one_more c h)
  where
    one_more : (d : ℤ) → Reaches n d total → Reaches (n + 1) d (suc total)
    one_more (pos d) k = omega (arith, k)
    one_more (negsuc d) k = omega (arith, k)

pub IsWithin-decremented : (max : ℕ) (c : ℤ) → IsWithin max c → IsWithin max (decremented c)
IsWithin-decremented max (pos ℕ.zero) h = tt
IsWithin-decremented max (pos (suc c)) h = omega (arith, h)
IsWithin-decremented max (negsuc c) h = tt

pub IsWithin-plus :
    (max m : ℕ) (c : ℤ) → m ≤ headroom max c → IsWithin max c → IsWithin max (plus c m)
IsWithin-plus max m (pos c) k h = omega (arith, h, k)
IsWithin-plus max m (negsuc c) k h = elim (Bool-cases (leb (suc c) m)) [
  | inl e ↦ rw e (omega (arith, k))
  | inr e ↦ rw e tt
]

pub within :
    (max n running others : ℕ) (c : ℤ)
    → Reaches n c (running + others)
    → IsWithin max c
    → running ≤ max + n
within max n running others (pos c) h k = omega (arith, h, k)
within max n running others (negsuc c) h k = omega (arith, h)

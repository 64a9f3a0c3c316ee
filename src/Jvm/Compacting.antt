-- ===== src/Jvm/Compacting.antt =====
-- The loop that moves the null pointers of the argument array to its end.
use spartan_launcher.Prelude.{
  ℕ, zero, suc, ◌+◌, ◌≤◌, ◌≡◌, refl, sym, ap, ap₂, ◌∙◌, true, false, Option, none, some, List, [],
  ◌∷◌, ◌++◌, append_assoc, append-nil, arith, Bytes, length, length-append, get_or, set, map,
  replicate,
}
use spartan_launcher.Jvm.{
  removed_count, Compact, compact_at, compact_step, in_bounds, compact, given,
}

module _ {A : Type 0} where
  get_or-append : (xs : List A) (y d : A) (ys : List A) → get_or (xs ++ y ∷ ys) (length xs) d ≡ y
  get_or-append [] y d ys = refl
  get_or-append (x ∷ xs) y d ys = get_or-append xs y d ys

  set-append :
      (xs : List A) (y z : A) (ys : List A) → set (xs ++ y ∷ ys) (length xs) z ≡ xs ++ z ∷ ys
  set-append [] y z ys = refl
  set-append (x ∷ xs) y z ys = ap (◌∷◌ x) (set-append xs y z ys)

  replicate-snoc : (n : ℕ) (a : A) (ys : List A) → replicate n a ++ a ∷ ys ≡ a ∷ replicate n a ++ ys
  replicate-snoc zero a ys = refl
  replicate-snoc (suc n) a ys = ap (◌∷◌ a) (replicate-snoc n a ys)

  length-replicate : (n : ℕ) (a : A) → length (replicate n a) ≡ n
  length-replicate zero a = refl
  length-replicate (suc n) a = omega (arith, length-replicate n a)

-- The array with its arguments in front, and then as many null pointers as before.
abbrev pub compacted : List (Option Bytes) → List (Option Bytes)
compacted argv = map some (given argv) ++ replicate (removed_count argv) none

-- The loop's array behind `front`: null pointers from index i on, and from j on what is unread.
abbrev window : List (Option Bytes) → ℕ → List (Option Bytes) → Compact
window front n rest = record {
  argv = front ++ (none ∷ replicate n none ++ rest);
  i = length front;
  j = length front + 1 + n;
}

-- The array, parted at its second index.
part_at :
    (front : List (Option Bytes)) (x : Option Bytes) (n : ℕ) (rest : List (Option Bytes))
    → (front ++ x ∷ replicate n none) ++ rest ≡ front ++ (x ∷ replicate n none ++ rest)
part_at front x n rest = append_assoc front (x ∷ replicate n none) rest

length_at :
    (front : List (Option Bytes)) (x : Option Bytes) (n : ℕ)
    → length (front ++ x ∷ replicate n none) ≡ length front + 1 + n
length_at front x n =
    let null : Option Bytes = none in
    omega (arith, length-append front (x ∷ replicate n none), length-replicate n null)

at_second :
    (front : List (Option Bytes)) (x y : Option Bytes) (n : ℕ) (rest : List (Option Bytes))
    → get_or (front ++ (x ∷ replicate n none ++ y ∷ rest)) (length front + 1 + n) none ≡ y
at_second front x y n rest =
    rw (← part_at front x n (y ∷ rest), ← length_at front x n)
      (get_or-append (front ++ x ∷ replicate n none) y none rest)

set_second :
    (front : List (Option Bytes)) (x y z : Option Bytes) (n : ℕ) (rest : List (Option Bytes))
    → set (front ++ (x ∷ replicate n none ++ y ∷ rest)) (length front + 1 + n) z
      ≡ front ++ (x ∷ replicate n none ++ z ∷ rest)
set_second front x y z n rest =
    rw (← part_at front x n (y ∷ rest), ← length_at front x n)
      (set-append (front ++ x ∷ replicate n none) y z rest ∙ part_at front x n (z ∷ rest))

nulls_eq :
    (m n : ℕ) (rest : List (Option Bytes))
    → m ≡ n
    → replicate m none ++ rest ≡ replicate n none ++ rest
nulls_eq m n rest e = rw e refl

abbrev at : List (Option Bytes) → ℕ → ℕ → Compact
at u i j = record { argv = u; i = i; j = j }

at_eq :
    (u v : List (Option Bytes)) (i i' j j' : ℕ) → u ≡ v → i ≡ i' → j ≡ j' → at u i j ≡ at v i' j'
at_eq u v i i' j j' a b c = rw (a, b, c) refl

step_null :
    (front : List (Option Bytes)) (n : ℕ) (rest : List (Option Bytes))
    → compact_step (window front n (none ∷ rest)) ≡ window front (n + 1) rest
unfolding compact_step
step_null front n rest =
    let s = window front n (none ∷ rest) in
    let e1 : get_or s.argv s.i none ≡ none =
      get_or-append front none none (replicate n none ++ none ∷ rest) in
    let e2 : get_or s.argv s.j none ≡ none = at_second front none none n rest in
    ap₂ (compact_at s) e1 e2
    ∙ at_eq _ _ _ _ _ _
        (ap (λ x. front ++ none ∷ x)
          (replicate-snoc n none rest ∙ nulls_eq (suc n) (n + 1) rest (omega arith)))
        refl (omega arith)

step_swap :
    (front : List (Option Bytes)) (n : ℕ) (a : Bytes) (rest : List (Option Bytes))
    → compact_step (window front n (some a ∷ rest)) ≡ window (front ++ some a ∷ []) n rest
unfolding compact_step
step_swap front n a rest =
    let s = window front n (some a ∷ rest) in
    let e1 : get_or s.argv s.i none ≡ none =
      get_or-append front none none (replicate n none ++ some a ∷ rest) in
    let e2 : get_or s.argv s.j none ≡ some a = at_second front none (some a) n rest in
    ap₂ (compact_at s) e1 e2
    ∙ at_eq _ _ _ _ _ _
        (ap (λ x. set x (length front + 1 + n) none)
            (set-append front none (some a) (replicate n none ++ some a ∷ rest))
          ∙ (set_second front (some a) (some a) none n rest
              ∙ (ap (λ x. front ++ some a ∷ x) (replicate-snoc n none rest)
                  ∙ sym (append_assoc front (some a ∷ []) (none ∷ replicate n none ++ rest)))))
        (omega (arith, length-append front (some a ∷ [])))
        (omega (arith, length-append front (some a ∷ [])))

compact_go :
    (f : ℕ) (s : Compact) → in_bounds s ≡ true → compact (suc f) s ≡ compact f (compact_step s)
unfolding compact
compact_go f s h = rw h refl

compact_stop : (f : ℕ) (s : Compact) → in_bounds s ≡ false → compact f s ≡ s.argv
unfolding compact
compact_stop zero s h = refl
compact_stop (suc f) s h = rw h refl

length-window :
    (front : List (Option Bytes)) (n : ℕ) (rest : List (Option Bytes))
    → length (window front n rest).argv ≡ length front + 1 + n + length rest
length-window front n rest =
    let null : Option Bytes = none in
    rw (← part_at front null n rest)
      (omega (arith, length_at front null n, length-append (front ++ null ∷ replicate n null) rest))

window_in :
    (front : List (Option Bytes)) (n : ℕ) (x : Option Bytes) (rest : List (Option Bytes))
    → in_bounds (window front n (x ∷ rest)) ≡ true
window_in front n x rest = rw (length-window front n (x ∷ rest)) (ground arith)

window_out : (front : List (Option Bytes)) (n : ℕ) → in_bounds (window front n []) ≡ false
window_out front n = rw (length-window front n []) (ground arith)

null_tail :
    (front kept : List (Option Bytes)) (m n : ℕ)
    → m ≡ n
    → front ++ (kept ++ replicate m none) ≡ front ++ (kept ++ replicate n none)
null_tail front kept m n e = rw e refl

compact-window :
    (rest : List (Option Bytes)) (f n : ℕ) (front : List (Option Bytes))
    → length rest ≤ f
    → compact f (window front n rest)
      ≡ front ++ (map some (given rest) ++ replicate (1 + n + removed_count rest) none)
unfolding removed_count
compact-window [] f n front h =
    compact_stop f _ (window_out front n)
    ∙ (ap (λ x. front ++ x) (append-nil (replicate (suc n) none))
        ∙ null_tail front [] (suc n) (1 + n + 0) (omega arith))
compact-window (x ∷ rest) zero n front h = absurd (omega arith)
compact-window (none ∷ rest) (suc f) n front h =
    compact_go f _ (window_in front n none rest)
    ∙ (ap (compact f) (step_null front n rest)
        ∙ (compact-window rest f (n + 1) front (omega arith)
            ∙ null_tail front (map some (given rest)) _ _ (omega arith)))
compact-window (some a ∷ rest) (suc f) n front h =
    compact_go f _ (window_in front n (some a) rest)
    ∙ (ap (compact f) (step_swap front n a rest)
        ∙ (compact-window rest f n (front ++ some a ∷ []) (omega arith)
            ∙ append_assoc front (some a ∷ []) _))

-- The loop's array behind `front`, which holds no null pointer, when no such pointer was met.
abbrev before : List (Option Bytes) → List (Option Bytes) → Compact
before front rest = record { argv = front ++ rest; i = length front; j = length front + 1 }

before_step :
    (front : List (Option Bytes)) (a : Bytes) (rest : List (Option Bytes))
    → compact_step (before front (some a ∷ rest)) ≡ before (front ++ some a ∷ []) rest
unfolding compact_step
before_step front a rest =
    let s = before front (some a ∷ rest) in
    ap (λ x. compact_at s x (get_or s.argv s.j none)) (get_or-append front (some a) none rest)
    ∙ at_eq _ _ _ _ _ _ (sym (append_assoc front (some a ∷ []) rest))
        (omega (arith, length-append front (some a ∷ [])))
        (omega (arith, length-append front (some a ∷ [])))

before_null : (front rest : List (Option Bytes)) → before front (none ∷ rest) ≡ window front 0 rest
before_null front rest = at_eq _ _ _ _ _ _ refl refl (omega arith)

pub compact-before :
    (rest : List (Option Bytes)) (f : ℕ) (front : List (Option Bytes))
    → length rest ≤ f
    → compact f (before front rest) ≡ front ++ compacted rest
unfolding removed_count
compact-before [] f front h = compact_stop f _ (rw (append-nil front) (ground arith))
compact-before (none ∷ rest) f front h =
    ap (compact f) (before_null front rest)
    ∙ (compact-window rest f 0 front (omega arith)
        ∙ null_tail front (map some (given rest)) _ _ (omega arith))
compact-before (some a ∷ []) f front h =
    compact_stop f _ (rw (length-append front (some a ∷ [])) (ground arith))
compact-before (some a ∷ x ∷ rest) zero front h = absurd (omega arith)
compact-before (some a ∷ x ∷ rest) (suc f) front h =
    compact_go f _ (rw (length-append front (some a ∷ x ∷ rest)) (ground arith))
    ∙ (ap (compact f) (before_step front a (x ∷ rest))
        ∙ (compact-before (x ∷ rest) f (front ++ some a ∷ []) (omega arith)
            ∙ append_assoc front (some a ∷ []) (compacted (x ∷ rest))))

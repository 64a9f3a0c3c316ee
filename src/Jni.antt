-- ===== src/Jni.antt =====
-- Reads through JNI, each of which may give a null pointer: the chains of them in
-- src/main/cpp/walk-file-tree.cpp and src/main/cpp/spartan.cpp.
use spartan_launcher.Prelude.{
  Bool-cases, inl, inr, ℕ, suc, ◌+◌, ◌<◌, ◌≡◌, refl, ap, ◌∙◌, Bool, true, false, Option, none, some,
  List, [], ◌∷◌, ◌++◌, arith, if◌then◌else◌, length,
}

module _ {A : Type 0} where
  -- The first read that gives a null pointer, by its number.
  unfoldable pub first_null : (ℕ → Bool) → ℕ → List A → Option A
  first_null found n [] = none
  first_null found n (r ∷ reads) =
      let rest = first_null found (n + 1) reads in if found n then rest else some r

  pub first_null-at :
      (found : ℕ → Bool) (n : ℕ) (front : List A) (r : A) (back : List A)
      → ((i : ℕ) → i < length front → found (n + i) ≡ true)
      → found (n + length front) ≡ false
      → first_null found n (front ++ r ∷ back) ≡ some r
  unfolding first_null
  first_null-at found n [] r back before at = ground arith
  first_null-at found n (f ∷ front) r back before at =
      let here : found n ≡ true = ap found (omega arith) ∙ before 0 (omega arith) in
      let rest =
        first_null-at found (n + 1) front r back
          (λ i h. ap found (omega arith) ∙ before (suc i) (omega arith))
          (ap found (omega arith) ∙ at) in
      rw here rest

  pub first_null-found :
      (found : ℕ → Bool) (n : ℕ) (reads : List A)
      → first_null found n reads ≡ none
      → (i : ℕ) → i < length reads
      → found (n + i) ≡ true
  unfolding first_null
  first_null-found found n [] e i h = absurd (omega (arith, h))
  first_null-found found n (r ∷ reads) e ℕ.zero h = elim (Bool-cases (found n)) [
    | inr none_here ↦ absurd (ground (arith, e, none_here))
    | inl here ↦ ap found (omega arith) ∙ here
  ]
  first_null-found found n (r ∷ reads) e (suc i) h = elim (Bool-cases (found n)) [
    | inr none_here ↦ absurd (ground (arith, e, none_here))
    | inl here ↦
        ap found (omega arith)
        ∙ first_null-found found (n + 1) reads (ground (arith, e, here)) i (omega (arith, h))
  ]

  pub first_null-none :
      (found : ℕ → Bool) (n : ℕ) (reads : List A)
      → ((i : ℕ) → i < length reads → found (n + i) ≡ true)
      → first_null found n reads ≡ none
  unfolding first_null
  first_null-none found n [] all = refl
  first_null-none found n (r ∷ reads) all =
      let here : found n ≡ true = ap found (omega arith) ∙ all 0 (omega arith) in
      rw here (
        first_null-none found (n + 1) reads
          (λ i h. ap found (omega arith) ∙ all (suc i) (omega arith)))

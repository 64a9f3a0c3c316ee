-- ===== src/Text/Fields.antt =====
-- Splitting at a delimiter: the loop of `str_split` and repeated `strtok_r` agree with the
-- non-empty fields of the text.
use spartan_launcher.Prelude.{
  ℕ, zero, suc, ◌≤◌, ◌<◌, ◌≡◌, ◌≢◌, refl, sym, ap, ◌∙◌, true, false, not, Option, none, some, List,
  [], ◌∷◌, ◌++◌, append_assoc, append-nil, arith, ◌==◌, if◌then◌else◌, Bytes, is_empty, length,
  length-append, pos, ℤ, Bool-cases, Option-cases, inl, inr, All, All-append, Lacks,
}
use mathlib.Core.Option.{some-injective}
use spartan_launcher.Text.{
  at_least_zero, Split, split_here, split_step, split_loop, str_split, no_split, field, skip,
  strtok,
}

-- The non-empty fields of a text, of which `buf` has been read.
unfoldable pub fields : ℕ → Bytes → Bytes → List Bytes
fields c buf [] = if is_empty buf then [] else buf ∷ []
fields c buf (n ∷ s) =
    if n == c
    then if is_empty buf then fields c [] s else buf ∷ fields c [] s
    else fields c (buf ++ n ∷ []) s

-- Repeated calls of `strtok_r`, on fuel.
pub tokens : ℕ → ℕ → Bytes → List Bytes
tokens zero c s = []
tokens (suc f) c s = elim (strtok c s) [ none ↦ [] | some (t, rest) ↦ t ∷ tokens f c rest ]

abbrev state : Bytes → List Bytes → ℕ → Split
state buf v added = record { buf = buf; v = v; added = added; at_limit = false }

abbrev ended : Split → List Bytes
ended e = if not (is_empty e.buf) then e.v ++ e.buf ∷ [] else e.v

split_step_close :
    (c n b : ℕ) (bs : Bytes) (v : List Bytes) (added : ℕ)
    → (n == c) ≡ true
    → split_step c 0 (state (b ∷ bs) v added) n ≡ state [] (v ++ (b ∷ bs) ∷ []) added
unfolding split_step split_here
split_step_close c n b bs v added h = rw h

split_step_skip :
    (c n : ℕ) (v : List Bytes) (added : ℕ)
    → (n == c) ≡ true
    → split_step c 0 (state [] v added) n ≡ state [] v added
unfolding split_step
split_step_skip c n v added h = rw h

split_step_add :
    (c n limit : ℕ) (st : Split)
    → (n == c) ≡ false
    → split_step c limit st n ≡ record st { buf = st.buf ++ n ∷ [] }
unfolding split_step
split_step_add c n limit st h = rw h

split_loop-fields :
    (c : ℕ) (s buf : Bytes) (v : List Bytes) (added : ℕ)
    → ended (split_loop c 0 (state buf v added) s) ≡ v ++ fields c buf s
unfolding split_loop fields
split_loop-fields c [] [] v added = sym (append-nil v)
split_loop-fields c [] (b ∷ bs) v added = refl
split_loop-fields c (n ∷ s) [] v added = elim (Bool-cases (n == c)) [
  | inl hit ↦
      ap (λ x. ended (split_loop c 0 x s)) (split_step_skip c n v added hit)
      ∙ (split_loop-fields c s [] v added ∙ rw hit refl)
  | inr miss ↦
      ap (λ x. ended (split_loop c 0 x s)) (split_step_add c n 0 (state [] v added) miss)
      ∙ (split_loop-fields c s (n ∷ []) v added ∙ rw miss refl)
]
split_loop-fields c (n ∷ s) (b ∷ bs) v added = elim (Bool-cases (n == c)) [
  | inl hit ↦
      ap (λ x. ended (split_loop c 0 x s)) (split_step_close c n b bs v added hit)
      ∙ (split_loop-fields c s [] (v ++ (b ∷ bs) ∷ []) added
          ∙ rw hit (append_assoc v ((b ∷ bs) ∷ []) _))
  | inr miss ↦
      ap (λ x. ended (split_loop c 0 x s)) (split_step_add c n 0 (state (b ∷ bs) v added) miss)
      ∙ (split_loop-fields c s (b ∷ bs ++ n ∷ []) v added ∙ rw miss refl)
]

-- With no limit, `str_split` gives the non-empty fields, in order.
pub str_split-fields : (s : Bytes) (c : ℕ) → str_split s c (pos 0) ≡ fields c [] s
unfolding str_split
str_split-fields s c = split_loop-fields c s [] [] 0

-- Each field holds a byte, and not the delimiter.
abbrev pub IsField : ℕ → Bytes → Type 0
IsField c f = (f ≢ []) × Lacks c f

fields-IsField : (c : ℕ) (buf s : Bytes) → Lacks c buf → All (IsField c) (fields c buf s)
unfolding fields
fields-IsField c [] [] h = tt
fields-IsField c (b ∷ bs) [] h = (((λ e. cc), h), tt)
fields-IsField c [] (n ∷ s) h =
    ground (arith, fields-IsField c [] s tt, fields-IsField c (n ∷ []) s)
fields-IsField c (b ∷ bs) (n ∷ s) h = ground (
  arith,
  fields-IsField c [] s tt,
  fields-IsField c (b ∷ bs ++ n ∷ []) s,
  All-append (λ x. x ≢ c) bs (n ∷ []),
)

-- Each part that `str_split` gives, with no limit, holds a byte and not the delimiter.
pub str_split-IsField : (s : Bytes) (c : ℕ) → All (IsField c) (str_split s c (pos 0))
str_split-IsField s c = rw (str_split-fields s c) (fields-IsField c [] s tt)

fields-field :
    (c : ℕ) (s : Bytes) (b : ℕ) (bs : Bytes)
    → fields c (b ∷ bs) s ≡ ((b ∷ bs) ++ (field c s).0) ∷ fields c [] (field c s).1
unfolding fields field
fields-field c [] b bs = ap (λ x. x ∷ []) (sym (append-nil (b ∷ bs)))
fields-field c (n ∷ s) b bs = elim (Bool-cases (n == c)) [
  | inl hit ↦ rw hit (ap (λ x. x ∷ fields c [] s) (sym (append-nil (b ∷ bs))))
  | inr miss ↦
      rw miss (fields-field c s b (bs ++ n ∷ []) ∙ rw (append_assoc bs (n ∷ []) (field c s).0))
]

field_miss :
    (c n : ℕ) (s : Bytes) → (n == c) ≡ false → field c (n ∷ s) ≡ (n ∷ (field c s).0, (field c s).1)
unfolding field
field_miss c n s h = rw h refl

abbrev token_of : ℕ → Bytes → Option (Bytes × Bytes)
token_of c [] = none
token_of c (n ∷ r) = some (field c (n ∷ r))

strtok-skip : (c : ℕ) (s : Bytes) → strtok c s ≡ token_of c (skip c s)
unfolding strtok
strtok-skip c s = elim (skip c s) [ [] ↦ refl | n ∷ r ↦ refl ]

skip_hit : (c n : ℕ) (s : Bytes) → (n == c) ≡ true → skip c (n ∷ s) ≡ skip c s
unfolding skip
skip_hit c n s h = rw h refl

skip_miss : (c n : ℕ) (s : Bytes) → (n == c) ≡ false → skip c (n ∷ s) ≡ n ∷ s
unfolding skip
skip_miss c n s h = rw h refl

strtok_hit : (c n : ℕ) (s : Bytes) → (n == c) ≡ true → strtok c (n ∷ s) ≡ strtok c s
strtok_hit c n s h = rw (strtok-skip c (n ∷ s), strtok-skip c s, skip_hit c n s h) refl

strtok_miss :
    (c n : ℕ) (s : Bytes)
    → (n == c) ≡ false
    → strtok c (n ∷ s) ≡ some (n ∷ (field c s).0, (field c s).1)
strtok_miss c n s h = rw (strtok-skip c (n ∷ s), skip_miss c n s h) (ap some (field_miss c n s h))

pub strtok-fields :
    (c : ℕ) (s : Bytes)
    → fields c [] s ≡ elim (strtok c s) [ none ↦ [] | some (t, rest) ↦ t ∷ fields c [] rest ]
unfolding fields
strtok-fields c [] = unfold strtok in refl
strtok-fields c (n ∷ s) = elim (Bool-cases (n == c)) [
  | inl hit ↦ rw (hit, strtok_hit c n s hit) (strtok-fields c s)
  | inr miss ↦ rw (miss, strtok_miss c n s miss) (fields-field c s n [])
]

length-field : (c : ℕ) (s : Bytes) → length (field c s).1 ≤ length s
unfolding field
length-field c [] = omega arith
length-field c (n ∷ s) = ground (arith, length-field c s)

no_token : (c : ℕ) → Option.none ≡ strtok c []
unfolding strtok skip
no_token c = refl

length-strtok :
    (c : ℕ) (s : Bytes) (p : Bytes × Bytes) → strtok c s ≡ some p → length p.1 < length s
length-strtok c [] p e = let e' : Option.none ≡ some p = no_token c ∙ e in absurd cc
length-strtok c (n ∷ s) p e = elim (Bool-cases (n == c)) [
  | inl hit ↦ omega (arith, length-strtok c s p (sym (strtok_hit c n s hit) ∙ e))
  | inr miss ↦
      let q = some-injective _ p (sym (strtok_miss c n s miss) ∙ e) in
      rw (← q) (omega (arith, length-field c s))
]

first_token : ℕ → ℕ → Option (Bytes × Bytes) → List Bytes
first_token f c none = []
first_token f c (some (t, rest)) = t ∷ tokens f c rest

tokens-suc : (f c : ℕ) (s : Bytes) → tokens (suc f) c s ≡ first_token f c (strtok c s)
unfolding tokens first_token
tokens-suc f c s = elim (strtok c s) [ none ↦ refl | some (t, rest) ↦ refl ]

-- Repeated `strtok_r` gives the same fields, with fuel for every byte.
pub tokens-fields : (f c : ℕ) (s : Bytes) → length s < f → tokens f c s ≡ fields c [] s
unfolding first_token
tokens-fields zero c s h = absurd (omega arith)
tokens-fields (suc f) c s h = elim (Option-cases (strtok c s)) [
  | inl e ↦ rw (tokens-suc f c s, strtok-fields c s, e) refl
  | inr (p, e) ↦
      rw (tokens-suc f c s, strtok-fields c s, e)
        (ap (◌∷◌ p.0) (tokens-fields f c p.1 (omega (arith, length-strtok c s p e))))
]

-- Fewer parts than the limit are held, and `added` counts them until the limit is met.
abbrev Under : ℕ → Split → Type 0
Under limit s = (length s.v < limit) × (s.at_limit ≡ false → s.added ≡ length s.v)

split_here-Under : (limit n : ℕ) (s : Split) → Under limit s → Under limit (split_here limit n s)
unfolding split_here
split_here-Under limit n s h = ground (arith, length-append s.v (s.buf ∷ []))

split_step-Under :
    (c limit n : ℕ) (s : Split) → Under limit s → Under limit (split_step c limit s n)
unfolding split_step
split_step-Under c limit n s h = ground (arith, split_here-Under limit n s)

split_loop-Under :
    (c limit : ℕ) (text : Bytes) (s : Split)
    → Under limit s
    → Under limit (split_loop c limit s text)
unfolding split_loop
split_loop-Under c limit [] s h = h
split_loop-Under c limit (n ∷ text) s h =
    split_loop-Under c limit text (split_step c limit s n) (split_step-Under c limit n s h)

length-ended : (limit : ℕ) (s : Split) → Under limit s → length (ended s) ≤ limit
length-ended limit s h = ground (arith, length-append s.v (s.buf ∷ []))

-- `str_split` gives no more parts than a positive limit.
pub length-str_split :
    (s : Bytes) (c limit : ℕ) → 0 < limit → length (str_split s c (pos limit)) ≤ limit
unfolding str_split
length-str_split s c limit h =
    length-ended limit _ (split_loop-Under c limit s no_split (h, (λ e. refl)))

split_step_leading : (c limit : ℕ) → split_step c limit no_split c ≡ no_split
unfolding split_step
split_step_leading c limit = let same : (c == c) ≡ true = ground arith in rw same refl

-- Delimiters in front of the text are lost, whatever the limit; so a limit of 1 does not always
-- give the text.
pub str_split_leading :
    (s : Bytes) (c : ℕ) (limit : ℤ) → str_split (c ∷ s) c limit ≡ str_split s c limit
unfolding str_split split_loop
str_split_leading s c limit =
    let same : split_step c (at_least_zero limit) no_split c ≡ no_split =
      split_step_leading c (at_least_zero limit) in
    ap (λ x. ended (split_loop c (at_least_zero limit) x s)) same

-- ===== src/Message/Quotes.antt =====
-- What the text of a message holds of its arguments.
use spartan_launcher.Prelude.{
  ℕ, suc, ◌-◌, ◌<◌, ◌≡◌, refl, sym, ap, ap₂, ◌∙◌, false, List, [], ◌∷◌, ◌++◌, append_assoc,
  append-nil, arith, ◌==◌, if◌then◌else◌, Bytes, length, take, length-append, take-length-append,
}
use spartan_launcher.Message.{quoted, fill, flatten, buffer_size}

-- The arguments that are not empty.
pub present : List Bytes → List Bytes
present [] = []
present ([] ∷ args) = present args
present ((c ∷ a) ∷ args) = (c ∷ a) ∷ present args

pub joined : List Bytes → Bytes
joined [] = []
joined (a ∷ args) = quoted a ++ joined args

not_zero : (n : ℕ) → (suc n == 0) ≡ false
not_zero n = ground arith

fill-joined : (args : List Bytes) (buf : Bytes) → fill args buf ≡ buf ++ joined (present args)
unfolding fill joined present
fill-joined [] buf = sym (append-nil buf)
fill-joined ([] ∷ args) buf = fill-joined args buf
fill-joined ((c ∷ a) ∷ args) buf =
    ap (λ b. fill args (if b then buf else buf ++ quoted (c ∷ a))) (not_zero (length a))
    ∙ (fill-joined args (buf ++ quoted (c ∷ a))
        ∙ append_assoc buf (quoted (c ∷ a)) (joined (present args)))

length-joined : (args : List Bytes) → length (joined (present args)) < buffer_size args
unfolding joined present buffer_size
length-joined [] = omega arith
length-joined ([] ∷ args) = omega (arith, length-joined args)
length-joined ((c ∷ a) ∷ args) = omega (
  arith,
  length-joined args,
  length-append (quoted (c ∷ a)) (joined (present args)),
  length-append a (b'"' ∷ b' ' ∷ []),
)

length-fill : (args : List Bytes) → length (fill args []) < buffer_size args
length-fill args = rw (fill-joined args []) (length-joined args)

-- An argument between quotes, and arguments with one space between two of them.
abbrev pub in_quotes : Bytes → Bytes
in_quotes a = b'"' ∷ a ++ b'"' ∷ []

abbrev pub spaced : List Bytes → Bytes
spaced [] = []
spaced (a ∷ []) = in_quotes a
spaced (a ∷ b ∷ args) = in_quotes a ++ b' ' ∷ spaced (b ∷ args)

quoted-in_quotes : (a : Bytes) → quoted a ≡ in_quotes a ++ b' ' ∷ []
quoted-in_quotes a = ap (◌∷◌ b'"') (sym (append_assoc a (b'"' ∷ []) (b' ' ∷ [])))

joined-spaced : (a : Bytes) (args : List Bytes) → joined (a ∷ args) ≡ spaced (a ∷ args) ++ b' ' ∷ []
unfolding joined
joined-spaced a [] = append-nil (quoted a) ∙ quoted-in_quotes a
joined-spaced a (b ∷ args) =
    ap₂ ◌++◌ (quoted-in_quotes a) (joined-spaced b args)
    ∙ (append_assoc (in_quotes a) (b' ' ∷ []) (spaced (b ∷ args) ++ b' ' ∷ [])
        ∙ sym (append_assoc (in_quotes a) (b' ' ∷ spaced (b ∷ args)) (b' ' ∷ [])))

take_front : (front : Bytes) (c : ℕ) → take (length (front ++ c ∷ []) - 1) (front ++ c ∷ []) ≡ front
take_front front c =
    let n : length (front ++ c ∷ []) - 1 ≡ length front =
      omega (arith, length-append front (c ∷ [])) in
    rw n (take-length-append front (c ∷ []))

joined_cut : (args : List Bytes) → take (length (joined args) - 1) (joined args) ≡ spaced args
joined_cut [] = unfold joined in refl
joined_cut (a ∷ args) = rw (joined-spaced a args, take_front (spaced (a ∷ args)) b' ') refl

flatten-joined :
    (argv : List Bytes)
    → (flatten argv ≡ spaced (present argv)) × (length (fill argv []) < buffer_size argv)
unfolding flatten
flatten-joined argv = (rw (fill-joined argv []) (joined_cut (present argv)), length-fill argv)

-- The message of arguments of which the first is not empty holds those that are not empty, each
-- between quotes, in their order and with one space between two of them; and its text, with a
-- NUL, always fits in the buffer that was allocated for all of the arguments, also before the last
-- space is cut off.
pub flatten-spaced :
    (c : ℕ) (option : Bytes) (args : List Bytes)
    → (flatten ((c ∷ option) ∷ args) ≡ spaced ((c ∷ option) ∷ present args))
      × (length (fill ((c ∷ option) ∷ args) []) < buffer_size ((c ∷ option) ∷ args))
unfolding present
flatten-spaced c option args = flatten-joined ((c ∷ option) ∷ args)

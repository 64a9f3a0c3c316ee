-- ===== src/Prelude/Text.antt =====
-- Text as a list of bytes: the `<cctype>` and `<cstring>` functions that the program calls, in
-- the "C" locale. A C string is the bytes before its terminating NUL.
use Prim.Native.Char.{code}
use Prim.Native.String.{String}
use Prim.Native.Nat.{ℕ, ◌+◌, ◌-◌}
use mathlib.Core.Path.{◌≡◌, refl}
use mathlib.Core.Logic.{◌≢◌}
use mathlib.Core.Bool.{Bool, true, false, ◌&&◌, ◌||◌}
use mathlib.Core.List.{List, [], ◌∷◌, ◌++◌, map}
use native.Mathlib.Omega.{arith}
use spartan_launcher.Prelude.Tests.{leb, ◌==◌, if◌then◌else◌}
use spartan_launcher.Prelude.Lists.{All}

abbrev pub Bytes : Type 0
Bytes = List ℕ

-- The code points of a literal; these are its bytes, for the text is ASCII.
abbrev pub codes : String → Bytes
codes String.[] = []
codes (String.◌∷◌ c s) = code c ∷ codes s

-- The byte does not occur in the text.
abbrev pub Lacks : ℕ → Bytes → Type 0
Lacks b = All (λ c. c ≢ b)

abbrev pub is_empty {ℓ} : {A : Type ℓ} → List A → Bool
is_empty [] = true
is_empty (_ ∷ _) = false

-- `strcmp(a, b) == 0`
unfoldable pub same_text : Bytes → Bytes → Bool
same_text a [] = is_empty a
same_text [] (d ∷ b) = false
same_text (c ∷ a) (d ∷ b) = if c == d then same_text a b else false

-- `strncmp(a, prefix, strlen(prefix)) == 0`
unfoldable pub starts_with : Bytes → Bytes → Bool
starts_with a [] = true
starts_with [] (_ ∷ _) = false
starts_with (x ∷ xs) (y ∷ ys) = x == y && starts_with xs ys

abbrev pub to_lower : ℕ → ℕ
to_lower c = if leb b'A' c && leb c b'Z' then c + 32 else c

abbrev pub to_upper : ℕ → ℕ
to_upper c = if leb b'a' c && leb c b'z' then c - 32 else c

abbrev pub is_space : ℕ → Bool
is_space c = c == 32 || (leb 9 c && leb c 13)

abbrev pub is_digit : ℕ → Bool
is_digit c = leb b'0' c && leb c b'9'

unfoldable pub lower : Bytes → Bytes
lower s = map to_lower s

-- `strcasecmp(a, b) == 0`
unfoldable pub iequal : Bytes → Bytes → Bool
unfolding same_text lower
iequal a b = same_text (lower a) (lower b)

-- `strncasecmp(a, prefix, strlen(prefix)) == 0`
unfoldable pub istarts_with : Bytes → Bytes → Bool
unfolding starts_with lower
istarts_with a b = starts_with (lower a) (lower b)

pub same_text_self : (a : Bytes) → same_text a a ≡ true
unfolding same_text
same_text_self [] = refl
same_text_self (c ∷ a) = ground (arith, same_text_self a)

pub same_text→eq : (a b : Bytes) → same_text a b ≡ true → a ≡ b
unfolding same_text
same_text→eq [] [] h = refl
same_text→eq (c ∷ a) [] h = ground arith
same_text→eq [] (d ∷ b) h = ground arith
same_text→eq (c ∷ a) (d ∷ b) h = ground (arith, same_text→eq a b)

pub starts_with-append : (a b : Bytes) → starts_with (a ++ b) a ≡ true
unfolding starts_with
starts_with-append [] b = refl
starts_with-append (x ∷ a) b = ground (arith, starts_with-append a b)

to_lower_idem : (c : ℕ) → to_lower (to_lower c) ≡ to_lower c
to_lower_idem c = ground arith

pub lower_idem : (s : Bytes) → lower (lower s) ≡ lower s
unfolding lower
lower_idem [] = refl
lower_idem (c ∷ s) = ground (arith, to_lower_idem c, lower_idem s)

-- The byte to stand for `from` becomes `to`, as `std::replace` does it.
unfoldable pub replace : ℕ → ℕ → Bytes → Bytes
replace from to [] = []
replace from to (c ∷ s) = (if c == from then to else c) ∷ replace from to s

pub replace-Lacks : (from to : ℕ) (s : Bytes) → from ≢ to → Lacks from (replace from to s)
unfolding replace
replace-Lacks from to [] h = tt
replace-Lacks from to (c ∷ s) h = ground (arith, replace-Lacks from to s)

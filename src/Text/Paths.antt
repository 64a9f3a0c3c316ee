-- ===== src/Text/Paths.antt =====
-- Joining paths: `path_concat` puts exactly one separator between its two parts.
use spartan_launcher.Prelude.{
  ℕ, ◌≡◌, refl, ◌∙◌, sym, some, [], ◌∷◌, ◌++◌, append_assoc, arith, ◌==◌, if◌then◌else◌, Bytes, inl,
  inr, Bool-cases,
}
use spartan_launcher.Text.{unsnoc, path_concat}

pub unsnoc-snoc : (s : Bytes) (z : ℕ) → unsnoc (s ++ z ∷ []) ≡ some (s, z)
unfolding unsnoc
unsnoc-snoc [] z = refl
unsnoc-snoc (n ∷ []) z = refl
unsnoc-snoc (n ∷ m ∷ s) z = rw (unsnoc-snoc (m ∷ s) z)

-- The text with a separator at its end: a separator there is kept, and a backslash gives way.
abbrev pub folder : Bytes → ℕ → Bytes
folder a z =
    if z == b'/' then a ++ z ∷ [] else if z == b'\\' then a ++ b'/' ∷ [] else a ++ z ∷ b'/' ∷ []

-- A first part that is not empty is taken as a folder.
pub path_concat-snoc : (a b : Bytes) (z : ℕ) → path_concat (a ++ z ∷ []) b ≡ folder a z ++ b
unfolding path_concat
path_concat-snoc a b z = elim (Bool-cases (z == b'/')) [
  | inl slash ↦ rw (path_concat, unsnoc-snoc a z, slash) refl
  | inr other ↦ elim (Bool-cases (z == b'\\')) [
    | inl back ↦ rw (path_concat, unsnoc-snoc a z, other, back) (sym (append_assoc a (b'/' ∷ []) b))
    | inr plain ↦
        rw (path_concat, unsnoc-snoc a z, other, plain)
          (append_assoc a (z ∷ []) (b'/' ∷ b) ∙ sym (append_assoc a (z ∷ b'/' ∷ []) b))
  ]
]

folder-append : (a b : Bytes) (z : ℕ) → folder (a ++ b) z ≡ a ++ folder b z
folder-append a b z = ground (
  arith,
  append_assoc a b (z ∷ []),
  append_assoc a b (b'/' ∷ []),
  append_assoc a b (z ∷ b'/' ∷ []),
)

-- Joining three paths gives the same from the left and from the right, if the first two are not
-- empty.
pub path_concat_assoc :
    (a b c : Bytes) (x y : ℕ)
    → path_concat (path_concat (a ++ x ∷ []) (b ++ y ∷ [])) c
      ≡ path_concat (a ++ x ∷ []) (path_concat (b ++ y ∷ []) c)
path_concat_assoc a b c x y =
    rw
      (
        path_concat-snoc a (b ++ y ∷ []) x,
        ← append_assoc (folder a x) b (y ∷ []),
        path_concat-snoc (folder a x ++ b) c y,
        path_concat-snoc b c y,
        path_concat-snoc a (folder b y ++ c) x,
        folder-append (folder a x) b y,
      )
      (append_assoc (folder a x) (folder b y) c)

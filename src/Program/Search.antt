-- ===== src/Program/Search.antt =====
-- Which program a search finds.
use spartan_launcher.Prelude.{
  ℕ, ◌+◌, ◌≡◌, refl, ap, ◌∙◌, Bool, true, false, none, some, List, [], ◌∷◌, ◌++◌, arith, Bytes,
  length, All,
}
use spartan_launcher.Text.Fields.{fields, tokens-fields}
use spartan_launcher.Program.{program_in, search_in, find_program_path}

module _ (is_program : Bytes → Bool) (prog : Bytes) where
  -- The folder does not hold the program.
  abbrev pub IsWithout : Bytes → Type 0
  IsWithout path = is_program (program_in prog path) ≡ false

  search_in-first :
      (front : List Bytes) (path : Bytes) (back : List Bytes)
      → All IsWithout front
      → is_program (program_in prog path) ≡ true
      → search_in is_program prog (front ++ path ∷ back) ≡ some (program_in prog path)
  unfolding search_in
  search_in-first [] path back h e = rw e refl
  search_in-first (other ∷ front) path back h e = rw h.0 (search_in-first front path back h.1 e)

  search_in-none :
      (paths : List Bytes) → All IsWithout paths → search_in is_program prog paths ≡ none
  unfolding search_in
  search_in-none [] h = refl
  search_in-none (path ∷ paths) h = rw h.0 (search_in-none paths h.1)

  find_program_path-fields :
      (c : ℕ) (val : Bytes)
      → find_program_path is_program (some (c ∷ val)) prog
        ≡ search_in is_program prog (fields b':' [] (c ∷ val))
  unfolding find_program_path
  find_program_path-fields c val =
      ap (search_in is_program prog)
        (tokens-fields (length (c ∷ val) + 1) b':' (c ∷ val) (omega arith))

  -- The program is that of the first folder of the variable that holds it: the folders are what
  -- stands between colons, the empty ones left out. A folder that ends in a slash gets none.
  pub find_program_path-first :
      (c : ℕ) (val : Bytes) (front : List Bytes) (path : Bytes) (back : List Bytes)
      → fields b':' [] (c ∷ val) ≡ front ++ path ∷ back
      → All IsWithout front
      → is_program (program_in prog path) ≡ true
      → find_program_path is_program (some (c ∷ val)) prog ≡ some (program_in prog path)
  find_program_path-first c val front path back split h e =
      find_program_path-fields c val
      ∙ (ap (search_in is_program prog) split ∙ search_in-first front path back h e)

  -- There is no such program just where no folder of the variable holds it.
  pub find_program_path-none :
      (c : ℕ) (val : Bytes)
      → All IsWithout (fields b':' [] (c ∷ val))
      → find_program_path is_program (some (c ∷ val)) prog ≡ none
  find_program_path-none c val h =
      find_program_path-fields c val ∙ search_in-none (fields b':' [] (c ∷ val)) h

-- ===== src/Program/Instance.antt =====
-- The first instance of a program: `isFirstInstance` of src/main/cpp/launch-program.cpp.
use spartan_launcher.Prelude.{
  ◌≡◌, ◌↔◌, refl, ap, ◌∙◌, Bool, true, false, Option, none, some, List, [], ◌∷◌, ◌++◌,
  if◌then◌else◌, Bytes, codes, All,
}
use spartan_launcher.Text.{path_concat}

-- What the calls give: HOME and the home folder of the user, the path of this program, which files
-- can be opened, the outcome of `flock` on one, and whether its descriptor can be duplicated.
pub data Flock : Type 0 where
  locked would_block lock_error : Flock

pub record Host : Type 0 where
  pub home_var : Option Bytes
  pub home_of_user : Option Bytes
  pub progpath : Bytes
  pub can_open : Bytes → Bool
  pub flock : Bytes → Flock
  pub can_dup : Bytes → Bool

abbrev pub pid_suffix : Bytes
pid_suffix = codes ".pid"

abbrev pub in_home : Bytes → Option Bytes → Option Bytes → List Bytes
in_home prefix (some home) user = (path_concat home prefix ++ pid_suffix) ∷ []
in_home prefix none (some home) = (path_concat home prefix ++ pid_suffix) ∷ []
in_home prefix none none = []

-- The places for the file, in the order of `PidFileLocation`.
unfoldable pub locations : Host → Bytes → List Bytes
locations h prefix =
    (codes "/var/run/" ++ (prefix ++ pid_suffix))
    ∷ (in_home prefix h.home_var h.home_of_user
        ++ (path_concat h.progpath prefix ++ pid_suffix)
          ∷ (codes "./" ++ (prefix ++ pid_suffix))
          ∷ [])

-- The loop over the places: the first that can be opened, whatever stopped the others.
unfoldable pub open_first : (Bytes → Bool) → List Bytes → Option Bytes
open_first can_open [] = none
open_first can_open (path ∷ paths) =
    let rest = open_first can_open paths in if can_open path then some path else rest

-- What Java gets, or that the program ends by a write to a null file.
pub data Instance : Type 0 where
  first another : Instance
  invoke_command_exception : Instance
  crashed : Instance

abbrev pub after_flock : Host → Bytes → Flock → Instance
after_flock h path Flock.would_block = another
after_flock h path Flock.lock_error = invoke_command_exception
after_flock h path Flock.locked = if h.can_dup path then first else crashed

abbrev pub with_file : Host → Option Bytes → Instance
with_file h none = invoke_command_exception
with_file h (some path) = after_flock h path (h.flock path)

-- `isFirstInstance`. A descriptor that cannot be duplicated leaves -1, of which `fdopen` makes no
-- file.
unfoldable pub is_first_instance : Host → Bytes → Instance
is_first_instance h prefix = with_file h (open_first h.can_open (locations h prefix))

open_first-first :
    (can_open : Bytes → Bool) (front : List Bytes) (path : Bytes) (back : List Bytes)
    → All (λ p. can_open p ≡ false) front
    → can_open path ≡ true
    → open_first can_open (front ++ path ∷ back) ≡ some path
unfolding open_first
open_first-first can_open [] path back h e = rw e refl
open_first-first can_open (p ∷ front) path back h e =
    rw h.0 (open_first-first can_open front path back h.1 e)

module _ (h : Host) (prefix path : Bytes) (front back : List Bytes) where
  first_opened :
      locations h prefix ≡ front ++ path ∷ back
      → All (λ p. h.can_open p ≡ false) front
      → h.can_open path ≡ true
      → is_first_instance h prefix ≡ after_flock h path (h.flock path)
  unfolding is_first_instance
  first_opened places fail can =
      ap (with_file h)
        (ap (open_first h.can_open) places ∙ open_first-first h.can_open front path back fail can)

  flock_first : (f : Flock) → h.can_dup path ≡ true → (after_flock h path f ≡ first) ↔ (f ≡ locked)
  flock_first locked d = ((λ e. refl), (λ e. rw d refl))
  flock_first would_block d = ((λ e. absurd cc), (λ e. absurd cc))
  flock_first lock_error d = ((λ e. absurd cc), (λ e. absurd cc))

  -- A program is the first of its instances just if it gets the lock on the first file, in the
  -- order of the places, that can be opened, for whatever reason the others cannot; where the
  -- file's descriptor can be duplicated.
  pub is_first_instance_iff :
      locations h prefix ≡ front ++ path ∷ back
      → All (λ p. h.can_open p ≡ false) front
      → h.can_open path ≡ true
      → h.can_dup path ≡ true
      → (is_first_instance h prefix ≡ first) ↔ (h.flock path ≡ locked)
  is_first_instance_iff places fail can dup =
      rw (first_opened places fail can) (flock_first (h.flock path) dup)

  -- A program that gets that lock, and cannot duplicate the descriptor, crashes.
  pub is_first_instance_crashed :
      locations h prefix ≡ front ++ path ∷ back
      → All (λ p. h.can_open p ≡ false) front
      → h.can_open path ≡ true
      → h.can_dup path ≡ false
      → h.flock path ≡ locked
      → is_first_instance h prefix ≡ crashed
  is_first_instance_crashed places fail can dup lock =
      first_opened places fail can ∙ (ap (after_flock h path) lock ∙ rw dup refl)

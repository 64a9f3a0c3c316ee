-- ===== src/Shm/Objects/View.antt =====
-- What the calls of the system do to what a process sees of the shared memory object, as their
-- manual pages have it.
use spartan_launcher.Prelude.{
  ℕ, ◌-◌, ◌≡◌, ◌≢◌, ◌≤◌, Bool, true, false, Option, none, some, List, [], ◌∷◌, ◌++◌, Bytes, length,
  take, drop, replicate,
}
use spartan_launcher.Shm.Objects.{System, get_shm_name}

-- The open descriptors of the object, the latest first; its mappings, by address and length; and
-- the object's bytes.
pub record View : Type 0 where
  pub fds : List ℕ
  pub maps : List (ℕ × ℕ)
  pub object : Option Bytes

-- The bytes made as many as is asked, with zeros behind.
abbrev pub resized : ℕ → Bytes → Bytes
resized size bytes = take size bytes ++ replicate (size - length bytes) 0

abbrev pub if_created : Bool → Option Bytes → Option Bytes
if_created true object = some []
if_created false object = object

abbrev pub opening : Bool → Option ℕ → View → View
opening new none v = v
opening new (some fd) v = record v { fds = fd ∷ v.fds; object = if_created new v.object }

abbrev pub mapping : ℕ → Option ℕ → View → View
mapping size none v = v
mapping size (some addr) v = record v { maps = (addr, size) ∷ v.maps }

-- What holds of the calls in every state: those of the descriptor opened last and of the latest
-- mapping, for the code makes no others.
pub record Behaves {S : Type 0} (sys : System S) (progname : Bytes) (view : S → View) : Type 0 where
  pub shm_open_lem :
      (new : Bool) (s : S)
      → let r = sys.shm_open (get_shm_name progname) new s in view r.1 ≡ opening new r.0 (view s)
  pub ftruncate_lem :
      (fd size : ℕ) (fds : List ℕ) (maps : List (ℕ × ℕ)) (bytes : Bytes) (s : S)
      → view s ≡ record { fds = fd ∷ fds; maps = maps; object = some bytes }
      → let r = sys.ftruncate fd size s in
        view r.1 ≡ record {
          fds = fd ∷ fds;
          maps = maps;
          object = some (elim r.0 [ true ↦ resized size bytes | false ↦ bytes ]);
        }
  pub fstat_lem :
      (fd size : ℕ) (fds : List ℕ) (maps : List (ℕ × ℕ)) (bytes : Bytes) (s : S)
      → view s ≡ record { fds = fd ∷ fds; maps = maps; object = some bytes }
      → sys.fstat fd s ≡ some size
      → size ≡ length bytes
  pub mmap_lem :
      (fd size : ℕ) (fds : List ℕ) (s : S)
      → (view s).fds ≡ fd ∷ fds
      → let r = sys.mmap fd size s in view r.1 ≡ mapping size r.0 (view s)
  pub mmap_address : (fd size addr : ℕ) (s : S) → (sys.mmap fd size s).0 ≡ some addr → addr ≢ 0
  pub close_lem :
      (fd : ℕ) (fds : List ℕ) (s : S)
      → (view s).fds ≡ fd ∷ fds
      → view (sys.close fd s) ≡ record (view s) { fds = fds }
  pub munmap_lem :
      (addr size : ℕ) (maps : List (ℕ × ℕ)) (s : S)
      → (view s).maps ≡ (addr, size) ∷ maps
      → let r = sys.munmap addr size s in
        view r.1 ≡ elim r.0 [ true ↦ record (view s) { maps = maps } | false ↦ view s ]
  pub unlink_lem :
      (s : S)
      → let v = view (sys.shm_unlink (get_shm_name progname) s).1 in
        (v.fds ≡ (view s).fds) × (v.maps ≡ (view s).maps)
  pub store_lem :
      (addr size : ℕ) (maps : List (ℕ × ℕ)) (old new : Bytes) (s : S)
      → (view s).maps ≡ (addr, size) ∷ maps
      → (view s).object ≡ some old
      → length new ≤ size
      → view (sys.store addr new s)
        ≡ record (view s) { object = some (new ++ drop (length new) old) }
  pub load_lem :
      (addr size : ℕ) (maps : List (ℕ × ℕ)) (bytes : Bytes) (s : S)
      → (view s).maps ≡ (addr, size) ∷ maps
      → (view s).object ≡ some bytes
      → size ≡ length bytes
      → sys.load addr size s ≡ bytes

-- Calls that succeed, where they can: a new object can always be made, one that is there opened.
pub record Succeeds {S : Type 0} (sys : System S) (progname : Bytes) (view : S → View)
    : Type 0 where
  pub create : (s : S) → (fd : ℕ) × ((sys.shm_open (get_shm_name progname) true s).0 ≡ some fd)
  pub open_access :
      (bytes : Bytes) (s : S)
      → (view s).object ≡ some bytes
      → (fd : ℕ) × ((sys.shm_open (get_shm_name progname) false s).0 ≡ some fd)
  pub ftruncate : (fd size : ℕ) (s : S) → (sys.ftruncate fd size s).0 ≡ true
  pub fstat : (fd : ℕ) (s : S) → (size : ℕ) × (sys.fstat fd s ≡ some size)
  pub mmap : (fd size : ℕ) (s : S) → (addr : ℕ) × ((sys.mmap fd size s).0 ≡ some addr)
  pub munmap : (addr size : ℕ) (s : S) → (sys.munmap addr size s).0 ≡ true

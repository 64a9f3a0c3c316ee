-- ===== src/Shm/Objects.antt =====
-- The shared memory object and its mappings: src/main/cpp/shm.cpp, and the places of
-- src/main/cpp/process-cmd-dispatch-info.cpp where the supervisor lays out the image in it and
-- where another process reads it. The calls of the system are those of an interface.
pub mod View
pub mod Ending
pub mod Session
pub mod Obtained
use spartan_launcher.Prelude.{
  ℕ, ◌*◌, ◌%◌, ◌^◌, Bool, true, false, Option, none, some, ◌∷◌, ◌==◌, if◌then◌else◌, Bytes, ℤ,
}
use spartan_launcher.Session.{SessionState}
use spartan_launcher.Shm.{
  ShmAllocator, new_allocator, alloc, required_size, page_count, image, get_cmd_dispatch_info,
}

-- The calls of the system, and the memory of a mapping, over the system's state. `shm_open` is
-- given whether it creates and truncates; `none` and `false` are the failures.
pub record System (S : Type 0) : Type 0 where
  pub shm_open : Bytes → Bool → S → Option ℕ × S
  pub ftruncate : ℕ → ℕ → S → Bool × S
  pub fstat : ℕ → S → Option ℕ
  pub mmap : ℕ → ℕ → S → Option ℕ × S
  pub close : ℕ → S → S
  pub munmap : ℕ → ℕ → S → Bool × S
  pub msync : ℕ → ℕ → S → Bool × S
  pub shm_unlink : Bytes → S → Bool × S
  pub store : ℕ → Bytes → S → S
  pub load : ℕ → ℕ → S → Bytes

-- How a call ends; an exception that leaves a destructor terminates the process.
pub data Settled {ℓ} (A : Type ℓ) : Type ℓ where
  returned : A → Settled A
  thrown terminated : Settled A

abbrev pub get_shm_name : Bytes → Bytes
get_shm_name progname = b'/' ∷ progname

module _ {S : Type 0} (sys : System S) (progname : Bytes) where
  -- The descriptor is closed when its owner goes out of scope.
  abbrev pub cleanup_fd : ℕ → Settled (ℕ × ℕ) × S → Settled (ℕ × ℕ) × S
  cleanup_fd fd (e, s) = (e, sys.close fd s)

  abbrev pub mapped : ℕ → Option ℕ × S → Settled (ℕ × ℕ) × S
  mapped length (none, s) = (thrown, s)
  mapped length (some addr, s) = (returned (addr, length), s)

  abbrev pub truncated : ℕ → ℕ → Bool × S → Settled (ℕ × ℕ) × S
  truncated fd length (false, s) = (thrown, s)
  truncated fd length (true, s) = mapped length (sys.mmap fd length s)

  abbrev pub created : ℕ → Option ℕ × S → Settled (ℕ × ℕ) × S
  created length (none, s) = (thrown, s)
  created length (some fd, s) = cleanup_fd fd (truncated fd length (sys.ftruncate fd length s))

  unfoldable pub allocate : ℕ → ℕ → S → Settled (ℕ × ℕ) × S
  allocate pg_size pages s =
      created (pages * pg_size % 2 ^ 64) (sys.shm_open (get_shm_name progname) true s)

  abbrev pub measured : ℕ → S → Option ℕ → Settled (ℕ × ℕ) × S
  measured fd s none = (thrown, s)
  measured fd s (some length) = mapped length (sys.mmap fd length s)

  abbrev pub accessed : Option ℕ × S → Settled (ℕ × ℕ) × S
  accessed (none, s) = (thrown, s)
  accessed (some fd, s) = cleanup_fd fd (measured fd s (sys.fstat fd s))

  unfoldable pub read_access : S → Settled (ℕ × ℕ) × S
  read_access s = accessed (sys.shm_open (get_shm_name progname) false s)

  abbrev pub or_throw : Bool × S → Settled (Unit {0}) × S
  or_throw (true, s) = (returned tt, s)
  or_throw (false, s) = (thrown, s)

  abbrev pub unmap : ℕ → ℕ → S → Settled (Unit {0}) × S
  unmap addr length s = or_throw (sys.munmap addr length s)

  -- A failure of it is only logged.
  abbrev pub unlink : S → S
  unlink s = (sys.shm_unlink (get_shm_name progname) s).1

  abbrev pub commit : ShmAllocator → ℕ → S → Settled (Unit {0}) × S
  commit a len s = or_throw (sys.msync a.base_addr len s)

  -- What a call that ended with `e` has ended with once a destructor has run as well.
  abbrev pub destructed :
      {A : Type 0} → (S → S) → Settled A → Settled (Unit {0}) × S → Settled A × S
  destructed after e (returned _, s) = (e, after s)
  destructed after e (_, s) = (terminated, s)

  -- `~ShmAllocator`
  abbrev pub delete_allocator : {A : Type 0} → ShmAllocator → Settled A → S → Settled A × S
  delete_allocator a e s = destructed unlink e (unmap a.base_addr a.max_size s)

  abbrev pub allocator_of : Settled (ℕ × ℕ) × S → Settled ShmAllocator × S
  allocator_of (returned (addr, size), s) = (returned (new_allocator addr size), s)
  allocator_of (thrown, s) = (thrown, s)
  allocator_of (terminated, s) = (terminated, s)

  abbrev pub make : ℕ → ℕ → S → Settled ShmAllocator × S
  make pg_size pages s = allocator_of (allocate pg_size pages s)

  abbrev pub placed :
      Bytes → ShmAllocator → S → Option (ℕ × ShmAllocator) → Settled ShmAllocator × S
  placed bytes a s none = delete_allocator a thrown s
  placed bytes a s (some (addr, a')) = (returned a', sys.store addr bytes s)

  abbrev pub filled : Bytes → Bytes → Settled ShmAllocator × S → Settled ShmAllocator × S
  filled cdi membuf (returned a, s) =
      placed (image cdi membuf) a s (alloc a (required_size cdi membuf))
  filled cdi membuf (thrown, s) = (thrown, s)
  filled cdi membuf (terminated, s) = (terminated, s)

  -- The image in a new object of as many pages as it needs.
  unfoldable pub publish : ℕ → Bytes → Bytes → S → Settled ShmAllocator × S
  publish pg_size cdi membuf s =
      filled cdi membuf (make pg_size (page_count (required_size cdi membuf) pg_size) s)

  -- The memory is unmapped when its owner goes out of scope, which owns no null pointer.
  abbrev pub unmap_shm_client : {A : Type 0} → ℕ → ℕ → Settled A → S → Settled A × S
  unmap_shm_client p shm_size e s =
      if p == 0 then (e, s) else destructed (λ s. s) e (unmap p shm_size s)

  abbrev pub client_read : ℤ → SessionState → Settled (ℕ × ℕ) × S → Settled SessionState × S
  client_read stale ss (returned (shm_base, shm_size), s) =
      unmap_shm_client shm_base shm_size
        (returned (get_cmd_dispatch_info stale (sys.load shm_base shm_size s) ss)) s
  client_read stale ss (thrown, s) = (thrown, s)
  client_read stale ss (terminated, s) = (terminated, s)

  -- `get_cmd_dispatch_info`
  unfoldable pub session_from_shm : ℤ → SessionState → S → Settled SessionState × S
  session_from_shm stale ss s = client_read stale ss (read_access s)

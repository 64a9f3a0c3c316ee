-- ===== src/Shm/Objects/Ending.antt =====
-- How the calls of the shared memory object end: what they leave open and mapped on each branch.
use spartan_launcher.Prelude.{
  ℕ, ◌*◌, ◌%◌, ◌^◌, ◌≡◌, ◌≢◌, refl, ap, subst, ◌∙◌, Bool, true, false, Option, none, some, List, [],
  ◌∷◌, Bytes, length,
}
use spartan_launcher.Shm.Objects.{
  System, Settled, returned, thrown, terminated, get_shm_name, cleanup_fd, mapped, truncated,
  created, allocate, measured, accessed, read_access,
}
use spartan_launcher.Shm.Objects.View.{View, Behaves, resized, mapping, opening}

module _ {S : Type 0} (view : S → View) where
  -- A call that made a mapping of the object, which has these bytes then, or that threw and left
  -- the descriptors and the mappings as they were.
  abbrev pub Maps : View → ℕ → Option Bytes → Settled (ℕ × ℕ) × S → Type 0
  Maps v size object (returned (addr, n), s) =
      (n ≡ size)
      × (addr ≢ 0)
      × (view s ≡ record { fds = v.fds; maps = (addr, size) ∷ v.maps; object = object })
  Maps v size object (thrown, s) = ((view s).fds ≡ v.fds) × ((view s).maps ≡ v.maps)
  Maps v size object (terminated, s) = ⊥

module _ {S : Type 0} (sys : System S) (progname : Bytes) (view : S → View)
    (behaves : Behaves sys progname view) where
  mapped-Maps :
      (size : ℕ) (v : View) (r : Option ℕ × S)
      → view r.1 ≡ mapping size r.0 v
      → ((addr : ℕ) → r.0 ≡ some addr → addr ≢ 0)
      → Maps view v size v.object (mapped sys progname size r)
  mapped-Maps size v (none, s) e _ = (ap (λ w. w.fds) e, ap (λ w. w.maps) e)
  mapped-Maps size v (some addr, s) e nonzero = (refl, nonzero addr refl, e)

  mmap-Maps :
      (fd size : ℕ) (fds : List ℕ) (maps : List (ℕ × ℕ)) (object : Option Bytes) (s : S)
      → view s ≡ record { fds = fd ∷ fds; maps = maps; object = object }
      → Maps view
          (record { fds = fd ∷ fds; maps = maps; object = object })
          size
          object
          (mapped sys progname size (sys.mmap fd size s))
  mmap-Maps fd size fds maps object s e =
      mapped-Maps size _ (sys.mmap fd size s)
        (behaves.mmap_lem fd size fds s (ap (λ v. v.fds) e)
          ∙ ap (mapping size (sys.mmap fd size s).0) e)
        (λ addr h. behaves.mmap_address fd size addr s h)

  cleanup_fd-Maps :
      (fd size : ℕ) (fds : List ℕ) (v : View) (object : Option Bytes) (r : Settled (ℕ × ℕ) × S)
      → Maps view (record v { fds = fd ∷ fds }) size object r
      → Maps view (record v { fds = fds }) size object (cleanup_fd sys progname fd r)
  cleanup_fd-Maps fd size fds v object (returned (addr, n), s) (l, z, e) = (
    l,
    z,
    behaves.close_lem fd fds s (ap (λ w. w.fds) e) ∙ ap (λ (w : View). record w { fds = fds }) e,
  )
  cleanup_fd-Maps fd size fds v object (thrown, s) (f, m) =
      let e = behaves.close_lem fd fds s f in (ap (λ w. w.fds) e, ap (λ w. w.maps) e ∙ m)
  cleanup_fd-Maps fd size fds v object (terminated, s) h = h

  truncated-Maps :
      (fd size : ℕ) (fds : List ℕ) (maps : List (ℕ × ℕ)) (bytes : Bytes) (r : Bool × S)
      → view r.1 ≡ record {
        fds = fd ∷ fds;
        maps = maps;
        object = some (elim r.0 [ true ↦ resized size bytes | false ↦ bytes ]);
      }
      → Maps view
          (record { fds = fd ∷ fds; maps = maps; object = some bytes })
          size
          (some (resized size bytes))
          (truncated sys progname fd size r)
  truncated-Maps fd size fds maps bytes (false, s) e = (ap (λ v. v.fds) e, ap (λ v. v.maps) e)
  truncated-Maps fd size fds maps bytes (true, s) e =
      retarget (mapped sys progname size (sys.mmap fd size s))
        (mmap-Maps fd size fds maps (some (resized size bytes)) s e)
    where
      retarget :
          (q : Settled (ℕ × ℕ) × S)
          → Maps view
              (record { fds = fd ∷ fds; maps = maps; object = some (resized size bytes) })
              size
              (some (resized size bytes))
              q
          → Maps view
              (record { fds = fd ∷ fds; maps = maps; object = some bytes })
              size
              (some (resized size bytes))
              q
      retarget (returned m, s) h = h
      retarget (thrown, s) h = h
      retarget (terminated, s) h = h

  created-Maps :
      (size : ℕ) (v : View) (r : Option ℕ × S)
      → view r.1 ≡ opening true r.0 v
      → Maps view v size (some (resized size [])) (created sys progname size r)
  created-Maps size v (none, s) e = (ap (λ w. w.fds) e, ap (λ w. w.maps) e)
  created-Maps size v (some fd, s) e =
      cleanup_fd-Maps fd size v.fds v (some (resized size []))
        (truncated sys progname fd size (sys.ftruncate fd size s))
        (truncated-Maps fd size v.fds v.maps [] (sys.ftruncate fd size s)
          (behaves.ftruncate_lem fd size v.fds v.maps [] s e))

  -- `allocate` maps a new object of zeros, of the size of the pages; where a call fails it throws.
  -- Either way no descriptor is left open.
  pub allocate-Maps :
      (pg_size pages : ℕ) (s : S)
      → let size = pages * pg_size % 2 ^ 64 in
        Maps view (view s) size (some (resized size [])) (allocate sys progname pg_size pages s)
  unfolding allocate
  allocate-Maps pg_size pages s =
      created-Maps (pages * pg_size % 2 ^ 64) (view s) (sys.shm_open (get_shm_name progname) true s)
        (behaves.shm_open_lem true s)

  measured-Maps :
      (fd : ℕ) (fds : List ℕ) (maps : List (ℕ × ℕ)) (bytes : Bytes) (s : S) (size : Option ℕ)
      → view s ≡ record { fds = fd ∷ fds; maps = maps; object = some bytes }
      → sys.fstat fd s ≡ size
      → Maps view
          (record { fds = fd ∷ fds; maps = maps; object = some bytes })
          (length bytes)
          (some bytes)
          (measured sys progname fd s size)
  measured-Maps fd fds maps bytes s none e h = (ap (λ w. w.fds) e, ap (λ w. w.maps) e)
  measured-Maps fd fds maps bytes s (some size) e h =
      let n = behaves.fstat_lem fd size fds maps bytes s e h in
      subst
        (λ k.
          Maps view (record { fds = fd ∷ fds; maps = maps; object = some bytes }) k (some bytes)
            (mapped sys progname size (sys.mmap fd size s)))
        n (mmap-Maps fd size fds maps (some bytes) s e)

  accessed-Maps :
      (v : View) (bytes : Bytes) (r : Option ℕ × S)
      → v.object ≡ some bytes
      → view r.1 ≡ opening false r.0 v
      → Maps view v (length bytes) (some bytes) (accessed sys progname r)
  accessed-Maps v bytes (none, s) o e = (ap (λ w. w.fds) e, ap (λ w. w.maps) e)
  accessed-Maps v bytes (some fd, s) o e =
      cleanup_fd-Maps fd (length bytes) v.fds v (some bytes)
        (measured sys progname fd s (sys.fstat fd s))
        (retarget (measured sys progname fd s (sys.fstat fd s)) (
          measured-Maps fd v.fds v.maps bytes s (sys.fstat fd s)
            (e ∙ ap (λ b. record { fds = fd ∷ v.fds; maps = v.maps; object = b }) o) refl))
    where
      retarget :
          (q : Settled (ℕ × ℕ) × S)
          → Maps view
              (record { fds = fd ∷ v.fds; maps = v.maps; object = some bytes })
              (length bytes)
              (some bytes)
              q
          → Maps view (record v { fds = fd ∷ v.fds }) (length bytes) (some bytes) q
      retarget (returned m, s) h = h
      retarget (thrown, s) h = h
      retarget (terminated, s) h = h

  -- `read_access` maps the object whole, as it is; where a call fails it throws. Either way no
  -- descriptor is left open.
  pub read_access-Maps :
      (bytes : Bytes) (s : S)
      → (view s).object ≡ some bytes
      → Maps view (view s) (length bytes) (some bytes) (read_access sys progname s)
  unfolding read_access
  read_access-Maps bytes s o =
      accessed-Maps (view s) bytes (sys.shm_open (get_shm_name progname) false s) o
        (behaves.shm_open_lem false s)

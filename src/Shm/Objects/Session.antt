-- ===== src/Shm/Objects/Session.antt =====
-- The image through the calls of the system: from the supervisor's session to that of a process
-- that opens the object.
use spartan_launcher.Prelude.{
  subst, Bool-cases, inl, inr, ℕ, ◌+◌, ◌*◌, ◌%◌, ◌^◌, ◌<◌, ◌≤◌, ◌≡◌, refl, sym, ap, ◌∙◌, Bool, true,
  false, Option, some, [], ◌∷◌, ◌++◌, Bytes, ℤ, length, drop, ◌==◌, arith, ltb,
}
use spartan_launcher.Session.{SessionState}
use spartan_launcher.Stream.{reading}
use spartan_launcher.Session.Serial.{read_session}
use spartan_launcher.Shm.{
  ShmAllocator, new_allocator, alloc, required_size, page_count, image, get_cmd_dispatch_info,
}
use spartan_launcher.Shm.Allocations.{alloc_lem, new_allocator-IsSound}
use spartan_launcher.Shm.Image.{length-image, page_count_lem, get_cmd_dispatch_info-membuf}
use spartan_launcher.Shm.Objects.{
  System, Settled, returned, thrown, terminated, mapped, truncated, created, allocate, accessed,
  read_access, allocator_of, filled, publish, destructed, or_throw, client_read, session_from_shm,
}
use spartan_launcher.Shm.Objects.View.{View, Behaves, Succeeds, resized}
use spartan_launcher.Shm.Objects.Ending.{Maps, allocate-Maps, read_access-Maps}

-- The call returned.
abbrev pub Returned {ℓ} : {A : Type ℓ} → Settled A → Type 0
Returned (returned _) = Unit
Returned thrown = ⊥
Returned terminated = ⊥

module _ {S : Type 0} (sys : System S) (progname : Bytes) (view : S → View)
    (behaves : Behaves sys progname view) where
  mapped-Returned :
      (size : ℕ) (r : Option ℕ × S) (addr : ℕ)
      → r.0 ≡ some addr
      → Returned (mapped sys progname size r).0
  mapped-Returned size (o, s) addr h = rw h tt

  module _ (succeeds : Succeeds sys progname view) where
    truncated-Returned :
        (fd size : ℕ) (r : Bool × S) → r.0 ≡ true → Returned (truncated sys progname fd size r).0
    truncated-Returned fd size (b, s) h =
        let m = succeeds.mmap fd size s in rw h (mapped-Returned size (sys.mmap fd size s) m.0 m.1)

    created-Returned :
        (size : ℕ) (r : Option ℕ × S) (fd : ℕ)
        → r.0 ≡ some fd
        → Returned (created sys progname size r).0
    created-Returned size (o, s) fd h =
        rw h (truncated-Returned fd size (sys.ftruncate fd size s) (succeeds.ftruncate fd size s))

    accessed-Returned :
        (r : Option ℕ × S) (fd : ℕ) → r.0 ≡ some fd → Returned (accessed sys progname r).0
    accessed-Returned (o, s) fd h =
        let f = succeeds.fstat fd s in
        let m = succeeds.mmap fd f.0 s in
        rw (h, f.1) (mapped-Returned f.0 (sys.mmap fd f.0 s) m.0 m.1)

    pub allocate-Returned :
        (pg_size pages : ℕ) (s : S) → Returned (allocate sys progname pg_size pages s).0
    unfolding allocate
    allocate-Returned pg_size pages s =
        let c = succeeds.create s in created-Returned (pages * pg_size % 2 ^ 64) _ c.0 c.1

    pub read_access-Returned :
        (bytes : Bytes) (s : S)
        → (view s).object ≡ some bytes
        → Returned (read_access sys progname s).0
    unfolding read_access
    read_access-Returned bytes s o =
        let c = succeeds.open_access bytes s o in accessed-Returned _ c.0 c.1

  -- What a process has after reading the session: the one that stands in the object, and nothing
  -- left open or mapped. An exception leaves nothing either; only a failure to unmap terminates.
  abbrev pub Reads : View → SessionState → Settled SessionState × S → Type 0
  Reads v ss (returned ss', s) = (ss' ≡ ss) × (view s ≡ v)
  Reads v ss (thrown, s) = ((view s).fds ≡ v.fds) × ((view s).maps ≡ v.maps)
  Reads v ss (terminated, s) = Unit

  destructed-Reads :
      (addr size : ℕ) (v : View) (bytes : Bytes) (ss : SessionState) (s : S) (r : Bool × S)
      → v.object ≡ some bytes
      → view s ≡ record { fds = v.fds; maps = (addr, size) ∷ v.maps; object = some bytes }
      → view r.1 ≡ elim r.0 [ true ↦ record (view s) { maps = v.maps } | false ↦ view s ]
      → Reads v ss (destructed sys progname (λ s. s) (returned ss) (or_throw sys progname r))
  destructed-Reads addr size v bytes ss s (true, s') o e f = (
    refl,
    f
        ∙ ap (λ (w : View). record w { maps = v.maps }) e
        ∙ ap (λ b. record { fds = v.fds; maps = v.maps; object = b }) (sym o),
  )
  destructed-Reads addr size v bytes ss s (false, s') o e f = tt

  client_read-Reads :
      (stale : ℤ) (ss : SessionState) (v : View) (bytes : Bytes) (r : Settled (ℕ × ℕ) × S)
      → v.object ≡ some bytes
      → Maps view v (length bytes) (some bytes) r
      → Reads v (get_cmd_dispatch_info stale bytes ss) (client_read sys progname stale ss r)
  client_read-Reads stale ss v bytes (thrown, s) o m = m
  client_read-Reads stale ss v bytes (terminated, s) o m = tt
  client_read-Reads stale ss v bytes (returned (p, n), s) o (l, z, e) =
      let loaded =
        behaves.load_lem p (length bytes) v.maps bytes s (ap (λ w. w.maps) e) (ap (λ w. w.object) e)
          refl in
      elim (Bool-cases (p == 0)) [
        | inl null ↦ absurd (z (ground (arith, null)))
        | inr nonnull ↦
            rw (l, loaded, nonnull)
              (destructed-Reads p (length bytes) v bytes (get_cmd_dispatch_info stale bytes ss) s
                (sys.munmap p (length bytes) s) o e
                (behaves.munmap_lem p (length bytes) v.maps s (ap (λ w. w.maps) e)))
      ]

  -- A process that reads the session from an object in which an image stands, as the supervisor
  -- lays it out, with texts whose sizes are those of an `int`, and returns, has what the image's
  -- text encodes, whatever the rest of the object holds, keeps no descriptor and no mapping, and
  -- leaves the object as it was; an exception that a failing call throws leaves no descriptor and
  -- no mapping either. Nothing is said of a process that a failure to unmap terminates.
  pub session_from_shm-Reads :
      (stale : ℤ) (ss : SessionState) (cdi membuf pad : Bytes) (s : S)
      → (view s).object ≡ some (image cdi membuf ++ pad)
      → length cdi < 2 ^ 31
      → length membuf < 2 ^ 31
      → Reads
          (view s)
          ((read_session stale ss (reading membuf)).0)
          (session_from_shm sys progname stale ss s)
  unfolding session_from_shm
  session_from_shm-Reads stale ss cdi membuf pad s o c m =
      let bytes = image cdi membuf ++ pad in
      subst
        (λ (read : SessionState).
          Reads (view s) read (client_read sys progname stale ss (read_access sys progname s)))
        (get_cmd_dispatch_info-membuf stale ss cdi membuf pad c m)
        (client_read-Reads stale ss (view s) bytes (read_access sys progname s) o
          (read_access-Maps sys progname view behaves bytes s o))

  -- What the supervisor has after it laid out the image: a mapped object that starts with it, or
  -- an exception that left nothing.
  abbrev pub Publishes : View → Bytes → Settled ShmAllocator × S → Type 0
  Publishes v bytes (returned a, s) =
      (pad : Bytes) × (view s ≡ record {
        fds = v.fds;
        maps = (a.base_addr, a.max_size) ∷ v.maps;
        object = some (bytes ++ pad);
      })
  Publishes v bytes (thrown, s) = ((view s).fds ≡ v.fds) × ((view s).maps ≡ v.maps)
  Publishes v bytes (terminated, s) = ⊥

  filled-Publishes :
      (size : ℕ) (v : View) (cdi membuf : Bytes) (r : Settled (ℕ × ℕ) × S)
      → required_size cdi membuf ≤ size
      → size < 2 ^ 31
      → Maps view v size (some (resized size [])) r
      → Publishes v
          (image cdi membuf)
          (filled sys progname cdi membuf (allocator_of sys progname r))
  filled-Publishes size v cdi membuf (thrown, s) fits small m = m
  filled-Publishes size v cdi membuf (terminated, s) fits small m = m
  filled-Publishes size v cdi membuf (returned (addr, n), s) fits small (l, z, e) =
      let need = required_size cdi membuf in
      let a = new_allocator addr size in
      let room : ltb size (0 + need) ≡ false = ground arith in
      let taken : alloc a need ≡ some (addr + 0, record a { curr_offset = 0 + need }) =
        alloc_lem a need (new_allocator-IsSound addr size small) (omega arith) ∙ rw room refl in
      let here : addr + 0 ≡ addr = omega arith in
      rw (l, taken, here)
        (
          drop (length (image cdi membuf)) (resized size []),
          behaves.store_lem addr size v.maps (resized size []) (image cdi membuf) s
                (ap (λ w. w.maps) e) (ap (λ w. w.object) e) (rw (length-image cdi membuf) fits)
              ∙ ap
                  (λ (w : View). record w {
                    object =
                        some
                          (image cdi membuf ++ drop (length (image cdi membuf)) (resized size []));
                  })
                  e,
        )

  -- The supervisor that lays out the image has made an object that starts with it, in pages that
  -- it maps, or an exception left no descriptor and no mapping: what it asks of the pages always
  -- fits, so its own allocator never throws.
  pub publish-Publishes :
      (pg_size : ℕ) (cdi membuf : Bytes) (s : S)
      → 0 < pg_size
      → required_size cdi membuf + pg_size < 2 ^ 31
      → Publishes (view s) (image cdi membuf) (publish sys progname pg_size cdi membuf s)
  unfolding publish
  publish-Publishes pg_size cdi membuf s positive small =
      let need = required_size cdi membuf in
      let pages = page_count need pg_size in
      let room = page_count_lem need pg_size positive in
      let size = pages * pg_size % 2 ^ 64 in
      let whole : size ≡ pages * pg_size = omega (arith, room.1) in
      filled-Publishes size (view s) cdi membuf (allocate sys progname pg_size pages s)
        (rw whole room.0) (rw whole (omega (arith, room.1)))
        (allocate-Maps sys progname view behaves pg_size pages s)

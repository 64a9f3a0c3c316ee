-- ===== src/Shm/Objects/Obtained.antt =====
-- From the supervisor's session to that of another process, where the calls of the system succeed.
use spartan_launcher.Prelude.{
  sym, Bool-cases, inl, inr, arith, ltb, [], ℕ, ◌+◌, ◌*◌, ◌%◌, ◌≤◌, ◌^◌, ◌<◌, ◌≡◌, ap, ◌∙◌, Bool,
  true, false, Option, some, ◌++◌, Bytes, ℤ, length, ◌==◌,
}
use spartan_launcher.Session.{SessionState}
use spartan_launcher.Session.Serial.{TypeNames}
use spartan_launcher.Session.Serial.Elements.{ArePlainNames}
use spartan_launcher.Session.Serial.RoundTrip.{IsPlainSession, merged}
use spartan_launcher.Stream.{reading}
use spartan_launcher.Session.Serial.{read_session}
use spartan_launcher.Shm.{
  ShmAllocator, new_allocator, required_size, page_count, image, get_cmd_dispatch_info,
  serialize_session,
}
use spartan_launcher.Shm.Allocations.{alloc_lem, new_allocator-IsSound}
use spartan_launcher.Shm.Image.{
  page_count_lem, get_cmd_dispatch_info-image, get_cmd_dispatch_info-membuf,
}
use spartan_launcher.Shm.Objects.{
  System, Settled, returned, thrown, terminated, allocate, read_access, allocator_of, filled,
  publish, client_read, session_from_shm, or_throw, destructed,
}
use spartan_launcher.Shm.Objects.View.{View, Behaves, Succeeds, resized}
use spartan_launcher.Shm.Objects.Ending.{Maps, allocate-Maps}
use spartan_launcher.Shm.Objects.Session.{
  Returned, allocate-Returned, read_access-Returned, Reads, session_from_shm-Reads, Publishes,
  publish-Publishes,
}

module _ {S : Type 0} (sys : System S) (progname : Bytes) (view : S → View)
    (behaves : Behaves sys progname view) (succeeds : Succeeds sys progname view) where
  destructed-Returned :
      (ss : SessionState) (r : Bool × S)
      → r.0 ≡ true
      → Returned (destructed sys progname (λ s. s) (returned ss) (or_throw sys progname r)).0
  destructed-Returned ss (b, s) h = rw h tt

  client_read-Returned :
      (stale : ℤ) (ss : SessionState) (r : Settled (ℕ × ℕ) × S)
      → Returned r.0
      → Returned (client_read sys progname stale ss r).0
  client_read-Returned stale ss (returned (p, n), s) h = elim (Bool-cases (p == 0)) [
    | inl null ↦ rw null tt
    | inr nonnull ↦ rw nonnull (
        destructed-Returned (get_cmd_dispatch_info stale (sys.load p n s) ss) (sys.munmap p n s)
          (succeeds.munmap p n s))
  ]
  client_read-Returned stale ss (thrown, s) h = h
  client_read-Returned stale ss (terminated, s) h = h

  session_from_shm-Returned :
      (stale : ℤ) (ss : SessionState) (bytes : Bytes) (s : S)
      → (view s).object ≡ some bytes
      → Returned (session_from_shm sys progname stale ss s).0
  unfolding session_from_shm
  session_from_shm-Returned stale ss bytes s o =
      client_read-Returned stale ss (read_access sys progname s)
        (read_access-Returned sys progname view behaves succeeds bytes s o)

  obtained :
      (v : View) (ss : SessionState) (r : Settled SessionState × S)
      → Returned r.0
      → Reads sys progname view behaves v ss r
      → (r.0 ≡ returned ss) × (view r.1 ≡ v)
  obtained v ss (returned ss', s) h (e, f) = (ap returned e, f)
  obtained v ss (thrown, s) h r = absurd h
  obtained v ss (terminated, s) h r = absurd h

  filled-Returned :
      (size : ℕ) (object : Option Bytes) (v : View) (cdi membuf : Bytes) (r : Settled (ℕ × ℕ) × S)
      → required_size cdi membuf ≤ size
      → size < 2 ^ 31
      → Maps view v size object r
      → Returned r.0
      → Returned (filled sys progname cdi membuf (allocator_of sys progname r)).0
  filled-Returned size object v cdi membuf (returned (addr, n), s) fits small (l, z, e) h =
      let need = required_size cdi membuf in
      let a = new_allocator addr size in
      let room : ltb size (0 + need) ≡ false = ground arith in
      rw (l, alloc_lem a need (new_allocator-IsSound addr size small) (omega arith), room) tt
  filled-Returned size object v cdi membuf (thrown, s) fits small m h = h
  filled-Returned size object v cdi membuf (terminated, s) fits small m h = h

  publish-Returned :
      (pg_size : ℕ) (cdi membuf : Bytes) (s : S)
      → 0 < pg_size
      → required_size cdi membuf + pg_size < 2 ^ 31
      → Returned (publish sys progname pg_size cdi membuf s).0
  unfolding publish
  publish-Returned pg_size cdi membuf s positive small =
      let need = required_size cdi membuf in
      let pages = page_count need pg_size in
      let room = page_count_lem need pg_size positive in
      let size = pages * pg_size % 2 ^ 64 in
      let whole : size ≡ pages * pg_size = omega (arith, room.1) in
      filled-Returned size (some (resized size [])) (view s) cdi membuf
        (allocate sys progname pg_size pages s) (rw whole room.0) (rw whole (omega (arith, room.1)))
        (allocate-Maps sys progname view behaves pg_size pages s)
        (allocate-Returned sys progname view behaves succeeds pg_size pages s)

  obtained_from :
      (t : TypeNames) (stale : ℤ) (self ss : SessionState) (cdi : Bytes) (v : View)
      (p : Settled ShmAllocator × S)
      → ArePlainNames t
      → IsPlainSession ss
      → length cdi < 2 ^ 31
      → length (serialize_session t ss) < 2 ^ 31
      → Returned p.0
      → Publishes sys progname view behaves v (image cdi (serialize_session t ss)) p
      → let g = session_from_shm sys progname stale self p.1 in
        (g.0 ≡ returned (merged self ss)) × (view g.1 ≡ view p.1)
  obtained_from t stale self ss cdi v (returned a, s) names plain k l h (pad, e) =
      let membuf = serialize_session t ss in
      let o : (view s).object ≡ some (image cdi membuf ++ pad) = ap (λ w. w.object) e in
      let g =
        obtained (view s) ((read_session stale self (reading membuf)).0)
          (session_from_shm sys progname stale self s)
          (session_from_shm-Returned stale self (image cdi membuf ++ pad) s o)
          (session_from_shm-Reads sys progname view behaves stale self cdi membuf pad s o k l) in
      (
        g.0
            ∙ ap returned (
                sym (get_cmd_dispatch_info-membuf stale self cdi membuf pad k l)
                ∙ get_cmd_dispatch_info-image t stale self ss cdi pad names plain k l),
        g.1,
      )
  obtained_from t stale self ss cdi v (thrown, s) names plain k l h e = absurd h
  obtained_from t stale self ss cdi v (terminated, s) names plain k l h e = absurd h

  -- Where every call of the system for the shared memory succeeds, the supervisor lays out a
  -- session that its text form can hold without an exception, and a process that reads it then
  -- obtains that session, merged into its own, and leaves the object, the descriptors and the
  -- mappings as they were. The sizes are those of an `int`.
  pub publish-obtained :
      (t : TypeNames) (stale : ℤ) (self ss : SessionState) (cdi : Bytes) (pg_size : ℕ) (s : S)
      → ArePlainNames t
      → IsPlainSession ss
      → 0 < pg_size
      → required_size cdi (serialize_session t ss) + pg_size < 2 ^ 31
      → let p = publish sys progname pg_size cdi (serialize_session t ss) s in
        let g = session_from_shm sys progname stale self p.1 in
        Returned p.0 × (g.0 ≡ returned (merged self ss)) × (view g.1 ≡ view p.1)
  unfolding required_size
  publish-obtained t stale self ss cdi pg_size s names plain positive small =
      let membuf = serialize_session t ss in
      let h = publish-Returned pg_size cdi membuf s positive small in
      let r =
        obtained_from t stale self ss cdi (view s) (publish sys progname pg_size cdi membuf s) names
          plain (omega arith) (omega arith) h
          (publish-Publishes sys progname view behaves pg_size cdi membuf s positive small) in
      (h, r.0, r.1)

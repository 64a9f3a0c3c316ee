-- ===== src/Tests/Memory.antt =====
-- A system of one shared memory object, and the session that goes through it.
use spartan_launcher.Prelude.{
  ℕ, ◌+◌, ◌^◌, ◌≡◌, ◌<◌, refl, ap, arith, Bool, true, false, Option, none, some, [], ◌++◌, Bytes,
  codes, pos, length, drop,
}
use spartan_launcher.Session.{new_session}
use spartan_launcher.Stream.{reading}
use spartan_launcher.Session.Serial.{read_session}
use spartan_launcher.Shm.{put_int32, image, serialize_session, required_size}
use spartan_launcher.Shm.Objects.{System, returned, publish, session_from_shm}
use spartan_launcher.Shm.Objects.View.{View, Behaves, Succeeds, resized, opening, mapping}
use spartan_launcher.Shm.Objects.Session.{Returned, Reads, session_from_shm-Reads}
use spartan_launcher.Shm.Objects.Obtained.{publish-obtained}
use spartan_launcher.Session.Serial.RoundTrip.{merged}
use spartan_launcher.Tests.Sessions.{
  names, names-ArePlainNames, session, session-IsPlainSession, length-serialize_session,
}

abbrev bytes_of : Option Bytes → Bytes
bytes_of none = []
bytes_of (some bytes) = bytes

abbrev open_existing : View → Option Bytes → Option ℕ × View
open_existing v none = (none, v)
open_existing v (some bytes) = (some 3, opening false (some 3) v)

abbrev open_object : Bool → View → Option ℕ × View
open_object true v = (some 3, opening true (some 3) v)
open_object false v = open_existing v v.object

abbrev put_bytes : Bytes → Option Bytes → Option Bytes
put_bytes new none = none
put_bytes new (some old) = some (new ++ drop (length new) old)

abbrev resize_object : ℕ → Option Bytes → Option Bytes
resize_object size none = none
resize_object size (some bytes) = some (resized size bytes)

abbrev one_object : System View
one_object = record {
  shm_open = λ name new v. open_object new v;
  ftruncate = λ fd size v. (true, record v { object = resize_object size v.object });
  fstat = λ fd v. some (length (bytes_of v.object));
  mmap = λ fd size v. (some 4096, mapping size (some 4096) v);
  close = λ fd v. record v { fds = drop 1 v.fds };
  munmap = λ addr size v. (true, record v { maps = drop 1 v.maps });
  msync = λ addr size v. (true, v);
  shm_unlink = λ name v. (true, record v { object = none });
  store = λ addr new v. record v { object = put_bytes new v.object };
  load = λ addr size v. bytes_of v.object;
}

open_existing_lem :
    (v : View) (o : Option Bytes) → (open_existing v o).1 ≡ opening false (open_existing v o).0 v
open_existing_lem v none = refl
open_existing_lem v (some bytes) = refl

open_object_lem :
    (new : Bool) (v : View) → (open_object new v).1 ≡ opening new (open_object new v).0 v
open_object_lem true v = refl
open_object_lem false v = open_existing_lem v v.object

one_object-Behaves : Behaves one_object (codes "app") (λ v. v)
one_object-Behaves = record {
  shm_open_lem = open_object_lem;
  ftruncate_lem = λ fd size fds maps bytes v e.
      ap (λ (w : View). record w { object = resize_object size w.object }) e;
  fstat_lem = λ fd size fds maps bytes v e h.
      cc (ap (λ (w : View). some (length (bytes_of w.object))) e, h);
  mmap_lem = λ fd size fds v e. refl;
  mmap_address = λ fd size addr v e. ground (arith, e);
  close_lem = λ fd fds v e. ap (λ l. record v { fds = drop 1 l }) e;
  munmap_lem = λ addr size maps v e. ap (λ l. record v { maps = drop 1 l }) e;
  unlink_lem = λ v. (refl, refl);
  store_lem = λ addr size maps old new v e o h. ap (λ b. record v { object = put_bytes new b }) o;
  load_lem = λ addr size maps bytes v e o h. ap bytes_of o;
}

one_object-Succeeds : Succeeds one_object (codes "app") (λ v. v)
one_object-Succeeds = record {
  create = λ v. (3, refl);
  open_access = λ bytes v o. (3, rw o refl);
  ftruncate = λ fd size v. refl;
  fstat = λ fd v. (length (bytes_of v.object), refl);
  mmap = λ fd size v. (4096, refl);
  munmap = λ addr size v. refl;
}

abbrev before : View
before = record { fds = []; maps = []; object = none }

pages_fit : required_size (codes "info") (codes "session") + 4096 < 2 ^ 31
unfolding required_size
pages_fit = omega arith

small : required_size (codes "info") (serialize_session names session) + 4096 < 2 ^ 31
unfolding required_size
small = omega (arith, length-serialize_session)

publish-obtained_example :
    let p =
      publish one_object
        (codes "app")
        4096
        (codes "info")
        (serialize_session names session)
        before in
    let g = session_from_shm one_object (codes "app") (pos 7) new_session p.1 in
    Returned p.0 × (g.0 ≡ returned (merged new_session session)) × (g.1 ≡ p.1)
publish-obtained_example =
    publish-obtained one_object (codes "app") (λ v. v) one_object-Behaves one_object-Succeeds names
      (pos 7) new_session session (codes "info") 4096 before names-ArePlainNames
      session-IsPlainSession (omega arith) small

abbrev published : View
published = record { fds = []; maps = []; object = some (image (codes "info") (codes "session")) }

session_from_shm-Reads_example :
    Reads one_object
      (codes "app")
      (λ v. v)
      one_object-Behaves
      published
      ((read_session (pos 7) new_session (reading (codes "session"))).0)
      (session_from_shm one_object (codes "app") (pos 7) new_session published)
unfolding image put_int32
session_from_shm-Reads_example =
    session_from_shm-Reads one_object (codes "app") (λ v. v) one_object-Behaves (pos 7) new_session
      (codes "info") (codes "session") [] published refl (omega arith) (omega arith)

-- ===== src/Shm/Image.antt =====
-- What the supervisor lays out in shared memory is what the other processes read.
use spartan_launcher.Prelude.{
  suc, ℕ, ◌+◌, ◌*◌, ◌^◌, ◌≤◌, ◌<◌, ◌≡◌, refl, ap, ap₂, ◌∙◌, [], ◌++◌, arith, Bytes, length, take,
  drop, length-append, take-length-append, drop-length-append, append_assoc, ℤ,
}
use spartan_launcher.Session.{SessionState}
use spartan_launcher.Session.Serial.{TypeNames, read_session}
use spartan_launcher.Session.Serial.Elements.{ArePlainNames}
use spartan_launcher.Session.Serial.RoundTrip.{IsPlainSession, merged, read_session-put_session}
use spartan_launcher.Stream.{reading}
use spartan_launcher.Shm.{
  put_int32, get_int32, required_size, page_count, serialize_session, image, session_buf_info,
  get_cmd_dispatch_info,
}

get_int32-put_int32 : (n : ℕ) (k : Bytes) → n < 2 ^ 32 → get_int32 (put_int32 n ++ k) ≡ n
unfolding get_int32 put_int32
get_int32-put_int32 n k h = omega arith

length-put_int32 : (n : ℕ) → length (put_int32 n) ≡ 4
unfolding put_int32
length-put_int32 n = refl

drop_int32 : (n : ℕ) (m : ℕ) (k : Bytes) → drop (4 + m) (put_int32 n ++ k) ≡ drop m k
unfolding put_int32
drop_int32 n m k = let e : 4 + m ≡ suc (suc (suc (suc m))) = omega arith in rw e refl

-- The image has the size that was computed for it.
pub length-image : (cdi membuf : Bytes) → length (image cdi membuf) ≡ required_size cdi membuf
unfolding image required_size
length-image cdi membuf = simp (length-append, length-put_int32) (omega arith)

-- The pages hold the image, and one page less would not.
pub page_count_lem :
    (size pg_size : ℕ)
    → 0 < pg_size
    → (size ≤ page_count size pg_size * pg_size)
      × (page_count size pg_size * pg_size < size + pg_size)
unfolding page_count
page_count_lem size pg_size h = grind arith

assoc_image :
    (cdi membuf pad : Bytes)
    → image cdi membuf ++ pad
      ≡ put_int32 (length cdi) ++ (cdi ++ (put_int32 (length membuf) ++ (membuf ++ pad)))
unfolding image
assoc_image cdi membuf pad = simp append_assoc

drop_at_zero : (n : ℕ) (k : Bytes) → drop 4 (put_int32 n ++ k) ≡ k
unfolding put_int32
drop_at_zero n k = refl

session_buf_info-image :
    (cdi membuf pad : Bytes)
    → length cdi < 2 ^ 31
    → length membuf < 2 ^ 31
    → session_buf_info (image cdi membuf ++ pad) ≡ (membuf ++ pad, length membuf)
unfolding session_buf_info
session_buf_info-image cdi membuf pad h k = rw (
  assoc_image cdi membuf pad,
  get_int32-put_int32 (length cdi) _ (omega arith),
  drop_int32 (length cdi) (length cdi) _,
  drop-length-append cdi (put_int32 (length membuf) ++ (membuf ++ pad)),
  get_int32-put_int32 (length membuf) (membuf ++ pad) (omega arith),
  drop_at_zero (length membuf) (membuf ++ pad),
)

-- The text of the image is what is read.
pub get_cmd_dispatch_info-membuf :
    (stale : ℤ) (self : SessionState) (cdi membuf pad : Bytes)
    → length cdi < 2 ^ 31
    → length membuf < 2 ^ 31
    → get_cmd_dispatch_info stale (image cdi membuf ++ pad) self
      ≡ (read_session stale self (reading membuf)).0
unfolding get_cmd_dispatch_info
get_cmd_dispatch_info-membuf stale self cdi membuf pad h k =
    let e = session_buf_info-image cdi membuf pad h k in
    let all = ap₂ take (ap (λ r. r.1) e) (ap (λ r. r.0) e) in
    ap (λ x. (read_session stale self (reading x)).0) (all ∙ take-length-append membuf pad)

-- A process that maps the memory reads the session that the supervisor put there, whatever the
-- rest of the memory holds.
pub get_cmd_dispatch_info-image :
    (t : TypeNames) (stale : ℤ) (self ss : SessionState) (cdi pad : Bytes)
    → ArePlainNames t
    → IsPlainSession ss
    → length cdi < 2 ^ 31
    → length (serialize_session t ss) < 2 ^ 31
    → get_cmd_dispatch_info stale (image cdi (serialize_session t ss) ++ pad) self ≡ merged self ss
unfolding serialize_session
get_cmd_dispatch_info-image t stale self ss cdi pad names p h k =
    get_cmd_dispatch_info-membuf stale self cdi _ pad h k
    ∙ ap (λ r. r.0) (read_session-put_session t names stale self ss [] p)

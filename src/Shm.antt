-- ===== src/Shm.antt =====
-- Shared memory: the bump allocator of src/main/cpp/shm.cpp and shm.h, and the image that
-- src/main/cpp/process-cmd-dispatch-info.cpp lays out in it and reads back.
pub mod Allocations
pub mod Image
pub mod Objects
use spartan_launcher.Prelude.{
  ℕ, ◌+◌, ◌-◌, ◌*◌, ◌/◌, ◌%◌, ◌^◌, Bool, List, [], ◌∷◌, ◌++◌, ◌==◌, ltb, if◌then◌else◌, Option,
  none, some, length, take, drop, Bytes, ℤ,
}
use spartan_launcher.Session.{SessionState}
use spartan_launcher.Session.Serial.{TypeNames, put_session, read_session}
use spartan_launcher.Stream.{reading}

-- `curr_offset` is the 32-bit pattern of an `int`.
pub record ShmAllocator : Type 0 where
  pub base_addr : ℕ
  pub max_size : ℕ
  pub curr_offset : ℕ

-- An `int` in an expression of `size_t`: sign-extended to 64 bits.
abbrev pub to_size : ℕ → ℕ
to_size i = if ltb i (2 ^ 31) then i else i + 2 ^ 64 - 2 ^ 32

abbrev pub new_allocator : ℕ → ℕ → ShmAllocator
new_allocator base size = record { base_addr = base; max_size = size; curr_offset = 0 }

-- `ShmAllocator::alloc`; `none` is the exception, which leaves the allocator as it was.
unfoldable pub alloc : ShmAllocator → ℕ → Option (ℕ × ShmAllocator)
alloc a size =
    let new_offset = (to_size a.curr_offset + size) % 2 ^ 64 in
    if ltb a.max_size new_offset
    then none
    else some (a.base_addr + to_size a.curr_offset, record a { curr_offset = new_offset % 2 ^ 32 })

-- `getMemBuf`, `getUtilizedMemBuf`, `getRemainingMemBuf`
unfoldable pub mem_buf : ShmAllocator → ℕ × ℕ
mem_buf a = (a.base_addr, a.max_size)

unfoldable pub utilized_mem_buf : ShmAllocator → ℕ × ℕ
utilized_mem_buf a = (a.base_addr, to_size a.curr_offset)

unfoldable pub remaining_mem_buf : ShmAllocator → ℕ × ℕ
remaining_mem_buf a =
    (a.base_addr + to_size a.curr_offset, (a.max_size + 2 ^ 64 - to_size a.curr_offset) % 2 ^ 64)

-- An `int32_t` in memory, least significant byte first.
unfoldable pub put_int32 : ℕ → Bytes
put_int32 n = n % 256 ∷ n / 256 % 256 ∷ n / 65536 % 256 ∷ n / 16777216 % 256 ∷ []

unfoldable pub get_int32 : Bytes → ℕ
get_int32 (a ∷ b ∷ c ∷ d ∷ rest) = a + 256 * b + 65536 * c + 16777216 * d
get_int32 _ = 0

-- The bytes that the image needs, and the pages that hold them.
unfoldable pub required_size : Bytes → Bytes → ℕ
required_size cdi membuf = 4 + length cdi + 4 + length membuf

unfoldable pub page_count : ℕ → ℕ → ℕ
page_count size pg_size = let pgs = size / pg_size in if size % pg_size == 0 then pgs else pgs + 1

-- `serialize_session_state_to_membuf`
unfoldable pub serialize_session : TypeNames → SessionState → Bytes
serialize_session t ss = put_session t ss []

-- The image: the serialized dispatch info and the serialized session, each behind its length.
unfoldable pub image : Bytes → Bytes → Bytes
image cdi membuf = put_int32 (length cdi) ++ (cdi ++ (put_int32 (length membuf) ++ membuf))

-- `get_session_state_buf_info`: where the session's text starts, and its length, in a memory that
-- holds an image with the sizes of positive `int`s. The code checks no size: in another memory it
-- reads behind its end, or before its start, which is not modelled.
unfoldable pub session_buf_info : Bytes → Bytes × ℕ
session_buf_info mem = let pos = drop (4 + get_int32 mem) mem in (drop 4 pos, get_int32 pos)

-- `get_cmd_dispatch_info`, over the mapped memory.
unfoldable pub get_cmd_dispatch_info : ℤ → Bytes → SessionState → SessionState
get_cmd_dispatch_info stale mem ss =
    let info = session_buf_info mem in (read_session stale ss (reading (take info.1 info.0))).0

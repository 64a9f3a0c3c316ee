-- ===== src/Shm/Allocations.antt =====
-- Where the allocator puts its blocks.
use spartan_launcher.Prelude.{
  ℕ, ◌+◌, ◌^◌, ◌≤◌, ◌<◌, ◌≡◌, refl, List, [], ◌∷◌, ltb, if◌then◌else◌, Option, none, some, arith,
  Bool-cases, inl, inr, ap,
}
use spartan_launcher.Shm.{ShmAllocator, alloc, utilized_mem_buf, remaining_mem_buf, new_allocator}

-- The offset lies in the memory, whose size is a positive `int`.
pub record IsSound (a : ShmAllocator) : Type 0 where
  pub small : a.max_size < 2 ^ 31
  pub inside : a.curr_offset ≤ a.max_size

pub new_allocator-IsSound : (base size : ℕ) → size < 2 ^ 31 → IsSound (new_allocator base size)
new_allocator-IsSound base size h = record { small = h; inside = omega arith }

-- An allocation succeeds exactly when the block fits behind those before it. It then takes the
-- next bytes.
pub alloc_lem :
    (a : ShmAllocator) (size : ℕ)
    → IsSound a
    → size < 2 ^ 63
    → alloc a size ≡ (
        if ltb a.max_size (a.curr_offset + size)
        then none
        else some (a.base_addr + a.curr_offset, record a { curr_offset = a.curr_offset + size }))
unfolding alloc
alloc_lem a size v s = ground arith

-- A history of allocations, of which those that fail leave no block; newest block first.
abbrev pub keep :
    ShmAllocator → List (ℕ × ℕ) → ℕ → Option (ℕ × ShmAllocator) → ShmAllocator × List (ℕ × ℕ)
keep a blocks size none = (a, blocks)
keep a blocks size (some (addr, a')) = (a', (addr, size) ∷ blocks)

pub allocs : ShmAllocator → List (ℕ × ℕ) → List ℕ → ShmAllocator × List (ℕ × ℕ)
allocs a blocks [] = (a, blocks)
allocs a blocks (size ∷ sizes) = let r = keep a blocks size (alloc a size) in allocs r.0 r.1 sizes

-- The blocks fill the first `top` bytes at `base`, one behind the other with no gap.
abbrev pub Packed : ℕ → ℕ → List (ℕ × ℕ) → Type 0
Packed base top [] = top ≡ 0
Packed base top ((addr, size) ∷ blocks) =
    (start : ℕ) × (addr ≡ base + start) × (start + size ≡ top) × Packed base start blocks

abbrev pub Sizes : List ℕ → Type 0
Sizes [] = Unit
Sizes (size ∷ sizes) = (size < 2 ^ 63) × Sizes sizes

-- The allocator keeps its base and its size, and its blocks are packed below its offset.
abbrev pub Holds : ℕ → ℕ → ShmAllocator × List (ℕ × ℕ) → Type 0
Holds base size (a, blocks) =
    (a.base_addr ≡ base) × (a.max_size ≡ size) × IsSound a × Packed base a.curr_offset blocks

alloc-Holds :
    (base m : ℕ) (a : ShmAllocator) (blocks : List (ℕ × ℕ)) (size : ℕ)
    → size < 2 ^ 63
    → Holds base m (a, blocks)
    → Holds base m (keep a blocks size (alloc a size))
alloc-Holds base m a blocks size s (b, e, v, p) =
    elim (Bool-cases (ltb a.max_size (a.curr_offset + size))) [
      | inl full ↦ rw (alloc_lem a size v s, full) (b, e, v, p)
      | inr fits ↦
          rw (alloc_lem a size v s, fits)
            (
              b,
              e,
              record { small = v.small; inside = ground arith },
              (a.curr_offset, ap (λ x. x + a.curr_offset) b, refl, p),
            )
    ]

allocs-Holds :
    (base m : ℕ) (a : ShmAllocator) (blocks : List (ℕ × ℕ)) (sizes : List ℕ)
    → Sizes sizes
    → Holds base m (a, blocks)
    → Holds base m (allocs a blocks sizes)
unfolding allocs
allocs-Holds base m a blocks [] s h = h
allocs-Holds base m a blocks (size ∷ sizes) s h =
    let r = keep a blocks size (alloc a size) in
    allocs-Holds base m r.0 r.1 sizes s.1 (alloc-Holds base m a blocks size s.0 h)

-- For any history of requests of less than 2 ^ 63 bytes each, of a new allocator over a memory of
-- less than 2 ^ 31 bytes, the blocks are packed into the memory: none overlaps another, and none
-- reaches past the end. A greater request may wrap around, which is not covered.
pub allocs-Packed :
    (base m : ℕ) (sizes : List ℕ)
    → m < 2 ^ 31
    → Sizes sizes
    → let r = allocs (new_allocator base m) [] sizes in
      Packed base r.0.curr_offset r.1 × (r.0.curr_offset ≤ m)
allocs-Packed base m sizes h s =
    let r =
      allocs-Holds base m (new_allocator base m) [] sizes s
        (refl, refl, new_allocator-IsSound base m h, refl) in
    (r.3, omega (arith, r.1, r.2.inside))

-- The used and the unused part of the memory are the whole of it.
pub buffers_split :
    (a : ShmAllocator)
    → IsSound a
    → (remaining_mem_buf a).0 ≡ (utilized_mem_buf a).0 + (utilized_mem_buf a).1
      × ((utilized_mem_buf a).1 + (remaining_mem_buf a).1 ≡ a.max_size)
unfolding remaining_mem_buf utilized_mem_buf
buffers_split a v = ground arith

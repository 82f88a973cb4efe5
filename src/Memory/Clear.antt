-- ===== src/Memory/Clear.antt =====
-- Filling loops against their specification.
use blesk_os_fork.Base.{
  ℕ, zero, suc, ◌+◌, ◌*◌, ◌/◌, ◌%◌, ◌^◌, ◌≤◌, ◌<◌, ◌≡◌, ◌&&◌, ltb, leb, if◌then◌else◌, arith, u8,
  ◌-◌,
}
use blesk_os_fork.Memory.{
  Memory, store, store_dword, fill_bytes, clear_dwords, clear_memory, cmem, cmem_aligned, memset,
}

-- `m` with the bytes from `lo` to `lo + n - 1` set to `v`.
abbrev pub filled : ℕ → ℕ → ℕ → Memory → Memory
filled lo n v m a = if leb lo a && ltb a (lo + n) then v else m a

pub fill_bytes-filled :
    (n p v : ℕ) (m : Memory) (a : ℕ)
    → p + n ≤ 2 ^ 32
    → a < 2 ^ 32
    → fill_bytes n p v m a ≡ filled p n v m a
unfolding fill_bytes
fill_bytes-filled zero p v m a h ha = ground arith
fill_bytes-filled (suc n) p v m a h ha =
    ground (arith, fill_bytes-filled n (p + 1) v (store m p v) a)

clear_dwords-filled :
    (n p : ℕ) (m : Memory) (a : ℕ)
    → p + 4 * n ≤ 2 ^ 32
    → a < 2 ^ 32
    → clear_dwords n p m a ≡ filled p (4 * n) 0 m a
unfolding clear_dwords
clear_dwords-filled zero p m a h ha = ground arith
clear_dwords-filled (suc n) p m a h ha =
    ground (arith, clear_dwords-filled n (p + 4) (store_dword m p 0 0 0 0) a)

-- `clear_memory` zeroes exactly the `size` bytes from `memory` on.
pub clear_memory-filled :
    (memory size : ℕ) (m : Memory) (a : ℕ)
    → memory + size ≤ 2 ^ 32
    → a < 2 ^ 32
    → clear_memory memory size m a ≡ filled memory size 0 m a
unfolding clear_memory
clear_memory-filled memory size m a h ha = ground (
  arith,
  fill_bytes-filled (size % 4) (memory + 4 * (size / 4)) 0 (clear_dwords (size / 4) memory m) a,
  clear_dwords-filled (size / 4) memory m a,
)

cmem_aligned-filled :
    (mem k size : ℕ) (m : Memory) (a : ℕ)
    → mem + k + size ≤ 2 ^ 32
    → a < 2 ^ 32
    → cmem_aligned mem k size m a ≡ filled mem (k + size) 0 m a
unfolding cmem_aligned
cmem_aligned-filled mem k size m a h ha = ground (
  arith,
  fill_bytes-filled (size % 4) (mem + k + 4 * (size / 4)) 0
      (clear_dwords (size / 4) (mem + k) (fill_bytes k mem 0 m)) a,
  clear_dwords-filled (size / 4) (mem + k) (fill_bytes k mem 0 m) a,
  fill_bytes-filled k mem 0 m a,
)

-- `cmem` zeroes exactly the `size` bytes from `mem` on, however `mem` is aligned, if they do not
-- run past the end of the address space.
pub cmem-filled :
    (mem size : ℕ) (m : Memory) (a : ℕ)
    → mem + size ≤ 2 ^ 32
    → a < 2 ^ 32
    → cmem mem size m a ≡ filled mem size 0 m a
unfolding cmem
cmem-filled mem size m a h ha = ground (
  arith,
  fill_bytes-filled size mem 0 m a,
  cmem_aligned-filled mem (4 - mem % 4) (size - (4 - mem % 4)) m a,
  cmem_aligned-filled mem 0 size m a,
)

-- `memset` writes the low byte of `value` to exactly the `num` bytes from `ptr` on.
pub memset-filled :
    (ptr value num : ℕ) (m : Memory) (a : ℕ)
    → ptr + num ≤ 2 ^ 32
    → a < 2 ^ 32
    → memset ptr value num m a ≡ filled ptr num (u8 value) m a
unfolding memset
memset-filled ptr value num m a h ha = fill_bytes-filled num ptr (u8 value) m a h ha

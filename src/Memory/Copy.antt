-- ===== src/Memory/Copy.antt =====
-- Copying loops against their specification, overlapping areas included.
use blesk_os_fork.Base.{
  ℕ, zero, suc, ◌+◌, ◌-◌, ◌*◌, ◌/◌, ◌%◌, ◌^◌, ◌≤◌, ◌<◌, ◌≡◌, ◌⊎◌, ◌&&◌, ltb, leb, if◌then◌else◌,
  arith,
}
use blesk_os_fork.Memory.{
  Memory, load, store, move_dword, copy_bytes, copy_dwords, copy_memory, before, copy_memory_back,
  copy_down, memmove,
}

-- `m` with the `n` bytes at `d` replaced by what `m` holds at `s`.
abbrev pub copied : ℕ → ℕ → ℕ → Memory → Memory
copied s d n m a = if leb d a && ltb a (d + n) then m (s + (a - d)) else m a

-- Copying upwards is safe: the target starts below the source, or behind its end.
abbrev pub IsUpward : ℕ → ℕ → ℕ → Type 0
IsUpward s d n = (d ≤ s) ⊎ (s + n ≤ d)

pub copy_bytes-copied :
    (n s d : ℕ) (m : Memory) (a : ℕ)
    → s + n ≤ 2 ^ 32
    → d + n ≤ 2 ^ 32
    → a < 2 ^ 32
    → IsUpward s d n
    → copy_bytes n s d m a ≡ copied s d n m a
unfolding copy_bytes
copy_bytes-copied zero s d m a hs hd ha up = ground arith
copy_bytes-copied (suc n) s d m a hs hd ha up =
    ground (arith, copy_bytes-copied n (s + 1) (d + 1) (store m d (load m s)) a)

copy_dwords-copied :
    (n s d : ℕ) (m : Memory) (a : ℕ)
    → s + 4 * n ≤ 2 ^ 32
    → d + 4 * n ≤ 2 ^ 32
    → a < 2 ^ 32
    → IsUpward s d (4 * n)
    → copy_dwords n s d m a ≡ copied s d (4 * n) m a
unfolding copy_dwords
copy_dwords-copied zero s d m a hs hd ha up = ground arith
copy_dwords-copied (suc n) s d m a hs hd ha up =
    ground (arith, copy_dwords-copied n (s + 4) (d + 4) (move_dword m s d) a)

-- `copy_memory` copies exactly `size` bytes, by dwords and then by bytes, where the target starts
-- below the source or behind its end.
pub copy_memory-copied :
    (s d size : ℕ) (m : Memory) (a : ℕ)
    → s + size ≤ 2 ^ 32
    → d + size ≤ 2 ^ 32
    → a < 2 ^ 32
    → IsUpward s d size
    → copy_memory s d size m a ≡ copied s d size m a
unfolding copy_memory
copy_memory-copied s d size m a hs hd ha up =
    let q = size / 4 in
    ground (
      arith,
      copy_bytes-copied (size % 4) (s + 4 * q) (d + 4 * q) (copy_dwords q s d m) a,
      copy_dwords-copied q s d m a,
      copy_dwords-copied q s d m (s + 4 * q + (a - (d + 4 * q))),
    )

-- The pointer to the last of `n` bytes at `p`, with the wrap of `n = 0`.
abbrev pub last_of : ℕ → ℕ → ℕ
last_of p n = before (p + n)

-- Copying downwards from the last byte is safe where the target starts above the source.
pub copy_memory_back-copied :
    (n s d : ℕ) (m : Memory) (a : ℕ)
    → s ≤ d
    → d + n ≤ 2 ^ 32
    → a < 2 ^ 32
    → copy_memory_back (last_of s n) (last_of d n) n m a ≡ copied s d n m a
unfolding copy_memory_back
copy_memory_back-copied zero s d m a h hd ha = ground arith
copy_memory_back-copied (suc n) s d m a h hd ha =
    let es : last_of s (suc n) ≡ s + n = omega arith in
    let ed : last_of d (suc n) ≡ d + n = omega arith in
    rw (es, ed) (ground (arith, copy_memory_back-copied n s d (store m (d + n) (load m (s + n))) a))

copy_down-copied :
    (n s d : ℕ) (m : Memory) (a : ℕ)
    → s ≤ d
    → d + n ≤ 2 ^ 32
    → a < 2 ^ 32
    → copy_down n s d m a ≡ copied s d n m a
unfolding copy_down
copy_down-copied zero s d m a h hd ha = ground arith
copy_down-copied (suc n) s d m a h hd ha =
    ground (arith, copy_down-copied n s d (store m (d + n) (load m (s + n))) a)

-- `memmove` copies exactly `num` bytes, also where the two areas overlap in either direction.
pub memmove-copied :
    (d s num : ℕ) (m : Memory) (a : ℕ)
    → s + num ≤ 2 ^ 32
    → d + num ≤ 2 ^ 32
    → a < 2 ^ 32
    → memmove d s num m a ≡ copied s d num m a
unfolding memmove
memmove-copied d s num m a hs hd ha =
    ground (arith, copy_down-copied num s d m a, copy_bytes-copied num s d m a)

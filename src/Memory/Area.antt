-- ===== src/Memory/Area.antt =====
-- `add_space_to_memory_area` and `remove_space_from_memory_area` against what they do to the area.
use blesk_os_fork.Base.{ℕ, ◌+◌, ◌-◌, ◌^◌, ◌≤◌, ◌<◌, ◌≡◌, ◌⊎◌, ◌&&◌, ltb, leb, if◌then◌else◌, arith}
use blesk_os_fork.Memory.{
  Memory, copy_memory, copy_memory_back, add_space_to_memory_area, remove_space_from_memory_area,
}
use blesk_os_fork.Memory.Clear.{clear_memory-filled}
use blesk_os_fork.Memory.Copy.{copy_memory-copied, copy_memory_back-copied, last_of}

-- The area `[lo, hi)` of `m` with `n` bytes cut out at `p`: what stands behind moves down, and the
-- area's last `n` bytes are 0.
abbrev pub removed : ℕ → ℕ → ℕ → Memory → Memory
removed hi p n m a =
    if leb p a && ltb a (hi - n) then m (a + n) else if leb (hi - n) a && ltb a hi then 0 else m a

-- The area with `n` zero bytes put in at `p`: what stands behind moves up, and its last `n` bytes
-- drop out.
abbrev pub added : ℕ → ℕ → ℕ → Memory → Memory
added hi p n m a =
    if leb p a && ltb a (p + n) then 0 else if leb (p + n) a && ltb a hi then m (a - n) else m a

-- `remove_space_from_memory_area` cuts exactly the given space out of an area that holds it, and
-- changes no byte outside the area.
pub remove_space-removed :
    (start size p n : ℕ) (m : Memory) (a : ℕ)
    → start + size < 2 ^ 32
    → start ≤ p
    → p + n ≤ start + size
    → a < 2 ^ 32
    → remove_space_from_memory_area start size p n m a ≡ removed (start + size) p n m a
unfolding remove_space_from_memory_area
remove_space-removed start size p n m a h lo hi ha =
    let end = start + size in
    ground (
      arith,
      clear_memory-filled (end - n) n m a,
      clear_memory-filled (end - n) n (copy_memory (p + n) p (end - (p + n)) m) a,
      copy_memory-copied (p + n) p (end - (p + n)) m a,
    )

-- A space that does not lie in the area changes nothing.
pub spaces_outside :
    (start size p n : ℕ) (m : Memory)
    → start + size < 2 ^ 32
    → p + n < 2 ^ 32
    → (p < start) ⊎ (start + size < p + n)
    → (remove_space_from_memory_area start size p n m ≡ m)
      × (add_space_to_memory_area start size p n m ≡ m)
unfolding remove_space_from_memory_area add_space_to_memory_area
spaces_outside start size p n m h k out = ground arith

-- `add_space_to_memory_area` opens exactly the given space in an area that holds it, and changes
-- no byte outside the area, if the space is not longer than what precedes it in memory.
pub add_space-added :
    (start size p n : ℕ) (m : Memory) (a : ℕ)
    → start + size < 2 ^ 32
    → start ≤ p
    → p + n ≤ start + size
    → 0 < n
    → n ≤ p + 1
    → a < 2 ^ 32
    → add_space_to_memory_area start size p n m a ≡ added (start + size) p n m a
unfolding add_space_to_memory_area
add_space-added start size p n m a h lo hi pos low ha =
    let end = start + size in
    ground (
      arith,
      clear_memory-filled p n m a,
      clear_memory-filled p n
          (copy_memory_back (last_of (p + 1 - n) (end - p - 1)) (last_of (p + 1) (end - p - 1))
            (end - p - 1) m)
          a,
      copy_memory_back-copied (end - p - 1) (p + 1 - n) (p + 1) m a,
    )

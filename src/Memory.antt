-- ===== src/Memory.antt =====
-- source/libraries/basic/c_library.c, and the two functions of strings.c that move memory areas.
-- The memory is a function from a 32-bit address to a byte; pointers count on without bound and
-- wrap where they are read or written.
use blesk_os_fork.Base.{
  ℕ, zero, suc, ◌+◌, ◌-◌, ◌*◌, ◌/◌, ◌%◌, ◌^◌, Bool, ◌&&◌, ◌||◌, ltb, leb, ◌==◌, not, if◌then◌else◌,
  u8, u32,
}
pub mod Clear
pub mod Copy
pub mod Area
pub mod Holds
mod Tests

abbrev pub Memory : Type 0
Memory = ℕ → ℕ

abbrev pub load : Memory → ℕ → ℕ
load m p = m (u32 p)

abbrev pub store : Memory → ℕ → ℕ → Memory
store m p v a = if a == u32 p then v else m a

-- A dword store: the four bytes at `p`.
abbrev pub store_dword : Memory → ℕ → ℕ → ℕ → ℕ → ℕ → Memory
store_dword m p b0 b1 b2 b3 = store (store (store (store m p b0) (p + 1) b1) (p + 2) b2) (p + 3) b3

-- `*destination32 = *source32`: four bytes are read, then written.
abbrev pub move_dword : Memory → ℕ → ℕ → Memory
move_dword m s d = store_dword m d (load m s) (load m (s + 1)) (load m (s + 2)) (load m (s + 3))

-- `*p = value; p++`, n times.
pub fill_bytes : ℕ → ℕ → ℕ → Memory → Memory
fill_bytes zero p v m = m
fill_bytes (suc n) p v m = fill_bytes n (p + 1) v (store m p v)

-- `*p = 0; p++` for a dword pointer, n times.
pub clear_dwords : ℕ → ℕ → Memory → Memory
clear_dwords zero p m = m
clear_dwords (suc n) p m = clear_dwords n (p + 4) (store_dword m p 0 0 0 0)

pub clear_memory : ℕ → ℕ → Memory → Memory
clear_memory memory size m =
    fill_bytes (size % 4) (memory + 4 * (size / 4)) 0 (clear_dwords (size / 4) memory m)

-- The part of `cmem` after the alignment is known: `size` is what is left after it.
pub cmem_aligned : ℕ → ℕ → ℕ → Memory → Memory
cmem_aligned mem bytes_to_align size m =
    let aligned = mem + bytes_to_align in
    let dwords = size / 4 in
    fill_bytes (size % 4) (aligned + 4 * dwords) 0
      (clear_dwords dwords aligned (fill_bytes bytes_to_align mem 0 m))

pub cmem : ℕ → ℕ → Memory → Memory
cmem mem size m =
    if ltb size 7
    then fill_bytes size mem 0 m
    else (let bytes_to_align = 4 - mem % 4 in
        if not (bytes_to_align == 4)
        then cmem_aligned mem bytes_to_align (size - bytes_to_align) m
        else cmem_aligned mem 0 size m)

-- `*destination8 = *source8`, both pointers going up.
pub copy_bytes : ℕ → ℕ → ℕ → Memory → Memory
copy_bytes zero s d m = m
copy_bytes (suc n) s d m = copy_bytes n (s + 1) (d + 1) (store m d (load m s))

pub copy_dwords : ℕ → ℕ → ℕ → Memory → Memory
copy_dwords zero s d m = m
copy_dwords (suc n) s d m = copy_dwords n (s + 4) (d + 4) (move_dword m s d)

pub copy_memory : ℕ → ℕ → ℕ → Memory → Memory
copy_memory source destination size m =
    let q = size / 4 in
    copy_bytes (size % 4) (source + 4 * q) (destination + 4 * q)
      (copy_dwords q source destination m)

-- A pointer that counts down wraps at 0.
abbrev pub before : ℕ → ℕ
before p = u32 (p + (2 ^ 32 - 1))

-- The loop of `copy_memory_back`: both pointers going down.
pub copy_memory_back : ℕ → ℕ → ℕ → Memory → Memory
copy_memory_back s d zero m = m
copy_memory_back s d (suc n) m = copy_memory_back (before s) (before d) n (store m d (load m s))

-- `dest[i - 1] = src[i - 1]` for `i` from `num` down to 1.
pub copy_down : ℕ → ℕ → ℕ → Memory → Memory
copy_down zero src dest m = m
copy_down (suc n) src dest m = copy_down n src dest (store m (dest + n) (load m (src + n)))

pub memcpy : ℕ → ℕ → ℕ → Memory → Memory
memcpy destination source num m = copy_bytes num source destination m

-- `(char) value` keeps the low byte.
pub memset : ℕ → ℕ → ℕ → Memory → Memory
memset ptr value num m = fill_bytes num ptr (u8 value) m

pub memmove : ℕ → ℕ → ℕ → Memory → Memory
memmove destination source num m =
    if ltb source destination && ltb destination (u32 (source + num))
    then copy_down num source destination m
    else copy_bytes num source destination m

pub add_space_to_memory_area : ℕ → ℕ → ℕ → ℕ → Memory → Memory
add_space_to_memory_area area_start area_size space_start space_size m =
    let area_end = u32 (area_start + area_size) in
    let space_end = u32 (space_start + space_size) in
    if ltb space_start area_start || ltb area_end space_end
    then m
    else clear_memory space_start space_size (
        if ltb space_end area_end
        then copy_memory_back (u32 (area_end + 2 ^ 32 - space_size + 2 ^ 32 - 1)) (before area_end)
            (u32 (area_end + 2 ^ 32 - space_start + 2 ^ 32 - 1)) m
        else m)

pub remove_space_from_memory_area : ℕ → ℕ → ℕ → ℕ → Memory → Memory
remove_space_from_memory_area area_start area_size space_start space_size m =
    let area_end = u32 (area_start + area_size) in
    let space_end = u32 (space_start + space_size) in
    if ltb space_start area_start || ltb area_end space_end
    then m
    else clear_memory (u32 (area_end + 2 ^ 32 - space_size)) space_size (
        if ltb space_end area_end
        then copy_memory space_end space_start (area_end - space_end) m
        else m)

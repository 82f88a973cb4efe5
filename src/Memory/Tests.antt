-- ===== src/Memory/Tests.antt =====
-- Runs of the memory routines, and their theorems at concrete areas.
use blesk_os_fork.Base.{◌+◌, ◌≡◌, refl, arith, u8}
use blesk_os_fork.Memory.{
  Memory, clear_memory, copy_memory, memmove, add_space_to_memory_area,
  remove_space_from_memory_area, fill_bytes, clear_dwords, copy_bytes, copy_dwords, copy_down,
}
use blesk_os_fork.Memory.Area.{removed, added, remove_space-removed, add_space-added}
use blesk_os_fork.Memory.Copy.{copied, memmove-copied}

-- Every address holds its own low byte.
abbrev ramp : Memory
ramp a = u8 a

memmove_runs : memmove 0x104 0x100 8 ramp 0x10b ≡ 7
unfolding memmove copy_down
memmove_runs = refl

remove_runs : remove_space_from_memory_area 0x10 0x10 0x14 4 ramp 0x14 ≡ 0x18
unfolding remove_space_from_memory_area copy_memory copy_dwords copy_bytes clear_memory clear_dwords
    fill_bytes
remove_runs = refl

memmove-copied_example : memmove 0x104 0x100 8 ramp 0x10b ≡ copied 0x100 0x104 8 ramp 0x10b
memmove-copied_example =
    memmove-copied 0x104 0x100 8 ramp 0x10b (omega arith) (omega arith) (omega arith)

remove_space-removed_example :
    remove_space_from_memory_area 0x10 0x10 0x14 4 ramp 0x16
    ≡ removed (0x10 + 0x10) 0x14 4 ramp 0x16
remove_space-removed_example =
    remove_space-removed 0x10 0x10 0x14 4 ramp 0x16 (omega arith) (omega arith) (omega arith)
      (omega arith)

add_space-added_example :
    add_space_to_memory_area 0x10 0x10 0x14 4 ramp 0x1a ≡ added (0x10 + 0x10) 0x14 4 ramp 0x1a
add_space-added_example =
    add_space-added 0x10 0x10 0x14 4 ramp 0x1a (omega arith) (omega arith) (omega arith)
      (omega arith) (omega arith) (omega arith)

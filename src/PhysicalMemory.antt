-- ===== src/PhysicalMemory.antt =====
-- source/drivers/system/memory/physical_memory.c and the sizes of ram.c: the memory map of the BIOS,
-- and the allocator that is made of it.
use blesk_os_fork.Base.{
  ℕ, zero, suc, ◌+◌, ◌-◌, ◌*◌, ◌%◌, ◌^◌, Bool, ◌&&◌, not, ltb, leb, ◌==◌, if◌then◌else◌, List, [],
  ◌∷◌, set, u32, add32, sub32, ◌>>◌,
}
use blesk_os_fork.Allocator.Table.{
  Entry, Allocator, entry_at, initalize_memory_allocator, allocator_update_biggest_entries_pointers,
}
pub mod Create
mod Tests

-- `struct bios_memory_table_entry_t`; `memory` and `size` have 64 bits.
pub record MapEntry : Type 0 where
  pub memory : ℕ
  pub size : ℕ
  pub type : ℕ

abbrev pub bios_memory_entry_type_free : ℕ
bios_memory_entry_type_free = 1

abbrev pub u64 : ℕ → ℕ
u64 n = n % 2 ^ 64

-- `get_size_of_memory_allocator`
abbrev pub get_size_of_memory_allocator : ℕ → ℕ
get_size_of_memory_allocator n = 24 + 16 * 2 * n

abbrev pub has_room : ℕ → MapEntry → Bool
has_room size e = e.type == bios_memory_entry_type_free && leb 0x100000 e.memory && leb size e.size

abbrev pub cut : ℕ → MapEntry → MapEntry
cut size e = record e { memory = u64 (e.memory + size); size = e.size - size }

-- The search of `memory_table_alloc`: the pointer, and the memory table that is left.
unfoldable pub cut_first : ℕ → List MapEntry → ℕ × List MapEntry
cut_first size [] = (0, [])
cut_first size (e ∷ es) =
    let rest = cut_first size es in
    if has_room size e then (u32 e.memory, cut size e ∷ es) else (rest.0, e ∷ rest.1)

unfoldable pub memory_table_alloc : ℕ → List MapEntry → ℕ × List MapEntry
memory_table_alloc size es = if size == 0 then (0, es) else cut_first size es

abbrev pub is_listed : MapEntry → Bool
is_listed e =
    e.type == bios_memory_entry_type_free
    && leb 0x100000 e.memory
    && ltb e.memory 0xFFFFE000
    && leb 8192 e.size

-- The start of the block is rounded up to a page, and its end down.
unfoldable pub entry_start : MapEntry → ℕ
entry_start e =
    let start = u32 e.memory in
    if not (start % 4096 == 0) then u32 (start - start % 4096 + 4096) else start

unfoldable pub entry_end : MapEntry → ℕ
entry_end e =
    let end = u32 (u64 (e.memory + e.size)) in
    if not (e.memory >> 32 == 0)
    then 0xFFFFF000
    else if not (end % 4096 == 0)
    then end - end % 4096
    else end

-- The entry that is written over what stood there; its padding stays.
unfoldable pub block_of : Entry → MapEntry → Entry
block_of old e = record old {
  start_of_memory = entry_start e;
  size_of_memory = sub32 (entry_end e) (entry_start e);
  end_of_memory = entry_end e;
}

unfoldable pub add_map_entry : Allocator → MapEntry → Allocator
add_map_entry a e =
    if is_listed e
    then record a {
      entries =
          set a.entries a.first_available_free_entry
            (block_of (entry_at a.entries a.first_available_free_entry) e);
      first_available_free_entry = add32 a.first_available_free_entry 1;
    }
    else a

-- The loop over the memory table.
unfoldable pub add_map_entries : Allocator → List MapEntry → Allocator
add_map_entries a [] = a
add_map_entries a (e ∷ es) = add_map_entries (add_map_entry a e) es

-- `create_physical_memory_allocator`: `a` is what the memory of the allocator held before. The result
-- is the address of the allocator, and the allocator.
unfoldable pub create_physical_memory_allocator : Allocator → List MapEntry → ℕ × Allocator
create_physical_memory_allocator a es =
    let (address, left) = memory_table_alloc (get_size_of_memory_allocator 10000) es in
    (
      address,
      allocator_update_biggest_entries_pointers
          (add_map_entries (initalize_memory_allocator a 10000) left),
    )

pub record RamInfo : Type 0 where
  pub full_memory_size : ℕ
  pub free_memory_size : ℕ
  pub available_free_memory_size : ℕ

abbrev pub add_to_ram_info : MapEntry → RamInfo → RamInfo
add_to_ram_info e r = record r {
  full_memory_size = u64 (r.full_memory_size + e.size);
  free_memory_size =
      if e.type == bios_memory_entry_type_free
      then u64 (r.free_memory_size + e.size)
      else r.free_memory_size;
}

unfoldable pub add_all_to_ram_info : List MapEntry → RamInfo → RamInfo
add_all_to_ram_info [] r = r
add_all_to_ram_info (e ∷ es) r = add_all_to_ram_info es (add_to_ram_info e r)

unfoldable pub read_ram_info : List MapEntry → RamInfo → RamInfo
read_ram_info es r =
    let s = add_all_to_ram_info es r in
    record s {
      available_free_memory_size =
          if ltb 0xFFFFFFFF s.free_memory_size then 0xFFFFFFFF else u32 s.free_memory_size;
    }

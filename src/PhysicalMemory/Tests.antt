-- ===== src/PhysicalMemory/Tests.antt =====
-- A memory map with a low, a usable and a reserved entry.
use blesk_os_fork.Base.{
  ℕ, ◌≡◌, refl, arith, List, [], ◌∷◌, replicate, get_or, length-replicate, zero, suc, ap,
}
use blesk_os_fork.Allocator.Rank.{IsRanked}
use blesk_os_fork.Allocator.Table.{Entry, Allocator, empty_entry}
use blesk_os_fork.Allocator.Valid.{IsBlock}
use blesk_os_fork.PhysicalMemory.{
  MapEntry, block_of, memory_table_alloc, cut_first, create_physical_memory_allocator,
  get_size_of_memory_allocator,
}
use blesk_os_fork.PhysicalMemory.Create.{
  AllFit, IsBlank, IsFilling, count_listed, create_physical_memory_allocator-IsValid,
  block_of_wraps,
}

abbrev map_entry : ℕ → ℕ → ℕ → MapEntry
map_entry memory size type = record { memory = memory; size = size; type = type }

abbrev bios_map : List MapEntry
bios_map =
    map_entry 0 0x9FC00 1 ∷ map_entry 0x100000 0x7F00000 1 ∷ map_entry 0xFFFC0000 0x40000 2 ∷ []

abbrev blank : Allocator
blank = record {
  first_used_entry = 0;
  last_entry = 0;
  biggest_free_entry = 0;
  second_biggest_free_entry = 0;
  first_available_free_entry = 0;
  first_available_used_entry = 0;
  entries = replicate 20000 empty_entry;
}

get_or-replicate : (n k : ℕ) → get_or (replicate n empty_entry) k empty_entry ≡ empty_entry
get_or-replicate zero k = refl
get_or-replicate (suc n) zero = refl
get_or-replicate (suc n) (suc k) = get_or-replicate n k

blank-IsBlank : IsBlank blank
blank-IsBlank = record {
  room = length-replicate 20000 empty_entry;
  no_start = λ k. ap (λ (e : Entry). e.start_of_memory) (get_or-replicate 20000 k);
  no_end = λ k. ap (λ (e : Entry). e.end_of_memory) (get_or-replicate 20000 k);
}

create_physical_memory_allocator-IsValid_example :
    let c = (create_physical_memory_allocator blank bios_map).1 in
    IsFilling c
    × IsRanked c
    × (c.first_available_free_entry
        ≡ count_listed (memory_table_alloc (get_size_of_memory_allocator 10000) bios_map).1)
unfolding AllFit count_listed memory_table_alloc cut_first
create_physical_memory_allocator-IsValid_example =
    create_physical_memory_allocator-IsValid blank bios_map blank-IsBlank
      (λ h. omega arith, (λ h. omega arith, (λ h. absurd (ground (arith, h)), omega arith)))
      (omega arith) (omega arith)

-- 2 GB from 3 GB on
block_of_wraps_example : ¬ IsBlock (block_of empty_entry (map_entry 0xC0000000 0x80000000 1))
block_of_wraps_example =
    block_of_wraps empty_entry (map_entry 0xC0000000 0x80000000 1) refl (omega arith) (omega arith)

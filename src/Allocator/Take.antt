-- ===== src/Allocator/Take.antt =====
-- What `ma_malloc` and `ma_fixed_calloc` do to the table.
use blesk_os_fork.Base.{
  ℕ, zero, suc, ◌+◌, ◌-◌, ◌%◌, Bool, ◌&&◌, ◌||◌, List, ltb, leb, ◌==◌, not, if◌then◌else◌, set,
  add32, sub32, dec32, u32,
}
use blesk_os_fork.Allocator.Table.{Entry, Allocator, no_entry, entry_at, size_at, remove_entry}

-- The size in whole pages; it wraps to 0 for the last page of the address space.
unfoldable pub page_size : ℕ → ℕ
page_size size = if not (size % 4096 == 0) then u32 (size - size % 4096 + 4096) else size

-- The test before an allocation of `size` bytes.
unfoldable pub is_refused : Allocator → ℕ → Bool
is_refused a size =
    size == 0
    || ltb (size_at a a.biggest_free_entry) size
    || leb a.last_entry a.first_available_used_entry

-- The first `size` bytes of the biggest free block are cut off.
unfoldable pub cut_biggest : Allocator → ℕ → Allocator
cut_biggest a size =
    let e = entry_at a.entries a.biggest_free_entry in
    record a {
      entries = set a.entries a.biggest_free_entry (record e {
        start_of_memory = add32 e.start_of_memory size;
        size_of_memory = sub32 e.size_of_memory size;
      });
    }

-- The new entry of the used half. Its padding is not written.
unfoldable pub add_used_entry : Allocator → ℕ → ℕ → Allocator
add_used_entry a memory size =
    let i = a.first_available_used_entry in
    record a {
      entries = set a.entries i (record (entry_at a.entries i) {
        start_of_memory = memory;
        size_of_memory = size;
        end_of_memory = add32 memory size;
      });
      first_available_used_entry = add32 i 1;
    }

-- The search for the second biggest block, from index `i` on with `n` rounds left: the index and the
-- size found so far are `second` and `size`.
unfoldable pub find_second : ℕ → ℕ → List Entry → ℕ → ℕ → ℕ → ℕ
find_second zero i es biggest second size = second
find_second (suc n) i es biggest second size =
    let found = not (i == biggest) && ltb size (entry_at es i).size_of_memory in
    find_second n (i + 1) es biggest (if found then i else second)
      (if found then (entry_at es i).size_of_memory else size)

-- The pointers to the biggest blocks after the biggest one shrank to `new_size` bytes.
unfoldable pub update_pointers : Allocator → ℕ → Allocator
update_pointers a new_size =
    let second = a.second_biggest_free_entry in
    if not (second == no_entry) && ltb new_size (size_at a second)
    then record a {
      biggest_free_entry = second;
      second_biggest_free_entry =
          find_second a.first_available_free_entry 0 a.entries second no_entry 0;
    }
    else a

-- The removal of a block that was allocated as a whole. The entry that goes is the one that
-- `biggest_free_entry` names by now.
unfoldable pub remove_exhausted : Allocator → ℕ → ℕ → Allocator
remove_exhausted a original new_size =
    if new_size == 0
    then (let biggest = a.biggest_free_entry in
        let second = a.second_biggest_free_entry in
        record a {
          entries = remove_entry 0 a.first_used_entry biggest a.entries;
          first_available_free_entry = dec32 a.first_available_free_entry;
          biggest_free_entry = if ltb original biggest then dec32 biggest else biggest;
          second_biggest_free_entry =
              if not (second == no_entry) && ltb original second then dec32 second else second;
        })
    else a

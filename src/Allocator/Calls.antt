-- ===== src/Allocator/Calls.antt =====
-- The calls of the allocator: the table together with the memory that they clear and copy. `none`
-- is the undefined access to `entries[0xFFFFFFFF]` when no block was ever recorded as the biggest.
use blesk_os_fork.Base.{
  ℕ, ◌||◌, ltb, leb, ◌==◌, if◌then◌else◌, Option, none, some, set, add32, sub32,
}
use blesk_os_fork.Allocator.Give.{used_entry_of, ma_free}
use blesk_os_fork.Allocator.Table.{Allocator, no_entry, entry_at}
use blesk_os_fork.Allocator.Take.{
  page_size, is_refused, cut_biggest, add_used_entry, update_pointers, remove_exhausted,
}
use blesk_os_fork.Memory.{Memory, cmem, copy_memory}

pub record System : Type 0 where
  pub allocator : Allocator
  pub memory : Memory

-- The pointer that a call returns (0 is its failure) and the system that it leaves.
abbrev pub Outcome : Type 0
Outcome = Option (ℕ × System)

-- The start of the biggest free block, and the size that it has left after `size` bytes are cut off.
abbrev pub biggest_start : Allocator → ℕ
biggest_start a = (entry_at a.entries a.biggest_free_entry).start_of_memory

abbrev pub rest_size : Allocator → ℕ → ℕ
rest_size a size = sub32 (entry_at a.entries a.biggest_free_entry).size_of_memory size

-- The table after `ma_fixed_calloc` took `size` bytes, which no used entry records.
unfoldable pub take_fixed : Allocator → ℕ → Allocator
take_fixed a size =
    remove_exhausted (update_pointers (cut_biggest a size) (rest_size a size)) a.biggest_free_entry
      (rest_size a size)

-- The table after `ma_malloc` took `size` bytes.
unfoldable pub take : Allocator → ℕ → Allocator
take a size =
    remove_exhausted
      (update_pointers (add_used_entry (cut_biggest a size) (biggest_start a) size)
        (rest_size a size))
      a.biggest_free_entry (rest_size a size)

unfoldable pub ma_fixed_calloc : System → ℕ → Outcome
ma_fixed_calloc s bytes =
    let a = s.allocator in
    let size = page_size bytes in
    if is_refused a size
    then some (0, s)
    else (if a.biggest_free_entry == no_entry
        then none
        else some (
          biggest_start a,
          record { allocator = take_fixed a size; memory = cmem (biggest_start a) size s.memory },
        ))

-- Only the last page is cleared.
unfoldable pub ma_malloc : System → ℕ → Outcome
ma_malloc s bytes =
    let a = s.allocator in
    let size = page_size bytes in
    if is_refused a size
    then some (0, s)
    else (if a.biggest_free_entry == no_entry
        then none
        else some (
          biggest_start a,
          record {
            allocator = take a size;
            memory = cmem (sub32 (add32 (biggest_start a) size) 0x1000) 0x1000 s.memory;
          },
        ))

-- The memory is cleared at the returned pointer, also when that is 0.
unfoldable pub ma_calloc : System → ℕ → Outcome
ma_calloc s bytes = elim (ma_malloc s bytes) [
  | none ↦ none
  | some (p, t) ↦ some (p, record t { memory = cmem p bytes t.memory })
]

-- The used entry is cut to `size` bytes, and its rest gets an entry of its own.
unfoldable pub split_used_entry : Allocator → ℕ → ℕ → Allocator
split_used_entry a entry size =
    let e = entry_at a.entries entry in
    let b = add_used_entry a (add32 e.start_of_memory size) (sub32 e.size_of_memory size) in
    record b {
      entries = set b.entries entry (record (entry_at b.entries entry) {
        size_of_memory = size;
        end_of_memory = add32 e.start_of_memory size;
      });
    }

-- The part of `ma_realloc` that moves a block to bigger memory.
unfoldable pub grow : System → ℕ → ℕ → ℕ → Outcome
grow s entry memory size = elim (ma_calloc s size) [
  | none ↦ none
  | some (p, t) ↦
      (if p == 0
        then some (0, t)
        else some (
          p,
          record {
            allocator = ma_free t.allocator memory;
            memory =
                copy_memory memory p (entry_at t.allocator.entries entry).size_of_memory t.memory;
          },
        ))
]

unfoldable pub ma_realloc : System → ℕ → ℕ → Outcome
ma_realloc s memory bytes =
    let a = s.allocator in
    let size = page_size bytes in
    let entry = used_entry_of a memory in
    let e = entry_at a.entries entry in
    if size == 0 || entry == 0
    then some (0, s)
    else (if e.size_of_memory == size
        then some (memory, s)
        else (if ltb size e.size_of_memory
            then (if leb a.last_entry a.first_available_used_entry
                then some (0, s)
                else some (
                  e.start_of_memory,
                  record s {
                    allocator =
                        ma_free (split_used_entry a entry size) (add32 e.start_of_memory size);
                  },
                ))
            else grow s entry memory size))

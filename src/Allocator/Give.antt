-- ===== src/Allocator/Give.antt =====
-- `ma_free` on the table.
use blesk_os_fork.Base.{
  ℕ, zero, suc, ◌+◌, ◌-◌, ◌&&◌, List, ltb, leb, ◌==◌, not, if◌then◌else◌, set, add32, dec32,
}
use blesk_os_fork.Allocator.Table.{
  Entry, Allocator, no_entry, entry_at, size_at, remove_entry,
  allocator_update_biggest_entries_pointers,
}

-- The index of the first used entry that starts at `memory`, from `i` on with `n` rounds left, or 0.
unfoldable pub find_used : ℕ → ℕ → ℕ → List Entry → ℕ
find_used zero i memory es = 0
find_used (suc n) i memory es =
    let rest = find_used n (i + 1) memory es in
    if (entry_at es i).start_of_memory == memory then i else rest

abbrev pub used_entry_of : Allocator → ℕ → ℕ
used_entry_of a memory =
    find_used (a.first_available_used_entry - a.first_used_entry) a.first_used_entry memory
      a.entries

-- The free blocks that touch a block.
pub record Neighbours : Type 0 where
  pub below : ℕ
  pub above : ℕ

-- The loop over the free half, from `i` on with `n` rounds left; the last match counts.
unfoldable pub find_neighbours : ℕ → ℕ → Entry → List Entry → Neighbours → Neighbours
find_neighbours zero i e es s = s
find_neighbours (suc n) i e es s = find_neighbours n (i + 1) e es (
    if (entry_at es i).end_of_memory == e.start_of_memory
    then record s { below = i }
    else (if (entry_at es i).start_of_memory == e.end_of_memory then record s { above = i } else s))

unfoldable pub remove_used_entry : Allocator → ℕ → Allocator
remove_used_entry a entry = record a {
  entries = remove_entry a.first_used_entry a.first_used_entry entry a.entries;
  first_available_used_entry = dec32 a.first_available_used_entry;
}

unfoldable pub extend_below : Allocator → ℕ → ℕ → Allocator
extend_below a entry below =
    let e = entry_at a.entries entry in
    let b = entry_at a.entries below in
    record a {
      entries = set a.entries below (record b {
        size_of_memory = add32 b.size_of_memory e.size_of_memory;
        end_of_memory = e.end_of_memory;
      });
    }

unfoldable pub extend_above : Allocator → ℕ → ℕ → Allocator
extend_above a entry above =
    let e = entry_at a.entries entry in
    let b = entry_at a.entries above in
    record a {
      entries = set a.entries above (record b {
        start_of_memory = e.start_of_memory;
        size_of_memory = add32 b.size_of_memory e.size_of_memory;
      });
    }

-- The block, and the free blocks below and above it, become one free block.
unfoldable pub join_three : Allocator → ℕ → ℕ → ℕ → Allocator
join_three a entry below above =
    let e = entry_at a.entries entry in
    let b = entry_at a.entries below in
    let c = entry_at a.entries above in
    let joined = record a {
      entries = set a.entries below (record b {
        size_of_memory = add32 b.size_of_memory (add32 e.size_of_memory c.size_of_memory);
        end_of_memory = c.end_of_memory;
      });
    } in
    let unused = remove_used_entry joined entry in
    let second = unused.second_biggest_free_entry in
    record unused {
      entries = remove_entry 0 unused.first_used_entry above unused.entries;
      first_available_free_entry = dec32 unused.first_available_free_entry;
      biggest_free_entry =
          if ltb above unused.biggest_free_entry
          then dec32 unused.biggest_free_entry
          else unused.biggest_free_entry;
      second_biggest_free_entry =
          if not (second == no_entry) && ltb above second then dec32 second else second;
    }

-- A new free entry with the bounds of the used one; its padding is not written.
unfoldable pub add_free_entry : Allocator → ℕ → Allocator
add_free_entry a entry =
    let e = entry_at a.entries entry in
    let i = a.first_available_free_entry in
    record a {
      entries = set a.entries i (record (entry_at a.entries i) {
        start_of_memory = e.start_of_memory;
        size_of_memory = e.size_of_memory;
        end_of_memory = e.end_of_memory;
      });
      first_available_free_entry = add32 i 1;
    }

-- The pointers to the biggest blocks after `edited` was added.
unfoldable pub rank_new : Allocator → ℕ → Allocator
rank_new a edited =
    if ltb (size_at a a.biggest_free_entry) (size_at a edited)
    then record a { second_biggest_free_entry = a.biggest_free_entry; biggest_free_entry = edited }
    else (if a.second_biggest_free_entry == no_entry
        then record a { second_biggest_free_entry = edited }
        else (if ltb (size_at a a.second_biggest_free_entry) (size_at a edited)
            then record a { second_biggest_free_entry = edited }
            else a))

-- The pointers to the biggest blocks after `edited` grew.
unfoldable pub rank_grown : Allocator → ℕ → Allocator
rank_grown a edited =
    let as_biggest = record a {
      second_biggest_free_entry = a.biggest_free_entry;
      biggest_free_entry = edited;
    } in
    let beats_biggest = ltb (size_at a a.biggest_free_entry) (size_at a edited) in
    if edited == a.biggest_free_entry
    then a
    else (if edited == a.second_biggest_free_entry
        then (if beats_biggest then as_biggest else a)
        else (if ltb (size_at a a.second_biggest_free_entry) (size_at a edited)
            then (if beats_biggest
                then as_biggest
                else record a { second_biggest_free_entry = edited })
            else a))

-- What `ma_free` does with the used entry `entry` and its neighbours.
unfoldable pub give_back : Allocator → ℕ → Neighbours → Allocator
give_back a entry near =
    if not (near.below == no_entry) && not (near.above == no_entry)
    then allocator_update_biggest_entries_pointers (join_three a entry near.below near.above)
    else (if near.below == no_entry && near.above == no_entry
        then (if leb a.first_used_entry a.first_available_free_entry
            then a
            else remove_used_entry (rank_new (add_free_entry a entry) a.first_available_free_entry)
                entry)
        else (if not (near.below == no_entry)
            then rank_grown (remove_used_entry (extend_below a entry near.below) entry) near.below
            else rank_grown (remove_used_entry (extend_above a entry near.above) entry) near.above))

unfoldable pub ma_free : Allocator → ℕ → Allocator
ma_free a memory =
    let entry = used_entry_of a memory in
    if entry == 0
    then a
    else give_back a entry (
        find_neighbours a.first_used_entry 0 (entry_at a.entries entry) a.entries
          (record { below = no_entry; above = no_entry }))

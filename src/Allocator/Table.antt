-- ===== src/Allocator/Table.antt =====
-- The state of the allocator: one array whose first half lists the free blocks and whose second half
-- lists the used ones, and the indices of its two biggest free blocks.
use blesk_os_fork.Base.{
  ℕ, zero, suc, ◌+◌, ◌-◌, ◌*◌, ◌||◌, List, ltb, ◌==◌, if◌then◌else◌, get_or, set,
}

-- `struct memory_allocator_entry_t`
pub record Entry : Type 0 where
  pub start_of_memory : ℕ
  pub size_of_memory : ℕ
  pub end_of_memory : ℕ
  pub padding : ℕ

-- `struct memory_allocator_t`
pub record Allocator : Type 0 where
  pub first_used_entry : ℕ
  pub last_entry : ℕ
  pub biggest_free_entry : ℕ
  pub second_biggest_free_entry : ℕ
  pub first_available_free_entry : ℕ
  pub first_available_used_entry : ℕ
  pub entries : List Entry

-- The index that stands for "no entry".
abbrev pub no_entry : ℕ
no_entry = 0xFFFFFFFF

-- An entry of zero bytes.
abbrev pub empty_entry : Entry
empty_entry = record { start_of_memory = 0; size_of_memory = 0; end_of_memory = 0; padding = 0 }

abbrev pub entry_at : List Entry → ℕ → Entry
entry_at es i = get_or es i empty_entry

-- `entries[i].size_of_memory`. The entries start 24 bytes into the structure and are 16 bytes long,
-- so that at the index 0xFFFFFFFF this is the field `second_biggest_free_entry`.
abbrev pub size_at : Allocator → ℕ → ℕ
size_at a i =
    if i == no_entry then a.second_biggest_free_entry else (entry_at a.entries i).size_of_memory

-- `initalize_memory_allocator`; the entries are left as they are.
unfoldable pub initalize_memory_allocator : Allocator → ℕ → Allocator
initalize_memory_allocator a n = record a {
  first_used_entry = n;
  last_entry = n * 2;
  biggest_free_entry = no_entry;
  second_biggest_free_entry = no_entry;
  first_available_free_entry = 0;
  first_available_used_entry = n;
}

-- The local variables of `allocator_update_biggest_entries_pointers`.
pub record Biggest : Type 0 where
  pub entry : ℕ
  pub size : ℕ
  pub second : ℕ
  pub second_size : ℕ

-- One round of its loop, at index `i` with an entry of `n` bytes.
unfoldable pub see_entry : ℕ → ℕ → Biggest → Biggest
see_entry i n s =
    if ltb s.size n
    then record { entry = i; size = n; second = s.entry; second_size = s.size }
    else (if ltb s.second_size n then record s { second = i; second_size = n } else s)

-- The loop, from index `i` on with `n` rounds left.
unfoldable pub see_entries : ℕ → ℕ → List Entry → Biggest → Biggest
see_entries zero i es s = s
see_entries (suc n) i es s = see_entries n (i + 1) es (see_entry i (entry_at es i).size_of_memory s)

abbrev pub nothing_seen : Biggest
nothing_seen = record { entry = no_entry; size = 0; second = no_entry; second_size = 0 }

unfoldable pub allocator_update_biggest_entries_pointers : Allocator → Allocator
allocator_update_biggest_entries_pointers a =
    let s = see_entries a.first_available_free_entry 0 a.entries nothing_seen in
    record a { biggest_free_entry = s.entry; second_biggest_free_entry = s.second }

-- The entries from `i + 1` on move down by one, `n` of them, and the last place is cleared.
unfoldable pub close_gap : ℕ → ℕ → List Entry → List Entry
close_gap zero i es = set es i empty_entry
close_gap (suc n) i es = close_gap n (i + 1) (set es i (entry_at es (i + 1)))

-- `remove_space_from_memory_area` on the `count` entries from `lo` on, for the entry `i`.
unfoldable pub remove_entry : ℕ → ℕ → ℕ → List Entry → List Entry
remove_entry lo count i es =
    if ltb i lo || ltb (lo + count) (i + 1) then es else close_gap (lo + count - (i + 1)) i es

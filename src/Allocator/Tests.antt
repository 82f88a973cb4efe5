-- ===== src/Allocator/Tests.antt =====
-- A table with two free blocks: runs of the allocator, and its theorems there.
use blesk_os_fork.Base.{
  ◌-◌, some, ◌≢◌, ◌≤◌, ◌<◌, ℕ, zero, suc, ◌+◌, ◌^◌, ◌≡◌, refl, inl, inr, arith, [], ◌∷◌,
}
use blesk_os_fork.Allocator.Allocate.{ma_malloc-IsTaken, calls_fail, IsTaken}
use blesk_os_fork.Allocator.Calls.{ma_calloc, ma_fixed_calloc, take, ma_malloc, System}
use blesk_os_fork.Allocator.Cases.{IsGiven}
use blesk_os_fork.Allocator.Exact.{take_exact_loses_second}
use blesk_os_fork.Allocator.Free.{ma_free-IsGiven}
use blesk_os_fork.Allocator.Give.{
  rank_grown, remove_used_entry, extend_below, find_neighbours, used_entry_of, give_back, ma_free,
  find_used,
}
use blesk_os_fork.Allocator.Malloc.{CanTake}
use blesk_os_fork.Allocator.Rank.{size_of, IsRanked}
use blesk_os_fork.Allocator.Table.{close_gap, remove_entry, entry_at, empty_entry, Entry, Allocator}
use blesk_os_fork.Allocator.Take.{page_size}
use blesk_os_fork.Allocator.Valid.{owns, used_owners, IsBlock, free_owners, IsValid}
use blesk_os_fork.Memory.{Memory}
use blesk_os_fork.Memory.Clear.{filled}

abbrev block : ℕ → ℕ → Entry
block start size = record {
  start_of_memory = start;
  size_of_memory = size;
  end_of_memory = start + size;
  padding = 0;
}

-- 16 KB at 0x1000 and 8 KB at 0x10000 are free, 4 KB at 0x12000 are used.
abbrev table : Allocator
table = record {
  first_used_entry = 4;
  last_entry = 8;
  biggest_free_entry = 0;
  second_biggest_free_entry = 1;
  first_available_free_entry = 2;
  first_available_used_entry = 5;
  entries =
      block 0x1000 0x4000
      ∷ block 0x10000 0x2000
      ∷ empty_entry
      ∷ empty_entry
      ∷ block 0x12000 0x1000
      ∷ empty_entry
      ∷ empty_entry
      ∷ empty_entry
      ∷ [];
}

table-free : (k : ℕ) → k < 2 → IsBlock (entry_at table.entries k)
table-free zero h = omega arith
table-free (suc zero) h = omega arith
table-free (suc (suc k)) h = absurd (omega arith)

table-used : (k : ℕ) → 4 ≤ k → k < 5 → IsBlock (entry_at table.entries k)
table-used k p q = let e : k ≡ 4 = omega arith in rw e (omega arith)

table-cleared :
    (k : ℕ)
    → 2 ≤ k
    → k < 4
    → ((entry_at table.entries k).start_of_memory ≡ 0)
      × ((entry_at table.entries k).end_of_memory ≡ 0)
table-cleared zero p q = absurd (omega arith)
table-cleared (suc zero) p q = absurd (omega arith)
table-cleared (suc (suc zero)) p q = omega arith
table-cleared (suc (suc (suc zero))) p q = omega arith
table-cleared (suc (suc (suc (suc k)))) p q = absurd (omega arith)

table-IsValid : IsValid table
table-IsValid = record {
  table = omega arith;
  free_blocks = table-free;
  used_blocks = table-used;
  cleared = table-cleared;
}

table-top : (k : ℕ) → k < 2 → size_of table.entries k ≤ 0x4000
table-top zero h = omega arith
table-top (suc zero) h = omega arith
table-top (suc (suc k)) h = absurd (omega arith)

table-second : (k : ℕ) → k < 2 → k ≢ 0 → size_of table.entries k ≤ 0x2000
table-second zero h ne = absurd (ne refl)
table-second (suc zero) h ne = omega arith
table-second (suc (suc k)) h ne = absurd (omega arith)

table-IsRanked : IsRanked table
table-IsRanked = record {
  biggest_in = omega arith;
  biggest_top = table-top;
  second = record { in_range = λ ne. omega arith; top = table-second };
}

table-CanTake : CanTake table 0x3000
table-CanTake = record {
  valid = table-IsValid;
  biggest_in = omega arith;
  positive = omega arith;
  fits = omega arith;
  room = omega arith;
}

table-exact : CanTake table 0x4000
table-exact = record {
  valid = table-IsValid;
  biggest_in = omega arith;
  positive = omega arith;
  fits = omega arith;
  room = omega arith;
}

abbrev system : System
system = record { allocator = table; memory = λ a. 7 }

pages : page_size 0x2ffe ≡ 0x3000
unfolding page_size
pages = refl

ma_malloc-IsTaken_example :
    (t : System) × (ma_malloc system 0x2ffe ≡ some (0x1000, t))
    × IsTaken table 0x1000 0x3000 t.allocator
    × ((x : ℕ) → x < 2 ^ 32 → t.memory x ≡ filled (0x1000 + (0x3000 - 4096)) 4096 0 (λ a. 7) x)
unfolding page_size
ma_malloc-IsTaken_example =
    ma_malloc-IsTaken system 0x2ffe (omega arith) table-CanTake (omega arith) table-IsRanked

calls_fail_example :
    (ma_malloc system 0x5000 ≡ some (0, system))
    × (ma_fixed_calloc system 0x5000 ≡ some (0, system))
    × ((m : Memory) × (ma_calloc system 0x5000 ≡ some (0, record system { memory = m }))
        × ((x : ℕ) → x < 2 ^ 32 → m x ≡ filled 0 0x5000 0 (λ a. 7) x))
unfolding page_size
calls_fail_example = calls_fail system 0x5000 (omega arith) (inr (inl (omega arith)))

take_exact_loses_second_example :
    free_owners (take table 0x4000) 0x10010
      + used_owners (take table 0x4000) 0x10010
      + owns 0x10010 (entry_at table.entries 1)
    ≡ free_owners table 0x10010 + used_owners table 0x10010
take_exact_loses_second_example =
    take_exact_loses_second table 0x4000 table-exact refl 0x10010 (omega arith) (omega arith)
      (omega arith)

table_finds : used_entry_of table 0x12000 ≡ 4
unfolding find_used
table_finds = refl

ma_free-IsGiven_example :
    (4 ≤ used_entry_of table 0x12000)
    × (used_entry_of table 0x12000 < 5)
    × ((entry_at table.entries (used_entry_of table 0x12000)).start_of_memory ≡ 0x12000)
    × IsGiven table (used_entry_of table 0x12000) (ma_free table 0x12000)
ma_free-IsGiven_example =
    ma_free-IsGiven table 0x12000 table-IsValid (omega arith) (omega (arith, table_finds))

-- Freeing joins the block with the free block below it.
free_runs : entry_at (ma_free table 0x12000).entries 1 ≡ block 0x10000 0x3000
unfolding ma_free give_back find_used find_neighbours extend_below remove_used_entry rank_grown
    remove_entry close_gap
free_runs = refl

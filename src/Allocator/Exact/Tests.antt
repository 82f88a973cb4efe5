-- ===== src/Allocator/Exact/Tests.antt =====
-- A table with one free block and one used one, from which the whole free block is taken.
use blesk_os_fork.Base.{ℕ, zero, suc, ◌+◌, ◌<◌, ◌≤◌, ◌≡◌, arith, [], ◌∷◌}
use blesk_os_fork.Allocator.Malloc.{CanTake}
use blesk_os_fork.Allocator.Table.{Entry, Allocator, entry_at, empty_entry, no_entry}
use blesk_os_fork.Allocator.Valid.{IsBlock}

abbrev block : ℕ → ℕ → Entry
block start size = record {
  start_of_memory = start;
  end_of_memory = start + size;
  size_of_memory = size;
  padding = 0;
}

abbrev alone : Allocator
alone = record {
  last_entry = 4;
  first_used_entry = 2;
  biggest_free_entry = 0;
  second_biggest_free_entry = no_entry;
  first_available_free_entry = 1;
  first_available_used_entry = 3;
  entries = block 0x1000 0x4000 ∷ empty_entry ∷ block 0x12000 0x1000 ∷ empty_entry ∷ [];
}

alone-free : (k : ℕ) → k < 1 → IsBlock (entry_at alone.entries k)
alone-free zero h = omega arith
alone-free (suc k) h = absurd (omega arith)

alone-used : (k : ℕ) → 2 ≤ k → k < 3 → IsBlock (entry_at alone.entries k)
alone-used k p q = let e : k ≡ 2 = omega arith in rw e (omega arith)

alone-cleared :
    (k : ℕ)
    → 1 ≤ k
    → k < 2
    → ((entry_at alone.entries k).start_of_memory ≡ 0)
      × ((entry_at alone.entries k).end_of_memory ≡ 0)
alone-cleared k p q = let e : k ≡ 1 = omega arith in rw e (omega arith)

alone-CanTake : CanTake alone 0x4000
alone-CanTake = record {
  valid = record {
    table = omega arith;
    free_blocks = alone-free;
    used_blocks = alone-used;
    cleared = alone-cleared;
  };
  biggest_in = omega arith;
  positive = omega arith;
  fits = omega arith;
  room = omega arith;
}

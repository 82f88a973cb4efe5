-- ===== src/Allocator/Longer.antt =====
-- The table after an allocation that leaves a part of the biggest free block.
use blesk_os_fork.Base.{ℕ, ◌+◌, ◌<◌, ◌≡◌, arith}
use blesk_os_fork.Allocator.Calls.{take, rest_size}
use blesk_os_fork.Allocator.Malloc.{
  used_owners-recorded, rest_size_lem, free_owners-recorded, update_pointers_keeps,
  remove_exhausted_none, used, recorded, recorded-IsValid, CanTake,
}
use blesk_os_fork.Allocator.Table.{Allocator, entry_at}
use blesk_os_fork.Allocator.Take.{update_pointers}
use blesk_os_fork.Allocator.Valid.{owns, used_owners, free_owners, IsValid}

-- The whole allocation, where the biggest block is longer than what is taken.
module _ (a : Allocator) (size : ℕ) (c : CanTake a size)
    (longer : size < (entry_at a.entries a.biggest_free_entry).size_of_memory) where
  pub take_lem : take a size ≡ update_pointers (recorded a size) (rest_size a size)
  unfolding take
  take_lem = remove_exhausted_none _ _ _ (omega (arith, rest_size_lem a size c))

  pub entries-take : (take a size).entries ≡ (recorded a size).entries
  entries-take = rw (take_lem, update_pointers_keeps (recorded a size) (rest_size a size))

  pub free_owners-take :
      (x : ℕ) → free_owners (take a size) x + owns x (used a size c) ≡ free_owners a x
  free_owners-take x =
      rw (take_lem, update_pointers_keeps (recorded a size) (rest_size a size))
        (free_owners-recorded a size c x)

  pub used_owners-take :
      (x : ℕ) → used_owners (take a size) x ≡ used_owners a x + owns x (used a size c)
  used_owners-take x =
      rw (take_lem, update_pointers_keeps (recorded a size) (rest_size a size))
        (used_owners-recorded a size c x)

  pub take-IsValid : IsValid (take a size)
  take-IsValid =
      let v = recorded-IsValid a size c in
      rw (take_lem, update_pointers_keeps (recorded a size) (rest_size a size))
        (record {
          table = ground (arith, v.table);
          free_blocks = v.free_blocks;
          used_blocks = v.used_blocks;
          cleared = v.cleared;
        })

-- ===== src/Allocator/Exact.antt =====
-- An allocation that takes the whole of the biggest free block.
mod Tests
use blesk_os_fork.Base.{ap, inr, suc, dec32, ℕ, ◌+◌, ◌-◌, ◌<◌, ◌≡◌, ◌≢◌, arith}
use blesk_os_fork.Allocator.Array.{sum_outside-remove_entry, sum-remove_entry}
use blesk_os_fork.Allocator.Calls.{take, rest_size}
use blesk_os_fork.Allocator.Malloc.{
  used_owners-recorded, free_owners-recorded, entry_at-recorded, fields-recorded, rest_size_lem,
  CanTake, recorded,
}
use blesk_os_fork.Allocator.Rank.{size_of}
use blesk_os_fork.Allocator.Table.{Entry, entry_at, remove_entry, no_entry, Allocator}
use blesk_os_fork.Allocator.Take.{cut_biggest, add_used_entry, update_pointers, remove_exhausted}
use blesk_os_fork.Allocator.Valid.{used_owners, owns, free_owners}

-- What is left of a table whose biggest block is exhausted: the entry that goes is the second
-- biggest one if there is any, and the exhausted one only if there is none.
exhausted_second :
    (u : Allocator) (i : ℕ)
    → u.second_biggest_free_entry ≢ no_entry
    → 0 < size_of u.entries u.second_biggest_free_entry
    → let v = remove_exhausted (update_pointers u 0) i 0 in
      (v.entries ≡ remove_entry 0 u.first_used_entry u.second_biggest_free_entry u.entries)
      × (v.first_available_free_entry ≡ dec32 u.first_available_free_entry)
      × (v.first_used_entry ≡ u.first_used_entry)
      × (v.first_available_used_entry ≡ u.first_available_used_entry)
unfolding remove_exhausted update_pointers
exhausted_second u i ne pos = ground arith

exhausted_alone :
    (u : Allocator) (i : ℕ)
    → u.second_biggest_free_entry ≡ no_entry
    → let v = remove_exhausted (update_pointers u 0) i 0 in
      (v.entries ≡ remove_entry 0 u.first_used_entry u.biggest_free_entry u.entries)
      × (v.first_available_free_entry ≡ dec32 u.first_available_free_entry)
      × (v.first_used_entry ≡ u.first_used_entry)
      × (v.first_available_used_entry ≡ u.first_available_used_entry)
unfolding remove_exhausted update_pointers
exhausted_alone u i e = ground arith

module _ (a : Allocator) (size : ℕ) (c : CanTake a size)
    (exact : size ≡ size_of a.entries a.biggest_free_entry) where
  rest_zero : rest_size a size ≡ 0
  rest_zero = omega (arith, rest_size_lem a size c)

  take_exact :
      take a size ≡ remove_exhausted (update_pointers (recorded a size) 0) a.biggest_free_entry 0
  unfolding take
  take_exact = rw rest_zero

  -- The owners of a table that is the recorded one less the free entry `i`.
  removed_owners :
      (v : Allocator) (i x : ℕ)
      → i < a.first_available_free_entry
      → (v.entries ≡ remove_entry 0 (recorded a size).first_used_entry i (recorded a size).entries)
        × (v.first_available_free_entry ≡ dec32 (recorded a size).first_available_free_entry)
        × (v.first_used_entry ≡ (recorded a size).first_used_entry)
        × (v.first_available_used_entry ≡ (recorded a size).first_available_used_entry)
      → (free_owners v x + owns x (entry_at (recorded a size).entries i)
          ≡ free_owners (recorded a size) x)
        × (used_owners v x ≡ used_owners (recorded a size) x)
  removed_owners v i x h e =
      let u = recorded a size in
      let k = fields-recorded a size c in
      let t = c.valid.table in
      let n : ℕ = a.first_available_free_entry - 1 in
      let fn : dec32 u.first_available_free_entry ≡ n =
        omega (arith, k.2, t.free_in, t.halves, t.small) in
      let sn : u.first_available_free_entry ≡ suc n = omega (arith, k.2) in
      (
        rw (e.0, e.1, fn, sn)
            (sum-remove_entry (owns x) 0 u.first_used_entry i n u.entries (omega arith)
              (omega arith) (omega (arith, k.0, t.free_in))
              (omega (arith, k.0, k.4, t.room, t.halves))),
        rw (e.0, e.2, e.3)
            (sum_outside-remove_entry (owns x) 0 u.first_used_entry i u.first_used_entry
              (u.first_available_used_entry - u.first_used_entry) u.entries (omega arith)
              (omega (arith, k.0, t.free_in)) (omega (arith, k.0, k.4, t.room, t.halves))
              (inr (omega arith))),
      )

  -- Where no other block is recorded, the free blocks lose exactly what the used ones gain.
  pub take_exact_alone :
      (x : ℕ)
      → a.second_biggest_free_entry ≡ no_entry
      → free_owners (take a size) x + used_owners (take a size) x
        ≡ free_owners a x + used_owners a x
  unfolding owns add_used_entry cut_biggest
  take_exact_alone x e =
      let o =
        removed_owners (take a size) a.biggest_free_entry x c.biggest_in
          (rw take_exact (exhausted_alone (recorded a size) a.biggest_free_entry e)) in
      ground (
        arith,
        o,
        free_owners-recorded a size c x,
        used_owners-recorded a size c x,
        entry_at-recorded a size c a.biggest_free_entry,
        c.biggest_in,
        c.valid.table.free_in,
        c.valid.table.used_from,
      )

  -- Where a second biggest block is recorded, that block is in neither half any more: `ma_malloc`
  -- returns the biggest block and loses the second biggest.
  pub take_exact_loses_second :
      (x : ℕ)
      → a.second_biggest_free_entry < a.first_available_free_entry
      → a.second_biggest_free_entry ≢ a.biggest_free_entry
      → 0 < size_of a.entries a.second_biggest_free_entry
      → free_owners (take a size) x
          + used_owners (take a size) x
          + owns x (entry_at a.entries a.second_biggest_free_entry)
        ≡ free_owners a x + used_owners a x
  unfolding add_used_entry cut_biggest
  take_exact_loses_second x h ne pos =
      let second : ℕ = a.second_biggest_free_entry in
      let at : entry_at (recorded a size).entries second ≡ entry_at a.entries second = ground (
        arith,
        entry_at-recorded a size c second,
        c.valid.table.free_in,
        c.valid.table.used_from,
      ) in
      let o = removed_owners (take a size) second x h (
        rw take_exact (
          exhausted_second (recorded a size) a.biggest_free_entry
            (omega (arith, c.valid.table.free_in, c.valid.table.halves, c.valid.table.small))
            (omega (arith, ap (λ (e : Entry). e.size_of_memory) at)))) in
      omega (
        arith,
        o.0,
        o.1,
        free_owners-recorded a size c x,
        used_owners-recorded a size c x,
        ap (owns x) at,
      )

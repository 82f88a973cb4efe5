-- ===== src/Allocator/Free.antt =====
-- `ma_free` on every combination of free neighbours.
use blesk_os_fork.Base.{
  ◌∙◌, sym, inl, inr, ℕ_discrete, ◌⊎◌, false, leb, ==_false, ap, ℕ, ◌+◌, ◌-◌, ◌≤◌, ◌<◌, ◌≡◌, refl,
  ◌≢◌, arith,
}
use blesk_os_fork.Allocator.Cases.{below-IsGiven, above-IsGiven, alone-IsGiven, IsGiven}
use blesk_os_fork.Allocator.Give.{used_entry_of, give_back, ma_free, Neighbours, find_neighbours}
use blesk_os_fork.Allocator.Joined.{joined-IsGiven}
use blesk_os_fork.Allocator.Search.{find_neighbours-IsNear, find_used-found, IsNear}
use blesk_os_fork.Allocator.Table.{no_entry, entry_at, Entry, Allocator}
use blesk_os_fork.Allocator.Valid.{IsValid, IsBlock}

module _ (a : Allocator) (i : ℕ) (v : IsValid a) (lo : a.first_used_entry ≤ i)
    (hi : i < a.first_available_used_entry) where
  abbrev e : Entry
  e = entry_at a.entries i

  e-IsBlock : IsBlock e
  e-IsBlock = v.used_blocks i lo hi

  -- Every combination of neighbours.
  give_back-IsGiven :
      (s : Neighbours)
      → a.first_available_free_entry < a.first_used_entry
      → IsNear a.entries e a.first_used_entry s
      → IsGiven a i (give_back a i s)
  unfolding give_back
  give_back-IsGiven s room w = elim (ℕ_discrete s.below no_entry) [
    | yes nb ↦ elim (ℕ_discrete s.above no_entry) [
      | yes na ↦ rw (nb, na, full) (alone-IsGiven a i v lo hi room)
      | no ha ↦
          rw (nb, ==_false ha)
            (above-IsGiven a i v lo hi s.above (listed s.above (w.above ha).0 (inr (w.above ha).1))
              (w.above ha).1)
    ]
    | no hb ↦ elim (ℕ_discrete s.above no_entry) [
      | yes na ↦
          rw (==_false hb, na)
            (below-IsGiven a i v lo hi s.below (listed s.below (w.below hb).0 (inl (w.below hb).1))
              (w.below hb).1)
      | no ha ↦
          rw (==_false hb, ==_false ha)
            (joined-IsGiven a i v lo hi s.below s.above
              (listed s.below (w.below hb).0 (inl (w.below hb).1))
              (listed s.above (w.above ha).0 (inr (w.above ha).1))
              (λ same.
                (w.above ha).2
                  (ap (λ k. (entry_at a.entries k).end_of_memory) (sym same) ∙ (w.below hb).1))
              (w.below hb).1 (w.above ha).1)
    ]
  ]
    where
      full : leb a.first_used_entry a.first_available_free_entry ≡ false
      full = ground arith

      listed :
          (k : ℕ)
          → k < a.first_used_entry
          → ((entry_at a.entries k).end_of_memory ≡ e.start_of_memory)
            ⊎ ((entry_at a.entries k).start_of_memory ≡ e.end_of_memory)
          → k < a.first_available_free_entry
      listed k h touch = ground (arith, v.cleared k, e-IsBlock)

-- `ma_free` of a pointer at which a used block starts: the block becomes free memory, joined with
-- the free blocks that touch it, the used blocks lose exactly that block, and the invariant holds,
-- if the free half has a place left.
pub ma_free-IsGiven :
    (a : Allocator) (memory : ℕ)
    → IsValid a
    → a.first_available_free_entry < a.first_used_entry
    → used_entry_of a memory ≢ 0
    → (a.first_used_entry ≤ used_entry_of a memory)
      × (used_entry_of a memory < a.first_available_used_entry)
      × ((entry_at a.entries (used_entry_of a memory)).start_of_memory ≡ memory)
      × IsGiven a (used_entry_of a memory) (ma_free a memory)
unfolding ma_free give_back
ma_free-IsGiven a memory v room ne = (lo, hi, found.2, rw (==_false ne) cases)
  where
    i : ℕ
    i = used_entry_of a memory

    found :
        (a.first_used_entry ≤ i)
        × (i < a.first_used_entry + (a.first_available_used_entry - a.first_used_entry))
        × ((entry_at a.entries i).start_of_memory ≡ memory)
    found =
        find_used-found (a.first_available_used_entry - a.first_used_entry) a.first_used_entry
          memory a.entries ne

    lo : a.first_used_entry ≤ i
    lo = found.0

    hi : i < a.first_available_used_entry
    hi = omega (arith, found.1, v.table.used_from)

    nobody : Neighbours
    nobody = record { below = no_entry; above = no_entry }

    near : Neighbours
    near = find_neighbours a.first_used_entry 0 (entry_at a.entries i) a.entries nobody

    w : IsNear a.entries (entry_at a.entries i) a.first_used_entry near
    w =
        find_neighbours-IsNear a.first_used_entry 0 a.first_used_entry (entry_at a.entries i)
          a.entries nobody (omega arith)
          (record { below = λ p. absurd (p refl); above = λ p. absurd (p refl) })

    cases : IsGiven a i (give_back a i near)
    cases = give_back-IsGiven a i v lo hi near room w

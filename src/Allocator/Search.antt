-- ===== src/Allocator/Search.antt =====
-- What the searches of `ma_free` find.
use blesk_os_fork.Base.{zero, suc, List, ℕ, ◌+◌, ◌≤◌, ◌<◌, ◌≡◌, refl, ◌≢◌, arith}
use blesk_os_fork.Allocator.Give.{Neighbours, find_used, find_neighbours}
use blesk_os_fork.Allocator.Table.{no_entry, entry_at, Entry}

-- The search returns 0, or an entry of the searched range that starts at `memory`.
pub find_used-found :
    (n i memory : ℕ) (es : List Entry)
    → find_used n i memory es ≢ 0
    → let r = find_used n i memory es in
      (i ≤ r) × (r < i + n) × ((entry_at es r).start_of_memory ≡ memory)
unfolding find_used
find_used-found zero i memory es ne = absurd (ne refl)
find_used-found (suc n) i memory es ne = ground (arith, find_used-found n (i + 1) memory es)

-- What the search for neighbours knows of the free entries below `i`: `below` ends where the block
-- starts, and `above` starts where it ends and does not end where it starts.
pub record IsNear (es : List Entry) (e : Entry) (i : ℕ) (s : Neighbours) : Type 0 where
  pub below :
      s.below ≢ no_entry → (s.below < i) × ((entry_at es s.below).end_of_memory ≡ e.start_of_memory)
  pub above :
      s.above ≢ no_entry
      → (s.above < i)
        × ((entry_at es s.above).start_of_memory ≡ e.end_of_memory)
        × ((entry_at es s.above).end_of_memory ≢ e.start_of_memory)

pub find_neighbours-IsNear :
    (n i j : ℕ) (e : Entry) (es : List Entry) (s : Neighbours)
    → i + n ≡ j
    → IsNear es e i s
    → IsNear es e j (find_neighbours n i e es s)
unfolding find_neighbours
find_neighbours-IsNear zero i j e es s h w = let ij : i ≡ j = omega arith in rw (← ij) w
find_neighbours-IsNear (suc n) i j e es s h w =
    find_neighbours-IsNear n (i + 1) j e es _ (omega arith)
      (record { below = λ ne. ground (arith, w.below); above = λ ne. ground (arith, w.above) })

-- ===== src/Allocator/Rank.antt =====
-- `biggest_free_entry` and `second_biggest_free_entry`: the searches find the biggest blocks, and an
-- allocation keeps the pointers right.
use blesk_os_fork.Base.{
  refl, inr, inl, Bool-cases, Bool, ℕ, zero, suc, ◌+◌, ◌≤◌, ◌<◌, ◌≡◌, ◌≢◌, List, ◌==◌, not, ◌&&◌,
  ltb, if◌then◌else◌, arith,
}
use blesk_os_fork.Allocator.Table.{
  size_at, Entry, Allocator, Biggest, no_entry, entry_at, see_entry, see_entries, nothing_seen,
  allocator_update_biggest_entries_pointers,
}
use blesk_os_fork.Allocator.Take.{update_pointers, find_second}

abbrev pub size_of : List Entry → ℕ → ℕ
size_of es k = (entry_at es k).size_of_memory

-- The size behind a pointer that may name no entry.
abbrev pub pointed_size : List Entry → ℕ → ℕ
pointed_size es r = if r == no_entry then 0 else size_of es r

-- `r` names a longest one of the first `n` blocks other than `b`, or no entry if those are empty.
pub record IsSecond (es : List Entry) (b n r : ℕ) : Type 0 where
  pub in_range : r ≢ no_entry → (r < n) × (r ≢ b)
  pub top : (k : ℕ) → k < n → k ≢ b → size_of es k ≤ pointed_size es r

-- The pointers name a longest free block, and a longest of the others.
pub record IsRanked (a : Allocator) : Type 0 where
  pub biggest_in : a.biggest_free_entry < a.first_available_free_entry
  pub biggest_top :
      (k : ℕ)
      → k < a.first_available_free_entry
      → size_of a.entries k ≤ size_of a.entries a.biggest_free_entry
  pub second :
      IsSecond a.entries a.biggest_free_entry a.first_available_free_entry
        a.second_biggest_free_entry

IsSecond-suc :
    (es : List Entry) (b i r : ℕ)
    → i < no_entry
    → IsSecond es b i r
    → IsSecond es b
        (suc i)
        (if not (i == b) && ltb (pointed_size es r) (size_of es i) then i else r)
IsSecond-suc es b i r h s = record {
  in_range = λ ne. ground (arith, s.in_range);
  top = λ k p ne. ground (arith, s.top k, s.in_range);
}

-- The search of `ma_malloc` for the second biggest block.
pub find_second-IsSecond :
    (n i j : ℕ) (es : List Entry) (b r : ℕ)
    → i + n ≡ j
    → j ≤ no_entry
    → IsSecond es b i r
    → IsSecond es b j (find_second n i es b r (pointed_size es r))
unfolding find_second
find_second-IsSecond zero i j es b r e h s = let ij : i ≡ j = omega arith in rw (← ij) s
find_second-IsSecond (suc n) i j es b r e h s =
    let found = not (i == b) && ltb (pointed_size es r) (size_of es i) in
    let r' = if found then i else r in
    let i' : i + 1 ≡ suc i = omega arith in
    let size : (if found then size_of es i else pointed_size es r) ≡ pointed_size es r' =
      ground arith in
    rw size (
      find_second-IsSecond n (i + 1) j es b r' (omega arith) h
        (rw i' (IsSecond-suc es b i r (omega arith) s)))

-- The loop of `allocator_update_biggest_entries_pointers` after `i` entries.
record HasSeen (es : List Entry) (i : ℕ) (s : Biggest) : Type 0 where
  size : s.size ≡ pointed_size es s.entry
  second_size : s.second_size ≡ pointed_size es s.second
  entry_in : s.entry ≢ no_entry → s.entry < i
  second_in : s.second ≢ no_entry → (s.second < i) × (s.second ≢ s.entry) × (s.entry ≢ no_entry)
  order : s.second_size ≤ s.size
  top : (k : ℕ) → k < i → size_of es k ≤ s.size
  second_top : (k : ℕ) → k < i → k ≢ s.entry → size_of es k ≤ s.second_size

HasSeen-suc :
    (es : List Entry) (i : ℕ) (s : Biggest)
    → i < no_entry
    → HasSeen es i s
    → HasSeen es (suc i) (see_entry i (size_of es i) s)
unfolding see_entry
HasSeen-suc es i s h w = record {
  size = ground (arith, w.size);
  second_size = ground (arith, w.size, w.second_size);
  entry_in = ground (arith, w.entry_in);
  second_in = λ ne. ground (arith, w.entry_in, w.second_in, w.size);
  order = ground (arith, w.order);
  top = λ k p. ground (arith, w.top k, w.order);
  second_top = λ k p ne. ground (arith, w.top k, w.second_top k, w.order);
}

see_entries-HasSeen :
    (n i j : ℕ) (es : List Entry) (s : Biggest)
    → i + n ≡ j
    → j ≤ no_entry
    → HasSeen es i s
    → HasSeen es j (see_entries n i es s)
unfolding see_entries
see_entries-HasSeen zero i j es s e h w = let ij : i ≡ j = omega arith in rw (← ij) w
see_entries-HasSeen (suc n) i j es s e h w =
    let i' : i + 1 ≡ suc i = omega arith in
    see_entries-HasSeen n (i + 1) j es (see_entry i (size_of es i) s) (omega arith) h
      (rw i' (HasSeen-suc es i s (omega arith) w))

-- `allocator_update_biggest_entries_pointers` leaves the pointers at a longest free block and at a
-- longest of the others, whatever they were before, if some free block is not empty.
pub update_biggest-IsRanked :
    (a : Allocator) (k : ℕ)
    → a.first_available_free_entry ≤ no_entry
    → k < a.first_available_free_entry
    → 0 < size_of a.entries k
    → IsRanked (allocator_update_biggest_entries_pointers a)
unfolding allocator_update_biggest_entries_pointers
update_biggest-IsRanked a k h p pos = record {
  biggest_in = ground (arith, w.entry_in, w.top k, w.size);
  biggest_top = λ i q. ground (arith, w.top i, w.size, w.top k);
  second = record {
    in_range = λ ne. ground (arith, w.second_in);
    top = λ i q ne. ground (arith, w.second_top i, w.second_size);
  };
}
  where
    n : ℕ
    n = a.first_available_free_entry

    empty : HasSeen a.entries 0 nothing_seen
    empty = ground arith

    w : HasSeen a.entries n (see_entries n 0 a.entries nothing_seen)
    w = see_entries-HasSeen n 0 n a.entries nothing_seen (omega arith) h empty

-- The pointers are right again after the biggest block shrank, if the second pointer was right.
pub update_pointers-IsRanked :
    (a : Allocator) (n : ℕ)
    → a.first_available_free_entry ≤ no_entry
    → a.biggest_free_entry < a.first_available_free_entry
    → n ≡ size_of a.entries a.biggest_free_entry
    → IsSecond a.entries a.biggest_free_entry a.first_available_free_entry
        a.second_biggest_free_entry
    → IsRanked (update_pointers a n)
unfolding update_pointers
update_pointers-IsRanked a n h p e s = elim (Bool-cases switches) [
  | inl t ↦ rw t (record {
    biggest_in = ground (arith, s.in_range);
    biggest_top = λ k q. ground (arith, s.top k);
    second =
        find_second-IsSecond faf 0 faf a.entries a.second_biggest_free_entry no_entry (omega arith)
          h (record { in_range = λ ne. absurd (ne refl); top = λ k q ne. absurd (omega arith) });
  })
  | inr f ↦
      rw f (record { biggest_in = p; biggest_top = λ k q. ground (arith, s.top k); second = s })
]
  where
    faf : ℕ
    faf = a.first_available_free_entry

    switches : Bool
    switches =
        not (a.second_biggest_free_entry == no_entry)
        && ltb n (size_at a a.second_biggest_free_entry)

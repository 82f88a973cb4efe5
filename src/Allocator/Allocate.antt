-- ===== src/Allocator/Allocate.antt =====
-- What `ma_malloc`, `ma_calloc` and `ma_fixed_calloc` do, on each of their branches.
use blesk_os_fork.Base.{
  ◌⊎◌, ◌≤◌, add32, sub32, ◌-◌, some, ◌+◌, ◌%◌, ltb, ◌^◌, ◌&&◌, false, leb, List, ℕ, ◌<◌, ◌≡◌, refl,
  if◌then◌else◌, ◌==◌, arith,
}
use blesk_os_fork.Allocator.Calls.{
  ma_calloc, ma_fixed_calloc, biggest_start, System, ma_malloc, take, rest_size,
}
use blesk_os_fork.Allocator.Longer.{used_owners-take, free_owners-take, take-IsValid, take_lem}
use blesk_os_fork.Allocator.Malloc.{b-IsBlock, CanTake, recorded, entry_at-recorded, rest_size_lem}
use blesk_os_fork.Allocator.Rank.{update_pointers-IsRanked, IsRanked, size_of}
use blesk_os_fork.Allocator.Table.{size_at, no_entry, entry_at, Entry, Allocator}
use blesk_os_fork.Allocator.Take.{page_size, is_refused, cut_biggest, add_used_entry}
use blesk_os_fork.Allocator.Valid.{used_owners, owns, free_owners, IsValid}
use blesk_os_fork.Memory.{Memory, cmem}
use blesk_os_fork.Memory.Clear.{cmem-filled, filled}

module _ (a : Allocator) (size : ℕ) (c : CanTake a size) (r : IsRanked a) where
  abbrev es : List Entry
  es = (recorded a size).entries

  abbrev bi : ℕ
  bi = a.biggest_free_entry

  abbrev second : ℕ
  second = a.second_biggest_free_entry

  -- The sizes of the free blocks after the cut.
  size_of-recorded :
      (k : ℕ)
      → k < a.first_available_free_entry
      → size_of es k ≡ (if k == bi then rest_size a size else size_of a.entries k)
  size_of-recorded k h = ground (
    arith,
    entry_at-recorded a size c k,
    rest_size_lem a size c,
    c.valid.table.free_in,
    c.valid.table.used_from,
  )

  recorded_keeps :
      ((recorded a size).first_available_free_entry ≡ a.first_available_free_entry)
      × ((recorded a size).biggest_free_entry ≡ bi)
      × ((recorded a size).second_biggest_free_entry ≡ second)
  unfolding add_used_entry cut_biggest
  recorded_keeps = (refl, refl, refl)

  -- Allocating keeps the pointers at the longest blocks.
  pub take-IsRanked :
      size < (entry_at a.entries a.biggest_free_entry).size_of_memory → IsRanked (take a size)
  take-IsRanked longer = rw (take_lem a size c longer) (
      update_pointers-IsRanked (recorded a size) (rest_size a size)
        (ground
          (arith, recorded_keeps, c.valid.table.small, c.valid.table.free_in, c.valid.table.halves))
        (ground (arith, recorded_keeps, c.biggest_in))
        (ground (arith, recorded_keeps, c.biggest_in, size_of-recorded bi))
        (rw (recorded_keeps.0, recorded_keeps.1, recorded_keeps.2)
          (record {
            in_range = r.second.in_range;
            top = λ k p ne. ground (
              arith,
              r.second.top k,
              r.second.in_range,
              size_of-recorded k,
              size_of-recorded second,
            );
          })))

-- 1 if `x` is one of the `size` bytes from `p` on, and 0 if not.
abbrev pub in_block : ℕ → ℕ → ℕ → ℕ
in_block p size x = if leb p x && ltb x (p + size) then 1 else 0

-- What an allocation of the block of `size` bytes at `p` makes of the table: the invariants hold, the
-- number of blocks that hold an address is what it was, and the used ones gain exactly this block.
pub record IsTaken (a : Allocator) (p size : ℕ) (after : Allocator) : Type 0 where
  pub valid : IsValid after
  pub ranked : IsRanked after
  pub owners :
      (x : ℕ) → free_owners after x + used_owners after x ≡ free_owners a x + used_owners a x
  pub used : (x : ℕ) → used_owners after x ≡ used_owners a x + in_block p size x

page_size-whole : (n : ℕ) → n < 2 ^ 32 → page_size n % 4096 ≡ 0
unfolding page_size
page_size-whole n h = ground arith

is_refused-false : (a : Allocator) (size : ℕ) → CanTake a size → is_refused a size ≡ false
unfolding is_refused
is_refused-false a size c = ground (
  arith, c.positive, c.fits, c.room, c.biggest_in, c.valid.table.free_in, c.valid.table.halves,
  c.valid.table.small,
)

-- `ma_malloc` of a request that rounds to at least one page, on a valid and ranked table with a free
-- place among the used entries and a biggest free block that is longer than the rounded request: it
-- returns the start of that block, moves exactly the requested pages from the free to the used blocks
-- (every address is held by as many blocks as before), keeps the invariants of the table and of its two
-- pointers, and clears the last page of the block and no other byte.
pub ma_malloc-IsTaken :
    (s : System) (bytes : ℕ)
    → bytes < 2 ^ 32
    → CanTake s.allocator (page_size bytes)
    → page_size bytes < (entry_at s.allocator.entries s.allocator.biggest_free_entry).size_of_memory
    → IsRanked s.allocator
    → let p = biggest_start s.allocator in
      let size = page_size bytes in
      (t : System) × (ma_malloc s bytes ≡ some (p, t))
      × IsTaken s.allocator p size t.allocator
      × ((x : ℕ) → x < 2 ^ 32 → t.memory x ≡ filled (p + (size - 4096)) 4096 0 s.memory x)
unfolding ma_malloc owns
ma_malloc-IsTaken s bytes h c longer r = (
  record { allocator = take a size; memory = cmem (sub32 (add32 p size) 0x1000) 0x1000 s.memory },
  rw (is_refused-false a size c, taken) refl,
  record {
    valid = take-IsValid a size c longer;
    ranked = take-IsRanked a size c r longer;
    owners =
        λ x. omega (arith, free_owners-take a size c longer x, used_owners-take a size c longer x);
    used = λ x. used_owners-take a size c longer x;
  },
  λ x lt. rw last_page (cmem-filled (p + (size - 4096)) 4096 s.memory x in_range lt),
)
  where
    a : Allocator
    a = s.allocator

    size : ℕ
    size = page_size bytes

    p : ℕ
    p = biggest_start a

    taken : (a.biggest_free_entry == no_entry) ≡ false
    taken =
        ground
          (arith, c.biggest_in, c.valid.table.free_in, c.valid.table.halves, c.valid.table.small)

    last_page : sub32 (add32 p size) 0x1000 ≡ p + (size - 4096)
    last_page = omega (arith, b-IsBlock a size c, page_size-whole bytes h, c.fits, c.positive)

    in_range : p + (size - 4096) + 4096 ≤ 2 ^ 32
    in_range = omega (arith, b-IsBlock a size c, page_size-whole bytes h, c.fits, c.positive)

-- A request that rounds to no page or to more than the biggest free block has, and any request on a
-- full table, fails with the null pointer and changes nothing; but `ma_calloc` then still zeroes the
-- requested number of bytes, from the address 0 on.
pub calls_fail :
    (s : System) (bytes : ℕ)
    → bytes ≤ 2 ^ 32
    → (page_size bytes ≡ 0)
      ⊎ (size_at s.allocator s.allocator.biggest_free_entry < page_size bytes)
      ⊎ (s.allocator.last_entry ≤ s.allocator.first_available_used_entry)
    → (ma_malloc s bytes ≡ some (0, s))
      × (ma_fixed_calloc s bytes ≡ some (0, s))
      × ((m : Memory) × (ma_calloc s bytes ≡ some (0, record s { memory = m }))
          × ((x : ℕ) → x < 2 ^ 32 → m x ≡ filled 0 bytes 0 s.memory x))
unfolding ma_malloc ma_fixed_calloc ma_calloc is_refused
calls_fail s bytes h why = (
  ground arith,
  ground arith,
  (cmem 0 bytes s.memory, ground arith, λ x lt. cmem-filled 0 bytes s.memory x (omega arith) lt),
)

-- ===== src/Allocator/Malloc.antt =====
-- The table after an allocation, before its two pointers are updated.
use blesk_os_fork.Base.{
  ◌≤◌, ap, suc, refl, length-set, length, add32, set, ℕ, ◌+◌, ◌-◌, ◌<◌, ◌≡◌, ◌≢◌, if◌then◌else◌,
  ◌==◌, arith,
}
use blesk_os_fork.Allocator.Array.{entry_at-set}
use blesk_os_fork.Allocator.Calls.{rest_size, biggest_start}
use blesk_os_fork.Allocator.Table.{Entry, Allocator, entry_at}
use blesk_os_fork.Allocator.Take.{cut_biggest, add_used_entry, update_pointers, remove_exhausted}
use blesk_os_fork.Allocator.Valid.{owns, used_owners, free_owners, IsTable, IsBlock, IsValid}
use blesk_os_fork.Base.Sums.{sum-congr, sum-last, sum-update}

-- The biggest block has `size` bytes, and there is a place for one more used entry.
pub record CanTake (a : Allocator) (size : ℕ) : Type 0 where
  pub valid : IsValid a
  pub biggest_in : a.biggest_free_entry < a.first_available_free_entry
  pub positive : 0 < size
  pub fits : size ≤ (entry_at a.entries a.biggest_free_entry).size_of_memory
  pub room : a.first_available_used_entry < a.last_entry

-- What the allocation leaves at each index.
abbrev pub taken_at : Allocator → ℕ → ℕ → Entry
taken_at a size k =
    let b = entry_at a.entries a.biggest_free_entry in
    if k == a.first_available_used_entry
    then record (entry_at a.entries a.first_available_used_entry) {
      start_of_memory = b.start_of_memory;
      size_of_memory = size;
      end_of_memory = b.start_of_memory + size;
    }
    else (if k == a.biggest_free_entry
        then record b {
          start_of_memory = b.start_of_memory + size;
          size_of_memory = b.size_of_memory - size;
        }
        else entry_at a.entries k)

-- `update_pointers` moves the pointers alone.
pub update_pointers_keeps :
    (a : Allocator) (n : ℕ)
    → update_pointers a n ≡ record a {
      biggest_free_entry = (update_pointers a n).biggest_free_entry;
      second_biggest_free_entry = (update_pointers a n).second_biggest_free_entry;
    }
unfolding update_pointers
update_pointers_keeps a n = ground arith

pub remove_exhausted_none : (a : Allocator) (i n : ℕ) → n ≢ 0 → remove_exhausted a i n ≡ a
unfolding remove_exhausted
remove_exhausted_none a i n h = ground arith

-- The table before the pointers are updated.
abbrev pub recorded : Allocator → ℕ → Allocator
recorded a size = add_used_entry (cut_biggest a size) (biggest_start a) size

module _ (a : Allocator) (size : ℕ) (c : CanTake a size) where
  abbrev pub b : Entry
  b = entry_at a.entries a.biggest_free_entry

  pub b-IsBlock : IsBlock b
  b-IsBlock = c.valid.free_blocks a.biggest_free_entry c.biggest_in

  pub rest_size_lem : rest_size a size ≡ b.size_of_memory - size
  rest_size_lem = omega (arith, c.fits, b-IsBlock.no_wrap)

  t : IsTable a
  t = c.valid.table

  abbrev cut : Entry
  cut = record b {
    start_of_memory = b.start_of_memory + size;
    size_of_memory = b.size_of_memory - size;
  }

  abbrev pub used : Entry
  used = record (entry_at a.entries a.first_available_used_entry) {
    start_of_memory = b.start_of_memory;
    size_of_memory = size;
    end_of_memory = b.start_of_memory + size;
  }

  entries-cut : (cut_biggest a size).entries ≡ set a.entries a.biggest_free_entry cut
  unfolding cut_biggest
  entries-cut =
      let e : add32 b.start_of_memory size ≡ b.start_of_memory + size =
        omega (arith, b-IsBlock.no_wrap, c.fits) in
      rw (e, rest_size_lem)

  entry_at-cut :
      (k : ℕ)
      → entry_at (cut_biggest a size).entries k
        ≡ (if k == a.biggest_free_entry then cut else entry_at a.entries k)
  entry_at-cut k = rw entries-cut (
      entry_at-set a.entries a.biggest_free_entry k cut
        (omega (arith, c.biggest_in, t.free_in, t.room, t.halves)))

  length-cut : length (cut_biggest a size).entries ≡ length a.entries
  length-cut = rw entries-cut (length-set a.entries a.biggest_free_entry cut)

  used_place :
      entry_at (cut_biggest a size).entries a.first_available_used_entry
      ≡ entry_at a.entries a.first_available_used_entry
  used_place = rw entry_at-cut (ground (arith, c.biggest_in, t.free_in, t.used_from))

  cut_keeps : (cut_biggest a size).first_available_used_entry ≡ a.first_available_used_entry
  unfolding cut_biggest
  cut_keeps = refl

  entries-recorded :
      (recorded a size).entries ≡ set (cut_biggest a size).entries a.first_available_used_entry used
  unfolding add_used_entry
  entries-recorded =
      let e : add32 b.start_of_memory size ≡ b.start_of_memory + size =
        omega (arith, b-IsBlock.no_wrap, c.fits) in
      rw (cut_keeps, e, used_place)

  length-recorded : length (recorded a size).entries ≡ length a.entries
  length-recorded =
      rw
        (
          entries-recorded,
          length-set (cut_biggest a size).entries a.first_available_used_entry used,
        )
        length-cut

  pub entry_at-recorded : (k : ℕ) → entry_at (recorded a size).entries k ≡ taken_at a size k
  entry_at-recorded k = rw (
    entries-recorded,
    entry_at-set (cut_biggest a size).entries a.first_available_used_entry k used
        (omega (arith, length-cut, c.room, t.room)),
    entry_at-cut k,
  )

  -- The other fields.
  pub fields-recorded :
      ((recorded a size).first_used_entry ≡ a.first_used_entry)
      × ((recorded a size).last_entry ≡ a.last_entry)
      × ((recorded a size).first_available_free_entry ≡ a.first_available_free_entry)
      × ((recorded a size).first_available_used_entry ≡ a.first_available_used_entry + 1)
      × (length (recorded a size).entries ≡ length a.entries)
  unfolding add_used_entry cut_biggest
  fields-recorded = (refl, refl, refl, omega (arith, c.room, t.small), length-recorded)

  unmoved :
      (x k : ℕ)
      → k ≢ a.first_available_used_entry
      → k ≢ a.biggest_free_entry
      → owns x (entry_at (recorded a size).entries k) ≡ owns x (entry_at a.entries k)
  unmoved x k p q = ground (arith, entry_at-recorded k)

  owns_split : (x : ℕ) → owns x cut + owns x used ≡ owns x b
  unfolding owns
  owns_split x = ground (arith, c.fits)

  abbrev after : ℕ → ℕ → ℕ
  after x k = owns x (entry_at (recorded a size).entries k)

  abbrev before : ℕ → ℕ → ℕ
  before x k = owns x (entry_at a.entries k)

  at_biggest : (x : ℕ) → after x a.biggest_free_entry ≡ owns x cut
  at_biggest x =
      ground (arith, entry_at-recorded a.biggest_free_entry, c.biggest_in, t.free_in, t.used_from)

  at_used : (x : ℕ) → after x a.first_available_used_entry ≡ owns x used
  at_used x = ground (arith, entry_at-recorded a.first_available_used_entry)

  pub free_owners-recorded :
      (x : ℕ) → free_owners (recorded a size) x + owns x used ≡ free_owners a x
  unfolding add_used_entry cut_biggest
  free_owners-recorded x =
      (omega (
        arith,
        sum-update (after x) (before x) 0 a.first_available_free_entry a.biggest_free_entry
            (omega arith) (omega (arith, c.biggest_in))
            (λ k p q ne. unmoved x k (omega (arith, t.free_in, t.used_from)) ne),
        owns_split x,
        at_biggest x,
      ))

  pub used_owners-recorded :
      (x : ℕ) → used_owners (recorded a size) x ≡ used_owners a x + owns x used
  used_owners-recorded x =
      let n = a.first_available_used_entry - a.first_used_entry in
      let e : a.first_available_used_entry + 1 - a.first_used_entry ≡ suc n =
        omega (arith, t.used_from) in
      rw (fields-recorded.0, fields-recorded.3, e)
        (omega (
          arith,
          sum-last (after x) a.first_used_entry n,
          sum-congr (after x) (before x) a.first_used_entry n (λ k p q.
              unmoved x k (omega (arith, t.used_from)) (omega (arith, c.biggest_in, t.free_in))),
          at_used x,
          ap (after x) (place n refl),
        ))
    where
      place :
          (n : ℕ)
          → n ≡ a.first_available_used_entry - a.first_used_entry
          → a.first_used_entry + n ≡ a.first_available_used_entry
      place n e = omega (arith, t.used_from)

  recorded-IsTable : IsTable (recorded a size)
  recorded-IsTable = ground (arith, fields-recorded, t, c.room)

  pub recorded-IsValid : IsValid (recorded a size)
  recorded-IsValid = record {
    table = recorded-IsTable;
    free_blocks = λ k h. ground (
      arith,
      entry_at-recorded k,
      fields-recorded,
      t.free_in,
      t.used_from,
      b-IsBlock,
      c.fits,
      c.valid.free_blocks k,
    );
    used_blocks = λ k p h. ground (
      arith,
      entry_at-recorded k,
      fields-recorded,
      t.free_in,
      t.used_from,
      b-IsBlock,
      c.fits,
      c.biggest_in,
      c.valid.used_blocks k,
    );
    cleared = λ k p h. ground (
      arith,
      entry_at-recorded k,
      fields-recorded,
      t.free_in,
      t.used_from,
      c.biggest_in,
      c.valid.cleared k,
    );
  }

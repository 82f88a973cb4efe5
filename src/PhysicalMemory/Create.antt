-- ===== src/PhysicalMemory/Create.antt =====
-- The allocator that is made of the memory map is one that the allocator's operations accept.
use blesk_os_fork.Base.{
  ◌∙◌, refl, sym, false, List, [], ◌∷◌, length, length-set, inr, inl, Bool-cases, ℕ, if◌then◌else◌,
  ◌+◌, ◌-◌, ◌%◌, ◌^◌, ◌<◌, ◌≤◌, ◌≡◌, true, arith,
}
use blesk_os_fork.Allocator.Array.{entry_at-set}
use blesk_os_fork.Allocator.Rank.{update_biggest-IsRanked, IsRanked}
use blesk_os_fork.Allocator.Steps.{IsValid-pointers}
use blesk_os_fork.Allocator.Table.{
  allocator_update_biggest_entries_pointers, initalize_memory_allocator, entry_at, Allocator, Entry,
}
use blesk_os_fork.Allocator.Valid.{IsValid, IsBlock}
use blesk_os_fork.PhysicalMemory.{
  get_size_of_memory_allocator, memory_table_alloc, create_physical_memory_allocator, add_map_entry,
  add_map_entries, MapEntry, is_listed, entry_start, entry_end, block_of,
}
use mathlib.Core.Path.{subst}

-- A block of whole pages.
pub record IsPages (e : Entry) : Type 0 where
  pub start : e.start_of_memory % 4096 ≡ 0
  pub size : e.size_of_memory % 4096 ≡ 0
  pub not_empty : 0 < e.size_of_memory

-- The block of a listed entry that ends below 4 GB: whole pages inside the entry.
record IsInside (e : MapEntry) (b : Entry) : Type 0 where
  block : IsBlock b
  pages : IsPages b
  from : e.memory ≤ b.start_of_memory
  to : b.end_of_memory ≤ e.memory + e.size

block_of-IsInside :
    (old : Entry) (e : MapEntry)
    → is_listed e ≡ true
    → e.memory + e.size < 2 ^ 32
    → IsInside e (block_of old e)
unfolding block_of entry_start entry_end
block_of-IsInside old e h small = record {
  block = ground (arith, h, small);
  pages = ground (arith, h, small);
  from = ground (arith, h, small);
  to = ground (arith, h, small);
}

-- The block of a listed entry that crosses the border of 4 GB wraps round the end of the address
-- space.
pub block_of_wraps :
    (old : Entry) (e : MapEntry)
    → is_listed e ≡ true
    → 2 ^ 32 ≤ e.memory + e.size
    → e.size < 2 ^ 32 - 8192
    → ¬ IsBlock (block_of old e)
unfolding block_of entry_start entry_end
block_of_wraps old e h cross small b = absurd (ground (arith, h, cross, small, b.no_wrap))

-- The table while the memory map is read: no block is used yet, and every free block is made of pages.
pub record IsFilling (a : Allocator) : Type 0 where
  pub valid : IsValid a
  pub unused : a.first_available_used_entry ≡ a.first_used_entry
  pub pages : (k : ℕ) → k < a.first_available_free_entry → IsPages (entry_at a.entries k)

add_map_entry-IsFilling :
    (a : Allocator) (e : MapEntry)
    → IsFilling a
    → is_listed e ≡ true
    → e.memory + e.size < 2 ^ 32
    → a.first_available_free_entry < a.first_used_entry
    → IsFilling (add_map_entry a e)
unfolding add_map_entry
add_map_entry-IsFilling a e f h small room =
    let i : ℕ = a.first_available_free_entry in
    let b = block_of (entry_at a.entries i) e in
    let inside = block_of-IsInside (entry_at a.entries i) e h small in
    let t = f.valid.table in
    let at = λ (k : ℕ). entry_at-set a.entries i k b (omega (arith, t.room, t.halves, room)) in
    rw h (record {
      valid = record {
        table = ground (arith, t, length-set a.entries i b, room);
        free_blocks = λ k p.
            ground (arith, at k, f.valid.free_blocks k, inside.block, t.small, t.halves, room);
        used_blocks = λ k p q. absurd (omega (arith, f.unused));
        cleared = λ k p q. ground (arith, at k, f.valid.cleared k, t.small, t.halves, room);
      };
      unused = f.unused;
      pages = λ k p. ground (arith, at k, f.pages k, inside.pages, t.small, t.halves, room);
    })

-- The listed entries of the memory map end below 4 GB.
unfoldable pub AllFit : List MapEntry → Type 0
AllFit [] = 0 < 1
AllFit (e ∷ es) = (is_listed e ≡ true → e.memory + e.size < 2 ^ 32) × AllFit es

add_map_entry_grows :
    (a : Allocator) (e : MapEntry)
    → a.first_available_free_entry < 2 ^ 32 - 1
    → ((add_map_entry a e).first_used_entry ≡ a.first_used_entry)
      × ((add_map_entry a e).first_available_free_entry
          ≡ a.first_available_free_entry + (if is_listed e then 1 else 0))
unfolding add_map_entry
add_map_entry_grows a e h = ground (arith, h)

add_map_entry_skips : (a : Allocator) (e : MapEntry) → is_listed e ≡ false → add_map_entry a e ≡ a
unfolding add_map_entry
add_map_entry_skips a e h = rw h refl

-- How many entries of the memory map are listed.
unfoldable pub count_listed : List MapEntry → ℕ
count_listed [] = 0
count_listed (e ∷ es) = (if is_listed e then 1 else 0) + count_listed es

add_map_entries-IsFilling :
    (es : List MapEntry) (a : Allocator)
    → IsFilling a
    → AllFit es
    → a.first_available_free_entry + count_listed es ≤ a.first_used_entry
    → IsFilling (add_map_entries a es)
      × ((add_map_entries a es).first_available_free_entry
          ≡ a.first_available_free_entry + count_listed es)
unfolding add_map_entries AllFit count_listed
add_map_entries-IsFilling [] a f fit room = (f, omega arith)
add_map_entries-IsFilling (e ∷ es) a f fit room =
    let t = f.valid.table in
    let grows = add_map_entry_grows a e (omega (arith, t.small, t.halves, t.free_in)) in
    let step : IsFilling (add_map_entry a e) = elim (Bool-cases (is_listed e)) [
      | inl h ↦ add_map_entry-IsFilling a e f h (fit.0 h) (ground (arith, room, h))
      | inr h ↦ subst IsFilling (sym (add_map_entry_skips a e h)) f
    ] in
    let r =
      add_map_entries-IsFilling es (add_map_entry a e) step fit.1 (ground (arith, grows, room)) in
    (r.0, omega (arith, r.1, grows))

-- What the memory of the allocator holds before: no entry has a start or an end.
pub record IsBlank (a : Allocator) : Type 0 where
  pub room : length a.entries ≡ 20000
  pub no_start : (k : ℕ) → (entry_at a.entries k).start_of_memory ≡ 0
  pub no_end : (k : ℕ) → (entry_at a.entries k).end_of_memory ≡ 0

initalize_memory_allocator-IsFilling :
    (a : Allocator) → IsBlank a → IsFilling (initalize_memory_allocator a 10000)
unfolding initalize_memory_allocator
initalize_memory_allocator-IsFilling a b = record {
  valid = record {
    table = ground (arith, b.room);
    free_blocks = λ k p. absurd (omega arith);
    used_blocks = λ k p q. absurd (omega arith);
    cleared = λ k p q. (b.no_start k, b.no_end k);
  };
  unused = refl;
  pages = λ k p. absurd (omega arith);
}

initalize_few :
    (a : Allocator) (n : ℕ)
    → n ≤ 10000
    → (initalize_memory_allocator a 10000).first_available_free_entry + n
      ≤ (initalize_memory_allocator a 10000).first_used_entry
unfolding initalize_memory_allocator
initalize_few a n h = omega arith

initalize_none :
    (a : Allocator) → (initalize_memory_allocator a 10000).first_available_free_entry ≡ 0
unfolding initalize_memory_allocator
initalize_none a = refl

IsFilling-updated :
    (a : Allocator) → IsFilling a → IsFilling (allocator_update_biggest_entries_pointers a)
unfolding allocator_update_biggest_entries_pointers
IsFilling-updated a f = record {
  valid = IsValid-pointers a _ _ f.valid;
  unused = f.unused;
  pages = f.pages;
}

updated_keeps :
    (a : Allocator)
    → (allocator_update_biggest_entries_pointers a).first_available_free_entry
      ≡ a.first_available_free_entry
unfolding allocator_update_biggest_entries_pointers
updated_keeps a = refl

-- The allocator that the kernel makes of a memory map at its start is valid, no block of it is used,
-- its free blocks are whole pages, as many as the map has usable entries, and its pointers stand at
-- the two longest of them: if the memory that it lies in is cleared, the usable entries end below
-- 4 GB, and there is at least one and at most 10000 of them.
pub create_physical_memory_allocator-IsValid :
    (a : Allocator) (es : List MapEntry)
    → IsBlank a
    → let left = (memory_table_alloc (get_size_of_memory_allocator 10000) es).1 in
      AllFit left
      → 0 < count_listed left
      → count_listed left ≤ 10000
      → let c = (create_physical_memory_allocator a es).1 in
        IsFilling c × IsRanked c × (c.first_available_free_entry ≡ count_listed left)
unfolding create_physical_memory_allocator
create_physical_memory_allocator-IsValid a es blank fit some_entry few =
    let left = (memory_table_alloc (get_size_of_memory_allocator 10000) es).1 in
    let start = initalize_memory_allocator a 10000 in
    let f =
      add_map_entries-IsFilling left start (initalize_memory_allocator-IsFilling a blank) fit
        (initalize_few a (count_listed left) few) in
    let count : (add_map_entries start left).first_available_free_entry ≡ count_listed left =
      omega (arith, f.1, initalize_none a) in
    let some_free : 0 < (add_map_entries start left).first_available_free_entry =
      omega (arith, count, some_entry) in
    (
      IsFilling-updated (add_map_entries start left) f.0,
      update_biggest-IsRanked (add_map_entries start left) 0
          (omega (arith, f.0.valid.table.free_in, f.0.valid.table.halves, f.0.valid.table.small))
          some_free (f.0.pages 0 some_free).not_empty,
      updated_keeps (add_map_entries start left) ∙ count,
    )

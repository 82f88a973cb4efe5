-- ===== src/Allocator/Valid.antt =====
-- The invariant of the table, and the number of blocks that own an address.
use blesk_os_fork.Base.{ℕ, ◌+◌, ◌-◌, ◌*◌, ◌^◌, ◌≤◌, ◌<◌, ◌≡◌, ◌&&◌, ltb, leb, if◌then◌else◌, length}
use blesk_os_fork.Allocator.Table.{Entry, Allocator, no_entry, entry_at}
use blesk_os_fork.Base.Sums.{sum}

-- The end of the block is where its size says, below the end of the address space; no block starts
-- at the null pointer.
pub record IsBlock (e : Entry) : Type 0 where
  pub ends : e.end_of_memory ≡ e.start_of_memory + e.size_of_memory
  pub no_wrap : e.start_of_memory + e.size_of_memory < 2 ^ 32
  pub not_null : 0 < e.start_of_memory

-- The bounds of the two halves.
pub record IsTable (a : Allocator) : Type 0 where
  pub positive : 0 < a.first_used_entry
  pub halves : a.last_entry ≡ a.first_used_entry * 2
  pub small : a.last_entry < no_entry
  pub room : length a.entries ≡ a.last_entry
  pub free_in : a.first_available_free_entry ≤ a.first_used_entry
  pub used_from : a.first_used_entry ≤ a.first_available_used_entry
  pub used_in : a.first_available_used_entry ≤ a.last_entry

pub record IsValid (a : Allocator) : Type 0 where
  pub table : IsTable a
  pub free_blocks : (k : ℕ) → k < a.first_available_free_entry → IsBlock (entry_at a.entries k)
  pub used_blocks :
      (k : ℕ)
      → a.first_used_entry ≤ k
      → k < a.first_available_used_entry
      → IsBlock (entry_at a.entries k)
  pub cleared :
      (k : ℕ)
      → a.first_available_free_entry ≤ k
      → k < a.first_used_entry
      → ((entry_at a.entries k).start_of_memory ≡ 0) × ((entry_at a.entries k).end_of_memory ≡ 0)

-- 1 if the block holds the address `x`, and 0 if not.
unfoldable pub owns : ℕ → Entry → ℕ
owns x e = if leb e.start_of_memory x && ltb x (e.start_of_memory + e.size_of_memory) then 1 else 0

-- How many free, and how many used, blocks hold the address `x`.
abbrev pub free_owners : Allocator → ℕ → ℕ
free_owners a x = sum (λ k. owns x (entry_at a.entries k)) 0 a.first_available_free_entry

abbrev pub used_owners : Allocator → ℕ → ℕ
used_owners a x =
    sum (λ k. owns x (entry_at a.entries k)) a.first_used_entry
      (a.first_available_used_entry - a.first_used_entry)

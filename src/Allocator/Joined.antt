-- ===== src/Allocator/Joined.antt =====
-- `ma_free` where the block has a free neighbour on both sides.
use blesk_os_fork.Base.{add32, ap, ℕ, ◌+◌, ◌≤◌, ◌<◌, ◌≡◌, ◌≢◌, arith}
use blesk_os_fork.Allocator.Cases.{IsGiven}
use blesk_os_fork.Allocator.Give.{join_three, remove_used_entry}
use blesk_os_fork.Allocator.Steps.{
  dropped_owners, dropped, dropped-IsValid, wrote_owners, entry_at-wrote, wrote-IsValid, wrote,
  IsValid-pointers,
}
use blesk_os_fork.Allocator.StepsUsed.{
  entry_at-gave, keeps-gave, remove_used_entry_owners, remove_used_entry-IsValid,
}
use blesk_os_fork.Allocator.Table.{
  allocator_update_biggest_entries_pointers, entry_at, Entry, Allocator,
}
use blesk_os_fork.Allocator.Valid.{owns, IsValid, IsBlock}

module _ (a : Allocator) (i : ℕ) (v : IsValid a) (lo : a.first_used_entry ≤ i)
    (hi : i < a.first_available_used_entry) where
  abbrev e : Entry
  e = entry_at a.entries i

  e-IsBlock : IsBlock e
  e-IsBlock = v.used_blocks i lo hi

  abbrev joined_entry : ℕ → ℕ → Entry
  joined_entry k l = record (entry_at a.entries k) {
    size_of_memory =
        add32 (entry_at a.entries k).size_of_memory
          (add32 e.size_of_memory (entry_at a.entries l).size_of_memory);
    end_of_memory = (entry_at a.entries l).end_of_memory;
  }

  owns_joined :
      (k l x : ℕ)
      → k < a.first_available_free_entry
      → l < a.first_available_free_entry
      → (entry_at a.entries k).end_of_memory ≡ e.start_of_memory
      → (entry_at a.entries l).start_of_memory ≡ e.end_of_memory
      → owns x (joined_entry k l)
        ≡ owns x (entry_at a.entries k) + owns x e + owns x (entry_at a.entries l)
  unfolding owns
  owns_joined k l x hk hl below above =
      ground (arith, v.free_blocks k hk, v.free_blocks l hl, e-IsBlock)

  -- The free block below takes in the block and the free block above.
  pub joined-IsGiven :
      (k l : ℕ)
      → k < a.first_available_free_entry
      → l < a.first_available_free_entry
      → k ≢ l
      → (entry_at a.entries k).end_of_memory ≡ e.start_of_memory
      → (entry_at a.entries l).start_of_memory ≡ e.end_of_memory
      → IsGiven a i (allocator_update_biggest_entries_pointers (join_three a i k l))
  unfolding join_three allocator_update_biggest_entries_pointers
  joined-IsGiven k l hk hl ne below above =
      let bk = v.free_blocks k hk in
      let bl = v.free_blocks l hl in
      let f = joined_entry k l in
      let w = wrote a k f v hk in
      let wv = wrote-IsValid a k f v hk (ground (arith, bk, bl, e-IsBlock)) in
      let u = remove_used_entry w i in
      let uv = remove_used_entry-IsValid w i wv lo hi in
      let hu : l < u.first_available_free_entry = omega (arith, keeps-gave w i wv lo hi) in
      let dv = dropped-IsValid u l uv hu in
      let joins = λ (x : ℕ). owns_joined k l x hk hl below above in
      let same : entry_at w.entries i ≡ e =
        rw (entry_at-wrote a k f v hk i) (ground (arith, v.table.free_in)) in
      let there : entry_at u.entries l ≡ entry_at a.entries l =
        rw (entry_at-gave w i wv lo hi l, entry_at-wrote a k f v hk l)
          (ground (arith, v.table.free_in)) in
      record {
        valid = IsValid-pointers (dropped u l uv hu) _ _ dv;
        free = λ x. omega (
          arith,
          dropped_owners u l uv hu x,
          remove_used_entry_owners w i wv lo hi x,
          wrote_owners a k f v hk x,
          joins x,
          ap (owns x) there,
        );
        used = λ x. omega (
          arith,
          dropped_owners u l uv hu x,
          remove_used_entry_owners w i wv lo hi x,
          wrote_owners a k f v hk x,
          ap (owns x) same,
        );
      }

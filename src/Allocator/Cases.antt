-- ===== src/Allocator/Cases.antt =====
-- `ma_free` where the block has no free neighbour or one.
use blesk_os_fork.Base.{add32, ap, set, ℕ, ◌+◌, ◌≤◌, ◌<◌, ◌≡◌, arith}
use blesk_os_fork.Allocator.Give.{
  extend_above, add_free_entry, extend_below, remove_used_entry, rank_new, rank_grown,
}
use blesk_os_fork.Allocator.Steps.{
  wrote_owners, entry_at-wrote, wrote-IsValid, wrote, IsValid-pointers,
}
use blesk_os_fork.Allocator.StepsUsed.{
  add_free_entry_owners, add_free_entry-IsValid, fields-added, remove_used_entry_owners,
  remove_used_entry-IsValid,
}
use blesk_os_fork.Allocator.Table.{entry_at, Entry, Allocator}
use blesk_os_fork.Allocator.Valid.{used_owners, owns, free_owners, IsValid, IsBlock}

-- The table gives the used entry `i` back: the invariant holds, every address is held by as many
-- blocks as before, and the used blocks lose exactly that one.
pub record IsGiven (a : Allocator) (i : ℕ) (after : Allocator) : Type 0 where
  pub valid : IsValid after
  pub free : (x : ℕ) → free_owners after x ≡ free_owners a x + owns x (entry_at a.entries i)
  pub used : (x : ℕ) → used_owners after x + owns x (entry_at a.entries i) ≡ used_owners a x

IsGiven-pointers :
    (a : Allocator) (i : ℕ) (after : Allocator) (b s : ℕ)
    → IsGiven a i after
    → IsGiven a i (record after { biggest_free_entry = b; second_biggest_free_entry = s })
IsGiven-pointers a i after b s g = record {
  valid = IsValid-pointers after b s g.valid;
  free = g.free;
  used = g.used;
}

rank_grown_keeps :
    (a : Allocator) (k : ℕ)
    → rank_grown a k ≡ record a {
      biggest_free_entry = (rank_grown a k).biggest_free_entry;
      second_biggest_free_entry = (rank_grown a k).second_biggest_free_entry;
    }
unfolding rank_grown
rank_grown_keeps a k = ground arith

rank_new_keeps :
    (a : Allocator) (k : ℕ)
    → rank_new a k ≡ record a {
      biggest_free_entry = (rank_new a k).biggest_free_entry;
      second_biggest_free_entry = (rank_new a k).second_biggest_free_entry;
    }
unfolding rank_new
rank_new_keeps a k = ground arith

module _ (a : Allocator) (i : ℕ) (v : IsValid a) (lo : a.first_used_entry ≤ i)
    (hi : i < a.first_available_used_entry) where
  abbrev e : Entry
  e = entry_at a.entries i

  e-IsBlock : IsBlock e
  e-IsBlock = v.used_blocks i lo hi

  -- A free entry grows by the block, and the block's entry is removed.
  grown-IsGiven :
      (k : ℕ) (f : Entry)
      → k < a.first_available_free_entry
      → IsBlock f
      → ((x : ℕ) → owns x f ≡ owns x (entry_at a.entries k) + owns x e)
      → IsGiven a i (remove_used_entry (record a { entries = set a.entries k f }) i)
  grown-IsGiven k f h b joins =
      let w = wrote a k f v h in
      let wv = wrote-IsValid a k f v h b in
      let same : entry_at w.entries i ≡ e =
        rw (entry_at-wrote a k f v h i) (ground (arith, v.table.free_in)) in
      record {
        valid = remove_used_entry-IsValid w i wv lo hi;
        free = λ x.
            omega
              (arith, remove_used_entry_owners w i wv lo hi x, wrote_owners a k f v h x, joins x);
        used = λ x. omega (
          arith,
          remove_used_entry_owners w i wv lo hi x,
          wrote_owners a k f v h x,
          ap (owns x) same,
        );
      }

  abbrev below_entry : ℕ → Entry
  below_entry k = record (entry_at a.entries k) {
    size_of_memory = add32 (entry_at a.entries k).size_of_memory e.size_of_memory;
    end_of_memory = e.end_of_memory;
  }

  abbrev above_entry : ℕ → Entry
  above_entry k = record (entry_at a.entries k) {
    start_of_memory = e.start_of_memory;
    size_of_memory = add32 (entry_at a.entries k).size_of_memory e.size_of_memory;
  }

  -- The free block below takes the block in.
  pub below-IsGiven :
      (k : ℕ)
      → k < a.first_available_free_entry
      → (entry_at a.entries k).end_of_memory ≡ e.start_of_memory
      → IsGiven a i (rank_grown (remove_used_entry (extend_below a i k) i) k)
  unfolding extend_below owns
  below-IsGiven k h touch =
      let b = v.free_blocks k h in
      rw rank_grown_keeps (
        IsGiven-pointers a i (remove_used_entry (extend_below a i k) i) _ _ (
          grown-IsGiven k (below_entry k) h (ground (arith, b, e-IsBlock))
            (λ x. ground (arith, b, e-IsBlock))))

  -- The free block above takes the block in.
  pub above-IsGiven :
      (k : ℕ)
      → k < a.first_available_free_entry
      → (entry_at a.entries k).start_of_memory ≡ e.end_of_memory
      → IsGiven a i (rank_grown (remove_used_entry (extend_above a i k) i) k)
  unfolding extend_above owns
  above-IsGiven k h touch =
      let b = v.free_blocks k h in
      rw rank_grown_keeps (
        IsGiven-pointers a i (remove_used_entry (extend_above a i k) i) _ _ (
          grown-IsGiven k (above_entry k) h (ground (arith, b, e-IsBlock))
            (λ x. ground (arith, b, e-IsBlock))))

  -- A free entry of its own is added for the block.
  pub alone-IsGiven :
      a.first_available_free_entry < a.first_used_entry
      → IsGiven a i
          (remove_used_entry (rank_new (add_free_entry a i) a.first_available_free_entry) i)
  unfolding remove_used_entry
  alone-IsGiven room =
      let w = add_free_entry a i in
      let f = fields-added a i v lo hi room in
      let wv = add_free_entry-IsValid a i v lo hi room in
      let o = add_free_entry_owners a i v lo hi room in
      let lo' : w.first_used_entry ≤ i = omega (arith, f.1) in
      let hi' : i < w.first_available_used_entry = omega (arith, f.2) in
      rw rank_new_keeps (record {
        valid = remove_used_entry-IsValid _ i (IsValid-pointers w _ _ wv) lo' hi';
        free = λ x. omega (arith, remove_used_entry_owners w i wv lo' hi' x, o x);
        used = λ x. omega (arith, remove_used_entry_owners w i wv lo' hi' x, o x, ap (owns x) f.3);
      })

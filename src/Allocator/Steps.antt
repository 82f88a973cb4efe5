-- ===== src/Allocator/Steps.antt =====
-- The changes of the free half that `ma_free` is made of, and what each does to the invariant and to
-- the owners of an address.
use blesk_os_fork.Base.{
  ltb, ◌&&◌, inr, ◌==◌, leb, if◌then◌else◌, ap, dec32, suc, set, length-set, ℕ, ◌+◌, ◌-◌, ◌<◌, ◌≡◌,
  arith,
}
use blesk_os_fork.Allocator.Array.{
  entry_at-remove_entry, entry_at-set, sum_outside-remove_entry, sum-remove_entry,
  length-remove_entry,
}
use blesk_os_fork.Allocator.Table.{empty_entry, remove_entry, entry_at, Entry, Allocator}
use blesk_os_fork.Allocator.Valid.{owns, used_owners, free_owners, IsValid, IsBlock}
use blesk_os_fork.Base.Sums.{sum, sum-congr, sum-update}

-- The invariant and the owners do not depend on the two pointers.
pub IsValid-pointers :
    (a : Allocator) (i j : ℕ)
    → IsValid a
    → IsValid (record a { biggest_free_entry = i; second_biggest_free_entry = j })
IsValid-pointers a i j v = record {
  table = ground (arith, v.table);
  free_blocks = v.free_blocks;
  used_blocks = v.used_blocks;
  cleared = v.cleared;
}

-- A free entry is written.
module _ (a : Allocator) (i : ℕ) (e : Entry) (v : IsValid a)
    (h : i < a.first_available_free_entry) where
  abbrev pub wrote : Allocator
  wrote = record a { entries = set a.entries i e }

  pub entry_at-wrote :
      (k : ℕ) → entry_at wrote.entries k ≡ (if k == i then e else entry_at a.entries k)
  entry_at-wrote k =
      entry_at-set a.entries i k e (omega (arith, v.table.free_in, v.table.halves, v.table.room))

  pub wrote-IsValid : IsBlock e → IsValid wrote
  wrote-IsValid b = record {
    table = ground (arith, v.table, length-set a.entries i e);
    free_blocks = λ k p. ground (arith, entry_at-wrote k, v.free_blocks k);
    used_blocks = λ k p q. ground (arith, entry_at-wrote k, v.used_blocks k, v.table.free_in);
    cleared = λ k p q. ground (arith, entry_at-wrote k, v.cleared k);
  }

  pub wrote_owners :
      (x : ℕ)
      → (free_owners wrote x + owns x (entry_at a.entries i) ≡ free_owners a x + owns x e)
        × (used_owners wrote x ≡ used_owners a x)
  wrote_owners x = (
    omega (
      arith,
      sum-update (λ k. owns x (entry_at wrote.entries k)) (λ k. owns x (entry_at a.entries k)) 0
          a.first_available_free_entry i (omega arith) (omega arith)
          (λ k p q ne. ground (arith, entry_at-wrote k)),
      here,
    ),
    sum-congr (λ k. owns x (entry_at wrote.entries k)) (λ k. owns x (entry_at a.entries k))
        a.first_used_entry (a.first_available_used_entry - a.first_used_entry)
        (λ k p q. ground (arith, entry_at-wrote k, v.table.free_in)),
  )
    where
      here : owns x (entry_at wrote.entries i) ≡ owns x e
      here = ground (arith, entry_at-wrote i)

-- A free entry is removed.
module _ (a : Allocator) (i : ℕ) (v : IsValid a) (h : i < a.first_available_free_entry) where
  abbrev pub dropped : Allocator
  dropped = record a {
    entries = remove_entry 0 a.first_used_entry i a.entries;
    first_available_free_entry = dec32 a.first_available_free_entry;
  }

  entry_at-dropped :
      (k : ℕ)
      → entry_at dropped.entries k ≡ (
          if leb i k && ltb (k + 1) a.first_used_entry
          then entry_at a.entries (k + 1)
          else (if k + 1 == a.first_used_entry then empty_entry else entry_at a.entries k))
  entry_at-dropped k =
      ground (arith, v.table, entry_at-remove_entry 0 a.first_used_entry i k a.entries)

  fields-dropped : dropped.first_available_free_entry ≡ a.first_available_free_entry - 1
  fields-dropped = omega (arith, v.table.free_in, v.table.halves, v.table.small)

  pub dropped-IsValid : IsValid dropped
  dropped-IsValid = record {
    table =
        ground
          (arith, v.table, fields-dropped, length-remove_entry 0 a.first_used_entry i a.entries);
    free_blocks = λ k p. ground (
      arith,
      entry_at-dropped k,
      fields-dropped,
      v.free_blocks k,
      v.free_blocks (k + 1),
      v.table.free_in,
    );
    used_blocks = λ k p q. ground (arith, entry_at-dropped k, v.used_blocks k);
    cleared =
        λ k p q. ground (arith, entry_at-dropped k, fields-dropped, v.cleared k, v.cleared (k + 1));
  }

  pub dropped_owners :
      (x : ℕ)
      → (free_owners dropped x + owns x (entry_at a.entries i) ≡ free_owners a x)
        × (used_owners dropped x ≡ used_owners a x)
  dropped_owners x =
      let n : ℕ = a.first_available_free_entry - 1 in
      let e : a.first_available_free_entry ≡ suc n = omega arith in
      (
        rw fields-dropped (
            omega (
              arith,
              sum-remove_entry (owns x) 0 a.first_used_entry i n a.entries (omega arith)
                  (omega arith) (omega (arith, v.table.free_in))
                  (omega (arith, v.table.room, v.table.halves)),
              ap (sum (λ k. owns x (entry_at a.entries k)) 0) e,
            )),
        sum_outside-remove_entry (owns x) 0 a.first_used_entry i a.first_used_entry
            (a.first_available_used_entry - a.first_used_entry) a.entries (omega arith)
            (omega (arith, v.table.free_in)) (omega (arith, v.table.room, v.table.halves))
            (inr (omega arith)),
      )

-- ===== src/Allocator/StepsUsed.antt =====
-- The changes of the table that `ma_free` makes for a used entry, and what each does to the invariant
-- and to the owners of an address.
use blesk_os_fork.Base.{
  ltb, ◌&&◌, ◌==◌, leb, if◌then◌else◌, ap, inl, dec32, suc, length-set, ℕ, ◌+◌, ◌-◌, ◌≤◌, ◌<◌, ◌≡◌,
  refl, arith,
}
use blesk_os_fork.Allocator.Array.{
  entry_at-remove_entry, entry_at-set, sum_outside-remove_entry, sum-remove_entry,
  length-remove_entry,
}
use blesk_os_fork.Allocator.Give.{add_free_entry, remove_used_entry}
use blesk_os_fork.Allocator.Table.{empty_entry, entry_at, Entry, Allocator}
use blesk_os_fork.Allocator.Valid.{owns, used_owners, free_owners, IsValid}
use blesk_os_fork.Base.Sums.{sum-last, sum, sum-congr}
use native.Mathlib.Numerals.{add-one}

-- A used entry is removed.
module _ (a : Allocator) (i : ℕ) (v : IsValid a) (lo : a.first_used_entry ≤ i)
    (hi : i < a.first_available_used_entry) where
  pub entry_at-gave :
      (k : ℕ)
      → entry_at (remove_used_entry a i).entries k ≡ (
          if leb i k && ltb (k + 1) a.last_entry
          then entry_at a.entries (k + 1)
          else (if k + 1 == a.last_entry then empty_entry else entry_at a.entries k))
  unfolding remove_used_entry
  entry_at-gave k =
      ground
        (arith, v.table, entry_at-remove_entry a.first_used_entry a.first_used_entry i k a.entries)

  pub fields-gave :
      (remove_used_entry a i).first_available_used_entry ≡ a.first_available_used_entry - 1
  unfolding remove_used_entry
  fields-gave = omega (arith, v.table.used_in, v.table.small)

  pub keeps-gave : (remove_used_entry a i).first_available_free_entry ≡ a.first_available_free_entry
  unfolding remove_used_entry
  keeps-gave = refl

  pub remove_used_entry-IsValid : IsValid (remove_used_entry a i)
  unfolding remove_used_entry
  remove_used_entry-IsValid = record {
    table = ground (
      arith,
      v.table,
      fields-gave,
      length-remove_entry a.first_used_entry a.first_used_entry i a.entries,
    );
    free_blocks = λ k p. ground (arith, entry_at-gave k, v.free_blocks k, v.table);
    used_blocks = λ k p q.
        ground
          (arith, entry_at-gave k, fields-gave, v.used_blocks k, v.used_blocks (k + 1), v.table);
    cleared = λ k p q. ground (arith, entry_at-gave k, v.cleared k, v.table);
  }

  pub remove_used_entry_owners :
      (x : ℕ)
      → (used_owners (remove_used_entry a i) x + owns x (entry_at a.entries i) ≡ used_owners a x)
        × (free_owners (remove_used_entry a i) x ≡ free_owners a x)
  unfolding remove_used_entry
  remove_used_entry_owners x =
      let n : ℕ = a.first_available_used_entry - a.first_used_entry - 1 in
      let e : a.first_available_used_entry - a.first_used_entry ≡ suc n = omega arith in
      let f : dec32 a.first_available_used_entry - a.first_used_entry ≡ n =
        omega (arith, v.table.used_in, v.table.small) in
      (
        rw f (
            omega (
              arith,
              sum-remove_entry (owns x) a.first_used_entry a.first_used_entry i n a.entries lo
                  (omega arith) (omega (arith, v.table.used_in, v.table.halves))
                  (omega (arith, v.table.room, v.table.halves)),
              ap (sum (λ k. owns x (entry_at a.entries k)) a.first_used_entry) e,
            )),
        sum_outside-remove_entry (owns x) a.first_used_entry a.first_used_entry i 0
            a.first_available_free_entry a.entries lo
            (omega (arith, v.table.used_in, v.table.halves))
            (omega (arith, v.table.room, v.table.halves)) (inl (omega (arith, v.table.free_in))),
      )

-- A used entry is listed as free too.
module _ (a : Allocator) (i : ℕ) (v : IsValid a) (lo : a.first_used_entry ≤ i)
    (hi : i < a.first_available_used_entry)
    (room : a.first_available_free_entry < a.first_used_entry) where
  abbrev listed : Entry
  listed = record (entry_at a.entries i) {
    padding = (entry_at a.entries a.first_available_free_entry).padding;
  }

  entry_at-added :
      (k : ℕ)
      → entry_at (add_free_entry a i).entries k
        ≡ (if k == a.first_available_free_entry then listed else entry_at a.entries k)
  unfolding add_free_entry
  entry_at-added k =
      entry_at-set a.entries a.first_available_free_entry k listed
        (omega (arith, v.table.room, v.table.halves))

  pub fields-added :
      ((add_free_entry a i).first_available_free_entry ≡ a.first_available_free_entry + 1)
      × ((add_free_entry a i).first_used_entry ≡ a.first_used_entry)
      × ((add_free_entry a i).first_available_used_entry ≡ a.first_available_used_entry)
      × (entry_at (add_free_entry a i).entries i ≡ entry_at a.entries i)
  unfolding add_free_entry
  fields-added =
      (omega (arith, v.table.halves, v.table.small), refl, refl, ground (arith, entry_at-added i))

  pub add_free_entry-IsValid : IsValid (add_free_entry a i)
  unfolding add_free_entry
  add_free_entry-IsValid = record {
    table =
        ground (
          arith,
          v.table,
          fields-added.0,
          length-set a.entries a.first_available_free_entry listed,
        );
    free_blocks =
        λ k p. ground (arith, entry_at-added k, fields-added.0, v.free_blocks k, v.used_blocks i);
    used_blocks = λ k p q. ground (arith, entry_at-added k, v.used_blocks k);
    cleared = λ k p q. ground (arith, entry_at-added k, fields-added.0, v.cleared k);
  }

  pub add_free_entry_owners :
      (x : ℕ)
      → (free_owners (add_free_entry a i) x ≡ free_owners a x + owns x (entry_at a.entries i))
        × (used_owners (add_free_entry a i) x ≡ used_owners a x)
  unfolding owns
  add_free_entry_owners x = (
    rw (fields-added.0, add-one)
        (omega (
          arith,
          sum-last new 0 faf,
          sum-congr new old 0 faf (λ k p q. ground (arith, entry_at-added k)),
          here,
          ap new zero_faf,
        )),
    rw (fields-added.1, fields-added.2)
        (sum-congr new old a.first_used_entry (a.first_available_used_entry - a.first_used_entry)
          (λ k p q. ground (arith, entry_at-added k))),
  )
    where
      faf : ℕ
      faf = a.first_available_free_entry

      new : ℕ → ℕ
      new k = owns x (entry_at (add_free_entry a i).entries k)

      old : ℕ → ℕ
      old k = owns x (entry_at a.entries k)

      zero_faf : 0 + faf ≡ faf
      zero_faf = omega arith

      here : new faf ≡ owns x (entry_at a.entries i)
      here = ground (arith, entry_at-added faf)

-- ===== src/Partitions/Added.antt =====
-- Partitions that are added to the list.
use blesk_os_fork.Base.{
  ℕ, ◌≡◌, ◌≢◌, refl, ap, Bool, true, false, ◌||◌, ◌==◌, arith, List, [], ◌∷◌, Bool-cases, inl, inr,
}
use blesk_os_fork.Partitions.{
  read_specific_info, add_new_partition_to_list, Partitions, Partition, add_to_entries,
  is_partition_connected,
}

-- A file system driver leaves what it is not about as it is.
pub record KeepsPartition {ℓ} {World : Type ℓ} (read_info : Partition → World → Partition × World)
    : Type ℓ where
  pub keeps_type : (p : Partition) (w : World) → (read_info p w).0.medium_type ≡ p.medium_type
  pub keeps_number : (p : Partition) (w : World) → (read_info p w).0.medium_number ≡ p.medium_number
  pub keeps_filesystem : (p : Partition) (w : World) → (read_info p w).0.filesystem ≡ p.filesystem
  pub keeps_sector : (p : Partition) (w : World) → (read_info p w).0.first_sector ≡ p.first_sector

-- Some entry is free.
unfoldable pub has_free_entry : List Partition → Bool
has_free_entry [] = false
has_free_entry (p ∷ ps) = p.medium_type == 0 || has_free_entry ps

-- What adding a partition to the entries promises.
pub record IsAdded (medium_type medium_number filesystem first_sector : ℕ) (ps qs : List Partition)
    : Type 0 where
  pub connected :
      has_free_entry ps ≡ true
      → is_partition_connected medium_type medium_number filesystem first_sector qs ≡ true
  pub full : has_free_entry ps ≡ false → qs ≡ ps
  pub still_connected :
      (t n f k : ℕ)
      → t ≢ 0
      → is_partition_connected t n f k ps ≡ true
      → is_partition_connected t n f k qs ≡ true

module _ {ℓ} {World : Type ℓ} {read_info : Partition → World → Partition × World}
    (keeps : KeepsPartition read_info) where
  add_to_entries-IsAdded :
      (t n f k : ℕ) (ps : List Partition) (w : World)
      → IsAdded t n f k ps (add_to_entries read_info t n f k ps w).0
  unfolding add_to_entries has_free_entry is_partition_connected
  add_to_entries-IsAdded t n f k [] w = record {
    connected = ground arith;
    full = λ h. refl;
    still_connected = λ a b c d some h. h;
  }
  add_to_entries-IsAdded t n f k (p ∷ ps) w =
      let rest = add_to_entries-IsAdded t n f k ps w in
      let here : Partition = record p {
        medium_type = t;
        medium_number = n;
        filesystem = f;
        first_sector = k;
      } in
      elim (Bool-cases (p.medium_type == 0)) [
        | inl e ↦
            rw
              (
                e,
                keeps.keeps_type here w,
                keeps.keeps_number here w,
                keeps.keeps_filesystem here w,
                keeps.keeps_sector here w,
              )
              (record {
                connected = λ h. ground arith;
                full = ground arith;
                still_connected = λ a b c d some h. ground arith;
              })
        | inr e ↦ rw e (record {
          connected = λ h.
              (let more : has_free_entry ps ≡ true = ground arith in
                let r = rest.connected more in ground arith);
          full = λ h.
              (let more : has_free_entry ps ≡ false = ground arith in
                ap (λ qs. p ∷ qs) (rest.full more));
          still_connected =
              λ a b c d some h. (let r = rest.still_connected a b c d some in ground arith);
        })
      ]

module _ {ℓ} {World : Type ℓ} {fat ext iso9660 cdda : Partition → World → Partition × World}
    (keeps_fat : KeepsPartition fat) (keeps_ext : KeepsPartition ext)
    (keeps_iso9660 : KeepsPartition iso9660) (keeps_cdda : KeepsPartition cdda) where
  read_specific_info_dispatch :
      (C : Partition × World → Type 0) (p : Partition) (w : World)
      → C (fat p w)
      → C (ext p w)
      → C (iso9660 p w)
      → C (cdda p w)
      → C (p, w)
      → C (read_specific_info fat ext iso9660 cdda p w)
  unfolding read_specific_info
  read_specific_info_dispatch C p w c2 c3 c4 c5 c6 = elim (Bool-cases (p.filesystem == 2)) [
    | inl e ↦ rw e c2
    | inr n2 ↦ elim (Bool-cases (p.filesystem == 3)) [
      | inl e ↦ rw (n2, e) c3
      | inr n3 ↦ elim (Bool-cases (p.filesystem == 4)) [
        | inl e ↦ rw (n2, n3, e) c4
        | inr n4 ↦ elim (Bool-cases (p.filesystem == 5)) [
          | inl e ↦ rw (n2, n3, n4, e) c5
          | inr n5 ↦ rw (n2, n3, n4, n5) c6
        ]
      ]
    ]
  ]

  read_specific_info-KeepsPartition : KeepsPartition (read_specific_info fat ext iso9660 cdda)
  read_specific_info-KeepsPartition = record {
    keeps_type = λ p w.
        read_specific_info_dispatch (λ r. r.0.medium_type ≡ p.medium_type) p w
          (keeps_fat.keeps_type p w) (keeps_ext.keeps_type p w) (keeps_iso9660.keeps_type p w)
          (keeps_cdda.keeps_type p w) refl;
    keeps_number = λ p w.
        read_specific_info_dispatch (λ r. r.0.medium_number ≡ p.medium_number) p w
          (keeps_fat.keeps_number p w) (keeps_ext.keeps_number p w) (keeps_iso9660.keeps_number p w)
          (keeps_cdda.keeps_number p w) refl;
    keeps_filesystem = λ p w.
        read_specific_info_dispatch (λ r. r.0.filesystem ≡ p.filesystem) p w
          (keeps_fat.keeps_filesystem p w) (keeps_ext.keeps_filesystem p w)
          (keeps_iso9660.keeps_filesystem p w) (keeps_cdda.keeps_filesystem p w) refl;
    keeps_sector = λ p w.
        read_specific_info_dispatch (λ r. r.0.first_sector ≡ p.first_sector) p w
          (keeps_fat.keeps_sector p w) (keeps_ext.keeps_sector p w) (keeps_iso9660.keeps_sector p w)
          (keeps_cdda.keeps_sector p w) refl;
  }

  -- A partition that is added counts as connected afterwards, if an entry of the list is free, else the
  -- list stays; and what was connected on a medium stays connected. The file system drivers are asked to
  -- leave the medium, the file system and the first sector of the entry as they are.
  pub add_new_partition_to_list-IsAdded :
      (medium_type medium_number filesystem first_sector : ℕ) (s : Partitions World)
      → IsAdded medium_type medium_number filesystem first_sector s.connected_partitions
          (add_new_partition_to_list fat ext iso9660 cdda medium_type medium_number filesystem
            first_sector s).connected_partitions
  unfolding add_new_partition_to_list
  add_new_partition_to_list-IsAdded t n f k s =
      add_to_entries-IsAdded read_specific_info-KeepsPartition t n f k s.connected_partitions
        s.files.world

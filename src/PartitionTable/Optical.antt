-- ===== src/PartitionTable/Optical.antt =====
-- What is connected of an optical disk.
use blesk_os_fork.Base.{
  ℕ, zero, suc, ◌≡◌, refl, true, false, ◌||◌, ◌==◌, if◌then◌else◌, ◌∙◌, ap, inl, inr, Bool-cases,
  ==_false, arith,
}
use blesk_os_fork.PartitionTable.{
  PartitionInfo, PartitionTable, Driver, set_partition, cleared_table, read_partitions_of_medium,
  optical_disk_type, is_connectable, connect_partitions, connect_partitions_of_medium,
}
use blesk_os_fork.Partitions.{Partitions}

abbrev pub optical_disk : Driver → PartitionInfo
optical_disk r = record {
  type = optical_disk_type r;
  first_sector = 0;
  num_of_sectors = r.optical_disk_size;
}

module _ {ℓ} {World : Type ℓ}
    (add_new_partition_to_list : ℕ → ℕ → ℕ → ℕ → Partitions World → Partitions World)
    (number : ℕ) where
  -- Partitions of the type 0 at the sector 0 of an optical disk.
  unfoldable pub add_empty : ℕ → Partitions World → Partitions World
  add_empty zero s = s
  add_empty (suc k) s = add_empty k (add_new_partition_to_list 2 number 0 0 s)

  connect_empty :
      (k i : ℕ) (p : PartitionInfo) (t : PartitionTable) (s : Partitions World)
      → connect_partitions add_new_partition_to_list 2 number k
          (suc i)
          (set_partition 0 p (cleared_table t)).partitions
          s
        ≡ add_empty k s
  unfolding connect_partitions add_empty
  connect_empty zero i p t s = refl
  connect_empty (suc k) i p t s =
      let behind : (suc i == 0) ≡ false = ==_false (omega arith) in
      rw behind (connect_empty k (suc i) p t (add_new_partition_to_list 2 number 0 0 s))

  -- Whether the disk has a file system that is known.
  abbrev pub add_disk : Driver → Partitions World → Partitions World
  add_disk r s =
      if optical_disk_type r == 4 || optical_disk_type r == 5
      then add_new_partition_to_list 2 number (optical_disk_type r) 0 s
      else s

  connect_disk :
      (r : Driver) (s : Partitions World)
      → (if is_connectable (optical_disk r)
          then add_new_partition_to_list 2 number (optical_disk_type r) 0 s
          else s)
        ≡ add_disk r s
  connect_disk r s = elim (Bool-cases (r.is_partition_iso9660 0)) [
    | inl iso ↦ rw iso refl
    | inr not_iso ↦ elim (Bool-cases r.is_optical_disk_cdda) [
      | inl cdda ↦ rw (not_iso, cdda) refl
      | inr not_cdda ↦ elim (Bool-cases r.is_optical_disk_free) [
        | inl free ↦ rw (not_iso, not_cdda, free) refl
        | inr unknown ↦ rw (not_iso, not_cdda, unknown) refl
      ]
    ]
  ]

  -- What the counter of the table makes of the disk.
  unfoldable pub connected_by_count : ℕ → Driver → Partitions World → Partitions World
  connected_by_count zero r s = s
  connected_by_count (suc k) r s = add_empty k (add_disk r s)

  connect-connected_by_count :
      (n : ℕ) (r : Driver) (t : PartitionTable) (s : Partitions World)
      → connect_partitions add_new_partition_to_list 2 number n 0
          (set_partition 0 (optical_disk r) (cleared_table t)).partitions
          s
        ≡ connected_by_count n r s
  unfolding connect_partitions connected_by_count
  connect-connected_by_count zero r t s = refl
  connect-connected_by_count (suc k) r t s =
      connect_empty k 0 (optical_disk r) t (
        if is_connectable (optical_disk r)
        then add_new_partition_to_list 2 number (optical_disk_type r) 0 s
        else s)
      ∙ ap (add_empty k) (connect_disk r s)

  -- On an optical disk the counter that the table had before decides what
  -- connect_partitions_of_medium adds: with 0 nothing, else the disk, if its file system is
  -- known, and for each further one an empty partition of the type 0.
  pub connect_partitions_of_medium-connected_by_count :
      (r : Driver) (t : PartitionTable) (s : Partitions World)
      → r.detect_optical_disk ≡ true
      → (connect_partitions_of_medium add_new_partition_to_list 2 number r t s).1
        ≡ connected_by_count t.number_of_partitions_in_table r s
  unfolding connect_partitions_of_medium read_partitions_of_medium
  connect_partitions_of_medium-connected_by_count r t s disk =
      let whole = set_partition 0 (optical_disk r) (cleared_table t) in
      ap
        (λ q.
          connect_partitions add_new_partition_to_list 2 number q.number_of_partitions_in_table 0
            q.partitions s)
        (ap (λ d. if d then whole else cleared_table t) disk)
      ∙ connect-connected_by_count t.number_of_partitions_in_table r t s

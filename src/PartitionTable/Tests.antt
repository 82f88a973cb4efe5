-- ===== src/PartitionTable/Tests.antt =====
-- A disk with one FAT partition, and an optical disk with ISO9660.
use blesk_os_fork.Base.{ℕ, ◌==◌, ◌≡◌, refl, true, false, if◌then◌else◌, some, [], arith}
use blesk_os_fork.PartitionTable.{
  PartitionTable, Bytes, Driver, read_partitions_of_medium, connect_partitions_of_medium,
}
use blesk_os_fork.PartitionTable.Listed.{IsDiskTable, read_partitions_of_medium-IsDiskTable}
use blesk_os_fork.PartitionTable.Optical.{
  connected_by_count, connect_partitions_of_medium-connected_by_count,
}
use blesk_os_fork.Partitions.{
  Partition, Partitions, add_new_partition_to_list, initalize_list_of_connected_partitions,
}

abbrev boot_sector : Bytes
boot_sector at = if at == 0x1C2 then 6 else if at == 0x1C6 then 63 else if at == 0x1CB then 4 else 0

abbrev media : Driver
media = record {
  read_storage_medium = λ s n. some boot_sector;
  is_partition_fat = λ s. s == 63;
  is_partition_ext = λ s. false;
  is_partition_bleskos_bootable_partition = λ s. false;
  detect_optical_disk = true;
  optical_disk_size = 1000;
  is_partition_iso9660 = λ s. true;
  is_optical_disk_cdda = false;
  is_optical_disk_free = false;
}

abbrev old_table : PartitionTable
old_table = record {
  partitions = λ i. record { type = 0; first_sector = 0; num_of_sectors = 0 };
  number_of_partitions_in_table = 3;
}

read_partitions_of_medium-IsDiskTable_example :
    IsDiskTable media (read_partitions_of_medium media 1 old_table)
read_partitions_of_medium-IsDiskTable_example =
    read_partitions_of_medium-IsDiskTable media 1 boot_sector old_table (omega arith) refl

-- A file system that reads nothing into the entry.
abbrev no_info : Partition → ℕ → Partition × ℕ
no_info p w = (p, w)

abbrev add_new : ℕ → ℕ → ℕ → ℕ → Partitions ℕ → Partitions ℕ
add_new = add_new_partition_to_list no_info no_info no_info no_info

abbrev no_partitions : Partitions ℕ
no_partitions = initalize_list_of_connected_partitions (record {
  connected_partitions = [];
  files = record {
    selected_partition = 0;
    array_of_loaded_folders = [];
    folder_structures = [];
    world = 0;
  };
})

connect_partitions_of_medium-connected_by_count_example :
    (connect_partitions_of_medium add_new 2 0 media old_table no_partitions).1
    ≡ connected_by_count add_new 0 3 media no_partitions
connect_partitions_of_medium-connected_by_count_example =
    connect_partitions_of_medium-connected_by_count add_new 0 media old_table no_partitions refl

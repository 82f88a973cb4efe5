-- ===== src/Partitions/Tests.antt =====
-- A list of three entries: a FAT partition on the hard disk 0, one on the USB stick 1, and a free entry.
use blesk_os_fork.Base.{ℕ, refl, arith, List, [], ◌∷◌}
use blesk_os_fork.Partitions.{
  Partition, Partitions, cleared_partition, add_new_partition_to_list,
  remove_partitions_of_medium_from_list, select_partition,
}
use blesk_os_fork.Partitions.Added.{KeepsPartition, IsAdded, add_new_partition_to_list-IsAdded}
use blesk_os_fork.Partitions.Selected.{IsSelected, select_partition-IsSelected}
use blesk_os_fork.Partitions.Removed.{
  NoneLoaded, NoStructure, FreeUnused, IsRemoved, remove_partitions_of_medium_from_list-IsRemoved,
}

abbrev partition : ℕ → ℕ → ℕ → ℕ → Partition
partition medium_type medium_number sector pointer = record {
  medium_type = medium_type;
  medium_number = medium_number;
  filesystem = 2;
  first_sector = sector;
  partition_label = [];
  filesystem_specific_info_pointer = pointer;
}

-- The stick is selected, a folder of it is loaded, and a window shows it. The world is the list of what was freed.
abbrev connected : Partitions (List ℕ)
connected = record {
  connected_partitions = partition 1 0 63 4096 ∷ partition 3 1 0 8192 ∷ cleared_partition ∷ [];
  files = record {
    selected_partition = 1;
    array_of_loaded_folders =
        record {
          state = 1;
          partition_number = 1;
          folder_location = 0;
          memory_of_entries = 12288;
          number_of_files = 3;
          number_of_structures_using_this_folder = 1;
        }
        ∷ [];
    folder_structures =
        record { structure_partition = 1; folder_number_in_array_of_loaded_folders = 0 } ∷ [];
    world = [];
  };
}

abbrev free : ℕ → List ℕ → List ℕ
free p w = p ∷ w

connected-FreeUnused : FreeUnused 0 connected.connected_partitions connected.files
unfolding FreeUnused NoneLoaded NoStructure
connected-FreeUnused = (
  (λ e. absurd (omega arith)),
  (
    (λ e. absurd (omega arith)),
    (
      (λ e. record {
        not_selected = omega arith;
        none_loaded = ((λ h. omega arith), omega arith);
        no_structure = (omega arith, omega arith);
      }),
      omega arith,
    ),
  ),
)

remove_partitions_of_medium_from_list-IsRemoved_example :
    IsRemoved 3 1 connected (remove_partitions_of_medium_from_list free 3 1 connected)
remove_partitions_of_medium_from_list-IsRemoved_example =
    remove_partitions_of_medium_from_list-IsRemoved free 3 1 connected (omega arith) (omega arith)
      connected-FreeUnused

-- A driver that sets the pointer.
abbrev read_info : Partition → List ℕ → Partition × List ℕ
read_info p w = (record p { filesystem_specific_info_pointer = 16384 }, w)

read_info-KeepsPartition : KeepsPartition read_info
read_info-KeepsPartition = record {
  keeps_type = λ p w. refl;
  keeps_number = λ p w. refl;
  keeps_filesystem = λ p w. refl;
  keeps_sector = λ p w. refl;
}

add_new_partition_to_list-IsAdded_example :
    IsAdded 1 0 2 1000 connected.connected_partitions
      (add_new_partition_to_list read_info read_info read_info read_info 1 0 2 1000
        connected).connected_partitions
add_new_partition_to_list-IsAdded_example =
    add_new_partition_to_list-IsAdded read_info-KeepsPartition read_info-KeepsPartition
      read_info-KeepsPartition read_info-KeepsPartition 1 0 2 1000 connected

abbrev select_storage_medium : ℕ → ℕ → List ℕ → List ℕ
select_storage_medium medium_type medium_number w = medium_type ∷ medium_number ∷ w

select_partition-IsSelected_example :
    IsSelected select_storage_medium 0 connected
      (select_partition select_storage_medium 0 connected)
select_partition-IsSelected_example =
    select_partition-IsSelected select_storage_medium 0 connected connected-FreeUnused

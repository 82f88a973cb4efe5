-- ===== src/Fat/Tests.antt =====
-- Files on a small volume with entries of 12 bits.
use blesk_os_fork.Base.{
  ◌+◌, ℕ, ◌*◌, ◌/◌, ◌%◌, ◌<◌, ◌≤◌, ◌≡◌, ◌≢◌, ◌⊎◌, ◌↔◌, refl, Bool, true, false, ◌==◌, if◌then◌else◌,
  arith, [], ◌∷◌, length, Bool-cases, inl, inr, sym, ap, ◌∙◌,
}
use blesk_os_fork.Fat.{fat12, Sector, StorageMedium, Volume, set_byte, write_fat_table_entry}
use blesk_os_fork.Fat.Chain.{elem, chain, IsCleared, delete_fat_file-IsCleared}
use blesk_os_fork.Fat.Create.{number_of_clusters_in_file, create_fat_file}
use blesk_os_fork.Fat.Created.{IsFormatted, IsWriter, IsNewFile}
use blesk_os_fork.Fat.Entry.{table_entry, IsVolume, last_byte}
use blesk_os_fork.Fat.File.{read_fat_file, delete_fat_file}
use blesk_os_fork.Fat.NewFile.{
  Creates, create_fat_file-IsNewFile, read_fat_file-create_fat_file,
  delete_fat_file-create_fat_file,
}
use blesk_os_fork.Fat.Put.{IsPut, write_fat_table_entry-IsPut}
use blesk_os_fork.Fat.ReadFile.{
  IsFile, last_cluster, next_cluster, IsReadFile, read_fat_file-IsReadFile,
}
use blesk_os_fork.Fat.Refused.{
  IsRefused, create_fat_file-IsRefused, number_of_clusters_in_file-holds,
}
use blesk_os_fork.Fat.Search.{free_clusters}
use blesk_os_fork.Fat.Sequence.{IsDataArea}
use blesk_os_fork.Fat.Table.{IsClean}
use blesk_os_fork.Fat.Taken.{free_for_file}
use blesk_os_fork.Fat.View.{entry_of}
use blesk_os_fork.Sectors.{Descriptor, Outcome, good}
use blesk_os_fork.Sectors.Sequence.{sectors_of}

-- A table with the chain of the clusters 2 and 3, and one without a chain.
abbrev used_table : Sector
used_table = set_byte 5 0xFF (set_byte 4 0x80 (set_byte 3 3 (λ o. 0)))

abbrev empty_table : Sector
empty_table o = 0

abbrev small_volume : Sector → Volume
small_volume table = record {
  fat_info = record {
    type = fat12;
    total_number_of_sectors = 10;
    fat_table_first_sector = 1;
    fat_table_size_in_sectors = 1;
    number_of_fat_tables = 2;
    data_first_sector = 4;
    cluster_size_in_sectors = 1;
    cluster_size_in_bytes = 512;
    number_of_clusters = 10;
    loaded_fat_table_sector = 0;
    fat_table_sector = table;
    root_directory_location = 3;
    root_directory_size_in_sectors = 1;
    file_ending_entry_value = 0xFF8;
    first_free_cluster = 2;
  };
  medium = record { sectors = λ s. table; fails = λ s. false; debris = λ o. 0 };
}

small_volume-IsVolume : (table : Sector) → ((k : ℕ) → table k < 256) → IsVolume (small_volume table)
unfolding last_byte
small_volume-IsVolume table bytes = record {
  ready = record {
    never_fails = λ s. refl;
    in_table = omega arith;
    some_table = omega arith;
    on_medium = omega arith;
  };
  covered = λ e h. omega arith;
  in_words = omega arith;
  bytes = λ k h. elim (Bool-cases (0 == k / 512)) [
    | inl e ↦ rw e (bytes (k % 512))
    | inr e ↦ rw e (bytes (k % 512))
  ];
}

used_bytes : (k : ℕ) → used_table k < 256
used_bytes k = ground arith

empty_bytes : (k : ℕ) → empty_table k < 256
empty_bytes k = omega arith

small_volume-IsClean : (table : Sector) → IsClean (small_volume table)
unfolding IsClean
small_volume-IsClean table o = refl

small_area : (table : Sector) → IsDataArea (small_volume table).fat_info
small_area table = record { some_sectors = omega arith; on_medium = omega arith }

small_volume-IsFormatted : IsFormatted (small_volume empty_table)
small_volume-IsFormatted = record {
  volume = small_volume-IsVolume empty_table empty_bytes;
  area = small_area empty_table;
  first_low = omega arith;
  first_high = omega arith;
  no_cluster_ends = omega arith;
  ending_fits = omega arith;
  tables_before_data = omega arith;
}

-- A writer that fills the sectors of the descriptor.
abbrev fill : Descriptor → StorageMedium → Bool × StorageMedium
fill d m =
    (true, record m { sectors = λ s. if elem s (sectors_of d.runs) then (λ o. 7) else m.sectors s })

fill-IsWriter : IsWriter fill
fill-IsWriter = record {
  succeeds = λ d m. refl;
  same_fails = λ d m. refl;
  same_sectors = λ d m s other. rw other refl;
}

used_chain : chain 0xFF8 (entry_of (small_volume used_table)) 10 2 ≡ 2 ∷ 3 ∷ []
unfolding chain entry_of table_entry
used_chain = refl

-- The two clusters are among the ten.
two_inside : (d : ℕ) → elem d (2 ∷ 3 ∷ []) ≡ true → (2 ≤ d) × (d < 10)
unfolding elem
two_inside d there = ground arith

free_two : free_for_file (small_volume empty_table) 2 ≡ 2 ∷ 3 ∷ []
unfolding free_clusters entry_of table_entry
free_two = refl

write_fat_table_entry-IsPut_example :
    IsPut 3 0 (small_volume used_table) (write_fat_table_entry 3 0 (small_volume used_table))
write_fat_table_entry-IsPut_example =
    write_fat_table_entry-IsPut 3 0 (small_volume used_table)
      (small_volume-IsVolume used_table used_bytes) (omega arith)

delete_fat_file-IsCleared_example :
    ((delete_fat_file 2 (small_volume used_table)).0 ≡ true)
    × IsCleared
        (chain 0xFF8 (entry_of (small_volume used_table)) 10 2)
        (small_volume used_table)
        (delete_fat_file 2 (small_volume used_table)).1
    × IsClean (delete_fat_file 2 (small_volume used_table)).1
delete_fat_file-IsCleared_example =
    delete_fat_file-IsCleared 2 (small_volume used_table)
      (small_volume-IsVolume used_table used_bytes) (small_volume-IsClean used_table)
      (λ d there. (two_inside d (sym (ap (elem d) used_chain) ∙ there)).1)

used-IsFile : IsFile 0xFF8 (entry_of (small_volume used_table)) (2 ∷ 3 ∷ [])
unfolding entry_of table_entry
used-IsFile = next_cluster refl (omega arith) (last_cluster (omega arith))

-- A device that reads every file to the address 4096.
abbrev read_whole : Descriptor → Volume → ℕ × Outcome Volume
read_whole d v = (
  4096,
  good (record {
    file_memory_pointer = 4096 + 512 * d.number_of_sectors;
    completed = 512 * d.number_of_sectors;
    world = v;
  }),
)

read_fat_file-IsReadFile_example :
    IsReadFile read_whole
      (2 ∷ 3 ∷ [])
      (small_volume used_table)
      (read_fat_file read_whole 2 (small_volume used_table))
read_fat_file-IsReadFile_example =
    read_fat_file-IsReadFile read_whole 2 (3 ∷ []) (small_volume used_table)
      (small_volume-IsVolume used_table used_bytes) (small_volume-IsClean used_table)
      (small_area used_table) used-IsFile (omega arith) (omega arith) two_inside

create_fat_file-IsNewFile_example :
    IsNewFile
      (2 ∷ 3 ∷ [])
      (small_volume empty_table)
      (create_fat_file fill 0 1000 (small_volume empty_table))
create_fat_file-IsNewFile_example =
    create_fat_file-IsNewFile fill fill-IsWriter 2 (3 ∷ []) 1000 (small_volume empty_table)
      small_volume-IsFormatted (small_volume-IsClean empty_table) (omega arith) (omega arith)
      free_two refl

read_fat_file-create_fat_file_example :
    Creates
      (λ first w.
        (first ≡ 2) × IsReadFile read_whole (2 ∷ 3 ∷ []) w (read_fat_file read_whole first w))
      (create_fat_file fill 0 1000 (small_volume empty_table))
read_fat_file-create_fat_file_example =
    read_fat_file-create_fat_file fill fill-IsWriter 2 (3 ∷ []) 1000 (small_volume empty_table)
      small_volume-IsFormatted (small_volume-IsClean empty_table) (omega arith) (omega arith)
      free_two refl read_whole (omega arith)

delete_fat_file-create_fat_file_example :
    Creates
      (λ first w.
        ((delete_fat_file first w).0 ≡ true)
        × ((d : ℕ)
            → d < 10
            → entry_of (delete_fat_file first w).1 d ≡ entry_of (small_volume empty_table) d))
      (create_fat_file fill 0 1000 (small_volume empty_table))
delete_fat_file-create_fat_file_example =
    delete_fat_file-create_fat_file fill fill-IsWriter 2 (3 ∷ []) 1000 (small_volume empty_table)
      small_volume-IsFormatted (small_volume-IsClean empty_table) (omega arith) (omega arith)
      free_two refl

free_nine : length (free_for_file (small_volume empty_table) 9) < 9
unfolding free_clusters entry_of table_entry
free_nine = omega arith

create_fat_file-IsRefused_example :
    IsRefused (small_volume empty_table) (create_fat_file fill 0 4500 (small_volume empty_table))
create_fat_file-IsRefused_example =
    create_fat_file-IsRefused fill 4500 (small_volume empty_table) small_volume-IsFormatted
      (small_volume-IsClean empty_table) (omega arith) (omega arith) (omega arith) free_nine

number_of_clusters_in_file-holds_example :
    (1536 ≤ number_of_clusters_in_file 1024 1536 * 1024) ↔ ((1536 % 512 ≢ 0) ⊎ (1536 % 1024 ≡ 0))
number_of_clusters_in_file-holds_example =
    number_of_clusters_in_file-holds 1024 1536 (omega arith) (omega arith)

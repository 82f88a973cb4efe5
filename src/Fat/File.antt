-- ===== src/Fat/File.antt =====
-- source/drivers/filesystems/filesystem_fat.c: files as chains of clusters.
use blesk_os_fork.Base.{
  ℕ, zero, suc, ◌+◌, ◌-◌, ◌*◌, ◌^◌, Bool, true, false, ltb, leb, ◌||◌, if◌then◌else◌, Option, none,
  some, List, [], ◌∷◌, u32, add32,
}
use blesk_os_fork.Fat.{
  FatInfo, Volume, read_fat_table_entry, write_fat_table_entry, save_loaded_fat_table_sector,
}
use blesk_os_fork.Sectors.{
  Descriptor, create_descriptor_of_file_sectors, add_sectors_to_descriptor_of_file_sectors, Outcome,
  status_error,
}

-- The sectors of a cluster are added.
abbrev pub add_sectors_of_cluster : FatInfo → Descriptor → ℕ → Descriptor
add_sectors_of_cluster f d cluster =
    add_sectors_to_descriptor_of_file_sectors d
      (u32 (f.data_first_sector + (cluster + (2 ^ 32 - 2)) * f.cluster_size_in_sectors))
      f.cluster_size_in_sectors

-- The loop of read_fat_file with `n` left: the sectors of the file, or nothing where a cluster is
-- invalid, and size_of_loaded_fat_file_in_memory.
unfoldable pub sectors_of_file : ℕ → ℕ → Descriptor → ℕ → Volume → Option Descriptor × ℕ × Volume
sectors_of_file zero cluster d size v = (some d, size, v)
sectors_of_file (suc n) cluster d size v =
    let e = add_sectors_of_cluster v.fat_info d cluster in
    let (value, w) = read_fat_table_entry cluster v in
    let read = add32 size v.fat_info.cluster_size_in_bytes in
    let rest = sectors_of_file n value e read w in
    if ltb cluster 2 || leb v.fat_info.number_of_clusters cluster
    then (none, size, v)
    else if leb v.fat_info.file_ending_entry_value value
    then (some e, read, w)
    else rest

-- What follows the loop: the sectors that it found are read.
unfoldable pub read_found :
    (read_whole : Descriptor → Volume → ℕ × Outcome Volume)
    → Option Descriptor
    → ℕ
    → Volume
    → ℕ × ℕ × Outcome Volume
read_found read_whole none size v = (size, 0, status_error v)
read_found read_whole (some d) size v = (size, (read_whole d v).0, (read_whole d v).1)

-- size_of_loaded_fat_file_in_memory beside the memory of the file and how its reading ended. `read_whole`
-- is read_whole_descriptor_of_file_sector with its devices, on the machine that the volume is.
unfoldable pub read_fat_file :
    (read_whole : Descriptor → Volume → ℕ × Outcome Volume) → ℕ → Volume → ℕ × ℕ × Outcome Volume
read_fat_file read_whole cluster v =
    let (found, size, w) =
      sectors_of_file v.fat_info.number_of_clusters cluster (create_descriptor_of_file_sectors 512)
        0 v in
    read_found read_whole found size w

-- The entry of a last cluster, of a bad one, or a value that is no cluster.
abbrev pub is_end_of_chain : ℕ → ℕ → Bool
is_end_of_chain ending value = leb (u32 (ending + (2 ^ 32 - 1))) value || ltb value 2

-- The first loop of delete_fat_file with `n` left.
unfoldable pub clusters_of_file : ℕ → ℕ → Volume → List ℕ × Volume
clusters_of_file zero cluster v = ([], v)
clusters_of_file (suc n) cluster v =
    let (value, w) = read_fat_table_entry cluster v in
    let (rest, u) = clusters_of_file n value w in
    if is_end_of_chain v.fat_info.file_ending_entry_value value
    then (cluster ∷ [], w)
    else (cluster ∷ rest, u)

-- The second loop.
unfoldable pub clear_entries : List ℕ → Volume → Bool × Volume
clear_entries [] v = (true, v)
clear_entries (c ∷ cs) v =
    let (is_written, w) = write_fat_table_entry c 0 v in
    let rest = clear_entries cs w in if is_written then rest else (false, w)

-- The changes of the table are saved, unless one could not be made.
abbrev pub save_if_written : Bool × Volume → Bool × Volume
save_if_written (is_written, v) = if is_written then save_loaded_fat_table_sector v else (false, v)

unfoldable pub delete_fat_file : ℕ → Volume → Bool × Volume
delete_fat_file cluster v =
    let (clusters, w) = clusters_of_file v.fat_info.number_of_clusters cluster v in
    save_if_written (clear_entries clusters w)

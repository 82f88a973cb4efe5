-- ===== src/Fat/Create.antt =====
-- source/drivers/filesystems/filesystem_fat.c: create_fat_file and rewrite_fat_file.
use blesk_os_fork.Base.{
  ℕ, zero, suc, ◌-◌, ◌/◌, ◌%◌, Bool, true, false, ltb, ◌==◌, ◌||◌, if◌then◌else◌, List, [], ◌∷◌,
  ◌++◌, get_or, take, add32,
}
use blesk_os_fork.Fat.{FatInfo, StorageMedium, Volume, read_fat_table_entry, write_fat_table_entry}
use blesk_os_fork.Fat.File.{add_sectors_of_cluster, save_if_written, delete_fat_file}
use blesk_os_fork.Sectors.{Descriptor, create_descriptor_of_file_sectors}

-- How many clusters the file is given.
abbrev pub number_of_clusters_in_file : ℕ → ℕ → ℕ
number_of_clusters_in_file cluster_size_in_bytes file_size_in_bytes =
    let n = file_size_in_bytes / cluster_size_in_bytes in
    if file_size_in_bytes % 512 == 0 then n else add32 n 1

-- The clusters found for a file, and their sectors.
pub record Found : Type 0 where
  pub clusters_of_file : List ℕ
  pub descriptor_of_file_sectors : Descriptor
  pub number_of_finded_free_clusters : ℕ

abbrev pub add_found : FatInfo → ℕ → Found → Found
add_found f cluster found = record {
  clusters_of_file = found.clusters_of_file ++ (cluster ∷ []);
  descriptor_of_file_sectors = add_sectors_of_cluster f found.descriptor_of_file_sectors cluster;
  number_of_finded_free_clusters = add32 found.number_of_finded_free_clusters 1;
}

abbrev pub fat_find_free_cluster : ℕ
fat_find_free_cluster = 0

abbrev pub nothing_found : Found
nothing_found = record {
  clusters_of_file = [];
  descriptor_of_file_sectors = create_descriptor_of_file_sectors 512;
  number_of_finded_free_clusters = 0;
}

-- The first cluster is taken as it is given.
abbrev pub start_of_search : ℕ → FatInfo → Found
start_of_search first_cluster f =
    if first_cluster == fat_find_free_cluster
    then nothing_found
    else add_found f first_cluster nothing_found

-- One cluster is tested, and taken if it is free.
abbrev pub try_cluster : ℕ → ℕ → Found → Volume → Found × Volume
try_cluster cluster first_cluster found v =
    let (value, w) = read_fat_table_entry cluster v in
    if cluster == first_cluster
    then (found, v)
    else if value == 0
    then (add_found v.fat_info cluster found, w)
    else (found, w)

-- The search from `cluster` on, with `n` clusters left.
unfoldable pub find_free_clusters : ℕ → ℕ → ℕ → ℕ → Found → Volume → Found × Volume
find_free_clusters zero cluster first_cluster wanted found v = (found, v)
find_free_clusters (suc n) cluster first_cluster wanted found v =
    let (next, w) = try_cluster cluster first_cluster found v in
    let rest = find_free_clusters n (suc cluster) first_cluster wanted next w in
    if found.number_of_finded_free_clusters == wanted then (found, v) else rest

abbrev pub set_first_free_cluster : ℕ → Volume → Volume
set_first_free_cluster c v = record v { fat_info = record v.fat_info { first_free_cluster = c } }

-- The next search begins at the first cluster that was found. `calloc` has cleared the stream, from
-- which a 0 comes where no cluster was found.
abbrev pub raise_first_free_cluster : ℕ → ℕ → List ℕ → Volume → Volume
raise_first_free_cluster first_cluster wanted clusters v =
    let first = get_or clusters 0 0 in
    let second = get_or clusters 1 0 in
    if first_cluster == fat_find_free_cluster
    then (if ltb v.fat_info.first_free_cluster first then set_first_free_cluster first v else v)
    else if ltb 1 wanted
    then (if ltb v.fat_info.first_free_cluster second then set_first_free_cluster second v else v)
    else v

-- Each cluster is linked to the next one, and the last one ends the file.
unfoldable pub link_clusters : ℕ → List ℕ → Volume → Bool × Volume
link_clusters ending [] v = (true, v)
link_clusters ending (c ∷ []) v = write_fat_table_entry c ending v
link_clusters ending (c ∷ d ∷ cs) v =
    let (is_written, w) = write_fat_table_entry c d v in
    let rest = link_clusters ending (d ∷ cs) w in if is_written then rest else (false, w)

-- What create_fat_file returns. It is undefined where a file is given no cluster, since the loop that
-- links the clusters then runs through the memory, and where the size of a cluster is 0, by which it
-- divides.
pub data Created : Type 0 where
  undefined : Created
  status_error : Volume → Created
  created : ℕ → Volume → Created

abbrev pub created_if_saved : ℕ → Bool × Volume → Created
created_if_saved first_cluster (is_saved, v) =
    if is_saved then created first_cluster v else status_error v

-- `write_data` writes the file to the sectors of a descriptor: write_whole_descriptor_of_file_sector.
module _ (write_data : Descriptor → StorageMedium → Bool × StorageMedium) where
  -- What follows the search.
  unfoldable pub write_found : ℕ → Found → Volume → Created
  write_found wanted found v =
      let (is_written, m) = write_data found.descriptor_of_file_sectors v.medium in
      let w = record v { medium = m } in
      let clusters = take wanted found.clusters_of_file in
      if ltb found.number_of_finded_free_clusters wanted
      then status_error v
      else if is_written
      then created_if_saved (get_or clusters 0 0)
          (save_if_written (link_clusters w.fat_info.file_ending_entry_value clusters w))
      else status_error w

  unfoldable pub create_with_clusters : ℕ → ℕ → Volume → Created
  create_with_clusters wanted first_cluster v =
      let f = v.fat_info in
      let (found, w) =
        find_free_clusters (f.number_of_clusters - f.first_free_cluster) f.first_free_cluster
          first_cluster wanted (start_of_search first_cluster f) v in
      write_found wanted found
        (raise_first_free_cluster first_cluster wanted found.clusters_of_file w)

  unfoldable pub create_fat_file : ℕ → ℕ → Volume → Created
  create_fat_file first_cluster file_size_in_bytes v =
      let wanted = number_of_clusters_in_file v.fat_info.cluster_size_in_bytes file_size_in_bytes in
      let result = create_with_clusters wanted first_cluster v in
      if file_size_in_bytes == 0
      then status_error v
      else if v.fat_info.cluster_size_in_bytes == 0 || wanted == 0
      then undefined
      else result

  unfoldable pub rewrite_fat_file : ℕ → ℕ → Volume → Created
  rewrite_fat_file first_cluster file_size_in_bytes v =
      let (is_deleted, w) = delete_fat_file first_cluster v in
      if is_deleted then create_fat_file first_cluster file_size_in_bytes w else status_error w

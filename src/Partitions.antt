-- ===== src/Partitions.antt =====
-- source/drivers/filesystems/list_of_connected_partitions.c: the partitions of the media that are
-- connected, and what else depends on them. The other drivers that are called are parameters.
use blesk_os_fork.Base.{
  ℕ, zero, suc, ◌+◌, Bool, true, false, ◌&&◌, ltb, leb, ◌==◌, not, if◌then◌else◌, List, [], ◌∷◌,
  get_or, set, replicate,
}
pub mod Removed
pub mod Added
pub mod Selected
mod Tests

-- `struct connected_partition_info_t`. The label is set by the file system.
pub record Partition : Type 0 where
  pub medium_type : ℕ
  pub medium_number : ℕ
  pub filesystem : ℕ
  pub first_sector : ℕ
  pub partition_label : List ℕ
  pub filesystem_specific_info_pointer : ℕ

-- `struct array_of_loaded_folders_t`
pub record LoadedFolder : Type 0 where
  pub state : ℕ
  pub partition_number : ℕ
  pub folder_location : ℕ
  pub memory_of_entries : ℕ
  pub number_of_files : ℕ
  pub number_of_structures_using_this_folder : ℕ

-- What the function writes of `struct folder_descriptor_t`.
pub record FolderStructure : Type 0 where
  pub structure_partition : ℕ
  pub folder_number_in_array_of_loaded_folders : ℕ

-- The selected partition, the folders, and the rest of the machine. The list of folder structures has
-- `number_of_folder_structures` elements.
pub record Files {ℓ} (World : Type ℓ) : Type ℓ where
  pub selected_partition : ℕ
  pub array_of_loaded_folders : List LoadedFolder
  pub folder_structures : List FolderStructure
  pub world : World

pub record Partitions {ℓ} (World : Type ℓ) : Type ℓ where
  pub connected_partitions : List Partition
  pub files : Files World

abbrev pub no_medium : ℕ
no_medium = 0

abbrev pub no_partition_selected : ℕ
no_partition_selected = 0xFF

abbrev pub max_number_of_connected_partitions : ℕ
max_number_of_connected_partitions = 10

abbrev pub cleared_partition : Partition
cleared_partition = record {
  medium_type = 0;
  medium_number = 0;
  filesystem = 0;
  first_sector = 0;
  partition_label = replicate 11 0;
  filesystem_specific_info_pointer = 0;
}

-- `calloc` clears the array.
unfoldable pub initalize_list_of_connected_partitions {ℓ} :
    {World : Type ℓ} → Partitions World → Partitions World
initalize_list_of_connected_partitions s = record {
  connected_partitions = replicate max_number_of_connected_partitions cleared_partition;
  files = record s.files { selected_partition = no_partition_selected };
}

-- What the file system of a partition reads into its entry.
unfoldable pub read_specific_info {ℓ} :
    {World : Type ℓ} (fat ext iso9660 cdda : Partition → World → Partition × World)
    → Partition
    → World
    → Partition × World
read_specific_info fat ext iso9660 cdda p w =
    if p.filesystem == 2
    then fat p w
    else if p.filesystem == 3
    then ext p w
    else if p.filesystem == 4
    then iso9660 p w
    else if p.filesystem == 5
    then cdda p w
    else (p, w)

-- The first free entry takes the partition.
unfoldable pub add_to_entries {ℓ} :
    {World : Type ℓ} (read_info : Partition → World → Partition × World)
    → ℕ
    → ℕ
    → ℕ
    → ℕ
    → List Partition
    → World
    → List Partition × World
add_to_entries read_info medium_type medium_number filesystem first_sector [] w = ([], w)
add_to_entries read_info medium_type medium_number filesystem first_sector (p ∷ ps) w =
    let (q, v) =
      read_info
        (record p {
          medium_type = medium_type;
          medium_number = medium_number;
          filesystem = filesystem;
          first_sector = first_sector;
        })
        w in
    let (qs, u) = add_to_entries read_info medium_type medium_number filesystem first_sector ps w in
    if p.medium_type == no_medium then (q ∷ ps, v) else (p ∷ qs, u)

unfoldable pub add_new_partition_to_list {ℓ} :
    {World : Type ℓ} (fat ext iso9660 cdda : Partition → World → Partition × World)
    → ℕ
    → ℕ
    → ℕ
    → ℕ
    → Partitions World
    → Partitions World
add_new_partition_to_list fat ext iso9660 cdda medium_type medium_number filesystem first_sector s =
    let (ps, w) =
      add_to_entries (read_specific_info fat ext iso9660 cdda) medium_type medium_number filesystem
        first_sector s.connected_partitions s.files.world in
    record { connected_partitions = ps; files = record s.files { world = w } }

-- Whether a partition is on the medium.
abbrev pub is_on_medium : ℕ → ℕ → Partition → Bool
is_on_medium medium_type medium_number p =
    p.medium_type == medium_type && p.medium_number == medium_number

-- The loop over the folder structures.
unfoldable pub clear_folder_structures : ℕ → List FolderStructure → List FolderStructure
clear_folder_structures i [] = []
clear_folder_structures i (f ∷ fs) =
    (if f.structure_partition == i
      then record f {
        structure_partition = no_partition_selected;
        folder_number_in_array_of_loaded_folders = 0;
      }
      else f)
    ∷ clear_folder_structures i fs

module _ {ℓ} {World : Type ℓ} (free : ℕ → World → World) where
  -- The loop over the loaded folders: those of the partition are freed.
  unfoldable pub free_loaded_folders : ℕ → List LoadedFolder → World → List LoadedFolder × World
  free_loaded_folders i [] w = ([], w)
  free_loaded_folders i (f ∷ fs) w =
      let (gs, v) = free_loaded_folders i fs (free f.memory_of_entries w) in
      let (hs, u) = free_loaded_folders i fs w in
      if f.state == 1 && f.partition_number == i
      then (record f { state = 0 } ∷ gs, v)
      else (f ∷ hs, u)

  -- What happens to the rest when the partition of the entry `i` is removed.
  unfoldable pub remove_partition : ℕ → Partition → Files World → Files World
  remove_partition i p f =
      let freed =
        if p.filesystem_specific_info_pointer == 0
        then f.world
        else free p.filesystem_specific_info_pointer f.world in
      let (fs, w) = free_loaded_folders i f.array_of_loaded_folders freed in
      record {
        selected_partition =
            if f.selected_partition == i then no_partition_selected else f.selected_partition;
        array_of_loaded_folders = fs;
        folder_structures = clear_folder_structures i f.folder_structures;
        world = w;
      }

  -- The loop over the entries from `i` on.
  unfoldable pub remove_from_entries :
      ℕ → ℕ → ℕ → List Partition → Files World → List Partition × Files World
  remove_from_entries medium_type medium_number i [] f = ([], f)
  remove_from_entries medium_type medium_number i (p ∷ ps) f =
      let (qs, g) =
        remove_from_entries medium_type medium_number (i + 1) ps (remove_partition i p f) in
      let (rs, h) = remove_from_entries medium_type medium_number (i + 1) ps f in
      if is_on_medium medium_type medium_number p
      then (record p { medium_type = no_medium; filesystem = 0 } ∷ qs, g)
      else (p ∷ rs, h)

  unfoldable pub remove_partitions_of_medium_from_list : ℕ → ℕ → Partitions World → Partitions World
  remove_partitions_of_medium_from_list medium_type medium_number s =
      let (ps, f) =
        remove_from_entries medium_type medium_number 0 s.connected_partitions s.files in
      record { connected_partitions = ps; files = f }

-- The loop over the entries.
unfoldable pub is_partition_connected : ℕ → ℕ → ℕ → ℕ → List Partition → Bool
is_partition_connected medium_type medium_number filesystem first_sector [] = false
is_partition_connected medium_type medium_number filesystem first_sector (p ∷ ps) =
    let rest = is_partition_connected medium_type medium_number filesystem first_sector ps in
    if is_on_medium medium_type medium_number p
      && p.filesystem == filesystem
      && p.first_sector == first_sector
    then true
    else rest

-- The status beside the state: true for STATUS_GOOD. An entry out of range is not read.
unfoldable pub select_partition {ℓ} :
    {World : Type ℓ} (select_storage_medium : ℕ → ℕ → World → World)
    → ℕ
    → Partitions World
    → Bool × Partitions World
select_partition select_storage_medium partition_number s =
    let f = s.files in
    let p = get_or s.connected_partitions partition_number cleared_partition in
    if leb max_number_of_connected_partitions partition_number
    then (false, s)
    else if f.selected_partition == partition_number
    then (true, s)
    else if p.medium_type == no_medium
    then (false, s)
    else (
      true,
      record s {
        files = record f {
          selected_partition = partition_number;
          world = select_storage_medium p.medium_type p.medium_number f.world;
        };
      },
    )

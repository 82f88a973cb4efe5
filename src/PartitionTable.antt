-- ===== src/PartitionTable.antt =====
-- source/drivers/filesystems/partitions.c: the table of the partitions of a medium, and which of them
-- are connected. The tests for the file systems, the optical disk and what a read of sectors gives are
-- parameters.
use blesk_os_fork.Base.{
  ℕ, zero, suc, ◌+◌, ◌-◌, ◌*◌, ◌/◌, ◌%◌, ◌^◌, Bool, true, false, ◌&&◌, ◌||◌, ltb, leb, ◌==◌, not,
  if◌then◌else◌, Option, none, some, u32,
}
use blesk_os_fork.Partitions.{Partitions}
pub mod Listed
pub mod Optical
mod Tests

-- The types of partitions.
abbrev pub partition_free_space : ℕ
partition_free_space = 1

abbrev pub partition_filesystem_fat : ℕ
partition_filesystem_fat = 2

abbrev pub partition_filesystem_ext : ℕ
partition_filesystem_ext = 3

abbrev pub partition_filesystem_iso9660 : ℕ
partition_filesystem_iso9660 = 4

abbrev pub partition_filesystem_cdda : ℕ
partition_filesystem_cdda = 5

abbrev pub partition_filesystem_bleskos_bootable_partition : ℕ
partition_filesystem_bleskos_bootable_partition = 6

abbrev pub partition_unknown_filesystem : ℕ
partition_unknown_filesystem = 7

-- `struct partition_info_t`
pub record PartitionInfo : Type 0 where
  pub type : ℕ
  pub first_sector : ℕ
  pub num_of_sectors : ℕ

-- The array, of whose entries the first 32 are used, and the counter beside it.
pub record PartitionTable : Type 0 where
  pub partitions : ℕ → PartitionInfo
  pub number_of_partitions_in_table : ℕ

abbrev pub max_number_of_partitions : ℕ
max_number_of_partitions = 32

abbrev pub set_partition : ℕ → PartitionInfo → PartitionTable → PartitionTable
set_partition i p t = record t { partitions = λ j. if j == i then p else t.partitions j }

unfoldable pub add_partition : ℕ → ℕ → ℕ → PartitionTable → PartitionTable
add_partition type first_sector number_of_sectors t =
    let n = t.number_of_partitions_in_table in
    let p : PartitionInfo = record {
      type = type;
      first_sector = first_sector;
      num_of_sectors = number_of_sectors;
    } in
    if leb max_number_of_partitions n
    then t
    else record (set_partition n p t) { number_of_partitions_in_table = n + 1 }

abbrev pub cleared_table : PartitionTable → PartitionTable
cleared_table t = record t {
  partitions = λ i. record { type = 0; first_sector = 0; num_of_sectors = 0 };
}

-- The bytes that were read.
abbrev pub Bytes : Type 0
Bytes = ℕ → ℕ

abbrev pub dword : Bytes → ℕ → ℕ
dword b at = b at + b (at + 1) * 2 ^ 8 + b (at + 2) * 2 ^ 16 + b (at + 3) * 2 ^ 24

abbrev pub qword : Bytes → ℕ → ℕ
qword b at = dword b at + dword b (at + 4) * 2 ^ 32

-- `struct mbr_partition_entry_t`, as far as it is used, and the entries of a boot sector.
pub record MbrEntry : Type 0 where
  pub type : ℕ
  pub first_sector : ℕ
  pub number_of_sectors : ℕ

abbrev pub partition_entry : Bytes → ℕ → MbrEntry
partition_entry b i = record {
  type = b (0x1BE + 16 * i + 4);
  first_sector = dword b (0x1BE + 16 * i + 8);
  number_of_sectors = dword b (0x1BE + 16 * i + 12);
}

-- An entry of an extended boot record. It is the size in the entry `m` of the master boot record that
-- is tested.
abbrev pub add_ebr_entry : MbrEntry → MbrEntry → PartitionTable → PartitionTable
add_ebr_entry m e t =
    let type =
      if e.type == 0 && ltb 0 m.number_of_sectors
      then partition_free_space
      else partition_unknown_filesystem in
    add_partition type (u32 (m.first_sector + e.first_sector)) e.number_of_sectors t

-- Nothing is added where the read failed.
unfoldable pub add_ebr : MbrEntry → Option Bytes → PartitionTable → PartitionTable
add_ebr m none t = t
add_ebr m (some b) t =
    add_ebr_entry m (partition_entry b 1) (add_ebr_entry m (partition_entry b 0) t)

-- `struct gpt_partition_header_t`
abbrev pub first_lba_of_guid_partition_entry_array : Bytes → ℕ
first_lba_of_guid_partition_entry_array b = qword b 72

abbrev pub number_of_partition_entries : Bytes → ℕ
number_of_partition_entries b = dword b 80

abbrev pub size_of_partition_entry : Bytes → ℕ
size_of_partition_entry b = dword b 84

abbrev pub is_gpt_invalid : Bytes → Bool
is_gpt_invalid b =
    let first_lba = first_lba_of_guid_partition_entry_array b in
    let size = size_of_partition_entry b in
    not (first_lba / 2 ^ 32 == 0)
    || first_lba == 0
    || ltb 2 first_lba
    || ltb size 128
    || not (size % 128 == 0)

-- The loop over the entries of the array with `n` left, of which one stands at `at`.
unfoldable pub add_gpt_entries : ℕ → ℕ → ℕ → Bytes → PartitionTable → PartitionTable
add_gpt_entries zero at size b t = t
add_gpt_entries (suc n) at size b t =
    let first = qword b (at + 32) in
    let last = qword b (at + 40) in
    let is_small = first / 2 ^ 32 == 0 && last / 2 ^ 32 == 0 in
    let next =
      if is_small
      then add_partition partition_unknown_filesystem first (u32 (last + (2 ^ 32 - first))) t
      else t in
    let rest = add_gpt_entries n (at + size) size b next in
    if first == 0 && last == 0 then t else rest

unfoldable pub add_gpt : Option Bytes → PartitionTable → PartitionTable
add_gpt none t = t
add_gpt (some b) t =
    let array = if first_lba_of_guid_partition_entry_array b == 2 then 512 else 0x5C in
    if is_gpt_invalid b
    then t
    else add_gpt_entries (number_of_partition_entries b) array (size_of_partition_entry b) b t

-- What the other drivers tell of the selected medium.
pub record Driver : Type 0 where
  pub read_storage_medium : ℕ → ℕ → Option Bytes
  pub is_partition_fat : ℕ → Bool
  pub is_partition_ext : ℕ → Bool
  pub is_partition_bleskos_bootable_partition : ℕ → Bool
  pub detect_optical_disk : Bool
  pub optical_disk_size : ℕ
  pub is_partition_iso9660 : ℕ → Bool
  pub is_optical_disk_cdda : Bool
  pub is_optical_disk_free : Bool

unfoldable pub add_mbr_entry : Driver → MbrEntry → PartitionTable → PartitionTable
add_mbr_entry r m t =
    if m.type == 0 && ltb 0 m.number_of_sectors
    then add_partition partition_free_space m.first_sector m.number_of_sectors t
    else if m.type == 0x05 || m.type == 0x0F
    then add_ebr m (r.read_storage_medium m.first_sector 1) t
    else if m.type == 0xEE
    then add_gpt (r.read_storage_medium m.first_sector 32) t
    else if ltb 0 m.number_of_sectors
    then add_partition partition_unknown_filesystem m.first_sector m.number_of_sectors t
    else t

-- A medium without entries is one partition.
unfoldable pub add_mbr : Driver → Bytes → PartitionTable → PartitionTable
add_mbr r b t =
    let e = partition_entry b in
    let has_no_sectors : ℕ → Bool = λ i. (partition_entry b i).number_of_sectors == 0 in
    if has_no_sectors 0 && has_no_sectors 1 && has_no_sectors 2 && has_no_sectors 3
    then add_partition partition_unknown_filesystem 0 0 t
    else add_mbr_entry r (e 3)
        (add_mbr_entry r (e 2) (add_mbr_entry r (e 1) (add_mbr_entry r (e 0) t)))

abbrev pub find_filesystem : Driver → PartitionInfo → PartitionInfo
find_filesystem r p =
    if p.type == partition_unknown_filesystem
    then (if r.is_partition_fat p.first_sector
        then record p { type = partition_filesystem_fat }
        else if r.is_partition_ext p.first_sector
        then record p { type = partition_filesystem_ext }
        else if r.is_partition_bleskos_bootable_partition p.first_sector
        then record p { type = partition_filesystem_bleskos_bootable_partition }
        else p)
    else p

abbrev pub find_filesystems : Driver → PartitionTable → PartitionTable
find_filesystems r t = record t { partitions = λ i. find_filesystem r (t.partitions i) }

-- What follows the read of the first sector, if it succeeded.
unfoldable pub read_partitions_of_disk : Driver → Option Bytes → PartitionTable → PartitionTable
read_partitions_of_disk r none t = t
read_partitions_of_disk r (some b) t =
    find_filesystems r (add_mbr r b (record t { number_of_partitions_in_table = 0 }))

abbrev pub optical_disk_type : Driver → ℕ
optical_disk_type r =
    if r.is_partition_iso9660 0
    then partition_filesystem_iso9660
    else if r.is_optical_disk_cdda
    then partition_filesystem_cdda
    else if r.is_optical_disk_free
    then partition_free_space
    else partition_unknown_filesystem

abbrev pub medium_optical_drive : ℕ
medium_optical_drive = 2

-- The counter of the partitions is set for a disk, and not for an optical disk.
unfoldable pub read_partitions_of_medium : Driver → ℕ → PartitionTable → PartitionTable
read_partitions_of_medium r medium t =
    let cleared = cleared_table t in
    let whole : PartitionInfo = record {
      type = optical_disk_type r;
      first_sector = 0;
      num_of_sectors = r.optical_disk_size;
    } in
    if medium == medium_optical_drive
    then (if r.detect_optical_disk then set_partition 0 whole cleared else cleared)
    else read_partitions_of_disk r (r.read_storage_medium 0 1) cleared

abbrev pub is_connectable : PartitionInfo → Bool
is_connectable p =
    not (p.type == partition_free_space)
    && not (p.type == partition_unknown_filesystem)
    && not (p.type == partition_filesystem_bleskos_bootable_partition)

-- `add_new_partition_to_list medium_type medium_number filesystem first_sector`
module _ {ℓ} {World : Type ℓ}
    (add_new_partition_to_list : ℕ → ℕ → ℕ → ℕ → Partitions World → Partitions World)
    (medium_type medium_number : ℕ) where
  -- The loop from the `i`-th partition on, with `n` left.
  unfoldable pub connect_partitions :
      ℕ → ℕ → (ℕ → PartitionInfo) → Partitions World → Partitions World
  connect_partitions zero i ps s = s
  connect_partitions (suc n) i ps s =
      let p = ps i in
      connect_partitions n (suc i) ps (
        if is_connectable p
        then add_new_partition_to_list medium_type medium_number p.type p.first_sector s
        else s)

  unfoldable pub connect_partitions_of_medium :
      Driver → PartitionTable → Partitions World → PartitionTable × Partitions World
  connect_partitions_of_medium r t s =
      let read = read_partitions_of_medium r medium_type t in
      (read, connect_partitions read.number_of_partitions_in_table 0 read.partitions s)

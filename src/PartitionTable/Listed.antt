-- ===== src/PartitionTable/Listed.antt =====
-- What the table of a disk lists, and which of it is connected.
use blesk_os_fork.Base.{
  ℕ, zero, suc, ◌+◌, ◌-◌, ◌/◌, ◌^◌, ◌<◌, ◌≤◌, ◌≡◌, ◌≢◌, ◌⊎◌, refl, Bool, true, false, ◌&&◌, ◌||◌,
  ltb, leb, ◌==◌, not, if◌then◌else◌, arith, Option, none, some, inl, inr, Bool-cases, ==_true,
  ==_false, ℕ_discrete, u32,
}
use blesk_os_fork.PartitionTable.{
  PartitionInfo, PartitionTable, add_partition, cleared_table, Bytes, qword, MbrEntry,
  partition_entry, add_ebr_entry, add_ebr, is_gpt_invalid, add_gpt_entries,
  number_of_partition_entries, size_of_partition_entry, first_lba_of_guid_partition_entry_array,
  add_gpt, Driver, add_mbr_entry, add_mbr, find_filesystem, read_partitions_of_disk,
  read_partitions_of_medium, is_connectable,
}

-- Free space, or a partition whose file system is not known yet.
abbrev IsFound : ℕ → Type 0
IsFound type = (type ≡ 1) ⊎ (type ≡ 7)

-- While the table is filled.
record IsFilled (t : PartitionTable) : Type 0 where
  bounded : t.number_of_partitions_in_table ≤ 32
  listed : (i : ℕ) → i < t.number_of_partitions_in_table → IsFound (t.partitions i).type
  behind : (i : ℕ) → t.number_of_partitions_in_table ≤ i → (t.partitions i).type ≡ 0

add_partition-IsFilled :
    (type first n : ℕ) (t : PartitionTable)
    → IsFound type
    → IsFilled t
    → IsFilled (add_partition type first n t)
unfolding add_partition
add_partition-IsFilled type first n t found filled =
    let count = t.number_of_partitions_in_table in
    elim (Bool-cases (leb 32 count)) [
      | inl full ↦ rw full filled
      | inr room ↦ rw room (record {
        bounded = ground (arith, room);
        listed = λ i h. elim (ℕ_discrete i count) [
          | yes last ↦ rw (==_true last) found
          | no other ↦ rw (==_false other) (filled.listed i (omega arith))
        ];
        behind = λ i h.
            (let other : i ≢ count = omega (arith, h) in
              rw (==_false other) (filled.behind i (omega (arith, h))));
      })
    ]

add_ebr_entry-IsFilled :
    (m e : MbrEntry) (t : PartitionTable) → IsFilled t → IsFilled (add_ebr_entry m e t)
add_ebr_entry-IsFilled m e t filled = elim (Bool-cases (e.type == 0 && ltb 0 m.number_of_sectors)) [
  | inl free ↦ rw free (
      add_partition-IsFilled 1 (u32 (m.first_sector + e.first_sector)) e.number_of_sectors t
        (inl refl) filled)
  | inr used ↦ rw used (
      add_partition-IsFilled 7 (u32 (m.first_sector + e.first_sector)) e.number_of_sectors t
        (inr refl) filled)
]

add_ebr-IsFilled :
    (m : MbrEntry) (b : Option Bytes) (t : PartitionTable) → IsFilled t → IsFilled (add_ebr m b t)
unfolding add_ebr
add_ebr-IsFilled m none t filled = filled
add_ebr-IsFilled m (some b) t filled =
    add_ebr_entry-IsFilled m (partition_entry b 1) (add_ebr_entry m (partition_entry b 0) t)
      (add_ebr_entry-IsFilled m (partition_entry b 0) t filled)

-- Whichever of two tables it is.
if-IsFilled :
    (c : Bool) (t u : PartitionTable) → IsFilled t → IsFilled u → IsFilled (if c then t else u)
if-IsFilled true t u first second = first
if-IsFilled false t u first second = second

add_gpt_entries-IsFilled :
    (n at size : ℕ) (b : Bytes) (t : PartitionTable)
    → IsFilled t
    → IsFilled (add_gpt_entries n at size b t)
unfolding add_gpt_entries
add_gpt_entries-IsFilled zero at size b t filled = filled
add_gpt_entries-IsFilled (suc n) at size b t filled =
    let first = qword b (at + 32) in
    let last = qword b (at + 40) in
    let added = add_partition 7 first (u32 (last + (2 ^ 32 - first))) t in
    let is_small = first / 2 ^ 32 == 0 && last / 2 ^ 32 == 0 in
    let next = if is_small then added else t in
    if-IsFilled (first == 0 && last == 0) t (add_gpt_entries n (at + size) size b next) filled (
      add_gpt_entries-IsFilled n (at + size) size b next (
        if-IsFilled is_small added t
          (add_partition-IsFilled 7 first (u32 (last + (2 ^ 32 - first))) t (inr refl) filled)
          filled))

add_gpt-IsFilled : (b : Option Bytes) (t : PartitionTable) → IsFilled t → IsFilled (add_gpt b t)
unfolding add_gpt
add_gpt-IsFilled none t filled = filled
add_gpt-IsFilled (some b) t filled =
    let array = if first_lba_of_guid_partition_entry_array b == 2 then 512 else 0x5C in
    if-IsFilled (is_gpt_invalid b) t
      (add_gpt_entries (number_of_partition_entries b) array (size_of_partition_entry b) b t) filled
      (add_gpt_entries-IsFilled (number_of_partition_entries b) array (size_of_partition_entry b) b
        t filled)

add_mbr_entry-IsFilled :
    (r : Driver) (m : MbrEntry) (t : PartitionTable) → IsFilled t → IsFilled (add_mbr_entry r m t)
unfolding add_mbr_entry
add_mbr_entry-IsFilled r m t filled =
    let free = add_partition 1 m.first_sector m.number_of_sectors t in
    let used = add_partition 7 m.first_sector m.number_of_sectors t in
    let ebr = add_ebr m (r.read_storage_medium m.first_sector 1) t in
    let gpt = add_gpt (r.read_storage_medium m.first_sector 32) t in
    let plain = if ltb 0 m.number_of_sectors then used else t in
    let no_ebr = if m.type == 0xEE then gpt else plain in
    let not_free = if m.type == 0x05 || m.type == 0x0F then ebr else no_ebr in
    if-IsFilled (m.type == 0 && ltb 0 m.number_of_sectors) free not_free
      (add_partition-IsFilled 1 m.first_sector m.number_of_sectors t (inl refl) filled)
      (if-IsFilled (m.type == 0x05 || m.type == 0x0F) ebr no_ebr
        (add_ebr-IsFilled m (r.read_storage_medium m.first_sector 1) t filled)
        (if-IsFilled (m.type == 0xEE) gpt plain
          (add_gpt-IsFilled (r.read_storage_medium m.first_sector 32) t filled)
          (if-IsFilled (ltb 0 m.number_of_sectors) used t
            (add_partition-IsFilled 7 m.first_sector m.number_of_sectors t (inr refl) filled)
            filled)))

add_mbr-IsFilled :
    (r : Driver) (b : Bytes) (t : PartitionTable) → IsFilled t → IsFilled (add_mbr r b t)
unfolding add_mbr
add_mbr-IsFilled r b t filled =
    let e = partition_entry b in
    let has_no_sectors : ℕ → Bool = λ i. (partition_entry b i).number_of_sectors == 0 in
    let t0 = add_mbr_entry r (e 0) t in
    let t1 = add_mbr_entry r (e 1) t0 in
    let t2 = add_mbr_entry r (e 2) t1 in
    if-IsFilled (has_no_sectors 0 && has_no_sectors 1 && has_no_sectors 2 && has_no_sectors 3)
      (add_partition 7 0 0 t) (add_mbr_entry r (e 3) t2)
      (add_partition-IsFilled 7 0 0 t (inr refl) filled)
      (add_mbr_entry-IsFilled r (e 3) t2 (
        add_mbr_entry-IsFilled r (e 2) t1
          (add_mbr_entry-IsFilled r (e 1) t0 (add_mbr_entry-IsFilled r (e 0) t filled))))

-- Free space, or a partition of the file system that the medium is found to have at its first sector:
-- FAT is asked for first, ext second, a bootable partition of BleskOS third.
pub data IsDetected (r : Driver) (p : PartitionInfo) : Type 0 where
  free_space : p.type ≡ 1 → IsDetected r p
  fat : p.type ≡ 2 → r.is_partition_fat p.first_sector ≡ true → IsDetected r p
  ext :
      p.type ≡ 3
      → r.is_partition_fat p.first_sector ≡ false
      → r.is_partition_ext p.first_sector ≡ true
      → IsDetected r p
  bleskos :
      p.type ≡ 6
      → r.is_partition_fat p.first_sector ≡ false
      → r.is_partition_ext p.first_sector ≡ false
      → r.is_partition_bleskos_bootable_partition p.first_sector ≡ true
      → IsDetected r p
  unknown :
      p.type ≡ 7
      → r.is_partition_fat p.first_sector ≡ false
      → r.is_partition_ext p.first_sector ≡ false
      → r.is_partition_bleskos_bootable_partition p.first_sector ≡ false
      → IsDetected r p

-- What the table of a disk lists, and which of it is to be connected.
pub record IsDiskTable (r : Driver) (t : PartitionTable) : Type 0 where
  pub bounded : t.number_of_partitions_in_table ≤ 32
  pub detected : (i : ℕ) → i < t.number_of_partitions_in_table → IsDetected r (t.partitions i)
  pub connected :
      (i : ℕ)
      → i < t.number_of_partitions_in_table
      → is_connectable (t.partitions i) ≡ (
          not ((t.partitions i).type == 1)
          && (r.is_partition_fat (t.partitions i).first_sector
              || r.is_partition_ext (t.partitions i).first_sector))
  pub behind : (i : ℕ) → t.number_of_partitions_in_table ≤ i → (t.partitions i).type ≡ 0

find_filesystem-IsDetected :
    (r : Driver) (p : PartitionInfo) → IsFound p.type → IsDetected r (find_filesystem r p)
find_filesystem-IsDetected r p found = elim found [
  | inl free ↦ rw free (free_space refl)
  | inr unsure ↦ elim (Bool-cases (r.is_partition_fat p.first_sector)) [
    | inl is_fat ↦ rw (unsure, is_fat) (fat refl is_fat)
    | inr not_fat ↦ elim (Bool-cases (r.is_partition_ext p.first_sector)) [
      | inl is_ext ↦ rw (unsure, not_fat, is_ext) (ext refl not_fat is_ext)
      | inr not_ext ↦ elim (Bool-cases (r.is_partition_bleskos_bootable_partition p.first_sector)) [
        | inl is_bleskos ↦
            rw (unsure, not_fat, not_ext, is_bleskos) (bleskos refl not_fat not_ext is_bleskos)
        | inr not_bleskos ↦
            rw (unsure, not_fat, not_ext, not_bleskos) (unknown refl not_fat not_ext not_bleskos)
      ]
    ]
  ]
]

IsDetected-connected :
    (r : Driver) (p : PartitionInfo)
    → IsDetected r p
    → is_connectable p ≡ (
        not (p.type == 1)
        && (r.is_partition_fat p.first_sector || r.is_partition_ext p.first_sector))
IsDetected-connected r p (free_space t) = rw t refl
IsDetected-connected r p (fat t f) = rw (t, f) refl
IsDetected-connected r p (ext t f e) = rw (t, f, e) refl
IsDetected-connected r p (bleskos t f e b) = rw (t, f, e) refl
IsDetected-connected r p (unknown t f e b) = rw (t, f, e) refl

find_filesystem-none :
    (r : Driver) (p : PartitionInfo) → p.type ≡ 0 → (find_filesystem r p).type ≡ 0
find_filesystem-none r p none_there = rw none_there refl

-- The table of a medium that is no optical disk and whose first sector can be read has at most 32
-- partitions, whatever its boot records hold. Each is free space or of the type of the file system that
-- is detected at its first sector, FAT before ext before a bootable partition of BleskOS; exactly those
-- that are not free space and where FAT or ext is detected are to be connected; and the entries behind
-- them are empty.
pub read_partitions_of_medium-IsDiskTable :
    (r : Driver) (medium : ℕ) (b : Bytes) (t : PartitionTable)
    → medium ≢ 2
    → r.read_storage_medium 0 1 ≡ some b
    → IsDiskTable r (read_partitions_of_medium r medium t)
unfolding read_partitions_of_medium read_partitions_of_disk
read_partitions_of_medium-IsDiskTable r medium b t disk read =
    let empty : PartitionTable = record (cleared_table t) { number_of_partitions_in_table = 0 } in
    let is_filled = add_mbr-IsFilled r b empty (record {
      bounded = omega arith;
      listed = λ i h. absurd (omega (arith, h));
      behind = λ i h. refl;
    }) in
    let filled = add_mbr r b empty in
    let detected = λ (i : ℕ) (h : i < filled.number_of_partitions_in_table).
      find_filesystem-IsDetected r (filled.partitions i) (is_filled.listed i h) in
    rw (==_false disk, read)
      (record {
        bounded = is_filled.bounded;
        detected = detected;
        connected =
            λ i h. IsDetected-connected r (find_filesystem r (filled.partitions i)) (detected i h);
        behind = λ i h. find_filesystem-none r (filled.partitions i) (is_filled.behind i h);
      })

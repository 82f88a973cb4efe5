-- ===== src/Fat.antt =====
-- source/drivers/filesystems/filesystem_fat.c: the file allocation table, of which one sector is held in
-- memory, and the chains of clusters in it.
use blesk_os_fork.Base.{
  ℕ, zero, suc, ◌+◌, ◌-◌, ◌*◌, ◌/◌, ◌%◌, ◌^◌, Bool, true, false, ltb, leb, ◌==◌, ◌&&◌,
  if◌then◌else◌, bit_or, ◌<<◌, ◌>>◌, u8, u16, u32,
}
pub mod Table
pub mod Cache
pub mod Entry
pub mod Read
pub mod Write
pub mod Written
pub mod Stored
pub mod View
pub mod Put
pub mod File
pub mod Chain
pub mod Create
pub mod Sequence
pub mod Search
pub mod Link
pub mod Free
pub mod ReadFile
pub mod Created
pub mod Taken
pub mod NewFile
pub mod Refused
pub mod Tests

pub data FatType : Type 0 where
  fat12 fat16 fat32 : FatType

-- The bytes of a sector, by their offset.
abbrev pub Sector : Type 0
Sector = ℕ → ℕ

-- `struct fat_specific_info_t`
pub record FatInfo : Type 0 where
  pub type : FatType
  pub total_number_of_sectors : ℕ
  pub fat_table_first_sector : ℕ
  pub fat_table_size_in_sectors : ℕ
  pub number_of_fat_tables : ℕ
  pub data_first_sector : ℕ
  pub cluster_size_in_sectors : ℕ
  pub cluster_size_in_bytes : ℕ
  pub number_of_clusters : ℕ
  pub loaded_fat_table_sector : ℕ
  pub fat_table_sector : Sector
  pub root_directory_location : ℕ
  pub root_directory_size_in_sectors : ℕ
  pub file_ending_entry_value : ℕ
  pub first_free_cluster : ℕ

-- The storage medium: what its sectors hold, which of them cannot be read or written, and what is in a
-- buffer after a read that failed.
pub record StorageMedium : Type 0 where
  pub sectors : ℕ → Sector
  pub fails : ℕ → Bool
  pub debris : Sector

pub record Volume : Type 0 where
  pub fat_info : FatInfo
  pub medium : StorageMedium

-- One sector is written.
abbrev pub write_sector : ℕ → Sector → StorageMedium → StorageMedium
write_sector s buffer m = record m { sectors = λ t. if t == s then buffer else m.sectors t }

abbrev pub no_sector : ℕ
no_sector = 0xFFFFFFFF

-- The status of each function is true for STATUS_GOOD.
unfoldable pub load_fat_table_sector : ℕ → Volume → Bool × Volume
load_fat_table_sector sector v =
    let f = v.fat_info in
    let s = u32 (f.fat_table_first_sector + sector) in
    if f.loaded_fat_table_sector == sector
    then (true, v)
    else if v.medium.fails s
    then (
      false,
      record v {
        fat_info = record f {
          fat_table_sector = v.medium.debris;
          loaded_fat_table_sector = no_sector;
        };
      },
    )
    else (
      true,
      record v {
        fat_info = record f {
          fat_table_sector = v.medium.sectors s;
          loaded_fat_table_sector = sector;
        };
      },
    )

-- The loop over the tables from the `i`-th on, with `n` left.
unfoldable pub save_to_tables : ℕ → ℕ → FatInfo → StorageMedium → Bool × StorageMedium
save_to_tables zero i f m = (true, m)
save_to_tables (suc n) i f m =
    let s =
      u32
        (f.fat_table_first_sector + f.loaded_fat_table_sector + i * f.fat_table_size_in_sectors) in
    let rest = save_to_tables n (suc i) f (write_sector s f.fat_table_sector m) in
    if m.fails s then (false, m) else rest

unfoldable pub save_loaded_fat_table_sector : Volume → Bool × Volume
save_loaded_fat_table_sector v =
    let (is_saved, m) = save_to_tables v.fat_info.number_of_fat_tables 0 v.fat_info v.medium in
    (is_saved, record v { medium = m })

unfoldable pub save_and_load_fat_table_sector : ℕ → Volume → Bool × Volume
save_and_load_fat_table_sector sector v =
    let (is_saved, saved) = save_loaded_fat_table_sector v in
    if v.fat_info.loaded_fat_table_sector == sector
    then (true, v)
    else if is_saved
    then load_fat_table_sector sector saved
    else (false, saved)

-- A word and a dword of the sector in memory, by its index.
abbrev pub word_at : Sector → ℕ → ℕ
word_at b i = b (2 * i) + b (2 * i + 1) * 2 ^ 8

abbrev pub dword_at : Sector → ℕ → ℕ
dword_at b i = b (4 * i) + b (4 * i + 1) * 2 ^ 8 + b (4 * i + 2) * 2 ^ 16 + b (4 * i + 3) * 2 ^ 24

-- The value where the sector could be loaded, else the error.
abbrev pub value_or_error : Bool × Volume → (Sector → ℕ) → ℕ × Volume
value_or_error (is_loaded, v) value =
    if is_loaded then (value v.fat_info.fat_table_sector, v) else (0xFFFFFFFF, v)

-- The two bytes of an entry of 12 bits may stand in two sectors.
unfoldable pub read_fat12_entry : ℕ → Volume → ℕ × Volume
read_fat12_entry entry v =
    let bits = u32 (entry * 12) in
    let (is_first, w) = load_fat_table_sector (bits / 4096) v in
    let low = w.fat_info.fat_table_sector (bits % 4096 / 8) in
    if is_first
    then (if entry % 2 == 0
        then value_or_error (load_fat_table_sector (u32 (bits + 8) / 4096) w)
            (λ b. bit_or ((b (u32 (bits + 8) % 4096 / 8) % 16) << 8) low)
        else value_or_error (load_fat_table_sector (u32 (bits + 4) / 4096) w)
            (λ b. bit_or (b (u32 (bits + 4) % 4096 / 8) << 4) (low >> 4)))
    else (0xFFFFFFFF, w)

unfoldable pub read_entry_of_type : FatType → ℕ → Volume → ℕ × Volume
read_entry_of_type fat32 entry v =
    value_or_error (load_fat_table_sector (entry / 128) v) (λ b. dword_at b (entry % 128))
read_entry_of_type fat16 entry v =
    value_or_error (load_fat_table_sector (entry / 256) v) (λ b. word_at b (entry % 256))
read_entry_of_type fat12 entry v = read_fat12_entry entry v

unfoldable pub read_fat_table_entry : ℕ → Volume → ℕ × Volume
read_fat_table_entry entry v =
    if leb v.fat_info.number_of_clusters entry
    then (0xFFFFFFFF, v)
    else read_entry_of_type v.fat_info.type entry v

-- A byte of the sector in memory is set.
abbrev pub set_byte : ℕ → ℕ → Sector → Sector
set_byte i value b k = if k == i then value else b k

abbrev pub change_sector : (Sector → Sector) → Volume → Volume
change_sector change v = record v {
  fat_info = record v.fat_info { fat_table_sector = change v.fat_info.fat_table_sector };
}

abbrev pub set_word : ℕ → ℕ → Sector → Sector
set_word i value b = set_byte (2 * i + 1) (u8 (value >> 8)) (set_byte (2 * i) (u8 value) b)

abbrev pub set_dword : ℕ → ℕ → Sector → Sector
set_dword i value b = set_byte (4 * i + 3) (u8 (value >> 24)) (
    set_byte (4 * i + 2) (u8 (value >> 16))
      (set_byte (4 * i + 1) (u8 (value >> 8)) (set_byte (4 * i) (u8 value) b)))

-- The sector is changed if it could be loaded.
abbrev pub change_or_error : Bool × Volume → (Sector → Sector) → Bool × Volume
change_or_error (is_loaded, v) change =
    if is_loaded then (true, change_sector change v) else (false, v)

-- `b & 0xF0` and `b & 0x0F` of a byte are `b / 16 * 16` and `b % 16`.
unfoldable pub write_fat12_entry : ℕ → ℕ → Volume → Bool × Volume
write_fat12_entry entry value v =
    let bits = u32 (entry * 12) in
    let at = bits % 4096 / 8 in
    let (is_first, w) = save_and_load_fat_table_sector (bits / 4096) v in
    let even = change_sector (set_byte at (value % 2 ^ 8)) w in
    let odd = change_sector (λ b. set_byte at (bit_or ((value % 16) << 4) (b at % 16)) b) w in
    if is_first
    then (if entry % 2 == 0
        then change_or_error (save_and_load_fat_table_sector (u32 (bits + 8) / 4096) even) (λ b.
          set_byte (u32 (bits + 8) % 4096 / 8)
            (bit_or (b (u32 (bits + 8) % 4096 / 8) / 16 * 16) ((value >> 8) % 16)) b)
        else change_or_error (save_and_load_fat_table_sector (u32 (bits + 4) / 4096) odd)
            (set_byte (u32 (bits + 4) % 4096 / 8) ((value >> 4) % 2 ^ 8)))
    else (false, w)

-- A cluster that has become free may be the first free one.
abbrev pub note_free_cluster : ℕ → ℕ → Bool × Volume → Bool × Volume
note_free_cluster entry value (is_written, v) =
    if is_written && value == 0 && ltb entry v.fat_info.first_free_cluster
    then (is_written, record v { fat_info = record v.fat_info { first_free_cluster = entry } })
    else (is_written, v)

unfoldable pub write_entry_of_type : FatType → ℕ → ℕ → Volume → Bool × Volume
write_entry_of_type fat32 entry value v =
    change_or_error (save_and_load_fat_table_sector (entry / 128) v) (set_dword (entry % 128) value)
write_entry_of_type fat16 entry value v =
    change_or_error (save_and_load_fat_table_sector (entry / 256) v) (set_word (entry % 256) value)
write_entry_of_type fat12 entry value v = write_fat12_entry entry value v

unfoldable pub write_fat_table_entry : ℕ → ℕ → Volume → Bool × Volume
write_fat_table_entry entry value v =
    if leb v.fat_info.number_of_clusters entry
    then (false, v)
    else note_free_cluster entry value (write_entry_of_type v.fat_info.type entry value v)

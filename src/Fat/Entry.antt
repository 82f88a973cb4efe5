-- ===== src/Fat/Entry.antt =====
-- The entries of the table in the layout of each type.
use blesk_os_fork.Base.{ℕ, ◌+◌, ◌*◌, ◌/◌, ◌%◌, ◌^◌, ◌<◌, ◌≤◌, ◌≡◌, refl, ◌==◌, if◌then◌else◌, arith}
use blesk_os_fork.Fat.{FatType, fat12, fat16, fat32, Sector, Volume, word_at, dword_at}
use blesk_os_fork.Fat.Table.{table_byte, IsReady}

-- An entry of 12 bits is one and a half bytes, the lower half of the shared byte for an even entry.
unfoldable pub table_entry : FatType → Sector → ℕ → ℕ
table_entry fat32 b e = dword_at b e
table_entry fat16 b e = word_at b e
table_entry fat12 b e =
    if e % 2 == 0
    then b (e * 3 / 2) + b (e * 3 / 2 + 1) % 16 * 2 ^ 8
    else b (e * 3 / 2) / 16 + b (e * 3 / 2 + 1) * 2 ^ 4

-- The last byte of an entry.
unfoldable pub last_byte : FatType → ℕ → ℕ
last_byte fat32 e = 4 * e + 3
last_byte fat16 e = 2 * e + 1
last_byte fat12 e = e * 3 / 2 + 1

-- How many values an entry has.
abbrev pub entry_values : FatType → ℕ
entry_values fat12 = 2 ^ 12
entry_values fat16 = 2 ^ 16
entry_values fat32 = 2 ^ 32

-- A volume whose table has an entry for each cluster.
pub record IsVolume (v : Volume) : Type 0 where
  pub ready : IsReady v
  pub covered :
      (e : ℕ)
      → e < v.fat_info.number_of_clusters
      → last_byte v.fat_info.type e / 512 < v.fat_info.fat_table_size_in_sectors
  pub in_words : v.fat_info.number_of_clusters * 12 < 2 ^ 32
  pub bytes : (k : ℕ) → k / 512 < v.fat_info.fat_table_size_in_sectors → table_byte v k < 256

-- Tables that agree on the bytes of an entry agree on the entry.
pub table_entry_same :
    (t : FatType) (e : ℕ) (b c : Sector)
    → ((k : ℕ) → k ≤ last_byte t e → b k ≡ c k)
    → table_entry t b e ≡ table_entry t c e
unfolding table_entry last_byte
table_entry_same fat32 e b c same =
    rw
      (
        same (4 * e) (omega arith),
        same (4 * e + 1) (omega arith),
        same (4 * e + 2) (omega arith),
        same (4 * e + 3) (omega arith),
      )
      refl
table_entry_same fat16 e b c same =
    rw (same (2 * e) (omega arith), same (2 * e + 1) (omega arith)) refl
table_entry_same fat12 e b c same =
    rw (same (e * 3 / 2) (omega arith), same (e * 3 / 2 + 1) (omega arith)) refl

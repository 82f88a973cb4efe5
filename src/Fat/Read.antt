-- ===== src/Fat/Read.antt =====
-- read_fat_table_entry reads the entry of the table, and the table stays.
use blesk_os_fork.Base.{
  ℕ, ◌+◌, ◌-◌, ◌*◌, ◌/◌, ◌%◌, ◌^◌, ◌<◌, ◌≡◌, refl, ap, ◌∙◌, Bool, false, leb, ◌==◌, arith, bit_or,
  ◌<<◌, ◌>>◌, u32, inl, inr, Bool-cases,
}
use blesk_os_fork.Base.Bits.{bit_or-below}
use blesk_os_fork.Fat.{
  read_entry_of_type, FatType, fat12, fat16, fat32, Sector, Volume, word_at, dword_at,
  value_or_error, load_fat_table_sector, read_fat12_entry, read_fat_table_entry,
}
use blesk_os_fork.Fat.Cache.{
  same-IsReady, IsSame, loaded-IsSame, IsSame-trans, cached_byte, load_fat_table_sector-IsClean,
}
use blesk_os_fork.Fat.Entry.{table_entry, last_byte, IsVolume}
use blesk_os_fork.Fat.Table.{table_byte, IsReady, IsClean, IsLoaded, load_fat_table_sector-IsLoaded}

pub record IsRead (t : FatType) (entry : ℕ) (v : Volume) (r : ℕ × Volume) : Type 0 where
  pub value : r.0 ≡ table_entry t (table_byte v) entry
  pub same : IsSame v r.1
  pub clean : IsClean r.1

-- A read from one sector.
IsRead-one :
    (t : FatType) (entry s : ℕ) (v : Volume) (value : Sector → ℕ)
    → IsReady v
    → IsClean v
    → s < v.fat_info.fat_table_size_in_sectors
    → value (load_fat_table_sector s v).1.fat_info.fat_table_sector
      ≡ table_entry t (table_byte v) entry
    → IsRead t entry v (value_or_error (load_fat_table_sector s v) value)
IsRead-one t entry s v value ready clean below is_value =
    let loaded = load_fat_table_sector-IsLoaded s v ready clean below in
    rw loaded.succeeded (record {
      value = is_value;
      same = loaded-IsSame s v (load_fat_table_sector s v) below loaded;
      clean = load_fat_table_sector-IsClean s v ready clean below;
    })

-- A byte of the loaded sector by its offset there and its place in the table.
loaded_byte :
    (s j k : ℕ) (v : Volume) (r : Bool × Volume)
    → IsLoaded s v r
    → s < v.fat_info.fat_table_size_in_sectors
    → j ≡ k % 512
    → k / 512 ≡ s
    → r.1.fat_info.fat_table_sector j ≡ table_byte v k
loaded_byte s j k v r loaded below offset here =
    ap (λ o. r.1.fat_info.fat_table_sector o) offset ∙ cached_byte s k v r loaded here below

IsRead-fat32 :
    (entry : ℕ) (v : Volume)
    → IsReady v
    → IsClean v
    → entry / 128 < v.fat_info.fat_table_size_in_sectors
    → IsRead fat32 entry v
        (value_or_error (load_fat_table_sector (entry / 128) v) (λ b. dword_at b (entry % 128)))
unfolding table_entry
IsRead-fat32 entry v ready clean below =
    let s = entry / 128 in
    let r = load_fat_table_sector s v in
    let byte = λ (j : ℕ) (k : ℕ).
      loaded_byte s j k v r (load_fat_table_sector-IsLoaded s v ready clean below) below in
    IsRead-one fat32 entry s v (λ b. dword_at b (entry % 128)) ready clean below
      (rw
        (
          byte (4 * (entry % 128)) (4 * entry) (omega arith) (omega arith),
          byte (4 * (entry % 128) + 1) (4 * entry + 1) (omega arith) (omega arith),
          byte (4 * (entry % 128) + 2) (4 * entry + 2) (omega arith) (omega arith),
          byte (4 * (entry % 128) + 3) (4 * entry + 3) (omega arith) (omega arith),
        )
        refl)

IsRead-fat16 :
    (entry : ℕ) (v : Volume)
    → IsReady v
    → IsClean v
    → entry / 256 < v.fat_info.fat_table_size_in_sectors
    → IsRead fat16 entry v
        (value_or_error (load_fat_table_sector (entry / 256) v) (λ b. word_at b (entry % 256)))
unfolding table_entry
IsRead-fat16 entry v ready clean below =
    let s = entry / 256 in
    let r = load_fat_table_sector s v in
    let byte = λ (j : ℕ) (k : ℕ).
      loaded_byte s j k v r (load_fat_table_sector-IsLoaded s v ready clean below) below in
    IsRead-one fat16 entry s v (λ b. word_at b (entry % 256)) ready clean below
      (rw
        (
          byte (2 * (entry % 256)) (2 * entry) (omega arith) (omega arith),
          byte (2 * (entry % 256) + 1) (2 * entry + 1) (omega arith) (omega arith),
        )
        refl)

-- The two halves of an entry of 12 bits.
join_even : (high low : ℕ) → low < 256 → bit_or (high << 8) low ≡ low + high * 2 ^ 8
join_even high low below = bit_or-below 8 high low below ∙ omega arith

join_odd : (high low : ℕ) → low < 256 → bit_or (high << 4) (low >> 4) ≡ low / 16 + high * 2 ^ 4
join_odd high low below = bit_or-below 4 high (low / 16) (omega arith) ∙ omega arith

-- The second of two bytes, after the sector of the first has been in memory.
second_byte :
    (s k : ℕ) (v w : Volume)
    → IsReady v
    → IsClean w
    → IsSame v w
    → k / 512 ≡ s
    → s < v.fat_info.fat_table_size_in_sectors
    → (load_fat_table_sector s w).1.fat_info.fat_table_sector (k % 512) ≡ table_byte v k
second_byte s k v w ready clean same here below =
    let size : w.fat_info.fat_table_size_in_sectors ≡ v.fat_info.fat_table_size_in_sectors =
      ap (λ f. f.fat_table_size_in_sectors) same.same_info in
    let w_below : s < w.fat_info.fat_table_size_in_sectors = omega (arith, below, size) in
    let loaded = load_fat_table_sector-IsLoaded s w (same-IsReady v w ready same) clean w_below in
    cached_byte s k w (load_fat_table_sector s w) loaded here w_below
    ∙ same.same_table k (omega arith)

-- A read from one more sector of the same table.
IsRead-next :
    (t : FatType) (entry s : ℕ) (v w : Volume) (value : Sector → ℕ)
    → IsReady v
    → IsSame v w
    → IsClean w
    → s < v.fat_info.fat_table_size_in_sectors
    → value (load_fat_table_sector s w).1.fat_info.fat_table_sector
      ≡ table_entry t (table_byte v) entry
    → IsRead t entry v (value_or_error (load_fat_table_sector s w) value)
IsRead-next t entry s v w value ready same clean below is_value =
    let size : w.fat_info.fat_table_size_in_sectors ≡ v.fat_info.fat_table_size_in_sectors =
      ap (λ f. f.fat_table_size_in_sectors) same.same_info in
    let w_below : s < w.fat_info.fat_table_size_in_sectors = omega (arith, below, size) in
    let w_ready = same-IsReady v w ready same in
    let loaded = load_fat_table_sector-IsLoaded s w w_ready clean w_below in
    rw loaded.succeeded (record {
      value = is_value;
      same =
          IsSame-trans v w (load_fat_table_sector s w).1 same
            (loaded-IsSame s w (load_fat_table_sector s w) w_below loaded);
      clean = load_fat_table_sector-IsClean s w w_ready clean w_below;
    })

IsRead-fat12 :
    (entry : ℕ) (v : Volume)
    → IsReady v
    → IsClean v
    → entry * 12 < 2 ^ 32 - 8
    → (entry * 3 / 2 + 1) / 512 < v.fat_info.fat_table_size_in_sectors
    → table_byte v (entry * 3 / 2) < 256
    → IsRead fat12 entry v (read_fat12_entry entry v)
unfolding table_entry read_fat12_entry
IsRead-fat12 entry v ready clean small below byte =
    let k = entry * 3 / 2 in
    let bits : u32 (entry * 12) ≡ entry * 12 = omega arith in
    let s0 : entry * 12 / 4096 ≡ k / 512 = omega arith in
    let o0 : entry * 12 % 4096 / 8 ≡ k % 512 = omega arith in
    let first_below : k / 512 < v.fat_info.fat_table_size_in_sectors = omega arith in
    let loaded = load_fat_table_sector-IsLoaded (k / 512) v ready clean first_below in
    let w = (load_fat_table_sector (k / 512) v).1 in
    let same = loaded-IsSame (k / 512) v (load_fat_table_sector (k / 512) v) first_below loaded in
    let w_clean = load_fat_table_sector-IsClean (k / 512) v ready clean first_below in
    let low : w.fat_info.fat_table_sector (k % 512) ≡ table_byte v k =
      cached_byte (k / 512) k v (load_fat_table_sector (k / 512) v) loaded refl first_below in
    let high : (load_fat_table_sector ((k + 1) / 512) w).1.fat_info.fat_table_sector ((k + 1) % 512)
        ≡ table_byte v (k + 1) =
      second_byte ((k + 1) / 512) (k + 1) v w ready w_clean same refl below in
    elim (Bool-cases (entry % 2 == 0)) [
      | inl even ↦
          let is_even : entry % 2 ≡ 0 = ground arith in
          let s1 : u32 (entry * 12 + 8) / 4096 ≡ (k + 1) / 512 = omega arith in
          let o1 : u32 (entry * 12 + 8) % 4096 / 8 ≡ (k + 1) % 512 = omega arith in
          let is_value : bit_or
                (((load_fat_table_sector ((k + 1) / 512) w).1.fat_info.fat_table_sector
                      ((k + 1) % 512)
                    % 16)
                  << 8)
                (w.fat_info.fat_table_sector (k % 512))
              ≡ table_entry fat12 (table_byte v) entry =
            rw (high, low, even) (join_even (table_byte v (k + 1) % 16) (table_byte v k) byte) in
          rw (bits, s0, o0, even, s1, o1, loaded.succeeded)
            (IsRead-next fat12 entry ((k + 1) / 512) v w
              (λ b. bit_or ((b ((k + 1) % 512) % 16) << 8) (w.fat_info.fat_table_sector (k % 512)))
              ready same w_clean below is_value)
      | inr odd ↦
          let is_odd : entry % 2 ≡ 1 = ground arith in
          let s1 : u32 (entry * 12 + 4) / 4096 ≡ (k + 1) / 512 = omega arith in
          let o1 : u32 (entry * 12 + 4) % 4096 / 8 ≡ (k + 1) % 512 = omega arith in
          let is_value : bit_or
                ((load_fat_table_sector ((k + 1) / 512) w).1.fat_info.fat_table_sector
                    ((k + 1) % 512)
                  << 4)
                (w.fat_info.fat_table_sector (k % 512) >> 4)
              ≡ table_entry fat12 (table_byte v) entry =
            rw (high, low, odd) (join_odd (table_byte v (k + 1)) (table_byte v k) byte) in
          rw (bits, s0, o0, odd, s1, o1, loaded.succeeded)
            (IsRead-next fat12 entry ((k + 1) / 512) v w
              (λ b. bit_or (b ((k + 1) % 512) << 4) (w.fat_info.fat_table_sector (k % 512) >> 4))
              ready same w_clean below is_value)
    ]

read_entry_of_type-IsRead :
    (t : FatType) (entry : ℕ) (v : Volume)
    → IsReady v
    → IsClean v
    → last_byte t entry / 512 < v.fat_info.fat_table_size_in_sectors
    → entry * 12 < 2 ^ 32 - 8
    → ((k : ℕ) → k / 512 < v.fat_info.fat_table_size_in_sectors → table_byte v k < 256)
    → IsRead t entry v (read_entry_of_type t entry v)
unfolding read_entry_of_type last_byte
read_entry_of_type-IsRead fat32 entry v ready clean below small bytes =
    IsRead-fat32 entry v ready clean (omega arith)
read_entry_of_type-IsRead fat16 entry v ready clean below small bytes =
    IsRead-fat16 entry v ready clean (omega arith)
read_entry_of_type-IsRead fat12 entry v ready clean below small bytes =
    IsRead-fat12 entry v ready clean small below (bytes (entry * 3 / 2) (omega arith))

-- The entry of a cluster is read from the table, whichever sector of the table was in memory, and
-- the table is as before: on a medium that does not fail, if the sector in memory had been saved.
pub read_fat_table_entry-IsRead :
    (entry : ℕ) (v : Volume)
    → IsVolume v
    → IsClean v
    → entry < v.fat_info.number_of_clusters
    → IsRead v.fat_info.type entry v (read_fat_table_entry entry v)
unfolding read_fat_table_entry
read_fat_table_entry-IsRead entry v volume clean below =
    let within : leb v.fat_info.number_of_clusters entry ≡ false = ground arith in
    let small : entry * 12 < 2 ^ 32 - 8 = omega (arith, volume.in_words, below) in
    rw within (
      read_entry_of_type-IsRead v.fat_info.type entry v volume.ready clean
        (volume.covered entry below) small volume.bytes)

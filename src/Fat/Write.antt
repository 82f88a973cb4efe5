-- ===== src/Fat/Write.antt =====
-- write_fat_table_entry as a change of the table, whichever of its sectors is in memory.
use blesk_os_fork.Base.{
  ℕ, ◌+◌, ◌*◌, ◌/◌, ◌%◌, ◌^◌, ◌<◌, ◌≡◌, refl, ap, ◌∙◌, sym, Bool, true, ◌==◌, if◌then◌else◌, arith,
  ◌>>◌, u8,
}
use blesk_os_fork.Fat.{
  FatType, fat12, fat16, fat32, Sector, FatInfo, Volume, set_byte, set_word, set_dword,
  change_sector, change_or_error, save_and_load_fat_table_sector,
}
use blesk_os_fork.Fat.Cache.{
  still-IsReady, set_cached_byte, save_and_load_fat_table_sector-IsLoaded,
}
use blesk_os_fork.Fat.Table.{table_byte, IsReady}
use mathlib.Core.Path.{subst}

-- The volume `w` is `v` with another table.
pub record IsChanged (table : Sector) (v w : Volume) : Type 0 where
  pub same_info : w.fat_info ≡ record v.fat_info {
    loaded_fat_table_sector = w.fat_info.loaded_fat_table_sector;
    fat_table_sector = w.fat_info.fat_table_sector;
  }
  pub same_fails : w.medium.fails ≡ v.medium.fails
  pub in_table : w.fat_info.loaded_fat_table_sector < v.fat_info.fat_table_size_in_sectors
  pub is_table : (k : ℕ) → k / 512 < v.fat_info.fat_table_size_in_sectors → table_byte w k ≡ table k

pub changed-IsReady : (table : Sector) (v w : Volume) → IsReady v → IsChanged table v w → IsReady w
changed-IsReady table v w ready changed =
    still-IsReady w.fat_info.loaded_fat_table_sector w.fat_info.fat_table_sector v w ready
      changed.in_table changed.same_info changed.same_fails

set_byte_same : (i x k : ℕ) (b c : Sector) → b k ≡ c k → set_byte i x b k ≡ set_byte i x c k
set_byte_same i x k b c same = ap (λ y. if k == i then x else y) same

-- A byte is set whose sector is in memory.
pub set_loaded_byte :
    (i x : ℕ) (table : Sector) (v w : Volume)
    → IsChanged table v w
    → w.fat_info.loaded_fat_table_sector ≡ i / 512
    → IsChanged (set_byte i x table) v (change_sector (set_byte (i % 512) x) w)
set_loaded_byte i x table v w changed here =
    let with_sector : Sector → FatInfo → FatInfo = λ b q. record q { fat_table_sector = b } in
    record {
      same_info =
          ap (with_sector (set_byte (i % 512) x w.fat_info.fat_table_sector)) changed.same_info;
      same_fails = changed.same_fails;
      in_table = changed.in_table;
      is_table = λ k h.
          set_cached_byte i x k w here
          ∙ set_byte_same i x k (table_byte w) table (changed.is_table k h);
    }

-- Another sector comes into memory.
pub load-IsChanged :
    (s : ℕ) (table : Sector) (v w : Volume)
    → IsReady v
    → IsChanged table v w
    → s < v.fat_info.fat_table_size_in_sectors
    → ((save_and_load_fat_table_sector s w).0 ≡ true)
      × ((save_and_load_fat_table_sector s w).1.fat_info.loaded_fat_table_sector ≡ s)
      × IsChanged table v (save_and_load_fat_table_sector s w).1
load-IsChanged s table v w ready changed below =
    let size : w.fat_info.fat_table_size_in_sectors ≡ v.fat_info.fat_table_size_in_sectors =
      ap (λ f. f.fat_table_size_in_sectors) changed.same_info in
    let w_below : s < w.fat_info.fat_table_size_in_sectors = omega (arith, below, size) in
    let loaded =
      save_and_load_fat_table_sector-IsLoaded s w (changed-IsReady table v w ready changed)
        w_below in
    let u = (save_and_load_fat_table_sector s w).1 in
    let here : u.fat_info.loaded_fat_table_sector ≡ s =
      ap (λ f. f.loaded_fat_table_sector) loaded.same_info in
    let with_sector : ℕ → FatInfo → FatInfo = λ t q. record q {
      loaded_fat_table_sector = t;
      fat_table_sector = u.fat_info.fat_table_sector;
    } in
    (
      loaded.succeeded,
      here,
      record {
        same_info =
            loaded.same_info
            ∙ ap (with_sector s) changed.same_info
            ∙ ap (λ t. with_sector t v.fat_info) (sym here);
        same_fails = loaded.same_fails ∙ changed.same_fails;
        in_table = subst (λ t. t < v.fat_info.fat_table_size_in_sectors) (sym here) below;
        is_table = λ k h. loaded.same_table k (omega (arith, h, size)) ∙ changed.is_table k h;
      },
    )

pub same-IsChanged : (v : Volume) → IsReady v → IsChanged (table_byte v) v v
same-IsChanged v ready = record {
  same_info = refl;
  same_fails = refl;
  in_table = ready.in_table;
  is_table = λ k h. refl;
}

-- The table with another entry.
unfoldable pub set_entry : FatType → ℕ → ℕ → Sector → Sector
set_entry fat32 e value b = set_dword e value b
set_entry fat16 e value b = set_word e value b
set_entry fat12 e value b =
    let k = e * 3 / 2 in
    if e % 2 == 0
    then set_byte (k + 1) (b (k + 1) / 16 * 16 + value / 2 ^ 8 % 16) (set_byte k (value % 2 ^ 8) b)
    else set_byte (k + 1) (value / 2 ^ 4 % 2 ^ 8) (set_byte k (b k % 16 + value % 16 * 2 ^ 4) b)

pub record IsWritten (t : FatType) (entry value : ℕ) (v : Volume) (r : Bool × Volume) : Type 0 where
  pub succeeded : r.0 ≡ true
  pub changed : IsChanged (set_entry t entry value (table_byte v)) v r.1

pub write_fat32 :
    (entry value : ℕ) (v : Volume)
    → IsReady v
    → entry / 128 < v.fat_info.fat_table_size_in_sectors
    → IsWritten fat32 entry value v (
        change_or_error
          (save_and_load_fat_table_sector (entry / 128) v)
          (set_dword (entry % 128) value))
unfolding set_entry
write_fat32 entry value v ready below =
    let (done, here, loaded) =
      load-IsChanged (entry / 128) (table_byte v) v v ready (same-IsChanged v ready) below in
    let w = (save_and_load_fat_table_sector (entry / 128) v).1 in
    let c0 =
      set_loaded_byte (4 * entry) (u8 value) (table_byte v) v w loaded (here ∙ omega arith) in
    let c1 = set_loaded_byte (4 * entry + 1) (u8 (value >> 8)) _ v _ c0 (here ∙ omega arith) in
    let c2 = set_loaded_byte (4 * entry + 2) (u8 (value >> 16)) _ v _ c1 (here ∙ omega arith) in
    let c3 = set_loaded_byte (4 * entry + 3) (u8 (value >> 24)) _ v _ c2 (here ∙ omega arith) in
    let o0 : 4 * (entry % 128) ≡ 4 * entry % 512 = omega arith in
    let o1 : 4 * (entry % 128) + 1 ≡ (4 * entry + 1) % 512 = omega arith in
    let o2 : 4 * (entry % 128) + 2 ≡ (4 * entry + 2) % 512 = omega arith in
    let o3 : 4 * (entry % 128) + 3 ≡ (4 * entry + 3) % 512 = omega arith in
    rw (done, o1, o2, o3, o0) (record { succeeded = refl; changed = c3 })

pub write_fat16 :
    (entry value : ℕ) (v : Volume)
    → IsReady v
    → entry / 256 < v.fat_info.fat_table_size_in_sectors
    → IsWritten fat16 entry value v (
        change_or_error
          (save_and_load_fat_table_sector (entry / 256) v)
          (set_word (entry % 256) value))
unfolding set_entry
write_fat16 entry value v ready below =
    let (done, here, loaded) =
      load-IsChanged (entry / 256) (table_byte v) v v ready (same-IsChanged v ready) below in
    let w = (save_and_load_fat_table_sector (entry / 256) v).1 in
    let c0 =
      set_loaded_byte (2 * entry) (u8 value) (table_byte v) v w loaded (here ∙ omega arith) in
    let c1 = set_loaded_byte (2 * entry + 1) (u8 (value >> 8)) _ v _ c0 (here ∙ omega arith) in
    let o0 : 2 * (entry % 256) ≡ 2 * entry % 512 = omega arith in
    let o1 : 2 * (entry % 256) + 1 ≡ (2 * entry + 1) % 512 = omega arith in
    rw (done, o1, o0) (record { succeeded = refl; changed = c1 })

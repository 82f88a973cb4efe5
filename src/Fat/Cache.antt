-- ===== src/Fat/Cache.antt =====
-- The table while its sectors come into memory and go: reads and writes of single bytes.
use blesk_os_fork.Base.{
  ℕ, ◌+◌, ◌/◌, ◌%◌, ◌<◌, ◌≡◌, ◌≢◌, refl, ap, ◌∙◌, sym, Bool, arith, ==_true, ==_false, ℕ_discrete,
}
use blesk_os_fork.Fat.{
  Sector, FatInfo, Volume, set_byte, change_sector, load_fat_table_sector,
  save_loaded_fat_table_sector, save_and_load_fat_table_sector,
}
use blesk_os_fork.Fat.Table.{
  sector_place, table_byte, IsReady, IsClean, IsLoaded, load_fat_table_sector-IsLoaded,
  save_loaded_fat_table_sector-IsSaved,
}
use mathlib.Core.Path.{subst}

-- A volume that differs from a ready one in the sector in memory alone is ready too.
pub still-IsReady :
    (s : ℕ) (b : Sector) (v w : Volume)
    → IsReady v
    → s < v.fat_info.fat_table_size_in_sectors
    → w.fat_info ≡ record v.fat_info { loaded_fat_table_sector = s; fat_table_sector = b }
    → w.medium.fails ≡ v.medium.fails
    → IsReady w
still-IsReady s b v w ready below info fails = record {
  never_fails = λ t. ap (λ f. f t) fails ∙ ready.never_fails t;
  in_table = rw info below;
  some_table = rw info ready.some_table;
  on_medium = rw info ready.on_medium;
}

pub loaded-IsReady :
    (s : ℕ) (v : Volume) (r : Bool × Volume)
    → IsReady v
    → s < v.fat_info.fat_table_size_in_sectors
    → IsLoaded s v r
    → IsReady r.1
loaded-IsReady s v r ready below loaded =
    still-IsReady s r.1.fat_info.fat_table_sector v r.1 ready below loaded.same_info
      loaded.same_fails

-- Whatever has been written to the sector in memory, it is saved before another one takes its place.
pub save_and_load_fat_table_sector-IsLoaded :
    (s : ℕ) (v : Volume)
    → IsReady v
    → s < v.fat_info.fat_table_size_in_sectors
    → IsLoaded s v (save_and_load_fat_table_sector s v)
unfolding save_and_load_fat_table_sector
save_and_load_fat_table_sector-IsLoaded s v ready below =
    let f = v.fat_info in
    let saved = save_loaded_fat_table_sector-IsSaved v ready in
    let w = (save_loaded_fat_table_sector v).1 in
    let w_ready : IsReady w =
      still-IsReady f.loaded_fat_table_sector f.fat_table_sector v w ready ready.in_table
        saved.same_info saved.same_fails in
    let w_below : s < w.fat_info.fat_table_size_in_sectors = rw saved.same_info below in
    let loaded = load_fat_table_sector-IsLoaded s w w_ready saved.clean w_below in
    let with_sector : FatInfo → FatInfo = λ q. record q {
      loaded_fat_table_sector = s;
      fat_table_sector = (load_fat_table_sector s w).1.fat_info.fat_table_sector;
    } in
    elim (ℕ_discrete f.loaded_fat_table_sector s) [
      | yes same ↦ rw (==_true same) (record {
        succeeded = refl;
        same_info = ap (λ q. record f { loaded_fat_table_sector = q }) same;
        same_fails = refl;
        same_table = λ k h. refl;
      })
      | no other ↦
          rw (==_false other, saved.succeeded)
            (record {
              succeeded = loaded.succeeded;
              same_info = loaded.same_info ∙ ap with_sector saved.same_info;
              same_fails = loaded.same_fails ∙ saved.same_fails;
              same_table = λ k h. loaded.same_table k (rw saved.same_info h) ∙ saved.same_table k h;
            })
    ]

pub load_fat_table_sector-IsClean :
    (s : ℕ) (v : Volume)
    → IsReady v
    → IsClean v
    → s < v.fat_info.fat_table_size_in_sectors
    → IsClean (load_fat_table_sector s v).1
unfolding load_fat_table_sector IsClean
load_fat_table_sector-IsClean s v ready clean below =
    let f = v.fat_info in
    let place = sector_place s v ready below in
    elim (ℕ_discrete f.loaded_fat_table_sector s) [
      | yes same ↦ rw (==_true same) clean
      | no other ↦
          rw (==_false other, place, ready.never_fails (f.fat_table_first_sector + s)) (λ o. refl)
    ]

-- The same table on the same volume, whichever of its sectors is in memory.
pub record IsSame (v w : Volume) : Type 0 where
  pub same_info : w.fat_info ≡ record v.fat_info {
    loaded_fat_table_sector = w.fat_info.loaded_fat_table_sector;
    fat_table_sector = w.fat_info.fat_table_sector;
  }
  pub same_fails : w.medium.fails ≡ v.medium.fails
  pub in_table : w.fat_info.loaded_fat_table_sector < v.fat_info.fat_table_size_in_sectors
  pub same_table :
      (k : ℕ) → k / 512 < v.fat_info.fat_table_size_in_sectors → table_byte w k ≡ table_byte v k

pub loaded-IsSame :
    (s : ℕ) (v : Volume) (r : Bool × Volume)
    → s < v.fat_info.fat_table_size_in_sectors
    → IsLoaded s v r
    → IsSame v r.1
loaded-IsSame s v r below loaded =
    let at : r.1.fat_info.loaded_fat_table_sector ≡ s =
      ap (λ f. f.loaded_fat_table_sector) loaded.same_info in
    let with_sector : ℕ → FatInfo = λ q. record v.fat_info {
      loaded_fat_table_sector = q;
      fat_table_sector = r.1.fat_info.fat_table_sector;
    } in
    record {
      same_info = loaded.same_info ∙ ap with_sector (sym at);
      same_fails = loaded.same_fails;
      in_table = subst (λ q. q < v.fat_info.fat_table_size_in_sectors) (sym at) below;
      same_table = loaded.same_table;
    }

pub IsSame-trans : (u v w : Volume) → IsSame u v → IsSame v w → IsSame u w
IsSame-trans u v w first next =
    let size : v.fat_info.fat_table_size_in_sectors ≡ u.fat_info.fat_table_size_in_sectors =
      ap (λ f. f.fat_table_size_in_sectors) first.same_info in
    let with_sector : FatInfo → FatInfo = λ q. record q {
      loaded_fat_table_sector = w.fat_info.loaded_fat_table_sector;
      fat_table_sector = w.fat_info.fat_table_sector;
    } in
    record {
      same_info = next.same_info ∙ ap with_sector first.same_info;
      same_fails = next.same_fails ∙ first.same_fails;
      in_table = omega (arith, next.in_table, size);
      same_table = λ k h. next.same_table k (omega (arith, h, size)) ∙ first.same_table k h;
    }

pub same-IsReady : (v w : Volume) → IsReady v → IsSame v w → IsReady w
same-IsReady v w ready same =
    still-IsReady w.fat_info.loaded_fat_table_sector w.fat_info.fat_table_sector v w ready
      same.in_table same.same_info same.same_fails

-- A byte of the table that is in memory.
pub cached_byte :
    (s k : ℕ) (v : Volume) (r : Bool × Volume)
    → IsLoaded s v r
    → k / 512 ≡ s
    → s < v.fat_info.fat_table_size_in_sectors
    → r.1.fat_info.fat_table_sector (k % 512) ≡ table_byte v k
cached_byte s k v r loaded here below =
    let place : r.1.fat_info.loaded_fat_table_sector ≡ k / 512 =
      ap (λ f. f.loaded_fat_table_sector) loaded.same_info ∙ sym here in
    let hit : table_byte r.1 k ≡ r.1.fat_info.fat_table_sector (k % 512) =
      rw (==_true place) refl in
    sym hit ∙ loaded.same_table k (omega arith)

-- A byte that is set in memory is set in the table.
pub set_cached_byte :
    (i x k : ℕ) (v : Volume)
    → v.fat_info.loaded_fat_table_sector ≡ i / 512
    → table_byte (change_sector (set_byte (i % 512) x) v) k ≡ set_byte i x (table_byte v) k
set_cached_byte i x k v here = elim (ℕ_discrete k i) [
  | yes same ↦
      let place : v.fat_info.loaded_fat_table_sector ≡ k / 512 =
        here ∙ ap (λ j. j / 512) (sym same) in
      let offset : k % 512 ≡ i % 512 = ap (λ j. j % 512) same in
      rw (==_true place, ==_true offset, ==_true same) refl
  | no other ↦ elim (ℕ_discrete v.fat_info.loaded_fat_table_sector (k / 512)) [
    | yes place ↦
        let apart : k % 512 ≢ i % 512 = omega arith in
        rw (==_true place, ==_false apart, ==_false other) refl
    | no place ↦ rw (==_false place, ==_false other) refl
  ]
]

-- ===== src/Fat/Table.antt =====
-- The table as one array of bytes, whichever of its sectors is in memory.
use blesk_os_fork.Base.{
  zero, suc, ◌≢◌, sym, ◌∙◌, ap, refl, ==_false, ==_true, ℕ_discrete, u32, arith, ◌≤◌, ◌^◌, ◌*◌,
  true, false, ◌≡◌, ◌<◌, Bool, ℕ, ◌+◌, ◌/◌, ◌%◌, ◌==◌, if◌then◌else◌,
}
use blesk_os_fork.Fat.{
  write_sector, save_loaded_fat_table_sector, StorageMedium, FatInfo, save_to_tables,
  load_fat_table_sector, Sector, Volume,
}
use mathlib.Core.Path.{subst}
use native.Mathlib.Nat.{mul-le-mul_right, mod-eq_of_lt}

abbrev pub table_byte : Volume → Sector
table_byte v k =
    if v.fat_info.loaded_fat_table_sector == k / 512
    then v.fat_info.fat_table_sector (k % 512)
    else v.medium.sectors (v.fat_info.fat_table_first_sector + k / 512) (k % 512)

-- The sector in memory is one of the table, the tables lie on the medium, and the medium does not fail.
pub record IsReady (v : Volume) : Type 0 where
  pub never_fails : (s : ℕ) → v.medium.fails s ≡ false
  pub in_table : v.fat_info.loaded_fat_table_sector < v.fat_info.fat_table_size_in_sectors
  pub some_table : 0 < v.fat_info.number_of_fat_tables
  pub on_medium :
      v.fat_info.fat_table_first_sector
        + v.fat_info.number_of_fat_tables * v.fat_info.fat_table_size_in_sectors
      < 2 ^ 32

-- The sector in memory is as on the medium.
unfoldable pub IsClean : Volume → Type 0
IsClean v =
    (o : ℕ)
    → v.fat_info.fat_table_sector o
      ≡ v.medium.sectors (v.fat_info.fat_table_first_sector + v.fat_info.loaded_fat_table_sector) o

-- The same volume and the same table, with the sector `s` in memory.
pub record IsLoaded (s : ℕ) (v : Volume) (r : Bool × Volume) : Type 0 where
  pub succeeded : r.0 ≡ true
  pub same_info : r.1.fat_info ≡ record v.fat_info {
    loaded_fat_table_sector = s;
    fat_table_sector = r.1.fat_info.fat_table_sector;
  }
  pub same_fails : r.1.medium.fails ≡ v.medium.fails
  pub same_table :
      (k : ℕ) → k / 512 < v.fat_info.fat_table_size_in_sectors → table_byte r.1 k ≡ table_byte v k

-- The byte `k` of the table before and after its sector changes from a clean one.
load_keeps_table :
    (s k : ℕ) (v : Volume)
    → IsClean v
    → table_byte
        (record v {
          fat_info = record v.fat_info {
            fat_table_sector = v.medium.sectors (v.fat_info.fat_table_first_sector + s);
            loaded_fat_table_sector = s;
          };
        })
        k
      ≡ table_byte v k
unfolding IsClean
load_keeps_table s k v clean =
    let old = v.fat_info.loaded_fat_table_sector in
    let first = v.fat_info.fat_table_first_sector in
    elim (ℕ_discrete s (k / 512)) [
      | yes here ↦ elim (ℕ_discrete old (k / 512)) [
        | yes there ↦
            rw (==_true here, ==_true there)
              (ap (λ t. v.medium.sectors (first + t) (k % 512)) (here ∙ sym there)
                ∙ sym (clean (k % 512)))
        | no there ↦
            rw (==_true here, ==_false there)
              (ap (λ t. v.medium.sectors (first + t) (k % 512)) here)
      ]
      | no here ↦ elim (ℕ_discrete old (k / 512)) [
        | yes there ↦
            rw (==_false here, ==_true there)
              (ap (λ t. v.medium.sectors (first + t) (k % 512)) (sym there) ∙ sym (clean (k % 512)))
        | no there ↦ rw (==_false here, ==_false there) refl
      ]
    ]

pub sector_place :
    (s : ℕ) (v : Volume)
    → IsReady v
    → s < v.fat_info.fat_table_size_in_sectors
    → u32 (v.fat_info.fat_table_first_sector + s) ≡ v.fat_info.fat_table_first_sector + s
sector_place s v ready below =
    let f = v.fat_info in
    let some : 1 * f.fat_table_size_in_sectors
        ≤ f.number_of_fat_tables * f.fat_table_size_in_sectors =
      mul-le-mul_right f.fat_table_size_in_sectors ready.some_table in
    mod-eq_of_lt (omega (arith, some, ready.on_medium))

pub load_fat_table_sector-IsLoaded :
    (s : ℕ) (v : Volume)
    → IsReady v
    → IsClean v
    → s < v.fat_info.fat_table_size_in_sectors
    → IsLoaded s v (load_fat_table_sector s v)
unfolding load_fat_table_sector IsClean
load_fat_table_sector-IsLoaded s v ready clean below =
    let f = v.fat_info in
    let place = sector_place s v ready below in
    elim (ℕ_discrete f.loaded_fat_table_sector s) [
      | yes same ↦ rw (==_true same) (record {
        succeeded = refl;
        same_info = ap (λ q. record f { loaded_fat_table_sector = q }) same;
        same_fails = refl;
        same_table = λ k h. refl;
      })
      | no other ↦
          rw (==_false other, place, ready.never_fails (f.fat_table_first_sector + s))
            (record {
              succeeded = refl;
              same_info = refl;
              same_fails = refl;
              same_table = λ k h. load_keeps_table s k v clean;
            })
    ]

-- The later tables lie behind the first one.
table_bounds :
    (first loaded size i n : ℕ)
    → loaded < size
    → first + (suc i + suc n) * size < 2 ^ 32
    → (first + size ≤ first + loaded + suc i * size) × (first + loaded + suc i * size < 2 ^ 32)
table_bounds first loaded size i n below fits =
    let here : 1 * size ≤ suc i * size = mul-le-mul_right size (omega arith) in
    let up : (suc i + 1) * size ≤ (suc i + suc n) * size = mul-le-mul_right size (omega arith) in
    let next : (suc i + 1) * size ≡ suc i * size + size = grind arith in
    (omega (arith, here), omega (arith, up, next, fits))

save_to_tables_other :
    (n i t : ℕ) (f : FatInfo) (m : StorageMedium)
    → ((s : ℕ) → m.fails s ≡ false)
    → f.loaded_fat_table_sector < f.fat_table_size_in_sectors
    → f.fat_table_first_sector + (suc i + n) * f.fat_table_size_in_sectors < 2 ^ 32
    → t < f.fat_table_first_sector + f.fat_table_size_in_sectors
    → (save_to_tables n (suc i) f m).1.sectors t ≡ m.sectors t
unfolding save_to_tables
save_to_tables_other zero i t f m never below fits inside = refl
save_to_tables_other (suc n) i t f m never below fits inside =
    let size = f.fat_table_size_in_sectors in
    let s = f.fat_table_first_sector + f.loaded_fat_table_sector + suc i * size in
    let (behind, small) =
      table_bounds f.fat_table_first_sector f.loaded_fat_table_sector size i n below fits in
    let place : u32 s ≡ s = mod-eq_of_lt small in
    let apart : t ≢ s = omega (arith, behind) in
    let sum : suc i + suc n ≡ suc (suc i) + n = omega arith in
    let fits_next : f.fat_table_first_sector + (suc (suc i) + n) * size < 2 ^ 32 =
      subst (λ k. f.fat_table_first_sector + k * size < 2 ^ 32) sum fits in
    let other : (write_sector s f.fat_table_sector m).sectors t ≡ m.sectors t =
      rw (==_false apart) refl in
    rw (place, never s)
      (save_to_tables_other n (suc i) t f (write_sector s f.fat_table_sector m) never below
          fits_next inside
        ∙ other)

save_to_tables_succeeds :
    (n i : ℕ) (f : FatInfo) (m : StorageMedium)
    → ((s : ℕ) → m.fails s ≡ false)
    → ((save_to_tables n i f m).0 ≡ true) × ((save_to_tables n i f m).1.fails ≡ m.fails)
unfolding save_to_tables
save_to_tables_succeeds zero i f m never = (refl, refl)
save_to_tables_succeeds (suc n) i f m never =
    let s =
      u32
        (f.fat_table_first_sector + f.loaded_fat_table_sector + i * f.fat_table_size_in_sectors) in
    rw (never s) (save_to_tables_succeeds n (suc i) f (write_sector s f.fat_table_sector m) never)

-- What saving the sector in memory promises: the medium has it, and the table is the same.
pub record IsSaved (v : Volume) (r : Bool × Volume) : Type 0 where
  pub succeeded : r.0 ≡ true
  pub same_info : r.1.fat_info ≡ v.fat_info
  pub same_fails : r.1.medium.fails ≡ v.medium.fails
  pub clean : IsClean r.1
  pub same_table :
      (k : ℕ) → k / 512 < v.fat_info.fat_table_size_in_sectors → table_byte r.1 k ≡ table_byte v k

-- The sectors of the first table after all tables are written.
saved_sectors :
    (n t : ℕ) (f : FatInfo) (m : StorageMedium)
    → ((s : ℕ) → m.fails s ≡ false)
    → 0 < n
    → f.loaded_fat_table_sector < f.fat_table_size_in_sectors
    → f.fat_table_first_sector + n * f.fat_table_size_in_sectors < 2 ^ 32
    → t < f.fat_table_first_sector + f.fat_table_size_in_sectors
    → (save_to_tables n 0 f m).1.sectors t ≡ (
        if t == f.fat_table_first_sector + f.loaded_fat_table_sector
        then f.fat_table_sector
        else m.sectors t)
unfolding save_to_tables
saved_sectors zero t f m never some below fits inside = absurd (omega arith)
saved_sectors (suc n) t f m never some below fits inside =
    let size = f.fat_table_size_in_sectors in
    let s = f.fat_table_first_sector + f.loaded_fat_table_sector in
    let one : 1 * size ≤ suc n * size = mul-le-mul_right size (omega arith) in
    let place : u32 (s + 0 * size) ≡ s = omega (arith, one, fits) in
    let sum : suc n ≡ suc 0 + n = omega arith in
    let fits_next : f.fat_table_first_sector + (suc 0 + n) * size < 2 ^ 32 =
      subst (λ k. f.fat_table_first_sector + k * size < 2 ^ 32) sum fits in
    rw (place, never s)
      (save_to_tables_other n 0 t f (write_sector s f.fat_table_sector m) never below fits_next
        inside)

pub save_loaded_fat_table_sector-IsSaved :
    (v : Volume) → IsReady v → IsSaved v (save_loaded_fat_table_sector v)
unfolding save_loaded_fat_table_sector IsClean
save_loaded_fat_table_sector-IsSaved v ready =
    let f = v.fat_info in
    let done = save_to_tables_succeeds f.number_of_fat_tables 0 f v.medium ready.never_fails in
    let sectors : (t : ℕ)
        → t < f.fat_table_first_sector + f.fat_table_size_in_sectors
        → (save_to_tables f.number_of_fat_tables 0 f v.medium).1.sectors t ≡ (
            if t == f.fat_table_first_sector + f.loaded_fat_table_sector
            then f.fat_table_sector
            else v.medium.sectors t) =
      λ t h.
        saved_sectors f.number_of_fat_tables t f v.medium ready.never_fails ready.some_table
          ready.in_table ready.on_medium h in
    let first = f.fat_table_first_sector in
    let place = first + f.loaded_fat_table_sector in
    let here : place < first + f.fat_table_size_in_sectors = omega (arith, ready.in_table) in
    let self : (place == place) ≡ true = ==_true refl in
    let written : (if place == place then f.fat_table_sector else v.medium.sectors place)
        ≡ f.fat_table_sector =
      rw self refl in
    let kept : (k : ℕ)
        → f.loaded_fat_table_sector ≢ k / 512
        → (if first + k / 512 == place
            then f.fat_table_sector
            else v.medium.sectors (first + k / 512))
          ≡ v.medium.sectors (first + k / 512) =
      λ k h. (let apart : first + k / 512 ≢ place = omega arith in rw (==_false apart) refl) in
    record {
      succeeded = done.0;
      same_info = refl;
      same_fails = done.1;
      clean = λ o. sym (ap (λ b. b o) (sectors place here ∙ written));
      same_table = λ k h. elim (ℕ_discrete f.loaded_fat_table_sector (k / 512)) [
        | yes there ↦ rw (==_true there) refl
        | no there ↦
            rw (==_false there)
              (ap (λ b. b (k % 512)) (sectors (first + k / 512) (omega arith) ∙ kept k there))
      ];
    }

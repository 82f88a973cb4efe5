-- ===== src/Fat/View.antt =====
-- The table as the entries of its clusters: what reads and writes of single entries do to it.
use mathlib.Core.Path.{subst}
use blesk_os_fork.Base.{ℕ, ◌/◌, ◌<◌, ◌≤◌, ◌≡◌, refl, ap, ◌∙◌, sym, true, arith}
use blesk_os_fork.Fat.{Sector, FatInfo, Volume, read_fat_table_entry, save_loaded_fat_table_sector}
use blesk_os_fork.Fat.Cache.{same-IsReady, still-IsReady}
use blesk_os_fork.Fat.Entry.{table_entry, last_byte, IsVolume, table_entry_same}
use blesk_os_fork.Fat.Read.{read_fat_table_entry-IsRead}
use blesk_os_fork.Fat.Table.{table_byte, IsReady, IsClean, save_loaded_fat_table_sector-IsSaved}

-- The entry of a cluster, from the sector in memory or from the medium.
unfoldable pub entry_of : Volume → ℕ → ℕ
entry_of v e = table_entry v.fat_info.type (table_byte v) e

-- The same volume but for the table, the sector in memory and the first free cluster.
pub record IsAlike (v w : Volume) : Type 0 where
  pub same_info : w.fat_info ≡ record v.fat_info {
    loaded_fat_table_sector = w.fat_info.loaded_fat_table_sector;
    fat_table_sector = w.fat_info.fat_table_sector;
    first_free_cluster = w.fat_info.first_free_cluster;
  }
  pub volume : IsVolume w

pub alike-IsVolume :
    (s c : ℕ) (b : Sector) (v w : Volume)
    → IsVolume v
    → w.fat_info ≡ record v.fat_info {
      loaded_fat_table_sector = s;
      fat_table_sector = b;
      first_free_cluster = c;
    }
    → IsReady w
    → ((k : ℕ) → k / 512 < v.fat_info.fat_table_size_in_sectors → table_byte w k < 256)
    → IsVolume w
alike-IsVolume s c b v w volume info ready bytes =
    let size : w.fat_info.fat_table_size_in_sectors ≡ v.fat_info.fat_table_size_in_sectors =
      ap (λ f. f.fat_table_size_in_sectors) info in
    record {
      ready = ready;
      covered = rw info volume.covered;
      in_words = rw info volume.in_words;
      bytes = λ k h. bytes k (omega (arith, h, size));
    }

-- The bytes of a cluster's entry are in the table.
pub entry_bytes :
    (d k : ℕ) (v : Volume)
    → IsVolume v
    → d < v.fat_info.number_of_clusters
    → k ≤ last_byte v.fat_info.type d
    → k / 512 < v.fat_info.fat_table_size_in_sectors
entry_bytes d k v volume below within = omega (arith, volume.covered d below, within)

-- A volume whose table is known as bytes.
pub entry_of_table :
    (d : ℕ) (table : Sector) (v w : Volume)
    → IsVolume v
    → d < v.fat_info.number_of_clusters
    → w.fat_info.type ≡ v.fat_info.type
    → ((k : ℕ) → k / 512 < v.fat_info.fat_table_size_in_sectors → table_byte w k ≡ table k)
    → entry_of w d ≡ table_entry v.fat_info.type table d
unfolding entry_of
entry_of_table d table v w volume below type same =
    ap (λ t. table_entry t (table_byte w) d) type
    ∙ table_entry_same v.fat_info.type d (table_byte w) table
        (λ k h. same k (entry_bytes d k v volume below h))

-- A volume with the same entries, and with the sector in memory as on the medium.
pub record IsKept (v w : Volume) : Type 0 where
  pub alike : IsAlike v w
  pub entries : (d : ℕ) → d < v.fat_info.number_of_clusters → entry_of w d ≡ entry_of v d
  pub first_free : w.fat_info.first_free_cluster ≡ v.fat_info.first_free_cluster
  pub clean : IsClean w

-- A read that gives the entry of the cluster and keeps every entry.
pub record IsGot (e : ℕ) (v : Volume) (r : ℕ × Volume) : Type 0 where
  pub value : r.0 ≡ entry_of v e
  pub kept : IsKept v r.1

pub read_fat_table_entry-IsGot :
    (e : ℕ) (v : Volume)
    → IsVolume v
    → IsClean v
    → e < v.fat_info.number_of_clusters
    → IsGot e v (read_fat_table_entry e v)
unfolding entry_of
read_fat_table_entry-IsGot e v volume clean below =
    let read = read_fat_table_entry-IsRead e v volume clean below in
    let w = (read_fat_table_entry e v).1 in
    let same = read.same in
    let ready = same-IsReady v w volume.ready same in
    let bytes : (k : ℕ) → k / 512 < v.fat_info.fat_table_size_in_sectors → table_byte w k < 256 =
      λ k h. subst (λ x. x < 256) (sym (same.same_table k h)) (volume.bytes k h) in
    let with_sector : ℕ → FatInfo = λ c. record v.fat_info {
      loaded_fat_table_sector = w.fat_info.loaded_fat_table_sector;
      fat_table_sector = w.fat_info.fat_table_sector;
      first_free_cluster = c;
    } in
    let first_free : w.fat_info.first_free_cluster ≡ v.fat_info.first_free_cluster =
      ap (λ f. f.first_free_cluster) same.same_info in
    let info : w.fat_info ≡ with_sector w.fat_info.first_free_cluster =
      same.same_info ∙ ap with_sector (sym first_free) in
    record {
      value = read.value;
      kept = record {
        alike = record {
          same_info = info;
          volume =
              alike-IsVolume w.fat_info.loaded_fat_table_sector w.fat_info.first_free_cluster
                w.fat_info.fat_table_sector v w volume info ready bytes;
        };
        entries = λ d h.
            entry_of_table d (table_byte v) v w volume h (ap (λ f. f.type) same.same_info)
              same.same_table;
        first_free = first_free;
        clean = read.clean;
      };
    }

pub IsAlike-trans : (u v w : Volume) → IsAlike u v → IsAlike v w → IsAlike u w
IsAlike-trans u v w first next =
    let with_sector : FatInfo → FatInfo = λ q. record q {
      loaded_fat_table_sector = w.fat_info.loaded_fat_table_sector;
      fat_table_sector = w.fat_info.fat_table_sector;
      first_free_cluster = w.fat_info.first_free_cluster;
    } in
    record { same_info = next.same_info ∙ ap with_sector first.same_info; volume = next.volume }

pub alike_count :
    (v w : Volume) → IsAlike v w → w.fat_info.number_of_clusters ≡ v.fat_info.number_of_clusters
alike_count v w alike = ap (λ f. f.number_of_clusters) alike.same_info

pub alike_ending :
    (v w : Volume)
    → IsAlike v w
    → w.fat_info.file_ending_entry_value ≡ v.fat_info.file_ending_entry_value
alike_ending v w alike = ap (λ f. f.file_ending_entry_value) alike.same_info

pub IsKept-refl : (v : Volume) → IsVolume v → IsClean v → IsKept v v
IsKept-refl v volume clean = record {
  alike = record { same_info = refl; volume = volume };
  entries = λ d h. refl;
  first_free = refl;
  clean = clean;
}

pub IsKept-trans : (u v w : Volume) → IsKept u v → IsKept v w → IsKept u w
IsKept-trans u v w first next = record {
  alike = IsAlike-trans u v w first.alike next.alike;
  entries =
      λ d h. next.entries d (omega (arith, h, alike_count u v first.alike)) ∙ first.entries d h;
  first_free = next.first_free ∙ first.first_free;
  clean = next.clean;
}

-- Saving the sector in memory keeps the entries.
pub save_loaded_fat_table_sector-IsKept :
    (v : Volume)
    → IsVolume v
    → ((save_loaded_fat_table_sector v).0 ≡ true) × IsKept v (save_loaded_fat_table_sector v).1
unfolding entry_of
save_loaded_fat_table_sector-IsKept v volume =
    let saved = save_loaded_fat_table_sector-IsSaved v volume.ready in
    let f = v.fat_info in
    let w = (save_loaded_fat_table_sector v).1 in
    let ready : IsReady w =
      still-IsReady f.loaded_fat_table_sector f.fat_table_sector v w volume.ready
        volume.ready.in_table saved.same_info saved.same_fails in
    let with_sector : FatInfo → FatInfo = λ q. record f {
      loaded_fat_table_sector = q.loaded_fat_table_sector;
      fat_table_sector = q.fat_table_sector;
      first_free_cluster = q.first_free_cluster;
    } in
    (
      saved.succeeded,
      record {
        alike = record {
          same_info = saved.same_info ∙ ap with_sector (sym saved.same_info);
          volume =
              alike-IsVolume f.loaded_fat_table_sector f.first_free_cluster f.fat_table_sector v w
                volume saved.same_info ready
                (λ k h. subst (λ y. y < 256) (sym (saved.same_table k h)) (volume.bytes k h));
        };
        entries = λ d h.
            entry_of_table d (table_byte v) v w volume h (ap (λ q. q.type) saved.same_info)
              saved.same_table;
        first_free = ap (λ q. q.first_free_cluster) saved.same_info;
        clean = saved.clean;
      },
    )

-- ===== src/Fat/Created.antt =====
-- create_fat_file makes a chain of free clusters, and the file is read from where its data was written.
use mathlib.Core.Path.{subst}
use blesk_os_fork.Base.{
  ℕ, ◌+◌, ◌/◌, ◌%◌, ◌<◌, ◌≤◌, ◌≡◌, refl, ap, ◌∙◌, sym, Bool, true, false, ltb, ◌==◌, if◌then◌else◌,
  arith, inl, inr, Bool-cases, List, [], ◌∷◌, length, get_or, take,
}
use blesk_os_fork.Fat.{save_loaded_fat_table_sector, StorageMedium, Volume}
use blesk_os_fork.Fat.Chain.{elem}
use blesk_os_fork.Fat.Create.{
  created_if_saved, fat_find_free_cluster, set_first_free_cluster, raise_first_free_cluster,
  link_clusters, Created, created,
}
use blesk_os_fork.Fat.Entry.{IsVolume, entry_values}
use blesk_os_fork.Fat.File.{save_if_written}
use blesk_os_fork.Fat.Link.{IsDistinct, linked, linked_other, link_clusters-IsLinked}
use blesk_os_fork.Fat.ReadFile.{IsFile, linked-IsFile, same-IsFile}
use blesk_os_fork.Fat.Sequence.{IsDataArea}
use blesk_os_fork.Fat.Table.{table_byte, IsReady, IsClean}
use blesk_os_fork.Fat.View.{
  entry_of, entry_of_table, IsAlike, alike-IsVolume, IsAlike-trans, alike_count, alike_ending,
  save_loaded_fat_table_sector-IsKept,
}
use blesk_os_fork.Sectors.{Descriptor}
use blesk_os_fork.Sectors.Sequence.{sectors_of}

-- A volume whose numbers fit together: the values that end a file are no clusters, the data area lies
-- behind the table, and the hint for the search is a cluster or the end.
pub record IsFormatted (v : Volume) : Type 0 where
  pub volume : IsVolume v
  pub area : IsDataArea v.fat_info
  pub first_low : 2 ≤ v.fat_info.first_free_cluster
  pub first_high : v.fat_info.first_free_cluster ≤ v.fat_info.number_of_clusters
  pub no_cluster_ends : v.fat_info.number_of_clusters < v.fat_info.file_ending_entry_value
  pub ending_fits : v.fat_info.file_ending_entry_value < entry_values v.fat_info.type
  pub tables_before_data :
      v.fat_info.fat_table_first_sector + v.fat_info.fat_table_size_in_sectors
      ≤ v.fat_info.data_first_sector

-- Writing succeeds, and changes the sectors of the descriptor alone.
pub record IsWriter (write_data : Descriptor → StorageMedium → Bool × StorageMedium) : Type 0 where
  pub succeeds : (d : Descriptor) (m : StorageMedium) → (write_data d m).0 ≡ true
  pub same_fails : (d : Descriptor) (m : StorageMedium) → (write_data d m).1.fails ≡ m.fails
  pub same_sectors :
      (d : Descriptor) (m : StorageMedium) (s : ℕ)
      → elem s (sectors_of d.runs) ≡ false
      → (write_data d m).1.sectors s ≡ m.sectors s

-- Another hint and other sectors behind the table.
pub other_medium :
    (c : ℕ) (m : StorageMedium) (v : Volume)
    → IsVolume v
    → m.fails ≡ v.medium.fails
    → ((s : ℕ)
        → s < v.fat_info.fat_table_first_sector + v.fat_info.fat_table_size_in_sectors
        → m.sectors s ≡ v.medium.sectors s)
    → IsAlike v (record { fat_info = record v.fat_info { first_free_cluster = c }; medium = m })
      × ((d : ℕ)
          → d < v.fat_info.number_of_clusters
          → entry_of
              (record { fat_info = record v.fat_info { first_free_cluster = c }; medium = m })
              d
            ≡ entry_of v d)
unfolding entry_of
other_medium c m v volume fails sectors =
    let w : Volume = record {
      fat_info = record v.fat_info { first_free_cluster = c };
      medium = m;
    } in
    let f = v.fat_info in
    let same : (k : ℕ) → k / 512 < f.fat_table_size_in_sectors → table_byte w k ≡ table_byte v k =
      λ k h.
        ap
          (λ b.
            if f.loaded_fat_table_sector == k / 512
            then f.fat_table_sector (k % 512)
            else b (k % 512))
          (sectors (f.fat_table_first_sector + k / 512) (omega (arith, h))) in
    let ready : IsReady w = record {
      never_fails = λ s. ap (λ q. q s) fails ∙ volume.ready.never_fails s;
      in_table = volume.ready.in_table;
      some_table = volume.ready.some_table;
      on_medium = volume.ready.on_medium;
    } in
    (
      record {
        same_info = refl;
        volume =
            alike-IsVolume f.loaded_fat_table_sector c f.fat_table_sector v w volume refl ready
              (λ k h. subst (λ y. y < 256) (sym (same k h)) (volume.bytes k h));
      },
      λ d h. entry_of_table d (table_byte v) v w volume h refl same,
    )

-- The search raises the hint, or leaves it.
pub raised :
    (wanted : ℕ) (cs : List ℕ) (v : Volume)
    → raise_first_free_cluster fat_find_free_cluster wanted cs v
      ≡ set_first_free_cluster
          (if ltb v.fat_info.first_free_cluster (get_or cs 0 0)
            then get_or cs 0 0
            else v.fat_info.first_free_cluster)
          v
raised wanted cs v = elim (Bool-cases (ltb v.fat_info.first_free_cluster (get_or cs 0 0))) [
  | inl e ↦ rw e refl
  | inr e ↦ rw e refl
]

-- A file whose clusters were free.
pub record IsNewFile (cs : List ℕ) (v : Volume) (r : Created) : Type 0 where
  pub after : Volume
  pub is_created : r ≡ created (get_or cs 0 0) after
  pub alike : IsAlike v after
  pub clean : IsClean after
  pub is_file : IsFile v.fat_info.file_ending_entry_value (entry_of after) cs
  pub others :
      (d : ℕ)
      → d < v.fat_info.number_of_clusters
      → elem d cs ≡ false
      → entry_of after d ≡ entry_of v d

-- The clusters are linked and the table is saved.
pub link_and_save :
    (c : ℕ) (cs : List ℕ) (v u : Volume)
    → IsFormatted v
    → IsAlike v u
    → ((d : ℕ) → d < v.fat_info.number_of_clusters → entry_of u d ≡ entry_of v d)
    → IsDistinct (c ∷ cs)
    → ((d : ℕ) → elem d (c ∷ cs) ≡ true → d < v.fat_info.number_of_clusters)
    → IsNewFile (c ∷ cs) v (
        created_if_saved c
          (save_if_written (link_clusters u.fat_info.file_ending_entry_value (c ∷ cs) u)))
link_and_save c cs v u formatted alike entries distinct inside =
    let ending = v.fat_info.file_ending_entry_value in
    let last = alike_ending v u alike in
    let count = alike_count v u alike in
    let type : u.fat_info.type ≡ v.fat_info.type = ap (λ f. f.type) alike.same_info in
    let fits : ending < entry_values u.fat_info.type =
      subst (λ t. ending < entry_values t) (sym type) formatted.ending_fits in
    let is_linked =
      link_clusters-IsLinked ending (c ∷ cs) u (entry_of v) alike.volume fits
        (omega (arith, count, formatted.no_cluster_ends))
        (λ d there. omega (arith, count, inside d there))
        (λ d h. entries d (omega (arith, h, count))) in
    let w = (link_clusters ending (c ∷ cs) u).1 in
    let w_count = alike_count u w is_linked.alike in
    let (saved, kept) = save_loaded_fat_table_sector-IsKept w is_linked.alike.volume in
    let z = (save_loaded_fat_table_sector w).1 in
    let z_entries : (d : ℕ)
        → d < v.fat_info.number_of_clusters
        → entry_of z d ≡ linked ending (c ∷ cs) (entry_of v) d =
      λ d h.
        kept.entries d (omega (arith, h, count, w_count))
        ∙ is_linked.entries d (omega (arith, h, count)) in
    subst
      (λ e.
        IsNewFile (c ∷ cs) v (created_if_saved c (save_if_written (link_clusters e (c ∷ cs) u))))
      (sym last)
      (rw (is_linked.succeeded, saved)
        (record {
          after = z;
          is_created = refl;
          alike = IsAlike-trans v u z alike (IsAlike-trans u w z is_linked.alike kept.alike);
          clean = kept.clean;
          is_file =
              same-IsFile ending (linked ending (c ∷ cs) (entry_of v)) (entry_of z) c cs
                (λ d there. z_entries d (inside d there))
                (linked-IsFile ending c cs (entry_of v) distinct
                  (λ d there. omega (arith, inside d there, formatted.no_cluster_ends)));
          others = λ d h new. z_entries d h ∙ linked_other ending (c ∷ cs) (entry_of v) d new;
        }))

pub take-length : (cs : List ℕ) → take (length cs) cs ≡ cs
take-length [] = refl
take-length (c ∷ cs) = ap (λ ds. c ∷ ds) (take-length cs)

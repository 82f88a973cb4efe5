-- ===== src/Fat/Taken.antt =====
-- The clusters that the search found become a file.
use blesk_os_fork.Base.{
  ℕ, ◌+◌, ◌-◌, ◌*◌, ◌^◌, ◌<◌, ◌≤◌, ◌≡◌, refl, ap, ◌∙◌, sym, Bool, true, false, ltb, if◌then◌else◌,
  arith, List, ◌∷◌, length,
}
use blesk_os_fork.Fat.{StorageMedium, Volume}
use blesk_os_fork.Fat.Chain.{elem}
use blesk_os_fork.Fat.Create.{
  Found, nothing_found, fat_find_free_cluster, set_first_free_cluster, raise_first_free_cluster,
  find_free_clusters, write_found, create_with_clusters,
}
use blesk_os_fork.Fat.Created.{
  IsFormatted, IsWriter, other_medium, raised, IsNewFile, link_and_save, take-length,
}
use blesk_os_fork.Fat.Free.{free_clusters-inside, free_clusters-IsDistinct, length-free_clusters}
use blesk_os_fork.Fat.Link.{IsDistinct}
use blesk_os_fork.Fat.Search.{free_clusters, find_free_clusters-Finds}
use blesk_os_fork.Fat.Sequence.{
  sectors_of_clusters, before_data, descriptor_of, descriptor_of-sectors,
}
use blesk_os_fork.Fat.Table.{IsClean}
use blesk_os_fork.Fat.View.{entry_of, IsAlike, IsAlike-trans, alike_count}
use blesk_os_fork.Sectors.{Descriptor, create_descriptor_of_file_sectors}
use blesk_os_fork.Sectors.Runs.{create_descriptor_of_file_sectors-HasRuns}
use blesk_os_fork.Sectors.Sequence.{sectors_of}
use mathlib.Core.Path.{subst}
use native.Mathlib.Nat.{mul-le-mul_right}

-- The data is written, behind the tables.
written-IsAlike :
    (write_data : Descriptor → StorageMedium → Bool × StorageMedium) (d : Descriptor) (cs : List ℕ)
    (v u : Volume)
    → IsWriter write_data
    → IsFormatted v
    → IsAlike v u
    → ((b : ℕ) → b < v.fat_info.number_of_clusters → entry_of u b ≡ entry_of v b)
    → sectors_of d.runs ≡ sectors_of_clusters v.fat_info cs
    → IsAlike v (record u { medium = (write_data d u.medium).1 })
      × ((b : ℕ)
          → b < v.fat_info.number_of_clusters
          → entry_of (record u { medium = (write_data d u.medium).1 }) b ≡ entry_of v b)
written-IsAlike write_data d cs v u writer formatted alike entries sectors =
    let m = (write_data d u.medium).1 in
    let w : Volume = record u { medium = m } in
    let count = alike_count v u alike in
    let first : u.fat_info.fat_table_first_sector ≡ v.fat_info.fat_table_first_sector =
      ap (λ f. f.fat_table_first_sector) alike.same_info in
    let size : u.fat_info.fat_table_size_in_sectors ≡ v.fat_info.fat_table_size_in_sectors =
      ap (λ f. f.fat_table_size_in_sectors) alike.same_info in
    let (alike_w, entries_w) =
      other_medium u.fat_info.first_free_cluster m u alike.volume (writer.same_fails d u.medium)
        (λ s h. writer.same_sectors d u.medium s (
          ap (elem s) sectors
          ∙ before_data v.fat_info cs s
              (omega (arith, h, first, size, formatted.tables_before_data)))) in
    (IsAlike-trans v u w alike alike_w, λ b h. entries_w b (omega (arith, h, count)) ∙ entries b h)

write_found-IsNewFile :
    (write_data : Descriptor → StorageMedium → Bool × StorageMedium) (c : ℕ) (cs : List ℕ)
    (d : Descriptor) (v u : Volume)
    → IsWriter write_data
    → IsFormatted v
    → IsAlike v u
    → ((b : ℕ) → b < v.fat_info.number_of_clusters → entry_of u b ≡ entry_of v b)
    → sectors_of d.runs ≡ sectors_of_clusters v.fat_info (c ∷ cs)
    → IsDistinct (c ∷ cs)
    → ((b : ℕ) → elem b (c ∷ cs) ≡ true → b < v.fat_info.number_of_clusters)
    → IsNewFile (c ∷ cs) v (
        write_found write_data
          (length (c ∷ cs))
          (record {
            clusters_of_file = c ∷ cs;
            descriptor_of_file_sectors = d;
            number_of_finded_free_clusters = length (c ∷ cs);
          })
          u)
unfolding write_found
write_found-IsNewFile write_data c cs d v u writer formatted alike entries sectors distinct inside =
    let (alike_w, entries_w) =
      written-IsAlike write_data d (c ∷ cs) v u writer formatted alike entries sectors in
    let enough : ltb (length (c ∷ cs)) (length (c ∷ cs)) ≡ false = ground arith in
    rw (enough, writer.succeeds d u.medium, take-length cs)
      (link_and_save c cs v (record u { medium = (write_data d u.medium).1 }) formatted alike_w
        entries_w distinct inside)

-- The free clusters that a new file may have.
abbrev pub free_for_file : Volume → ℕ → List ℕ
free_for_file v wanted =
    free_clusters (entry_of v) (v.fat_info.number_of_clusters - v.fat_info.first_free_cluster)
      v.fat_info.first_free_cluster fat_find_free_cluster wanted

pub create_with_clusters-IsNewFile :
    (write_data : Descriptor → StorageMedium → Bool × StorageMedium) (wanted c : ℕ) (cs : List ℕ)
    (v : Volume)
    → IsWriter write_data
    → IsFormatted v
    → IsClean v
    → free_for_file v wanted ≡ c ∷ cs
    → length (c ∷ cs) ≡ wanted
    → IsNewFile (c ∷ cs) v (create_with_clusters write_data wanted fat_find_free_cluster v)
unfolding create_with_clusters create_descriptor_of_file_sectors sectors_of
create_with_clusters-IsNewFile write_data wanted c cs v writer formatted clean free enough =
    let f = v.fat_info in
    let n = f.number_of_clusters - f.first_free_cluster in
    let ff = f.first_free_cluster in
    let size = f.cluster_size_in_sectors in
    let empty = create_descriptor_of_file_sectors 512 in
    let (short, shorter) = length-free_clusters (entry_of v) n ff fat_find_free_cluster wanted in
    let length_is : length (free_for_file v wanted) ≡ wanted = ap length free ∙ enough in
    let small : wanted < 2 ^ 32 = omega (arith, length_is, shorter, formatted.volume.in_words) in
    let finds =
      find_free_clusters-Finds (entry_of v) n ff fat_find_free_cluster wanted wanted nothing_found v
        formatted.volume clean (λ d h. refl) (omega (arith, formatted.first_high)) (omega arith)
        small in
    let r = find_free_clusters n ff fat_find_free_cluster wanted nothing_found v in
    let d = r.0.descriptor_of_file_sectors in
    let number : r.0.number_of_finded_free_clusters ≡ length (c ∷ cs) =
      omega (arith, finds.number, ap length free) in
    let with_clusters : List ℕ → Found = λ q. record {
      clusters_of_file = q;
      descriptor_of_file_sectors = d;
      number_of_finded_free_clusters = r.0.number_of_finded_free_clusters;
    } in
    let with_number : ℕ → Found = λ q. record {
      clusters_of_file = c ∷ cs;
      descriptor_of_file_sectors = d;
      number_of_finded_free_clusters = q;
    } in
    let found_is : r.0 ≡ with_number (length (c ∷ cs)) =
      ap with_clusters (finds.clusters ∙ free) ∙ ap with_number number in
    let found = with_number (length (c ∷ cs)) in
    let hint =
      if ltb r.1.fat_info.first_free_cluster c then c else r.1.fat_info.first_free_cluster in
    let u = set_first_free_cluster hint r.1 in
    let count = alike_count v r.1 finds.kept.alike in
    let (alike_u, entries_u) =
      other_medium hint r.1.medium r.1 finds.kept.alike.volume refl (λ s h. refl) in
    let as_found : write_found write_data wanted r.0
          (raise_first_free_cluster fat_find_free_cluster wanted r.0.clusters_of_file r.1)
        ≡ write_found write_data (length (c ∷ cs)) found u =
      ap
        (λ q.
          write_found write_data wanted q
            (raise_first_free_cluster fat_find_free_cluster wanted q.clusters_of_file r.1))
        found_is
      ∙ ap (λ q. write_found write_data wanted found q) (raised wanted (c ∷ cs) r.1)
      ∙ ap (λ q. write_found write_data q found u) (sym enough) in
    let inside : (b : ℕ) → elem b (c ∷ cs) ≡ true → (2 ≤ b) × (b < f.number_of_clusters) =
      λ b there.
        (let (low, high, _) =
            free_clusters-inside (entry_of v) n ff fat_find_free_cluster wanted b
              (ap (elem b) free ∙ there) in
          (omega (arith, low, formatted.first_low), omega (arith, high, formatted.first_high))) in
    let up : length (c ∷ cs) * size ≤ f.number_of_clusters * size =
      mul-le-mul_right size (omega (arith, length_is, shorter, enough)) in
    let fits : 0 + length (c ∷ cs) * size < 2 ^ 32 = omega (arith, up, formatted.area.on_medium) in
    let sectors : sectors_of d.runs ≡ sectors_of_clusters f (c ∷ cs) =
      ap (λ q. sectors_of q.runs) (finds.descriptor ∙ ap (descriptor_of f empty) free)
      ∙ descriptor_of-sectors f empty (c ∷ cs) formatted.area
          (create_descriptor_of_file_sectors-HasRuns 512) inside fits in
    subst (λ x. IsNewFile (c ∷ cs) v x) (sym as_found)
      (write_found-IsNewFile write_data c cs d v u writer formatted
        (IsAlike-trans v r.1 u finds.kept.alike alike_u)
        (λ b h. entries_u b (omega (arith, h, count)) ∙ finds.kept.entries b h) sectors
        (subst IsDistinct free
          (free_clusters-IsDistinct (entry_of v) n ff fat_find_free_cluster wanted))
        (λ b there. (inside b there).1))

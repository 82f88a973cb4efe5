-- ===== src/Fat/Refused.antt =====
-- When create_fat_file refuses a file, and how many clusters it gives a file.
use blesk_os_fork.Base.{
  ℕ, ◌+◌, ◌-◌, ◌*◌, ◌/◌, ◌%◌, ◌^◌, ◌<◌, ◌≤◌, ◌≡◌, ◌≢◌, ◌⊎◌, ◌↔◌, refl, ap, ◌∙◌, sym, Bool, true,
  false, ltb, ◌==◌, if◌then◌else◌, arith, ==_true, ==_false, inl, inr, length, get_or, add32,
  ℕ_discrete,
}
use blesk_os_fork.Fat.{StorageMedium, Volume}
use blesk_os_fork.Fat.Create.{
  number_of_clusters_in_file, fat_find_free_cluster, nothing_found, set_first_free_cluster,
  raise_first_free_cluster, Created, status_error, find_free_clusters, write_found,
  create_with_clusters, create_fat_file,
}
use blesk_os_fork.Fat.Created.{IsFormatted, other_medium, raised}
use blesk_os_fork.Fat.Search.{find_free_clusters-Finds}
use blesk_os_fork.Fat.Table.{IsClean}
use blesk_os_fork.Fat.Taken.{free_for_file}
use blesk_os_fork.Fat.View.{entry_of, IsAlike, alike_count, IsAlike-trans}
use blesk_os_fork.Sectors.{Descriptor}
use native.Mathlib.Nat.{div-add-mod', mod-lt, div-le_self}
use mathlib.Core.Path.{subst}

-- A file that was not made, on a volume with the same entries.
pub record IsRefused (v : Volume) (r : Created) : Type 0 where
  pub after : Volume
  pub is_refused : r ≡ status_error after
  pub alike : IsAlike v after
  pub entries : (d : ℕ) → d < v.fat_info.number_of_clusters → entry_of after d ≡ entry_of v d

module _ (write_data : Descriptor → StorageMedium → Bool × StorageMedium) (file_size_in_bytes : ℕ)
    (v : Volume) (formatted : IsFormatted v) (clean : IsClean v)
    (some_bytes : 0 < file_size_in_bytes) (some_cluster : 0 < v.fat_info.cluster_size_in_bytes)
    (small : number_of_clusters_in_file v.fat_info.cluster_size_in_bytes file_size_in_bytes
      < 2 ^ 32)
    (too_few : length (
        free_for_file v
          (number_of_clusters_in_file v.fat_info.cluster_size_in_bytes file_size_in_bytes))
      < number_of_clusters_in_file v.fat_info.cluster_size_in_bytes file_size_in_bytes) where
  -- On a formatted volume that does not fail, whose sector in memory is saved and whose clusters
  -- have bytes, with fewer free clusters behind the hint than a file of some bytes is given,
  -- create_fat_file tells an error and keeps every entry.
  pub create_fat_file-IsRefused :
      IsRefused v (create_fat_file write_data fat_find_free_cluster file_size_in_bytes v)
  unfolding create_fat_file create_with_clusters write_found
  create_fat_file-IsRefused =
      let f = v.fat_info in
      let wanted = number_of_clusters_in_file f.cluster_size_in_bytes file_size_in_bytes in
      let n = f.number_of_clusters - f.first_free_cluster in
      let has_bytes : (file_size_in_bytes == 0) ≡ false = ==_false (omega arith) in
      let size_given : (f.cluster_size_in_bytes == 0) ≡ false = ==_false (omega arith) in
      let some_wanted : (wanted == 0) ≡ false = ==_false (omega (arith, too_few)) in
      let finds =
        find_free_clusters-Finds (entry_of v) n f.first_free_cluster fat_find_free_cluster wanted
          wanted nothing_found v formatted.volume clean (λ d h. refl)
          (omega (arith, formatted.first_high)) (omega arith) small in
      let r =
        find_free_clusters n f.first_free_cluster fat_find_free_cluster wanted nothing_found v in
      let count = alike_count v r.1 finds.kept.alike in
      let few : ltb r.0.number_of_finded_free_clusters wanted ≡ true =
        ground (arith, finds.number, too_few) in
      let first = get_or r.0.clusters_of_file 0 0 in
      let hint =
        if ltb r.1.fat_info.first_free_cluster first
        then first
        else r.1.fat_info.first_free_cluster in
      let (alike, entries) =
        other_medium hint r.1.medium r.1 finds.kept.alike.volume refl (λ s h. refl) in
      let u = set_first_free_cluster hint r.1 in
      rw (has_bytes, size_given, some_wanted, few)
        (record {
          after = raise_first_free_cluster fat_find_free_cluster wanted r.0.clusters_of_file r.1;
          is_refused = refl;
          alike =
              subst (IsAlike v) (sym (raised wanted r.0.clusters_of_file r.1))
                (IsAlike-trans v r.1 u finds.kept.alike alike);
          entries = λ d h.
              ap (λ w. entry_of w d) (raised wanted r.0.clusters_of_file r.1)
              ∙ entries d (omega (arith, h, count))
              ∙ finds.kept.entries d h;
        })

-- The clusters that a file of fewer than 2 ^ 32 - 1 bytes is given hold it exactly when its size
-- is no multiple of 512, or is one of the size of a cluster, which is not 0.
pub number_of_clusters_in_file-holds :
    (cluster_size_in_bytes file_size_in_bytes : ℕ)
    → 0 < cluster_size_in_bytes
    → file_size_in_bytes < 2 ^ 32 - 1
    → (file_size_in_bytes
        ≤ number_of_clusters_in_file cluster_size_in_bytes file_size_in_bytes
          * cluster_size_in_bytes)
      ↔ ((file_size_in_bytes % 512 ≢ 0) ⊎ (file_size_in_bytes % cluster_size_in_bytes ≡ 0))
number_of_clusters_in_file-holds c size some small =
    let q = size / c in
    let split = div-add-mod' size c in
    let rest : size % c < c = mod-lt size some in
    let below : q ≤ size = div-le_self size c in
    elim (ℕ_discrete (size % 512) 0) [
      | yes whole ↦ rw (==_true whole) (
        (λ holds. inr (omega (arith, holds, split))),
        (λ either. elim either [
          | inl not_whole ↦ absurd (not_whole whole)
          | inr exact ↦ omega (arith, exact, split)
        ]),
      )
      | no not_whole ↦
          let more : add32 q 1 ≡ q + 1 = omega (arith, below, small) in
          let spread : (q + 1) * c ≡ q * c + c = grind arith in
          rw (==_false not_whole, more)
            ((λ _. inl not_whole), (λ _. omega (arith, spread, split, rest)))
    ]

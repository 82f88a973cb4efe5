-- ===== src/Fat/Search.antt =====
-- The search for free clusters in create_fat_file finds the free entries of the table in order.
use blesk_os_fork.Base.{
  ℕ, zero, suc, ◌+◌, ◌^◌, ◌<◌, ◌≤◌, ◌≡◌, refl, ◌∙◌, sym, true, false, ◌==◌, if◌then◌else◌, arith,
  ==_true, ==_false, inl, inr, Bool-cases, List, [], ◌∷◌, ◌++◌, length, append-nil, append_assoc,
}
use blesk_os_fork.Fat.{Volume, read_fat_table_entry}
use blesk_os_fork.Fat.Create.{Found, add_found, find_free_clusters}
use blesk_os_fork.Fat.Entry.{IsVolume}
use blesk_os_fork.Fat.File.{add_sectors_of_cluster}
use blesk_os_fork.Fat.Sequence.{descriptor_of, descriptor_alike}
use blesk_os_fork.Fat.Table.{IsClean}
use blesk_os_fork.Fat.View.{
  entry_of, IsKept, IsKept-refl, IsKept-trans, alike_count, read_fat_table_entry-IsGot,
}

-- At most `k` of the `n` clusters from `c` on that are free, without `first`.
unfoldable pub free_clusters : (ℕ → ℕ) → ℕ → ℕ → ℕ → ℕ → List ℕ
free_clusters g zero c first k = []
free_clusters g (suc n) c first zero = []
free_clusters g (suc n) c first (suc k) =
    if c == first
    then free_clusters g n (suc c) first (suc k)
    else if g c == 0
    then c ∷ free_clusters g n (suc c) first k
    else free_clusters g n (suc c) first (suc k)

-- What one more part of the search finds.
pub record Finds (cs : List ℕ) (found : Found) (v : Volume) (r : Found × Volume) : Type 0 where
  pub clusters : r.0.clusters_of_file ≡ found.clusters_of_file ++ cs
  pub number : r.0.number_of_finded_free_clusters ≡ found.number_of_finded_free_clusters + length cs
  pub descriptor :
      r.0.descriptor_of_file_sectors ≡ descriptor_of v.fat_info found.descriptor_of_file_sectors cs
  pub kept : IsKept v r.1

-- A search that goes on after a cluster was not taken.
Finds-pass :
    (cs : List ℕ) (found : Found) (v w : Volume) (r : Found × Volume)
    → IsKept v w
    → Finds cs found w r
    → Finds cs found v r
Finds-pass cs found v w r kept finds = record {
  clusters = finds.clusters;
  number = finds.number;
  descriptor =
      finds.descriptor ∙ descriptor_alike v w found.descriptor_of_file_sectors cs kept.alike;
  kept = IsKept-trans v w r.1 kept finds.kept;
}

-- One that goes on after a cluster was taken.
Finds-add_found :
    (c : ℕ) (cs : List ℕ) (found : Found) (v w : Volume) (r : Found × Volume)
    → found.number_of_finded_free_clusters + 1 < 2 ^ 32
    → IsKept v w
    → Finds cs (add_found v.fat_info c found) w r
    → Finds (c ∷ cs) found v r
unfolding descriptor_of
Finds-add_found c cs found v w r small kept finds = record {
  clusters = finds.clusters ∙ append_assoc found.clusters_of_file (c ∷ []) cs;
  number = finds.number ∙ omega (arith, small);
  descriptor =
      finds.descriptor
      ∙ descriptor_alike v w (add_sectors_of_cluster v.fat_info found.descriptor_of_file_sectors c)
          cs kept.alike;
  kept = IsKept-trans v w r.1 kept finds.kept;
}

pub find_free_clusters-Finds :
    (g : ℕ → ℕ) (n c first wanted k : ℕ) (found : Found) (v : Volume)
    → IsVolume v
    → IsClean v
    → ((d : ℕ) → d < v.fat_info.number_of_clusters → entry_of v d ≡ g d)
    → c + n ≤ v.fat_info.number_of_clusters
    → found.number_of_finded_free_clusters + k ≡ wanted
    → wanted < 2 ^ 32
    → Finds (free_clusters g n c first k) found v (find_free_clusters n c first wanted found v)
unfolding find_free_clusters free_clusters descriptor_of
find_free_clusters-Finds g zero c first wanted k found v volume clean entries below sum small =
    record {
      clusters = sym (append-nil found.clusters_of_file);
      number = omega arith;
      descriptor = refl;
      kept = IsKept-refl v volume clean;
    }
find_free_clusters-Finds g (suc n) c first wanted zero found v volume clean entries below sum
      small =
    let enough : (found.number_of_finded_free_clusters == wanted) ≡ true =
      ==_true (omega (arith, sum)) in
    rw enough (record {
      clusters = sym (append-nil found.clusters_of_file);
      number = omega arith;
      descriptor = refl;
      kept = IsKept-refl v volume clean;
    })
find_free_clusters-Finds g (suc n) c first wanted (suc k) found v volume clean entries below sum
      small =
    let more : (found.number_of_finded_free_clusters == wanted) ≡ false =
      ==_false (omega (arith, sum)) in
    let c_below : c < v.fat_info.number_of_clusters = omega (arith, below) in
    let got = read_fat_table_entry-IsGot c v volume clean c_below in
    let w = (read_fat_table_entry c v).1 in
    let kept = got.kept in
    let count = alike_count v w kept.alike in
    let value : (read_fat_table_entry c v).0 ≡ g c = got.value ∙ entries c c_below in
    let w_entries : (d : ℕ) → d < w.fat_info.number_of_clusters → entry_of w d ≡ g d =
      λ d h. kept.entries d (omega (arith, h, count)) ∙ entries d (omega (arith, h, count)) in
    elim (Bool-cases (c == first)) [
      | inl same ↦
          rw (more, same)
            (find_free_clusters-Finds g n (suc c) first wanted (suc k) found v volume clean entries
              (omega (arith, below)) sum small)
      | inr other ↦ elim (Bool-cases (g c == 0)) [
        | inl free ↦
            rw (more, other, value, free)
              (Finds-add_found c (free_clusters g n (suc c) first k) found v w
                (find_free_clusters n (suc c) first wanted (add_found v.fat_info c found) w)
                (omega (arith, sum, small)) kept
                (find_free_clusters-Finds g n (suc c) first wanted k (add_found v.fat_info c found)
                  w kept.alike.volume kept.clean w_entries (omega (arith, below, count))
                  (omega (arith, sum, small)) small))
        | inr used ↦
            rw (more, other, value, used)
              (Finds-pass (free_clusters g n (suc c) first (suc k)) found v w
                (find_free_clusters n (suc c) first wanted found w) kept
                (find_free_clusters-Finds g n (suc c) first wanted (suc k) found w kept.alike.volume
                  kept.clean w_entries (omega (arith, below, count)) sum small))
      ]
    ]

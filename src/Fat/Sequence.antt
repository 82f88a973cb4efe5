-- ===== src/Fat/Sequence.antt =====
-- The sectors of a list of clusters, as the descriptor of a file has them.
use blesk_os_fork.Base.{
  ℕ, zero, suc, ◌+◌, ◌-◌, ◌*◌, ◌^◌, ◌<◌, ◌≤◌, ◌≡◌, refl, ap, ◌∙◌, sym, true, false, ◌==◌, ==_false,
  arith, List, [], ◌∷◌, ◌++◌, length, length-append, append_assoc, append-nil, u32,
}
use blesk_os_fork.Fat.{FatInfo, Volume}
use blesk_os_fork.Fat.Chain.{elem, elem_later, elem_here, elem_tail}
use blesk_os_fork.Fat.File.{add_sectors_of_cluster}
use blesk_os_fork.Fat.View.{IsAlike}
use blesk_os_fork.Sectors.{
  Run, Descriptor, add_sectors_to_descriptor_of_file_sectors, size_of_stream,
  byte_stream_100_kb_block,
}
use blesk_os_fork.Sectors.Runs.{
  IsDescriptor, Adds, HasRuns, AddsRuns, add_sectors_to_descriptor_of_file_sectors-Adds,
  add_sectors_to_descriptor_of_file_sectors-AddsRuns,
}
use blesk_os_fork.Sectors.Sequence.{sectors_from, sectors_of, length-sectors_from, AllRuns}
use native.Mathlib.Nat.{mul-le-mul_right}

-- The sectors of one cluster, of which the first in the data area has the number 2.
abbrev pub sectors_of_cluster : FatInfo → ℕ → List ℕ
sectors_of_cluster f c =
    sectors_from (f.data_first_sector + (c - 2) * f.cluster_size_in_sectors)
      f.cluster_size_in_sectors

unfoldable pub sectors_of_clusters : FatInfo → List ℕ → List ℕ
sectors_of_clusters f [] = []
sectors_of_clusters f (c ∷ cs) = sectors_of_cluster f c ++ sectors_of_clusters f cs

-- The descriptor after the sectors of each cluster are added.
unfoldable pub descriptor_of : FatInfo → Descriptor → List ℕ → Descriptor
descriptor_of f d [] = d
descriptor_of f d (c ∷ cs) = descriptor_of f (add_sectors_of_cluster f d c) cs

-- It is the same on a volume with the same sizes.
pub descriptor_alike :
    (v w : Volume) (d : Descriptor) (cs : List ℕ)
    → IsAlike v w
    → descriptor_of w.fat_info d cs ≡ descriptor_of v.fat_info d cs
unfolding descriptor_of
descriptor_alike v w d [] alike = refl
descriptor_alike v w d (c ∷ cs) alike =
    let same : add_sectors_of_cluster w.fat_info d c ≡ add_sectors_of_cluster v.fat_info d c =
      ap (λ f. add_sectors_of_cluster f d c) alike.same_info in
    ap (λ e. descriptor_of w.fat_info e cs) same
    ∙ descriptor_alike v w (add_sectors_of_cluster v.fat_info d c) cs alike

-- The sectors of each cluster have numbers below 2 ^ 32.
pub record IsDataArea (f : FatInfo) : Type 0 where
  pub some_sectors : 0 < f.cluster_size_in_sectors
  pub on_medium : f.data_first_sector + f.number_of_clusters * f.cluster_size_in_sectors < 2 ^ 32

cluster_place :
    (f : FatInfo) (c : ℕ)
    → IsDataArea f
    → 2 ≤ c
    → c < f.number_of_clusters
    → (u32 (f.data_first_sector + (c + (2 ^ 32 - 2)) * f.cluster_size_in_sectors)
        ≡ f.data_first_sector + (c - 2) * f.cluster_size_in_sectors)
      × (f.data_first_sector + (c - 2) * f.cluster_size_in_sectors + f.cluster_size_in_sectors
          < 2 ^ 32)
cluster_place f c area low high =
    let size = f.cluster_size_in_sectors in
    let j = c - 2 in
    let split : (c + (2 ^ 32 - 2)) * size ≡ (j + 2 ^ 32) * size =
      ap (λ x. x * size) (omega (arith, low)) in
    let spread : (j + 2 ^ 32) * size ≡ j * size + 2 ^ 32 * size = grind arith in
    let up : (j + 1) * size ≤ f.number_of_clusters * size =
      mul-le-mul_right size (omega (arith, low, high)) in
    let next : (j + 1) * size ≡ j * size + size = grind arith in
    (
      omega (arith, split, spread, up, next, area.on_medium),
      omega (arith, up, next, area.on_medium),
    )

runs_below : (rs : List Run) → AllRuns rs → length rs ≤ length (sectors_of rs)
unfolding AllRuns sectors_of
runs_below [] all = omega arith
runs_below (r ∷ rs) (some, fits, all) = omega (
  arith,
  some,
  runs_below rs all,
  length-append (sectors_from r.first_sector_of_run r.number_of_sectors_in_run) (sectors_of rs),
  length-sectors_from r.first_sector_of_run r.number_of_sectors_in_run,
)

-- One cluster more.
module _ (f : FatInfo) (d : Descriptor) (c : ℕ) (area : IsDataArea f) (low : 2 ≤ c)
    (high : c < f.number_of_clusters) where
  add_sectors_of_cluster-AddsRuns :
      HasRuns d
      → length (sectors_of d.runs) + f.cluster_size_in_sectors < 2 ^ 32
      → AddsRuns d
          (f.data_first_sector + (c - 2) * f.cluster_size_in_sectors)
          f.cluster_size_in_sectors
          (add_sectors_of_cluster f d c)
  add_sectors_of_cluster-AddsRuns has fits =
      let (place, below) = cluster_place f c area low high in
      let runs = runs_below d.runs has.all_runs in
      rw place (
        add_sectors_to_descriptor_of_file_sectors-AddsRuns d
          (f.data_first_sector + (c - 2) * f.cluster_size_in_sectors) f.cluster_size_in_sectors has
          area.some_sectors below (omega (arith, runs, fits, area.some_sectors)))

  add_sectors_of_cluster-Adds :
      IsDescriptor d
      → d.number_of_sectors + f.cluster_size_in_sectors < 2 ^ 32
      → size_of_stream (d.number_of_runs + 1) ≤ byte_stream_100_kb_block
      → Adds d
          (f.data_first_sector + (c - 2) * f.cluster_size_in_sectors)
          f.cluster_size_in_sectors
          (add_sectors_of_cluster f d c)
  add_sectors_of_cluster-Adds is fits room =
      let (place, below) = cluster_place f c area low high in
      rw place (
        add_sectors_to_descriptor_of_file_sectors-Adds d
          (f.data_first_sector + (c - 2) * f.cluster_size_in_sectors) f.cluster_size_in_sectors is
          area.some_sectors below fits room)

-- The sectors of the clusters, in their order. The runs are right also where the counters are not.
pub descriptor_of-sectors :
    (f : FatInfo) (d : Descriptor) (cs : List ℕ)
    → IsDataArea f
    → HasRuns d
    → ((c : ℕ) → elem c cs ≡ true → (2 ≤ c) × (c < f.number_of_clusters))
    → length (sectors_of d.runs) + length cs * f.cluster_size_in_sectors < 2 ^ 32
    → sectors_of (descriptor_of f d cs).runs ≡ sectors_of d.runs ++ sectors_of_clusters f cs
unfolding descriptor_of sectors_of_clusters
descriptor_of-sectors f d [] area has inside fits = sym (append-nil (sectors_of d.runs))
descriptor_of-sectors f d (c ∷ cs) area has inside fits =
    let size = f.cluster_size_in_sectors in
    let e = add_sectors_of_cluster f d c in
    let first = f.data_first_sector + (c - 2) * size in
    let (low, high) = inside c (elem_here c cs) in
    let spread : suc (length cs) * size ≡ length cs * size + size = grind arith in
    let added =
      add_sectors_of_cluster-AddsRuns f d c area low high has (omega (arith, spread, fits)) in
    let grown : length (sectors_of e.runs) ≡ length (sectors_of d.runs) + size =
      ap length added.sectors_appended
      ∙ length-append (sectors_of d.runs) (sectors_from first size)
      ∙ ap (λ n. length (sectors_of d.runs) + n) (length-sectors_from first size) in
    descriptor_of-sectors f e cs area added.has_runs (λ b there. inside b (elem_later b c cs there))
      (omega (arith, grown, spread, fits))
    ∙ ap (λ ss. ss ++ sectors_of_clusters f cs) added.sectors_appended
    ∙ append_assoc (sectors_of d.runs) (sectors_from first size) (sectors_of_clusters f cs)

-- One cluster adds at most one run.
one_run_more :
    (d e : Descriptor) (first n : ℕ)
    → IsDescriptor d
    → e ≡ add_sectors_to_descriptor_of_file_sectors d first n
    → d.number_of_runs + 1 < 2 ^ 32
    → e.number_of_runs ≤ d.number_of_runs + 1
unfolding add_sectors_to_descriptor_of_file_sectors
one_run_more d e first n is same small =
    let count : e.number_of_runs
        ≡ (add_sectors_to_descriptor_of_file_sectors d first n).number_of_runs =
      ap (λ q. q.number_of_runs) same in
    ground (arith, count)

-- The counters are right too, if there are no more clusters than runs fit in the first block; and the
-- size of a sector stays.
pub descriptor_of-IsDescriptor :
    (f : FatInfo) (d : Descriptor) (cs : List ℕ)
    → IsDataArea f
    → IsDescriptor d
    → ((c : ℕ) → elem c cs ≡ true → (2 ≤ c) × (c < f.number_of_clusters))
    → d.number_of_sectors + length cs * f.cluster_size_in_sectors < 2 ^ 32
    → size_of_stream (d.number_of_runs + length cs) ≤ byte_stream_100_kb_block
    → IsDescriptor (descriptor_of f d cs)
      × ((descriptor_of f d cs).size_of_one_sector ≡ d.size_of_one_sector)
unfolding descriptor_of
descriptor_of-IsDescriptor f d [] area is inside fits room = (is, refl)
descriptor_of-IsDescriptor f d (c ∷ cs) area is inside fits room =
    let size = f.cluster_size_in_sectors in
    let e = add_sectors_of_cluster f d c in
    let first = f.data_first_sector + (c - 2) * size in
    let (low, high) = inside c (elem_here c cs) in
    let spread : suc (length cs) * size ≡ length cs * size + size = grind arith in
    let added =
      add_sectors_of_cluster-Adds f d c area low high is (omega (arith, spread, fits))
        (omega (arith, room)) in
    let grown : length (sectors_of e.runs) ≡ length (sectors_of d.runs) + size =
      ap length added.sectors_appended
      ∙ length-append (sectors_of d.runs) (sectors_from first size)
      ∙ ap (λ n. length (sectors_of d.runs) + n) (length-sectors_from first size) in
    let counted : e.number_of_sectors ≡ d.number_of_sectors + size =
      omega (arith, added.is_descriptor.sectors_counted, is.sectors_counted, grown) in
    let runs =
      one_run_more d e (u32 (f.data_first_sector + (c + (2 ^ 32 - 2)) * size)) size is refl
        (omega (arith, room)) in
    let (is_rest, same) =
      descriptor_of-IsDescriptor f e cs area added.is_descriptor
        (λ b there. inside b (elem_later b c cs there)) (omega (arith, counted, spread, fits))
        (omega (arith, runs, room)) in
    (is_rest, same ∙ added.same_size)

elem_append :
    (s : ℕ) (xs ys : List ℕ) → elem s xs ≡ false → elem s ys ≡ false → elem s (xs ++ ys) ≡ false
unfolding elem
elem_append s [] ys not_first not_second = not_second
elem_append s (x ∷ xs) ys not_first not_second =
    let (new, rest) = elem_tail s x xs not_first in
    rw (new, elem_append s xs ys rest not_second) refl

before_sectors : (s first n : ℕ) → s < first → elem s (sectors_from first n) ≡ false
unfolding elem sectors_from
before_sectors s first zero below = refl
before_sectors s first (suc n) below =
    let new : (s == first) ≡ false = ==_false (omega arith) in
    rw (new, before_sectors s (first + 1) n (omega arith)) refl

-- No sector in front of the data area belongs to a cluster.
pub before_data :
    (f : FatInfo) (cs : List ℕ) (s : ℕ)
    → s < f.data_first_sector
    → elem s (sectors_of_clusters f cs) ≡ false
unfolding elem sectors_of_clusters
before_data f [] s below = refl
before_data f (c ∷ cs) s below =
    elem_append s (sectors_of_cluster f c) (sectors_of_clusters f cs)
      (before_sectors s (f.data_first_sector + (c - 2) * f.cluster_size_in_sectors)
        f.cluster_size_in_sectors (omega arith))
      (before_data f cs s below)

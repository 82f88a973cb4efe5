-- ===== src/Fat/ReadFile.antt =====
-- read_fat_file finds the sectors of the clusters of a file.
use blesk_os_fork.Base.{
  ℕ, zero, suc, ◌+◌, ◌*◌, ◌^◌, ◌<◌, ◌≤◌, ◌≡◌, refl, ap, ◌∙◌, true, false, ltb, leb, ◌||◌, ◌==◌,
  arith, List, [], ◌∷◌, length, u32, add32, ==_true, Option, some,
}
use blesk_os_fork.Fat.{Volume, read_fat_table_entry}
use blesk_os_fork.Fat.Chain.{elem, elem_later, elem_here}
use blesk_os_fork.Fat.Entry.{IsVolume}
use blesk_os_fork.Fat.File.{add_sectors_of_cluster, sectors_of_file, read_found, read_fat_file}
use blesk_os_fork.Fat.Link.{IsDistinct, IsDistinct-head, linked, linked_other, put}
use blesk_os_fork.Fat.Sequence.{
  IsDataArea, descriptor_of, descriptor_alike, descriptor_of-sectors, descriptor_of-IsDescriptor,
  sectors_of_clusters,
}
use blesk_os_fork.Fat.Table.{IsClean}
use blesk_os_fork.Fat.View.{
  entry_of, IsKept, IsKept-trans, alike_count, alike_ending, read_fat_table_entry-IsGot,
}
use blesk_os_fork.Sectors.{
  Descriptor, Outcome, create_descriptor_of_file_sectors, size_of_stream, byte_stream_100_kb_block,
}
use blesk_os_fork.Sectors.Runs.{
  IsDescriptor, create_descriptor_of_file_sectors-IsDescriptor,
  create_descriptor_of_file_sectors-HasRuns,
}
use blesk_os_fork.Sectors.Sequence.{sectors_of}
use native.Mathlib.Nat.{mul-le-mul_right}

-- The entry of each cluster is the next one, and that of the last one ends the file.
pub data IsFile (ending : ℕ) (g : ℕ → ℕ) : List ℕ → Type 0 where
  last_cluster : {c : ℕ} → ending ≤ g c → IsFile ending g (c ∷ [])
  next_cluster :
      {c d : ℕ} {cs : List ℕ}
      → g c ≡ d
      → d < ending
      → IsFile ending g (d ∷ cs)
      → IsFile ending g (c ∷ d ∷ cs)

pub linked-IsFile :
    (ending : ℕ) (c : ℕ) (cs : List ℕ) (g : ℕ → ℕ)
    → IsDistinct (c ∷ cs)
    → ((d : ℕ) → elem d (c ∷ cs) ≡ true → d < ending)
    → IsFile ending (linked ending (c ∷ cs) g) (c ∷ cs)
unfolding linked
linked-IsFile ending c [] g distinct below =
    let here : (c == c) ≡ true = ==_true refl in last_cluster (rw here (omega arith))
linked-IsFile ending c (e ∷ cs) g distinct below =
    let (new, rest) = IsDistinct-head c (e ∷ cs) distinct in
    let here : (c == c) ≡ true = ==_true refl in
    next_cluster (linked_other ending (e ∷ cs) (put c e g) c new ∙ rw here refl)
      (below e (elem_later e c (e ∷ cs) (elem_here e cs)))
      (linked-IsFile ending e cs (put c e g) rest
        (λ d there. below d (elem_later d c (e ∷ cs) there)))

-- What the loop of read_fat_file does.
pub record ReadsFile (cs : List ℕ) (d : Descriptor) (size : ℕ) (v : Volume)
    (r : Option Descriptor × ℕ × Volume) : Type 0 where
  pub file : r.0 ≡ some (descriptor_of v.fat_info d cs)
  pub size_of_file : r.1 ≡ u32 (size + length cs * v.fat_info.cluster_size_in_bytes)
  pub kept : IsKept v r.2

pub sectors_of_file-ReadsFile :
    (ending : ℕ) (g : ℕ → ℕ) (n c : ℕ) (cs : List ℕ) (d : Descriptor) (size : ℕ) (v : Volume)
    → IsVolume v
    → IsClean v
    → v.fat_info.file_ending_entry_value ≡ ending
    → IsFile ending g (c ∷ cs)
    → length cs < n
    → ((b : ℕ)
        → elem b (c ∷ cs) ≡ true
        → (2 ≤ b) × (b < v.fat_info.number_of_clusters) × (entry_of v b ≡ g b))
    → ReadsFile (c ∷ cs) d size v (sectors_of_file n c d size v)
unfolding sectors_of_file descriptor_of
sectors_of_file-ReadsFile ending g zero c cs d size v volume clean last file enough inside =
    absurd (omega arith)
sectors_of_file-ReadsFile ending g (suc n) c [] d size v volume clean last (last_cluster high)
      enough inside =
    let (low, below, entry) = inside c (elem_here c []) in
    let got = read_fat_table_entry-IsGot c v volume clean below in
    let valid : (ltb c 2 || leb v.fat_info.number_of_clusters c) ≡ false = ground arith in
    let ends : leb v.fat_info.file_ending_entry_value (read_fat_table_entry c v).0 ≡ true =
      ground (arith, got.value) in
    let read : add32 size v.fat_info.cluster_size_in_bytes
        ≡ u32 (size + 1 * v.fat_info.cluster_size_in_bytes) =
      omega arith in
    rw (valid, ends) (record { file = refl; size_of_file = read; kept = got.kept })
sectors_of_file-ReadsFile ending g (suc n) c (e ∷ cs) d size v volume clean last
      (next_cluster next next_below file) enough inside =
    let (low, below, entry) = inside c (elem_here c (e ∷ cs)) in
    let got = read_fat_table_entry-IsGot c v volume clean below in
    let kept = got.kept in
    let w = (read_fat_table_entry c v).1 in
    let bytes = v.fat_info.cluster_size_in_bytes in
    let value : (read_fat_table_entry c v).0 ≡ e = got.value ∙ entry ∙ next in
    let valid : (ltb c 2 || leb v.fat_info.number_of_clusters c) ≡ false = ground arith in
    let more : leb v.fat_info.file_ending_entry_value e ≡ false =
      ground (arith, last, next_below) in
    let count = alike_count v w kept.alike in
    let first = add_sectors_of_cluster v.fat_info d c in
    let rest =
      sectors_of_file-ReadsFile ending g n e cs first (add32 size bytes) w kept.alike.volume
        kept.clean (alike_ending v w kept.alike ∙ last) file (omega (arith, enough))
        (λ b there.
          let (b_low, b_below, b_entry) = inside b (elem_later b c (e ∷ cs) there) in
          (b_low, omega (arith, b_below, count), kept.entries b b_below ∙ b_entry)) in
    let same_bytes : w.fat_info.cluster_size_in_bytes ≡ bytes =
      ap (λ f. f.cluster_size_in_bytes) kept.alike.same_info in
    let spread : suc (suc (length cs)) * bytes ≡ suc (length cs) * bytes + bytes = grind arith in
    let size_is : u32 (add32 size bytes + suc (length cs) * w.fat_info.cluster_size_in_bytes)
        ≡ u32 (size + suc (suc (length cs)) * bytes) =
      ap (λ q. u32 (add32 size bytes + suc (length cs) * q)) same_bytes ∙ omega (arith, spread) in
    rw (value, valid, more)
      (record {
        file = rest.file ∙ ap some (descriptor_alike v w first (e ∷ cs) kept.alike);
        size_of_file = rest.size_of_file ∙ size_is;
        kept = IsKept-trans v w (sectors_of_file n e first (add32 size bytes) w).2 kept rest.kept;
      })

-- A file whose entries are the same on another volume.
pub same-IsFile :
    (ending : ℕ) (g h : ℕ → ℕ) (c : ℕ) (cs : List ℕ)
    → ((d : ℕ) → elem d (c ∷ cs) ≡ true → h d ≡ g d)
    → IsFile ending g (c ∷ cs)
    → IsFile ending h (c ∷ cs)
same-IsFile ending g h c [] same (last_cluster high) =
    last_cluster (let here : h c ≡ g c = same c (elem_here c []) in omega (arith, high, here))
same-IsFile ending g h c (e ∷ cs) same (next_cluster next below file) =
    next_cluster (same c (elem_here c (e ∷ cs)) ∙ next) below
      (same-IsFile ending g h e cs (λ d there. same d (elem_later d c (e ∷ cs) there)) file)

-- What read_fat_file promises of a file of the clusters: a descriptor whose counters agree with its
-- runs, and whose runs are the sectors of the clusters in their order, is read as a whole.
pub record IsReadFile (read_whole : Descriptor → Volume → ℕ × Outcome Volume) (cs : List ℕ)
    (v : Volume) (r : ℕ × ℕ × Outcome Volume) : Type 0 where
  pub descriptor : Descriptor
  pub after : Volume
  pub size_of_file : r.0 ≡ u32 (length cs * v.fat_info.cluster_size_in_bytes)
  pub file_memory : r.1 ≡ (read_whole descriptor after).0
  pub outcome : r.2 ≡ (read_whole descriptor after).1
  pub is_descriptor : IsDescriptor descriptor
  pub sector_size : descriptor.size_of_one_sector ≡ 512
  pub sectors : sectors_of descriptor.runs ≡ sectors_of_clusters v.fat_info cs
  pub kept : IsKept v after

-- read_fat_file of a chain of clusters in the data area, no more than there are clusters and than runs
-- fit in 100 KB with the header, on a volume that does not fail and whose sector in memory is saved,
-- reads the sectors of the clusters in their order as a whole, and tells the size of the clusters.
pub read_fat_file-IsReadFile :
    (read_whole : Descriptor → Volume → ℕ × Outcome Volume) (c : ℕ) (cs : List ℕ) (v : Volume)
    → IsVolume v
    → IsClean v
    → IsDataArea v.fat_info
    → IsFile v.fat_info.file_ending_entry_value (entry_of v) (c ∷ cs)
    → length cs < v.fat_info.number_of_clusters
    → size_of_stream (length (c ∷ cs)) ≤ byte_stream_100_kb_block
    → ((b : ℕ) → elem b (c ∷ cs) ≡ true → (2 ≤ b) × (b < v.fat_info.number_of_clusters))
    → IsReadFile read_whole (c ∷ cs) v (read_fat_file read_whole c v)
unfolding read_fat_file read_found create_descriptor_of_file_sectors sectors_of
read_fat_file-IsReadFile read_whole c cs v volume clean area file enough room inside =
    let empty = create_descriptor_of_file_sectors 512 in
    let size = v.fat_info.cluster_size_in_sectors in
    let loop = sectors_of_file v.fat_info.number_of_clusters c empty 0 v in
    let reads =
      sectors_of_file-ReadsFile v.fat_info.file_ending_entry_value (entry_of v)
        v.fat_info.number_of_clusters c cs empty 0 v volume clean refl file enough
        (λ b there. let (low, high) = inside b there in (low, high, refl)) in
    let up : length (c ∷ cs) * size ≤ v.fat_info.number_of_clusters * size =
      mul-le-mul_right size (omega (arith, enough)) in
    let bytes : u32 (0 + length (c ∷ cs) * v.fat_info.cluster_size_in_bytes)
        ≡ u32 (length (c ∷ cs) * v.fat_info.cluster_size_in_bytes) =
      omega arith in
    let fits : 0 + length (c ∷ cs) * size < 2 ^ 32 = omega (arith, up, area.on_medium) in
    let (is, same) =
      descriptor_of-IsDescriptor v.fat_info empty (c ∷ cs) area
        (create_descriptor_of_file_sectors-IsDescriptor 512) inside fits (omega (arith, room)) in
    rw (read_found, reads.file)
      (record {
        descriptor = descriptor_of v.fat_info empty (c ∷ cs);
        after = loop.2;
        size_of_file = reads.size_of_file ∙ bytes;
        file_memory = refl;
        outcome = refl;
        is_descriptor = is;
        sector_size = same;
        sectors =
            descriptor_of-sectors v.fat_info empty (c ∷ cs) area
              (create_descriptor_of_file_sectors-HasRuns 512) inside fits;
        kept = reads.kept;
      })

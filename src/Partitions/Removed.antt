-- ===== src/Partitions/Removed.antt =====
-- Nothing of a medium is left after its partitions are removed.
use blesk_os_fork.Base.{
  refl, ◌≤◌, length, inr, ◌&&◌, inl, ◌==◌, ◌≢◌, ◌+◌, arith, Bool-cases, ℕ, ◌<◌, ◌≡◌, false, List,
  [], ◌∷◌,
}
use blesk_os_fork.Partitions.{
  remove_partition, remove_partitions_of_medium_from_list, remove_from_entries, Partitions,
  free_loaded_folders, clear_folder_structures, LoadedFolder, FolderStructure, Files, Partition,
  is_on_medium,
}

-- No entry is a partition of the medium.
unfoldable pub NoneOnMedium : ℕ → ℕ → List Partition → Type 0
NoneOnMedium medium_type medium_number [] = 0 < 1
NoneOnMedium medium_type medium_number (p ∷ ps) =
    (is_on_medium medium_type medium_number p ≡ false) × NoneOnMedium medium_type medium_number ps

-- No loaded folder is of the partition `j`, and no folder structure.
unfoldable pub NoneLoaded : ℕ → List LoadedFolder → Type 0
NoneLoaded j [] = 0 < 1
NoneLoaded j (f ∷ fs) = (f.state ≡ 1 → f.partition_number ≢ j) × NoneLoaded j fs

unfoldable pub NoStructure : ℕ → List FolderStructure → Type 0
NoStructure j [] = 0 < 1
NoStructure j (f ∷ fs) = (f.structure_partition ≢ j) × NoStructure j fs

-- Nothing refers to the partition `j`.
pub record IsUnused {ℓ} {World : Type ℓ} (j : ℕ) (f : Files World) : Type 0 where
  pub not_selected : f.selected_partition ≢ j
  pub none_loaded : NoneLoaded j f.array_of_loaded_folders
  pub no_structure : NoStructure j f.folder_structures

-- Nothing refers to a free entry; `i` is the number of the first one.
unfoldable pub FreeUnused {ℓ} : {World : Type ℓ} → ℕ → List Partition → Files World → Type 0
FreeUnused i [] f = 0 < 1
FreeUnused i (p ∷ ps) f = (p.medium_type ≡ 0 → IsUnused i f) × FreeUnused (i + 1) ps f

-- The entries of other media stand where they stood.
unfoldable pub OthersKept : ℕ → ℕ → List Partition → List Partition → Type 0
OthersKept medium_type medium_number [] qs = qs ≡ []
OthersKept medium_type medium_number (p ∷ ps) [] = 0 < 0
OthersKept medium_type medium_number (p ∷ ps) (q ∷ qs) =
    (is_on_medium medium_type medium_number p ≡ false → q ≡ p)
    × OthersKept medium_type medium_number ps qs

module _ {ℓ} {World : Type ℓ} (free : ℕ → World → World) where
  free_loaded_folders_keeps :
      (i j : ℕ) (fs : List LoadedFolder) (w : World)
      → NoneLoaded j fs
      → NoneLoaded j (free_loaded_folders free i fs w).0
  unfolding free_loaded_folders NoneLoaded
  free_loaded_folders_keeps i j [] w none = none
  free_loaded_folders_keeps i j (f ∷ fs) w none =
      elim (Bool-cases (f.state == 1 && f.partition_number == i)) [
        | inl e ↦ rw e (
          (λ h. absurd (omega arith)),
          free_loaded_folders_keeps i j fs (free f.memory_of_entries w) none.1,
        )
        | inr e ↦ rw e (none.0, free_loaded_folders_keeps i j fs w none.1)
      ]

  free_loaded_folders_frees :
      (i : ℕ) (fs : List LoadedFolder) (w : World)
      → NoneLoaded i (free_loaded_folders free i fs w).0
  unfolding free_loaded_folders NoneLoaded
  free_loaded_folders_frees i [] w = omega arith
  free_loaded_folders_frees i (f ∷ fs) w =
      elim (Bool-cases (f.state == 1 && f.partition_number == i)) [
        | inl e ↦ rw e (
          (λ h. absurd (omega arith)),
          free_loaded_folders_frees i fs (free f.memory_of_entries w),
        )
        | inr e ↦
            let other : f.state ≡ 1 → f.partition_number ≢ i = ground arith in
            rw e (other, free_loaded_folders_frees i fs w)
      ]

  clear_folder_structures_keeps :
      (i j : ℕ) (fs : List FolderStructure)
      → j < 255
      → NoStructure j fs
      → NoStructure j (clear_folder_structures i fs)
  unfolding clear_folder_structures NoStructure
  clear_folder_structures_keeps i j [] small none = none
  clear_folder_structures_keeps i j (f ∷ fs) small none =
      elim (Bool-cases (f.structure_partition == i)) [
        | inl e ↦ rw e (omega arith, clear_folder_structures_keeps i j fs small none.1)
        | inr e ↦ rw e (none.0, clear_folder_structures_keeps i j fs small none.1)
      ]

  clear_folder_structures_clears :
      (i : ℕ) (fs : List FolderStructure) → i < 255 → NoStructure i (clear_folder_structures i fs)
  unfolding clear_folder_structures NoStructure
  clear_folder_structures_clears i [] small = omega arith
  clear_folder_structures_clears i (f ∷ fs) small = elim (Bool-cases (f.structure_partition == i)) [
    | inl e ↦ rw e (omega arith, clear_folder_structures_clears i fs small)
    | inr e ↦
        let other : f.structure_partition ≢ i = ground arith in
        rw e (other, clear_folder_structures_clears i fs small)
  ]

  remove_partition_keeps :
      (i j : ℕ) (p : Partition) (f : Files World)
      → j < 255
      → IsUnused j f
      → IsUnused j (remove_partition free i p f)
  unfolding remove_partition
  remove_partition_keeps i j p f small unused = record {
    not_selected = ground (arith, unused.not_selected);
    none_loaded = free_loaded_folders_keeps i j f.array_of_loaded_folders _ unused.none_loaded;
    no_structure = clear_folder_structures_keeps i j f.folder_structures small unused.no_structure;
  }

  remove_partition-IsUnused :
      (i : ℕ) (p : Partition) (f : Files World) → i < 255 → IsUnused i (remove_partition free i p f)
  unfolding remove_partition
  remove_partition-IsUnused i p f small = record {
    not_selected = ground arith;
    none_loaded = free_loaded_folders_frees i f.array_of_loaded_folders _;
    no_structure = clear_folder_structures_clears i f.folder_structures small;
  }

  remove_partition-FreeUnused :
      (i j : ℕ) (p : Partition) (ps : List Partition) (f : Files World)
      → j + length ps ≤ 255
      → FreeUnused j ps f
      → FreeUnused j ps (remove_partition free i p f)
  unfolding FreeUnused
  remove_partition-FreeUnused i j p [] f small unused = unused
  remove_partition-FreeUnused i j p (q ∷ ps) f small unused = (
    (λ e. remove_partition_keeps i j p f (omega arith) (unused.0 e)),
    remove_partition-FreeUnused i (j + 1) p ps f (omega arith) unused.1,
  )

  remove_from_entries_keeps :
      (t n i j : ℕ) (ps : List Partition) (f : Files World)
      → j < 255
      → IsUnused j f
      → IsUnused j (remove_from_entries free t n i ps f).1
  unfolding remove_from_entries
  remove_from_entries_keeps t n i j [] f small unused = unused
  remove_from_entries_keeps t n i j (p ∷ ps) f small unused =
      elim (Bool-cases (is_on_medium t n p)) [
        | inl e ↦ rw e (
            remove_from_entries_keeps t n (i + 1) j ps (remove_partition free i p f) small
              (remove_partition_keeps i j p f small unused))
        | inr e ↦ rw e (remove_from_entries_keeps t n (i + 1) j ps f small unused)
      ]

  remove_from_entries-FreeUnused :
      (t n i : ℕ) (ps : List Partition) (f : Files World)
      → i + length ps ≤ 255
      → FreeUnused i ps f
      → FreeUnused i (remove_from_entries free t n i ps f).0 (remove_from_entries free t n i ps f).1
  unfolding remove_from_entries FreeUnused
  remove_from_entries-FreeUnused t n i [] f small unused = unused
  remove_from_entries-FreeUnused t n i (p ∷ ps) f small unused =
      let g = remove_partition free i p f in
      elim (Bool-cases (is_on_medium t n p)) [
        | inl e ↦ rw e (
          (λ h.
              remove_from_entries_keeps t n (i + 1) i ps g (omega arith)
                (remove_partition-IsUnused i p f (omega arith))),
          remove_from_entries-FreeUnused t n (i + 1) ps g (omega arith)
              (remove_partition-FreeUnused i (i + 1) p ps f (omega arith) unused.1),
        )
        | inr e ↦ rw e (
          (λ h. remove_from_entries_keeps t n (i + 1) i ps f (omega arith) (unused.0 h)),
          remove_from_entries-FreeUnused t n (i + 1) ps f (omega arith) unused.1,
        )
      ]

  remove_from_entries-NoneOnMedium :
      (t n i : ℕ) (ps : List Partition) (f : Files World)
      → t ≢ 0
      → NoneOnMedium t n (remove_from_entries free t n i ps f).0
  unfolding remove_from_entries NoneOnMedium
  remove_from_entries-NoneOnMedium t n i [] f some = omega arith
  remove_from_entries-NoneOnMedium t n i (p ∷ ps) f some = elim (Bool-cases (is_on_medium t n p)) [
    | inl e ↦ rw e (
      ground arith,
      remove_from_entries-NoneOnMedium t n (i + 1) ps (remove_partition free i p f) some,
    )
    | inr e ↦ rw e (e, remove_from_entries-NoneOnMedium t n (i + 1) ps f some)
  ]

  remove_from_entries-OthersKept :
      (t n i : ℕ) (ps : List Partition) (f : Files World)
      → OthersKept t n ps (remove_from_entries free t n i ps f).0
  unfolding remove_from_entries OthersKept
  remove_from_entries-OthersKept t n i [] f = refl
  remove_from_entries-OthersKept t n i (p ∷ ps) f = elim (Bool-cases (is_on_medium t n p)) [
    | inl e ↦ rw e (
      (λ h. ground arith),
      remove_from_entries-OthersKept t n (i + 1) ps (remove_partition free i p f),
    )
    | inr e ↦ rw e ((λ h. refl), remove_from_entries-OthersKept t n (i + 1) ps f)
  ]

-- What the removal of the partitions of a medium promises.
pub record IsRemoved {ℓ} {World : Type ℓ} (medium_type medium_number : ℕ) (s t : Partitions World)
    : Type 0 where
  pub none_on_medium : NoneOnMedium medium_type medium_number t.connected_partitions
  pub free_unused : FreeUnused 0 t.connected_partitions t.files
  pub others_kept :
      OthersKept medium_type medium_number s.connected_partitions t.connected_partitions

-- After the partitions of a medium are removed, no entry is on the medium, the entries of other media
-- are as before, and nothing refers to a free entry: it is not selected, and no loaded folder and no
-- folder structure is of it; if this was so before, and there are at most 255 entries.
pub remove_partitions_of_medium_from_list-IsRemoved {ℓ} :
    {World : Type ℓ} (free : ℕ → World → World) (medium_type medium_number : ℕ)
    (s : Partitions World)
    → medium_type ≢ 0
    → length s.connected_partitions ≤ 255
    → FreeUnused 0 s.connected_partitions s.files
    → IsRemoved medium_type medium_number s
        (remove_partitions_of_medium_from_list free medium_type medium_number s)
unfolding remove_partitions_of_medium_from_list
remove_partitions_of_medium_from_list-IsRemoved free t n s some small unused = record {
  none_on_medium = remove_from_entries-NoneOnMedium free t n 0 s.connected_partitions s.files some;
  free_unused =
      remove_from_entries-FreeUnused free t n 0 s.connected_partitions s.files (omega arith) unused;
  others_kept = remove_from_entries-OthersKept free t n 0 s.connected_partitions s.files;
}

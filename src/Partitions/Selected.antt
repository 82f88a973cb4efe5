-- ===== src/Partitions/Selected.antt =====
-- select_partition: which calls succeed, and what they change.
use mathlib.Core.Path.{subst}
use blesk_os_fork.Base.{
  ==_true, ==_false, ◌⊎◌, ◌<◌, ◌≤◌, ℕ_discrete, suc, get_or, ◌+◌, leb, ℕ, ◌≡◌, ◌≢◌, refl, Bool,
  true, false, arith, [], ◌∷◌, List, Bool-cases, inl, inr,
}
use blesk_os_fork.Partitions.{cleared_partition, select_partition, Files, Partitions, Partition}
use blesk_os_fork.Partitions.Removed.{FreeUnused}

-- What selecting a partition promises: it succeeds exactly for a partition of the list that is selected
-- already or is not free. Then it is selected, and its medium is selected with it, unless it was so
-- already, when nothing changes, as after an error. The list and the folders stay, and nothing refers
-- to a free entry.
pub record IsSelected {ℓ} {World : Type ℓ} (select_storage_medium : ℕ → ℕ → World → World)
    (number : ℕ) (s : Partitions World) (r : Bool × Partitions World) : Type ℓ where
  pub succeeds :
      number < 10
      → (s.files.selected_partition ≡ number)
        ⊎ ((get_or s.connected_partitions number cleared_partition).medium_type ≢ 0)
      → r.0 ≡ true
  pub in_list : r.0 ≡ true → number < 10
  pub not_free :
      r.0 ≡ true
      → s.files.selected_partition ≢ number
      → (get_or s.connected_partitions number cleared_partition).medium_type ≢ 0
  pub selected : r.0 ≡ true → r.1.files.selected_partition ≡ number
  pub medium_selected :
      r.0 ≡ true
      → s.files.selected_partition ≢ number
      → let p = get_or s.connected_partitions number cleared_partition in
        r.1.files.world ≡ select_storage_medium p.medium_type p.medium_number s.files.world
  pub already : s.files.selected_partition ≡ number → r.1 ≡ s
  pub failed : r.0 ≡ false → r.1 ≡ s
  pub same_list : r.1.connected_partitions ≡ s.connected_partitions
  pub same_folders :
      (r.1.files.array_of_loaded_folders ≡ s.files.array_of_loaded_folders)
      × (r.1.files.folder_structures ≡ s.files.folder_structures)
  pub free_unused : FreeUnused 0 r.1.connected_partitions r.1.files

selected_in_use {ℓ} :
    {World : Type ℓ} (i number : ℕ) (ps : List Partition) (f : Files World) (w : World)
    → ((k : ℕ) → number ≡ i + k → (get_or ps k cleared_partition).medium_type ≢ 0)
    → FreeUnused i ps f
    → FreeUnused i ps (record f { selected_partition = number; world = w })
unfolding FreeUnused
selected_in_use i number [] f w used unused = unused
selected_in_use i number (p ∷ ps) f w used unused = (
  (λ e. record {
    not_selected = λ same. used 0 (omega arith) e;
    none_loaded = (unused.0 e).none_loaded;
    no_structure = (unused.0 e).no_structure;
  }),
  selected_in_use (i + 1) number ps f w (λ k e. used (suc k) (omega arith)) unused.1,
)

-- The state that a partition is selected in.
abbrev selecting {ℓ} :
    {World : Type ℓ} → (ℕ → ℕ → World → World) → ℕ → Partitions World → Partitions World
selecting select number s =
    let p = get_or s.connected_partitions number cleared_partition in
    record s {
      files = record s.files {
        selected_partition = number;
        world = select p.medium_type p.medium_number s.files.world;
      };
    }

selecting-FreeUnused {ℓ} :
    {World : Type ℓ} (select : ℕ → ℕ → World → World) (number : ℕ) (s : Partitions World)
    → FreeUnused 0 s.connected_partitions s.files
    → (get_or s.connected_partitions number cleared_partition).medium_type ≢ 0
    → FreeUnused 0 s.connected_partitions (selecting select number s).files
selecting-FreeUnused select number s unused used =
    let same : (k : ℕ) → number ≡ 0 + k → number ≡ k = λ k e. omega arith in
    selected_in_use 0 number s.connected_partitions s.files _
      (λ k e.
        subst (λ j. (get_or s.connected_partitions j cleared_partition).medium_type ≢ 0) (same k e)
          used)
      unused

-- select_partition succeeds exactly for a partition with a number below 10 that is selected already or
-- whose entry is not free: it is selected then, and its medium with it, unless it was selected already.
-- An error and the selection of the selected partition change nothing; the list and the folders stay,
-- and nothing refers to a free entry, if this was so before.
pub select_partition-IsSelected {ℓ} :
    {World : Type ℓ} (select_storage_medium : ℕ → ℕ → World → World) (number : ℕ)
    (s : Partitions World)
    → FreeUnused 0 s.connected_partitions s.files
    → IsSelected select_storage_medium number s (select_partition select_storage_medium number s)
unfolding select_partition
select_partition-IsSelected select number s unused = elim (Bool-cases (leb 10 number)) [
  | inl out ↦
      let above : 10 ≤ number = ground arith in
      rw out (record {
        succeeds = λ low why. absurd (omega (arith, above, low));
        in_list = λ h. ground arith;
        not_free = λ h. ground arith;
        selected = λ h. ground arith;
        medium_selected = λ h. absurd (cc);
        already = λ h. refl;
        failed = λ h. refl;
        same_list = refl;
        same_folders = (refl, refl);
        free_unused = unused;
      })
  | inr within ↦
      let below : number < 10 = ground arith in
      elim (ℕ_discrete s.files.selected_partition number) [
        | yes same ↦
            rw (within, ==_true same)
              (record {
                succeeds = λ low why. refl;
                in_list = λ h. below;
                not_free = λ h other. absurd (other same);
                selected = λ h. same;
                medium_selected = λ h other. absurd (other same);
                already = λ h. refl;
                failed = λ h. refl;
                same_list = refl;
                same_folders = (refl, refl);
                free_unused = unused;
              })
        | no other ↦
            elim (ℕ_discrete (get_or s.connected_partitions number cleared_partition).medium_type
              0) [
                | yes none ↦
                    rw (within, ==_false other, ==_true none)
                      (record {
                        succeeds = λ low why. elim why [
                          | inl same ↦ absurd (other same)
                          | inr used ↦ absurd (used none)
                        ];
                        in_list = λ h. below;
                        not_free = λ h. absurd (cc);
                        selected = λ h. absurd (cc);
                        medium_selected = λ h. absurd (cc);
                        already = λ h. refl;
                        failed = λ h. refl;
                        same_list = refl;
                        same_folders = (refl, refl);
                        free_unused = unused;
                      })
                | no used ↦
                    rw (within, ==_false other, ==_false used)
                      (record {
                        succeeds = λ low why. refl;
                        in_list = λ h. below;
                        not_free = λ h h'. used;
                        selected = λ h. refl;
                        medium_selected = λ h h'. refl;
                        already = λ same. absurd (other same);
                        failed = λ h. absurd (cc);
                        same_list = refl;
                        same_folders = (refl, refl);
                        free_unused = selecting-FreeUnused select number s unused used;
                      })
              ]
      ]
]

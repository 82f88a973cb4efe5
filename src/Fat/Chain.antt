-- ===== src/Fat/Chain.antt =====
-- The chain of clusters that the entries of the table give, and delete_fat_file as the change that
-- frees it.
use mathlib.Core.Bool.{true≢false}
use blesk_os_fork.Base.{
  ℕ, zero, suc, ◌%◌, ◌<◌, ◌≡◌, refl, ap, ◌∙◌, Bool, true, false, ◌==◌, ◌||◌, if◌then◌else◌, arith,
  ==_true, inl, inr, Bool-cases, List, [], ◌∷◌,
}
use blesk_os_fork.Fat.{
  FatType, fat12, fat16, fat32, Volume, read_fat_table_entry, write_fat_table_entry,
  save_loaded_fat_table_sector,
}
use blesk_os_fork.Fat.Entry.{IsVolume, entry_values}
use blesk_os_fork.Fat.File.{is_end_of_chain, clusters_of_file, clear_entries, delete_fat_file}
use blesk_os_fork.Fat.Put.{write_fat_table_entry-IsPut}
use blesk_os_fork.Fat.Table.{IsClean}
use blesk_os_fork.Fat.View.{
  entry_of, IsAlike, IsKept, IsKept-trans, IsAlike-trans, alike_count, alike_ending,
  save_loaded_fat_table_sector-IsKept, read_fat_table_entry-IsGot,
}

unfoldable pub elem : ℕ → List ℕ → Bool
elem d [] = false
elem d (c ∷ cs) = d == c || elem d cs

pub elem_here : (c : ℕ) (cs : List ℕ) → elem c (c ∷ cs) ≡ true
unfolding elem
elem_here c cs = let here : (c == c) ≡ true = ==_true refl in rw here refl

neither : (a b : Bool) → (a || b) ≡ false → (a ≡ false) × (b ≡ false)
neither true b h = absurd (true≢false h)
neither false b h = (refl, h)

pub elem_tail :
    (d c : ℕ) (cs : List ℕ) → elem d (c ∷ cs) ≡ false → ((d == c) ≡ false) × (elem d cs ≡ false)
unfolding elem
elem_tail d c cs h = neither (d == c) (elem d cs) h

-- At most `n` clusters from `c` on, where `g` gives the entry of a cluster.
unfoldable pub chain : ℕ → (ℕ → ℕ) → ℕ → ℕ → List ℕ
chain ending g zero c = []
chain ending g (suc n) c =
    let rest = chain ending g n (g c) in if is_end_of_chain ending (g c) then c ∷ [] else c ∷ rest

-- The chain begins with its first cluster.
elem-chain_head : (ending : ℕ) (g : ℕ → ℕ) (n c : ℕ) → elem c (chain ending g (suc n) c) ≡ true
unfolding chain elem
elem-chain_head ending g n c =
    let here : (c == c) ≡ true = ==_true refl in
    elim (Bool-cases (is_end_of_chain ending (g c))) [
      | inl ends ↦ rw (ends, here) refl
      | inr goes_on ↦ rw (goes_on, here) refl
    ]

elem-chain_rest :
    (ending : ℕ) (g : ℕ → ℕ) (n c d : ℕ)
    → is_end_of_chain ending (g c) ≡ false
    → elem d (chain ending g n (g c)) ≡ true
    → elem d (chain ending g (suc n) c) ≡ true
unfolding chain elem
elem-chain_rest ending g n c d goes_on there =
    rw goes_on (elim (Bool-cases (d == c)) [ inl e ↦ rw e refl | inr e ↦ rw e there ])

-- The first loop of delete_fat_file on a volume whose entries are `g` on the chain.
clusters_of_file-chain :
    (ending : ℕ) (g : ℕ → ℕ) (n c : ℕ) (v : Volume)
    → IsVolume v
    → IsClean v
    → v.fat_info.file_ending_entry_value ≡ ending
    → ((d : ℕ)
        → elem d (chain ending g n c) ≡ true
        → (d < v.fat_info.number_of_clusters) × (entry_of v d ≡ g d))
    → ((clusters_of_file n c v).0 ≡ chain ending g n c) × IsKept v (clusters_of_file n c v).1
unfolding chain clusters_of_file
clusters_of_file-chain ending g zero c v volume clean last on_chain = (
  refl,
  record {
    alike = record { same_info = refl; volume = volume };
    entries = λ d h. refl;
    first_free = refl;
    clean = clean;
  },
)
clusters_of_file-chain ending g (suc n) c v volume clean last on_chain =
    let (below, first) = on_chain c (elem-chain_head ending g n c) in
    let got = read_fat_table_entry-IsGot c v volume clean below in
    let w = (read_fat_table_entry c v).1 in
    let kept = got.kept in
    let value : (read_fat_table_entry c v).0 ≡ g c = got.value ∙ first in
    let end_of : is_end_of_chain v.fat_info.file_ending_entry_value (g c)
        ≡ is_end_of_chain ending (g c) =
      ap (λ q. is_end_of_chain q (g c)) last in
    elim (Bool-cases (is_end_of_chain ending (g c))) [
      | inl ends ↦ rw (value, end_of ∙ ends, ends) (refl, kept)
      | inr goes_on ↦
          let count = alike_count v w kept.alike in
          let (rest, rest_kept) =
            clusters_of_file-chain ending g n (g c) w kept.alike.volume kept.clean
              (alike_ending v w kept.alike ∙ last)
              (λ d there.
                let (d_below, d_entry) =
                  on_chain d (elem-chain_rest ending g n c d goes_on there) in
                (omega (arith, d_below, count), kept.entries d d_below ∙ d_entry)) in
          rw (value, end_of ∙ goes_on, goes_on)
            (ap (λ cs. c ∷ cs) rest, IsKept-trans v w (clusters_of_file n (g c) w).1 kept rest_kept)
    ]

pub elem_later : (d c : ℕ) (cs : List ℕ) → elem d cs ≡ true → elem d (c ∷ cs) ≡ true
unfolding elem
elem_later d c cs there = elim (Bool-cases (d == c)) [ inl e ↦ rw e refl | inr e ↦ rw e there ]

zero_entry : (t : FatType) → 0 % entry_values t ≡ 0
zero_entry fat12 = refl
zero_entry fat16 = refl
zero_entry fat32 = refl

either_cleared :
    (a b : Bool) (x : ℕ) → (if a then 0 else if b then 0 else x) ≡ (if b || a then 0 else x)
either_cleared true true x = refl
either_cleared true false x = refl
either_cleared false true x = refl
either_cleared false false x = refl

-- A volume on which the entries of some clusters are 0, and the others as before.
pub record IsCleared (cs : List ℕ) (v w : Volume) : Type 0 where
  pub alike : IsAlike v w
  pub entries :
      (d : ℕ)
      → d < v.fat_info.number_of_clusters
      → entry_of w d ≡ (if elem d cs then 0 else entry_of v d)

clear_entries-IsCleared :
    (cs : List ℕ) (v : Volume)
    → IsVolume v
    → ((d : ℕ) → elem d cs ≡ true → d < v.fat_info.number_of_clusters)
    → ((clear_entries cs v).0 ≡ true) × IsCleared cs v (clear_entries cs v).1
unfolding clear_entries elem
clear_entries-IsCleared [] v volume below =
    (refl, record { alike = record { same_info = refl; volume = volume }; entries = λ d h. refl })
clear_entries-IsCleared (c ∷ cs) v volume below =
    let here : (c == c) ≡ true = ==_true refl in
    let put = write_fat_table_entry-IsPut c 0 v volume (below c (rw here refl)) in
    let w = (write_fat_table_entry c 0 v).1 in
    let count = alike_count v w put.alike in
    let zero_is : 0 % entry_values v.fat_info.type ≡ 0 = zero_entry v.fat_info.type in
    let (done, cleared) =
      clear_entries-IsCleared cs w put.alike.volume
        (λ d there. omega (arith, count, below d (elem_later d c cs there))) in
    rw put.succeeded (
      done,
      record {
        alike = IsAlike-trans v w (clear_entries cs w).1 put.alike cleared.alike;
        entries = λ d h.
            cleared.entries d (omega (arith, h, count))
            ∙ ap (λ x. if elem d cs then 0 else x) (put.entries d h)
            ∙ ap (λ x. if elem d cs then 0 else if d == c then x else entry_of v d) zero_is
            ∙ either_cleared (elem d cs) (d == c) (entry_of v d);
      },
    )

-- delete_fat_file, on a volume that does not fail and whose sector in memory is saved, makes every
-- cluster of the chain free, keeps the other entries, and saves the table; if the chain from the cluster
-- on, followed at most as far as there are clusters, does not leave the table.
pub delete_fat_file-IsCleared :
    (c : ℕ) (v : Volume)
    → IsVolume v
    → IsClean v
    → ((d : ℕ)
        → elem d
            (chain v.fat_info.file_ending_entry_value (entry_of v) v.fat_info.number_of_clusters c)
          ≡ true
        → d < v.fat_info.number_of_clusters)
    → ((delete_fat_file c v).0 ≡ true)
      × IsCleared
          (chain v.fat_info.file_ending_entry_value (entry_of v) v.fat_info.number_of_clusters c)
          v
          (delete_fat_file c v).1
      × IsClean (delete_fat_file c v).1
unfolding delete_fat_file
delete_fat_file-IsCleared c v volume clean below =
    let cs =
      chain v.fat_info.file_ending_entry_value (entry_of v) v.fat_info.number_of_clusters c in
    let (read, kept) =
      clusters_of_file-chain v.fat_info.file_ending_entry_value (entry_of v)
        v.fat_info.number_of_clusters c v volume clean refl (λ d there. (below d there, refl)) in
    let w = (clusters_of_file v.fat_info.number_of_clusters c v).1 in
    let count = alike_count v w kept.alike in
    let (done, cleared) =
      clear_entries-IsCleared cs w kept.alike.volume
        (λ d there. omega (arith, count, below d there)) in
    let u = (clear_entries cs w).1 in
    let (saved, saved_kept) = save_loaded_fat_table_sector-IsKept u cleared.alike.volume in
    let u_count = alike_count w u cleared.alike in
    let z = (save_loaded_fat_table_sector u).1 in
    rw (read, done)
      (
        saved,
        record {
          alike =
              IsAlike-trans v w z kept.alike (IsAlike-trans w u z cleared.alike saved_kept.alike);
          entries = λ d h.
              let in_w : d < w.fat_info.number_of_clusters = omega (arith, h, count) in
              saved_kept.entries d (omega (arith, in_w, u_count))
              ∙ cleared.entries d in_w
              ∙ ap (λ x. if elem d cs then 0 else x) (kept.entries d h);
        },
        saved_kept.clean,
      )

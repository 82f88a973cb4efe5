-- ===== src/Fat/Put.antt =====
-- A write of one entry as a change of the entries.
use blesk_os_fork.Base.{
  ℕ, ◌-◌, ◌*◌, ◌/◌, ◌%◌, ◌^◌, ◌<◌, ◌≡◌, refl, ap, ◌∙◌, sym, Bool, true, false, leb, ltb, ◌==◌, ◌&&◌,
  if◌then◌else◌, arith, ==_true, ==_false, ℕ_discrete, inl, inr, Bool-cases,
}
use blesk_os_fork.Fat.{
  FatInfo, Volume, write_entry_of_type, note_free_cluster, write_fat_table_entry,
}
use blesk_os_fork.Fat.Entry.{table_entry, entry_values, IsVolume}
use blesk_os_fork.Fat.Stored.{table_entry-set_entry, table_entry-set_entry_other, set_entry_byte}
use blesk_os_fork.Fat.Table.{table_byte}
use blesk_os_fork.Fat.View.{entry_of, IsAlike, alike-IsVolume, entry_bytes, entry_of_table}
use blesk_os_fork.Fat.Write.{IsWritten, set_entry, changed-IsReady}
use blesk_os_fork.Fat.Written.{write_entry_of_type-IsWritten}
use mathlib.Core.Path.{subst}

-- A write that sets the entry of the cluster and keeps the others.
pub record IsPut (e x : ℕ) (v : Volume) (r : Bool × Volume) : Type 0 where
  pub succeeded : r.0 ≡ true
  pub alike : IsAlike v r.1
  pub entries :
      (d : ℕ)
      → d < v.fat_info.number_of_clusters
      → entry_of r.1 d ≡ (if d == e then x % entry_values v.fat_info.type else entry_of v d)
  pub first_free :
      r.1.fat_info.first_free_cluster
      ≡ (if x == 0 && ltb e v.fat_info.first_free_cluster then e else v.fat_info.first_free_cluster)

-- A volume whose table is changed at one entry.
changed_entry :
    (e x d : ℕ) (v w : Volume)
    → IsVolume v
    → d < v.fat_info.number_of_clusters
    → w.fat_info.type ≡ v.fat_info.type
    → ((k : ℕ)
        → k / 512 < v.fat_info.fat_table_size_in_sectors
        → table_byte w k ≡ set_entry v.fat_info.type e x (table_byte v) k)
    → entry_of w d ≡ (if d == e then x % entry_values v.fat_info.type else entry_of v d)
unfolding entry_of
changed_entry e x d v w volume below type same =
    let t = v.fat_info.type in
    let set = entry_of_table d (set_entry t e x (table_byte v)) v w volume below type same in
    elim (ℕ_discrete d e) [
      | yes here ↦ rw (==_true here) (
          set
          ∙ ap (table_entry t (set_entry t e x (table_byte v))) here
          ∙ table_entry-set_entry t e x (table_byte v))
      | no other ↦ rw (==_false other) (
          set
          ∙ table_entry-set_entry_other t e d x (table_byte v) other
              (λ k h. volume.bytes k (entry_bytes d k v volume below h)))
    ]

-- The first free cluster is noted where the cluster becomes free.
note_free_cluster-IsPut :
    (e x : ℕ) (v : Volume) (r : Bool × Volume)
    → IsVolume v
    → IsWritten v.fat_info.type e x v r
    → IsPut e x v (note_free_cluster e x r)
note_free_cluster-IsPut e x v (done, w) volume written =
    let changed = written.changed in
    let ready =
      changed-IsReady (set_entry v.fat_info.type e x (table_byte v)) v w volume.ready changed in
    let bytes : (k : ℕ) → k / 512 < v.fat_info.fat_table_size_in_sectors → table_byte w k < 256 =
      λ k h.
        subst (λ y. y < 256) (sym (changed.is_table k h))
          (set_entry_byte v.fat_info.type e x k (table_byte v) (volume.bytes k h)) in
    let first_free : w.fat_info.first_free_cluster ≡ v.fat_info.first_free_cluster =
      ap (λ f. f.first_free_cluster) changed.same_info in
    let type : w.fat_info.type ≡ v.fat_info.type = ap (λ f. f.type) changed.same_info in
    let noted : ℕ → Volume =
      λ c. record w { fat_info = record w.fat_info { first_free_cluster = c } } in
    let with_first : ℕ → FatInfo → FatInfo = λ c f. record f { first_free_cluster = c } in
    let alike : (c : ℕ) → IsAlike v (noted c) = λ c. record {
      same_info = ap (with_first c) changed.same_info;
      volume =
          alike-IsVolume w.fat_info.loaded_fat_table_sector c w.fat_info.fat_table_sector v
            (noted c) volume (ap (with_first c) changed.same_info)
            (record {
              never_fails = ready.never_fails;
              in_table = ready.in_table;
              some_table = ready.some_table;
              on_medium = ready.on_medium;
            })
            bytes;
    } in
    let entries : (c d : ℕ)
        → d < v.fat_info.number_of_clusters
        → entry_of (noted c) d
          ≡ (if d == e then x % entry_values v.fat_info.type else entry_of v d) =
      λ c d h. changed_entry e x d v (noted c) volume h type changed.is_table in
    let lower_of : (x == 0 && ltb e w.fat_info.first_free_cluster)
        ≡ (x == 0 && ltb e v.fat_info.first_free_cluster) =
      ap (λ c. x == 0 && ltb e c) first_free in
    elim (Bool-cases (x == 0 && ltb e v.fat_info.first_free_cluster)) [
      | inl lower ↦
          rw (written.succeeded, lower_of ∙ lower)
            (record {
              succeeded = refl;
              alike = alike e;
              entries = entries e;
              first_free = rw lower refl;
            })
      | inr not_lower ↦
          rw (written.succeeded, lower_of ∙ not_lower)
            (record {
              succeeded = refl;
              alike = alike w.fat_info.first_free_cluster;
              entries = entries w.fat_info.first_free_cluster;
              first_free = rw not_lower first_free;
            })
    ]

-- On a volume that does not fail write_fat_table_entry sets the entry of the cluster to the value, as
-- many bits of it as an entry has, keeps the other entries, whichever sectors are saved and loaded for
-- it, and lowers the hint for the search exactly where a cluster in front of it becomes free.
pub write_fat_table_entry-IsPut :
    (e x : ℕ) (v : Volume)
    → IsVolume v
    → e < v.fat_info.number_of_clusters
    → IsPut e x v (write_fat_table_entry e x v)
unfolding write_fat_table_entry
write_fat_table_entry-IsPut e x v volume below =
    let within : leb v.fat_info.number_of_clusters e ≡ false = ground arith in
    let small : e * 12 < 2 ^ 32 - 8 = omega (arith, volume.in_words, below) in
    rw within (
      note_free_cluster-IsPut e x v (write_entry_of_type v.fat_info.type e x v) volume (
        write_entry_of_type-IsWritten v.fat_info.type e x v volume.ready (volume.covered e below)
          small))

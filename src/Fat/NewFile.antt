-- ===== src/Fat/NewFile.antt =====
-- A new file is read, deleted, or refused.
use mathlib.Core.Path.{subst}
use blesk_os_fork.Base.{
  ℕ, zero, suc, ◌+◌, ◌-◌, ◌^◌, ◌<◌, ◌≤◌, ◌≡◌, refl, ap, ◌∙◌, sym, Bool, true, false, leb, ◌==◌,
  ◌||◌, if◌then◌else◌, arith, ==_false, inl, inr, Bool-cases, List, [], ◌∷◌, length, u32,
}
use blesk_os_fork.Fat.{FatType, fat12, fat16, fat32, StorageMedium, Volume}
use blesk_os_fork.Fat.Chain.{elem, elem_here, elem_later, chain, delete_fat_file-IsCleared}
use blesk_os_fork.Fat.Create.{
  number_of_clusters_in_file, fat_find_free_cluster, Created, undefined, status_error, created,
  create_fat_file,
}
use blesk_os_fork.Fat.Created.{IsFormatted, IsWriter, IsNewFile}
use blesk_os_fork.Fat.Entry.{entry_values}
use blesk_os_fork.Fat.File.{is_end_of_chain, read_fat_file, delete_fat_file}
use blesk_os_fork.Fat.Free.{free_clusters-inside, length-free_clusters}
use blesk_os_fork.Fat.ReadFile.{
  IsFile, last_cluster, next_cluster, IsReadFile, read_fat_file-IsReadFile,
}
use blesk_os_fork.Fat.Sequence.{IsDataArea}
use blesk_os_fork.Fat.Table.{IsClean}
use blesk_os_fork.Fat.Taken.{free_for_file, create_with_clusters-IsNewFile}
use blesk_os_fork.Fat.View.{entry_of, alike_count, alike_ending}
use blesk_os_fork.Sectors.{Descriptor, Outcome, size_of_stream, byte_stream_100_kb_block}

goes_on :
    (ending d : ℕ) → ending < 2 ^ 32 → (2 ≤ d) × (d + 1 < ending) → is_end_of_chain ending d ≡ false
goes_on ending d small (low, high) = ground arith

ends_there :
    (ending x : ℕ) → 1 ≤ ending → ending < 2 ^ 32 → ending ≤ x → is_end_of_chain ending x ≡ true
ends_there ending x some small high =
    let later : leb (u32 (ending + (2 ^ 32 - 1))) x ≡ true = ground arith in rw later refl

-- What create_fat_file makes, where it makes a file.
unfoldable pub Creates : (ℕ → Volume → Type 0) → Created → Type 0
Creates P undefined = 0 < 0
Creates P (status_error w) = 0 < 0
Creates P (created first w) = P first w

entry_values_below : (t : FatType) → entry_values t ≤ 2 ^ 32
entry_values_below fat12 = omega arith
entry_values_below fat16 = omega arith
entry_values_below fat32 = omega arith

-- A file is the chain that delete_fat_file follows.
chain-IsFile :
    (ending : ℕ) (g : ℕ → ℕ) (n c : ℕ) (cs : List ℕ)
    → 1 ≤ ending
    → ending < 2 ^ 32
    → IsFile ending g (c ∷ cs)
    → length cs < n
    → ((d : ℕ) → elem d (c ∷ cs) ≡ true → (2 ≤ d) × (d + 1 < ending))
    → chain ending g n c ≡ c ∷ cs
unfolding chain
chain-IsFile ending g zero c cs some small file enough inside = absurd (omega arith)
chain-IsFile ending g (suc n) c [] some small (last_cluster high) enough inside =
    rw (ends_there ending (g c) some small high) refl
chain-IsFile ending g (suc n) c (e ∷ cs) some small (next_cluster next below file) enough inside =
    let more = goes_on ending e small (inside e (elem_later e c (e ∷ cs) (elem_here e cs))) in
    rw (next, more)
      (ap (λ ds. c ∷ ds)
        (chain-IsFile ending g n e cs some small file (omega (arith, enough))
          (λ d there. inside d (elem_later d c (e ∷ cs) there))))

module _ (write_data : Descriptor → StorageMedium → Bool × StorageMedium)
    (writer : IsWriter write_data) (c : ℕ) (cs : List ℕ) (file_size_in_bytes : ℕ) (v : Volume)
    (formatted : IsFormatted v) (clean : IsClean v) (some_bytes : 0 < file_size_in_bytes)
    (some_cluster : 0 < v.fat_info.cluster_size_in_bytes)
    (free : free_for_file v
        (number_of_clusters_in_file v.fat_info.cluster_size_in_bytes file_size_in_bytes)
      ≡ c ∷ cs)
    (enough : length (c ∷ cs)
      ≡ number_of_clusters_in_file v.fat_info.cluster_size_in_bytes file_size_in_bytes) where
  -- On a formatted volume that does not fail, whose sector in memory is saved and whose clusters
  -- have bytes, a file of some bytes, for which there are as many free clusters behind the hint
  -- as it is given, becomes the chain of exactly the first of these; the table is saved, and the
  -- entries of the other clusters stay; if writing its data succeeds and changes the sectors of
  -- these clusters alone.
  pub create_fat_file-IsNewFile :
      IsNewFile (c ∷ cs) v (create_fat_file write_data fat_find_free_cluster file_size_in_bytes v)
  unfolding create_fat_file
  create_fat_file-IsNewFile =
      let wanted = number_of_clusters_in_file v.fat_info.cluster_size_in_bytes file_size_in_bytes in
      let has_bytes : (file_size_in_bytes == 0) ≡ false = ground arith in
      let size_given : (v.fat_info.cluster_size_in_bytes == 0) ≡ false = ==_false (omega arith) in
      let some_wanted : (wanted == 0) ≡ false = ==_false (omega (arith, enough)) in
      let has_clusters : (v.fat_info.cluster_size_in_bytes == 0 || wanted == 0) ≡ false =
        rw (size_given, some_wanted) refl in
      rw (has_bytes, has_clusters)
        (create_with_clusters-IsNewFile write_data wanted c cs v writer formatted clean free enough)

  new_inside :
      (b : ℕ)
      → elem b (c ∷ cs) ≡ true
      → (2 ≤ b) × (b < v.fat_info.number_of_clusters) × (entry_of v b ≡ 0)
  new_inside b there =
      let f = v.fat_info in
      let (low, high, zero_entry) =
        free_clusters-inside (entry_of v) (f.number_of_clusters - f.first_free_cluster)
          f.first_free_cluster fat_find_free_cluster
          (number_of_clusters_in_file f.cluster_size_in_bytes file_size_in_bytes) b
          (ap (elem b) free ∙ there) in
      (
        omega (arith, low, formatted.first_low),
        omega (arith, high, formatted.first_high),
        zero_entry,
      )

  new_length : length cs < v.fat_info.number_of_clusters
  new_length =
      let f = v.fat_info in
      let (_, short) =
        length-free_clusters (entry_of v) (f.number_of_clusters - f.first_free_cluster)
          f.first_free_cluster fat_find_free_cluster
          (number_of_clusters_in_file f.cluster_size_in_bytes file_size_in_bytes) in
      omega (arith, ap length free, short)

  new_area : IsDataArea create_fat_file-IsNewFile.after.fat_info
  new_area =
      subst IsDataArea (sym create_fat_file-IsNewFile.alike.same_info) (record {
        some_sectors = formatted.area.some_sectors;
        on_medium = formatted.area.on_medium;
      })

  -- Under the conditions under which create_fat_file makes a file, namely a formatted volume that
  -- does not fail and is saved, enough free clusters, and a write of the data that succeeds and
  -- changes the sectors of the clusters alone, and if there are no more clusters than runs fit in
  -- 100 KB with the header, read_fat_file of what it returns reads the sectors of its clusters in
  -- their order as a whole.
  pub read_fat_file-create_fat_file :
      (read_whole : Descriptor → Volume → ℕ × Outcome Volume)
      → size_of_stream (length (c ∷ cs)) ≤ byte_stream_100_kb_block
      → Creates
          (λ first w.
            (first ≡ c) × IsReadFile read_whole (c ∷ cs) w (read_fat_file read_whole first w))
          (create_fat_file write_data fat_find_free_cluster file_size_in_bytes v)
  unfolding Creates
  read_fat_file-create_fat_file read_whole room =
      let new = create_fat_file-IsNewFile in
      let count = alike_count v new.after new.alike in
      subst
        (Creates (λ first w.
          (first ≡ c) × IsReadFile read_whole (c ∷ cs) w (read_fat_file read_whole first w)))
        (sym new.is_created)
        (
          refl,
          read_fat_file-IsReadFile read_whole c cs new.after new.alike.volume new.clean new_area
              (subst (λ e. IsFile e (entry_of new.after) (c ∷ cs))
                (sym (alike_ending v new.after new.alike)) new.is_file)
              (omega (arith, new_length, count)) room
              (λ b there.
                let (low, high, _) = new_inside b there in (low, omega (arith, high, count))),
        )

  new_chain :
      chain create_fat_file-IsNewFile.after.fat_info.file_ending_entry_value
        (entry_of create_fat_file-IsNewFile.after)
        create_fat_file-IsNewFile.after.fat_info.number_of_clusters
        c
      ≡ c ∷ cs
  new_chain =
      let new = create_fat_file-IsNewFile in
      let last = alike_ending v new.after new.alike in
      let count = alike_count v new.after new.alike in
      let ending_small : v.fat_info.file_ending_entry_value < 2 ^ 32 =
        omega (arith, formatted.ending_fits, entry_values_below v.fat_info.type) in
      chain-IsFile new.after.fat_info.file_ending_entry_value (entry_of new.after)
        new.after.fat_info.number_of_clusters c cs (omega (arith, last, formatted.no_cluster_ends))
        (omega (arith, last, ending_small))
        (subst (λ e. IsFile e (entry_of new.after) (c ∷ cs)) (sym last) new.is_file)
        (omega (arith, new_length, count))
        (λ b there.
          let (low, high, _) = new_inside b there in
          (low, omega (arith, high, last, formatted.no_cluster_ends)))

  -- Under the conditions under which create_fat_file makes a file, namely a formatted volume that
  -- does not fail and is saved, enough free clusters, and a write of the data that succeeds and
  -- changes the sectors of the clusters alone, delete_fat_file of what it returns gives every
  -- entry that was there before.
  pub delete_fat_file-create_fat_file :
      Creates
        (λ first w.
          ((delete_fat_file first w).0 ≡ true)
          × ((d : ℕ)
              → d < v.fat_info.number_of_clusters
              → entry_of (delete_fat_file first w).1 d ≡ entry_of v d))
        (create_fat_file write_data fat_find_free_cluster file_size_in_bytes v)
  unfolding Creates
  delete_fat_file-create_fat_file =
      let new = create_fat_file-IsNewFile in
      let w = new.after in
      let count = alike_count v w new.alike in
      let (done, cleared, _) = delete_fat_file-IsCleared c w new.alike.volume new.clean (λ d there.
        let (_, high, _) = new_inside d (sym (ap (elem d) new_chain) ∙ there) in
        omega (arith, high, count)) in
      let restored : (d : ℕ)
          → d < v.fat_info.number_of_clusters
          → entry_of (delete_fat_file c w).1 d ≡ entry_of v d =
        λ d h.
          cleared.entries d (omega (arith, h, count))
          ∙ ap (λ ds. if elem d ds then 0 else entry_of w d) new_chain
          ∙ elim (Bool-cases (elem d (c ∷ cs))) [
            | inl there ↦ let (_, _, was_free) = new_inside d there in rw there (sym was_free)
            | inr other ↦ rw other (new.others d h other)
          ] in
      subst
        (Creates (λ first u.
          ((delete_fat_file first u).0 ≡ true)
          × ((d : ℕ)
              → d < v.fat_info.number_of_clusters
              → entry_of (delete_fat_file first u).1 d ≡ entry_of v d)))
        (sym new.is_created) (done, restored)

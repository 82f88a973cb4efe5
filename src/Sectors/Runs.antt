-- ===== src/Sectors/Runs.antt =====
-- The runs of a descriptor as the sequence of the sectors of the file.
use blesk_os_fork.Base.{
  inr, inl, ℕ, ◌+◌, ◌^◌, ◌<◌, ◌≤◌, ◌≡◌, ◌≢◌, refl, ap, ◌∙◌, sym, false, arith, ◌∷◌, length,
  ==_false,
}
use blesk_os_fork.Sectors.{
  Descriptor, extends_last_run, add_to_last_run, add_sectors_to_descriptor_of_file_sectors,
  is_stream_moved, size_of_stream, byte_stream_100_kb_block,
}
use blesk_os_fork.Sectors.Sequence.{length-add_to_last_run, AllRuns}
use mathlib.Core.Path.{subst}
pub use blesk_os_fork.Sectors.Cases.{
  IsDescriptor, Adds, HasRuns, AddsRuns, create_descriptor_of_file_sectors-IsDescriptor,
  create_descriptor_of_file_sectors-HasRuns,
}
use blesk_os_fork.Sectors.Cases.{
  list_cases, add_first-Adds, add_first-AddsRuns, add_more-Adds, add_more-AddsRuns,
}

-- The runs are right also where the stream moves.
pub add_sectors_to_descriptor_of_file_sectors-AddsRuns :
    (d : Descriptor) (first n : ℕ)
    → HasRuns d
    → 0 < n
    → first + n < 2 ^ 32
    → length d.runs + 1 < 2 ^ 32
    → AddsRuns d first n (add_sectors_to_descriptor_of_file_sectors d first n)
add_sectors_to_descriptor_of_file_sectors-AddsRuns d first n has some below small =
    elim (list_cases d.runs) [
      | inl none ↦
          let count : d.number_of_runs ≡ 0 = omega (arith, has.counted, ap length none) in
          add_first-AddsRuns d first n none count some below
      | inr (r, rs, these) ↦
          let len = ap length these in
          let count : d.number_of_runs ≢ 0 =
            (let one = has.some_counted (omega (arith, len)) in omega arith) in
          add_more-AddsRuns d first n r rs these (subst AllRuns these has.all_runs) count some below
            (omega (arith, has.counted, len)) (omega (arith, has.counted, small))
    ]

-- Adding `n` sectors from `first` on to a descriptor whose counters agree with its runs and whose
-- stream has room for a run in its first block of 100 KB, for a positive `n` and when the sectors
-- and their number fit in 32 bits, leaves a descriptor whose counters agree with its runs and
-- whose sequence of sectors is the old one with the new sectors behind it, whether the last run
-- grows or a run is added.
pub add_sectors_to_descriptor_of_file_sectors-Adds :
    (d : Descriptor) (first n : ℕ)
    → IsDescriptor d
    → 0 < n
    → first + n < 2 ^ 32
    → d.number_of_sectors + n < 2 ^ 32
    → size_of_stream (d.number_of_runs + 1) ≤ byte_stream_100_kb_block
    → Adds d first n (add_sectors_to_descriptor_of_file_sectors d first n)
add_sectors_to_descriptor_of_file_sectors-Adds d first n is some below sum room =
    elim (list_cases d.runs) [
      | inl none ↦ add_first-Adds d first n none (is.runs_counted ∙ ap length none) some below
      | inr (r, rs, these) ↦
          let count : d.number_of_runs ≡ length (r ∷ rs) = is.runs_counted ∙ ap length these in
          add_more-Adds d first n r rs these (subst AllRuns these is.all_runs) (omega arith) some
            below count is.sectors_counted (omega (arith, room, count)) sum
    ]

-- A run that is added behind 12797 others, where the stream has to move, is not counted: the counters
-- stay, and no longer agree with the runs.
pub add_sectors_to_descriptor_of_file_sectors-loses_run :
    (d : Descriptor) (first n : ℕ)
    → IsDescriptor d
    → d.number_of_runs ≡ 12797
    → extends_last_run first d.runs ≡ false
    → let e = add_sectors_to_descriptor_of_file_sectors d first n in
      (e.runs ≡ add_to_last_run first n d.runs)
      × (e.number_of_runs ≡ d.number_of_runs)
      × (e.number_of_sectors ≡ d.number_of_sectors)
      × (length e.runs ≡ e.number_of_runs + 1)
unfolding add_sectors_to_descriptor_of_file_sectors is_stream_moved
add_sectors_to_descriptor_of_file_sectors-loses_run d first n is full apart =
    let is_some : d.number_of_runs ≢ 0 = omega arith in
    let runs : length d.runs ≡ 12797 = sym is.runs_counted ∙ full in
    rw (==_false is_some, apart, runs)
      (
        refl,
        refl,
        refl,
        elim (list_cases d.runs) [
          | inl none ↦ absurd (omega (arith, runs, ap length none))
          | inr (r, rs, these) ↦
              let other : extends_last_run first (r ∷ rs) ≡ false =
                subst (λ q. extends_last_run first q ≡ false) these apart in
              let len : length (r ∷ rs) ≡ 12797 = sym (ap length these) ∙ runs in
              rw these (length-add_to_last_run first n r rs ∙ rw other (omega (arith, len, full)))
        ],
      )

-- ===== src/Sectors/Tests.antt =====
-- A file of three runs on a device that keeps the sectors it was asked for and cannot read sector 7.
use blesk_os_fork.Base.{
  ℕ, zero, suc, ◌+◌, ◌<◌, ◌≡◌, refl, Bool, true, false, ◌==◌, if◌then◌else◌, arith, List, [], ◌∷◌,
  u8, add32, Bool-cases, inl, inr,
}
use blesk_os_fork.Sectors.{
  status_error, read_whole_descriptor_of_file_sector, transfer_sectors,
  descriptor_of_file_sector_read_sectors, Descriptor, create_descriptor_of_file_sectors,
  add_sectors_to_descriptor_of_file_sectors, is_stream_moved, Transfer, hard_disk,
}
use blesk_os_fork.Sectors.Each.{transfer_each, IsSequential}
use blesk_os_fork.Sectors.Runs.{
  Adds, create_descriptor_of_file_sectors-IsDescriptor,
  add_sectors_to_descriptor_of_file_sectors-Adds,
}
use blesk_os_fork.Sectors.Sequence.{sectors_from, sectors_of}
use blesk_os_fork.Sectors.Whole.{read_whole_descriptor_of_file_sector-transfer_descriptor}

-- The sectors one by one up to the one that cannot be read.
log_sectors : ℕ → ℕ → List ℕ → Bool × List ℕ
log_sectors first zero w = (true, w)
log_sectors first (suc n) w =
    let rest = log_sectors (add32 first 1) n (first ∷ w) in if first == 7 then (false, w) else rest

abbrev device : ℕ → ℕ → ℕ → List ℕ → Bool × List ℕ
device first n memory w = log_sectors first n w

log_sectors-split :
    (first a b : ℕ) (w : List ℕ)
    → 0 < a
    → log_sectors first (a + b) w ≡ (
        if (log_sectors first a w).0
        then log_sectors (add32 first a) b (log_sectors first a w).1
        else log_sectors first a w)
unfolding log_sectors
log_sectors-split first zero b w some = absurd (omega arith)
log_sectors-split first (suc zero) b w some =
    let next : 1 + b ≡ suc b = omega arith in
    rw next (elim (Bool-cases (first == 7)) [ inl e ↦ rw e refl | inr e ↦ rw e refl ])
log_sectors-split first (suc (suc a)) b w some =
    let next : suc (suc a) + b ≡ suc (suc a + b) = omega arith in
    let sum : add32 first (suc (suc a)) ≡ add32 (add32 first 1) (suc a) = omega arith in
    rw next (elim (Bool-cases (first == 7)) [
      | inl e ↦ rw e refl
      | inr e ↦ rw (e, sum) (log_sectors-split (add32 first 1) (suc a) b (first ∷ w) (omega arith))
    ])

-- The request of a file whose sectors have 512 bytes.
device-IsSequential :
    (d : Descriptor)
    → d.size_of_one_sector ≡ 512
    → IsSequential (descriptor_of_file_sector_read_sectors device device d) 512
unfolding IsSequential descriptor_of_file_sector_read_sectors
device-IsSequential d small first a b memory w some more byte =
    let no_cd : (d.size_of_one_sector == 2352) ≡ false = ground arith in
    let whole : u8 (a + b) ≡ a + b = omega arith in
    let one : u8 a ≡ a = omega arith in
    let other : u8 b ≡ b = omega arith in
    rw (no_cd, whole, one, other) (log_sectors-split first a b w some)

abbrev one_run : Descriptor
one_run = add_sectors_to_descriptor_of_file_sectors (create_descriptor_of_file_sectors 512) 3 200

one_run-Adds : Adds (create_descriptor_of_file_sectors 512) 3 200 one_run
unfolding create_descriptor_of_file_sectors
one_run-Adds =
    add_sectors_to_descriptor_of_file_sectors-Adds (create_descriptor_of_file_sectors 512) 3 200
      (create_descriptor_of_file_sectors-IsDescriptor 512) (omega arith) (omega arith) (omega arith)
      (omega arith)

abbrev file : Descriptor
file = add_sectors_to_descriptor_of_file_sectors one_run 203 10

-- The sectors 203 to 212 follow the run of 200 sectors from 3 on.
add_sectors_to_descriptor_of_file_sectors-Adds_example : Adds one_run 203 10 file
unfolding add_sectors_to_descriptor_of_file_sectors create_descriptor_of_file_sectors
    is_stream_moved
add_sectors_to_descriptor_of_file_sectors-Adds_example =
    add_sectors_to_descriptor_of_file_sectors-Adds one_run 203 10 one_run-Adds.is_descriptor
      (omega arith) (omega arith) (omega arith) (omega arith)

abbrev start : ℕ → List ℕ → List ℕ
start total w = w

abbrev calloc : ℕ → List ℕ → ℕ × List ℕ
calloc size w = (4096, w)

abbrev free : ℕ → List ℕ → List ℕ
free memory w = memory ∷ w

abbrev pressed : List ℕ → Bool
pressed w = false

abbrev state : ℕ → List ℕ → Transfer (List ℕ)
state bytes w = record { file_memory_pointer = 4096 + bytes; completed = bytes; world = w }

abbrev short_file : Descriptor
short_file = add_sectors_to_descriptor_of_file_sectors (create_descriptor_of_file_sectors 512) 3 6

short_file-Adds : Adds (create_descriptor_of_file_sectors 512) 3 6 short_file
unfolding create_descriptor_of_file_sectors
short_file-Adds =
    add_sectors_to_descriptor_of_file_sectors-Adds (create_descriptor_of_file_sectors 512) 3 6
      (create_descriptor_of_file_sectors-IsDescriptor 512) (omega arith) (omega arith) (omega arith)
      (omega arith)

-- The file of the sectors 3 to 8 cannot be read, and its memory at 4096 is freed.
read_whole_descriptor_of_file_sector-transfer_descriptor_example :
    read_whole_descriptor_of_file_sector device device pressed start calloc free hard_disk
      short_file []
    ≡ (4096, status_error (4096 ∷ 6 ∷ 5 ∷ 4 ∷ 3 ∷ []))
unfolding descriptor_of_file_sector_read_sectors add_sectors_to_descriptor_of_file_sectors
    is_stream_moved create_descriptor_of_file_sectors transfer_each transfer_sectors sectors_of
    sectors_from log_sectors
read_whole_descriptor_of_file_sector-transfer_descriptor_example =
    read_whole_descriptor_of_file_sector-transfer_descriptor device device pressed start calloc free
      hard_disk short_file [] short_file-Adds.is_descriptor (device-IsSequential short_file refl)
      (λ v. refl)

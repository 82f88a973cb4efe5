-- ===== src/Sectors/Whole.antt =====
-- The loops that read and write whole files, against a transfer of the sectors of the file one by one.
use blesk_os_fork.Base.{take, ℕ, ◌<◌, ◌≡◌, refl, ap, Bool, false, arith, List, [], ◌∷◌, length}
use blesk_os_fork.Sectors.{
  free_on_error, hard_disk, optical_drive, usb_msd, other, sectors_per_one_write,
  sectors_per_one_read, full_task_number_of_bytes, descriptor_of_file_sector_read_sectors,
  write_sectors, write_whole_descriptor_of_file_sector, read_whole_descriptor_of_file_sector,
  Medium, Descriptor, Outcome,
}
use blesk_os_fork.Sectors.Each.{transfer_runs-transfer_each, transfer_each, IsSequential}
use blesk_os_fork.Sectors.Runs.{IsDescriptor}
use blesk_os_fork.Sectors.Sequence.{sectors_of}

-- Every medium takes some sectors in one request, and their number is a byte.
read_some :
    (medium : Medium) (size : ℕ)
    → (0 < sectors_per_one_read medium size) × (sectors_per_one_read medium size < 256)
read_some hard_disk size = omega arith
read_some optical_drive size = ground arith
read_some usb_msd size = omega arith
read_some other size = omega arith

write_some :
    (medium : Medium) → (0 < sectors_per_one_write medium) × (sectors_per_one_write medium < 256)
write_some hard_disk = omega arith
write_some optical_drive = omega arith
write_some usb_msd = omega arith
write_some other = omega arith

take-length : {A : Type 0} → (xs : List A) → take (length xs) xs ≡ xs
take-length [] = refl
take-length (x ∷ xs) = ap (λ ys. x ∷ ys) (take-length xs)

all_runs_taken : (d : Descriptor) → IsDescriptor d → take d.number_of_runs d.runs ≡ d.runs
all_runs_taken d is_descriptor = rw is_descriptor.runs_counted (take-length d.runs)

-- The transfer of the sectors of a descriptor one by one, from the start of the file's memory.
abbrev pub transfer_descriptor {ℓ} :
    {World : Type ℓ} (request : ℕ → ℕ → ℕ → World → Bool × World)
    → Descriptor
    → ℕ
    → World
    → Outcome World
transfer_descriptor request d file_memory w =
    transfer_each request d.size_of_one_sector (sectors_of d.runs)
      (record { file_memory_pointer = file_memory; completed = 0; world = w })

-- A whole file, whose descriptor agrees with its runs, on a device that is sequential in requests of up
-- to 255 sectors and if the user does not press the key, is read as if its sectors were read one by one:
-- with the same outcome, at the same addresses, and with the memory freed after the first request that
-- fails.
pub read_whole_descriptor_of_file_sector-transfer_descriptor {ℓ} :
    {World : Type ℓ} (read_audio_cd read_storage_medium : ℕ → ℕ → ℕ → World → Bool × World)
    (cancelled : World → Bool) (start : ℕ → World → World) (calloc : ℕ → World → ℕ × World)
    (free : ℕ → World → World) (medium : Medium) (d : Descriptor) (w : World)
    → IsDescriptor d
    → IsSequential
        (descriptor_of_file_sector_read_sectors read_audio_cd read_storage_medium d)
        d.size_of_one_sector
    → ((v : World) → cancelled v ≡ false)
    → read_whole_descriptor_of_file_sector read_audio_cd read_storage_medium cancelled start calloc
        free medium d w
      ≡ (let (file_memory, v) = calloc (full_task_number_of_bytes d) w in
          (
            file_memory,
            free_on_error (free file_memory) (
                transfer_descriptor
                  (descriptor_of_file_sector_read_sectors read_audio_cd read_storage_medium d)
                  d
                  file_memory
                  (start (full_task_number_of_bytes d) v)),
          ))
unfolding read_whole_descriptor_of_file_sector
read_whole_descriptor_of_file_sector-transfer_descriptor audio cd cancelled start calloc free medium
      d w is_descriptor is_sequential never =
    rw (all_runs_taken d is_descriptor) (
      ap
        (λ o. (
          (calloc (full_task_number_of_bytes d) w).0,
          free_on_error (free (calloc (full_task_number_of_bytes d) w).0) o,
        ))
        (transfer_runs-transfer_each (descriptor_of_file_sector_read_sectors audio cd d)
          d.size_of_one_sector is_sequential cancelled never
          (sectors_per_one_read medium d.size_of_one_sector)
          (read_some medium d.size_of_one_sector).0 (read_some medium d.size_of_one_sector).1 d.runs
          _ is_descriptor.all_runs))

-- A whole file, on a device that is sequential and if the user does not press the key, is written as
-- if its sectors were written one by one, with the same outcome and from the same addresses.
pub write_whole_descriptor_of_file_sector-transfer_descriptor {ℓ} :
    {World : Type ℓ} (write_storage_medium : ℕ → ℕ → ℕ → World → Bool × World)
    (cancelled : World → Bool) (start : ℕ → World → World) (medium : Medium) (d : Descriptor)
    (file_memory : ℕ) (w : World)
    → IsDescriptor d
    → IsSequential (write_sectors write_storage_medium) d.size_of_one_sector
    → ((v : World) → cancelled v ≡ false)
    → write_whole_descriptor_of_file_sector write_storage_medium cancelled start medium d
        file_memory w
      ≡ transfer_descriptor
          (write_sectors write_storage_medium)
          d
          file_memory
          (start (full_task_number_of_bytes d) w)
unfolding write_whole_descriptor_of_file_sector
write_whole_descriptor_of_file_sector-transfer_descriptor write cancelled start medium d file_memory
      w is_descriptor is_sequential never =
    rw (all_runs_taken d is_descriptor) (
      transfer_runs-transfer_each (write_sectors write) d.size_of_one_sector is_sequential cancelled
        never (sectors_per_one_write medium) (write_some medium).0 (write_some medium).1 d.runs _
        is_descriptor.all_runs)

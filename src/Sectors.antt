-- ===== src/Sectors.antt =====
-- source/drivers/filesystems/descriptor_of_file_sectors.c: the sectors of a file as runs, and the
-- loops that read and write them. The descriptor is a value. Where its stream outgrows its block it
-- moves, and the code writes the counters of the header through the old address: then they stay. What
-- those writes do to the memory that was freed is not modelled, and a larger block is taken to be had.
use blesk_os_fork.Base.{
  u16, u8, ◌++◌, take, length, ℕ, zero, suc, ◌+◌, ◌-◌, ◌*◌, ◌/◌, Bool, false, ltb, leb, ◌==◌,
  if◌then◌else◌, List, [], ◌∷◌, u32, add32,
}
pub mod Sequence
pub mod Cases
pub mod Runs
pub mod Each
pub mod Whole
pub mod Tests

-- `struct file_sectors_run_t`
pub record Run : Type 0 where
  pub first_sector_of_run : ℕ
  pub number_of_sectors_in_run : ℕ

-- `struct descriptor_of_file_sectors_t`. `number_of_runs` is counted apart from the runs.
pub record Descriptor : Type 0 where
  pub size_of_one_sector : ℕ
  pub number_of_sectors : ℕ
  pub number_of_runs : ℕ
  pub actual_run : ℕ
  pub processed_sectors_from_actual_run : ℕ
  pub runs : List Run

unfoldable pub create_descriptor_of_file_sectors : ℕ → Descriptor
create_descriptor_of_file_sectors size = record {
  size_of_one_sector = u16 size;
  number_of_sectors = 0;
  number_of_runs = 0;
  actual_run = 0;
  processed_sectors_from_actual_run = 0;
  runs = [];
}

-- What happens to the last run: it grows if the sectors follow it, else a run is added behind it.
unfoldable pub add_to_last_run : ℕ → ℕ → List Run → List Run
add_to_last_run first n [] =
    record { first_sector_of_run = first; number_of_sectors_in_run = n } ∷ []
add_to_last_run first n (r ∷ []) =
    if add32 r.first_sector_of_run r.number_of_sectors_in_run == first
    then record r { number_of_sectors_in_run = add32 r.number_of_sectors_in_run n } ∷ []
    else r ∷ record { first_sector_of_run = first; number_of_sectors_in_run = n } ∷ []
add_to_last_run first n (r ∷ q ∷ rs) = r ∷ add_to_last_run first n (q ∷ rs)

-- Whether the sectors follow the last run.
unfoldable pub extends_last_run : ℕ → List Run → Bool
extends_last_run first [] = false
extends_last_run first (r ∷ []) = add32 r.first_sector_of_run r.number_of_sectors_in_run == first
extends_last_run first (r ∷ q ∷ rs) = extends_last_run first (q ∷ rs)

-- The blocks of the stream of a descriptor, BYTE_STREAM_100_KB_BLOCK.
abbrev pub byte_stream_100_kb_block : ℕ
byte_stream_100_kb_block = 102400

-- The bytes of the header and of `n` runs behind it.
abbrev pub size_of_stream : ℕ → ℕ
size_of_stream n = 18 + 8 * n

-- Whether the end of a block lies in front of one of the eight bytes of a run that is added behind
-- `n` runs. The larger block is never at the same address, since ma_realloc allocates it before it
-- frees the old one.
unfoldable pub is_stream_moved : ℕ → Bool
is_stream_moved n =
    ltb ((size_of_stream n - 1) / byte_stream_100_kb_block)
      ((size_of_stream n + 7) / byte_stream_100_kb_block)

-- The counters are written through the address of the header from before the run was added.
abbrev pub update_header : Bool → ℕ → ℕ → Descriptor → Descriptor
update_header is_moved number_of_sectors number_of_runs d =
    if is_moved
    then d
    else record d { number_of_sectors = number_of_sectors; number_of_runs = number_of_runs }

unfoldable pub add_sectors_to_descriptor_of_file_sectors : Descriptor → ℕ → ℕ → Descriptor
add_sectors_to_descriptor_of_file_sectors d first n =
    let is_moved = is_stream_moved (length d.runs) in
    let run : Run = record { first_sector_of_run = first; number_of_sectors_in_run = n } in
    let added = add_to_last_run first n d.runs in
    if d.number_of_runs == 0
    then update_header is_moved n 1 (record d { runs = d.runs ++ (run ∷ []) })
    else if extends_last_run first d.runs
    then record d { runs = added; number_of_sectors = add32 d.number_of_sectors n }
    else update_header is_moved (add32 d.number_of_sectors n) (add32 d.number_of_runs 1)
        (record d { runs = added })

pub data Medium : Type 0 where
  hard_disk optical_drive usb_msd other : Medium

-- How many sectors one request reads.
abbrev pub sectors_per_one_read : Medium → ℕ → ℕ
sectors_per_one_read hard_disk size = 128
sectors_per_one_read optical_drive size = if size == 2352 then 27 else 16
sectors_per_one_read usb_msd size = 128
sectors_per_one_read other size = 1

abbrev pub sectors_per_one_write : Medium → ℕ
sectors_per_one_write hard_disk = 128
sectors_per_one_write usb_msd = 128
sectors_per_one_write _ = 1

-- The state of a transfer: the pointer into the file's memory, the bytes done, and the machine.
pub record Transfer {ℓ} (World : Type ℓ) : Type ℓ where
  pub file_memory_pointer : ℕ
  pub completed : ℕ
  pub world : World

-- A transfer that goes on, one that ended with STATUS_ERROR, or a model loop without fuel.
pub data Outcome {ℓ} (World : Type ℓ) : Type ℓ where
  good : Transfer World → Outcome World
  status_error : World → Outcome World
  stuck : Outcome World

-- The next outcome, unless the transfer has ended.
abbrev pub and_then {ℓ} :
    {World : Type ℓ} → Outcome World → (Transfer World → Outcome World) → Outcome World
and_then (good t) f = f t
and_then (status_error w) f = status_error w
and_then stuck f = stuck

-- One request and what moves behind it: `request first n memory` reads or writes sectors and tells
-- whether it did.
unfoldable pub transfer_sectors {ℓ} :
    {World : Type ℓ} (request : ℕ → ℕ → ℕ → World → Bool × World) (size : ℕ)
    → ℕ
    → ℕ
    → Transfer World
    → Outcome World
transfer_sectors request size first n t =
    let (is_done, w) = request first n t.file_memory_pointer t.world in
    if is_done
    then good (record {
      file_memory_pointer = add32 t.file_memory_pointer (u32 (n * size));
      completed = add32 t.completed (u32 (n * size));
      world = w;
    })
    else status_error w

-- `cancelled` is the test of the key that the user may press meanwhile.
module _ {ℓ} {World : Type ℓ} (request : ℕ → ℕ → ℕ → World → Bool × World)
    (cancelled : World → Bool) (size : ℕ) where
  -- The loop over one run that is longer than a request may be. The test for the key stands in the
  -- last branch again.
  unfoldable pub transfer_run : ℕ → ℕ → ℕ → ℕ → Transfer World → Outcome World
  transfer_run zero per first sectors t = stuck
  transfer_run (suc fuel) per first sectors t =
      let more =
        and_then (transfer_sectors request size first per t)
          (λ s. transfer_run fuel per (add32 first per) (sectors - per) s) in
      if sectors == 0
      then good t
      else if cancelled t.world
      then status_error t.world
      else if ltb per sectors
      then more
      else if cancelled t.world
      then status_error t.world
      else transfer_sectors request size first sectors t

  -- The loop over the runs. A run is read in at most as many requests as it has sectors.
  unfoldable pub transfer_runs : ℕ → List Run → Transfer World → Outcome World
  transfer_runs per [] t = good t
  transfer_runs per (r ∷ rs) t =
      let this =
        if leb r.number_of_sectors_in_run per
        then transfer_sectors request size r.first_sector_of_run r.number_of_sectors_in_run t
        else transfer_run r.number_of_sectors_in_run per r.first_sector_of_run
            r.number_of_sectors_in_run t in
      if cancelled t.world
      then status_error t.world
      else and_then this (λ s. transfer_runs per rs s)

-- The number of sectors is a byte of read_storage_medium, and 32 bits of read_audio_cd.
unfoldable pub descriptor_of_file_sector_read_sectors {ℓ} :
    {World : Type ℓ} (read_audio_cd read_storage_medium : ℕ → ℕ → ℕ → World → Bool × World)
    → Descriptor
    → ℕ
    → ℕ
    → ℕ
    → World
    → Bool × World
descriptor_of_file_sector_read_sectors read_audio_cd read_storage_medium d first n memory w =
    if d.size_of_one_sector == 2352
    then read_audio_cd first n memory w
    else read_storage_medium first (u8 n) memory w

-- The bytes of the file, which `calloc` is asked for.
abbrev pub full_task_number_of_bytes : Descriptor → ℕ
full_task_number_of_bytes d = u32 (d.number_of_sectors * d.size_of_one_sector)

abbrev pub free_on_error {ℓ} : {World : Type ℓ} → (World → World) → Outcome World → Outcome World
free_on_error free_memory (good t) = good t
free_on_error free_memory (status_error w) = status_error (free_memory w)
free_on_error free_memory stuck = stuck

-- The outcome beside the memory of the file. `start` clears the key that was pressed and sets the
-- total that the progress window shows. On an error the memory is freed.
unfoldable pub read_whole_descriptor_of_file_sector {ℓ} :
    {World : Type ℓ} (read_audio_cd read_storage_medium : ℕ → ℕ → ℕ → World → Bool × World)
    (cancelled : World → Bool) (start : ℕ → World → World) (calloc : ℕ → World → ℕ × World)
    (free : ℕ → World → World)
    → Medium
    → Descriptor
    → World
    → ℕ × Outcome World
read_whole_descriptor_of_file_sector read_audio_cd read_storage_medium cancelled start calloc free
      medium d w =
    let total = full_task_number_of_bytes d in
    let (file_memory, v) = calloc total w in
    let request = descriptor_of_file_sector_read_sectors read_audio_cd read_storage_medium d in
    let per = sectors_per_one_read medium d.size_of_one_sector in
    (
      file_memory,
      free_on_error (free file_memory) (
          transfer_runs request cancelled d.size_of_one_sector per (take d.number_of_runs d.runs)
            (record { file_memory_pointer = file_memory; completed = 0; world = start total v })),
    )

-- The number of sectors is a byte of write_storage_medium.
abbrev pub write_sectors {ℓ} :
    {World : Type ℓ} (write_storage_medium : ℕ → ℕ → ℕ → World → Bool × World)
    → ℕ
    → ℕ
    → ℕ
    → World
    → Bool × World
write_sectors write_storage_medium first n = write_storage_medium first (u8 n)

unfoldable pub write_whole_descriptor_of_file_sector {ℓ} :
    {World : Type ℓ} (write_storage_medium : ℕ → ℕ → ℕ → World → Bool × World)
    (cancelled : World → Bool) (start : ℕ → World → World)
    → Medium
    → Descriptor
    → ℕ
    → World
    → Outcome World
write_whole_descriptor_of_file_sector write_storage_medium cancelled start medium d file_memory w =
    transfer_runs (write_sectors write_storage_medium) cancelled d.size_of_one_sector
      (sectors_per_one_write medium) (take d.number_of_runs d.runs)
      (record {
        file_memory_pointer = file_memory;
        completed = 0;
        world = start (full_task_number_of_bytes d) w;
      })

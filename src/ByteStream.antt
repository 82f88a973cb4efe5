-- ===== src/ByteStream.antt =====
-- source/libraries/decoders/byte_stream.c: output whose length is not known before. The descriptor is a
-- value beside the memory; the calls of the memory allocator are parameters.
use blesk_os_fork.Base.{
  ℕ, zero, suc, ◌+◌, ◌-◌, ◌*◌, ◌/◌, ◌%◌, ◌^◌, ltb, ◌==◌, if◌then◌else◌, u8, u32, add32, sub32,
}
use blesk_os_fork.Memory.{Memory, load, store}
use blesk_os_fork.Numbers.{convert_number_to_byte_string}
use blesk_os_fork.Strings.{String, get_number_of_chars_in_ascii_string}
pub mod Contents
pub mod Life
mod Tests

-- `struct byte_stream_descriptor_t`
pub record Stream : Type 0 where
  pub start_of_allocated_memory : ℕ
  pub memory_pointer : ℕ
  pub size_of_allocated_memory : ℕ
  pub end_of_allocated_memory : ℕ
  pub size_of_stream : ℕ
  pub size_of_one_block : ℕ

-- The memory and what the allocator keeps.
pub record Machine {ℓ} (A : Type ℓ) : Type ℓ where
  pub memory : Memory
  pub allocator : A

-- A stream and the machine that it is in.
pub record Output {ℓ} (A : Type ℓ) : Type ℓ where
  pub stream : Stream
  pub machine : Machine A

abbrev pub size_of_descriptor : ℕ
size_of_descriptor = 24

-- The address of the descriptor beside the output.
unfoldable pub create_byte_stream {ℓ} :
    {A : Type ℓ} (calloc : ℕ → Machine A → ℕ × Machine A) → ℕ → Machine A → ℕ × Output A
create_byte_stream calloc size_of_block w =
    let (descriptor, v) = calloc size_of_descriptor w in
    let (start, u) = calloc size_of_block v in
    (
      descriptor,
      record {
        stream = record {
          start_of_allocated_memory = start;
          memory_pointer = start;
          size_of_allocated_memory = size_of_block;
          end_of_allocated_memory = add32 start size_of_block;
          size_of_stream = 0;
          size_of_one_block = size_of_block;
        };
        machine = u;
      },
    )

-- The byte is written, and the pointer moves.
unfoldable pub put_byte {ℓ} : {A : Type ℓ} → ℕ → Output A → Output A
put_byte value o = record {
  stream = record o.stream {
    memory_pointer = add32 o.stream.memory_pointer 1;
    size_of_stream = add32 o.stream.size_of_stream 1;
  };
  machine = record o.machine { memory = store o.machine.memory o.stream.memory_pointer (u8 value) };
}

module _ {ℓ} {A : Type ℓ} (realloc : ℕ → ℕ → Machine A → ℕ × Machine A) where
  -- One more block. If there is none, only the size and the start have changed.
  unfoldable pub allocate_more : Output A → Output A
  allocate_more o =
      let s = o.stream in
      let size = add32 s.size_of_allocated_memory s.size_of_one_block in
      let (start, w) = realloc s.start_of_allocated_memory size o.machine in
      if start == 0
      then record {
        stream = record s { size_of_allocated_memory = size; start_of_allocated_memory = start };
        machine = w;
      }
      else record {
        stream = record s {
          size_of_allocated_memory = size;
          start_of_allocated_memory = start;
          end_of_allocated_memory = add32 start size;
          memory_pointer = sub32 (add32 start size) s.size_of_one_block;
        };
        machine = w;
      }

  unfoldable pub add_byte_to_byte_stream : ℕ → Output A → Output A
  add_byte_to_byte_stream value o =
      let more = allocate_more o in
      if o.stream.memory_pointer == o.stream.end_of_allocated_memory
      then (if more.stream.start_of_allocated_memory == 0 then more else put_byte value more)
      else put_byte value o

  unfoldable pub add_word_to_byte_stream : ℕ → Output A → Output A
  add_word_to_byte_stream value o =
      add_byte_to_byte_stream (value / 2 ^ 8) (add_byte_to_byte_stream (value % 2 ^ 8) o)

  unfoldable pub add_dword_to_byte_stream : ℕ → Output A → Output A
  add_dword_to_byte_stream value o = add_byte_to_byte_stream (value / 2 ^ 24 % 2 ^ 8) (
      add_byte_to_byte_stream (value / 2 ^ 16 % 2 ^ 8) (
        add_byte_to_byte_stream (value / 2 ^ 8 % 2 ^ 8)
          (add_byte_to_byte_stream (value % 2 ^ 8) o)))

  unfoldable pub skip_bytes_in_byte_stream : ℕ → Output A → Output A
  skip_bytes_in_byte_stream zero o = o
  skip_bytes_in_byte_stream (suc n) o = skip_bytes_in_byte_stream n (add_byte_to_byte_stream 0 o)

  -- `pointer[i]` is read from the memory as it is in that round.
  unfoldable pub add_bytes_to_byte_stream : ℕ → ℕ → Output A → Output A
  add_bytes_to_byte_stream pointer zero o = o
  add_bytes_to_byte_stream pointer (suc n) o =
      add_bytes_to_byte_stream (pointer + 1) n
        (add_byte_to_byte_stream (load o.machine.memory pointer) o)

  -- The chars of a string from `i` on. The string is taken to stand apart from the stream.
  unfoldable pub add_chars : ℕ → ℕ → String → Output A → Output A
  add_chars zero i string o = o
  add_chars (suc n) i string o = add_chars n (i + 1) string (add_byte_to_byte_stream (string i) o)

  unfoldable pub add_string_to_byte_stream : String → Output A → Output A
  add_string_to_byte_stream string o =
      add_chars (get_number_of_chars_in_ascii_string string) 0 string o

  -- The array of the digits has been cleared.
  unfoldable pub add_number_to_byte_stream : ℕ → Output A → Output A
  add_number_to_byte_stream number o =
      add_string_to_byte_stream (convert_number_to_byte_string number (λ i. 0)) o

  -- The char of a hexadecimal digit.
  abbrev pub hex_char : ℕ → ℕ
  hex_char digit = if ltb digit 10 then digit + 48 else digit - 10 + 65

  -- The digits from the one that stands `n` places from the right. A shift by 32 or more is not C.
  unfoldable pub add_hex_number_to_byte_stream : ℕ → ℕ → Output A → Output A
  add_hex_number_to_byte_stream number zero o = o
  add_hex_number_to_byte_stream number (suc n) o =
      add_hex_number_to_byte_stream number n
        (add_byte_to_byte_stream (hex_char (number / 2 ^ (n * 4) % 16)) o)

  -- The pointer into the stream does not move with it.
  unfoldable pub create_free_space_in_byte_stream : ℕ → Output A → Output A
  create_free_space_in_byte_stream space_size o =
      let s = o.stream in
      let block = s.size_of_one_block in
      let size = add32 s.size_of_allocated_memory (u32 (space_size / block * block + block)) in
      let (start, w) = realloc s.start_of_allocated_memory size o.machine in
      if ltb (sub32 s.size_of_allocated_memory s.size_of_stream) space_size
      then record {
        stream = record s {
          size_of_allocated_memory = size;
          start_of_allocated_memory = start;
          end_of_allocated_memory = add32 start size;
        };
        machine = w;
      }
      else o

  -- The start of the bytes, and the machine without the descriptor.
  unfoldable pub close_byte_stream :
      (free : ℕ → Machine A → Machine A) → ℕ → Output A → ℕ × Machine A
  close_byte_stream free descriptor o =
      let (start, w) =
        realloc o.stream.start_of_allocated_memory o.stream.size_of_stream o.machine in
      (start, free descriptor w)

unfoldable pub destroy_byte_stream {ℓ} :
    {A : Type ℓ} (free : ℕ → Machine A → Machine A) → ℕ → Output A → Machine A
destroy_byte_stream free descriptor o =
    free descriptor (free o.stream.start_of_allocated_memory o.machine)

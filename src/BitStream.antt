-- ===== src/BitStream.antt =====
-- source/libraries/decoders/bit_stream.c and huffman.c: values of some bits in memory, the lowest bit
-- first, and codes of different lengths.
use blesk_os_fork.Base.{
  ℕ, zero, suc, ◌+◌, ◌-◌, ◌*◌, ◌/◌, ◌%◌, ◌^◌, Bool, ltb, leb, ◌==◌, if◌then◌else◌, List, [], ◌∷◌,
  ◌++◌, get_or, take, replicate, bit_and, bit_or, ◌<<◌, ◌>>◌, u8, u32, add32, sub32,
}
use blesk_os_fork.Memory.{Memory, load, store_dword}
pub mod Written
pub mod Codes
mod Tests

-- The two global variables.
pub record BitStream : Type 0 where
  pub bit_stream_pointer : ℕ
  pub bit_stream_pointer_shift : ℕ

abbrev pub bit_stream_mask : List ℕ
bit_stream_mask =
    0x0 ∷ 0x1 ∷ 0x3 ∷ 0x7 ∷ 0xF ∷ 0x1F ∷ 0x3F ∷ 0x7F ∷ 0xFF ∷ 0x1FF ∷ 0x3FF ∷ 0x7FF ∷ 0xFFF ∷ 0x1FFF
    ∷ 0x3FFF ∷ 0x7FFF ∷ 0xFFFF ∷ 0x1FFFF ∷ 0x3FFFF ∷ 0x7FFFF ∷ 0xFFFFF ∷ 0x1FFFFF ∷ 0x3FFFFF
    ∷ 0x7FFFFF ∷ 0xFFFFFF ∷ []

-- The mask of so many bits; for more than 24 the table ends, and the theorems ask for less.
abbrev pub mask : ℕ → ℕ
mask bits = get_or bit_stream_mask bits 0

-- `bit_stream[0]`, and a store to it.
abbrev pub load_dword : Memory → ℕ → ℕ
load_dword m p =
    load m p + load m (p + 1) * 2 ^ 8 + load m (p + 2) * 2 ^ 16 + load m (p + 3) * 2 ^ 24

abbrev pub write_dword : Memory → ℕ → ℕ → Memory
write_dword m p v =
    store_dword m p (v % 2 ^ 8) (v / 2 ^ 8 % 2 ^ 8) (v / 2 ^ 16 % 2 ^ 8) (v / 2 ^ 24 % 2 ^ 8)

-- The pointers move over so many bits.
unfoldable pub move_pointers : ℕ → BitStream → BitStream
move_pointers bits s =
    let shift = add32 s.bit_stream_pointer_shift bits in
    record {
      bit_stream_pointer = add32 s.bit_stream_pointer (shift >> 3);
      bit_stream_pointer_shift = shift % 8;
    }

unfoldable pub bit_stream_read_value_without_moving : ℕ → Memory → BitStream → ℕ
bit_stream_read_value_without_moving bits m s =
    bit_and (load_dword m s.bit_stream_pointer >> s.bit_stream_pointer_shift) (mask bits)

unfoldable pub bit_stream_read_value : ℕ → Memory → BitStream → ℕ × BitStream
bit_stream_read_value bits m s =
    (bit_stream_read_value_without_moving bits m s, move_pointers bits s)

unfoldable pub bit_stream_write_value : ℕ → ℕ → Memory → BitStream → Memory × BitStream
bit_stream_write_value bits value m s = (
  write_dword m s.bit_stream_pointer
      (bit_or (u32 (value << s.bit_stream_pointer_shift)) (load_dword m s.bit_stream_pointer)),
  move_pointers bits s,
)

-- The loop over the bits from `i` on: the bit moves by `length - 1 - 2 * i` places, to the right where
-- this is negative.
unfoldable pub reverse_from : ℕ → ℕ → ℕ → ℕ → ℕ → ℕ
reverse_from zero i value length result = result
reverse_from (suc n) i value length result =
    let bit = bit_and value (u32 (1 << i)) in
    let moved =
      if ltb (length - 1) (2 * i)
      then bit >> (2 * i - (length - 1))
      else u32 (bit << (length - 1 - 2 * i)) in
    reverse_from n (i + 1) value length (bit_or result moved)

unfoldable pub reverse_bits : ℕ → ℕ → ℕ
reverse_bits value length = reverse_from length 0 value length 0

-- One entry of a Huffman table: the length in the lowest byte, the code above it; and the result.
pub record CodeEntry : Type 0 where
  pub length_and_code : ℕ
  pub result : ℕ

-- The table as `create_huffman_table` makes it. The entries are those that were added.
pub record HuffmanTable : Type 0 where
  pub first_free_entry : ℕ
  pub number_of_entries : ℕ
  pub entries : List CodeEntry

unfoldable pub create_huffman_table : ℕ → HuffmanTable
create_huffman_table number_of_entries = record {
  first_free_entry = 2;
  number_of_entries = number_of_entries;
  entries = [];
}

unfoldable pub reset_huffman_table : HuffmanTable → HuffmanTable
reset_huffman_table t = record t { first_free_entry = 2; entries = [] }

unfoldable pub huffman_table_add_entry : ℕ → ℕ → ℕ → HuffmanTable → HuffmanTable
huffman_table_add_entry length code result t =
    if leb (u32 (t.number_of_entries * 2 + 2)) t.first_free_entry then t else record t {
      entries =
          t.entries
          ++ (record { length_and_code = bit_or (u32 (code << 8)) length; result = result } ∷ []);
      first_free_entry = add32 t.first_free_entry 2;
    }

abbrev pub length_of_code : CodeEntry → ℕ
length_of_code e = e.length_and_code % 2 ^ 8

abbrev pub code_of : CodeEntry → ℕ
code_of e = e.length_and_code >> 8

-- The loop over the entries: the result of the first code that the value begins with, and the pointers
-- behind the code.
unfoldable pub find_code : List CodeEntry → ℕ → BitStream → ℕ × BitStream
find_code [] value s = (0, s)
find_code (e ∷ es) value s =
    if bit_and value (mask (length_of_code e)) == code_of e
    then (e.result, move_pointers (length_of_code e) s)
    else find_code es value s

abbrev pub used_entries : HuffmanTable → List CodeEntry
used_entries t = take (sub32 t.first_free_entry 2 / 2) t.entries

unfoldable pub huffman_table_parse_one_value : HuffmanTable → Memory → BitStream → ℕ × BitStream
huffman_table_parse_one_value t m s =
    if ltb t.first_free_entry 2
    then (0, s)
    else find_code (used_entries t)
        (load_dword m s.bit_stream_pointer >> s.bit_stream_pointer_shift) s

unfoldable pub huffman_table_parse_one_value_without_moving : HuffmanTable → Memory → BitStream → ℕ
huffman_table_parse_one_value_without_moving t m s = (huffman_table_parse_one_value t m s).0

-- The loop over the entries: each one with the value writes its code.
unfoldable pub write_codes : List CodeEntry → ℕ → Memory → BitStream → Memory × BitStream
write_codes [] value m s = (m, s)
write_codes (e ∷ es) value m s =
    let (n, u) = bit_stream_write_value (length_of_code e) (code_of e) m s in
    if e.result == value then write_codes es value n u else write_codes es value m s

unfoldable pub huffman_table_add_one_value :
    HuffmanTable → ℕ → Memory → BitStream → Memory × BitStream
huffman_table_add_one_value t value m s = write_codes (used_entries t) value m s

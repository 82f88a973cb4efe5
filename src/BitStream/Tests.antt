-- ===== src/BitStream/Tests.antt =====
-- Three codes, 0, 01 and 11, in a stream that begins at the bit 3 of the byte at 100.
use blesk_os_fork.Base.{◌*◌, ℕ, ◌+◌, ◌≡◌, refl, arith, [], ◌∷◌, ◌==◌, if◌then◌else◌}
use blesk_os_fork.BitStream.{
  reverse_from, reverse_bits, BitStream, CodeEntry, HuffmanTable, move_pointers,
  bit_stream_read_value, bit_stream_write_value, create_huffman_table, huffman_table_add_entry,
  huffman_table_parse_one_value, huffman_table_add_one_value,
}
use blesk_os_fork.BitStream.Codes.{
  OtherResults, NoBeginning, IsCoded, huffman_table_parse_one_value-huffman_table_add_one_value,
}
use blesk_os_fork.BitStream.Written.{IsFresh, bit_stream_read_value-bit_stream_write_value}
use blesk_os_fork.Memory.{Memory}

-- The three bits that stand before the position are 1.
abbrev memory : Memory
memory a = if a == 100 then 7 else 0

abbrev position : BitStream
position = record { bit_stream_pointer = 100; bit_stream_pointer_shift = 3 }

position-IsFresh : IsFresh memory position
position-IsFresh = record { in_byte = omega arith; clear_behind = omega arith }

bit_stream_read_value-bit_stream_write_value_example :
    bit_stream_read_value 13 (bit_stream_write_value 13 5000 memory position).0 position
    ≡ (5000, record { bit_stream_pointer = 102; bit_stream_pointer_shift = 0 })
unfolding bit_stream_write_value move_pointers
bit_stream_read_value-bit_stream_write_value_example =
    bit_stream_read_value-bit_stream_write_value 13 5000 memory position (omega arith) (omega arith)
      position-IsFresh

abbrev table : HuffmanTable
table =
    huffman_table_add_entry 2 3 99
      (huffman_table_add_entry 2 1 98 (huffman_table_add_entry 1 0 97 (create_huffman_table 3)))

abbrev entry : ℕ → ℕ → ℕ → CodeEntry
entry bits code result = record { length_and_code = code * 256 + bits; result = result }

table-IsCoded : IsCoded table (entry 1 0 97 ∷ entry 2 1 98 ∷ []) (entry 2 3 99) []
unfolding huffman_table_add_entry create_huffman_table OtherResults NoBeginning
table-IsCoded = record {
  made = omega arith;
  used = refl;
  short = omega arith;
  code_fits = omega arith;
  unlike_before = (omega arith, (omega arith, omega arith));
  unlike_after = omega arith;
  prefix_free = (omega arith, omega arith, (omega arith, omega arith, omega arith));
}

huffman_table_parse_one_value-huffman_table_add_one_value_example :
    huffman_table_parse_one_value table
      (huffman_table_add_one_value table 99 memory position).0
      position
    ≡ (99, (huffman_table_add_one_value table 99 memory position).1)
huffman_table_parse_one_value-huffman_table_add_one_value_example =
    huffman_table_parse_one_value-huffman_table_add_one_value table
      (entry 1 0 97 ∷ entry 2 1 98 ∷ []) (entry 2 3 99) [] memory position table-IsCoded
      position-IsFresh

-- 0b0011010 backwards.
reverse_bits_seven : reverse_bits 0x1A 7 ≡ 0x2C
unfolding reverse_bits reverse_from
reverse_bits_seven = refl

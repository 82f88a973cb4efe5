-- ===== src/Crc.antt =====
-- source/libraries/checksums/crc.c
use blesk_os_fork.Base.{ℕ, zero, suc, ◌+◌, ◌-◌, ◌==◌, if◌then◌else◌, bit_and, bit_xor, ◌>>◌}
use blesk_os_fork.Strings.{String}
pub mod Standard
mod Tests

abbrev pub polynomial : ℕ
polynomial = 0xEDB88320

-- One round of the loop over the bits of `actual_byte`.
abbrev pub crc_bit : ℕ → ℕ → ℕ
crc_bit actual_byte crc32 =
    if bit_and (bit_xor actual_byte crc32) 0x1 == 0x1
    then bit_xor (crc32 >> 1) polynomial
    else crc32 >> 1

-- That loop with `n` rounds left.
unfoldable pub crc_bits : ℕ → ℕ → ℕ → ℕ
crc_bits zero actual_byte crc32 = crc32
crc_bits (suc n) actual_byte crc32 = crc_bits n (actual_byte >> 1) (crc_bit actual_byte crc32)

-- The loop over the bytes from index `i` on.
unfoldable pub crc_bytes : ℕ → ℕ → String → ℕ → ℕ
crc_bytes zero i memory crc32 = crc32
crc_bytes (suc n) i memory crc32 = crc_bytes n (i + 1) memory (crc_bits 8 (memory i) crc32)

-- `~crc32` is what is missing to the greatest number of 32 bits.
unfoldable pub calculate_crc32_checksum : String → ℕ → ℕ
calculate_crc32_checksum memory size = 0xFFFFFFFF - crc_bytes size 0 memory 0xFFFFFFFF

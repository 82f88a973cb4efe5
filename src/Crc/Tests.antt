-- ===== src/Crc/Tests.antt =====
-- The checksum of "123456789".
use blesk_os_fork.Base.{◌≡◌, refl, arith, ◌%◌, ◌+◌}
use blesk_os_fork.Crc.{calculate_crc32_checksum, crc_bits, crc_bytes}
use blesk_os_fork.Crc.Standard.{crc32, calculate_crc32_checksum-crc32}
use blesk_os_fork.Strings.{String}

abbrev nine_digits : String
nine_digits k = (49 + k) % 256

check_value : calculate_crc32_checksum nine_digits 9 ≡ 0xCBF43926
unfolding calculate_crc32_checksum crc_bits crc_bytes
check_value = refl

calculate_crc32_checksum-crc32_example :
    calculate_crc32_checksum nine_digits 9 ≡ crc32 nine_digits 9
calculate_crc32_checksum-crc32_example =
    calculate_crc32_checksum-crc32 nine_digits 9 (λ j. omega arith)

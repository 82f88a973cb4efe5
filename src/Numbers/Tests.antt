-- ===== src/Numbers/Tests.antt =====
-- Numbers in strings at concrete values.
use blesk_os_fork.Base.{◌≡◌, refl, inl, inr, arith}
use blesk_os_fork.Numbers.{
  convert_byte_string_to_number, convert_number_to_byte_string, reverse_endian_in_dword,
}
use blesk_os_fork.Numbers.RoundTrip.{
  IsEnd, convert_byte_string_to_number-convert_number_to_byte_string,
}
use blesk_os_fork.Strings.{String}

abbrev cleared : String
cleared k = 0

convert_byte_string_to_number-convert_number_to_byte_string_example :
    convert_byte_string_to_number (convert_number_to_byte_string 4096 cleared) ≡ 4096
unfolding IsEnd
convert_byte_string_to_number-convert_number_to_byte_string_example =
    convert_byte_string_to_number-convert_number_to_byte_string 4096 cleared (omega arith)
      (inr (inl (omega arith)))

reversed : reverse_endian_in_dword 0x12345678 ≡ 0x78563412
unfolding reverse_endian_in_dword
reversed = refl

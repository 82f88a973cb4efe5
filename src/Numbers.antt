-- ===== src/Numbers.antt =====
-- source/libraries/basic/math.c: byte order, digits, and numbers in strings.
use blesk_os_fork.Base.{
  ℕ, zero, suc, ◌+◌, ◌-◌, ◌*◌, ◌/◌, ◌%◌, ◌^◌, Bool, ◌&&◌, ◌||◌, not, ltb, leb, ◌==◌, if◌then◌else◌,
  u8, u16, u32, add32, bit_or, ◌<<◌, ◌>>◌, List, replicate, map, get_or, set, length,
}
use blesk_os_fork.Strings.{String, is_between}
pub mod Endian
pub mod Decimal
pub mod RoundTrip
mod Tests

-- The bytes of a number in the order of memory: the lowest first.
abbrev pub byte_of : ℕ → ℕ → ℕ
byte_of value i = u8 (value >> (8 * i))

-- `(mem[0]<<8) | mem[1]` and `(mem[0]<<24) | (mem[1]<<16) | (mem[2]<<8) | mem[3]`
unfoldable pub convert_big_endian_word_to_little_endian : String → ℕ
convert_big_endian_word_to_little_endian mem = u16 (bit_or (mem 0 << 8) (mem 1))

unfoldable pub convert_big_endian_dword_to_little_endian : String → ℕ
convert_big_endian_dword_to_little_endian mem =
    u32 (bit_or (bit_or (bit_or (mem 0 << 24) (mem 1 << 16)) (mem 2 << 8)) (mem 3))

unfoldable pub reverse_endian_in_word : ℕ → ℕ
reverse_endian_in_word value = u16 (bit_or (byte_of value 0 << 8) (byte_of value 1))

unfoldable pub reverse_endian_in_dword : ℕ → ℕ
reverse_endian_in_dword value = u32 (
    bit_or (bit_or (bit_or (byte_of value 0 << 24) (byte_of value 1 << 16)) (byte_of value 2 << 8))
      (byte_of value 3))

-- `value *= multiply_value`, n times.
unfoldable pub multiply : ℕ → ℕ → ℕ → ℕ
multiply zero by value = value
multiply (suc n) by value = multiply n by (u32 (value * by))

unfoldable pub power : ℕ → ℕ → ℕ
power value exponent = if exponent == 0 then 1 else multiply (exponent - 1) value value

-- `number /= 10; digits++`, while the number is not 0. A number of 32 bits has at most 10 digits.
unfoldable pub count_digits : ℕ → ℕ → ℕ → ℕ
count_digits zero number digits = digits
count_digits (suc fuel) number digits =
    let rest = count_digits fuel (number / 10) (digits + 1) in if ltb 0 number then rest else digits

unfoldable pub get_number_of_digits_in_number : ℕ → ℕ
get_number_of_digits_in_number number = if number == 0 then 1 else count_digits 10 number 0

-- The loop of the decimal readers from index `i` on.
unfoldable pub read_number : ℕ → ℕ → String → ℕ → ℕ
read_number zero i string number = number
read_number (suc n) i string number =
    let rest = read_number n (i + 1) string (u32 (u32 (number * 10) + (string i - 48))) in
    if ltb (string i) 48 || ltb 57 (string i) then number else rest

unfoldable pub convert_byte_string_to_number : String → ℕ
convert_byte_string_to_number string = read_number 10 0 string 0

unfoldable pub convert_word_string_to_number : String → ℕ
convert_word_string_to_number string = read_number 10 0 string 0

-- The value of a hexadecimal digit.
abbrev pub hex_digit : ℕ → ℕ
hex_digit c =
    if is_between 48 57 c then c - 48 else if is_between 97 102 c then c - 97 + 10 else c - 65 + 10

unfoldable pub read_hex_number : ℕ → ℕ → String → ℕ → ℕ
read_hex_number zero i string number = number
read_hex_number (suc n) i string number =
    let rest = read_hex_number n (i + 1) string (u32 (u32 (number << 4) + hex_digit (string i))) in
    if is_between 48 57 (string i) || is_between 97 102 (string i) || is_between 65 70 (string i)
    then rest
    else number

unfoldable pub convert_hex_string_to_number : String → ℕ
convert_hex_string_to_number string = read_hex_number 8 0 string 0

unfoldable pub convert_hex_word_string_to_number : String → ℕ
convert_hex_word_string_to_number string = read_hex_number 8 0 string 0

-- The digits in the array `number_string`, and how many there are.
pub record Digits : Type 0 where
  pub number_string : List ℕ
  pub number_digits : ℕ

-- The loop over `i` from 10 down to 1: at `suc i` it writes there.
unfoldable pub write_digits : ℕ → ℕ → Digits → Digits
write_digits zero number d = d
write_digits (suc i) number d =
    let s : Digits = record {
      number_string = set d.number_string (suc i) (number % 10);
      number_digits = d.number_digits + 1;
    } in
    let rest = write_digits i (number / 10) s in if number / 10 == 0 then s else rest

-- The first three loops of the decimal writers.
unfoldable pub number_digits_of : ℕ → Digits
number_digits_of number =
    let d = write_digits 10 number (record { number_string = replicate 11 0; number_digits = 0 }) in
    record d { number_string = map (λ digit. u16 (digit + 48)) d.number_string }

abbrev pub write_char : String → ℕ → ℕ → String
write_char string i c k = if k == i then c else string k

-- The last loop from index `i` on; `narrow` is the width of the characters of the string.
unfoldable pub copy_digits : (ℕ → ℕ) → ℕ → ℕ → Digits → String → String
copy_digits narrow zero i d string = string
copy_digits narrow (suc n) i d string =
    copy_digits narrow n (i + 1) d
      (write_char string i (narrow (get_or d.number_string (11 - d.number_digits + i) 0)))

unfoldable pub convert_number_to_byte_string : ℕ → String → String
convert_number_to_byte_string number string =
    let d = number_digits_of number in copy_digits u8 d.number_digits 0 d string

unfoldable pub convert_number_to_word_string : ℕ → String → String
convert_number_to_word_string number string =
    let d = number_digits_of number in copy_digits u16 d.number_digits 0 d string

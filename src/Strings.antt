-- ===== src/Strings.antt =====
-- source/libraries/basic/strings.c: comparisons, classes of characters and lengths. A string is what
-- stands at each index from its first character on, bytes or words.
pub mod Compare
mod Tests
use blesk_os_fork.Base.{
  [], ◌∷◌, List, ℕ, zero, suc, ◌+◌, ◌-◌, Bool, ◌&&◌, ◌||◌, not, leb, ◌==◌, if◌then◌else◌, u16,
  Option, none, some,
}

abbrev pub String : Type 0
String = ℕ → ℕ

abbrev pub status_true : ℕ
status_true = 1

abbrev pub status_false : ℕ
status_false = 0

abbrev pub status_error : ℕ
status_error = 0

-- The loop of `is_memory_equal_with_memory` from index `i` on, with `n` rounds left.
unfoldable pub equal_from : ℕ → ℕ → String → String → ℕ
equal_from zero i a b = status_true
equal_from (suc n) i a b =
    let rest = equal_from n (i + 1) a b in if not (a i == b i) then status_false else rest

unfoldable pub is_memory_equal_with_memory : String → String → ℕ → ℕ
is_memory_equal_with_memory a b n = equal_from n 0 a b

-- The loop of the comparisons of two strings; `none` means that the fuel ran out.
unfoldable pub are_equal_from : ℕ → ℕ → String → String → Option ℕ
are_equal_from zero i a b = none
are_equal_from (suc fuel) i a b =
    let rest = are_equal_from fuel (i + 1) a b in
    if not (a i == 0) && not (b i == 0)
    then (if not (a i == b i) then some status_false else rest)
    else some status_true

-- The three comparisons differ in the widths of the characters alone.
unfoldable pub are_equal_b_string_b_string : ℕ → String → String → Option ℕ
are_equal_b_string_b_string fuel a b = are_equal_from fuel 0 a b

unfoldable pub are_equal_b_string_w_string : ℕ → String → String → Option ℕ
are_equal_b_string_w_string fuel a b = are_equal_from fuel 0 a b

unfoldable pub are_equal_w_string_w_string : ℕ → String → String → Option ℕ
are_equal_w_string_w_string fuel a b = are_equal_from fuel 0 a b

abbrev pub is_between : ℕ → ℕ → ℕ → Bool
is_between low high value = leb low value && leb value high

unfoldable pub is_char : ℕ → ℕ
is_char value =
    if is_between 65 90 value || is_between 97 122 value || is_between 48 57 value
    then status_true
    else status_false

unfoldable pub is_number : ℕ → ℕ
is_number value = if is_between 48 57 value then status_true else status_false

unfoldable pub is_hex_number : ℕ → ℕ
is_hex_number value =
    if is_between 65 70 value || is_between 97 102 value || is_between 48 57 value
    then status_true
    else status_false

unfoldable pub get_small_char_value : ℕ → ℕ
get_small_char_value value = if is_between 65 90 value then u16 (value + 0x20) else value

unfoldable pub get_big_char_value : ℕ → ℕ
get_big_char_value value = if is_between 97 122 value then value - 0x20 else value

-- The loop of the lengths with `n` of its 100000 rounds left.
unfoldable pub count_from : ℕ → ℕ → String → ℕ
count_from zero i s = status_error
count_from (suc n) i s = let rest = count_from n (i + 1) s in if s i == 0 then i else rest

unfoldable pub get_number_of_chars_in_ascii_string : String → ℕ
get_number_of_chars_in_ascii_string s = count_from 100000 0 s

unfoldable pub get_number_of_chars_in_unicode_string : String → ℕ
get_number_of_chars_in_unicode_string s = count_from 100000 0 s

-- A `switch`: the value of the first case that fits.
abbrev pub case_of : ℕ → List (ℕ × ℕ) → ℕ → ℕ
case_of value [] otherwise = otherwise
case_of value ((c, r) ∷ cases) otherwise = if value == c then r else case_of value cases otherwise

unfoldable pub get_unicode_char_with_diacritic : ℕ → ℕ → ℕ
get_unicode_char_with_diacritic value diacritic =
    if diacritic == 0x0301
    then case_of value
        ((97, 0x00E1)
          ∷ (101, 0x00E9)
          ∷ (105, 0x00ED)
          ∷ (108, 0x013A)
          ∷ (111, 0x00F3)
          ∷ (114, 0x0155)
          ∷ (117, 0x00FA)
          ∷ (121, 0x00FD)
          ∷ [])
        value
    else if diacritic == 0x030C
    then case_of value
        ((99, 0x010D)
          ∷ (100, 0x010F)
          ∷ (101, 0x011B)
          ∷ (108, 0x013E)
          ∷ (110, 0x0148)
          ∷ (114, 0x0159)
          ∷ (115, 0x0161)
          ∷ (116, 0x0165)
          ∷ (122, 0x017E)
          ∷ [])
        value
    else value

-- ===== src/Utf8.antt =====
-- source/libraries/text_formats/utf-8.c: the conversions between UTF-8 and 16-bit characters.
use blesk_os_fork.Base.{
  ℕ, zero, suc, ◌+◌, ◌-◌, ◌*◌, Bool, ltb, ◌==◌, if◌then◌else◌, List, [], ◌∷◌, ◌++◌, Option, none,
  some, length, u8, bit_and, bit_or, ◌<<◌, ◌>>◌,
}
use blesk_os_fork.Memory.{Memory}
use blesk_os_fork.Memory.Holds.{byte_at}
pub mod Tables
pub mod RoundTrip
mod Tests

-- How far the reader moves at a first byte `b`.
unfoldable pub utf_8_width : ℕ → ℕ
utf_8_width b =
    if ltb b 0x80
    then 1
    else if bit_and b 0xE0 == 0xC0
    then 2
    else if bit_and b 0xF0 == 0xE0
    then 3
    else if bit_and b 0xF8 == 0xF0
    then 4
    else 1

-- The character that it writes; for four bytes and for a byte that starts nothing it writes none.
unfoldable pub unicode_char : ℕ → ℕ → ℕ → Option ℕ
unicode_char b0 b1 b2 =
    if ltb b0 0x80
    then some b0
    else if bit_and b0 0xE0 == 0xC0
    then some (bit_or (bit_and b1 0x3F) (bit_and b0 0x1F << 6))
    else if bit_and b0 0xF0 == 0xE0
    then some (bit_or (bit_or (bit_and b2 0x3F) (bit_and b1 0x3F << 6)) (bit_and b0 0x0F << 12))
    else none

abbrev pub write_unicode : Option ℕ → List ℕ → List ℕ
write_unicode none cs = cs
write_unicode (some c) cs = c ∷ cs

-- The characters that are written for the text at `a`, before the terminating 0, within `max_chars`
-- rounds.
unfoldable pub convert_utf_8_to_unicode : Memory → ℕ → ℕ → List ℕ
convert_utf_8_to_unicode m a zero = []
convert_utf_8_to_unicode m a (suc max_chars) =
    let b = byte_at m a in
    let rest = convert_utf_8_to_unicode m (a + utf_8_width b) max_chars in
    if b == 0
    then []
    else write_unicode (unicode_char b (byte_at m (a + 1)) (byte_at m (a + 2))) rest

-- The bytes of one character.
unfoldable pub utf_8_bytes : ℕ → List ℕ
utf_8_bytes c =
    if ltb c 0x80
    then u8 c ∷ []
    else if ltb c 0x800
    then u8 (bit_or (bit_and (c >> 6) 0x1F) 0xC0) ∷ u8 (bit_or (bit_and c 0x3F) 0x80) ∷ []
    else u8 (bit_or (bit_and (c >> 12) 0x0F) 0xE0)
      ∷ u8 (bit_or (bit_and (c >> 6) 0x1F) 0x80)
      ∷ u8 (bit_or (bit_and c 0x3F) 0x80)
      ∷ []

-- The first loop of `convert_unicode_to_utf_8`: what is added for the characters. The text is the
-- list of its characters; where it ends stands a 0.
unfoldable pub count_bytes : ℕ → List ℕ → ℕ
count_bytes zero cs = 0
count_bytes (suc max_chars) [] = 0
count_bytes (suc max_chars) (c ∷ cs) =
    let rest = count_bytes max_chars cs in
    if c == 0 then 0 else (if ltb c 0x80 then 1 else if ltb c 0x800 then 2 else 3) + rest

-- The size of the converted file: a zero char stands at its end.
unfoldable pub converted_file_size : ℕ → List ℕ → ℕ
converted_file_size max_chars cs = count_bytes max_chars cs + 1

-- The second loop: the bytes that are written.
unfoldable pub write_chars : ℕ → List ℕ → List ℕ
write_chars zero cs = []
write_chars (suc max_chars) [] = []
write_chars (suc max_chars) (c ∷ cs) =
    let rest = write_chars max_chars cs in if c == 0 then [] else utf_8_bytes c ++ rest

unfoldable pub convert_unicode_to_utf_8 : ℕ → List ℕ → List ℕ
convert_unicode_to_utf_8 max_chars cs = write_chars max_chars cs ++ (0 ∷ [])

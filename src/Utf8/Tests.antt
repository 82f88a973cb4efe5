-- ===== src/Utf8/Tests.antt =====
-- A text with characters of every length, one of which loses a bit.
use blesk_os_fork.Base.{ℕ, zero, suc, ◌≡◌, refl, arith, List, [], ◌∷◌, get_or}
use blesk_os_fork.Memory.{Memory}
use blesk_os_fork.Memory.Holds.{Holds}
use blesk_os_fork.Utf8.{
  convert_utf_8_to_unicode, convert_unicode_to_utf_8, write_chars, utf_8_bytes,
}
use blesk_os_fork.Utf8.RoundTrip.{IsText, convert_utf_8_to_unicode-convert_unicode_to_utf_8}

abbrev text : List ℕ
text = 0x41 ∷ 0xE9 ∷ 0x20AC ∷ 0x905 ∷ []

abbrev text_bytes : List ℕ
text_bytes = 0x41 ∷ 0xC3 ∷ 0xA9 ∷ 0xE2 ∷ 0x82 ∷ 0xAC ∷ 0xE0 ∷ 0x84 ∷ 0x85 ∷ 0 ∷ []

abbrev text_file : Memory
text_file a = get_or text_bytes a 0

written_text : convert_unicode_to_utf_8 8 text ≡ text_bytes
unfolding convert_unicode_to_utf_8 write_chars utf_8_bytes
written_text = refl

text_bytes-Holds : Holds text_file 0 text_bytes
unfolding Holds
text_bytes-Holds = omega arith

text-IsText : IsText text
unfolding IsText
text-IsText zero h = omega arith
text-IsText (suc zero) h = omega arith
text-IsText (suc (suc zero)) h = omega arith
text-IsText (suc (suc (suc zero))) h = omega arith
text-IsText (suc (suc (suc (suc i)))) h = absurd (omega arith)

convert_utf_8_to_unicode-convert_unicode_to_utf_8_example :
    convert_utf_8_to_unicode text_file 0 9 ≡ 0x41 ∷ 0xE9 ∷ 0x20AC ∷ 0x105 ∷ []
convert_utf_8_to_unicode-convert_unicode_to_utf_8_example =
    convert_utf_8_to_unicode-convert_unicode_to_utf_8 text_file 0 8 9 text text-IsText (omega arith)
      (omega arith) (rw written_text text_bytes-Holds)

-- ===== src/BitStream/Codes.antt =====
-- Codes of a Huffman table that are written to a bit stream and looked up again.
use native.Mathlib.Nat.{mod-eq_of_lt}
use blesk_os_fork.Base.{
  ℕ, ◌%◌, ◌^◌, ◌<◌, ◌≤◌, ◌≡◌, ◌≢◌, refl, ap, ◌∙◌, sym, true, false, ltb, ◌==◌, arith, List, [], ◌∷◌,
  ◌++◌, bit_and, ==_true, ==_false,
}
use blesk_os_fork.Base.Bits.{bit_and-low}
use blesk_os_fork.BitStream.{
  BitStream, CodeEntry, HuffmanTable, mask, length_of_code, code_of, used_entries, find_code,
  write_codes, move_pointers, bit_stream_write_value, huffman_table_parse_one_value,
  huffman_table_add_one_value,
}
use blesk_os_fork.BitStream.Written.{IsFresh, mask_power, word_written}
use blesk_os_fork.Memory.{Memory}

-- The entries have other results.
unfoldable pub OtherResults : ℕ → List CodeEntry → Type 0
OtherResults result [] = 0 < 1
OtherResults result (e ∷ es) = (e.result ≢ result) × OtherResults result es

-- No code of the entries is a beginning of the code.
unfoldable pub NoBeginning : ℕ → List CodeEntry → Type 0
NoBeginning code [] = 0 < 1
NoBeginning code (e ∷ es) =
    (length_of_code e ≤ 24) × (code % 2 ^ length_of_code e ≢ code_of e) × NoBeginning code es

-- The entry is the only one of its result, and the lookup of its code does not stop at an entry before.
pub record IsCoded (t : HuffmanTable) (before : List CodeEntry) (e : CodeEntry)
    (after : List CodeEntry) : Type 0 where
  pub made : 2 ≤ t.first_free_entry
  pub used : used_entries t ≡ before ++ (e ∷ after)
  pub short : length_of_code e ≤ 24
  pub code_fits : code_of e < 2 ^ length_of_code e
  pub unlike_before : OtherResults e.result before
  pub unlike_after : OtherResults e.result after
  pub prefix_free : NoBeginning (code_of e) before

write_codes_others :
    (es : List CodeEntry) (value : ℕ) (m : Memory) (s : BitStream)
    → OtherResults value es
    → write_codes es value m s ≡ (m, s)
unfolding write_codes OtherResults
write_codes_others [] value m s other = refl
write_codes_others (e ∷ es) value m s other =
    rw (==_false other.0) (write_codes_others es value m s other.1)

write_codes_only :
    (before : List CodeEntry) (e : CodeEntry) (after : List CodeEntry) (m : Memory) (s : BitStream)
    → OtherResults e.result before
    → OtherResults e.result after
    → write_codes (before ++ (e ∷ after)) e.result m s
      ≡ bit_stream_write_value (length_of_code e) (code_of e) m s
unfolding write_codes OtherResults
write_codes_only [] e after m s other rest =
    let same : (e.result == e.result) ≡ true = ==_true refl in
    rw same (
      write_codes_others after e.result
        (bit_stream_write_value (length_of_code e) (code_of e) m s).0
        (bit_stream_write_value (length_of_code e) (code_of e) m s).1 rest)
write_codes_only (b ∷ before) e after m s other rest =
    rw (==_false other.0) (write_codes_only before e after m s other.1 rest)

-- The test of one entry.
masked : (code bits : ℕ) → bits ≤ 24 → bit_and code (mask bits) ≡ code % 2 ^ bits
masked code bits few = ap (λ x. bit_and code x) (mask_power bits few) ∙ bit_and-low bits code

find_code_first :
    (before : List CodeEntry) (e : CodeEntry) (after : List CodeEntry) (s : BitStream)
    → NoBeginning (code_of e) before
    → length_of_code e ≤ 24
    → code_of e < 2 ^ length_of_code e
    → find_code (before ++ (e ∷ after)) (code_of e) s
      ≡ (e.result, move_pointers (length_of_code e) s)
unfolding find_code NoBeginning
find_code_first [] e after s none few fits =
    let same : bit_and (code_of e) (mask (length_of_code e)) ≡ code_of e =
      masked (code_of e) (length_of_code e) few ∙ mod-eq_of_lt fits in
    rw (==_true same) refl
find_code_first (b ∷ before) e after s (short, unlike, none) few fits =
    let differs : bit_and (code_of e) (mask (length_of_code b)) ≢ code_of b =
      λ h. unlike (sym (masked (code_of e) (length_of_code b) short) ∙ h) in
    rw (==_false differs) (find_code_first before e after s none few fits)

writer_moves :
    (bits v : ℕ) (m : Memory) (s : BitStream)
    → (bit_stream_write_value bits v m s).1 ≡ move_pointers bits s
unfolding bit_stream_write_value
writer_moves bits v m s = refl

-- A value whose code is written by the table where nothing stands is looked up again by the same table,
-- and the reader moves as far as the writer did: if the value has one entry, with a code of at most 24
-- bits that fits its length, and no code that stands before it in the table is a beginning of it.
pub huffman_table_parse_one_value-huffman_table_add_one_value :
    (t : HuffmanTable) (before : List CodeEntry) (e : CodeEntry) (after : List CodeEntry)
    (m : Memory) (s : BitStream)
    → IsCoded t before e after
    → IsFresh m s
    → huffman_table_parse_one_value t (huffman_table_add_one_value t e.result m s).0 s
      ≡ (e.result, (huffman_table_add_one_value t e.result m s).1)
unfolding huffman_table_parse_one_value huffman_table_add_one_value
huffman_table_parse_one_value-huffman_table_add_one_value t before e after m s coded fresh =
    let is_table : ltb t.first_free_entry 2 ≡ false = ground (arith, coded.made) in
    let written : write_codes (used_entries t) e.result m s
        ≡ bit_stream_write_value (length_of_code e) (code_of e) m s =
      ap (λ es. write_codes es e.result m s) coded.used
      ∙ write_codes_only before e after m s coded.unlike_before coded.unlike_after in
    let word = word_written (length_of_code e) (code_of e) m s coded.short coded.code_fits fresh in
    rw (is_table, written)
      (ap (λ w. find_code (used_entries t) w s) word
        ∙ ap (λ es. find_code es (code_of e) s) coded.used
        ∙ find_code_first before e after s coded.prefix_free coded.short coded.code_fits
        ∙ ap (λ u. (e.result, u)) (sym (writer_moves (length_of_code e) (code_of e) m s)))

-- ===== src/Utf8/RoundTrip.antt =====
-- Reading back the text that the writer wrote.
use blesk_os_fork.Base.{
  sym, ==_true, ltb, ℕ, zero, suc, ◌+◌, ◌≤◌, ◌<◌, ◌≡◌, ◌≢◌, refl, ◌∙◌, ap, ==_false, if◌then◌else◌,
  arith, List, [], ◌∷◌, ◌++◌, map, get_or, length, length-append, append_assoc,
}
use blesk_os_fork.Memory.{Memory}
use blesk_os_fork.Memory.Holds.{Holds-at, byte_at, Holds, Holds-append}
use blesk_os_fork.Utf8.{
  convert_utf_8_to_unicode, convert_unicode_to_utf_8, converted_file_size, count_bytes, write_chars,
  utf_8_bytes, utf_8_width, unicode_char,
}
use blesk_os_fork.Utf8.Tables.{kept, IsReturned, utf_8_bytes-IsReturned}
use mathlib.Core.Path.{subst}

length-utf_8_bytes :
    (c : ℕ) → length (utf_8_bytes c) ≡ (if ltb c 0x80 then 1 else if ltb c 0x800 then 2 else 3)
unfolding utf_8_bytes
length-utf_8_bytes c = ground arith

length-write_chars : (n : ℕ) (cs : List ℕ) → length (write_chars n cs) ≡ count_bytes n cs
unfolding write_chars count_bytes
length-write_chars zero cs = refl
length-write_chars (suc n) [] = refl
length-write_chars (suc n) (c ∷ cs) = ground (
  arith,
  length-append (utf_8_bytes c) (write_chars n cs),
  length-utf_8_bytes c,
  length-write_chars n cs,
)

-- The file is exactly as long as the memory that is allocated for it.
pub length-convert_unicode_to_utf_8 :
    (max_chars : ℕ) (cs : List ℕ)
    → length (convert_unicode_to_utf_8 max_chars cs) ≡ converted_file_size max_chars cs
unfolding convert_unicode_to_utf_8 converted_file_size
length-convert_unicode_to_utf_8 n cs =
    omega (arith, length-append (write_chars n cs) (0 ∷ []), length-write_chars n cs)

-- A text: no character is 0, and each has 16 bits.
unfoldable pub IsText : List ℕ → Type 0
IsText cs = (i : ℕ) → i < length cs → (0 < get_or cs i 0) × (get_or cs i 0 < 0x10000)

IsText-first : (c : ℕ) (cs : List ℕ) → IsText (c ∷ cs) → (0 < c) × (c < 0x10000)
unfolding IsText
IsText-first c cs h = h 0 (omega arith)

IsText-rest : (c : ℕ) (cs : List ℕ) → IsText (c ∷ cs) → IsText cs
unfolding IsText
IsText-rest c cs h i lt = h (suc i) (omega arith)

-- The reader takes a character whose bytes stand at its position.
convert_utf_8_to_unicode-char :
    (m : Memory) (a n c k : ℕ)
    → IsReturned c (byte_at m a) (byte_at m (a + 1)) (byte_at m (a + 2)) k
    → convert_utf_8_to_unicode m a (suc n) ≡ kept c ∷ convert_utf_8_to_unicode m (a + k) n
unfolding convert_utf_8_to_unicode
convert_utf_8_to_unicode-char m a n c k r = rw (==_false r.first, r.char, r.width) refl

-- Bytes behind a character are not looked at.
unicode_char_same :
    (b0 b1 b2 c1 c2 : ℕ)
    → (2 ≤ utf_8_width b0 → b1 ≡ c1)
    → (3 ≤ utf_8_width b0 → b2 ≡ c2)
    → unicode_char b0 b1 b2 ≡ unicode_char b0 c1 c2
unfolding unicode_char utf_8_width
unicode_char_same b0 b1 b2 c1 c2 h1 h2 = ground (arith, h1, h2)

utf_8_bytes_nonempty : (c : ℕ) → 0 < length (utf_8_bytes c)
utf_8_bytes_nonempty c = ground (arith, length-utf_8_bytes c)

IsReturned-Holds :
    (m : Memory) (a c : ℕ)
    → c < 0x10000
    → c ≢ 0
    → Holds m a (utf_8_bytes c)
    → IsReturned c (byte_at m a) (byte_at m (a + 1)) (byte_at m (a + 2)) (length (utf_8_bytes c))
IsReturned-Holds m a c lt ne h =
    let bs = utf_8_bytes c in
    let r = utf_8_bytes-IsReturned c lt ne in
    let z : a + 0 ≡ a = omega arith in
    let b0 : byte_at m a ≡ get_or bs 0 0 =
      subst (λ i. byte_at m i ≡ get_or bs 0 0) z (Holds-at m a 0 bs h (utf_8_bytes_nonempty c)) in
    record {
      first = λ e. r.first (sym b0 ∙ e);
      width = ap utf_8_width b0 ∙ r.width;
      char =
          unicode_char_same (byte_at m a) (byte_at m (a + 1)) (byte_at m (a + 2)) (get_or bs 1 0)
            (get_or bs 2 0)
            (λ two. Holds-at m a 1 bs h (omega (arith, two, ap utf_8_width b0, r.width)))
            (λ three. Holds-at m a 2 bs h (omega (arith, three, ap utf_8_width b0, r.width)))
          ∙ ap (λ b. unicode_char b (get_or bs 1 0) (get_or bs 2 0)) b0
          ∙ r.char;
    }

-- The terminating 0 ends the text.
convert_utf_8_to_unicode_end :
    (m : Memory) (a n : ℕ) → byte_at m a ≡ 0 → convert_utf_8_to_unicode m a n ≡ []
unfolding convert_utf_8_to_unicode
convert_utf_8_to_unicode_end m a zero h = refl
convert_utf_8_to_unicode_end m a (suc n) h = rw (==_true h) refl

-- A text of 16-bit characters that is written as UTF-8 and read again comes back, within as many
-- rounds as it has characters, but for the bit of weight 0x800 of the characters from 0x800 on,
-- which is cleared.
pub convert_utf_8_to_unicode-convert_unicode_to_utf_8 :
    (m : Memory) (a n k : ℕ) (cs : List ℕ)
    → IsText cs
    → length cs ≤ n
    → length cs ≤ k
    → Holds m a (convert_unicode_to_utf_8 n cs)
    → convert_utf_8_to_unicode m a k ≡ map kept cs
unfolding convert_unicode_to_utf_8 write_chars Holds
convert_utf_8_to_unicode-convert_unicode_to_utf_8 m a zero k [] t p q h =
    convert_utf_8_to_unicode_end m a k h.0
convert_utf_8_to_unicode-convert_unicode_to_utf_8 m a (suc n) k [] t p q h =
    convert_utf_8_to_unicode_end m a k h.0
convert_utf_8_to_unicode-convert_unicode_to_utf_8 m a zero k (c ∷ cs) t p q h = absurd (omega arith)
convert_utf_8_to_unicode-convert_unicode_to_utf_8 m a (suc n) zero (c ∷ cs) t p q h =
    absurd (omega arith)
convert_utf_8_to_unicode-convert_unicode_to_utf_8 m a (suc n) (suc k) (c ∷ cs) t p q h =
    let f = IsText-first c cs t in
    let ne : c ≢ 0 = omega (arith, f.0) in
    let chars : write_chars (suc n) (c ∷ cs) ++ (0 ∷ [])
        ≡ utf_8_bytes c ++ (write_chars n cs ++ (0 ∷ [])) =
      rw (==_false ne) (append_assoc (utf_8_bytes c) (write_chars n cs) (0 ∷ [])) in
    let both =
      Holds-append m a (utf_8_bytes c) (write_chars n cs ++ (0 ∷ [])) (subst (Holds m a) chars h) in
    rw (convert_utf_8_to_unicode-char m a k c _ (IsReturned-Holds m a c f.1 ne both.0)) (
      ap (λ ds. kept c ∷ ds)
        (convert_utf_8_to_unicode-convert_unicode_to_utf_8 m (a + length (utf_8_bytes c)) n k cs
          (IsText-rest c cs t) (omega arith) (omega arith) both.1))

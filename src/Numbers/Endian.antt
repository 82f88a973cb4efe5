-- ===== src/Numbers/Endian.antt =====
-- Reversing the bytes of a number.
use blesk_os_fork.Base.{ℕ, ◌+◌, ◌*◌, ◌^◌, ◌<◌, ◌≡◌, refl, ap, ◌∙◌, arith, u16, u32, bit_or, ◌<<◌}
use blesk_os_fork.Base.Bits.{bit_or-below}
use blesk_os_fork.Numbers.{
  reverse_endian_in_word, reverse_endian_in_dword, byte_of,
  convert_big_endian_dword_to_little_endian,
}

-- Four bytes side by side.
pub join_bytes :
    (a b c d : ℕ)
    → b < 2 ^ 8
    → c < 2 ^ 8
    → d < 2 ^ 8
    → bit_or (bit_or (bit_or (a << 24) (b << 16)) (c << 8)) d
      ≡ ((a * 2 ^ 8 + b) * 2 ^ 8 + c) * 2 ^ 8 + d
join_bytes a b c d hb hc hd =
    let x : ℕ = a * 2 ^ 8 + b in
    let y : ℕ = x * 2 ^ 8 + c in
    let first : bit_or (a << 24) (b << 16) ≡ x * 2 ^ 16 =
      bit_or-below 24 a (b << 16) (omega arith) ∙ omega arith in
    let second : bit_or (x * 2 ^ 16) (c << 8) ≡ y * 2 ^ 8 =
      bit_or-below 16 x (c << 8) (omega arith) ∙ omega arith in
    ap (λ r. bit_or (bit_or r (c << 8)) d) first
    ∙ ap (λ r. bit_or r d) second
    ∙ bit_or-below 8 y d hd

pub reverse_endian_in_dword_lem :
    (v : ℕ)
    → reverse_endian_in_dword v
      ≡ ((byte_of v 0 * 2 ^ 8 + byte_of v 1) * 2 ^ 8 + byte_of v 2) * 2 ^ 8 + byte_of v 3
unfolding reverse_endian_in_dword
reverse_endian_in_dword_lem v =
    ap u32 (
      join_bytes (byte_of v 0) (byte_of v 1) (byte_of v 2) (byte_of v 3) (omega arith) (omega arith)
        (omega arith))
    ∙ omega arith

-- Reversing twice gives the number back.
pub reverse_endian_in_dword_twice :
    (v : ℕ) → v < 2 ^ 32 → reverse_endian_in_dword (reverse_endian_in_dword v) ≡ v
reverse_endian_in_dword_twice v h =
    omega (
      arith,
      reverse_endian_in_dword_lem (reverse_endian_in_dword v),
      reverse_endian_in_dword_lem v,
    )

reverse_endian_in_word_lem : (v : ℕ) → reverse_endian_in_word v ≡ byte_of v 0 * 2 ^ 8 + byte_of v 1
unfolding reverse_endian_in_word
reverse_endian_in_word_lem v =
    ap u16 (bit_or-below 8 (byte_of v 0) (byte_of v 1) (omega arith)) ∙ omega arith

pub reverse_endian_in_word_twice :
    (v : ℕ) → v < 2 ^ 16 → reverse_endian_in_word (reverse_endian_in_word v) ≡ v
reverse_endian_in_word_twice v h =
    omega
      (arith, reverse_endian_in_word_lem (reverse_endian_in_word v), reverse_endian_in_word_lem v)

-- What `convert_big_endian_dword_to_little_endian` reads is the reverse of the number that stands in
-- memory lowest byte first.
pub convert_big_endian-reverse_endian :
    (v : ℕ) → convert_big_endian_dword_to_little_endian (byte_of v) ≡ reverse_endian_in_dword v
unfolding convert_big_endian_dword_to_little_endian reverse_endian_in_dword
convert_big_endian-reverse_endian v = refl

-- ===== src/Crc/Standard.antt =====
-- The checksum against the usual definition, which adds a whole byte at once.
use blesk_os_fork.Base.{
  inr, inl, ℕ, zero, suc, ◌+◌, ◌-◌, ◌/◌, ◌%◌, ◌<◌, ◌≡◌, refl, ap, ◌∙◌, sym, ◌==◌, if◌then◌else◌,
  arith, bit_and, bit_xor, Bool-cases,
}
use blesk_os_fork.Base.Bits.{bit_xor_step, bit_xor_comm, bit_xor_assoc, bit_xor-zero, bit_and-low}
use blesk_os_fork.Crc.{polynomial, crc_bit, crc_bits, crc_bytes, calculate_crc32_checksum}
use blesk_os_fork.Strings.{String}

-- One digit is shifted out, and the polynomial is added if it was 1.
abbrev pub shift_out : ℕ → ℕ
shift_out c = if c % 2 == 1 then bit_xor (c / 2) polynomial else c / 2

unfoldable pub shift_times : ℕ → ℕ → ℕ
shift_times zero c = c
shift_times (suc n) c = shift_times n (shift_out c)

-- The bytes from index `i` on.
unfoldable pub crc32_from : ℕ → ℕ → String → ℕ → ℕ
crc32_from zero i memory c = c
crc32_from (suc n) i memory c = crc32_from n (i + 1) memory (shift_times 8 (bit_xor c (memory i)))

unfoldable pub crc32 : String → ℕ → ℕ
crc32 memory size = 0xFFFFFFFF - crc32_from size 0 memory 0xFFFFFFFF

halved : ℕ → ℕ → ℕ
halved zero b = b
halved (suc n) b = halved n (b / 2)

shift_out-bit_xor : (b c : ℕ) → shift_out (bit_xor c b) ≡ bit_xor (crc_bit b c) (b / 2)
shift_out-bit_xor b c =
    let low : bit_and (bit_xor b c) 0x1 ≡ bit_xor b c % 2 = bit_and-low 1 (bit_xor b c) in
    let odd : bit_xor c b % 2 ≡ bit_xor b c % 2 = ap (λ x. x % 2) (bit_xor_comm c b) in
    let half : bit_xor c b / 2 ≡ bit_xor (c / 2) (b / 2) = omega (arith, bit_xor_step c b) in
    let swap : bit_xor (bit_xor (c / 2) (b / 2)) polynomial
        ≡ bit_xor (bit_xor (c / 2) polynomial) (b / 2) =
      bit_xor_assoc (c / 2) (b / 2) polynomial
      ∙ ap (bit_xor (c / 2)) (bit_xor_comm (b / 2) polynomial)
      ∙ sym (bit_xor_assoc (c / 2) polynomial (b / 2)) in
    elim (Bool-cases (bit_xor b c % 2 == 1)) [
      | inl e ↦ rw (low, odd, e, half) swap
      | inr e ↦ rw (low, odd, e, half) refl
    ]

shift_times-bit_xor :
    (n b c : ℕ) → shift_times n (bit_xor c b) ≡ bit_xor (crc_bits n b c) (halved n b)
unfolding shift_times crc_bits halved
shift_times-bit_xor zero b c = refl
shift_times-bit_xor (suc n) b c =
    ap (shift_times n) (shift_out-bit_xor b c) ∙ shift_times-bit_xor n (b / 2) (crc_bit b c)

-- One byte: bit by bit is the same as at once.
crc_bits-shift_times : (b c : ℕ) → b < 256 → crc_bits 8 b c ≡ shift_times 8 (bit_xor c b)
unfolding halved
crc_bits-shift_times b c h =
    let z : halved 8 b ≡ 0 = omega arith in
    sym
      (shift_times-bit_xor 8 b c ∙ ap (bit_xor (crc_bits 8 b c)) z ∙ bit_xor-zero (crc_bits 8 b c))

crc_bytes-crc32_from :
    (n i c : ℕ) (memory : String)
    → ((j : ℕ) → memory j < 256)
    → crc_bytes n i memory c ≡ crc32_from n i memory c
unfolding crc_bytes crc32_from
crc_bytes-crc32_from zero i c memory h = refl
crc_bytes-crc32_from (suc n) i c memory h =
    rw (crc_bits-shift_times (memory i) c (h i)) (crc_bytes-crc32_from n (i + 1) _ memory h)

-- `calculate_crc32_checksum`, which mixes each bit of the data in when it is shifted out, computes
-- the checksum that adds each byte to the register before its eight shifts.
pub calculate_crc32_checksum-crc32 :
    (memory : String) (size : ℕ)
    → ((j : ℕ) → memory j < 256)
    → calculate_crc32_checksum memory size ≡ crc32 memory size
unfolding calculate_crc32_checksum crc32
calculate_crc32_checksum-crc32 memory size h =
    ap (λ c. 0xFFFFFFFF - c) (crc_bytes-crc32_from size 0 0xFFFFFFFF memory h)

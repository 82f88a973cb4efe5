-- ===== src/BitStream/Written.antt =====
-- What is written to a bit stream is read back.
use blesk_os_fork.Base.{
  ℕ, suc, ◌+◌, ◌-◌, ◌*◌, ◌/◌, ◌^◌, ◌<◌, ◌≤◌, ◌≡◌, ap, ◌∙◌, arith, bit_and, bit_or, ◌>>◌, u32,
}
use blesk_os_fork.Base.Bits.{bit_or-below, bit_and-low}
use blesk_os_fork.BitStream.{
  BitStream, mask, load_dword, write_dword, move_pointers, bit_stream_read_value,
  bit_stream_read_value_without_moving, bit_stream_write_value,
}
use blesk_os_fork.Memory.{Memory}
use native.Mathlib.Nat.{
  pow-le-pow_right, mul-le-mul, mod-eq_of_lt, mul-add-div_right, div-eq_of_lt, one-le-pow,
  one-le-pow,
}

pub mask_power : (bits : ℕ) → bits ≤ 24 → mask bits ≡ 2 ^ bits - 1
mask_power bits small = ground arith

load_dword-write_dword : (m : Memory) (p v : ℕ) → v < 2 ^ 32 → load_dword (write_dword m p v) p ≡ v
load_dword-write_dword m p v below = ground arith

-- Nothing has been written behind the position of the stream, as far as a dword reaches.
pub record IsFresh (m : Memory) (s : BitStream) : Type 0 where
  pub in_byte : s.bit_stream_pointer_shift < 8
  pub clear_behind : load_dword m s.bit_stream_pointer < 2 ^ s.bit_stream_pointer_shift

shifted_below :
    (bits shift v : ℕ) → bits ≤ 24 → shift < 8 → v < 2 ^ bits → v * 2 ^ shift + 2 ^ shift ≤ 2 ^ 31
shifted_below bits shift v few in_byte below =
    let p : 2 ^ bits ≤ 2 ^ 24 = pow-le-pow_right (omega arith) {j = 24} few in
    let q : 2 ^ shift ≤ 2 ^ 7 = pow-le-pow_right (omega arith) {j = 7} (omega arith) in
    let r : suc v ≤ 2 ^ 24 = omega arith in
    let t : suc v * 2 ^ shift ≤ 2 ^ 24 * 2 ^ 7 = mul-le-mul r q in
    let e : suc v * 2 ^ shift ≡ v * 2 ^ shift + 2 ^ shift = grind arith in omega arith

-- The value of the bits that stand behind the position after a write.
pub word_written :
    (bits v : ℕ) (m : Memory) (s : BitStream)
    → bits ≤ 24
    → v < 2 ^ bits
    → IsFresh m s
    → load_dword (bit_stream_write_value bits v m s).0 s.bit_stream_pointer
        >> s.bit_stream_pointer_shift
      ≡ v
unfolding bit_stream_write_value
word_written bits v m s few below fresh =
    let shift = s.bit_stream_pointer_shift in
    let old = load_dword m s.bit_stream_pointer in
    let most = shifted_below bits shift v few fresh.in_byte below in
    let kept : u32 (v * 2 ^ shift) ≡ v * 2 ^ shift = mod-eq_of_lt (omega (arith, most)) in
    let sum : bit_or (u32 (v * 2 ^ shift)) old ≡ v * 2 ^ shift + old =
      ap (λ x. bit_or x old) kept ∙ bit_or-below shift v old fresh.clear_behind in
    let small : v * 2 ^ shift + old < 2 ^ 32 = omega (arith, most, fresh.clear_behind) in
    let positive : 0 < 2 ^ shift = one-le-pow shift 2 (omega arith) in
    ap (λ x. x / 2 ^ shift)
      (ap (λ x. load_dword (write_dword m s.bit_stream_pointer x) s.bit_stream_pointer) sum
        ∙ load_dword-write_dword m s.bit_stream_pointer (v * 2 ^ shift + old) small)
    ∙ mul-add-div_right positive v old
    ∙ ap (λ x. v + x) (div-eq_of_lt fresh.clear_behind)
    ∙ omega arith

-- A value of at most 24 bits that is written where nothing stands is read back from the same position,
-- and the reader moves as far as the writer did.
pub bit_stream_read_value-bit_stream_write_value :
    (bits v : ℕ) (m : Memory) (s : BitStream)
    → bits ≤ 24
    → v < 2 ^ bits
    → IsFresh m s
    → bit_stream_read_value bits (bit_stream_write_value bits v m s).0 s
      ≡ (v, (bit_stream_write_value bits v m s).1)
unfolding bit_stream_read_value bit_stream_read_value_without_moving bit_stream_write_value
bit_stream_read_value-bit_stream_write_value bits v m s few below fresh =
    ap (λ x. (x, move_pointers bits s))
      (ap (λ x. bit_and x (mask bits)) (word_written bits v m s few below fresh)
        ∙ ap (λ x. bit_and v x) (mask_power bits few)
        ∙ bit_and-low bits v
        ∙ mod-eq_of_lt below)

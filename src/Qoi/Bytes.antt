-- ===== src/Qoi/Bytes.antt =====
-- What the bytes of the chunks hold, from a check of every value.
use blesk_os_fork.Base.{
  ◌≢◌, ℕ_discrete, ℕ, zero, suc, ◌+◌, ◌≤◌, ◌<◌, ◌≡◌, refl, Bool, true, ◌&&◌, not, ◌==◌, arith, u8,
  bit_and, bit_or, ◌>>◌,
}
use blesk_os_fork.Qoi.Encode.{diff_byte, luma_byte, luma_differences}

-- Whether a test passes at each of `from`, ..., `from + rounds - 1`.
passes : (ℕ → Bool) → ℕ → ℕ → Bool
passes test from zero = true
passes test from (suc rounds) = test from && passes test (from + 1) rounds

passes-at :
    (rounds from i : ℕ) (test : ℕ → Bool)
    → from ≤ i
    → i < from + rounds
    → passes test from rounds ≡ true
    → test i ≡ true
unfolding passes
passes-at zero from i test lo hi h = absurd (omega arith)
passes-at (suc rounds) from i test lo hi h = elim (ℕ_discrete from i) [
  | yes e ↦ rw (← e) (ground (arith, h))
  | no ne ↦ passes-at rounds (from + 1) i test (omega (arith, ne)) (omega arith) (ground (arith, h))
]

-- A chunk of an index.
is_index : ℕ → Bool
is_index c = not (c == 0xFE) && not (c == 0xFF) && bit_and c 0xC0 == 0x00 && bit_and c 0x3F == c

index_table : passes is_index 0 64 ≡ true
unfolding passes is_index
index_table = refl

pub index_byte :
    (c : ℕ) → c < 64 → (c ≢ 0xFE) × (c ≢ 0xFF) × (bit_and c 0xC0 ≡ 0x00) × (bit_and c 0x3F ≡ c)
unfolding is_index
index_byte c h =
    let t = passes-at 64 0 c is_index (omega arith) (omega arith) index_table in ground (arith, t)

-- A chunk of a run.
is_run : ℕ → Bool
is_run n =
    let c = u8 (bit_or 0xC0 n) in
    not (c == 0xFE) && not (c == 0xFF) && bit_and c 0xC0 == 0xC0 && bit_and c 0x3F == n

run_table : passes is_run 0 62 ≡ true
unfolding passes is_run
run_table = refl

pub run_byte :
    (n : ℕ)
    → n < 62
    → let c = u8 (bit_or 0xC0 n) in
      (c ≢ 0xFE) × (c ≢ 0xFF) × (bit_and c 0xC0 ≡ 0xC0) × (bit_and c 0x3F ≡ n)
unfolding is_run
run_byte n h =
    let t = passes-at 62 0 n is_run (omega arith) (omega arith) run_table in ground (arith, t)

-- A chunk of small differences: each is two less than what its two bits say.
is_diff : ℕ → ℕ → ℕ → Bool
is_diff i j k =
    let c = diff_byte (u8 (i + 254)) (u8 (j + 254)) (u8 (k + 254)) in
    not (c == 0xFE)
    && not (c == 0xFF)
    && bit_and c 0xC0 == 0x40
    && bit_and (c >> 4) 0x3 == i
    && bit_and (c >> 2) 0x3 == j
    && bit_and c 0x3 == k

diff_table : passes (λ i. passes (λ j. passes (is_diff i j) 0 4) 0 4) 0 4 ≡ true
unfolding passes is_diff
diff_table = refl

pub diff_byte_lem :
    (i j k red green blue : ℕ)
    → i < 4
    → j < 4
    → k < 4
    → red ≡ u8 (i + 254)
    → green ≡ u8 (j + 254)
    → blue ≡ u8 (k + 254)
    → let c = diff_byte red green blue in
      (c ≢ 0xFE)
      × (c ≢ 0xFF)
      × (bit_and c 0xC0 ≡ 0x40)
      × (bit_and (c >> 4) 0x3 ≡ i)
      × (bit_and (c >> 2) 0x3 ≡ j)
      × (bit_and c 0x3 ≡ k)
unfolding is_diff
diff_byte_lem i j k red green blue hi hj hk er eg eb =
    let ti =
      passes-at 4 0 i (λ i. passes (λ j. passes (is_diff i j) 0 4) 0 4) (omega arith) (omega arith)
        diff_table in
    let tj = passes-at 4 0 j (λ j. passes (is_diff i j) 0 4) (omega arith) (omega arith) ti in
    let t = passes-at 4 0 k (is_diff i j) (omega arith) (omega arith) tj in
    rw (er, eg, eb) (ground (arith, t))

-- The first byte of a chunk of a green difference.
is_luma : ℕ → Bool
is_luma i =
    let c = luma_byte (u8 (i + 224)) in
    not (c == 0xFE) && not (c == 0xFF) && bit_and c 0xC0 == 0x80 && bit_and c 0x3F == i

luma_table : passes is_luma 0 64 ≡ true
unfolding passes is_luma
luma_table = refl

pub luma_byte_lem :
    (i green : ℕ)
    → i < 64
    → green ≡ u8 (i + 224)
    → let c = luma_byte green in
      (c ≢ 0xFE) × (c ≢ 0xFF) × (bit_and c 0xC0 ≡ 0x80) × (bit_and c 0x3F ≡ i)
unfolding is_luma
luma_byte_lem i green h e =
    let t = passes-at 64 0 i is_luma (omega arith) (omega arith) luma_table in
    rw e (ground (arith, t))

-- Its second byte.
is_pair : ℕ → ℕ → Bool
is_pair i j =
    let c = luma_differences (u8 (i + 248)) (u8 (j + 248)) in
    bit_and (c >> 4) 0xF == i && bit_and c 0xF == j

pair_table : passes (λ i. passes (is_pair i) 0 16) 0 16 ≡ true
unfolding passes is_pair
pair_table = refl

pub luma_differences_lem :
    (i j red blue : ℕ)
    → i < 16
    → j < 16
    → red ≡ u8 (i + 248)
    → blue ≡ u8 (j + 248)
    → let c = luma_differences red blue in (bit_and (c >> 4) 0xF ≡ i) × (bit_and c 0xF ≡ j)
unfolding is_pair
luma_differences_lem i j red blue hi hj er eb =
    let ti =
      passes-at 16 0 i (λ i. passes (is_pair i) 0 16) (omega arith) (omega arith) pair_table in
    let t = passes-at 16 0 j (is_pair i) (omega arith) (omega arith) ti in
    rw (er, eb) (ground (arith, t))

-- ===== src/Base/Bits.antt =====
-- Laws of the operations on binary digits, from what the native operations stand for.
use Prim.Native.Nat.{
  ℕ, zero, suc, ◌+◌, ◌-◌, ◌*◌, ◌/◌, ◌%◌, ◌^◌, ◌≤◌, ◌<◌, min, max, bit_and, bit_or, bit_xor, digits,
  differ, bit_and-bitwise, bit_or-bitwise, bit_xor-bitwise,
}
use mathlib.Core.Path.{◌≡◌, refl, sym, ap, ◌∙◌}
use native.Mathlib.Omega.{arith}
use native.Mathlib.Nat.{pow-suc, mod-lt, mod-eq_of_lt, mul-add-mod_self_right, div-add-mod'}

-- The count of digits to go does not matter as long as it is enough.
module _ (z : ℕ → ℕ) (f : ℕ → ℕ → ℕ) where
  digits_enough : (n k a b : ℕ) → a ≤ n → a ≤ k → digits z f n a b ≡ digits z f k a b
  digits_enough zero zero zero b p q = refl
  digits_enough zero (suc k) zero b p q = refl
  digits_enough (suc n) zero zero b p q = refl
  digits_enough (suc n) (suc k) zero b p q = refl
  digits_enough zero k (suc a) b p q = absurd (omega arith)
  digits_enough (suc n) zero (suc a) b p q = absurd (omega arith)
  digits_enough (suc n) (suc k) (suc a) b p q =
      ap (λ r. r * 2 + f (suc a % 2) (b % 2))
        (digits_enough n k (suc a / 2) (b / 2) (omega arith) (omega arith))

  -- One digit, where both numbers may have run out.
  digits_half :
      (a b : ℕ)
      → z b ≡ z (b / 2) * 2 + f 0 (b % 2)
      → digits z f a a b ≡ digits z f (a / 2) (a / 2) (b / 2) * 2 + f (a % 2) (b % 2)
  digits_half zero b h = h
  digits_half (suc a) b h =
      ap (λ r. r * 2 + f (suc a % 2) (b % 2))
        (digits_enough a (suc a / 2) (suc a / 2) (b / 2) (omega arith) (omega arith))

pub bit_and_half : (a b : ℕ) → bit_and a b ≡ bit_and (a / 2) (b / 2) * 2 + min (a % 2) (b % 2)
bit_and_half a b =
    bit_and-bitwise a b
    ∙ digits_half (λ b. zero) min a b (omega arith)
    ∙ sym (ap (λ r. r * 2 + min (a % 2) (b % 2)) (bit_and-bitwise (a / 2) (b / 2)))

pub bit_or_half : (a b : ℕ) → bit_or a b ≡ bit_or (a / 2) (b / 2) * 2 + max (a % 2) (b % 2)
bit_or_half a b =
    bit_or-bitwise a b
    ∙ digits_half (λ b. b) max a b (omega arith)
    ∙ sym (ap (λ r. r * 2 + max (a % 2) (b % 2)) (bit_or-bitwise (a / 2) (b / 2)))

pub bit_xor_half : (a b : ℕ) → bit_xor a b ≡ bit_xor (a / 2) (b / 2) * 2 + differ (a % 2) (b % 2)
bit_xor_half a b =
    bit_xor-bitwise a b
    ∙ digits_half (λ b. b) differ a b (omega arith)
    ∙ sym (ap (λ r. r * 2 + differ (a % 2) (b % 2)) (bit_xor-bitwise (a / 2) (b / 2)))

bit_or-zero_enough : (n a : ℕ) → a ≤ n → bit_or a 0 ≡ a
bit_or-zero_enough n zero h = bit_or-bitwise 0 0
bit_or-zero_enough zero (suc a) h = absurd (omega arith)
bit_or-zero_enough (suc n) (suc a) h =
    omega (arith, bit_or_half (suc a) 0, bit_or-zero_enough n (suc a / 2) (omega arith))

pub bit_or-zero : (a : ℕ) → bit_or a 0 ≡ a
bit_or-zero a = bit_or-zero_enough a a (omega arith)

bit_and-zero_enough : (n a : ℕ) → a ≤ n → bit_and a 0 ≡ 0
bit_and-zero_enough n zero h = bit_and-bitwise 0 0
bit_and-zero_enough zero (suc a) h = absurd (omega arith)
bit_and-zero_enough (suc n) (suc a) h =
    omega (arith, bit_and_half (suc a) 0, bit_and-zero_enough n (suc a / 2) (omega arith))

pub bit_and-zero : (a : ℕ) → bit_and a 0 ≡ 0
bit_and-zero a = bit_and-zero_enough a a (omega arith)

-- A number of `k` digits below another one.
pub bit_or-below : (k a b : ℕ) → b < 2 ^ k → bit_or (a * 2 ^ k) b ≡ a * 2 ^ k + b
bit_or-below zero a b h = let e : b ≡ 0 = omega arith in rw e (omega (arith, bit_or-zero (a * 1)))
bit_or-below (suc k) a b h =
    let e : a * 2 ^ suc k ≡ a * 2 ^ k * 2 = shift k in
    let half : a * 2 ^ k * 2 / 2 ≡ a * 2 ^ k = omega arith in
    let below : b / 2 < 2 ^ k = omega (arith, h, pow-suc 2 k) in
    rw (e, bit_or_half (a * 2 ^ k * 2) b, half, bit_or-below k a (b / 2) below) (omega arith)
  where
    shift : (k : ℕ) → a * 2 ^ suc k ≡ a * 2 ^ k * 2
    shift k = rw (pow-suc 2 k) (grind arith)

power_positive : (k : ℕ) → 0 < 2 ^ k
power_positive zero = omega arith
power_positive (suc k) = omega (arith, pow-suc 2 k, power_positive k)

mod_double : (p a : ℕ) → 0 < p → a % (p * 2) ≡ a / 2 % p * 2 + a % 2
mod_double p a h =
    let r : ℕ = a / 2 % p * 2 + a % 2 in
    let split : a ≡ a / 2 / p * (p * 2) + r = grind (arith, div-add-mod' (a / 2) p) in
    let small : r < p * 2 = omega (arith, mod-lt (a / 2) h) in
    ap (λ x. x % (p * 2)) split ∙ mul-add-mod_self_right (a / 2 / p) (p * 2) r ∙ mod-eq_of_lt small

-- The mask of the lowest `k` digits.
pub bit_and-low : (k a : ℕ) → bit_and a (2 ^ k - 1) ≡ a % 2 ^ k
bit_and-low zero a = omega (arith, bit_and-zero a)
bit_and-low (suc k) a =
    let p : 0 < 2 ^ k = power_positive k in
    let half : (2 ^ suc k - 1) / 2 ≡ 2 ^ k - 1 = omega (arith, pow-suc 2 k) in
    let odd : (2 ^ suc k - 1) % 2 ≡ 1 = omega (arith, pow-suc 2 k) in
    let step : bit_and a (2 ^ suc k - 1) ≡ bit_and (a / 2) (2 ^ k - 1) * 2 + min (a % 2) 1 =
      bit_and_half a (2 ^ suc k - 1)
      ∙ ap (λ m. bit_and (a / 2) m * 2 + min (a % 2) ((2 ^ suc k - 1) % 2)) half
      ∙ ap (λ r. bit_and (a / 2) (2 ^ k - 1) * 2 + min (a % 2) r) odd in
    step ∙ rw (pow-suc 2 k, mod_double (2 ^ k) a p, bit_and-low k (a / 2)) (omega arith)

differ_bit : (a b : ℕ) → a < 2 → b < 2 → (differ a b ≡ (a + b) % 2)
differ_bit zero zero p q = refl
differ_bit zero (suc zero) p q = refl
differ_bit (suc zero) zero p q = refl
differ_bit (suc zero) (suc zero) p q = refl
differ_bit (suc (suc a)) b p q = absurd (omega arith)
differ_bit zero (suc (suc b)) p q = absurd (omega arith)
differ_bit (suc zero) (suc (suc b)) p q = absurd (omega arith)

-- The lowest digit is the sum's, and the rest is the exclusive or of the rests.
pub bit_xor_step : (a b : ℕ) → bit_xor a b ≡ bit_xor (a / 2) (b / 2) * 2 + (a + b) % 2
bit_xor_step a b =
    omega (arith, bit_xor_half a b, differ_bit (a % 2) (b % 2) (omega arith) (omega arith))

-- The laws of exclusive or, by induction on a bound of the numbers.
bit_xor_comm_below : (n a b : ℕ) → a ≤ n → b ≤ n → bit_xor a b ≡ bit_xor b a
bit_xor_comm_below zero a b p q =
    let x : a ≡ 0 = omega arith in let y : b ≡ 0 = omega arith in rw (x, y) refl
bit_xor_comm_below (suc n) a b p q = omega (
  arith,
  bit_xor_step a b,
  bit_xor_step b a,
  bit_xor_comm_below n (a / 2) (b / 2) (omega arith) (omega arith),
)

pub bit_xor_comm : (a b : ℕ) → bit_xor a b ≡ bit_xor b a
bit_xor_comm a b = bit_xor_comm_below (a + b) a b (omega arith) (omega arith)

pub bit_xor-zero_left : (a : ℕ) → bit_xor 0 a ≡ a
bit_xor-zero_left a = bit_xor-bitwise 0 a

pub bit_xor-zero : (a : ℕ) → bit_xor a 0 ≡ a
bit_xor-zero a = bit_xor_comm a 0 ∙ bit_xor-zero_left a

bit_xor_assoc_below :
    (n a b c : ℕ) → a ≤ n → b ≤ n → c ≤ n → bit_xor (bit_xor a b) c ≡ bit_xor a (bit_xor b c)
bit_xor_assoc_below zero a b c p q r =
    let x : a ≡ 0 = omega arith in
    let y : b ≡ 0 = omega arith in
    let z : c ≡ 0 = omega arith in
    rw (x, y, z) (ap (λ t. bit_xor t 0) (bit_xor-zero 0) ∙ sym (ap (bit_xor 0) (bit_xor-zero 0)))
bit_xor_assoc_below (suc n) a b c p q r =
    let ab : bit_xor a b / 2 ≡ bit_xor (a / 2) (b / 2) = omega (arith, bit_xor_step a b) in
    let bc : bit_xor b c / 2 ≡ bit_xor (b / 2) (c / 2) = omega (arith, bit_xor_step b c) in
    let left =
      bit_xor_step (bit_xor a b) c ∙ ap (λ t. bit_xor t (c / 2) * 2 + (bit_xor a b + c) % 2) ab in
    let right =
      bit_xor_step a (bit_xor b c) ∙ ap (λ t. bit_xor (a / 2) t * 2 + (a + bit_xor b c) % 2) bc in
    omega (
      arith,
      left,
      right,
      bit_xor_step a b,
      bit_xor_step b c,
      bit_xor_assoc_below n (a / 2) (b / 2) (c / 2) (omega arith) (omega arith) (omega arith),
    )

pub bit_xor_assoc : (a b c : ℕ) → bit_xor (bit_xor a b) c ≡ bit_xor a (bit_xor b c)
bit_xor_assoc a b c =
    bit_xor_assoc_below (a + b + c) a b c (omega arith) (omega arith) (omega arith)

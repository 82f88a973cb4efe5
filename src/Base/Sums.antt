-- ===== src/Base/Sums.antt =====
-- Sums of a function over a range of indices, and how they change with the function.
use Prim.Native.Nat.{ℕ, zero, suc, ◌+◌, ◌<◌, ◌≤◌}
use mathlib.Core.Path.{◌≡◌, refl, ap}
use mathlib.Core.Logic.{◌≢◌}
use native.Mathlib.Omega.{arith}
use native.Mathlib.Decide.{ℕ_discrete}
use native.Mathlib.Nat.{add-zero}

-- f lo + f (lo + 1) + ... with `n` terms.
pub sum : (ℕ → ℕ) → ℕ → ℕ → ℕ
sum f lo zero = 0
sum f lo (suc n) = f lo + sum f (lo + 1) n

pub sum-congr :
    (f g : ℕ → ℕ) (lo n : ℕ) → ((k : ℕ) → lo ≤ k → k < lo + n → f k ≡ g k) → sum f lo n ≡ sum g lo n
unfolding sum
sum-congr f g lo zero h = refl
sum-congr f g lo (suc n) h = omega (
  arith,
  h lo (omega arith) (omega arith),
  sum-congr f g (lo + 1) n (λ k p q. h k (omega arith) (omega arith)),
)

-- One term changes.
pub sum-update :
    (f g : ℕ → ℕ) (lo n j : ℕ)
    → lo ≤ j
    → j < lo + n
    → ((k : ℕ) → lo ≤ k → k < lo + n → k ≢ j → f k ≡ g k)
    → sum f lo n + g j ≡ sum g lo n + f j
unfolding sum
sum-update f g lo zero j p q h = absurd (omega arith)
sum-update f g lo (suc n) j p q h = elim (ℕ_discrete lo j) [
  | yes e ↦ rw e (
      omega
        (arith, sum-congr f g (j + 1) n (λ k p' q'. h k (omega arith) (omega arith) (omega arith))))
  | no ne ↦ omega (
    arith,
    h lo (omega arith) (omega arith) ne,
    sum-update f g (lo + 1) n j (omega arith) (omega arith)
        (λ k p' q'. h k (omega arith) (omega arith)),
  )
]

add_one_shift : (lo n : ℕ) → lo + 1 + n ≡ lo + suc n
add_one_shift lo n = omega arith

-- The terms of `g` are those of `f`, one further.
sum-shift :
    (f g : ℕ → ℕ) (lo n : ℕ)
    → ((k : ℕ) → lo ≤ k → k < lo + n → g k ≡ f (k + 1))
    → sum g lo n ≡ sum f (lo + 1) n
unfolding sum
sum-shift f g lo zero h = refl
sum-shift f g lo (suc n) h = omega (
  arith,
  h lo (omega arith) (omega arith),
  sum-shift f g (lo + 1) n (λ k p q. h k (omega arith) (omega arith)),
)

pub sum-last : (f : ℕ → ℕ) (lo n : ℕ) → sum f lo (suc n) ≡ sum f lo n + f (lo + n)
unfolding sum
sum-last f lo zero = omega (arith, ap f (add-zero lo))
sum-last f lo (suc n) = omega (arith, sum-last f (lo + 1) n, ap f (add_one_shift lo n))

-- One term is taken out, and those behind it move down.
pub sum-removed :
    (f g : ℕ → ℕ) (lo n j : ℕ)
    → lo ≤ j
    → j ≤ lo + n
    → ((k : ℕ) → lo ≤ k → k < j → g k ≡ f k)
    → ((k : ℕ) → j ≤ k → k < lo + n → g k ≡ f (k + 1))
    → sum g lo n + f j ≡ sum f lo (suc n)
unfolding sum
sum-removed f g lo zero j p q h s = let e : j ≡ lo = omega arith in rw e (omega arith)
sum-removed f g lo (suc n) j p q h s = elim (ℕ_discrete lo j) [
  | yes e ↦ rw (← e) (omega (arith, sum-shift f g lo (suc n) (λ k p' q'. s k (omega arith) q')))
  | no ne ↦ omega (
    arith,
    h lo (omega arith) (omega arith),
    sum-removed f g (lo + 1) n j (omega arith) (omega arith) (λ k p' q'. h k (omega arith) q')
        (λ k p' q'. s k p' (omega arith)),
  )
]

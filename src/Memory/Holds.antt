-- ===== src/Memory/Holds.antt =====
-- Bytes that stand in memory one behind the other.
use blesk_os_fork.Base.{
  zero, suc, ◌<◌, get_or, ℕ, ◌+◌, ◌≡◌, refl, arith, List, [], ◌∷◌, ◌++◌, length, u32,
}
use blesk_os_fork.Memory.{Memory}

abbrev pub byte_at : Memory → ℕ → ℕ
byte_at m a = m (u32 a)

-- The bytes stand in memory from `a` on.
unfoldable pub Holds : Memory → ℕ → List ℕ → Type 0
Holds m a [] = a ≡ a
Holds m a (b ∷ bs) = (byte_at m a ≡ b) × Holds m (a + 1) bs

pub Holds-append :
    (m : Memory) (a : ℕ) (xs ys : List ℕ)
    → Holds m a (xs ++ ys)
    → Holds m a xs × Holds m (a + length xs) ys
unfolding Holds
Holds-append m a [] ys h = (refl, (let e : a + 0 ≡ a = omega arith in rw e h))
Holds-append m a (x ∷ xs) ys h =
    let r = Holds-append m (a + 1) xs ys h.1 in
    let e : a + 1 + length xs ≡ a + suc (length xs) = omega arith in ((h.0, r.0), rw (← e) r.1)

pub Holds-at :
    (m : Memory) (a i : ℕ) (bs : List ℕ)
    → Holds m a bs
    → i < length bs
    → byte_at m (a + i) ≡ get_or bs i 0
unfolding Holds
Holds-at m a i [] h lt = absurd (omega arith)
Holds-at m a zero (b ∷ bs) h lt = let e : a + 0 ≡ a = omega arith in rw e h.0
Holds-at m a (suc i) (b ∷ bs) h lt =
    let e : a + suc i ≡ a + 1 + i = omega arith in rw e (Holds-at m (a + 1) i bs h.1 (omega arith))

-- ===== src/Fat/Free.antt =====
-- The clusters that the search for free clusters finds.
use blesk_os_fork.Base.{
  ℕ, zero, suc, ◌+◌, ◌<◌, ◌≤◌, ◌≡◌, ◌≢◌, ◌⊎◌, refl, ap, ◌∙◌, sym, Bool, true, false, ◌==◌, ◌||◌,
  arith, inl, inr, Bool-cases, List, [], ◌∷◌, length,
}
use blesk_os_fork.Fat.Chain.{elem}
use blesk_os_fork.Fat.Link.{IsDistinct, distinct_nil, distinct_cons}
use blesk_os_fork.Fat.Search.{free_clusters}
use mathlib.Core.Bool.{true≢false}
use mathlib.Core.Path.{subst}

module _ (g : ℕ → ℕ) (n c first k : ℕ) where
  free_skips :
      (c == first) ≡ true
      → free_clusters g (suc n) c first (suc k) ≡ free_clusters g n (suc c) first (suc k)
  unfolding free_clusters
  free_skips same = rw same refl

  free_takes :
      (c == first) ≡ false
      → (g c == 0) ≡ true
      → free_clusters g (suc n) c first (suc k) ≡ c ∷ free_clusters g n (suc c) first k
  unfolding free_clusters
  free_takes other free = rw (other, free) refl

  free_passes :
      (c == first) ≡ false
      → (g c == 0) ≡ false
      → free_clusters g (suc n) c first (suc k) ≡ free_clusters g n (suc c) first (suc k)
  unfolding free_clusters
  free_passes other used = rw (other, used) refl

  -- One step of the search: it takes the cluster or it does not.
  pub free_step {ℓ} :
      (P : List ℕ → Type ℓ)
      → P (free_clusters g n (suc c) first (suc k))
      → (g c ≡ 0 → P (c ∷ free_clusters g n (suc c) first k))
      → P (free_clusters g (suc n) c first (suc k))
  free_step P not_taken taken = elim (Bool-cases (c == first)) [
    | inl same ↦ subst P (sym (free_skips same)) not_taken
    | inr other ↦ elim (Bool-cases (g c == 0)) [
      | inl free ↦ subst P (sym (free_takes other free)) (taken (ground (arith, free)))
      | inr used ↦ subst P (sym (free_passes other used)) not_taken
    ]
  ]

either : (a b : Bool) → (a || b) ≡ true → (a ≡ true) ⊎ (b ≡ true)
either true b h = inl refl
either false b h = inr h

elem_cases :
    (d c : ℕ) (cs : List ℕ) → elem d (c ∷ cs) ≡ true → ((d == c) ≡ true) ⊎ (elem d cs ≡ true)
unfolding elem
elem_cases d c cs h = either (d == c) (elem d cs) h

not_in_nil : (d : ℕ) → elem d [] ≢ true
unfolding elem
not_in_nil d h = true≢false (sym h)

-- The clusters are free ones of those searched.
pub free_clusters-inside :
    (g : ℕ → ℕ) (n c first k d : ℕ)
    → elem d (free_clusters g n c first k) ≡ true
    → (c ≤ d) × (d < c + n) × (g d ≡ 0)
unfolding free_clusters
free_clusters-inside g zero c first k d there = absurd (not_in_nil d there)
free_clusters-inside g (suc n) c first zero d there = absurd (not_in_nil d there)
free_clusters-inside g (suc n) c first (suc k) d there =
    let rest : (j : ℕ)
        → elem d (free_clusters g n (suc c) first j) ≡ true
        → (c ≤ d) × (d < c + suc n) × (g d ≡ 0) =
      λ j h.
        (let (low, high, free) = free_clusters-inside g n (suc c) first j d h in
          (omega (arith, low), omega (arith, high), free)) in
    free_step g n c first k (λ cs. elem d cs ≡ true → (c ≤ d) × (d < c + suc n) × (g d ≡ 0))
      (rest (suc k))
      (λ free h. elim (elem_cases d c (free_clusters g n (suc c) first k) h) [
        | inl same ↦
            let d_is_c : d ≡ c = ground (arith, same) in
            (omega (arith, d_is_c), omega (arith, d_is_c), ap g d_is_c ∙ free)
        | inr later ↦ rest k later
      ])
      there

pub free_clusters-IsDistinct :
    (g : ℕ → ℕ) (n c first k : ℕ) → IsDistinct (free_clusters g n c first k)
unfolding free_clusters
free_clusters-IsDistinct g zero c first k = distinct_nil
free_clusters-IsDistinct g (suc n) c first zero = distinct_nil
free_clusters-IsDistinct g (suc n) c first (suc k) =
    free_step g n c first k IsDistinct (free_clusters-IsDistinct g n (suc c) first (suc k)) (λ free.
      distinct_cons
        (elim (Bool-cases (elem c (free_clusters g n (suc c) first k))) [
          | inl there ↦
              let (low, _, _) = free_clusters-inside g n (suc c) first k c there in
              absurd (omega (arith, low))
          | inr new ↦ new
        ])
        (free_clusters-IsDistinct g n (suc c) first k))

pub length-free_clusters :
    (g : ℕ → ℕ) (n c first k : ℕ)
    → (length (free_clusters g n c first k) ≤ k) × (length (free_clusters g n c first k) ≤ n)
unfolding free_clusters
length-free_clusters g zero c first k = (omega arith, omega arith)
length-free_clusters g (suc n) c first zero = (omega arith, omega arith)
length-free_clusters g (suc n) c first (suc k) =
    free_step g n c first k (λ cs. (length cs ≤ suc k) × (length cs ≤ suc n))
      (let (low, high) = length-free_clusters g n (suc c) first (suc k) in
        (omega (arith, low), omega (arith, high)))
      (λ free.
        let (low, high) = length-free_clusters g n (suc c) first k in
        (omega (arith, low), omega (arith, high)))

-- ===== src/Strings/Compare.antt =====
-- What the comparisons and the lengths of strings compute.
use blesk_os_fork.Base.{
  dec_lt, min, ltb, ℕ, zero, suc, ◌+◌, ◌<◌, ◌≤◌, ◌≡◌, ◌≢◌, ◌⊎◌, inl, inr, refl, ◌∙◌, ◌==◌,
  if◌then◌else◌, arith, some, ℕ_discrete, ==_true, ==_false,
}
use blesk_os_fork.Strings.{
  String, status_true, status_false, status_error, equal_from, is_memory_equal_with_memory,
  are_equal_from, are_equal_b_string_b_string, count_from, get_number_of_chars_in_ascii_string,
}
use mathlib.Core.Path.{subst}

-- `n` is the length of a string: the first 0 stands at `n`.
pub record HasLength (s : String) (n : ℕ) : Type 0 where
  pub ends : s n ≡ 0
  pub goes_on : (i : ℕ) → i < n → s i ≢ 0

-- Two strings have the same characters up to an index.
pub Agrees : String → String → ℕ → ℕ → Type 0
Agrees a b from to = (i : ℕ) → from ≤ i → i < to → a i ≡ b i

are_equal_from_end :
    (fuel i : ℕ) (a b : String)
    → (a i ≡ 0) ⊎ (b i ≡ 0)
    → are_equal_from (suc fuel) i a b ≡ some status_true
unfolding are_equal_from
are_equal_from_end fuel i a b h = ground (arith, h)

are_equal_from_step :
    (fuel i : ℕ) (a b : String)
    → (a i ≢ 0) × (b i ≢ 0)
    → are_equal_from (suc fuel) i a b
      ≡ (if a i == b i then are_equal_from fuel (i + 1) a b else some status_false)
unfolding are_equal_from
are_equal_from_step fuel i a b h = ground (arith, h)

-- The loop from index `i` on compares up to the end `n` of the shorter string.
are_equal_from_lem :
    (fuel i n : ℕ) (a b : String)
    → i ≤ n
    → n < i + fuel
    → (a n ≡ 0) ⊎ (b n ≡ 0)
    → ((j : ℕ) → j < n → (a j ≢ 0) × (b j ≢ 0))
    → ((are_equal_from fuel i a b ≡ some status_true) × Agrees a b i n)
      ⊎ ((are_equal_from fuel i a b ≡ some status_false) × ((j : ℕ) × (j < n) × (a j ≢ b j)))
unfolding Agrees
are_equal_from_lem zero i n a b le lt end before = absurd (omega arith)
are_equal_from_lem (suc fuel) i n a b le lt end before = elim (ℕ_discrete i n) [
  | yes e ↦ rw e (inl (are_equal_from_end fuel n a b end, λ j p q. absurd (omega arith)))
  | no ne ↦ elim (ℕ_discrete (a i) (b i)) [
    | yes same ↦
        elim (are_equal_from_lem fuel (i + 1) n a b (omega (arith, ne)) (omega arith) end before) [
          | inl r ↦ inl (
            are_equal_from_step fuel i a b (before i (omega (arith, ne))) ∙ rw (==_true same) r.0,
            λ j p q. elim (ℕ_discrete i j) [
              | yes here ↦ rw (← here) same
              | no later ↦ r.1 j (omega (arith, later)) q
            ],
          )
          | inr r ↦ inr (
            are_equal_from_step fuel i a b (before i (omega (arith, ne))) ∙ rw (==_true same) r.0,
            r.1,
          )
        ]
    | no differ ↦ inr (
      are_equal_from_step fuel i a b (before i (omega (arith, ne))) ∙ rw (==_false differ) refl,
      (i, omega (arith, ne), differ),
    )
  ]
]

-- Two strings count as equal exactly if the shorter one is the beginning of the longer one. More
-- rounds than the shorter one has characters are enough.
pub are_equal_b_string_b_string-Agrees :
    (fuel n k : ℕ) (a b : String)
    → HasLength a n
    → HasLength b k
    → min n k < fuel
    → ((are_equal_b_string_b_string fuel a b ≡ some status_true) × Agrees a b 0 (min n k))
      ⊎ ((are_equal_b_string_b_string fuel a b ≡ some status_false)
          × ((j : ℕ) × (j < min n k) × (a j ≢ b j)))
unfolding are_equal_b_string_b_string
are_equal_b_string_b_string-Agrees fuel n k a b ha hb lt =
    are_equal_from_lem fuel 0 (min n k) a b (omega arith) (omega arith) ends
      (λ j h. (ha.goes_on j (omega arith), hb.goes_on j (omega arith)))
  where
    ends : (a (min n k) ≡ 0) ⊎ (b (min n k) ≡ 0)
    ends = elim (dec_lt n k) [
      | yes less ↦ let m : min n k ≡ n = omega arith in inl (rw m ha.ends)
      | no more ↦ let m : min n k ≡ k = omega (arith, more) in inr (rw m hb.ends)
    ]

count_from_lem :
    (r i n : ℕ) (s : String)
    → HasLength s n
    → i ≤ n
    → count_from r i s ≡ (if ltb n (i + r) then n else status_error)
unfolding count_from
count_from_lem zero i n s h le = ground arith
count_from_lem (suc r) i n s h le = elim (ℕ_discrete i n) [
  | yes e ↦ rw e (ground (arith, h.ends))
  | no ne ↦ ground (arith, ne, h.goes_on i, count_from_lem r (i + 1) n s h)
]

-- The length of a string, or the error value for one of 100000 characters or more.
pub get_number_of_chars_in_ascii_string_lem :
    (n : ℕ) (s : String)
    → HasLength s n
    → get_number_of_chars_in_ascii_string s ≡ (if ltb n 100000 then n else status_error)
unfolding get_number_of_chars_in_ascii_string
get_number_of_chars_in_ascii_string_lem n s h = count_from_lem 100000 0 n s h (omega arith)

equal_from_lem :
    (n i : ℕ) (a b : String)
    → ((equal_from n i a b ≡ status_true) × Agrees a b i (i + n))
      ⊎ ((equal_from n i a b ≡ status_false) × ((j : ℕ) × (j < i + n) × (a j ≢ b j)))
unfolding equal_from Agrees
equal_from_lem zero i a b = inl (refl, λ j p q. absurd (omega arith))
equal_from_lem (suc n) i a b = elim (ℕ_discrete (a i) (b i)) [
  | yes same ↦ elim (equal_from_lem n (i + 1) a b) [
    | inl r ↦ inl (
      rw (==_true same) r.0,
      λ j p q. elim (ℕ_discrete i j) [
        | yes here ↦ rw (← here) same
        | no later ↦ r.1 j (omega (arith, later)) (omega arith)
      ],
    )
    | inr r ↦ inr (rw (==_true same) r.0, (r.1.0, omega (arith, r.1.1), r.1.2))
  ]
  | no differ ↦ inr (rw (==_false differ) refl, (i, omega arith, differ))
]

-- `is_memory_equal_with_memory` decides whether the first `n` bytes agree.
pub is_memory_equal_with_memory-Agrees :
    (n : ℕ) (a b : String)
    → ((is_memory_equal_with_memory a b n ≡ status_true) × Agrees a b 0 n)
      ⊎ ((is_memory_equal_with_memory a b n ≡ status_false) × ((j : ℕ) × (j < n) × (a j ≢ b j)))
unfolding is_memory_equal_with_memory Agrees
is_memory_equal_with_memory-Agrees n a b =
    let z : 0 + n ≡ n = omega arith in
    subst
      (λ k.
        ((equal_from n 0 a b ≡ status_true) × ((i : ℕ) → 0 ≤ i → i < k → a i ≡ b i))
        ⊎ ((equal_from n 0 a b ≡ status_false) × ((j : ℕ) × (j < k) × (a j ≢ b j))))
      z (equal_from_lem n 0 a b)

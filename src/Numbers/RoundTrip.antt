-- ===== src/Numbers/RoundTrip.antt =====
-- Reading a number back that was written in decimal digits.
use native.Mathlib.Nat.{pow-suc}
use mathlib.Core.Path.{subst}
use blesk_os_fork.Base.{
  ℕ, zero, suc, ◌+◌, ◌-◌, ◌*◌, ◌/◌, ◌%◌, ◌^◌, ◌<◌, ◌≤◌, ◌≡◌, ◌⊎◌, inl, inr, refl, ap, ◌∙◌, sym,
  arith, u32, List, [], ◌∷◌, ◌++◌, get_or, length, length-append, ℕ_discrete, ==_true, ==_false,
}
use blesk_os_fork.Numbers.{
  read_number, convert_byte_string_to_number, convert_number_to_byte_string, count_digits,
  get_number_of_digits_in_number,
}
use blesk_os_fork.Numbers.Decimal.{
  digits_of, digits_of_last, digits_of_small, length-digits_of_le,
  convert_number_to_byte_string_lem,
}
use blesk_os_fork.Strings.{String}

-- The number that digits stand for, behind those that were read into `acc`.
value : ℕ → List ℕ → ℕ
value acc [] = acc
value acc (d ∷ ds) = value (acc * 10 + d) ds

value-append : (acc x : ℕ) (ds : List ℕ) → value acc (ds ++ (x ∷ [])) ≡ value acc ds * 10 + x
unfolding value
value-append acc x [] = refl
value-append acc x (d ∷ ds) = value-append (acc * 10 + d) x ds

value-digits_of : (r n : ℕ) → n < 10 ^ r → value 0 (digits_of r n) ≡ n
unfolding value digits_of
value-digits_of zero n h = omega arith
value-digits_of (suc r) n h = elim (ℕ_discrete (n / 10) 0) [
  | yes z ↦ rw (==_true z) (omega (arith, z))
  | no ne ↦
      rw
        (
          ==_false ne,
          value-append 0 (n % 10) (digits_of r (n / 10)),
          value-digits_of r (n / 10) (omega (arith, pow-suc 10 r)),
        )
        (omega arith)
]

-- A character that is no digit.
unfoldable pub IsEnd : ℕ → Type 0
IsEnd c = (c < 48) ⊎ (57 < c)

-- The reader reads digits up to a character that is none, or for as many rounds as there are.
read_number-value :
    (ds : List ℕ) (n i k acc : ℕ) (string : String)
    → length ds ≤ n
    → i + length ds ≡ k
    → ((j l : ℕ)
        → j < length ds
        → i + j ≡ l
        → (string l ≡ get_or ds j 0 + 48) × (get_or ds j 0 < 10))
    → (n ≡ length ds) ⊎ IsEnd (string k)
    → read_number n i string (u32 acc) ≡ u32 (value acc ds)
unfolding read_number value IsEnd
read_number-value [] zero i k acc string le e at end = refl
read_number-value [] (suc n) i k acc string le e at end =
    let ik : i ≡ k = omega arith in rw ik (ground (arith, end))
read_number-value (d ∷ ds) zero i k acc string le e at end = absurd (omega arith)
read_number-value (d ∷ ds) (suc n) i k acc string le e at end =
    let here : (string i ≡ d + 48) × (d < 10) = at 0 i (omega arith) (omega arith) in
    let rest =
      read_number-value ds n (i + 1) k (acc * 10 + d) string (omega arith) (omega arith)
        (λ j l h p. at (suc j) l (omega arith) (omega arith)) (ground (arith, end)) in
    let step : u32 (u32 (u32 acc * 10) + (string i - 48)) ≡ u32 (acc * 10 + d) =
      omega (arith, here) in
    rw step (ground (arith, here, rest))

-- A number that is written into a string in decimal is read back, if it has 10 digits or no digit
-- stands behind it.
pub convert_byte_string_to_number-convert_number_to_byte_string :
    (n : ℕ) (string : String)
    → n < 2 ^ 32
    → (length (digits_of 10 n) ≡ 10) ⊎ IsEnd (string (length (digits_of 10 n)))
    → convert_byte_string_to_number (convert_number_to_byte_string n string) ≡ n
unfolding convert_byte_string_to_number
convert_byte_string_to_number-convert_number_to_byte_string n string small end =
    let ds = digits_of 10 n in
    let s = convert_number_to_byte_string n string in
    let last = (convert_number_to_byte_string_lem n (length ds) string).1 (omega arith) in
    read_number-value ds 10 0 (length ds) 0 s (length-digits_of_le 10 n) (omega arith)
      (λ j l h e.
        let jl : j ≡ l = omega arith in
        rw jl
          ((convert_number_to_byte_string_lem n l string).0 (omega arith), digits_of_small 10 n l))
      (elim end [ inl full ↦ inl (sym full) | inr stop ↦ inr (subst IsEnd (sym last) stop) ])
    ∙ ap u32 (value-digits_of 10 n (omega arith))
    ∙ omega arith

count_digits-digits_of :
    (r n c : ℕ) → 0 < n → n < 10 ^ r → count_digits r n c ≡ c + length (digits_of r n)
unfolding count_digits digits_of
count_digits-digits_of zero n c p h = absurd (omega arith)
count_digits-digits_of (suc r) n c p h = elim (ℕ_discrete (n / 10) 0) [
  | yes z ↦ rw (==_true z, z) (ground (arith, count_digits_zero r))
  | no ne ↦ rw (==_false ne) (
      ground (
        arith,
        length-append (digits_of r (n / 10)) (n % 10 ∷ []),
        ne,
        count_digits-digits_of r (n / 10) (c + 1) (omega (arith, ne)) (omega (arith, pow-suc 10 r)),
      ))
]
  where
    count_digits_zero : (r : ℕ) → count_digits r 0 (c + 1) ≡ c + 1
    count_digits_zero zero = refl
    count_digits_zero (suc r) = refl

-- `get_number_of_digits_in_number` is the number of digits that are written.
pub get_number_of_digits_in_number-digits_of :
    (n : ℕ) → n < 2 ^ 32 → get_number_of_digits_in_number n ≡ length (digits_of 10 n)
unfolding get_number_of_digits_in_number
get_number_of_digits_in_number-digits_of n small = elim (ℕ_discrete n 0) [
  | yes z ↦ rw (z, digits_of_last 9 0 refl) refl
  | no ne ↦
      rw (==_false ne)
        (count_digits-digits_of 10 n 0 (omega (arith, ne)) (omega arith) ∙ omega arith)
]

-- Writing a number changes exactly as many characters as `get_number_of_digits_in_number` says, and
-- makes digits of them.
pub convert_number_to_byte_string-writes :
    (n k : ℕ) (string : String)
    → n < 2 ^ 32
    → (k < get_number_of_digits_in_number n → ¬ IsEnd (convert_number_to_byte_string n string k))
      × (get_number_of_digits_in_number n ≤ k → convert_number_to_byte_string n string k ≡ string k)
unfolding IsEnd
convert_number_to_byte_string-writes n k string small =
    let count = get_number_of_digits_in_number-digits_of n small in
    let w = convert_number_to_byte_string_lem n k string in
    (
      λ lt e. absurd (ground (arith, w.0 (omega (arith, lt, count)), digits_of_small 10 n k, e)),
      λ le. w.1 (omega (arith, le, count)),
    )

-- ===== src/Numbers/Decimal.antt =====
-- What the decimal writers write: the digits of the number, the first one first.
use blesk_os_fork.Base.{
  u8, ap, u16, ltb, ◌&&◌, leb, replicate, map, ◌≢◌, dec_lt, ℕ, zero, suc, ◌+◌, ◌-◌, ◌/◌, ◌%◌, ◌<◌,
  ◌≤◌, ◌≡◌, refl, ◌∙◌, ◌==◌, if◌then◌else◌, arith, List, [], ◌∷◌, ◌++◌, get_or, set, length,
  get_or-set_self, get_or-set_ne, length-set, length-append, ℕ_discrete, ==_true, ==_false,
}
use blesk_os_fork.Numbers.{
  convert_number_to_byte_string, write_char, String, number_digits_of, copy_digits, Digits,
  write_digits,
}

-- The decimal digits of a number below 10 ^ r.
unfoldable pub digits_of : ℕ → ℕ → List ℕ
digits_of zero n = []
digits_of (suc r) n =
    let rest = digits_of r (n / 10) in (if n / 10 == 0 then [] else rest) ++ (n % 10 ∷ [])

get_or-append_left :
    (xs ys : List ℕ) (j : ℕ) → j < length xs → get_or (xs ++ ys) j 0 ≡ get_or xs j 0
get_or-append_left [] ys j h = absurd (omega arith)
get_or-append_left (x ∷ xs) ys zero h = refl
get_or-append_left (x ∷ xs) ys (suc j) h = get_or-append_left xs ys j (omega arith)

get_or-append_last : (xs : List ℕ) (x j : ℕ) → j ≡ length xs → get_or (xs ++ (x ∷ [])) j 0 ≡ x
get_or-append_last [] x zero h = refl
get_or-append_last [] x (suc j) h = absurd (omega arith)
get_or-append_last (y ∷ xs) x zero h = absurd (omega arith)
get_or-append_last (y ∷ xs) x (suc j) h = get_or-append_last xs x j (omega arith)

pub digits_of_last : (r n : ℕ) → n / 10 ≡ 0 → digits_of (suc r) n ≡ n % 10 ∷ []
unfolding digits_of
digits_of_last r n z = rw (==_true z) refl

pub digits_of_more :
    (r n : ℕ) → n / 10 ≢ 0 → digits_of (suc r) n ≡ digits_of r (n / 10) ++ (n % 10 ∷ [])
unfolding digits_of
digits_of_more r n ne = rw (==_false ne) refl

pub length-digits_of_le : (r n : ℕ) → length (digits_of r n) ≤ r
unfolding digits_of
length-digits_of_le zero n = omega arith
length-digits_of_le (suc r) n = elim (ℕ_discrete (n / 10) 0) [
  | yes z ↦ rw (digits_of_last r n z) (omega arith)
  | no ne ↦ rw (digits_of_more r n ne) (
      omega
        (arith, length-append (digits_of r (n / 10)) (n % 10 ∷ []), length-digits_of_le r (n / 10)))
]

-- The digits `ds` are added to an array, the last one at index `r`.
record IsWritten (r : ℕ) (ds : List ℕ) (d w : Digits) : Type 0 where
  count : w.number_digits ≡ d.number_digits + length ds
  above : (k : ℕ) → r < k → get_or w.number_string k 0 ≡ get_or d.number_string k 0
  size : length w.number_string ≡ length d.number_string
  here : (j : ℕ) → j < length ds → get_or w.number_string (r + 1 - length ds + j) 0 ≡ get_or ds j 0

-- One digit at index `suc r`, and what the loop wrote below it.
IsWritten-more :
    (r x : ℕ) (ds : List ℕ) (d w : Digits)
    → suc r < length d.number_string
    → length ds ≤ r
    → IsWritten r ds
        (record {
          number_string = set d.number_string (suc r) x;
          number_digits = d.number_digits + 1;
        })
        w
    → IsWritten (suc r) (ds ++ (x ∷ [])) d w
IsWritten-more r x ds d w h le k =
    let n = length-append ds (x ∷ []) in
    record {
      count = omega (arith, n, k.count);
      above = λ i p.
          k.above i (omega arith)
          ∙ get_or-set_ne d.number_string (suc r) i x 0 (λ e. absurd (omega (arith, e)));
      size = k.size ∙ length-set d.number_string (suc r) x;
      here = λ j p. elim (dec_lt j (length ds)) [
        | yes lt ↦
            let e : suc r + 1 - length (ds ++ (x ∷ [])) + j ≡ r + 1 - length ds + j =
              omega (arith, n) in
            rw (e, get_or-append_left ds (x ∷ []) j lt) (k.here j lt)
        | no ge ↦
            let at : j ≡ length ds = omega (arith, n, ge) in
            let e : suc r + 1 - length (ds ++ (x ∷ [])) + j ≡ suc r = omega (arith, n) in
            rw (e, get_or-append_last ds x j at)
              (k.above (suc r) (omega arith) ∙ get_or-set_self d.number_string (suc r) x 0 h)
      ];
    }

IsWritten-none : (r : ℕ) (d : Digits) → IsWritten r [] d d
IsWritten-none r d = record {
  count = omega arith;
  above = λ k p. refl;
  size = refl;
  here = λ j p. absurd (omega arith);
}

write_digits-IsWritten :
    (r n : ℕ) (d : Digits)
    → r < length d.number_string
    → IsWritten r (digits_of r n) d (write_digits r n d)
unfolding write_digits digits_of
write_digits-IsWritten zero n d h = IsWritten-none zero d
write_digits-IsWritten (suc r) n d h =
    let s : Digits = record {
      number_string = set d.number_string (suc r) (n % 10);
      number_digits = d.number_digits + 1;
    } in
    elim (ℕ_discrete (n / 10) 0) [
      | yes z ↦
          rw (==_true z) (IsWritten-more r (n % 10) [] d s h (omega arith) (IsWritten-none r s))
      | no ne ↦ rw (==_false ne) (
          IsWritten-more r (n % 10) (digits_of r (n / 10)) d _ h (length-digits_of_le r (n / 10)) (
            write_digits-IsWritten r (n / 10) s
              (omega (arith, length-set d.number_string (suc r) (n % 10)))))
    ]

pub digits_of_small : (r n j : ℕ) → get_or (digits_of r n) j 0 < 10
unfolding digits_of
digits_of_small zero n j = omega arith
digits_of_small (suc r) n j = elim (ℕ_discrete (n / 10) 0) [
  | yes z ↦ rw (==_true z) (single j)
  | no ne ↦
      rw (==_false ne) (small_append (digits_of r (n / 10)) j (λ i. digits_of_small r (n / 10) i))
]
  where
    single : (j : ℕ) → get_or (n % 10 ∷ []) j 0 < 10
    single zero = omega arith
    single (suc j) = omega arith

    small_append :
        (ds : List ℕ) (j : ℕ)
        → ((i : ℕ) → get_or ds i 0 < 10)
        → get_or (ds ++ (n % 10 ∷ [])) j 0 < 10
    small_append [] j h = single j
    small_append (d ∷ ds) zero h = h 0
    small_append (d ∷ ds) (suc j) h = small_append ds j (λ i. h (suc i))

get_or-map :
    (f : ℕ → ℕ) (xs : List ℕ) (j : ℕ) → j < length xs → get_or (map f xs) j 0 ≡ f (get_or xs j 0)
get_or-map f [] j h = absurd (omega arith)
get_or-map f (x ∷ xs) zero h = refl
get_or-map f (x ∷ xs) (suc j) h = get_or-map f xs j (omega arith)

abbrev blank : Digits
blank = record { number_string = replicate 11 0; number_digits = 0 }

-- The array of the digits as characters.
pub number_digits_of_lem :
    (n j : ℕ)
    → let d = number_digits_of n in
      (d.number_digits ≡ length (digits_of 10 n))
      × (j < length (digits_of 10 n)
          → get_or d.number_string (11 - d.number_digits + j) 0 ≡ get_or (digits_of 10 n) j 0 + 48)
unfolding number_digits_of
number_digits_of_lem n j =
    let k = write_digits-IsWritten 10 n blank (omega arith) in
    let le = length-digits_of_le 10 n in
    let w = write_digits 10 n blank in
    let at : 11 - w.number_digits + j ≡ 11 - length (digits_of 10 n) + j = omega (arith, k.count) in
    (
      omega (arith, k.count),
      λ lt.
          get_or-map (λ digit. u16 (digit + 48)) w.number_string (11 - w.number_digits + j)
            (omega (arith, at, k.size, lt, le))
          ∙ ap (λ i. u16 (get_or w.number_string i 0 + 48)) at
          ∙ ap (λ c. u16 (c + 48)) (k.here j lt)
          ∙ omega (arith, digits_of_small 10 n j),
    )

pub copy_digits_lem :
    (narrow : ℕ → ℕ) (n i k : ℕ) (d : Digits) (string : String)
    → copy_digits narrow n i d string k ≡ (
        if leb i k && ltb k (i + n)
        then narrow (get_or d.number_string (11 - d.number_digits + k) 0)
        else string k)
unfolding copy_digits
copy_digits_lem narrow zero i k d string = ground arith
copy_digits_lem narrow (suc n) i k d string =
    rw
      (copy_digits_lem narrow n (i + 1) k d
        (write_char string i (narrow (get_or d.number_string (11 - d.number_digits + i) 0))))
      (elim (ℕ_discrete k i) [ yes e ↦ rw e (ground arith) | no ne ↦ ground (arith, ne) ])

-- The writer for byte strings writes the digits of the number and nothing else.
pub convert_number_to_byte_string_lem :
    (n k : ℕ) (string : String)
    → (k < length (digits_of 10 n)
        → convert_number_to_byte_string n string k ≡ get_or (digits_of 10 n) k 0 + 48)
      × (length (digits_of 10 n) ≤ k → convert_number_to_byte_string n string k ≡ string k)
unfolding convert_number_to_byte_string
convert_number_to_byte_string_lem n k string =
    let d = number_digits_of n in
    let w = number_digits_of_lem n k in
    let c = copy_digits_lem u8 d.number_digits 0 k d string in
    (λ lt. c ∙ ground (arith, w.0, w.1 lt, digits_of_small 10 n k), λ le. c ∙ ground (arith, w.0))

-- ===== src/Strings/Tests.antt =====
-- Two strings, one of which is the beginning of the other.
use blesk_os_fork.Base.{ℕ, zero, suc, ◌<◌, ◌≡◌, ◌≢◌, ◌⊎◌, refl, some, arith, get_or, [], ◌∷◌}
use blesk_os_fork.Strings.{String, status_true, status_false, are_equal_b_string_b_string}
use blesk_os_fork.Strings.Compare.{HasLength, Agrees, are_equal_b_string_b_string-Agrees}

abbrev short : String
short k = get_or (97 ∷ 98 ∷ []) k 0

abbrev long : String
long k = get_or (97 ∷ 98 ∷ 99 ∷ []) k 0

short-HasLength : HasLength short 2
short-HasLength = record { ends = refl; goes_on = short-goes_on }
  where
    short-goes_on : (i : ℕ) → i < 2 → short i ≢ 0
    short-goes_on zero h = λ e. absurd (omega (arith, e))
    short-goes_on (suc zero) h = λ e. absurd (omega (arith, e))
    short-goes_on (suc (suc i)) h = absurd (omega arith)

long-HasLength : HasLength long 3
long-HasLength = record { ends = refl; goes_on = long-goes_on }
  where
    long-goes_on : (i : ℕ) → i < 3 → long i ≢ 0
    long-goes_on zero h = λ e. absurd (omega (arith, e))
    long-goes_on (suc zero) h = λ e. absurd (omega (arith, e))
    long-goes_on (suc (suc zero)) h = λ e. absurd (omega (arith, e))
    long-goes_on (suc (suc (suc i))) h = absurd (omega arith)

are_equal_b_string_b_string-Agrees_example :
    ((are_equal_b_string_b_string 5 short long ≡ some status_true) × Agrees short long 0 2)
    ⊎ ((are_equal_b_string_b_string 5 short long ≡ some status_false)
        × ((j : ℕ) × (j < 2) × (short j ≢ long j)))
are_equal_b_string_b_string-Agrees_example =
    are_equal_b_string_b_string-Agrees 5 2 3 short long short-HasLength long-HasLength (omega arith)

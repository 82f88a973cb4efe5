-- ===== src/Sectors/Sequence.antt =====
-- Runs as the sequence of their sectors, and what a new run or a longer last run adds to it.
use blesk_os_fork.Base.{
  inr, inl, ℕ, zero, suc, ◌+◌, ◌^◌, ◌<◌, ◌≡◌, refl, ap, ◌∙◌, sym, true, ◌==◌, if◌then◌else◌, arith,
  List, [], ◌∷◌, ◌++◌, length, append-nil, append_assoc, add32, Bool-cases,
}
use blesk_os_fork.Sectors.{Run, add_to_last_run, extends_last_run}

-- `n` sectors from `first` on.
unfoldable pub sectors_from : ℕ → ℕ → List ℕ
sectors_from first zero = []
sectors_from first (suc n) = first ∷ sectors_from (first + 1) n

unfoldable pub sectors_of : List Run → List ℕ
sectors_of [] = []
sectors_of (r ∷ rs) = sectors_from r.first_sector_of_run r.number_of_sectors_in_run ++ sectors_of rs

pub length-sectors_from : (first n : ℕ) → length (sectors_from first n) ≡ n
unfolding sectors_from
length-sectors_from first zero = refl
length-sectors_from first (suc n) = ap suc (length-sectors_from (first + 1) n)

pub sectors_from-append :
    (first n k : ℕ)
    → sectors_from first (n + k) ≡ sectors_from first n ++ sectors_from (first + n) k
unfolding sectors_from
sectors_from-append first zero k =
    let z : 0 + k ≡ k = omega arith in let f : first + 0 ≡ first = omega arith in rw (z, f) refl
sectors_from-append first (suc n) k =
    let z : suc n + k ≡ suc (n + k) = omega arith in
    let f : first + suc n ≡ first + 1 + n = omega arith in
    rw (z, f) (ap (λ s. first ∷ s) (sectors_from-append (first + 1) n k))

-- A run has sectors, and none of them is behind the last sector number.
unfoldable pub AllRuns : List Run → Type 0
AllRuns [] = 0 < 1
AllRuns (r ∷ rs) =
    (0 < r.number_of_sectors_in_run)
    × (r.first_sector_of_run + r.number_of_sectors_in_run < 2 ^ 32)
    × AllRuns rs

end_of_run :
    (r : Run) (first : ℕ)
    → r.first_sector_of_run + r.number_of_sectors_in_run < 2 ^ 32
    → (add32 r.first_sector_of_run r.number_of_sectors_in_run == first) ≡ true
    → r.first_sector_of_run + r.number_of_sectors_in_run ≡ first
end_of_run r first below e = ground arith

sectors_from-grown :
    (first n : ℕ) (r : Run)
    → r.first_sector_of_run + r.number_of_sectors_in_run < 2 ^ 32
    → first + n < 2 ^ 32
    → (add32 r.first_sector_of_run r.number_of_sectors_in_run == first) ≡ true
    → sectors_from r.first_sector_of_run (add32 r.number_of_sectors_in_run n)
      ≡ sectors_from r.first_sector_of_run r.number_of_sectors_in_run ++ sectors_from first n
sectors_from-grown first n r fits below e =
    let at : r.first_sector_of_run + r.number_of_sectors_in_run ≡ first =
      end_of_run r first fits e in
    let sum : add32 r.number_of_sectors_in_run n ≡ r.number_of_sectors_in_run + n = ground arith in
    rw sum (
      sectors_from-append r.first_sector_of_run r.number_of_sectors_in_run n
      ∙ ap (λ k. sectors_from r.first_sector_of_run r.number_of_sectors_in_run ++ sectors_from k n)
          at)

pub add_to_last_run-sectors_of :
    (first n : ℕ) (r : Run) (rs : List Run)
    → AllRuns (r ∷ rs)
    → first + n < 2 ^ 32
    → sectors_of (add_to_last_run first n (r ∷ rs)) ≡ sectors_of (r ∷ rs) ++ sectors_from first n
unfolding add_to_last_run sectors_of AllRuns
add_to_last_run-sectors_of first n r [] (some, fits, tail) below =
    elim (Bool-cases (add32 r.first_sector_of_run r.number_of_sectors_in_run == first)) [
      | inl e ↦
          rw
            (
              e,
              sectors_from-grown first n r fits below e,
              append-nil (sectors_from r.first_sector_of_run r.number_of_sectors_in_run),
              append-nil (
                  sectors_from r.first_sector_of_run r.number_of_sectors_in_run
                  ++ sectors_from first n),
            )
            refl
      | inr e ↦
          rw
            (
              e,
              append-nil (sectors_from r.first_sector_of_run r.number_of_sectors_in_run),
              append-nil (sectors_from first n),
            )
            refl
    ]
add_to_last_run-sectors_of first n r (q ∷ rs) (some, fits, tail) below =
    ap (λ s. sectors_from r.first_sector_of_run r.number_of_sectors_in_run ++ s)
      (add_to_last_run-sectors_of first n q rs tail below)
    ∙ sym (
        append_assoc (sectors_from r.first_sector_of_run r.number_of_sectors_in_run)
          (sectors_of (q ∷ rs)) (sectors_from first n))

pub add_to_last_run-AllRuns :
    (first n : ℕ) (r : Run) (rs : List Run)
    → AllRuns (r ∷ rs)
    → 0 < n
    → first + n < 2 ^ 32
    → AllRuns (add_to_last_run first n (r ∷ rs))
unfolding add_to_last_run AllRuns
add_to_last_run-AllRuns first n r [] (some, fits, tail) more below =
    elim (Bool-cases (add32 r.first_sector_of_run r.number_of_sectors_in_run == first)) [
      | inl e ↦
          let at : r.first_sector_of_run + r.number_of_sectors_in_run ≡ first =
            end_of_run r first fits e in
          let sum : add32 r.number_of_sectors_in_run n ≡ r.number_of_sectors_in_run + n =
            ground arith in
          rw (e, sum) (omega arith, omega arith, tail)
      | inr e ↦ rw e (some, fits, (more, below, tail))
    ]
add_to_last_run-AllRuns first n r (q ∷ rs) (some, fits, tail) more below =
    (some, fits, add_to_last_run-AllRuns first n q rs tail more below)

pub length-add_to_last_run :
    (first n : ℕ) (r : Run) (rs : List Run)
    → length (add_to_last_run first n (r ∷ rs))
      ≡ (if extends_last_run first (r ∷ rs) then length (r ∷ rs) else suc (length (r ∷ rs)))
unfolding add_to_last_run extends_last_run
length-add_to_last_run first n r [] =
    elim (Bool-cases (add32 r.first_sector_of_run r.number_of_sectors_in_run == first)) [
      | inl e ↦ rw e refl
      | inr e ↦ rw e refl
    ]
length-add_to_last_run first n r (q ∷ rs) = elim (Bool-cases (extends_last_run first (q ∷ rs))) [
  | inl e ↦ rw e (ap suc (length-add_to_last_run first n q rs) ∙ rw e refl)
  | inr e ↦ rw e (ap suc (length-add_to_last_run first n q rs) ∙ rw e refl)
]

-- ===== src/Sectors/Each.antt =====
-- A run in several requests, and all runs, against a transfer of the sectors one by one.
use blesk_os_fork.Base.{
  inr, inl, ℕ, zero, suc, ◌+◌, ◌-◌, ◌*◌, ◌^◌, ◌<◌, ◌≤◌, ◌≡◌, refl, ap, ◌∙◌, sym, Bool, false, ◌==◌,
  ltb, leb, if◌then◌else◌, arith, List, [], ◌∷◌, ◌++◌, u32, add32, Bool-cases,
}
use blesk_os_fork.Sectors.{
  Run, Transfer, Outcome, good, status_error, stuck, and_then, transfer_sectors, transfer_run,
  transfer_runs,
}
use blesk_os_fork.Sectors.Sequence.{sectors_from, sectors_from-append, sectors_of, AllRuns}
use mathlib.Core.Path.{fun_ext}

-- The sectors one by one, without a test of the key.
unfoldable pub transfer_each {ℓ} :
    {World : Type ℓ} (request : ℕ → ℕ → ℕ → World → Bool × World) (size : ℕ)
    → List ℕ
    → Transfer World
    → Outcome World
transfer_each request size [] t = good t
transfer_each request size (s ∷ ss) t =
    and_then (transfer_sectors request size s 1 t) (λ u. transfer_each request size ss u)

-- A request for several sectors, of which a byte tells the number, does what requests for its two parts
-- do one behind the other, and ends with the first part that fails.
unfoldable pub IsSequential {ℓ} :
    {World : Type ℓ} (request : ℕ → ℕ → ℕ → World → Bool × World) → ℕ → Type ℓ
IsSequential {World} request size =
    (first a b memory : ℕ) (w : World)
    → 0 < a
    → 0 < b
    → a + b < 256
    → request first (a + b) memory w ≡ (
        if (request first a memory w).0
        then request (add32 first a) b (add32 memory (u32 (a * size))) (request first a memory w).1
        else request first a memory w)

sum_moves :
    (p a b size : ℕ)
    → add32 (add32 p (u32 (a * size))) (u32 (b * size)) ≡ add32 p (u32 ((a + b) * size))
sum_moves p a b size =
    let e : (a + b) * size ≡ a * size + b * size = grind arith in rw e (omega arith)

and_then_assoc {ℓ} :
    {World : Type ℓ} (o : Outcome World) (f g : Transfer World → Outcome World)
    → and_then (and_then o f) g ≡ and_then o (λ t. and_then (f t) g)
and_then_assoc (good t) f g = refl
and_then_assoc (status_error w) f g = refl
and_then_assoc stuck f g = refl

and_then_good {ℓ} : {World : Type ℓ} (o : Outcome World) → and_then o good ≡ o
and_then_good (good t) = refl
and_then_good (status_error w) = refl
and_then_good stuck = refl

module _ {ℓ} {World : Type ℓ} (request : ℕ → ℕ → ℕ → World → Bool × World) (size : ℕ) where
  transfer_each-append :
      (xs ys : List ℕ) (t : Transfer World)
      → transfer_each request size (xs ++ ys) t
        ≡ and_then (transfer_each request size xs t) (transfer_each request size ys)
  unfolding transfer_each
  transfer_each-append [] ys t = refl
  transfer_each-append (x ∷ xs) ys t =
      ap (and_then (transfer_sectors request size x 1 t)) (fun_ext (transfer_each-append xs ys))
      ∙ sym (
          and_then_assoc (transfer_sectors request size x 1 t) (transfer_each request size xs)
            (transfer_each request size ys))

  module _ (is_sequential : IsSequential request size) where
    transfer_sectors-split :
        (first a b : ℕ) (t : Transfer World)
        → 0 < a
        → 0 < b
        → a + b < 256
        → transfer_sectors request size first (a + b) t
          ≡ and_then
              (transfer_sectors request size first a t)
              (transfer_sectors request size (add32 first a) b)
    unfolding transfer_sectors IsSequential
    transfer_sectors-split first a b t some more byte =
        elim (Bool-cases ((request first a t.file_memory_pointer t.world).0)) [
          | inl e ↦
              rw (is_sequential first a b t.file_memory_pointer t.world some more byte, e)
                (rw
                  (
                    sym (sum_moves t.file_memory_pointer a b size),
                    sym (sum_moves t.completed a b size),
                  )
                  refl)
          | inr e ↦
              rw (is_sequential first a b t.file_memory_pointer t.world some more byte, e) refl
        ]

    transfer_sectors-transfer_each :
        (first n : ℕ) (t : Transfer World)
        → suc n < 256
        → first + suc n < 2 ^ 32
        → transfer_sectors request size first (suc n) t
          ≡ transfer_each request size (sectors_from first (suc n)) t
    unfolding transfer_each sectors_from
    transfer_sectors-transfer_each first zero t byte below =
        sym (and_then_good (transfer_sectors request size first 1 t))
    transfer_sectors-transfer_each first (suc n) t byte below =
        let two : suc (suc n) ≡ 1 + suc n = omega arith in
        let next : add32 first 1 ≡ first + 1 = omega arith in
        let rest : first + 1 + suc n < 2 ^ 32 = omega arith in
        rw two (
          transfer_sectors-split first 1 (suc n) t (omega arith) (omega arith) (omega arith)
          ∙ rw next (
              ap (and_then (transfer_sectors request size first 1 t))
                (fun_ext (λ u. transfer_sectors-transfer_each (first + 1) n u (omega arith) rest))))

    transfer_some_transfer_each :
        (first n : ℕ) (t : Transfer World)
        → 0 < n
        → n < 256
        → first + n < 2 ^ 32
        → transfer_sectors request size first n t
          ≡ transfer_each request size (sectors_from first n) t
    transfer_some_transfer_each first zero t some byte below = absurd (omega arith)
    transfer_some_transfer_each first (suc n) t some byte below =
        transfer_sectors-transfer_each first n t byte below

    module _ (cancelled : World → Bool) (never : (w : World) → cancelled w ≡ false) (per : ℕ)
        (some : 0 < per) (byte : per < 256) where
      transfer_run-transfer_each :
          (fuel first n : ℕ) (t : Transfer World)
          → n ≤ fuel
          → 0 < n
          → first + n < 2 ^ 32
          → transfer_run request cancelled size fuel per first n t
            ≡ transfer_each request size (sectors_from first n) t
      unfolding transfer_run
      transfer_run-transfer_each zero first n t enough more below = absurd (omega arith)
      transfer_run-transfer_each (suc fuel) first n t enough more below =
          let not_empty : (n == 0) ≡ false = ground arith in
          rw (not_empty, never t.world)
            (elim (Bool-cases (ltb per n)) [
              | inl longer ↦
                  let rest : n - per ≤ fuel = ground arith in
                  let left : 0 < n - per = ground arith in
                  let next : add32 first per ≡ first + per = ground arith in
                  let fits : first + per + (n - per) < 2 ^ 32 = ground arith in
                  let here : first + per < 2 ^ 32 = omega arith in
                  let whole : per + (n - per) ≡ n = ground arith in
                  let tail : (u : Transfer World)
                      → transfer_run request cancelled size fuel per (add32 first per) (n - per) u
                        ≡ transfer_each request size (sectors_from (first + per) (n - per)) u =
                    λ u.
                      rw next (
                        transfer_run-transfer_each fuel (first + per) (n - per) u rest left fits) in
                  rw longer (
                    ap (and_then (transfer_sectors request size first per t)) (fun_ext tail)
                    ∙ ap
                        (λ o.
                          and_then o
                            (transfer_each request size (sectors_from (first + per) (n - per))))
                        (transfer_some_transfer_each first per t some byte here)
                    ∙ sym (
                        transfer_each-append (sectors_from first per)
                          (sectors_from (first + per) (n - per)) t)
                    ∙ ap (λ ss. transfer_each request size ss t)
                        (sym (sectors_from-append first per (n - per))
                          ∙ ap (sectors_from first) whole))
              | inr e ↦
                  let small : n < 256 = ground arith in
                  rw e (transfer_some_transfer_each first n t more small below)
            ])

      pub transfer_runs-transfer_each :
          (rs : List Run) (t : Transfer World)
          → AllRuns rs
          → transfer_runs request cancelled size per rs t
            ≡ transfer_each request size (sectors_of rs) t
      unfolding transfer_runs sectors_of AllRuns transfer_each
      transfer_runs-transfer_each [] t all = refl
      transfer_runs-transfer_each (r ∷ rs) t (more, below, all) =
          let n = r.number_of_sectors_in_run in
          let here : (if leb n per
                then transfer_sectors request size r.first_sector_of_run n t
                else transfer_run request cancelled size n per r.first_sector_of_run n t)
              ≡ transfer_each request size (sectors_from r.first_sector_of_run n) t =
            elim (Bool-cases (leb n per)) [
              | inl e ↦
                  let small : n < 256 = ground arith in
                  rw e (transfer_some_transfer_each r.first_sector_of_run n t more small below)
              | inr e ↦
                  rw e (
                    transfer_run-transfer_each n r.first_sector_of_run n t (omega arith) more below)
            ] in
          rw (never t.world, here)
            (ap (and_then (transfer_each request size (sectors_from r.first_sector_of_run n) t))
                (fun_ext (λ u. transfer_runs-transfer_each rs u all))
              ∙ sym (transfer_each-append (sectors_from r.first_sector_of_run n) (sectors_of rs) t))

-- ===== src/Scheduler/Destroy.antt =====
-- Destroying a task removes the first match of the live tasks.
use blesk_os_fork.Base.{
  true, ◌∙◌, sym, inr, Bool-cases, inl, ◌-◌, some, ◌⊎◌, none, length-append, leb, if◌then◌else◌,
  ◌||◌, u8, false, ap, Bool, ℕ, zero, suc, ◌+◌, ◌≤◌, ◌<◌, ◌≡◌, refl, arith, List, [], ◌∷◌, ◌++◌,
  take, length,
}
use blesk_os_fork.Scheduler.{
  destroy_task, no_task, is_of, remove_slot, find_task, create_task, scheduler_max_number_of_tasks,
  Task, Scheduler,
}
use blesk_os_fork.Scheduler.Table.{create_task-live, new_task, live, has_plain, IsTable}

-- The list less its first task that is `f`.
pub without : ℕ → List Task → List Task
without f [] = []
without f (t ∷ ts) = if is_of f t then ts else t ∷ without f ts

-- Removing a slot takes the task out of any prefix that holds it.
length-remove_slot : (i : ℕ) (ts : List Task) → length (remove_slot i ts) ≡ length ts
unfolding remove_slot
length-remove_slot i [] = refl
length-remove_slot zero (t ∷ ts) = omega (arith, length-append {0} ts (no_task ∷ []))
length-remove_slot (suc i) (t ∷ ts) = ap suc (length-remove_slot i ts)

take-append : (ts us : List Task) (n : ℕ) → n ≤ length ts → take n (ts ++ us) ≡ take n ts
take-append ts us zero h = refl
take-append [] us (suc n) h = absurd (omega arith)
take-append (t ∷ ts) us (suc n) h = ap (λ l. t ∷ l) (take-append ts us n (omega arith))

-- What the search finds: nothing, and then no live task is `f`; or the slot whose removal leaves the
-- live tasks without their first match.
find_task-without :
    (n f : ℕ) (ts : List Task)
    → n ≤ length ts
    → ((find_task n f ts ≡ none) × (without f (take n ts) ≡ take n ts))
      ⊎ ((i : ℕ) × (find_task n f ts ≡ some i)
          × (0 < n)
          × (take (n - 1) (remove_slot i ts) ≡ without f (take n ts)))
unfolding find_task without remove_slot
find_task-without zero f ts h = inl (refl, refl)
find_task-without (suc n) f [] h = absurd (omega arith)
find_task-without (suc n) f (t ∷ ts) h =
    let e : suc n - 1 ≡ n = omega arith in
    elim (Bool-cases (is_of f t)) [
      | inl hit ↦
          rw (hit, e) (inr (0, refl, omega arith, take-append ts (no_task ∷ []) n (omega arith)))
      | inr miss ↦
          rw (miss, e)
            (elim (find_task-without n f ts (omega arith)) [
              | inl (p, q) ↦ inl (rw p refl, rw q refl)
              | inr (i, p, q, r) ↦ inr (
                suc i,
                rw p refl,
                omega arith,
                let k : n ≡ suc (n - 1) = omega arith in
                    ap (λ m. take m (t ∷ remove_slot i ts)) k ∙ ap (λ l. t ∷ l) r,
              )
            ])
    ]

-- `destroy_task` removes the first live task that is the given function, plain or with a parameter,
-- keeps the others in their order, and changes nothing if there is none.
pub destroy_task-live :
    (s : Scheduler) (f : ℕ)
    → IsTable s
    → IsTable (destroy_task s f) × (live (destroy_task s f) ≡ without f (live s))
unfolding destroy_task
destroy_task-live s f v =
    elim (find_task-without s.actual_number_of_tasks f s.scheduler_tasks (omega (arith, v))) [
      | inl (p, q) ↦ rw (p, destroy_task) (v, sym q)
      | inr (i, p, q, r) ↦
          let e : u8 (s.actual_number_of_tasks + 255) ≡ s.actual_number_of_tasks - 1 =
            omega (arith, v) in
          rw (p, destroy_task, e) (ground (arith, v, length-remove_slot i s.scheduler_tasks), r)
    ]

-- Whether some task of a list is `f`, plain or with a parameter.
unfoldable pub has_task : ℕ → List Task → Bool
has_task f [] = false
has_task f (t ∷ ts) = is_of f t || has_task f ts

has_task-has_plain : (f : ℕ) (ts : List Task) → has_task f ts ≡ false → has_plain f ts ≡ false
unfolding has_task has_plain
has_task-has_plain f [] h = refl
has_task-has_plain f (t ∷ ts) h = ground (arith, has_task-has_plain f ts)

without_self : (f : ℕ) (ts : List Task) → has_task f ts ≡ false → without f ts ≡ ts
unfolding has_task without
without_self f [] h = refl
without_self f (t ∷ ts) h = ground (arith, without_self f ts)

without-append :
    (f : ℕ) (ts : List Task) (t : Task)
    → has_task f ts ≡ false
    → is_of f t ≡ true
    → without f (ts ++ t ∷ []) ≡ ts
unfolding has_task without
without-append f [] t h hit = rw hit
without-append f (u ∷ ts) t h hit = ground (arith, without-append f ts t)

-- A task that was not there is gone again after `create_task` and `destroy_task`.
pub destroy_task-create_task :
    (s : Scheduler) (f type ms : ℕ)
    → IsTable s
    → has_task f (live s) ≡ false
    → live (destroy_task (create_task s f type ms) f) ≡ live s
destroy_task-create_task s f type ms v fresh =
    let c = create_task-live s f type ms v in
    rw
      (
        (destroy_task-live (create_task s f type ms) f c.0).1,
        c.1,
        has_task-has_plain f (live s) fresh,
      )
      (elim (Bool-cases (leb scheduler_max_number_of_tasks s.actual_number_of_tasks)) [
        | inl full ↦ rw full (without_self f (live s) fresh)
        | inr room ↦ rw room (without-append f (live s) (new_task s f type ms) fresh hit)
      ])
  where
    hit : is_of f (new_task s f type ms) ≡ true
    hit = ground arith

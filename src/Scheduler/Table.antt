-- ===== src/Scheduler/Table.antt =====
-- The task table as the list of its live tasks: creating appends.
use blesk_os_fork.Base.{
  leb, if◌then◌else◌, get_or, ◌||◌, ◌==◌, length-set, u8, false, true, ap, set, Bool, ℕ, zero, suc,
  ◌+◌, ◌≤◌, ◌<◌, ◌≡◌, refl, arith, List, [], ◌∷◌, ◌++◌, take, length,
}
use blesk_os_fork.Scheduler.{
  task_type_periodic_interrupt_with_parameter, no_task, create_task, create_task_with_parameter,
  scheduler_max_number_of_tasks, is_task_added, append_task, Task, Scheduler,
}

-- The first `n` slots are live, and the counter does not pass the 20 slots.
pub record IsTable (s : Scheduler) : Type 0 where
  pub slots : length s.scheduler_tasks ≡ scheduler_max_number_of_tasks
  pub count : s.actual_number_of_tasks ≤ scheduler_max_number_of_tasks

abbrev pub live : Scheduler → List Task
live s = take s.actual_number_of_tasks s.scheduler_tasks

take-set :
    (ts : List Task) (n : ℕ) (t : Task)
    → n < length ts
    → take (suc n) (set ts n t) ≡ take n ts ++ t ∷ []
take-set [] n t h = absurd (omega arith)
take-set (u ∷ ts) zero t h = refl
take-set (u ∷ ts) (suc n) t h = ap (λ l. u ∷ l) (take-set ts n t (omega arith))

-- Whether some task of a list is the plain function `f`.
unfoldable pub has_plain : ℕ → List Task → Bool
has_plain f [] = false
has_plain f (t ∷ ts) = t.task == f || has_plain f ts

is_task_added-has_plain :
    (n f : ℕ) (ts : List Task) → is_task_added n f ts ≡ has_plain f (take n ts)
unfolding is_task_added has_plain
is_task_added-has_plain zero f ts = refl
is_task_added-has_plain (suc n) f [] = refl
is_task_added-has_plain (suc n) f (t ∷ ts) = rw (is_task_added-has_plain n f ts)

append_task-live :
    (s : Scheduler) (t : Task)
    → IsTable s
    → s.actual_number_of_tasks < scheduler_max_number_of_tasks
    → IsTable (append_task s t) × (live (append_task s t) ≡ live s ++ t ∷ [])
unfolding append_task
append_task-live s t v h =
    let e : u8 (s.actual_number_of_tasks + 1) ≡ suc s.actual_number_of_tasks = omega arith in
    (
      ground (arith, v, length-set s.scheduler_tasks s.actual_number_of_tasks t),
      rw e (take-set s.scheduler_tasks s.actual_number_of_tasks t (omega (arith, v.slots))),
    )

append_task-idle : (s : Scheduler) (t : Task) → (append_task s t).is_task_table_changing ≡ false
unfolding append_task
append_task-idle s t = refl

-- The entry that `create_task` writes. It keeps the parameter that the slot held before.
abbrev pub new_task : Scheduler → ℕ → ℕ → ℕ → Task
new_task s f type ms = record (get_or s.scheduler_tasks s.actual_number_of_tasks no_task) {
  task = f;
  task_with_parameter = 0;
  type = type;
  counter_of_ms = 0;
  number_of_ms_to_be_executed = ms;
}

-- `create_task` on a well-formed table appends the task to the live tasks and leaves the table not being
-- changed, unless the table is full or the same function is there as a plain task: then it changes
-- nothing at all. The table stays well formed.
pub create_task-live :
    (s : Scheduler) (f type ms : ℕ)
    → IsTable s
    → let is_refused =
        leb scheduler_max_number_of_tasks s.actual_number_of_tasks || has_plain f (live s) in
      IsTable (create_task s f type ms)
      × (live (create_task s f type ms)
          ≡ (if is_refused then live s else live s ++ new_task s f type ms ∷ []))
      × (is_refused ≡ true → create_task s f type ms ≡ s)
      × (is_refused ≡ false → (create_task s f type ms).is_task_table_changing ≡ false)
unfolding create_task
create_task-live s f type ms v =
    let same = is_task_added-has_plain s.actual_number_of_tasks f s.scheduler_tasks in
    let appended = append_task-live s (new_task s f type ms) v in
    let idle = append_task-idle s (new_task s f type ms) in
    (
      ground (arith, v, same, appended),
      ground (arith, v, same, appended),
      (λ refused. ground (arith, refused, same)),
      (λ taken. ground (arith, taken, same, idle)),
    )

-- `create_task_with_parameter` appends whenever the table is not full.
pub create_task_with_parameter-live :
    (s : Scheduler) (f parameter ms : ℕ)
    → IsTable s
    → IsTable (create_task_with_parameter s f parameter ms)
      × (live (create_task_with_parameter s f parameter ms) ≡ (
          if leb scheduler_max_number_of_tasks s.actual_number_of_tasks
          then live s
          else live s
            ++ record {
              task = 0;
              task_with_parameter = f;
              type = task_type_periodic_interrupt_with_parameter;
              parameter = parameter;
              counter_of_ms = 0;
              number_of_ms_to_be_executed = ms;
            }
              ∷ []))
unfolding create_task_with_parameter
create_task_with_parameter-live s f parameter ms v = ground (
  arith,
  v,
  append_task-live s
      (record {
        task = 0;
        task_with_parameter = f;
        type = task_type_periodic_interrupt_with_parameter;
        parameter = parameter;
        counter_of_ms = 0;
        number_of_ms_to_be_executed = ms;
      })
      v,
)

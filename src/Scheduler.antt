-- ===== src/Scheduler.antt =====
-- source/drivers/system/scheduler.c and scheduler.h: the table of kernel tasks.
-- A function pointer is a number, and the null pointer is 0. What a task does when it is called is a
-- parameter: it may change the table itself and the rest of the machine.
use blesk_os_fork.Base.{
  ℕ, zero, suc, ◌+◌, ◌-◌, ◌≤◌, ◌<◌, ◌≡◌, Bool, true, false, ◌&&◌, ◌||◌, ltb, leb, ◌==◌, not,
  if◌then◌else◌, List, [], ◌∷◌, ◌++◌, get_or, set, Option, none, some, add32, u8,
}
pub mod Table
pub mod Destroy
pub mod Tick
mod Tests

-- `struct scheduler_task_info`
pub record Task : Type 0 where
  pub task : ℕ
  pub task_with_parameter : ℕ
  pub type : ℕ
  pub parameter : ℕ
  pub counter_of_ms : ℕ
  pub number_of_ms_to_be_executed : ℕ

abbrev pub no_task : Task
no_task = record {
  task = 0;
  task_with_parameter = 0;
  type = 0;
  parameter = 0;
  counter_of_ms = 0;
  number_of_ms_to_be_executed = 0;
}

abbrev pub task_type_periodic_interrupt : ℕ
task_type_periodic_interrupt = 1

abbrev pub task_type_periodic_interrupt_with_parameter : ℕ
task_type_periodic_interrupt_with_parameter = 2

abbrev pub task_type_user_input : ℕ
task_type_user_input = 3

abbrev pub scheduler_max_number_of_tasks : ℕ
scheduler_max_number_of_tasks = 20

-- The globals of scheduler.h.
pub record Scheduler : Type 0 where
  pub scheduler_tasks : List Task
  pub actual_number_of_tasks : ℕ
  pub is_task_table_changing : Bool

pub initalize_scheduler : Scheduler → Scheduler
initalize_scheduler s = record s { actual_number_of_tasks = 0; is_task_table_changing = false }

-- Whether one of the first `n` tasks is the function `f`.
pub is_task_added : ℕ → ℕ → List Task → Bool
is_task_added zero f ts = false
is_task_added (suc n) f [] = false
is_task_added (suc n) f (t ∷ ts) = t.task == f || is_task_added n f ts

-- The writes between the two changes of `is_task_table_changing`.
pub append_task : Scheduler → Task → Scheduler
append_task s t = record s {
  scheduler_tasks = set s.scheduler_tasks s.actual_number_of_tasks t;
  actual_number_of_tasks = u8 (s.actual_number_of_tasks + 1);
  is_task_table_changing = false;
}

-- The field `parameter` of the entry is not written.
pub create_task : Scheduler → ℕ → ℕ → ℕ → Scheduler
create_task s f type ms =
    let n = s.actual_number_of_tasks in
    if leb scheduler_max_number_of_tasks n
    then s
    else (if is_task_added n f s.scheduler_tasks
        then s
        else append_task s (record (get_or s.scheduler_tasks n no_task) {
          task = f;
          task_with_parameter = 0;
          type = type;
          counter_of_ms = 0;
          number_of_ms_to_be_executed = ms;
        }))

pub create_task_with_parameter : Scheduler → ℕ → ℕ → ℕ → Scheduler
create_task_with_parameter s f parameter ms =
    if leb scheduler_max_number_of_tasks s.actual_number_of_tasks
    then s
    else append_task s (record {
      task = 0;
      task_with_parameter = f;
      type = task_type_periodic_interrupt_with_parameter;
      parameter = parameter;
      counter_of_ms = 0;
      number_of_ms_to_be_executed = ms;
    })

abbrev pub is_of : ℕ → Task → Bool
is_of f t = t.task == f || t.task_with_parameter == f

-- The index of the first of `n` tasks that is `f`.
pub find_task : ℕ → ℕ → List Task → Option ℕ
find_task zero f ts = none
find_task (suc n) f [] = none
find_task (suc n) f (t ∷ ts) =
    let rest = find_task n f ts in
    if is_of f t then some 0 else (elim rest [ none ↦ none | some i ↦ some (suc i) ])

-- `remove_space_from_memory_area` on the whole array, for the element `i`: those behind it move
-- down, and the last one is cleared.
pub remove_slot : ℕ → List Task → List Task
remove_slot i [] = []
remove_slot zero (t ∷ ts) = ts ++ no_task ∷ []
remove_slot (suc i) (t ∷ ts) = t ∷ remove_slot i ts

pub destroy_task : Scheduler → ℕ → Scheduler
destroy_task s f = elim (find_task s.actual_number_of_tasks f s.scheduler_tasks) [
  | none ↦ s
  | some i ↦ record s {
    scheduler_tasks = remove_slot i s.scheduler_tasks;
    actual_number_of_tasks = u8 (s.actual_number_of_tasks + 255);
    is_task_table_changing = false;
  }
]

-- The call that an interrupt makes: `task()`, or `task_with_parameter(parameter)`.
pub data Call : Type 0 where
  plain : ℕ → Call
  with_parameter : ℕ → ℕ → Call

-- The two types that the periodic interrupt serves, and the time of a task that aged by 2 ms.
abbrev pub aged : Task → Task
aged t = record t { counter_of_ms = add32 t.counter_of_ms 2 }

abbrev pub is_due : Task → Bool
is_due t =
    (t.type == task_type_periodic_interrupt
      || t.type == task_type_periodic_interrupt_with_parameter)
    && leb t.number_of_ms_to_be_executed t.counter_of_ms

abbrev pub call_of : Task → Call
call_of t =
    if t.type == task_type_periodic_interrupt
    then plain t.task
    else with_parameter t.task_with_parameter t.parameter

abbrev pub restarted : Task → Task
restarted t = record t { counter_of_ms = 0 }

-- `World` is the rest of the machine, and `call` what a called task does.
module _ {ℓ} {World : Type ℓ} (call : Call → Scheduler × World → Scheduler × World) where
  -- The loop of the periodic interrupt from index `i` on. A called task may change the number of
  -- tasks, which the loop reads again on each round; `none` means that the fuel ran out.
  pub serve : ℕ → ℕ → Scheduler × World → Option (Scheduler × World)
  serve zero i (s, w) = none
  serve (suc fuel) i (s, w) =
      let t = aged (get_or s.scheduler_tasks i no_task) in
      let called = serve fuel (i + 1) (
        call (call_of t)
          (record s { scheduler_tasks = set s.scheduler_tasks i (restarted t) }, w)) in
      let passed =
        serve fuel (i + 1) (record s { scheduler_tasks = set s.scheduler_tasks i t }, w) in
      if ltb i s.actual_number_of_tasks then (if is_due t then called else passed) else some (s, w)

  pub scheduler_periodic_interrupt : ℕ → Scheduler × World → Option (Scheduler × World)
  scheduler_periodic_interrupt fuel (s, w) =
      if s.is_task_table_changing then some (s, w) else serve fuel 0 (s, w)

  -- The loop of `scheduler_user_input` from index `i` on; the counters are not advanced here.
  pub serve_input : ℕ → ℕ → Scheduler × World → Option (Scheduler × World)
  serve_input zero i (s, w) = none
  serve_input (suc fuel) i (s, w) =
      let t = get_or s.scheduler_tasks i no_task in
      let called = serve_input fuel (i + 1) (
        call (plain t.task)
          (record s { scheduler_tasks = set s.scheduler_tasks i (restarted t) }, w)) in
      let passed = serve_input fuel (i + 1) (s, w) in
      if ltb i s.actual_number_of_tasks
      then (if t.type == task_type_user_input && leb t.number_of_ms_to_be_executed t.counter_of_ms
          then called
          else passed)
      else some (s, w)

  pub scheduler_user_input : ℕ → Scheduler × World → Option (Scheduler × World)
  scheduler_user_input fuel (s, w) =
      if s.is_task_table_changing then some (s, w) else serve_input fuel 0 (s, w)

-- ===== src/Scheduler/Tests.antt =====
-- A table with two tasks: runs of the scheduler, and its theorems there.
use blesk_os_fork.Base.{
  ◌+◌, ℕ, ◌≡◌, refl, arith, List, [], ◌∷◌, ◌++◌, true, false, replicate, suc, some, if◌then◌else◌,
  leb, ◌||◌,
}
use blesk_os_fork.Scheduler.{
  plain, remove_slot, scheduler_max_number_of_tasks, no_task, find_task,
  scheduler_periodic_interrupt, destroy_task, create_task, Task, Scheduler, Call,
}
use blesk_os_fork.Scheduler.Destroy.{destroy_task-live, without}
use blesk_os_fork.Scheduler.Table.{new_task, has_plain, IsTable, live, create_task-live}
use blesk_os_fork.Scheduler.Tick.{periodic_interrupt_ends, periodic_interrupt-served, quiet, served}

abbrev keyboard : Task
keyboard = record {
  task = 0x1000;
  task_with_parameter = 0;
  type = 1;
  parameter = 0;
  counter_of_ms = 8;
  number_of_ms_to_be_executed = 10;
}

abbrev redraw : Task
redraw = record {
  task = 0;
  task_with_parameter = 0x2000;
  type = 2;
  parameter = 5;
  counter_of_ms = 0;
  number_of_ms_to_be_executed = 100;
}

abbrev scheduler : Scheduler
scheduler = record {
  scheduler_tasks = keyboard ∷ redraw ∷ replicate 18 no_task;
  actual_number_of_tasks = 2;
  is_task_table_changing = false;
}

scheduler-IsTable : IsTable scheduler
scheduler-IsTable = omega arith

-- The world is the list of the calls made.
abbrev record_call : Call → List Call → List Call
record_call c w = w ++ c ∷ []

create_task-live_example :
    let is_refused = leb scheduler_max_number_of_tasks 2 || has_plain 0x3000 (live scheduler) in
    IsTable (create_task scheduler 0x3000 3 4)
    × (live (create_task scheduler 0x3000 3 4) ≡ (
        if is_refused
        then live scheduler
        else live scheduler ++ new_task scheduler 0x3000 3 4 ∷ []))
    × (is_refused ≡ true → create_task scheduler 0x3000 3 4 ≡ scheduler)
    × (is_refused ≡ false → (create_task scheduler 0x3000 3 4).is_task_table_changing ≡ false)
create_task-live_example = create_task-live scheduler 0x3000 3 4 scheduler-IsTable

destroy_task-live_example :
    IsTable (destroy_task scheduler 0x1000)
    × (live (destroy_task scheduler 0x1000) ≡ without 0x1000 (keyboard ∷ redraw ∷ []))
destroy_task-live_example = destroy_task-live scheduler 0x1000 scheduler-IsTable

destroy_runs : live (destroy_task scheduler 0x1000) ≡ redraw ∷ []
unfolding destroy_task find_task remove_slot
destroy_runs = refl

-- A called task that creates another one.
abbrev spawn : Call → Scheduler × ℕ → Scheduler × ℕ
spawn c (s, w) = (create_task s (0x4000 + w) 1 6, suc w)

spawn-IsTable : (c : Call) (s : Scheduler) (w : ℕ) → IsTable s → IsTable (spawn c (s, w)).0
spawn-IsTable c s w v = (create_task-live s (0x4000 + w) 1 6 v).0

periodic_interrupt_ends_example :
    (t : Scheduler × ℕ) × (scheduler_periodic_interrupt spawn
        (suc scheduler_max_number_of_tasks)
        (scheduler, 0)
      ≡ some t)
    × IsTable t.0
periodic_interrupt_ends_example =
    periodic_interrupt_ends spawn spawn-IsTable (scheduler, 0) scheduler-IsTable

periodic_interrupt-served_example :
    scheduler_periodic_interrupt
      (quiet record_call)
      (suc scheduler_max_number_of_tasks)
      (scheduler, [])
    ≡ some (
      record scheduler {
        scheduler_tasks = (served record_call (live scheduler) []).0 ++ replicate 18 no_task;
      },
      (served record_call (live scheduler) []).1,
    )
periodic_interrupt-served_example =
    periodic_interrupt-served record_call scheduler [] (replicate 18 no_task) scheduler-IsTable refl
      refl

served_runs : (served record_call (live scheduler) []).1 ≡ plain 0x1000 ∷ []
unfolding served
served_runs = refl

-- ===== src/Scheduler/Tick.antt =====
-- The interrupt loops: they end, and they serve exactly the tasks that are due.
use blesk_os_fork.Base.{
  ◌%◌, ◌^◌, ◌&&◌, ◌||◌, ◌==◌, leb, Bool, sym, ◌∙◌, length-take, append_assoc, length-append, inr,
  inl, true, false, ap, Bool-cases, set, ltb, length-set, get_or, if◌then◌else◌, some, ℕ, zero, suc,
  ◌+◌, ◌≤◌, ◌<◌, ◌≡◌, refl, arith, List, [], ◌∷◌, ◌++◌, length,
}
use blesk_os_fork.Scheduler.{
  no_task, scheduler_periodic_interrupt, restarted, call_of, is_due, scheduler_max_number_of_tasks,
  aged, serve, Task, Scheduler, Call, plain, with_parameter,
}
use blesk_os_fork.Scheduler.Table.{IsTable, live}

abbrev slot : Scheduler → ℕ → Task → Scheduler
slot s i t = record s { scheduler_tasks = set s.scheduler_tasks i t }

slot-IsTable : (s : Scheduler) (i : ℕ) (t : Task) → IsTable s → IsTable (slot s i t)
slot-IsTable s i t v = ground (arith, v, length-set s.scheduler_tasks i t)

below :
    (s : Scheduler) (i : ℕ)
    → IsTable s
    → ltb i s.actual_number_of_tasks ≡ true
    → i + 1 ≤ scheduler_max_number_of_tasks
below s i v more = ground (arith, v)

module _ {ℓ} {World : Type ℓ} (call : Call → Scheduler × World → Scheduler × World)
    (keeps : (c : Call) (s : Scheduler) (w : World) → IsTable s → IsTable (call c (s, w)).0) where
  serve-total :
      (fuel i : ℕ) (st : Scheduler × World)
      → IsTable st.0
      → i ≤ scheduler_max_number_of_tasks
      → scheduler_max_number_of_tasks < fuel + i
      → (t : Scheduler × World) × (serve call fuel i st ≡ some t) × IsTable t.0
  unfolding serve
  serve-total zero i (s, w) v h f = absurd (omega arith)
  serve-total (suc fuel) i (s, w) v h f =
      let t = aged (get_or s.scheduler_tasks i no_task) in
      elim (Bool-cases (ltb i s.actual_number_of_tasks)) [
        | inr done ↦ ((s, w), rw done refl, v)
        | inl more ↦ elim (Bool-cases (is_due t)) [
          | inl due ↦
              rw (more, due)
                (serve-total fuel (i + 1) (call (call_of t) (slot s i (restarted t), w))
                  (keeps (call_of t) (slot s i (restarted t)) w (slot-IsTable s i (restarted t) v))
                  (below s i v more) (omega arith))
          | inr early ↦
              rw (more, early)
                (serve-total fuel (i + 1) (slot s i t, w) (slot-IsTable s i t v) (below s i v more)
                  (omega arith))
        ]
      ]

  -- The periodic interrupt ends whatever the called tasks do to the table, as long as they leave it
  -- well formed: one round more than the table has slots is enough, and the table is well formed after.
  pub periodic_interrupt_ends :
      (st : Scheduler × World)
      → IsTable st.0
      → (t : Scheduler × World) × (scheduler_periodic_interrupt call
            (suc scheduler_max_number_of_tasks)
            st
          ≡ some t)
        × IsTable t.0
  unfolding scheduler_periodic_interrupt
  periodic_interrupt_ends (s, w) v = elim (Bool-cases s.is_task_table_changing) [
    | inl busy ↦ ((s, w), rw busy refl, v)
    | inr free ↦
        simp free
          (serve-total (suc scheduler_max_number_of_tasks) 0 (s, w) v (omega arith) (omega arith))
  ]

interrupt_idle {ℓ} :
    {World : Type ℓ} (call : Call → Scheduler × World → Scheduler × World) (fuel : ℕ)
    (s : Scheduler) (w : World)
    → s.is_task_table_changing ≡ false
    → scheduler_periodic_interrupt call fuel (s, w) ≡ serve call fuel 0 (s, w)
unfolding scheduler_periodic_interrupt
interrupt_idle call fuel s w idle = simp idle

stops : (i n : ℕ) → n ≤ i → ltb i n ≡ false
stops i n h = ground arith

goes : (i n : ℕ) → i < n → ltb i n ≡ true
goes i n h = ground arith

get_or-middle : (pre post : List Task) (t d : Task) → get_or (pre ++ t ∷ post) (length pre) d ≡ t
get_or-middle [] post t d = refl
get_or-middle (u ∷ pre) post t d = get_or-middle pre post t d

set-middle :
    (pre post : List Task) (t x : Task) → set (pre ++ t ∷ post) (length pre) x ≡ pre ++ x ∷ post
set-middle [] post t x = refl
set-middle (u ∷ pre) post t x = ap (λ l. u ∷ l) (set-middle pre post t x)

-- What the interrupt is to do with a task: 2 ms are added to its time in 32 bits, and a task of one of
-- the periodic types is called and starts again when the time is reached.
abbrev pub later : Task → Task
later t = record t { counter_of_ms = (t.counter_of_ms + 2) % 2 ^ 32 }

abbrev pub is_reached : Task → Bool
is_reached t = (t.type == 1 || t.type == 2) && leb t.number_of_ms_to_be_executed t.counter_of_ms

abbrev pub called : Task → Call
called t = if t.type == 1 then plain t.task else with_parameter t.task_with_parameter t.parameter

-- `World` changes by `effect`, and no called task changes the table.
module _ {ℓ} {World : Type ℓ} (effect : Call → World → World) where
  abbrev pub quiet : Call → Scheduler × World → Scheduler × World
  quiet c (s, w) = (s, effect c w)

  -- The tasks and the world after each task aged by 2 ms and, if it is due then, restarted and was
  -- called, in the order of the table.
  unfoldable pub served : List Task → World → List Task × World
  served [] w = ([], w)
  served (t ∷ ts) w =
      let u = later t in
      if is_reached u
      then (let (us, v) = served ts (effect (called u) w) in
          (record u { counter_of_ms = 0 } ∷ us, v))
      else (let (us, v) = served ts w in (u ∷ us, v))

  advance :
      (cur pre post : List Task) (fuel : ℕ) (s : Scheduler) (w : World) (x : Task)
      → serve quiet fuel (length (pre ++ x ∷ [])) (slot s (length pre) x, w)
        ≡ some (
          record s { scheduler_tasks = (pre ++ x ∷ []) ++ ((served cur w).0 ++ post) },
          (served cur w).1,
        )
      → serve quiet fuel (length pre + 1) (slot s (length pre) x, w)
        ≡ some (
          record s { scheduler_tasks = pre ++ (x ∷ ((served cur w).0 ++ post)) },
          (served cur w).1,
        )
  advance cur pre post fuel s w x ih =
      let i : length pre + 1 ≡ length (pre ++ x ∷ []) =
        omega (arith, length-append {0} pre (x ∷ [])) in
      rw (i, ih, append_assoc pre (x ∷ []) ((served cur w).0 ++ post))

  moved :
      (cur pre post : List Task) (s : Scheduler) (t x : Task)
      → s.scheduler_tasks ≡ pre ++ (t ∷ (cur ++ post))
      → set s.scheduler_tasks (length pre) x ≡ (pre ++ x ∷ []) ++ (cur ++ post)
  moved cur pre post s t x e =
      rw e (set-middle pre (cur ++ post) t x ∙ sym (append_assoc pre (x ∷ []) (cur ++ post)))

  counted :
      (cur pre : List Task) (x : Task) (n : ℕ)
      → n ≡ length pre + suc (length cur)
      → n ≡ length (pre ++ x ∷ []) + length cur
  counted cur pre x n h = omega (arith, length-append {0} pre (x ∷ []))

  serve-served :
      (cur pre post : List Task) (fuel : ℕ) (s : Scheduler) (w : World)
      → s.scheduler_tasks ≡ pre ++ (cur ++ post)
      → s.actual_number_of_tasks ≡ length pre + length cur
      → length cur < fuel
      → serve quiet fuel (length pre) (s, w)
        ≡ some (record s { scheduler_tasks = pre ++ ((served cur w).0 ++ post) }, (served cur w).1)
  unfolding serve served
  serve-served cur pre post zero s w e n h = absurd (omega arith)
  serve-served [] pre post (suc fuel) s w e n h =
      rw (stops (length pre) s.actual_number_of_tasks (omega arith), e)
  serve-served (t ∷ cur) pre post (suc fuel) s w e n h =
      let u = aged t in
      let here : get_or s.scheduler_tasks (length pre) no_task ≡ t =
        rw e (get_or-middle pre (cur ++ post) t no_task) in
      let next = λ (x : Task) (v : World). advance cur pre post fuel s v x (
        serve-served cur (pre ++ x ∷ []) post fuel (slot s (length pre) x) v
          (moved cur pre post s t x e) (counted cur pre x s.actual_number_of_tasks n)
          (omega arith)) in
      rw (goes (length pre) s.actual_number_of_tasks (omega arith), here)
        (elim (Bool-cases (is_due u)) [
          | inl due ↦ rw due (next (restarted u) (effect (call_of u) w))
          | inr early ↦ rw early (next u w)
        ])

  -- The periodic interrupt on a well-formed table that is not being changed, with tasks that leave the
  -- table alone: every live task ages by 2 ms, and exactly the periodic ones whose time is reached are
  -- restarted and called, in the order of the table; the slots behind the live tasks stay.
  pub periodic_interrupt-served :
      (s : Scheduler) (w : World) (post : List Task)
      → IsTable s
      → s.is_task_table_changing ≡ false
      → s.scheduler_tasks ≡ live s ++ post
      → scheduler_periodic_interrupt quiet (suc scheduler_max_number_of_tasks) (s, w)
        ≡ some (record s { scheduler_tasks = (served (live s) w).0 ++ post }, (served (live s) w).1)
  periodic_interrupt-served s w post v idle e =
      let n : length (live s) ≡ s.actual_number_of_tasks =
        omega (arith, length-take s.actual_number_of_tasks s.scheduler_tasks, v.slots, v.count) in
      interrupt_idle quiet (suc scheduler_max_number_of_tasks) s w idle
      ∙ serve-served (live s) [] post (suc scheduler_max_number_of_tasks) s w e (omega (arith, n))
          (omega (arith, n, v))

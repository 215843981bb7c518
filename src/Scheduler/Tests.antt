-- ===== src/Scheduler/Tests.antt =====
-- Runs of kernel/scheduler.c, and its theorems at them.
use rastapopoulos.Base.{
  [], arith, assertion_failed, fail, false, if◌then◌else◌, leb, ltb, not, ok, refl, ℕ, ◌&&◌, ◌+◌,
  ◌<◌, ◌==◌, ◌||◌, ◌↔◌, ◌∷◌, ◌≡◌, ◌≢◌,
}
use rastapopoulos.Scheduler.{
  Scheduler, check_queue, contains, debug_port, first_due, fork, is_due, is_empty, may_wakeup,
  more_tasks, next_from, next_ready, perform_checks, rebooted, remove, sleep, sleep_infinite,
  switched, task_get, task_iomap_test, task_switch, task_switch_next, task_wake, timer,
  wake_tasks_waiting_for_port, wake_waiting, yield,
}
use rastapopoulos.Scheduler.Checks.{IsConsistent, perform_checks_iff}
use rastapopoulos.Scheduler.Fork.{PidsGiven, fork_lem}
use rastapopoulos.Scheduler.Invariant.{IsPlaced, IsValid, Switches, occurrences}
use rastapopoulos.Scheduler.Queues.{count, one_if}
use rastapopoulos.Scheduler.Samples.{
  busy, busy-IsValid, busy-PidsGiven, resting, resting-IsValid, zero_ne_one,
}
use rastapopoulos.Scheduler.Switch.{task_switch_next-Switches}
use rastapopoulos.Scheduler.Timing.{sleep_due, timer_idle_reboots, timer_lem}
use rastapopoulos.Scheduler.Wake.{Kept, task_wake_lem, wake_tasks_waiting_for_port-Kept}

yield_runs : yield busy ≡ ok (record busy { ready = 0 ∷ []; current = 2 })
unfolding yield task_switch_next next_from next_ready first_due remove task_switch perform_checks
    check_queue
yield_runs = refl

-- At 900 the sleeping task 4 runs before the ready ones.
due_runs :
    yield (record busy { now = 900 })
    ≡ ok (record busy { now = 900; ready = 2 ∷ 0 ∷ []; sleeping = 3 ∷ []; current = 4 })
unfolding yield task_switch_next next_from next_ready first_due remove task_switch perform_checks
    check_queue
due_runs = refl

wake_runs :
    (task_wake busy 3 ≡ ok (record busy { ready = 2 ∷ 3 ∷ []; sleeping = 4 ∷ [] }))
    × (task_wake busy 2 ≡ ok busy)
    × (task_wake busy 9 ≡ fail assertion_failed)
    × (wake_tasks_waiting_for_port busy 5
        ≡ ok (record busy { ready = 2 ∷ 3 ∷ []; sleeping = 4 ∷ [] }))
unfolding task_wake task_get contains remove wake_tasks_waiting_for_port wake_waiting
wake_runs = (refl, refl, refl, refl)

timer_runs :
    (timer resting ≡ ok rebooted)
    × (timer busy ≡ ok (switched (record busy { ready = 0 ∷ []; current = 2 })))
unfolding timer more_tasks may_wakeup task_switch_next next_from next_ready first_due remove
    task_switch perform_checks check_queue
timer_runs = (refl, refl)

perform_checks_iff_example : (perform_checks busy ≡ ok tt) ↔ IsConsistent busy
perform_checks_iff_example = perform_checks_iff busy

placed : IsPlaced (record busy { ready = 2 ∷ 0 ∷ []; now = 900 })
unfolding count
placed = record {
  once = λ p. ground arith;
  not_idle = refl;
  small = λ p h. ground arith;
  idle_small = omega arith;
}

three_sleeps : 0 < count 3 (3 ∷ 4 ∷ [])
unfolding count
three_sleeps = omega arith

-- At 900, when the deadline of task 4 has come.
task_switch_next-Switches_example :
    Switches
      (record busy { ready = 2 ∷ 0 ∷ []; now = 900 })
      (task_switch_next (record busy { ready = 2 ∷ 0 ∷ []; now = 900 }))
task_switch_next-Switches_example =
    task_switch_next-Switches (record busy { ready = 2 ∷ 0 ∷ []; now = 900 }) placed

wake_tasks_waiting_for_port-Kept_example :
    (after : Scheduler) × (wake_tasks_waiting_for_port busy 5 ≡ ok after)
    × Kept busy after
    × ((p : ℕ) → 0 < count p after.sleeping → (after.tasks p).wait_cansend_port ≢ 5)
    × ((p : ℕ)
        → (busy.tasks p).wait_cansend_port ≢ 5
        → (count p after.sleeping ≡ count p (3 ∷ 4 ∷ []))
          × (count p after.ready ≡ count p (2 ∷ [])))
wake_tasks_waiting_for_port-Kept_example = wake_tasks_waiting_for_port-Kept busy 5 busy-IsValid

fork_lem_example :
    (after : Scheduler) × (fork busy ≡ ok (5, after))
    × IsValid after
    × PidsGiven after
    × (occurrences busy 5 ≡ 0)
    × (after.ready ≡ 2 ∷ 5 ∷ [])
    × (after.sleeping ≡ 3 ∷ 4 ∷ [])
    × (after.exited ≡ [])
    × (after.current ≡ 0)
    × ((p : ℕ) → occurrences after p ≡ occurrences busy p + one_if (5 == p))
    × ((port : ℕ)
        → port < 65536
        → task_iomap_test (after.tasks 5).iomap port ≡ ok (not (port == debug_port)))
fork_lem_example = fork_lem busy busy-IsValid busy-PidsGiven (omega arith)

task_wake_lem_example :
    (0 < count 3 (3 ∷ 4 ∷ [])
      → let after = record busy { ready = 2 ∷ 3 ∷ []; sleeping = remove (3 ∷ 4 ∷ []) 3 } in
        (task_wake busy 3 ≡ ok after) × Kept busy after × (count 3 after.sleeping ≡ 0))
    × (count 3 (3 ∷ 4 ∷ []) ≡ 0
        → task_wake busy 3 ≡ (
            if (3 == busy.idle) || (3 == busy.current) || ltb 0 (count 3 busy.ready)
            then ok busy
            else fail assertion_failed))
task_wake_lem_example = task_wake_lem busy 3 busy-IsValid

timer_lem_example :
    (is_empty busy.ready && (busy.current == busy.idle) ≡ false
      → (after : Scheduler) × (timer busy ≡ ok (switched after))
        × IsValid after
        × ((p : ℕ) → occurrences after p + count p busy.exited ≡ occurrences busy p))
    × (busy.current ≡ busy.idle → busy.ready ≡ [] → timer busy ≡ ok rebooted)
timer_lem_example = timer_lem busy busy-IsValid

-- The premises of the other branch hold when nothing is ready.
idle_runs : timer resting ≡ ok rebooted
idle_runs = timer_idle_reboots resting resting-IsValid refl refl

sleep_due_example :
    (after : Scheduler) × (sleep busy 50 ≡ ok after)
    × ((time : ℕ)
        → is_due time (after.tasks 0) ≡ (50 == sleep_infinite) && leb (100 + sleep_infinite) time)
sleep_due_example = sleep_due busy 50 busy-IsValid zero_ne_one (omega arith)

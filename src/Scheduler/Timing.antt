-- ===== src/Scheduler/Timing.antt =====
-- The timer interrupt, and the deadlines of sleeping tasks.
use rastapopoulos.Base.{
  Bool-cases, List, [], ap, arith, false, inl, inr, leb, not, ok, refl, true, ℕ, ◌&&◌, ◌+◌, ◌<◌,
  ◌==◌, ◌^◌, ◌∙◌, ◌∷◌, ◌≡◌, ◌≢◌, ◌≤◌,
}
use rastapopoulos.Scheduler.{
  Scheduler, Task, invalid_port, is_due, is_empty, may_wakeup, more_tasks, push, rebooted, requeued,
  sleep, sleep_infinite, switched, timer, waiting_task,
}
use rastapopoulos.Scheduler.Calls.{task_block-tasks}
use rastapopoulos.Scheduler.Checks.{perform_checks_lem, total}
use rastapopoulos.Scheduler.Invariant.{IsPlaced, IsValid, occurrences}
use rastapopoulos.Scheduler.Queues.{count, count-push}
use rastapopoulos.Scheduler.Samples.{busy, tasks}
use rastapopoulos.Scheduler.Switch.{task_switch_next-Switches}

-- The timer puts the running task, unless it is the idle task, behind the ready tasks and forgets
-- the exited ones.
requeued-count : (s : Scheduler) (p : ℕ) → total (requeued s) p + count p s.exited ≡ occurrences s p
unfolding count
requeued-count s p = ground (arith, count-push p s.ready s.current)

occurrences-le_one : (s : Scheduler) (p : ℕ) → IsValid s → occurrences s p ≤ 1
occurrences-le_one s p v = ground (arith, v.consistent.once p, v.consistent.not_current)

occurrences_high : (s : Scheduler) (p : ℕ) → IsValid s → 32 ≤ p → occurrences s p ≡ 0
occurrences_high s p v h = ground (arith, v.consistent.small p, v.current_small)

occurrences_idle : (s : Scheduler) → IsValid s → occurrences s s.idle ≡ 0
occurrences_idle s v = ground (arith, v.consistent.not_idle)

requeued-IsPlaced : (s : Scheduler) → IsValid s → IsPlaced (requeued s)
requeued-IsPlaced s v = record {
  once = λ p. omega (arith, requeued-count s p, occurrences-le_one s p v);
  not_idle = omega (arith, requeued-count s s.idle, occurrences_idle s v);
  small = λ p h. omega (arith, requeued-count s p, occurrences_high s p v h);
  idle_small = v.idle_small;
}

never_wakeup : (tasks : ℕ → Task) (q : List ℕ) → may_wakeup tasks q ≡ false
unfolding may_wakeup
never_wakeup tasks [] = refl
never_wakeup tasks (p ∷ q) = ground (arith, never_wakeup tasks q)

more_tasks_lem : (s : Scheduler) → more_tasks s ≡ not (is_empty s.ready)
unfolding more_tasks
more_tasks_lem s = ground (arith, never_wakeup s.tasks s.sleeping)

push_ne : (q : List ℕ) (x : ℕ) → is_empty (push q x) ≡ false
push_ne [] x = refl
push_ne (y ∷ q) x = refl

-- A timer interrupt in a valid state, when a task other than the idle task runs or a task is
-- ready, passes its checks and ends in a switch; the state stays valid, and no task loses or
-- gains a place but the exited ones, which are forgotten.
pub timer_switches :
    (s : Scheduler)
    → IsValid s
    → is_empty s.ready && (s.current == s.idle) ≡ false
    → (after : Scheduler) × (timer s ≡ ok (switched after))
      × IsValid after
      × ((p : ℕ) → occurrences after p + count p s.exited ≡ occurrences s p)
unfolding timer
timer_switches s v busy =
    let w = task_switch_next-Switches (requeued s) (requeued-IsPlaced s v) in
    (
      w.after,
      rw (perform_checks_lem s v.consistent, more_tasks_lem, ready, w.returns) refl,
      w.valid,
      λ p. omega (arith, w.conserved p, requeued-count s p),
    )
  where
    ready : is_empty (requeued s).ready ≡ false
    ready = ground (arith, push_ne s.ready s.current)

-- A timer interrupt in a valid state that finds the idle task running and no task ready reboots,
-- whatever tasks sleep and whatever their deadlines are.
pub timer_idle_reboots :
    (s : Scheduler) → IsValid s → s.current ≡ s.idle → s.ready ≡ [] → timer s ≡ ok rebooted
unfolding timer
timer_idle_reboots s v idle empty =
    rw (perform_checks_lem s v.consistent, more_tasks_lem, none_ready) refl
  where
    none_ready : is_empty (requeued s).ready ≡ true
    none_ready = ground arith

-- In a valid state, a task that is not the idle task and sleeps for a number of milliseconds
-- other than SLEEP_INFINITE is not due at any time.
pub sleep_never_due :
    (s : Scheduler) (millis : ℕ)
    → IsValid s
    → s.current ≢ s.idle
    → millis ≢ sleep_infinite
    → (after : Scheduler) × (sleep s millis ≡ ok after)
      × ((time : ℕ) → is_due time (after.tasks s.current) ≡ false)
unfolding sleep waiting_task
sleep_never_due s millis v ne finite =
    let (after, e, t) = task_block-tasks s invalid_port invalid_port millis v ne in
    (after, e, λ time. rw t (ground arith))

-- In a valid state and while the clock is 2 ^ 32 - 1 ms or more from its end, a task that is not
-- the idle task and sleeps for SLEEP_INFINITE is due when 2 ^ 32 - 1 milliseconds have passed,
-- and not before.
pub sleep_infinite_due :
    (s : Scheduler)
    → IsValid s
    → s.current ≢ s.idle
    → s.now + sleep_infinite < 2 ^ 64
    → (after : Scheduler) × (sleep s sleep_infinite ≡ ok after)
      × ((time : ℕ) → is_due time (after.tasks s.current) ≡ leb (s.now + sleep_infinite) time)
unfolding sleep waiting_task
sleep_infinite_due s v ne fits =
    let (after, e, t) = task_block-tasks s invalid_port invalid_port sleep_infinite v ne in
    (after, e, λ time. rw t (ground arith))

-- A timer interrupt in a valid state passes its checks. If the idle task runs and no task is ready it
-- reboots, whatever tasks sleep and whatever their deadlines are. Otherwise it ends in a switch; the
-- state stays valid, and no task loses or gains a place but the exited ones, which are forgotten.
pub timer_lem :
    (s : Scheduler)
    → IsValid s
    → (is_empty s.ready && (s.current == s.idle) ≡ false
        → (after : Scheduler) × (timer s ≡ ok (switched after))
          × IsValid after
          × ((p : ℕ) → occurrences after p + count p s.exited ≡ occurrences s p))
      × (s.current ≡ s.idle → s.ready ≡ [] → timer s ≡ ok rebooted)
timer_lem s v = (timer_switches s v, timer_idle_reboots s v)

-- In a valid state and while the clock is 2 ^ 32 - 1 ms or more from its end, a task that is not
-- the idle task and sleeps for SLEEP_INFINITE is due when 2 ^ 32 - 1 milliseconds have passed, and not
-- before. One that sleeps for any other number of milliseconds is not due at any time.
pub sleep_due :
    (s : Scheduler) (millis : ℕ)
    → IsValid s
    → s.current ≢ s.idle
    → s.now + sleep_infinite < 2 ^ 64
    → (after : Scheduler) × (sleep s millis ≡ ok after)
      × ((time : ℕ)
          → is_due time (after.tasks s.current)
            ≡ (millis == sleep_infinite) && leb (s.now + sleep_infinite) time)
sleep_due s millis v ne fits = elim (Bool-cases (millis == sleep_infinite)) [
  | inl forever ↦
      let e : millis ≡ sleep_infinite = ground arith in
      let (after, returns, due) = sleep_infinite_due s v ne fits in
      (after, ap (sleep s) e ∙ returns, λ time. rw forever (due time))
  | inr finite ↦
      let (after, returns, never) = sleep_never_due s millis v ne (ground arith) in
      (after, returns, λ time. rw finite (never time))
]

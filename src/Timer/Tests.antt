-- ===== src/Timer/Tests.antt =====
-- Runs of kernel/timer.c on a table of three timers, and its theorems at it.
use rastapopoulos.Base.{
  Bool, List, Outcome, [], arith, leb, ok, refl, replicate, true, ℕ, ◌++◌, ◌+◌, ◌<◌, ◌==◌, ◌>>=◌,
  ◌^◌, ◌∷◌, ◌≡◌,
}
use rastapopoulos.Scheduler.{Scheduler, rebooted, switched, timer}
use rastapopoulos.Scheduler.Samples.{busy}
use rastapopoulos.Timer.{
  Called, TimerInfo, Timers, called, end_one_shot, fill_hole, find_timer, irq_handler, is_due,
  remove_at, run_triggered, scan, timer_schedule, timer_unschedule, triggered_at,
}
use rastapopoulos.Timer.Interrupt.{due_timers, irq_handler_lem, run_callbacks, stamp_all}
use rastapopoulos.Timer.Schedule.{timer_schedule-timer_unschedule}
use rastapopoulos.Timer.Table.{IsValid, NoId, Removed, active, timer_unschedule_lem}

abbrev timer_of : ℕ → ℕ → TimerInfo
timer_of id period = record {
  id = id;
  callback = 100 + id;
  callback_data = 0;
  period = period;
  recurring = true;
  last_triggered = 0;
}

abbrev three : Timers
three = record {
  current_timestamp = 40;
  ticks = 4;
  timers = timer_of 0 50 ∷ timer_of 1 70 ∷ timer_of 2 50 ∷ replicate 7 (timer_of 0 0);
  timer_count = 3;
  next_timer_id = 3;
}

three-IsValid : IsValid three
three-IsValid = record { size = refl; room = omega arith }

-- The world is the list of the callbacks that were called, the last first. Callback 102 is gone.
abbrev log_step : TimerInfo → List ℕ → Outcome (Bool × List ℕ)
log_step t w = ok (t.callback == 102, t.callback ∷ w)

abbrev log_call : TimerInfo → List ℕ → Timers → Outcome (Called (List ℕ))
log_call t w s = log_step t w >>= λ (gone, w'). ok (called gone w' s)

-- The callback of the scheduler, which does not come back.
abbrev scheduler_step : TimerInfo → Scheduler → Outcome (Bool × Scheduler)
scheduler_step t q =
    timer q >>= λ tick. elim tick [ switched q' ↦ ok (true, q') | rebooted ↦ ok (true, q) ]

abbrev scheduler_call : TimerInfo → Scheduler → Timers → Outcome (Called Scheduler)
scheduler_call t q s = scheduler_step t q >>= λ (gone, q'). ok (called gone q' s)

-- Taking the first timer out loses the last one; an empty slot is among the active ones instead.
unschedule_runs :
    timer_unschedule three 0
    ≡ ok (record three {
      timers = timer_of 0 0 ∷ timer_of 1 70 ∷ timer_of 2 50 ∷ replicate 7 (timer_of 0 0);
      timer_count = 2;
    })
unfolding timer_unschedule find_timer remove_at fill_hole
unschedule_runs = refl

interrupt_runs :
    (after : Timers) × (irq_handler log_call [] three ≡ ok (called true (102 ∷ 100 ∷ []) after))
unfolding irq_handler scan is_due run_triggered end_one_shot
interrupt_runs = (_, refl)

timer_unschedule_lem_example :
    (NoId 2 (active three) → timer_unschedule three 2 ≡ ok three)
    × ((front behind : List TimerInfo) (t : TimerInfo)
        → active three ≡ front ++ (t ∷ behind)
        → NoId 2 front
        → t.id ≡ 2
        → Removed three front behind (timer_unschedule three 2))
timer_unschedule_lem_example = timer_unschedule_lem three 2 three-IsValid

timer_schedule-timer_unschedule_example :
    (after final : Timers) × (timer : TimerInfo) × (timer_schedule three 7 0 20 true
      ≡ ok (3, after))
    × IsValid after
    × (active after ≡ active three ++ (timer ∷ []))
    × (timer.id ≡ 3)
    × (timer.callback ≡ 7)
    × (timer.callback_data ≡ 0)
    × (timer.period ≡ 20)
    × (timer.recurring ≡ true)
    × (timer_unschedule after 3 ≡ ok final)
    × (active final ≡ active three)
timer_schedule-timer_unschedule_example =
    timer_schedule-timer_unschedule three 7 0 20 true three-IsValid (omega arith) (omega arith)
      ((λ e. omega arith), ((λ e. omega arith), ((λ e. omega arith), tt)))

-- Two timers of the scheduler are due; the first switches to another task.
irq_handler_lem_example :
    (after : Timers) × (irq_handler scheduler_call busy three ≡ (
      run_callbacks scheduler_call scheduler_step (due_timers 50 (active three)) busy
      >>= λ (gone, q). ok (called gone q after)))
    × IsValid after
    × (after.current_timestamp ≡ 50)
    × (active after ≡ stamp_all 50 (active three))
    × ((t : TimerInfo) (later : ℕ)
        → 50 + t.period < 2 ^ 64
        → is_due later (triggered_at 50 t) ≡ leb (50 + t.period) later)
irq_handler_lem_example =
    irq_handler_lem scheduler_call scheduler_step busy three three-IsValid
      (refl, (refl, (refl, tt))) (λ t q s. refl)

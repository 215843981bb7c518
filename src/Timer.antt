-- ===== src/Timer.antt =====
-- kernel/timer.c: the table of timers, and what the interrupt of the clock does with it.
-- A callback is code of another file: `call` says what it does to the world and to the table. The
-- handler runs with interrupts off, so the critical sections change nothing.
pub mod Table
pub mod Schedule
pub mod Interrupt
mod Tests
use rastapopoulos.Base.{
  Bool, List, Option, Outcome, [], assert, fail, false, if◌then◌else◌, leb, ltb, none, not, ok,
  out_of_range, read, some, store, suc, undefined, zero, ℕ, ◌%◌, ◌+◌, ◌-◌, ◌==◌, ◌>>=◌, ◌>>◌, ◌^◌,
  ◌∷◌,
}

abbrev pub max_timers : ℕ
max_timers = 10

-- The milliseconds of one tick, 1000 / FREQ.
abbrev pub ticks_per_ms : ℕ
ticks_per_ms = 10

pub record TimerInfo : Type 0 where
  pub id : ℕ
  pub callback : ℕ
  pub callback_data : ℕ
  pub period : ℕ
  pub recurring : Bool
  pub last_triggered : ℕ

pub record Timers : Type 0 where
  pub current_timestamp : ℕ
  pub ticks : ℕ
  pub timers : List TimerInfo
  pub timer_count : ℕ
  pub next_timer_id : ℕ

-- The time of the last trigger is that of the timer that was in the slot before.
pub scheduled : Timers → TimerInfo → ℕ → ℕ → ℕ → Bool → TimerInfo
scheduled s slot callback callback_data period recurring = record slot {
  id = s.next_timer_id;
  callback = callback;
  callback_data = callback_data;
  period = period;
  recurring = recurring;
}

-- `next_timer_id` is an `int`.
pub timer_schedule : Timers → ℕ → ℕ → ℕ → Bool → Outcome (ℕ × Timers)
timer_schedule s callback callback_data period recurring = do
  assert (ltb s.timer_count (max_timers - 1))
  next ← (if ltb s.next_timer_id 0x7FFFFFFF then ok (s.next_timer_id + 1) else fail undefined)
  slot ← read s.timers s.timer_count
  timers ← store s.timers s.timer_count (scheduled s slot callback callback_data period recurring)
  ok (
    s.next_timer_id,
    record s { timers = timers; timer_count = s.timer_count + 1; next_timer_id = next },
  )

-- The index of the first of `left` slots with that id.
pub find_timer : ℕ → ℕ → List TimerInfo → ℕ → Outcome (Option ℕ)
find_timer zero i slots id = ok none
find_timer (suc left) i [] id = fail out_of_range
find_timer (suc left) i (t ∷ slots) id =
    let rest = find_timer left (i + 1) slots id in if t.id == id then ok (some i) else rest

-- `index != timer_count` for each index that the loop finds.
pub fill_hole : Timers → ℕ → Outcome (List TimerInfo)
fill_hole s index =
    if not (index == s.timer_count)
    then (read s.timers s.timer_count >>= store s.timers index)
    else ok s.timers

pub remove_at : Timers → Option ℕ → Outcome Timers
remove_at s none = ok s
remove_at s (some index) = fill_hole s index >>= λ timers.
    ok (record s { timers = timers; timer_count = s.timer_count - 1 })

pub timer_unschedule : Timers → ℕ → Outcome Timers
timer_unschedule s id = find_timer s.timer_count 0 s.timers id >>= remove_at s

pub is_due : ℕ → TimerInfo → Bool
is_due now t = leb ((t.last_triggered + t.period) % 2 ^ 64) now

abbrev pub triggered_at : ℕ → TimerInfo → TimerInfo
triggered_at now t = record t { last_triggered = now }

-- The first loop of `irq_handler`: the table, and the triggered timers, of which the array has room
-- for as many as the table.
pub scan : ℕ → ℕ → List TimerInfo → Outcome (List TimerInfo × List TimerInfo)
scan now zero slots = ok (slots, [])
scan now (suc left) [] = fail out_of_range
scan now (suc left) (t ∷ slots) = scan now left slots >>= λ (slots', triggered).
    (if is_due now t
      then ok (triggered_at now t ∷ slots', triggered_at now t ∷ triggered)
      else ok (t ∷ slots', triggered))

pub end_one_shot : TimerInfo → Timers → Outcome Timers
end_one_shot t s = if t.recurring then ok s else timer_unschedule s t.id

-- What a call of a callback leaves. A callback may be gone for good, as the one of the scheduler is,
-- which switches to another task: the handler that called it does not go on then.
pub record Called (World : Type 0) : Type 0 where
  pub gone : Bool
  pub world : World
  pub table : Timers

abbrev pub called : {World : Type 0} → Bool → World → Timers → Called World
called gone w s = record { gone = gone; world = w; table = s }

module _ {World : Type 0} (call : TimerInfo → World → Timers → Outcome (Called World)) where
  -- The second loop: each callback, and the end of the timers that do not recur.
  pub run_triggered : List TimerInfo → World → Timers → Outcome (Called World)
  run_triggered [] w s = ok (called false w s)
  run_triggered (t ∷ triggered) w s = call t w s >>= λ c.
      (if c.gone then ok c else (end_one_shot t c.table >>= run_triggered triggered c.world))

  pub irq_handler : World → Timers → Outcome (Called World)
  irq_handler w s = do
    let now = (s.current_timestamp + ticks_per_ms) % 2 ^ 64
    (slots, triggered) ← scan now s.timer_count s.timers
    run_triggered triggered w
        (record s { ticks = (s.ticks + 1) % 2 ^ 64; current_timestamp = now; timers = slots })

-- ===== src/Timer/Interrupt.antt =====
-- `irq_handler`: which callbacks an interrupt of the clock runs, and what it leaves in the table.
use rastapopoulos.Base.{
  Bool, Bool-cases, List, Outcome, [], ap, arith, fail, false, if◌then◌else◌, inl, inr, leb, length,
  length-append, ok, refl, suc, sym, take, true, ℕ, ◌%◌, ◌++◌, ◌+◌, ◌<◌, ◌>>=◌, ◌^◌, ◌∙◌, ◌∷◌, ◌≡◌,
}
use rastapopoulos.Base.Sequences.{take-append, take_all}
use rastapopoulos.Timer.{
  Called, TimerInfo, Timers, called, end_one_shot, irq_handler, is_due, run_triggered, scan,
  ticks_per_ms, timer_unschedule, triggered_at,
}
use rastapopoulos.Timer.Table.{IsValid, active, table_parts}

pub stamped : ℕ → TimerInfo → TimerInfo
stamped now t = if is_due now t then triggered_at now t else t

pub stamp_all : ℕ → List TimerInfo → List TimerInfo
stamp_all now [] = []
stamp_all now (t ∷ slots) = stamped now t ∷ stamp_all now slots

pub due_timers : ℕ → List TimerInfo → List TimerInfo
due_timers now [] = []
due_timers now (t ∷ slots) =
    if is_due now t then triggered_at now t ∷ due_timers now slots else due_timers now slots

abbrev pub AllRecurring : List TimerInfo → Type 0
AllRecurring [] = Unit
AllRecurring (t ∷ slots) = (t.recurring ≡ true) × AllRecurring slots

scan_lem :
    (now : ℕ) (slots rest : List TimerInfo)
    → scan now (length slots) (slots ++ rest)
      ≡ ok (stamp_all now slots ++ rest, due_timers now slots)
unfolding scan stamp_all due_timers stamped
scan_lem now [] rest = refl
scan_lem now (t ∷ slots) rest = elim (Bool-cases (is_due now t)) [
  | inl due ↦ rw (scan, scan_lem now slots rest, stamp_all, due_timers, stamped, due) refl
  | inr early ↦ rw (scan, scan_lem now slots rest, stamp_all, due_timers, stamped, early) refl
]

due_timers-AllRecurring :
    (now : ℕ) (slots : List TimerInfo) → AllRecurring slots → AllRecurring (due_timers now slots)
unfolding due_timers
due_timers-AllRecurring now [] h = tt
due_timers-AllRecurring now (t ∷ slots) h = elim (Bool-cases (is_due now t)) [
  | inl due ↦ rw (due_timers, due) (h.0, due_timers-AllRecurring now slots h.1)
  | inr early ↦ rw (due_timers, early) (due_timers-AllRecurring now slots h.1)
]

length-stamp_all : (now : ℕ) (slots : List TimerInfo) → length (stamp_all now slots) ≡ length slots
unfolding stamp_all
length-stamp_all now [] = refl
length-stamp_all now (t ∷ slots) = ap suc (length-stamp_all now slots)

goes_on : (t : TimerInfo) (s : Timers) → t.recurring ≡ true → end_one_shot t s ≡ ok s
unfolding end_one_shot
goes_on t s e = ap (λ (b : Bool). if b then ok s else timer_unschedule s t.id) e

-- `step` is what a callback does: whether it is gone for good, and the world that it leaves. The
-- callbacks leave the table alone.
module _ {World : Type 0} (call : TimerInfo → World → Timers → Outcome (Called World))
    (step : TimerInfo → World → Outcome (Bool × World)) where
  -- The callbacks of the timers in turn, up to the first that is gone.
  pub run_callbacks : List TimerInfo → World → Outcome (Bool × World)
  run_callbacks [] w = ok (false, w)
  run_callbacks (t ∷ triggered) w =
      step t w >>= λ (gone, w'). (if gone then ok (true, w') else run_callbacks triggered w')

  abbrev pub Quiet : Type 0
  Quiet =
      (t : TimerInfo) (w : World) (s : Timers)
      → call t w s ≡ (step t w >>= λ (gone, w'). ok (called gone w' s))

  run_triggered_lem :
      (triggered : List TimerInfo) (w : World) (s : Timers)
      → Quiet
      → AllRecurring triggered
      → run_triggered call triggered w s
        ≡ (run_callbacks triggered w >>= λ (gone, w'). ok (called gone w' s))
  unfolding run_triggered run_callbacks
  run_triggered_lem [] w s quiet recur = refl
  run_triggered_lem (t ∷ triggered) w s quiet recur =
      rw (run_triggered, run_callbacks, quiet t w s)
        (stepped (λ w'. run_triggered_lem triggered w' s quiet recur.1) (step t w))
    where
      stepped :
          ((w' : World)
            → run_triggered call triggered w' s
              ≡ (run_callbacks triggered w' >>= λ (gone, w''). ok (called gone w'' s)))
          → (r : Outcome (Bool × World))
          → ((r >>= λ (gone, w'). ok (called gone w' s)) >>= λ c.
              (if c.gone
                then ok c
                else (end_one_shot t c.table >>= run_triggered call triggered c.world)))
            ≡ ((r >>= λ (gone, w'). (if gone then ok (true, w') else run_callbacks triggered w'))
                >>= λ (gone, w'). ok (called gone w' s))
      stepped rest (fail e) = refl
      stepped rest (ok (true, w')) = refl
      stepped rest (ok (false, w')) = rw (goes_on t s recur.0) (rest w')

  scanned :
      (s : Timers) (now : ℕ)
      → IsValid s
      → (slots : List TimerInfo) × (scan now s.timer_count s.timers
          ≡ ok (slots, due_timers now (active s)))
        × (length slots ≡ length s.timers)
        × (take s.timer_count slots ≡ stamp_all now (active s))
  scanned s now v =
      let (stale, rest, whole, len) = table_parts s v in
      let stamps = length-stamp_all now (active s) in
      (
        stamp_all now (active s) ++ (stale ∷ rest),
        ap (λ (n : ℕ). scan now n s.timers) (sym len)
            ∙ ap (scan now (length (active s))) whole
            ∙ scan_lem now (active s) (stale ∷ rest),
        omega (
          arith,
          ap length whole,
          length-append (active s) (stale ∷ rest),
          length-append (stamp_all now (active s)) (stale ∷ rest),
          stamps,
        ),
        take-append (stamp_all now (active s)) (stale ∷ rest) s.timer_count
              (omega (arith, stamps, len))
            ∙ take_all (stamp_all now (active s)) s.timer_count (omega (arith, stamps, len)),
      )

  -- An interrupt on a valid table of recurring timers, whose callbacks leave the table alone, puts
  -- the clock on by a tick and runs the callbacks of the timers that are due then, and of no
  -- others, in the order of the table, up to and including the first that does not return, or that
  -- has no result. Before them the due timers are stamped: the table stays valid, and a timer that
  -- was triggered is due again when its period has passed, if that is before the end of the clock.
  pub irq_handler_lem :
      (w : World) (s : Timers)
      → IsValid s
      → AllRecurring (active s)
      → Quiet
      → let now = (s.current_timestamp + ticks_per_ms) % 2 ^ 64 in
        (after : Timers) × (irq_handler call w s ≡ (
          run_callbacks (due_timers now (active s)) w >>= λ (gone, w'). ok (called gone w' after)))
        × IsValid after
        × (after.current_timestamp ≡ now)
        × (active after ≡ stamp_all now (active s))
        × ((t : TimerInfo) (later : ℕ)
            → now + t.period < 2 ^ 64
            → is_due later (triggered_at now t) ≡ leb (now + t.period) later)
  unfolding irq_handler is_due
  irq_handler_lem w s v recur quiet =
      let now = (s.current_timestamp + ticks_per_ms) % 2 ^ 64 in
      let (slots, found, same, stamps) = scanned s now v in
      let after = record s {
        ticks = (s.ticks + 1) % 2 ^ 64;
        current_timestamp = now;
        timers = slots;
      } in
      let ran =
        run_triggered_lem (due_timers now (active s)) w after quiet
          (due_timers-AllRecurring now (active s) recur) in
      (
        after,
        rw (irq_handler, found) ran,
        record { size = same ∙ v.size; room = v.room },
        refl,
        stamps,
        due_again now,
      )
    where
      due_again :
          (now : ℕ) (t : TimerInfo) (later : ℕ)
          → now + t.period < 2 ^ 64
          → is_due later (triggered_at now t) ≡ leb (now + t.period) later
      due_again now t later h =
          let small : (now + t.period) % 2 ^ 64 ≡ now + t.period = omega arith in
          rw (is_due, small) refl

-- ===== src/Timer/Schedule.antt =====
-- `timer_schedule`, and undoing it.
use rastapopoulos.Base.{
  Bool, List, Outcome, [], ap, append_assoc, arith, length, length-append, ltb, ok, read, refl,
  store, sym, take, true, ℕ, ◌++◌, ◌+◌, ◌-◌, ◌<◌, ◌∙◌, ◌∷◌, ◌≡◌,
}
use rastapopoulos.Base.Sequences.{read_at, store_at, take-append, take_all}
use rastapopoulos.Timer.{TimerInfo, Timers, max_timers, scheduled, timer_schedule, timer_unschedule}
use rastapopoulos.Timer.Table.{IsValid, NoId, active, table_parts, timer_unschedule_lem}

schedule_parts :
    (s : Timers) (callback callback_data period : ℕ) (recurring : Bool)
    (front rest : List TimerInfo) (slot : TimerInfo)
    → s.timers ≡ front ++ (slot ∷ rest)
    → length front ≡ s.timer_count
    → s.timer_count < 9
    → s.next_timer_id < 0x7FFFFFFF
    → timer_schedule s callback callback_data period recurring
      ≡ ok (
        s.next_timer_id,
        record s {
          timers = front ++ (scheduled s slot callback callback_data period recurring ∷ rest);
          timer_count = s.timer_count + 1;
          next_timer_id = s.next_timer_id + 1;
        },
      )
unfolding timer_schedule
schedule_parts s callback callback_data period recurring front rest slot whole len room ids =
    let t = scheduled s slot callback callback_data period recurring in
    let some_room : ltb s.timer_count (max_timers - 1) ≡ true = ground arith in
    let some_id : ltb s.next_timer_id 0x7FFFFFFF ≡ true = ground arith in
    let slot_read : read s.timers s.timer_count ≡ ok slot =
      ap (λ (l : List TimerInfo). read l s.timer_count) whole
      ∙ ap (λ (n : ℕ). read (front ++ (slot ∷ rest)) n) (sym len)
      ∙ read_at front rest slot in
    let written : store s.timers s.timer_count t ≡ ok (front ++ (t ∷ rest)) =
      ap (λ (l : List TimerInfo). store l s.timer_count t) whole
      ∙ ap (λ (n : ℕ). store (front ++ (slot ∷ rest)) n t) (sym len)
      ∙ store_at front rest slot t in
    rw (some_room, some_id, slot_read, written) refl

-- What `timer_schedule` makes of a table.
record Scheduled (s : Timers) (callback callback_data period : ℕ) (recurring : Bool)
    (result : Outcome (ℕ × Timers)) : Type 0 where
  after : Timers
  timer : TimerInfo
  returns : result ≡ ok (s.next_timer_id, after)
  valid : IsValid after
  counted : after.timer_count ≡ s.timer_count + 1
  actives : active after ≡ active s ++ (timer ∷ [])
  same_id : timer.id ≡ s.next_timer_id
  calls : timer.callback ≡ callback
  passes : timer.callback_data ≡ callback_data
  every : timer.period ≡ period
  recurs : timer.recurring ≡ recurring

timer_schedule-Scheduled :
    (s : Timers) (callback callback_data period : ℕ) (recurring : Bool)
    → IsValid s
    → s.timer_count < 9
    → s.next_timer_id < 0x7FFFFFFF
    → Scheduled s callback callback_data period recurring
        (timer_schedule s callback callback_data period recurring)
unfolding scheduled
timer_schedule-Scheduled s callback callback_data period recurring v room ids =
    let (slot, rest, whole, len) = table_parts s v in
    let t = scheduled s slot callback callback_data period recurring in
    let size_before = ap length whole ∙ length-append (active s) (slot ∷ rest) in
    let size_after = length-append (active s) (t ∷ rest) in
    let cut = append_assoc (active s) (t ∷ []) rest in
    record {
      after = record s {
        timers = active s ++ (t ∷ rest);
        timer_count = s.timer_count + 1;
        next_timer_id = s.next_timer_id + 1;
      };
      timer = t;
      returns =
          schedule_parts s callback callback_data period recurring (active s) rest slot whole len
            room ids;
      valid = record { size = omega (arith, v.size, size_before, size_after); room = omega arith };
      counted = refl;
      actives =
          ap (λ (l : List TimerInfo). take (s.timer_count + 1) l) (sym cut)
          ∙ take-append (active s ++ (t ∷ [])) rest (s.timer_count + 1)
              (omega (arith, len, length-append (active s) (t ∷ [])))
          ∙ take_all (active s ++ (t ∷ [])) (s.timer_count + 1)
              (omega (arith, len, length-append (active s) (t ∷ [])));
      same_id = refl;
      calls = refl;
      passes = refl;
      every = refl;
      recurs = refl;
    }

-- With fewer than nine active timers in a valid table, and an id left, `timer_schedule` puts a timer
-- with the next id and with the callback, the data, the period and the flag that were asked for behind
-- the active ones and returns that id; the table stays valid. If no active timer had the id, `timer_unschedule` of it leaves the same active timers as before.
pub timer_schedule-timer_unschedule :
    (s : Timers) (callback callback_data period : ℕ) (recurring : Bool)
    → IsValid s
    → s.timer_count < 9
    → s.next_timer_id < 0x7FFFFFFF
    → NoId s.next_timer_id (active s)
    → (after final : Timers) × (timer : TimerInfo) × (timer_schedule s callback callback_data period
          recurring
        ≡ ok (s.next_timer_id, after))
      × IsValid after
      × (active after ≡ active s ++ (timer ∷ []))
      × (timer.id ≡ s.next_timer_id)
      × (timer.callback ≡ callback)
      × (timer.callback_data ≡ callback_data)
      × (timer.period ≡ period)
      × (timer.recurring ≡ recurring)
      × (timer_unschedule after s.next_timer_id ≡ ok final)
      × (active final ≡ active s)
timer_schedule-timer_unschedule s callback callback_data period recurring v room ids fresh =
    let w = timer_schedule-Scheduled s callback callback_data period recurring v room ids in
    let r =
      (timer_unschedule_lem w.after s.next_timer_id w.valid).1 (active s) [] w.timer w.actives fresh
        w.same_id in
    let (stale, rest, whole, len) = table_parts s v in
    let same =
      r.actives
      ∙ take-append (active s) (r.stale ∷ []) (w.after.timer_count - 1)
          (omega (arith, w.counted, len))
      ∙ take_all (active s) (w.after.timer_count - 1) (omega (arith, w.counted, len)) in
    (
      w.after, r.after, w.timer, w.returns, w.valid, w.actives, w.same_id, w.calls, w.passes,
      w.every, w.recurs, r.returns, same,
    )

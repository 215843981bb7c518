-- ===== src/Timer/Table.antt =====
-- `timer_schedule` and `timer_unschedule`: which timers are in the table.
-- There is room for all timers and one slot behind them, which `timer_unschedule` reads.
use rastapopoulos.Base.{
  List, Outcome, [], ap, append_assoc, arith, false, length, length-append, none, ok, read, refl,
  some, store, suc, sym, take, true, zero, ℕ, ◌++◌, ◌+◌, ◌-◌, ◌<◌, ◌==◌, ◌∙◌, ◌∷◌, ◌≡◌, ◌≢◌, ◌≤◌,
}
use rastapopoulos.Base.Sequences.{cut_at, cut_before, read_at, store_at, take-append}
use rastapopoulos.Timer.{
  TimerInfo, Timers, fill_hole, find_timer, max_timers, remove_at, timer_unschedule,
}

pub record IsValid (s : Timers) : Type 0 where
  pub size : length s.timers ≡ max_timers
  pub room : s.timer_count < max_timers

abbrev pub active : Timers → List TimerInfo
active s = take s.timer_count s.timers

-- No timer of the list has the id.
abbrev pub NoId : ℕ → List TimerInfo → Type 0
NoId id [] = Unit
NoId id (t ∷ slots) = (t.id ≢ id) × NoId id slots

find_timer_hit :
    (front behind : List TimerInfo) (t : TimerInfo) (i left id : ℕ)
    → NoId id front
    → t.id ≡ id
    → find_timer (length front + suc left) i (front ++ (t ∷ behind)) id
      ≡ ok (some (i + length front))
unfolding find_timer
find_timer_hit [] behind t i left id others e =
    let count : length {A = TimerInfo} [] + suc left ≡ suc left = omega arith in
    let hit : (t.id == id) ≡ true = ground arith in
    let first : i + length {A = TimerInfo} [] ≡ i = omega arith in rw (count, hit, first) refl
find_timer_hit (u ∷ front) behind t i left id others e =
    let count : suc (length front) + suc left ≡ suc (length front + suc left) = omega arith in
    let other : (u.id == id) ≡ false = ground (arith, others.0) in
    let next : i + suc (length front) ≡ i + 1 + length front = omega arith in
    rw (count, other, next) (find_timer_hit front behind t (i + 1) left id others.1 e)

find_timer_miss :
    (left i id : ℕ) (slots : List TimerInfo)
    → left ≤ length slots
    → NoId id (take left slots)
    → find_timer left i slots id ≡ ok none
unfolding find_timer
find_timer_miss zero i id slots h others = refl
find_timer_miss (suc left) i id [] h others = absurd (omega arith)
find_timer_miss (suc left) i id (t ∷ slots) h others =
    let other : (t.id == id) ≡ false = ground (arith, others.0) in
    rw other (find_timer_miss left (i + 1) id slots (omega arith) others.1)

-- The whole table, cut at the active timers.
pub table_parts :
    (s : Timers)
    → IsValid s
    → (stale : TimerInfo) × (rest : List TimerInfo) × (s.timers ≡ active s ++ (stale ∷ rest))
      × (length (active s) ≡ s.timer_count)
table_parts s v =
    let (whole, len) = cut_at s.timer_count s.timers (omega (arith, v.size, v.room)) in
    let (stale, rest, e) = cut_before s.timer_count s.timers (omega (arith, v.size, v.room)) in
    (stale, rest, whole ∙ ap (λ (l : List TimerInfo). take s.timer_count s.timers ++ l) e, len)

-- Filling the hole of a timer in the table with the slot behind the active ones.
removed :
    (s : Timers) (front behind rest : List TimerInfo) (t stale : TimerInfo)
    → s.timers ≡ (front ++ (t ∷ behind)) ++ (stale ∷ rest)
    → length (front ++ (t ∷ behind)) ≡ s.timer_count
    → remove_at s (some (length front))
      ≡ ok (record s {
        timers = (front ++ (stale ∷ behind)) ++ (stale ∷ rest);
        timer_count = s.timer_count - 1;
      })
unfolding remove_at fill_hole
removed s front behind rest t stale whole len =
    let hole : (length front == s.timer_count) ≡ false =
      ground (arith, length-append front (t ∷ behind)) in
    let read_stale : read s.timers s.timer_count ≡ ok stale =
      ap (λ (l : List TimerInfo). read l s.timer_count) whole
      ∙ ap (λ (n : ℕ). read ((front ++ (t ∷ behind)) ++ (stale ∷ rest)) n) (sym len)
      ∙ read_at (front ++ (t ∷ behind)) rest stale in
    let filled : store s.timers (length front) stale
        ≡ ok ((front ++ (stale ∷ behind)) ++ (stale ∷ rest)) =
      ap (λ (l : List TimerInfo). store l (length front) stale)
        (whole ∙ append_assoc front (t ∷ behind) (stale ∷ rest))
      ∙ store_at front (behind ++ (stale ∷ rest)) t stale
      ∙ ap ok (sym (append_assoc front (stale ∷ behind) (stale ∷ rest))) in
    rw (hole, read_stale, filled) refl

-- What becomes of a table from which the timer between `front` and `behind` is taken out.
pub record Removed (s : Timers) (front behind : List TimerInfo) (result : Outcome Timers)
    : Type 0 where
  pub after : Timers
  pub stale : TimerInfo
  pub returns : result ≡ ok after
  pub valid : IsValid after
  pub stale_slot : read s.timers s.timer_count ≡ ok stale
  pub actives : active after ≡ take (s.timer_count - 1) (front ++ (stale ∷ behind))

timer_unschedule-Removed :
    (s : Timers) (front behind rest : List TimerInfo) (t stale : TimerInfo) (id : ℕ)
    → IsValid s
    → s.timers ≡ (front ++ (t ∷ behind)) ++ (stale ∷ rest)
    → length (front ++ (t ∷ behind)) ≡ s.timer_count
    → NoId id front
    → t.id ≡ id
    → Removed s front behind (timer_unschedule s id)
unfolding timer_unschedule
timer_unschedule-Removed s front behind rest t stale id v whole len others e =
    let size = length-append front (t ∷ behind) in
    let count : s.timer_count ≡ length front + suc (length behind) = omega (arith, size, len) in
    let found : find_timer s.timer_count 0 s.timers id ≡ ok (some (length front)) =
      ap (λ (l : List TimerInfo). find_timer s.timer_count 0 l id)
        (whole ∙ append_assoc front (t ∷ behind) (stale ∷ rest))
      ∙ ap (λ (n : ℕ). find_timer n 0 (front ++ (t ∷ (behind ++ (stale ∷ rest)))) id) count
      ∙ find_timer_hit front (behind ++ (stale ∷ rest)) t 0 (length behind) id others e
      ∙ ap (λ (n : ℕ). ok (some n)) (omega arith) in
    let size_before = ap length whole ∙ length-append (front ++ (t ∷ behind)) (stale ∷ rest) in
    let size_after = length-append (front ++ (stale ∷ behind)) (stale ∷ rest) in
    let size_front = length-append front (stale ∷ behind) in
    record {
      after = record s {
        timers = (front ++ (stale ∷ behind)) ++ (stale ∷ rest);
        timer_count = s.timer_count - 1;
      };
      stale = stale;
      returns = rw found (removed s front behind rest t stale whole len);
      valid = record {
        size = omega (arith, v.size, size_before, size_after, size, size_front);
        room = omega (arith, v.room);
      };
      stale_slot =
          ap (λ (l : List TimerInfo). read l s.timer_count) whole
          ∙ ap (λ (n : ℕ). read ((front ++ (t ∷ behind)) ++ (stale ∷ rest)) n) (sym len)
          ∙ read_at (front ++ (t ∷ behind)) rest stale;
      actives =
          take-append (front ++ (stale ∷ behind)) (stale ∷ rest) (s.timer_count - 1)
            (omega (arith, len, size, size_front));
    }

unschedule_none :
    (s : Timers) (id : ℕ) → IsValid s → NoId id (active s) → timer_unschedule s id ≡ ok s
unfolding timer_unschedule remove_at
unschedule_none s id v others =
    rw (find_timer_miss s.timer_count 0 id s.timers (omega (arith, v.size, v.room)) others) refl

-- `timer_unschedule` on a valid table. For an id that no active timer has it changes nothing.
-- Otherwise the first timer with the id leaves the table, which stays valid: the slot behind the
-- active timers takes its place, and the last place is given up. So the right timers are left when
-- it was the last, and otherwise the last timer is lost.
pub timer_unschedule_lem :
    (s : Timers) (id : ℕ)
    → IsValid s
    → (NoId id (active s) → timer_unschedule s id ≡ ok s)
      × ((front behind : List TimerInfo) (t : TimerInfo)
          → active s ≡ front ++ (t ∷ behind)
          → NoId id front
          → t.id ≡ id
          → Removed s front behind (timer_unschedule s id))
timer_unschedule_lem s id v = (
  λ others. unschedule_none s id v others,
  λ front behind t e others hit.
      let (stale, rest, whole, len) = table_parts s v in
      timer_unschedule-Removed s front behind rest t stale id v
        (whole ∙ ap (λ (l : List TimerInfo). l ++ (stale ∷ rest)) e) (sym (ap length e) ∙ len)
        others hit,
)

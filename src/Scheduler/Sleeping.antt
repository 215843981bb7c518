-- ===== src/Scheduler/Sleeping.antt =====
-- The sleeping queue across a block: who sleeps after `task_block` of kernel/scheduler.c.
use rastapopoulos.Base.{
  Bool-cases, List, Option, [], arith, assertion_failed, fail, false, first_step, if◌then◌else◌,
  inl, inr, ltb, ltb→lt, none, ok, refl, some, sym, true, ℕ, ◌+◌, ◌<◌, ◌==◌, ◌^◌, ◌||◌, ◌∙◌, ◌∷◌,
  ◌≡◌, ◌≢◌, ◌≤◌,
}
use rastapopoulos.Scheduler.{
  Scheduler, Task, block, first_due, is_due, next_from, next_ready, perform_checks, push, remove,
  set_task, sleep_infinite, task_block, task_get, task_switch, task_switch_next, task_wake,
  waiting_task,
}
use rastapopoulos.Scheduler.Calls.{calls-Keeps, task_block-tasks}
use rastapopoulos.Scheduler.Invariant.{IsValid}
use rastapopoulos.Scheduler.Queues.{contains-count, count, count-push}
use rastapopoulos.Scheduler.Wake.{Kept, task_wake-Kept, task_wake_awake}

task_switch-returns :
    (s : Scheduler) (p : ℕ) {after : Scheduler}
    → task_switch s p ≡ ok after
    → after ≡ record s { current = p }
unfolding task_switch
task_switch-returns s p e =
    let (done, passed, rest) = first_step (perform_checks (record s { current = p })) _ e in cc

first_due-is_due :
    (tasks : ℕ → Task) (now : ℕ) (q : List ℕ) {p : ℕ}
    → first_due tasks now q ≡ some p
    → is_due now (tasks p) ≡ true
unfolding first_due
first_due-is_due tasks now [] e = cc
first_due-is_due tasks now (x ∷ q) {p} e = elim (Bool-cases (is_due now (tasks x))) [
  | inl due ↦ let x≡p : x ≡ p = ground arith in rw (sym x≡p) due
  | inr no_due ↦ ground (arith, first_due-is_due tasks now q {p = p})
]

count-remove_le : (p : ℕ) (q : List ℕ) (x : ℕ) → count p (remove q x) ≤ count p q
unfolding count remove
count-remove_le p [] x = omega arith
count-remove_le p (y ∷ q) x = ground (arith, count-remove_le p q x)

count-remove_other : (p : ℕ) (q : List ℕ) (x : ℕ) → x ≢ p → count p (remove q x) ≡ count p q
unfolding count remove
count-remove_other p [] x ne = refl
count-remove_other p (y ∷ q) x ne = ground (arith, count-remove_other p q x ne)

-- What a switch does to the sleeping queue: nobody falls asleep, and who is not due sleeps on.
pub record Sleepers (s after : Scheduler) : Type 0 where
  pub fewer : (p : ℕ) → count p after.sleeping ≤ count p s.sleeping
  pub undue :
      (p : ℕ) → is_due s.now (s.tasks p) ≡ false → count p after.sleeping ≡ count p s.sleeping

same-Sleepers : (s after : Scheduler) → after.sleeping ≡ s.sleeping → Sleepers s after
same-Sleepers s after e = record { fewer = λ p. rw e (omega arith); undue = λ p h. rw e refl }

next_ready-Sleepers :
    (s : Scheduler) (q : List ℕ) {after : Scheduler} → next_ready s q ≡ ok after → Sleepers s after
unfolding next_ready
next_ready-Sleepers s [] {after} e =
    let r = task_switch-returns s s.idle e in same-Sleepers s after (rw r refl)
next_ready-Sleepers s (x ∷ q) {after} e =
    let r = task_switch-returns (record s { ready = remove (x ∷ q) x }) x e in
    same-Sleepers s after (rw r refl)

next_from-Sleepers :
    (s : Scheduler) (o : Option ℕ) {after : Scheduler}
    → first_due s.tasks s.now s.sleeping ≡ o
    → next_from s o ≡ ok after
    → Sleepers s after
unfolding next_from next_ready
next_from-Sleepers s (some x) {after} d e =
    let r = task_switch-returns _ x e in
    record {
      fewer = λ p. rw r (count-remove_le p s.sleeping x);
      undue = λ p h. rw r (count-remove_other p s.sleeping x (λ same. not_due same h));
    }
  where
    not_due : {p : ℕ} → x ≡ p → is_due s.now (s.tasks p) ≡ false → ⊥
    not_due {p} same h = let due = first_due-is_due s.tasks s.now s.sleeping d in cc
next_from-Sleepers s none {after} d e = next_ready-Sleepers s s.ready e

pub task_switch_next-Sleepers :
    (s : Scheduler) {after : Scheduler} → task_switch_next s ≡ ok after → Sleepers s after
unfolding task_switch_next
task_switch_next-Sleepers s e = next_from-Sleepers s (first_due s.tasks s.now s.sleeping) refl e

-- After `task_block` no other task has fallen asleep, and the caller sleeps unless it is due at once.
pub task_block-sleeping :
    (s : Scheduler) (canrecv cansend timeout : ℕ) {after : Scheduler}
    → IsValid s
    → task_block s canrecv cansend timeout ≡ ok after
    → ((p : ℕ) → p ≢ s.current → count p after.sleeping ≤ count p s.sleeping)
      × (is_due s.now (waiting_task s canrecv cansend timeout) ≡ false
          → count s.current after.sleeping ≡ 1)
unfolding task_block block
task_block-sleeping s canrecv cansend timeout {after} v e =
    let w = task_switch_next-Sleepers blocked e in
    (
      λ p ne. ground (arith, w.fewer p, count-push p s.sleeping s.current),
      λ h. ground (
        arith,
        w.undue s.current (ground arith),
        count-push s.current s.sleeping s.current,
        v.consistent.not_current,
      ),
    )
  where
    blocked : Scheduler
    blocked = record (set_task s s.current (waiting_task s canrecv cansend timeout)) {
      sleeping = push s.sleeping s.current;
    }

still-Kept : (s : Scheduler) → IsValid s → Kept s s
still-Kept s v = record {
  valid = v;
  conserved = λ p. refl;
  same_current = refl;
  same_idle = refl;
  same_exited = refl;
  same_tasks = refl;
  same_now = refl;
}

-- `task_wake` of a task that `task_get` finds succeeds, and the task does not sleep any more.
pub task_wake_found :
    (s : Scheduler) (p : ℕ)
    → IsValid s
    → task_get s p ≡ true
    → (woken : Scheduler) × (task_wake s p ≡ ok woken) × Kept s woken × (count p woken.sleeping ≡ 0)
task_wake_found s p v live = elim (Bool-cases (ltb 0 (count p s.sleeping))) [
  | inl asleep ↦
      let (e, kept, gone) = task_wake-Kept s p v (ltb→lt 0 (count p s.sleeping) asleep) in
      (_, e, kept, gone)
  | inr awake ↦
      let none_asleep : count p s.sleeping ≡ 0 = ground arith in
      (s, task_wake_awake s p none_asleep ∙ still_there none_asleep, still-Kept s v, none_asleep)
]
  where
    still_there :
        count p s.sleeping ≡ 0
        → (if (p == s.idle) || (p == s.current) || ltb 0 (count p s.ready)
            then ok s
            else fail assertion_failed)
          ≡ ok s
    still_there h =
        unfold task_get in
        ground (arith, live, contains-count s.ready p, contains-count s.sleeping p)

undue :
    (s : Scheduler) (canrecv cansend : ℕ)
    → s.now + 2 ^ 32 < 2 ^ 64
    → is_due s.now (waiting_task s canrecv cansend sleep_infinite) ≡ false
unfolding waiting_task
undue s canrecv cansend early = ground arith

-- A block without a timeout: the caller sleeps, and nobody else falls asleep.
pub blocked_lem :
    (s : Scheduler) (canrecv cansend : ℕ)
    → IsValid s
    → s.current ≢ s.idle
    → s.now + 2 ^ 32 < 2 ^ 64
    → (after : Scheduler) × (task_block s canrecv cansend sleep_infinite ≡ ok after)
      × IsValid after
      × (count s.current after.sleeping ≡ 1)
      × ((p : ℕ) → p ≢ s.current → count p after.sleeping ≤ count p s.sleeping)
      × ((after.tasks s.current).wait_canrecv_port ≡ canrecv)
      × ((after.tasks s.current).wait_cansend_port ≡ cansend)
unfolding waiting_task
blocked_lem s canrecv cansend v ne early =
    let k = (calls-Keeps s canrecv cansend sleep_infinite v ne).3.1.keeps in
    let (fewer, asleep) = task_block-sleeping s canrecv cansend sleep_infinite v k.returns in
    let (a, returns, waits) = task_block-tasks s canrecv cansend sleep_infinite v ne in
    let same : k.after ≡ a = cc in
    (
      k.after,
      k.returns,
      k.valid,
      asleep (undue s canrecv cansend early),
      fewer,
      rw (same, waits) refl,
      rw (same, waits) refl,
    )

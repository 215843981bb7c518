-- ===== src/Scheduler/Switch.antt =====
-- `task_switch_next`: whom it chooses, and that its checks pass.
use native.Mathlib.Decide.{dec_lt}
use rastapopoulos.Base.{
  Bool-cases, List, Option-cases, [], ap, arith, false, if◌then◌else◌, inl, inr, none, refl, some,
  sym, true, ℕ, ◌+◌, ◌<◌, ◌==◌, ◌∷◌, ◌≡◌,
}
use rastapopoulos.Scheduler.{
  Scheduler, first_due, next_from, next_ready, remove, task_switch, task_switch_next,
}
use rastapopoulos.Scheduler.Checks.{IsConsistent, perform_checks_lem, total}
use rastapopoulos.Scheduler.Choice.{
  Runs, first_due-none, first_due-some, runs_due, runs_idle, runs_ready,
}
use rastapopoulos.Scheduler.Invariant.{IsPlaced, Switches}
use rastapopoulos.Scheduler.Queues.{count, count-remove, first_due-count, one_if}

-- With `q` the scheduler after the task `p` was taken from its queue (the idle task stands in none),
-- `p` runs.
module _ (s q : Scheduler) (p : ℕ) (v : IsPlaced s) (same_idle : q.idle ≡ s.idle)
    (same_tasks : q.tasks ≡ s.tasks) (ran : Runs s (record q { current = p }))
    (left : (x : ℕ) → total q x + (if p == s.idle then 0 else one_if (p == x)) ≡ total s x) where
  not_current : total q p ≡ 0
  not_current = ground (arith, left p, v.not_idle, v.once p)

  running-IsConsistent : IsConsistent (record q { current = p })
  running-IsConsistent = record {
    once = λ x. omega (arith, v.once x, left x);
    not_current = not_current;
    not_idle = rw same_idle (omega (arith, v.not_idle, left s.idle));
    small = λ x h. omega (arith, v.small x h, left x);
  }

  small_pid : p < 32
  small_pid = elim (dec_lt p 32) [
    | yes h ↦ h
    | no h ↦ absurd (ground (arith, v.small p, left p, v.idle_small))
  ]

  task_switch-Switches : Switches s (task_switch q p)
  unfolding task_switch
  task_switch-Switches = record {
    after = record q { current = p };
    returns = rw (perform_checks_lem (record q { current = p }) running-IsConsistent);
    valid = record {
      consistent = running-IsConsistent;
      current_small = small_pid;
      idle_small = rw same_idle v.idle_small;
    };
    conserved = λ x. ground (arith, left x, same_idle);
    ran = ran;
    same_idle = same_idle;
    same_tasks = same_tasks;
  }

-- A task of a queue is not the idle task.
queued_ne_idle : (s : Scheduler) (p : ℕ) → IsPlaced s → 0 < total s p → (p == s.idle) ≡ false
queued_ne_idle s p v h = elim (Bool-cases (p == s.idle)) [
  | inl e ↦ absurd (ground (arith, v.not_idle))
  | inr e ↦ e
]

from_sleeping :
    (s : Scheduler) (p : ℕ)
    → IsPlaced s
    → first_due s.tasks s.now s.sleeping ≡ some p
    → Switches s (task_switch (record s { sleeping = remove s.sleeping p }) p)
from_sleeping s p v e =
    let w = first_due-some s.tasks s.now s.sleeping p e in
    task_switch-Switches s (record s { sleeping = remove s.sleeping p }) p v refl refl
      (runs_due w.ahead w.rear p w.whole w.ahead_waits w.deadline_set w.deadline_come
        (ap (λ (l : List ℕ). record s { sleeping = l; current = p }) w.taken_out))
      left
  where
    inside : 0 < count p s.sleeping
    inside = first_due-count s.tasks s.now s.sleeping e

    left :
        (x : ℕ)
        → count x s.ready
            + count x (remove s.sleeping p)
            + count x s.exited
            + (if p == s.idle then 0 else one_if (p == x))
          ≡ total s x
    left x =
        rw (queued_ne_idle s p v (omega (arith, inside)))
          (omega (arith, count-remove x s.sleeping p inside))

from_ready :
    (s : Scheduler) (q : List ℕ)
    → IsPlaced s
    → q ≡ s.ready
    → first_due s.tasks s.now s.sleeping ≡ none
    → Switches s (next_ready s q)
unfolding next_ready
from_ready s [] v e none_due =
    task_switch-Switches s s s.idle v refl refl
      (runs_idle (first_due-none s.tasks s.now s.sleeping none_due) (sym e) refl)
      (λ x. ground arith)
from_ready s (p ∷ q) v e none_due =
    task_switch-Switches s (record s { ready = remove (p ∷ q) p }) p v refl refl
      (runs_ready p q (first_due-none s.tasks s.now s.sleeping none_due) (sym e) first_removed) left
  where
    first_removed :
        record s { ready = remove (p ∷ q) p; current = p } ≡ record s { ready = q; current = p }
    first_removed =
        let test : (p == p) ≡ true = ground arith in
        let gone : remove (p ∷ q) p ≡ q = unfold remove in rw test refl in
        ap (λ (l : List ℕ). record s { ready = l; current = p }) gone

    counts : (x : ℕ) → count x (p ∷ q) ≡ count x s.ready
    counts x = ap (count x) e

    inside : 0 < count p (p ∷ q)
    inside = unfold count in ground arith

    left :
        (x : ℕ)
        → count x (remove (p ∷ q) p)
            + count x s.sleeping
            + count x s.exited
            + (if p == s.idle then 0 else one_if (p == x))
          ≡ total s x
    left x =
        rw (queued_ne_idle s p v (omega (arith, inside, counts p)))
          (omega (arith, count-remove x (p ∷ q) p inside, counts x))

-- `task_switch_next`, entered with the current task put into a queue, runs the first sleeping task
-- whose deadline is set and has come, else the oldest ready task, else the idle task. No check fails,
-- the task leaves its queue, which keeps its order, nothing else changes, and no task loses or gains a
-- place.
pub task_switch_next-Switches : (s : Scheduler) → IsPlaced s → Switches s (task_switch_next s)
unfolding task_switch_next next_from
task_switch_next-Switches s v = elim (Option-cases (first_due s.tasks s.now s.sleeping)) [
  | inl none_due ↦ rw (none_due, next_from) (from_ready s s.ready v refl none_due)
  | inr (p, e) ↦ rw (e, next_from) (from_sleeping s p v e)
]

-- ===== src/Scheduler/Calls.antt =====
-- The system calls that give the processor away: yield, exit, block and sleep.
use rastapopoulos.Base.{
  Outcome, [], ap, arith, false, ok, refl, true, ℕ, ◌++◌, ◌+◌, ◌==◌, ◌∙◌, ◌∷◌, ◌≡◌, ◌≢◌,
}
use rastapopoulos.Scheduler.{
  Scheduler, Task, block, exit, push, set_task, task_block, task_switch_next, waiting_task, yield,
}
use rastapopoulos.Scheduler.Checks.{total}
use rastapopoulos.Scheduler.Choice.{Runs}
use rastapopoulos.Scheduler.Invariant.{IsPlaced, IsValid, occurrences}
use rastapopoulos.Scheduler.Queues.{count-push, one_if}
use rastapopoulos.Scheduler.Switch.{task_switch_next-Switches}

-- A call ended in a valid state in which every task has as many places as before.
pub record Keeps (s : Scheduler) (result : Outcome Scheduler) : Type 0 where
  pub after : Scheduler
  pub returns : result ≡ ok after
  pub valid : IsValid after
  pub conserved : (p : ℕ) → occurrences after p ≡ occurrences s p
  pub same_idle : after.idle ≡ s.idle

-- A call that put the caller into a queue, and is then in the state `queued`, kept the places and left
-- that state to whoever runs next from it.
pub record Yields (s queued : Scheduler) (result : Outcome Scheduler) : Type 0 where
  pub keeps : Keeps s result
  pub runs : Runs queued keeps.after

-- The current task, which is not the idle task, was put into one of the queues.
abbrev Moved : Scheduler → Scheduler → Type 0
Moved s q = (p : ℕ) → total q p ≡ total s p + one_if (s.current == p)

Moved-IsPlaced :
    (s q : Scheduler) → IsValid s → s.current ≢ s.idle → q.idle ≡ s.idle → Moved s q → IsPlaced q
Moved-IsPlaced s q v ne same m = record {
  once = λ p. ground (arith, m p, v.consistent.once p, v.consistent.not_current);
  not_idle = rw same (ground (arith, m s.idle, v.consistent.not_idle));
  small = λ p h. ground (arith, m p, v.consistent.small p, v.current_small);
  idle_small = rw same v.idle_small;
}

switch-Moved :
    (s q : Scheduler)
    → IsValid s
    → s.current ≢ s.idle
    → q.idle ≡ s.idle
    → Moved s q
    → Yields s q (task_switch_next q)
switch-Moved s q v ne same m =
    let w = task_switch_next-Switches q (Moved-IsPlaced s q v ne same m) in
    let keeps : Keeps s (task_switch_next q) = record {
      after = w.after;
      returns = w.returns;
      valid = w.valid;
      conserved = λ p. ground (arith, w.conserved p, m p);
      same_idle = w.same_idle ∙ same;
    } in
    record { keeps = keeps; runs = w.ran }

own_task : (s : Scheduler) (t : Task) → (set_task s s.current t).tasks s.current ≡ t
own_task s t = let test : (s.current == s.current) ≡ true = ground arith in rw test refl

other_task :
    (s : Scheduler) (t : Task) (p : ℕ)
    → p ≢ s.current
    → (set_task s s.current t).tasks p ≡ s.tasks p
other_task s t p ne = let test : (p == s.current) ≡ false = ground arith in rw test refl

pub calls-Keeps :
    (s : Scheduler) (canrecv cansend timeout : ℕ)
    → IsValid s
    → s.current ≢ s.idle
    → Yields s (record s { ready = s.ready ++ (s.current ∷ []) }) (yield s)
      × Yields s (record s { exited = s.exited ++ (s.current ∷ []) }) (exit s)
      × Yields s (record s { sleeping = s.sleeping ++ (s.current ∷ []) }) (block s)
      × ((tasks : ℕ → Task) × Yields s
            (record s { tasks = tasks; sleeping = s.sleeping ++ (s.current ∷ []) })
            (task_block s canrecv cansend timeout)
          × ((tasks s.current).wait_canrecv_port ≡ canrecv)
          × ((tasks s.current).wait_cansend_port ≡ cansend)
          × ((p : ℕ) → p ≢ s.current → tasks p ≡ s.tasks p))
unfolding yield exit task_block block waiting_task
calls-Keeps s canrecv cansend timeout v ne = (
  switch-Moved s (record s { ready = push s.ready s.current }) v ne refl
      (λ p. omega (arith, count-push p s.ready s.current)),
  switch-Moved s (record s { exited = push s.exited s.current }) v ne refl
      (λ p. omega (arith, count-push p s.exited s.current)),
  switch-Moved s (record s { sleeping = push s.sleeping s.current }) v ne refl
      (λ p. omega (arith, count-push p s.sleeping s.current)),
  (
    (set_task s s.current (waiting_task s canrecv cansend timeout)).tasks,
    switch-Moved s
        (record (set_task s s.current (waiting_task s canrecv cansend timeout)) {
          sleeping = push s.sleeping s.current;
        })
        v ne refl (λ p. omega (arith, count-push p s.sleeping s.current)),
    ap (λ (t : Task). t.wait_canrecv_port) (own_task s (waiting_task s canrecv cansend timeout)),
    ap (λ (t : Task). t.wait_cansend_port) (own_task s (waiting_task s canrecv cansend timeout)),
    other_task s (waiting_task s canrecv cansend timeout),
  ),
)

-- After `task_block` the waiting condition of the task that called it is the one asked for.
pub task_block-tasks :
    (s : Scheduler) (canrecv cansend timeout : ℕ)
    → IsValid s
    → s.current ≢ s.idle
    → (after : Scheduler) × (task_block s canrecv cansend timeout ≡ ok after)
      × (after.tasks s.current ≡ waiting_task s canrecv cansend timeout)
unfolding task_block block
task_block-tasks s canrecv cansend timeout v ne =
    let w = task_switch_next-Switches blocked (
      Moved-IsPlaced s blocked v ne refl (λ p. omega (arith, count-push p s.sleeping s.current))) in
    (w.after, w.returns, rw w.same_tasks (ground arith))
  where
    blocked : Scheduler
    blocked = record (set_task s s.current (waiting_task s canrecv cansend timeout)) {
      sleeping = push s.sleeping s.current;
    }

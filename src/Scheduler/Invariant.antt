-- ===== src/Scheduler/Invariant.antt =====
-- The invariant of the scheduler between two entries of the kernel, and the number of places that a
-- task has.
use rastapopoulos.Base.{Outcome, if◌then◌else◌, ok, ℕ, ◌+◌, ◌<◌, ◌==◌, ◌≡◌, ◌≤◌}
use rastapopoulos.Scheduler.{Scheduler}
use rastapopoulos.Scheduler.Checks.{IsConsistent, total}
use rastapopoulos.Scheduler.Choice.{Runs}
use rastapopoulos.Scheduler.Queues.{one_if}

pub record IsValid (s : Scheduler) : Type 0 where
  pub consistent : IsConsistent s
  pub current_small : s.current < 32
  pub idle_small : s.idle < 32

-- The places of a task: in the queues, and on the processor unless it is the idle task.
abbrev pub occurrences : Scheduler → ℕ → ℕ
occurrences s p = total s p + (if s.current == s.idle then 0 else one_if (s.current == p))

-- The state in which the next task is chosen: the current task has been put into a queue, unless it
-- is the idle task.
pub record IsPlaced (s : Scheduler) : Type 0 where
  pub once : (p : ℕ) → total s p ≤ 1
  pub not_idle : total s s.idle ≡ 0
  pub small : (p : ℕ) → 32 ≤ p → total s p ≡ 0
  pub idle_small : s.idle < 32

-- A switch ended in a valid state in which whoever runs next does, nothing else has changed, and every
-- task has as many places as it had in the queues before.
pub record Switches (s : Scheduler) (result : Outcome Scheduler) : Type 0 where
  pub after : Scheduler
  pub returns : result ≡ ok after
  pub valid : IsValid after
  pub conserved : (p : ℕ) → occurrences after p ≡ total s p
  pub ran : Runs s after
  pub same_idle : after.idle ≡ s.idle
  pub same_tasks : after.tasks ≡ s.tasks

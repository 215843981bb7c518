-- ===== src/Scheduler/Samples.antt =====
-- A scheduler with five tasks, for the tests of kernel/scheduler.c and kernel/ipc.c.
use rastapopoulos.Base.{[], arith, if◌then◌else◌, refl, ℕ, ◌==◌, ◌∷◌, ◌≢◌}
use rastapopoulos.Scheduler.{Scheduler, Task, invalid_port}
use rastapopoulos.Scheduler.Fork.{PidsGiven}
use rastapopoulos.Scheduler.Invariant.{IsValid}
use rastapopoulos.Scheduler.Queues.{count}

-- a task that waits for nothing
abbrev pub plain : Task
plain = record {
  wait_canrecv_port = invalid_port;
  wait_cansend_port = invalid_port;
  sleep_deadline = 0;
  iomap = [];
}

-- Task 3 waits to send to port 5; task 4 is due at 900.
abbrev pub tasks : ℕ → Task
tasks p =
    if p == 3
    then record plain { wait_cansend_port = 5 }
    else if p == 4
    then record plain { sleep_deadline = 900 }
    else plain

-- Task 0 runs, task 1 is the idle task.
abbrev pub busy : Scheduler
busy = record {
  tasks = tasks;
  ready = 2 ∷ [];
  sleeping = 3 ∷ 4 ∷ [];
  exited = [];
  current = 0;
  idle = 1;
  next_pid = 5;
  now = 100;
}

-- The idle task runs, and task 4 sleeps until 900.
abbrev pub resting : Scheduler
resting = record busy { ready = []; sleeping = 4 ∷ []; current = 1 }

pub busy-IsValid : IsValid busy
unfolding count
busy-IsValid = record {
  consistent = record {
    once = λ p. ground arith;
    not_current = refl;
    not_idle = refl;
    small = λ p h. ground arith;
  };
  current_small = omega arith;
  idle_small = omega arith;
}

pub resting-IsValid : IsValid resting
unfolding count
resting-IsValid = record {
  consistent = record {
    once = λ p. ground arith;
    not_current = refl;
    not_idle = refl;
    small = λ p h. ground arith;
  };
  current_small = omega arith;
  idle_small = omega arith;
}

pub busy-PidsGiven : PidsGiven busy
unfolding count
busy-PidsGiven = record {
  queued = λ p h. ground arith;
  current_given = omega arith;
  idle_given = omega arith;
}

pub zero_ne_one : busy.current ≢ busy.idle
zero_ne_one e = omega arith

-- ===== src/Scheduler.antt =====
-- kernel/scheduler.c: the task queues and who runs next.
-- A task is named by its pid, which stands for the pointer to its `struct task`: `task_create` gives
-- each task a new one. The queues are lists of pids, in the order of the linked lists. The saved
-- context, the page directory and the name of a task are not modelled, so `task_switch` ends where
-- the new task is current and checked. `now` is what `timer_timestamp` returns.
-- Numbers that the C code holds in an `int` and only compares are their 32-bit patterns.
pub mod Queues
pub mod Checks
pub mod Invariant
pub mod Choice
pub mod Switch
pub mod Calls
pub mod Wake
pub mod Fork
pub mod Sleeping
pub mod Timing
pub mod Iomap
pub mod Samples
mod Tests
use rastapopoulos.Base.{
  Bool, List, Option, Outcome, [], assert, bit_and, bit_or, fail, false, if◌then◌else◌, leb, ltb,
  none, not, ok, read, replicate, set, some, true, undefined, ℕ, ◌%◌, ◌&&◌, ◌++◌, ◌+◌, ◌-◌, ◌/◌,
  ◌==◌, ◌>>=◌, ◌>>◌, ◌^◌, ◌||◌, ◌∷◌,
}

-- The waking condition and the I/O bitmap of `struct task`.
pub record Task : Type 0 where
  pub wait_canrecv_port : ℕ
  pub wait_cansend_port : ℕ
  pub sleep_deadline : ℕ
  pub iomap : List ℕ

-- The static variables of the file.
pub record Scheduler : Type 0 where
  pub tasks : ℕ → Task
  pub ready : List ℕ
  pub sleeping : List ℕ
  pub exited : List ℕ
  pub current : ℕ
  pub idle : ℕ
  pub next_pid : ℕ
  pub now : ℕ

-- INVALID_PORT, -1
abbrev pub invalid_port : ℕ
invalid_port = 0xFFFFFFFF

-- SLEEP_INFINITE
abbrev pub sleep_infinite : ℕ
sleep_infinite = 0xFFFFFFFF

-- `list_append` and `list_remove` of common/list.h
abbrev pub push : List ℕ → ℕ → List ℕ
push q p = q ++ (p ∷ [])

unfoldable pub remove : List ℕ → ℕ → List ℕ
remove [] p = []
remove (x ∷ q) p = if x == p then q else x ∷ remove q p

unfoldable pub contains : List ℕ → ℕ → Bool
contains [] p = false
contains (x ∷ q) p = if x == p then true else contains q p

abbrev pub set_task : Scheduler → ℕ → Task → Scheduler
set_task s p t = record s { tasks = λ q. if q == p then t else s.tasks q }

-- One loop of `scheduler_perform_checks`. `seen` is `encountered_pids`; `1 << pid` is an `int`, so
-- a pid of 32 or more is undefined.
pub check_queue : ℕ → ℕ → ℕ → List ℕ → Outcome ℕ
check_queue current idle seen [] = ok seen
check_queue current idle seen (p ∷ q) = do
  assert (not (p == current) && not (p == idle))
  (if ltb p 32 then ok tt else fail undefined)
  assert (bit_and seen (2 ^ p) == 0)
  check_queue current idle (bit_or seen (2 ^ p)) q

pub perform_checks : Scheduler → Outcome (Unit {0})
perform_checks s = do
  after_ready ← check_queue s.current s.idle 0 s.ready
  after_sleeping ← check_queue s.current s.idle after_ready s.sleeping
  all ← check_queue s.current s.idle after_sleeping s.exited
  ok tt

pub task_switch : Scheduler → ℕ → Outcome Scheduler
task_switch s p = let s' = record s { current = p } in do perform_checks s'; ok s'

-- `task->sleep_deadline && now >= task->sleep_deadline`
abbrev pub is_due : ℕ → Task → Bool
is_due now t = not (t.sleep_deadline == 0) && leb t.sleep_deadline now

pub first_due : (ℕ → Task) → ℕ → List ℕ → Option ℕ
first_due tasks now [] = none
first_due tasks now (p ∷ q) = if is_due now (tasks p) then some p else first_due tasks now q

pub next_ready : Scheduler → List ℕ → Outcome Scheduler
next_ready s [] = task_switch s s.idle
next_ready s (p ∷ q) = task_switch (record s { ready = remove (p ∷ q) p }) p

pub next_from : Scheduler → Option ℕ → Outcome Scheduler
next_from s (some p) = task_switch (record s { sleeping = remove s.sleeping p }) p
next_from s none = next_ready s s.ready

pub task_switch_next : Scheduler → Outcome Scheduler
task_switch_next s = next_from s (first_due s.tasks s.now s.sleeping)

-- The system calls that give the processor away.
pub yield : Scheduler → Outcome Scheduler
yield s = task_switch_next (record s { ready = push s.ready s.current })

pub exit : Scheduler → Outcome Scheduler
exit s = task_switch_next (record s { exited = push s.exited s.current })

pub block : Scheduler → Outcome Scheduler
block s = task_switch_next (record s { sleeping = push s.sleeping s.current })

-- DEBUG_PORT of common/debug.h
abbrev pub debug_port : ℕ
debug_port = 0xE9

-- `task_iomap_set` on the bitmap alone: a clear bit allows the port.
pub task_iomap_set : List ℕ → ℕ → Bool → Outcome (List ℕ)
task_iomap_set iomap port allow = do
  assert (ltb port 65536)
  byte ← read iomap (port / 8)
  let allowed = set iomap (port / 8) (bit_and byte (255 - 2 ^ (port % 8)))
  let denied = set iomap (port / 8) (bit_or byte (2 ^ (port % 8)))
  ok (if allow then allowed else denied)

-- Whether access is denied.
pub task_iomap_test : List ℕ → ℕ → Outcome Bool
task_iomap_test iomap port = do
  assert (ltb port 65536)
  byte ← read iomap (port / 8)
  ok (not (bit_and byte (2 ^ (port % 8)) == 0))

-- `bzero` of the structure, then the I/O bitmap
abbrev pub new_task : List ℕ → Task
new_task iomap = record {
  wait_canrecv_port = 0;
  wait_cansend_port = 0;
  sleep_deadline = 0;
  iomap = iomap;
}

-- `task_create`: the pid and the new state, in which the task is in no queue yet.
pub task_create : Scheduler → Outcome (ℕ × Scheduler)
task_create s = do
  iomap ← task_iomap_set (replicate 8192 0xFF) debug_port true
  assert (ltb s.next_pid 64)
  ok (s.next_pid, record (set_task s s.next_pid (new_task iomap)) { next_pid = s.next_pid + 1 })

-- The parent is given the pid of the child, which waits in the ready queue.
pub fork : Scheduler → Outcome (ℕ × Scheduler)
fork s = task_create s >>= λ (p, s'). ok (p, record s' { ready = push s'.ready p })

-- What `task_block` writes into the current task before it makes the system call.
pub waiting_task : Scheduler → ℕ → ℕ → ℕ → Task
waiting_task s canrecv cansend timeout = record (s.tasks s.current) {
  wait_canrecv_port = canrecv;
  wait_cansend_port = cansend;
  sleep_deadline = if not (timeout == sleep_infinite) then 0 else (s.now + timeout) % 2 ^ 64;
}

pub task_block : Scheduler → ℕ → ℕ → ℕ → Outcome Scheduler
task_block s canrecv cansend timeout =
    block (set_task s s.current (waiting_task s canrecv cansend timeout))

pub sleep : Scheduler → ℕ → Outcome Scheduler
sleep s millis = task_block s invalid_port invalid_port millis

-- `task_get`: the idle and the current task, and the ready and sleeping ones; not the exited.
unfoldable pub task_get : Scheduler → ℕ → Bool
task_get s p = (p == s.idle) || (p == s.current) || contains s.ready p || contains s.sleeping p

pub task_wake : Scheduler → ℕ → Outcome Scheduler
task_wake s p = do
  assert (task_get s p)
  ok (
      if contains s.sleeping p
      then record s { sleeping = remove s.sleeping p; ready = push s.ready p }
      else s)

-- The loop of `wake_tasks_waiting_for_port` over what was the sleeping queue: `list_foreach` reads
-- the next task before the body moves this one.
pub wake_waiting : Scheduler → ℕ → List ℕ → Outcome Scheduler
wake_waiting s port [] = ok s
wake_waiting s port (p ∷ q) =
    (if (s.tasks p).wait_cansend_port == port then task_wake s p else ok s) >>= λ s'.
    wake_waiting s' port q

pub wake_tasks_waiting_for_port : Scheduler → ℕ → Outcome Scheduler
wake_tasks_waiting_for_port s port = wake_waiting s port s.sleeping

-- A timer interrupt ends in another task or in a reboot.
pub data Tick : Type 0 where
  rebooted : Tick
  switched : Scheduler → Tick

-- The loop over the sleeping tasks that sets `may_wakeup`: to `false` in every case.
pub may_wakeup : (ℕ → Task) → List ℕ → Bool
may_wakeup tasks [] = false
may_wakeup tasks (p ∷ q) = if not ((tasks p).sleep_deadline == 0) then false else may_wakeup tasks q

abbrev pub is_empty : List ℕ → Bool
is_empty [] = true
is_empty (p ∷ q) = false

pub more_tasks : Scheduler → Bool
more_tasks s =
    if is_empty s.ready && is_empty s.sleeping
    then false
    else if is_empty s.ready
    then may_wakeup s.tasks s.sleeping
    else true

-- The current task goes to the ready queue unless it is the idle task; the exited are collected.
abbrev pub requeued : Scheduler → Scheduler
requeued s = record s {
  ready = if not (s.current == s.idle) then push s.ready s.current else s.ready;
  exited = [];
}

pub timer : Scheduler → Outcome Tick
timer s = do
  perform_checks s
  if more_tasks (requeued s)
      then (task_switch_next (requeued s) >>= λ s'. ok (switched s'))
      else ok rebooted

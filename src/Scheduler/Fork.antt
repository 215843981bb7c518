-- ===== src/Scheduler/Fork.antt =====
-- `task_create` and fork.
use rastapopoulos.Base.{
  List, [], arith, get_or, get_or-replicate, length-replicate, not, ok, refl, replicate, suc, true,
  zero, ℕ, ◌%◌, ◌++◌, ◌+◌, ◌/◌, ◌<◌, ◌==◌, ◌∙◌, ◌∷◌, ◌≡◌, ◌≤◌,
}
use rastapopoulos.Base.Bits.{bit-ones}
use rastapopoulos.Scheduler.{
  Scheduler, debug_port, fork, new_task, push, set_task, task_create, task_iomap_set,
  task_iomap_test,
}
use rastapopoulos.Scheduler.Checks.{total}
use rastapopoulos.Scheduler.Invariant.{IsValid, occurrences}
use rastapopoulos.Scheduler.Iomap.{IsIomap, task_iomap_set_lem, test_denied}
use rastapopoulos.Scheduler.Queues.{count-push, one_if}

-- Every task has a pid below the next one.
pub record PidsGiven (s : Scheduler) : Type 0 where
  pub queued : (p : ℕ) → s.next_pid ≤ p → total s p ≡ 0
  pub current_given : s.current < s.next_pid
  pub idle_given : s.idle < s.next_pid

get_or-full : (n i : ℕ) → get_or {A = ℕ} (replicate n 0xFF) i 0 < 256
get_or-full zero i = omega arith
get_or-full (suc n) zero = omega arith
get_or-full (suc n) (suc i) = get_or-full n i

all_ones-IsIomap : (n : ℕ) → n ≡ 8192 → IsIomap (replicate n 0xFF)
all_ones-IsIomap n e = record { full_length = length-replicate n 0xFF ∙ e; bytes = get_or-full n }

full_iomap-denied :
    (n port : ℕ) → n ≡ 8192 → port < 65536 → task_iomap_test (replicate n 0xFF) port ≡ ok true
full_iomap-denied n port e h =
    test_denied (replicate n 0xFF) port (all_ones-IsIomap n e) h
    ∙ rw
        (
          get_or-replicate {A = ℕ} n (port / 8) 0xFF 0 (omega arith),
          bit-ones 8 (port % 8) (omega arith),
        )
        refl

-- The bitmap of a new task allows the debug port only.
fresh_iomap :
    (n : ℕ)
    → n ≡ 8192
    → (iomap : List ℕ) × (task_iomap_set (replicate n 0xFF) debug_port true ≡ ok iomap)
      × ((port : ℕ) → port < 65536 → task_iomap_test iomap port ≡ ok (not (port == debug_port)))
fresh_iomap n e =
    let (iomap, returns, valid, tests) =
      task_iomap_set_lem (replicate n 0xFF) debug_port true (all_ones-IsIomap n e) (omega arith) in
    (iomap, returns, λ port h. tests port h ∙ rw (full_iomap-denied n port e h) (ground arith))

fork_returns :
    (s : Scheduler) {iomap : List ℕ}
    → task_iomap_set (replicate 8192 0xFF) debug_port true ≡ ok iomap
    → s.next_pid < 32
    → fork s
      ≡ ok (
        s.next_pid,
        record (set_task s s.next_pid (new_task iomap)) {
          next_pid = s.next_pid + 1;
          ready = push s.ready s.next_pid;
        },
      )
unfolding fork task_create
fork_returns s e h = rw e (ground arith)

-- In a valid state in which every pid in use was given, fork with a pid below 32 to give returns
-- that pid, which no task had, and puts the child behind the ready tasks, the other queues and the
-- running task being as they were; the state stays valid, no other task loses or gains a place, pids go on being given once, and the child may use the
-- debug port and no other.
pub fork_lem :
    (s : Scheduler)
    → IsValid s
    → PidsGiven s
    → s.next_pid < 32
    → (after : Scheduler) × (fork s ≡ ok (s.next_pid, after))
      × IsValid after
      × PidsGiven after
      × (occurrences s s.next_pid ≡ 0)
      × (after.ready ≡ s.ready ++ (s.next_pid ∷ []))
      × (after.sleeping ≡ s.sleeping)
      × (after.exited ≡ s.exited)
      × (after.current ≡ s.current)
      × ((p : ℕ) → occurrences after p ≡ occurrences s p + one_if (s.next_pid == p))
      × ((port : ℕ)
          → port < 65536
          → task_iomap_test (after.tasks s.next_pid).iomap port ≡ ok (not (port == debug_port)))
fork_lem s v g h =
    let (iomap, e, allows) = fresh_iomap 8192 refl in
    let after : Scheduler = record (set_task s s.next_pid (new_task iomap)) {
      next_pid = s.next_pid + 1;
      ready = push s.ready s.next_pid;
    } in
    (
      after,
      fork_returns s e h,
      record {
        consistent = record {
          once = λ p.
              ground
                (arith, count-push p s.ready s.next_pid, v.consistent.once p, g.queued s.next_pid);
          not_current = ground (
            arith,
            count-push s.current s.ready s.next_pid,
            v.consistent.not_current,
            g.current_given,
          );
          not_idle =
              ground
                (arith, count-push s.idle s.ready s.next_pid, v.consistent.not_idle, g.idle_given);
          small = λ p k. ground (arith, count-push p s.ready s.next_pid, v.consistent.small p);
        };
        current_small = v.current_small;
        idle_small = v.idle_small;
      },
      record {
        queued = λ p k. ground (arith, count-push p s.ready s.next_pid, g.queued p);
        current_given = omega (arith, g.current_given);
        idle_given = omega (arith, g.idle_given);
      },
      ground (arith, g.queued s.next_pid, g.current_given),
      refl,
      refl,
      refl,
      refl,
      λ p. ground (arith, count-push p s.ready s.next_pid),
      λ port k. ground (arith, allows port k),
    )

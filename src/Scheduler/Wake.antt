-- ===== src/Scheduler/Wake.antt =====
-- `task_wake` and `wake_tasks_waiting_for_port`.
use rastapopoulos.Base.{
  Bool-cases, List, [], ap, arith, assertion_failed, fail, false, if◌then◌else◌, inl, inr, ltb,
  ltb→lt, lt→ltb, ok, refl, sym, true, ℕ, ◌&&◌, ◌++◌, ◌+◌, ◌<◌, ◌==◌, ◌||◌, ◌∙◌, ◌∷◌, ◌≡◌, ◌≢◌,
}
use rastapopoulos.Scheduler.{
  Scheduler, push, remove, task_get, task_wake, wake_tasks_waiting_for_port, wake_waiting,
}
use rastapopoulos.Scheduler.Checks.{total}
use rastapopoulos.Scheduler.Invariant.{IsValid}
use rastapopoulos.Scheduler.Queues.{contains-count, count, count-push, count-remove}

-- What waking keeps: the invariant, the number of places of every task, the running task, and the
-- exited queue.
pub record Kept (s after : Scheduler) : Type 0 where
  pub valid : IsValid after
  pub conserved : (p : ℕ) → total after p ≡ total s p
  pub same_current : after.current ≡ s.current
  pub same_idle : after.idle ≡ s.idle
  pub same_exited : after.exited ≡ s.exited
  pub same_tasks : after.tasks ≡ s.tasks
  pub same_now : after.now ≡ s.now

Kept-trans : {s t u : Scheduler} → Kept s t → Kept t u → Kept s u
Kept-trans a b = record {
  valid = b.valid;
  conserved = λ p. b.conserved p ∙ a.conserved p;
  same_current = b.same_current ∙ a.same_current;
  same_idle = b.same_idle ∙ a.same_idle;
  same_exited = b.same_exited ∙ a.same_exited;
  same_tasks = b.same_tasks ∙ a.same_tasks;
  same_now = b.same_now ∙ a.same_now;
}

abbrev wake_one : Scheduler → ℕ → Scheduler
wake_one s p = record s { sleeping = remove s.sleeping p; ready = push s.ready p }

total-wake_one :
    (s : Scheduler) (p x : ℕ) → 0 < count p s.sleeping → total (wake_one s p) x ≡ total s x
total-wake_one s p x h = omega (arith, count-push x s.ready p, count-remove x s.sleeping p h)

same_total-IsValid :
    (s q : Scheduler)
    → IsValid s
    → ((x : ℕ) → total q x ≡ total s x)
    → q.current ≡ s.current
    → q.idle ≡ s.idle
    → IsValid q
same_total-IsValid s q v t c i = record {
  consistent = record {
    once = λ p. omega (arith, t p, v.consistent.once p);
    not_current = rw c (omega (arith, t s.current, v.consistent.not_current));
    not_idle = rw i (omega (arith, t s.idle, v.consistent.not_idle));
    small = λ p h. omega (arith, t p, v.consistent.small p h);
  };
  current_small = rw c v.current_small;
  idle_small = rw i v.idle_small;
}

task_wake_sleeping :
    (s : Scheduler) (p : ℕ) → 0 < count p s.sleeping → task_wake s p ≡ ok (wake_one s p)
unfolding task_wake task_get
task_wake_sleeping s p h =
    rw (contains-count s.sleeping p, lt→ltb 0 (count p s.sleeping) h) (ground arith)

wake_one-Kept : (s : Scheduler) (p : ℕ) → IsValid s → 0 < count p s.sleeping → Kept s (wake_one s p)
wake_one-Kept s p v h = record {
  valid = same_total-IsValid s (wake_one s p) v (λ x. total-wake_one s p x h) refl refl;
  conserved = λ x. total-wake_one s p x h;
  same_current = refl;
  same_idle = refl;
  same_exited = refl;
  same_tasks = refl;
  same_now = refl;
}

sleeps_no_more :
    (s : Scheduler) (p : ℕ) → IsValid s → 0 < count p s.sleeping → count p (remove s.sleeping p) ≡ 0
sleeps_no_more s p v h = ground (arith, count-remove p s.sleeping p h, v.consistent.once p)

-- In a valid state `task_wake` of a sleeping task moves it to the end of the ready queue, and it
-- sleeps no more. The state stays valid and no other task moves.
pub task_wake-Kept :
    (s : Scheduler) (p : ℕ)
    → IsValid s
    → 0 < count p s.sleeping
    → let after = record s { sleeping = remove s.sleeping p; ready = s.ready ++ (p ∷ []) } in
      (task_wake s p ≡ ok after) × Kept s after × (count p after.sleeping ≡ 0)
task_wake-Kept s p v h = (task_wake_sleeping s p h, wake_one-Kept s p v h, sleeps_no_more s p v h)

-- `task_wake` of a task that does not sleep changes nothing if the task is ready, current or idle,
-- and fails its assertion otherwise: for a pid that was never given, or that of an exited task.
pub task_wake_awake :
    (s : Scheduler) (p : ℕ)
    → count p s.sleeping ≡ 0
    → task_wake s p ≡ (
        if (p == s.idle) || (p == s.current) || ltb 0 (count p s.ready)
        then ok s
        else fail assertion_failed)
unfolding task_wake task_get
task_wake_awake s p h = rw (contains-count s.sleeping p, contains-count s.ready p, h) (ground arith)

-- What the loop over the rest `q` of the sleeping queue may assume: its tasks are ready or asleep,
-- and it holds every sleeping task that waits for the port.
record Pending (s : Scheduler) (port : ℕ) (q : List ℕ) : Type 0 where
  live : (p : ℕ) → 0 < count p q → 0 < count p s.ready + count p s.sleeping
  covers : (p : ℕ) → 0 < count p s.sleeping → (s.tasks p).wait_cansend_port ≡ port → 0 < count p q

-- No sleeping task waits to send to the port.
abbrev NoWaiting : Scheduler → ℕ → Type 0
NoWaiting s port = (p : ℕ) → 0 < count p s.sleeping → (s.tasks p).wait_cansend_port ≢ port

Pending-skip :
    (s : Scheduler) (port x : ℕ) (q : List ℕ)
    → Pending s port (x ∷ q)
    → ((0 < count x s.sleeping) → (s.tasks x).wait_cansend_port ≢ port)
    → Pending s port q
unfolding count
Pending-skip s port x q h other = record {
  live = λ p a. h.live p (omega arith);
  covers = λ p a e. elim (Bool-cases (x == p)) [
    | inl same ↦ let x≡p : x ≡ p = ground arith in absurd (other (rw x≡p a) (rw x≡p e))
    | inr differ ↦ ground (arith, h.covers p a e)
  ];
}

Pending-wake_one :
    (s : Scheduler) (port x : ℕ) (q : List ℕ)
    → IsValid s
    → Pending s port (x ∷ q)
    → 0 < count x s.sleeping
    → Pending (wake_one s x) port q
unfolding count
Pending-wake_one s port x q v h inside = record {
  live = λ p a.
      omega
        (arith, h.live p (omega arith), count-push p s.ready x, count-remove p s.sleeping x inside);
  covers = λ p a e.
      let still : 0 < count p s.sleeping = omega (arith, count-remove p s.sleeping x inside) in
      elim (Bool-cases (x == p)) [
        | inl same ↦ absurd (ground (arith, sleeps_no_more s x v inside))
        | inr differ ↦ ground (arith, h.covers p still e)
      ];
}

count_head : (x : ℕ) (q : List ℕ) → 0 < count x (x ∷ q)
unfolding count
count_head x q = ground arith

none_pending : (p : ℕ) → ¬ (0 < count p [])
unfolding count
none_pending p h = omega arith

-- One round of the loop.
wake_waiting_step :
    (s : Scheduler) (port x : ℕ) (q : List ℕ)
    → Pending s port (x ∷ q)
    → wake_waiting s port (x ∷ q) ≡ (
        if (s.tasks x).wait_cansend_port == port && ltb 0 (count x s.sleeping)
        then wake_waiting (wake_one s x) port q
        else wake_waiting s port q)
wake_waiting_step s port x q h = elim (Bool-cases ((s.tasks x).wait_cansend_port == port)) [
  | inr other ↦ unfold wake_waiting in rw other refl
  | inl waits ↦ elim (Bool-cases (ltb 0 (count x s.sleeping))) [
    | inl asleep ↦
        unfold wake_waiting in rw (waits, asleep, task_wake_sleeping s x (ltb→lt _ _ asleep)) refl
    | inr awake ↦
        unfold wake_waiting in
        rw (waits, awake, task_wake_awake s x (ground arith)) (ground (arith, ready_now awake))
  ]
]
  where
    ready_now : ltb 0 (count x s.sleeping) ≡ false → 0 < count x s.ready
    ready_now awake = ground (arith, h.live x, count_head x q)

-- The tasks that do not wait to send to the port keep their places.
abbrev SameOthers : Scheduler → ℕ → Scheduler → Type 0
SameOthers s port after =
    (p : ℕ)
    → (s.tasks p).wait_cansend_port ≢ port
    → (count p after.sleeping ≡ count p s.sleeping) × (count p after.ready ≡ count p s.ready)

woken_others :
    (s : Scheduler) (port x : ℕ)
    → ((s.tasks x).wait_cansend_port == port && ltb 0 (count x s.sleeping)) ≡ true
    → (after : Scheduler) → SameOthers (wake_one s x) port after
    → SameOthers s port after
woken_others s port x woken after others p ne =
    let waits : (s.tasks x).wait_cansend_port ≡ port = ground arith in
    let inside : 0 < count x s.sleeping = ground arith in
    let apart : x ≢ p = λ e. ne (ap (λ (k : ℕ). (s.tasks k).wait_cansend_port) (sym e) ∙ waits) in
    let (same_sleeping, same_ready) = others p ne in
    (
      ground (arith, same_sleeping, apart, count-remove p s.sleeping x inside),
      ground (arith, same_ready, apart, count-push p s.ready x),
    )

wake_waiting-Kept :
    (s : Scheduler) (port : ℕ) (q : List ℕ)
    → IsValid s
    → Pending s port q
    → (after : Scheduler) × (wake_waiting s port q ≡ ok after)
      × Kept s after
      × NoWaiting after port
      × SameOthers s port after
wake_waiting-Kept s port [] v h = (
  s,
  unfold wake_waiting in refl,
  record {
    valid = v;
    conserved = λ p. refl;
    same_current = refl;
    same_idle = refl;
    same_exited = refl;
    same_tasks = refl;
    same_now = refl;
  },
  λ p a e. none_pending p (h.covers p a e),
  λ p ne. (refl, refl),
)
wake_waiting-Kept s port (x ∷ q) v h =
    elim (Bool-cases ((s.tasks x).wait_cansend_port == port && ltb 0 (count x s.sleeping))) [
      | inl woken ↦
          let inside : 0 < count x s.sleeping = ground arith in
          let kept = wake_one-Kept s x v inside in
          let (after, e, rest, none_waiting, others) =
            wake_waiting-Kept (wake_one s x) port q kept.valid
              (Pending-wake_one s port x q v h inside) in
          (
            after,
            wake_waiting_step s port x q h ∙ rw (woken, e),
            Kept-trans kept rest,
            none_waiting,
            woken_others s port x woken after others,
          )
      | inr passed ↦
          let (after, e, rest, none_waiting, others) =
            wake_waiting-Kept s port q v (Pending-skip s port x q h (λ a b. ground arith)) in
          (after, wake_waiting_step s port x q h ∙ rw (passed, e), rest, none_waiting, others)
    ]

-- In a valid state `wake_tasks_waiting_for_port` fails no assertion and leaves no sleeping task that
-- waits to send to the port. A task that does not wait to send to it sleeps on if it slept, and is
-- ready if it was. The invariant, the number of places of every task, the running task and the exited
-- queue stay, so the tasks that do not sleep any more are ready.
pub wake_tasks_waiting_for_port-Kept :
    (s : Scheduler) (port : ℕ)
    → IsValid s
    → (after : Scheduler) × (wake_tasks_waiting_for_port s port ≡ ok after)
      × Kept s after
      × ((p : ℕ) → 0 < count p after.sleeping → (after.tasks p).wait_cansend_port ≢ port)
      × ((p : ℕ)
          → (s.tasks p).wait_cansend_port ≢ port
          → (count p after.sleeping ≡ count p s.sleeping) × (count p after.ready ≡ count p s.ready))
unfolding wake_tasks_waiting_for_port
wake_tasks_waiting_for_port-Kept s port v =
    wake_waiting-Kept s port s.sleeping v
      (record { live = λ p a. omega arith; covers = λ p a e. a })

-- In a valid state `task_wake` of a sleeping task moves it to the end of the ready queue, and it
-- sleeps no more; the state stays valid and no other task moves. `task_wake` of a task that does not
-- sleep changes nothing if the task is ready, current or idle, and fails its assertion otherwise: for
-- a pid that was never given, or that of an exited task.
pub task_wake_lem :
    (s : Scheduler) (p : ℕ)
    → IsValid s
    → (0 < count p s.sleeping
        → let after = record s { sleeping = remove s.sleeping p; ready = s.ready ++ (p ∷ []) } in
          (task_wake s p ≡ ok after) × Kept s after × (count p after.sleeping ≡ 0))
      × (count p s.sleeping ≡ 0
          → task_wake s p ≡ (
              if (p == s.idle) || (p == s.current) || ltb 0 (count p s.ready)
              then ok s
              else fail assertion_failed))
task_wake_lem s p v = (task_wake-Kept s p v, task_wake_awake s p)

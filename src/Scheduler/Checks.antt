-- ===== src/Scheduler/Checks.antt =====
-- `scheduler_perform_checks`: when its assertions hold.
use rastapopoulos.Base.{
  List, [], arith, bit_and, bit_or, first_step, ok, refl, true, ℕ, ◌+◌, ◌<◌, ◌==◌, ◌^◌, ◌↔◌, ◌∷◌,
  ◌≡◌, ◌≢◌, ◌≤◌,
}
use rastapopoulos.Base.Bits.{
  bit, bit-bit_or, bit-lt-two, bit-pow, bit-zero, bit_and-pow, two_pow_pos,
}
use rastapopoulos.Scheduler.{Scheduler, check_queue, perform_checks}
use rastapopoulos.Scheduler.Queues.{count, one_if}

abbrev pub total : Scheduler → ℕ → ℕ
total s p = count p s.ready + count p s.sleeping + count p s.exited

-- The queues hold no task twice, neither the current nor the idle task, and only pids below 32.
pub record IsConsistent (s : Scheduler) : Type 0 where
  pub once : (p : ℕ) → total s p ≤ 1
  pub not_current : total s s.current ≡ 0
  pub not_idle : total s s.idle ≡ 0
  pub small : (p : ℕ) → 32 ≤ p → total s p ≡ 0

mask_free : (seen p : ℕ) → bit seen p ≡ 0 → (bit_and seen (2 ^ p) == 0) ≡ true
mask_free seen p h = ground (arith, bit_and-pow seen p)

mask_taken : (seen p : ℕ) → (bit_and seen (2 ^ p) == 0) ≡ true → bit seen p ≡ 0
mask_taken seen p h = ground (arith, bit_and-pow seen p, two_pow_pos p, bit-lt-two seen p)

-- Setting the bit of a pid that was not met counts it.
bit-seen :
    (seen x p : ℕ) → bit seen x ≡ 0 → bit (bit_or seen (2 ^ x)) p ≡ bit seen p + one_if (x == p)
bit-seen seen x p h = ground (arith, bit-bit_or seen (2 ^ x) p, bit-pow x p, bit-lt-two seen p)

-- The checks of one queue pass, where the digits of `seen` are the pids met so far.
check_queue_passes :
    (current idle seen : ℕ) (q : List ℕ)
    → ((p : ℕ) → bit seen p + count p q ≤ 1)
    → count current q ≡ 0
    → count idle q ≡ 0
    → ((p : ℕ) → 32 ≤ p → count p q ≡ 0)
    → (seen' : ℕ) × (check_queue current idle seen q ≡ ok seen')
      × ((p : ℕ) → bit seen' p ≡ bit seen p + count p q)
unfolding check_queue count
check_queue_passes current idle seen [] once c i small = (seen, refl, λ p. omega arith)
check_queue_passes current idle seen (x ∷ q) once c i small =
    let free : bit seen x ≡ 0 = ground (arith, once x) in
    let (seen', e, bits) =
      check_queue_passes current idle (bit_or seen (2 ^ x)) q
        (λ p. omega (arith, once p, bit-seen seen x p free)) (omega arith) (omega arith)
        (λ p h. omega (arith, small p h)) in
    (
      seen',
      ground (arith, e, mask_free seen x free, small x),
      λ p. omega (arith, bits p, bit-seen seen x p free),
    )

check_queue_inv :
    (current idle seen x : ℕ) (q : List ℕ) {seen' : ℕ}
    → check_queue current idle seen (x ∷ q) ≡ ok seen'
    → (x ≢ current)
      × (x ≢ idle)
      × (x < 32)
      × (bit seen x ≡ 0)
      × (check_queue current idle (bit_or seen (2 ^ x)) q ≡ ok seen')
unfolding check_queue
check_queue_inv current idle seen x q e = (
  λ h. ground arith,
  λ h. ground arith,
  ground arith,
  ground (arith, mask_taken seen x),
  ground arith,
)

check_queue_sound :
    (current idle seen : ℕ) (q : List ℕ) {seen' : ℕ}
    → check_queue current idle seen q ≡ ok seen'
    → (count current q ≡ 0)
      × (count idle q ≡ 0)
      × ((p : ℕ) → 32 ≤ p → count p q ≡ 0)
      × ((p : ℕ) → bit seen' p ≡ bit seen p + count p q)
unfolding count
check_queue_sound current idle seen [] e =
    (refl, refl, λ p h. refl, λ p. unfold check_queue in ground arith)
check_queue_sound current idle seen (x ∷ q) e =
    let (not_current, not_idle, small, free, rest) = check_queue_inv current idle seen x q e in
    let (c, i, high, bits) = check_queue_sound current idle (bit_or seen (2 ^ x)) q rest in
    (
      ground arith,
      ground arith,
      λ p h. ground (arith, high p),
      λ p. omega (arith, bits p, bit-seen seen x p free),
    )

-- `scheduler_perform_checks` passes all its assertions on a consistent scheduler.
pub perform_checks_lem : (s : Scheduler) → IsConsistent s → perform_checks s ≡ ok tt
unfolding perform_checks
perform_checks_lem s h =
    let (a, e, bits_a) =
      check_queue_passes s.current s.idle 0 s.ready (λ p. omega (arith, h.once p, bit-zero p))
        (omega (arith, h.not_current)) (omega (arith, h.not_idle))
        (λ p k. omega (arith, h.small p k)) in
    let (b, f, bits_b) =
      check_queue_passes s.current s.idle a s.sleeping
        (λ p. omega (arith, h.once p, bit-zero p, bits_a p)) (omega (arith, h.not_current))
        (omega (arith, h.not_idle)) (λ p k. omega (arith, h.small p k)) in
    let (c, g, bits_c) =
      check_queue_passes s.current s.idle b s.exited
        (λ p. omega (arith, h.once p, bit-zero p, bits_a p, bits_b p))
        (omega (arith, h.not_current)) (omega (arith, h.not_idle))
        (λ p k. omega (arith, h.small p k)) in
    rw (e, f, g) refl

-- If its assertions pass, the scheduler is consistent.
pub perform_checks_sound : (s : Scheduler) → perform_checks s ≡ ok tt → IsConsistent s
unfolding perform_checks
perform_checks_sound s e =
    let (a, ready_ok, e1) = first_step (check_queue s.current s.idle 0 s.ready) _ e in
    let (b, sleeping_ok, e2) = first_step (check_queue s.current s.idle a s.sleeping) _ e1 in
    let (c, exited_ok, e3) = first_step (check_queue s.current s.idle b s.exited) _ e2 in
    let (c1, i1, h1, bits1) = check_queue_sound s.current s.idle 0 s.ready ready_ok in
    let (c2, i2, h2, bits2) = check_queue_sound s.current s.idle a s.sleeping sleeping_ok in
    let (c3, i3, h3, bits3) = check_queue_sound s.current s.idle b s.exited exited_ok in
    record {
      once = λ p. omega (arith, bits1 p, bits2 p, bits3 p, bit-zero p, bit-lt-two c p);
      not_current = omega arith;
      not_idle = omega arith;
      small = λ p h. omega (arith, h1 p h, h2 p h, h3 p h);
    }

-- `scheduler_perform_checks` passes all its assertions exactly when the queues hold no task twice,
-- neither the current nor the idle task, and only pids below 32.
pub perform_checks_iff : (s : Scheduler) → (perform_checks s ≡ ok tt) ↔ IsConsistent s
perform_checks_iff s = (perform_checks_sound s, perform_checks_lem s)

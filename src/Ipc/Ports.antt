-- ===== src/Ipc/Ports.antt =====
-- The list of ports: look-up, writes to a queue, and `syscall_portopen_handler`.
use rastapopoulos.Base.{
  Bool, Bool-cases, List, Outcome, [], arith, bit_and, bit_or, false, if◌then◌else◌, inl, inr, ltb,
  none, not, ok, refl, some, true, ℕ, ◌++◌, ◌+◌, ◌<◌, ◌==◌, ◌^◌, ◌||◌, ◌∷◌, ◌≡◌, ◌≢◌, ◌≤◌,
}
use rastapopoulos.Base.Bits.{bit-bit_or, bit-lt-two, bit-pow, bit_and-pow, two_pow_pos}
use rastapopoulos.Ipc.{
  Ipc, Message, Port, find_port, port_get, portopen, portopen_dynamic, portopen_reserved, set_queue,
}
use rastapopoulos.Scheduler.{invalid_port}
use rastapopoulos.Scheduler.Queues.{one_if}

-- How many ports bear a number.
unfoldable pub ports_with : ℕ → List Port → ℕ
ports_with n [] = 0
ports_with n (p ∷ ports) = one_if (p.number == n) + ports_with n ports

ports_with-append :
    (n : ℕ) (ports : List Port) (p : Port)
    → ports_with n (ports ++ (p ∷ [])) ≡ ports_with n ports + one_if (p.number == n)
unfolding ports_with
ports_with-append n [] p = omega arith
ports_with-append n (x ∷ ports) p = omega (arith, ports_with-append n ports p)

pub find_port-none : (ports : List Port) (n : ℕ) → ports_with n ports ≡ 0 → find_port ports n ≡ none
unfolding ports_with find_port
find_port-none [] n h = refl
find_port-none (p ∷ ports) n h = ground (arith, find_port-none ports n)

pub find_port-append :
    (ports : List Port) (p : Port) (n : ℕ)
    → find_port (ports ++ (p ∷ [])) n ≡ elim (find_port ports n) [
      | none ↦ (if p.number == n then some p else none)
      | some q ↦ some q
    ]
unfolding find_port
find_port-append [] p n = refl
find_port-append (x ∷ ports) p n = elim (Bool-cases (x.number == n)) [
  | inl e ↦ rw (e) refl
  | inr e ↦ rw (e) (find_port-append ports p n)
]

-- A look-up after a write to the queue of the port that was found.
pub find_port-set_queue :
    (ports : List Port) (n m : ℕ) (queue : List Message)
    → find_port (set_queue ports n queue) m ≡ elim (find_port ports m) [
      | none ↦ none
      | some p ↦ some (if n == m then record p { queue = queue } else p)
    ]
unfolding find_port set_queue
find_port-set_queue [] n m queue = refl
find_port-set_queue (p ∷ ports) n m queue = elim (Bool-cases (p.number == n)) [
  | inl a ↦ ground arith
  | inr a ↦ elim (Bool-cases (p.number == m)) [
    | inl b ↦ ground arith
    | inr b ↦ ground (arith, find_port-set_queue ports n m queue)
  ]
]

-- Whether a number was given to a port: the bit of a reserved one is set, a dynamic one is below the
-- next.
abbrev pub is_given : Ipc → ℕ → Bool
is_given s n =
    if ltb n 32 then not (bit_and s.reserved_ports (2 ^ n) == 0) else ltb n s.next_port_value

-- What the ports keep: only given numbers are in use, no number twice.
pub record IsNumbered (s : Ipc) : Type 0 where
  pub known : (n : ℕ) → is_given s n ≡ false → ports_with n s.ports ≡ 0
  pub once : (n : ℕ) → ports_with n s.ports ≤ 1
  pub dynamic : 32 ≤ s.next_port_value

-- A port was opened: it can be looked up, its receiver is the caller and its queue is empty; no other
-- port changed, the number was in use by none, and the ports keep their invariant.
pub record Opened (s : Ipc) (number : ℕ) (result : Outcome (ℕ × Ipc)) : Type 0 where
  pub after : Ipc
  pub returns : result ≡ ok (number, after)
  pub unused : port_get s number ≡ none
  pub found :
      port_get after number
      ≡ some (record { number = number; receiver = s.sched.current; queue = [] })
  pub others : (m : ℕ) → m ≢ number → port_get after m ≡ port_get s m
  pub numbered : IsNumbered after
  pub same_sched : after.sched ≡ s.sched

-- The state after a new port was appended, whatever became of the numbers.
abbrev appended : Ipc → ℕ → Ipc
appended s n = record s {
  ports = s.ports ++ (record { number = n; receiver = s.sched.current; queue = [] } ∷ []);
}

get-appended_same :
    (s : Ipc) (n : ℕ)
    → n < 2 ^ 31
    → ports_with n s.ports ≡ 0
    → port_get (appended s n) n
      ≡ some (record { number = n; receiver = s.sched.current; queue = [] })
unfolding port_get
get-appended_same s n small free =
    rw (find_port-append, find_port-none s.ports n free) (ground arith)

get-appended_other :
    (s : Ipc) (n m : ℕ) → m ≢ n → find_port (appended s n).ports m ≡ find_port s.ports m
get-appended_other s n m ne = rw (find_port-append) (ground arith)

-- A number that is not given yet: the ports with it, before and after it is given.
appended-IsNumbered :
    (s q : Ipc) (n : ℕ)
    → IsNumbered s
    → is_given s n ≡ false
    → q.ports ≡ (appended s n).ports
    → ((m : ℕ) → is_given q m ≡ is_given s m || (n == m))
    → 32 ≤ q.next_port_value
    → IsNumbered q
appended-IsNumbered s q n h free same given next = record {
  known = λ m e. rw same (
      ground (
        arith,
        given m,
        h.known m,
        ports_with-append m s.ports (record { number = n; receiver = s.sched.current; queue = [] }),
      ));
  once = λ m. rw same (
      ground (
        arith,
        h.once m,
        h.known n free,
        ports_with-append m s.ports (record { number = n; receiver = s.sched.current; queue = [] }),
      ));
  dynamic = next;
}

-- What both ways of opening share.
opens :
    (s q : Ipc) (n : ℕ) {result : Outcome (ℕ × Ipc)}
    → result ≡ ok (n, q)
    → IsNumbered s
    → n < 2 ^ 31
    → is_given s n ≡ false
    → q.ports ≡ (appended s n).ports
    → ((m : ℕ) → is_given q m ≡ is_given s m || (n == m))
    → 32 ≤ q.next_port_value
    → q.sched ≡ s.sched
    → Opened s n result
unfolding port_get
opens s q n e h small free same given next sched = record {
  after = q;
  returns = e;
  unused = rw (find_port-none s.ports n (h.known n free)) (ground arith);
  found = rw same (get-appended_same s n small (h.known n free));
  others = λ m ne. rw same (rw (get-appended_other s n m ne) refl);
  numbered = appended-IsNumbered s q n h free same given next;
  same_sched = sched;
}

given_after_reserve :
    (r n m : ℕ)
    → not (bit_and (bit_or r (2 ^ n)) (2 ^ m) == 0) ≡ not (bit_and r (2 ^ m) == 0) || (n == m)
given_after_reserve r n m = ground (
  arith,
  bit_and-pow r m,
  bit_and-pow (bit_or r (2 ^ n)) m,
  bit-bit_or r (2 ^ n) m,
  bit-pow n m,
  two_pow_pos m,
  bit-lt-two r m,
)

-- When the ports in use have distinct numbers that were given to them, and the next dynamic
-- number is below 2 ^ 31 - 1, opening with -1 as the number opens a new, empty port under the
-- next dynamic number, with the caller as receiver, and keeps all that and every other port.
pub portopen_dynamic-Opened :
    (s : Ipc)
    → IsNumbered s
    → s.next_port_value < 0x7FFFFFFF
    → Opened s s.next_port_value (portopen s invalid_port)
unfolding portopen portopen_dynamic
portopen_dynamic-Opened s h small =
    opens s (record (appended s s.next_port_value) { next_port_value = s.next_port_value + 1 })
      s.next_port_value (ground arith) h (omega arith) (ground (arith, h.dynamic)) refl
      (λ m. ground arith) (omega (arith, h.dynamic)) refl

-- When the ports in use have distinct numbers that were given to them, opening a number below 32
-- opens a new, empty port under it if it was not given before, with the caller as receiver, and
-- keeps all that and every other port; it returns -1 and changes nothing if the number was given
-- before.
pub portopen_reserved-Opened :
    (s : Ipc) (n : ℕ)
    → IsNumbered s
    → n < 32
    → (is_given s n ≡ false → Opened s n (portopen s n))
      × (is_given s n ≡ true → portopen s n ≡ ok (invalid_port, s))
unfolding portopen portopen_reserved
portopen_reserved-Opened s n h small = (
  λ free.
      opens s (record (appended s n) { reserved_ports = bit_or s.reserved_ports (2 ^ n) }) n
        (ground arith) h (omega arith) free refl
        (λ m. ground (arith, given_after_reserve s.reserved_ports n m)) h.dynamic refl,
  λ taken. ground arith,
)

-- When the ports in use have distinct numbers that were given to them: opening -1 opens a new, empty
-- port under the next dynamic number if that is below 2 ^ 31 - 1, and opening a number below 32
-- opens one under it if it was not given before; both with the caller as receiver, keeping every
-- other port. It returns -1 and changes nothing if the number below 32 was given before.
pub portopen-Opened :
    (s : Ipc) (n : ℕ)
    → IsNumbered s
    → n < 32
    → (s.next_port_value < 0x7FFFFFFF → Opened s s.next_port_value (portopen s invalid_port))
      × (is_given s n ≡ false → Opened s n (portopen s n))
      × (is_given s n ≡ true → portopen s n ≡ ok (invalid_port, s))
portopen-Opened s n h small =
    let (free, taken) = portopen_reserved-Opened s n h small in
    (portopen_dynamic-Opened s h, free, taken)

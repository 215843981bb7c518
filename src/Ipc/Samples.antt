-- ===== src/Ipc/Samples.antt =====
-- A state with two ports, for the tests of kernel/ipc.c.
use native.Mathlib.Decide.{ℕ_discrete}
use rastapopoulos.Base.{[], ap, arith, false, refl, true, ◌∙◌, ◌∷◌, ◌≡◌, ◌≢◌}
use rastapopoulos.Hash.{hash2, hash_step}
use rastapopoulos.Ipc.{Ipc, Message, int_bytes, message_checksum, stamp}
use rastapopoulos.Ipc.Ports.{IsNumbered, is_given, ports_with}
use rastapopoulos.Ipc.Send.{CanBlock}
use rastapopoulos.Scheduler.{Scheduler}
use rastapopoulos.Scheduler.Invariant.{IsValid}
use rastapopoulos.Scheduler.Queues.{count}
use rastapopoulos.Scheduler.Samples.{busy, busy-IsValid, zero_ne_one}

-- the message "Hi" with code 7
abbrev pub hi : Message
hi = record { checksum = 3364138871; sender = 0; reply_port = 33; code = 7; body = 72 ∷ 105 ∷ [] }

-- Port 3, which task 2 receives from, and port 32, which the running task 0 receives from. Reserved:
-- 3. The next dynamic number is 33.
abbrev pub two_ports : Ipc
two_ports = record {
  sched = busy;
  ports =
      record { number = 3; receiver = 2; queue = [] }
      ∷ record { number = 32; receiver = 0; queue = [] }
      ∷ [];
  reserved_ports = 8;
  next_port_value = 33;
}

-- Port 32 holds a message of the sleeping task 3.
abbrev pub waiting : Ipc
waiting = record two_ports {
  ports =
      record { number = 3; receiver = 2; queue = [] }
      ∷ record { number = 32; receiver = 0; queue = stamp 3 hi ∷ [] }
      ∷ [];
}

-- Later: task 2 runs, and the sender 0 sleeps.
abbrev pub later : Scheduler
later = record busy { ready = []; sleeping = 3 ∷ 4 ∷ 0 ∷ []; current = 2 }

pub later-IsValid : IsValid later
unfolding count
later-IsValid = record {
  consistent = record {
    once = λ p. ground arith;
    not_current = refl;
    not_idle = refl;
    small = λ p h. ground arith;
  };
  current_small = omega arith;
  idle_small = omega arith;
}

pub two_ports-CanBlock : CanBlock two_ports
two_ports-CanBlock = record { valid = busy-IsValid; not_idle = zero_ne_one; early = omega arith }

pub two_ports-IsNumbered : IsNumbered two_ports
unfolding ports_with
two_ports-IsNumbered = record {
  known = λ n e. elim (ℕ_discrete 3 n) [
    | yes same ↦ absurd (not_free (ap (λ k. is_given two_ports k) same ∙ e))
    | no other ↦ ground arith
  ];
  once = λ n. ground arith;
  dynamic = omega arith;
}
  where
    not_free : true ≢ false
    not_free e = cc

pub hi_checked : message_checksum hi ≡ hi.checksum
unfolding message_checksum int_bytes hash2 hash_step
hi_checked = refl

-- ===== src/Ipc/Send.antt =====
-- `syscall_msgsend_handler`.
use rastapopoulos.Base.{
  Outcome, [], arith, assertion_failed, fail, none, ok, refl, some, sym, true, ℕ, ◌++◌, ◌+◌, ◌<◌,
  ◌^◌, ◌∙◌, ◌∷◌, ◌≡◌, ◌≢◌,
}
use rastapopoulos.Ipc.{
  Ipc, Message, Port, Sending, awaits_port, deliver, message_checksum, msgsend, port_get, queued,
  send_to_port, set_queue, stamp,
}
use rastapopoulos.Ipc.Ports.{IsNumbered}
use rastapopoulos.Ipc.Queues.{
  find_port-number, get-set_queue_other, get-set_queue_same, port_get-find_port,
  set_queue-IsNumbered,
}
use rastapopoulos.Scheduler.{Scheduler, invalid_port, task_get}
use rastapopoulos.Scheduler.Invariant.{IsValid}
use rastapopoulos.Scheduler.Queues.{count}
use rastapopoulos.Scheduler.Sleeping.{blocked_lem, task_wake_found}

-- What a send relies on: a valid scheduler, a caller that is not the idle task, and a clock that is
-- not within 2^32 ms of its end.
pub record CanBlock (s : Ipc) : Type 0 where
  pub valid : IsValid s.sched
  pub not_idle : s.sched.current ≢ s.sched.idle
  pub early : s.sched.now + 2 ^ 32 < 2 ^ 64

-- A message was queued: behind those that the port had, under the name of the sender and with its
-- checksum; the sender sleeps and the receiver, if it is another task, does not.
pub record Sent (s : Ipc) (number : ℕ) (port : Port) (m : Message) (result : Outcome Sending)
    : Type 0 where
  pub after : Ipc
  pub returns : result ≡ ok (queued after)
  pub delivered :
      port_get after number
      ≡ some (record port { queue = port.queue ++ (stamp s.sched.current m ∷ []) })
  pub signed : (stamp s.sched.current m).sender ≡ s.sched.current
  pub checked : message_checksum (stamp s.sched.current m) ≡ (stamp s.sched.current m).checksum
  pub same_body : (stamp s.sched.current m).body ≡ m.body
  pub others : (k : ℕ) → k ≢ number → port_get after k ≡ port_get s k
  pub numbered : IsNumbered s → IsNumbered after
  pub valid : IsValid after.sched
  pub sender_asleep : count s.sched.current after.sched.sleeping ≡ 1
  pub receiver_awake :
      port.receiver ≢ s.sched.current → count port.receiver after.sched.sleeping ≡ 0

-- The kernel's copy of a message names its sender, carries a valid checksum, and has the reply port,
-- the code and the body of the message.
pub stamp_lem :
    (pid : ℕ) (m : Message)
    → let copy = stamp pid m in
      (copy.sender ≡ pid)
      × (message_checksum copy ≡ copy.checksum)
      × (copy.reply_port ≡ m.reply_port)
      × (copy.code ≡ m.code)
      × (copy.body ≡ m.body)
unfolding stamp message_checksum
stamp_lem pid m = (refl, refl, refl, refl, refl)

deliver-Sent :
    (s : Ipc) (number : ℕ) (port : Port) (m : Message)
    → CanBlock s
    → port_get s number ≡ some port
    → task_get s.sched port.receiver ≡ true
    → Sent s number port m (deliver s port m)
unfolding deliver
deliver-Sent s number port m c found live =
    let (woken, woke, kept, awake) = task_wake_found s.sched port.receiver c.valid live in
    let (q, blocks, valid, asleep, fewer, recv, send) =
      blocked_lem woken invalid_port invalid_port kept.valid
        (λ e. c.not_idle (sym kept.same_current ∙ e ∙ kept.same_idle)) (rw kept.same_now c.early) in
    let same = find_port-number s.ports number (port_get-find_port s number found).0 in
    let queue = port.queue ++ (stamp s.sched.current m ∷ []) in
    record {
      after = record s { sched = q; ports = set_queue s.ports number queue };
      returns = rw (woke, blocks, same) refl;
      delivered = get-set_queue_same s q number queue found;
      signed = (stamp_lem s.sched.current m).0;
      checked = (stamp_lem s.sched.current m).1;
      same_body = (stamp_lem s.sched.current m).4;
      others = λ k ne. get-set_queue_other s q number k queue ne;
      numbered = set_queue-IsNumbered s q number queue;
      valid = valid;
      sender_asleep = cc;
      receiver_awake =
          λ ne. omega (arith, awake, fewer port.receiver (λ e. ne (e ∙ kept.same_current)));
    }

msgsend_accepted :
    (s : Ipc) (number : ℕ) (m : Message)
    → message_checksum m ≡ m.checksum
    → msgsend s number m ≡ send_to_port s number m
unfolding msgsend
msgsend_accepted s number m checked = ground arith

msgsend_bad :
    (s : Ipc) (number : ℕ) (m : Message)
    → message_checksum m ≢ m.checksum
    → msgsend s number m ≡ fail assertion_failed
unfolding msgsend
msgsend_bad s number m bad = ground arith

-- `msgsend` of a message with a right checksum, to an open port whose receiver `task_get` finds,
-- queues a copy of it as the last message of the port, with the sender's pid, a right checksum
-- and the same body, and changes no other port. The sender then sleeps; the receiver, if it is
-- another task, does not. The caller is not the idle task, the scheduler valid, before and
-- after, and the clock more than 2 ^ 32 ms from its end.
pub msgsend-Sent :
    (s : Ipc) (number : ℕ) (port : Port) (m : Message)
    → CanBlock s
    → message_checksum m ≡ m.checksum
    → port_get s number ≡ some port
    → task_get s.sched port.receiver ≡ true
    → Sent s number port m (msgsend s number m)
unfolding send_to_port
msgsend-Sent s number port m c checked found live =
    rw (msgsend_accepted s number m checked, send_to_port, found)
      (deliver-Sent s number port m c found live)

-- `msgsend` of a message whose checksum is wrong, to a port that is not open, fails the kernel's
-- assertion. With a right checksum it leaves the ports as they are and puts the caller to sleep,
-- waiting to send to that port, if the caller is not the idle task, the scheduler is valid and
-- the clock more than 2 ^ 32 ms from its end.
pub msgsend_refused :
    (s : Ipc) (number : ℕ) (m : Message)
    → CanBlock s
    → port_get s number ≡ none
    → (message_checksum m ≢ m.checksum → msgsend s number m ≡ fail assertion_failed)
      × (message_checksum m ≡ m.checksum
          → (q : Scheduler) × (msgsend s number m ≡ ok (awaits_port (record s { sched = q })))
            × IsValid q
            × (count s.sched.current q.sleeping ≡ 1)
            × ((q.tasks s.sched.current).wait_cansend_port ≡ number))
unfolding send_to_port
msgsend_refused s number m c closed = (
  msgsend_bad s number m,
  λ checked.
      let (q, blocks, valid, asleep, fewer, recv, send) =
        blocked_lem s.sched invalid_port number c.valid c.not_idle c.early in
      (
        q,
        rw (msgsend_accepted s number m checked, send_to_port, closed, blocks) refl,
        valid,
        asleep,
        send,
      ),
)

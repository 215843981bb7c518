-- ===== src/Ipc/Receive.antt =====
-- `syscall_msgrecv_handler`, `syscall_msgwait_handler` and `syscall_msgpeek_handler`.
use rastapopoulos.Base.{
  List, Outcome, [], arith, false, leb, length, none, ok, refl, some, true, ℕ, ◌++◌, ◌+◌, ◌<◌, ◌==◌,
  ◌∙◌, ◌∷◌, ◌≡◌, ◌≢◌, ◌≤◌,
}
use rastapopoulos.Ipc.{
  Ipc, Message, Port, Receiving, header_size, message_checksum, msgrecv, msgsend, port_get, queued,
  recv_from_port, returned, set_queue, stamp, take_message,
}
use rastapopoulos.Ipc.Ports.{IsNumbered}
use rastapopoulos.Ipc.Queues.{
  find_port-number, get-set_queue_other, get-set_queue_same, port_get-find_port,
  set_queue-IsNumbered,
}
use rastapopoulos.Ipc.Send.{CanBlock, msgsend-Sent, stamp_lem}
use rastapopoulos.Scheduler.{Scheduler, task_get, task_wake}
use rastapopoulos.Scheduler.Invariant.{IsValid}
use rastapopoulos.Scheduler.Queues.{count}
use rastapopoulos.Scheduler.Sleeping.{task_wake_found}
use rastapopoulos.Scheduler.Wake.{Kept}

-- A message was taken: the oldest of the port, whose sender sleeps no more; no other port changed.
pub record Received (s : Ipc) (number : ℕ) (port : Port) (m : Message) (rest : List Message)
    (result : Outcome Receiving) : Type 0 where
  pub after : Ipc
  pub returns : result ≡ ok (returned 0 (some (header_size + length m.body)) (some m) after)
  pub shorter : port_get after number ≡ some (record port { queue = rest })
  pub others : (k : ℕ) → k ≢ number → port_get after k ≡ port_get s k
  pub numbered : IsNumbered s → IsNumbered after
  pub sched : Kept s.sched after.sched
  pub sender_awake : count m.sender after.sched.sleeping ≡ 0

pub msgrecv_open :
    (s : Ipc) (number size : ℕ) (port : Port) (m : Message) (rest : List Message)
    → port_get s number ≡ some port
    → s.sched.current ≡ port.receiver
    → port.queue ≡ m ∷ rest
    → msgrecv s number size ≡ take_message s port m rest size
unfolding msgrecv recv_from_port take_message
msgrecv_open s number size port m rest found mine head_is =
    let same : (s.sched.current == port.receiver) ≡ true = ground arith in
    rw (msgrecv, found, same, recv_from_port, head_is) refl

take_message_fits :
    (s : Ipc) (size : ℕ) (port : Port) (m : Message) (rest : List Message) {woken : Scheduler}
    → message_checksum m ≡ m.checksum
    → header_size + length m.body ≤ size
    → task_wake s.sched m.sender ≡ ok woken
    → take_message s port m rest size
      ≡ ok (
          returned 0
            (some (header_size + length m.body))
            (some m)
            (record s { sched = woken; ports = set_queue s.ports port.number rest }))
unfolding take_message
take_message_fits s size port m rest checked fits woke =
    let accepted : (message_checksum m == m.checksum) ≡ true = ground arith in
    let large : leb (header_size + length m.body) size ≡ true = ground arith in
    rw (accepted, woke, large) refl

pub take_message_small :
    (s : Ipc) (size : ℕ) (port : Port) (m : Message) (rest : List Message)
    → message_checksum m ≡ m.checksum
    → size < header_size + length m.body
    → take_message s port m rest size ≡ ok (returned 3 (some (header_size + length m.body)) none s)
unfolding take_message
take_message_small s size port m rest checked small =
    let accepted : (message_checksum m == m.checksum) ≡ true = ground arith in
    let too_small : leb (header_size + length m.body) size ≡ false = ground arith in
    rw (accepted, too_small) refl

-- With a valid scheduler, `msgrecv` by the receiver of a port with messages, the oldest of which
-- has a right checksum, fits the buffer, and has a sender that `task_get` finds, returns 0 and
-- that message with its size, takes it from the queue and changes no other port. The sender
-- sleeps no more, and the scheduler stays valid.
pub msgrecv-Received :
    (s : Ipc) (number size : ℕ) (port : Port) (m : Message) (rest : List Message)
    → IsValid s.sched
    → port_get s number ≡ some port
    → s.sched.current ≡ port.receiver
    → port.queue ≡ m ∷ rest
    → message_checksum m ≡ m.checksum
    → header_size + length m.body ≤ size
    → task_get s.sched m.sender ≡ true
    → Received s number port m rest (msgrecv s number size)
msgrecv-Received s number size port m rest v found mine head_is checked fits live =
    let (woken, woke, kept, awake) = task_wake_found s.sched m.sender v live in
    let same = find_port-number s.ports number (port_get-find_port s number found).0 in
    record {
      after = record s { sched = woken; ports = set_queue s.ports number rest };
      returns =
          msgrecv_open s number size port m rest found mine head_is
          ∙ take_message_fits s size port m rest checked fits woke
          ∙ rw same refl;
      shorter = get-set_queue_same s woken number rest found;
      others = λ k ne. get-set_queue_other s woken number k rest ne;
      numbered = set_queue-IsNumbered s woken number rest;
      sched = kept;
      sender_awake = awake;
    }

any_sched :
    (s : Ipc) (number : ℕ) (q : Scheduler)
    → port_get (record s { sched = q }) number ≡ port_get s number
unfolding port_get
any_sched s number q = refl

-- What a message was sent as comes out again: a message with a right checksum that `msgsend` put
-- into the empty queue of an open port is what the receiver's next `msgrecv` with a large enough
-- buffer returns: a copy with the same code, reply port and body, the sender's pid and a right
-- checksum. The port is as it was before. Between them the
-- scheduler may come into any valid state in which the receiver runs and `task_get` finds the
-- sender. The sender sleeps no more in the end. It is not the idle task, and sends when the
-- scheduler is valid, the clock more than 2 ^ 32 ms from its end, and the receiver found.
pub send_receive :
    (s : Ipc) (number : ℕ) (port : Port) (m : Message) (q : Scheduler) (size : ℕ)
    → CanBlock s
    → message_checksum m ≡ m.checksum
    → port_get s number ≡ some port
    → port.queue ≡ []
    → task_get s.sched port.receiver ≡ true
    → IsValid q
    → q.current ≡ port.receiver
    → task_get q s.sched.current ≡ true
    → header_size + length m.body ≤ size
    → (sent final : Ipc) × (msgsend s number m ≡ ok (queued sent))
      × (copy : Message) × (msgrecv (record sent { sched = q }) number size
          ≡ ok (returned 0 (some (header_size + length m.body)) (some copy) final))
      × (copy.code ≡ m.code)
      × (copy.reply_port ≡ m.reply_port)
      × (copy.body ≡ m.body)
      × (copy.sender ≡ s.sched.current)
      × (message_checksum copy ≡ copy.checksum)
      × (port_get final number ≡ some port)
      × (count s.sched.current final.sched.sleeping ≡ 0)
unfolding stamp
send_receive s number port m q size c checked found nothing live v mine sender fits =
    let w = msgsend-Sent s number port m c checked found live in
    let copy = stamp s.sched.current m in
    let r =
      msgrecv-Received (record w.after { sched = q }) number size
        (record port { queue = copy ∷ [] }) copy [] v (waiting w.after copy w.delivered) mine refl
        (stamp_lem s.sched.current m).1 fits sender in
    let (from, accepted, reply_to, coded, contents) = stamp_lem s.sched.current m in
    (
      w.after,
      r.after,
      w.returns,
      copy,
      r.returns,
      coded,
      reply_to,
      contents,
      from,
      accepted,
      r.shorter ∙ rw nothing refl,
      r.sender_awake,
    )
  where
    waiting :
        (after : Ipc) (copy : Message)
        → port_get after number ≡ some (record port { queue = port.queue ++ (copy ∷ []) })
        → port_get (record after { sched = q }) number ≡ some (record port { queue = copy ∷ [] })
    waiting after copy e = any_sched after number q ∙ e ∙ rw nothing refl

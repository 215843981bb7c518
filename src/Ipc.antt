-- ===== src/Ipc.antt =====
-- kernel/ipc.c: ports, and the system calls that send and receive messages.
-- A call that blocks is cut at the block: it ends in a state in which the task sleeps, and the part
-- that runs when the task is resumed is a function of its own. The locks are taken and released
-- within such a part, so they are never found taken; they and the heap checks are not modelled.
-- The numbers of ports and pids are the 32-bit patterns of the C `int`.
pub mod Ports
pub mod Queues
pub mod Send
pub mod Receive
pub mod TakesNone
pub mod Peek
pub mod Samples
mod Tests
use rastapopoulos.Base.{
  List, Option, Outcome, [], aborted, assert, bit_and, bit_or, fail, if◌then◌else◌, leb, length,
  ltb, none, not, ok, some, undefined, ℕ, ◌%◌, ◌++◌, ◌+◌, ◌/◌, ◌==◌, ◌>>=◌, ◌>>◌, ◌^◌, ◌∷◌,
}
use rastapopoulos.Hash.{hash2}
use rastapopoulos.Scheduler.{
  Scheduler, invalid_port, sleep_infinite, task_block, task_wake, wake_tasks_waiting_for_port,
}

-- `struct message`; `len` is the length of `body`. The links of the queue are the list it stands in.
pub record Message : Type 0 where
  pub checksum : ℕ
  pub sender : ℕ
  pub reply_port : ℕ
  pub code : ℕ
  pub body : List ℕ

-- `struct port`
pub record Port : Type 0 where
  pub number : ℕ
  pub receiver : ℕ
  pub queue : List Message

-- The static variables, and the scheduler that the calls use.
pub record Ipc : Type 0 where
  pub sched : Scheduler
  pub ports : List Port
  pub reserved_ports : ℕ
  pub next_port_value : ℕ

-- sizeof(struct message): two links and five numbers
abbrev pub header_size : ℕ
header_size = 28

-- the bytes of an `int` or `unsigned`, in the order of memory
pub int_bytes : ℕ → List ℕ
int_bytes n = n % 256 ∷ n / 256 % 256 ∷ n / 65536 % 256 ∷ n / 16777216 % 256 ∷ []

pub message_checksum : Message → ℕ
message_checksum m = hash2 m.body (
    hash2 (int_bytes (length m.body))
      (hash2 (int_bytes m.code) (hash2 (int_bytes m.reply_port) (hash2 (int_bytes m.sender) 0))))

-- a negative number names no port
pub find_port : List Port → ℕ → Option Port
find_port [] number = none
find_port (p ∷ ports) number = if p.number == number then some p else find_port ports number

pub port_get : Ipc → ℕ → Option Port
port_get s number = if ltb number (2 ^ 31) then find_port s.ports number else none

-- A write through the pointer that `port_get` returned.
pub set_queue : List Port → ℕ → List Message → List Port
set_queue [] number queue = []
set_queue (p ∷ ports) number queue =
    if p.number == number
    then record p { queue = queue } ∷ ports
    else p ∷ set_queue ports number queue

abbrev new_port : Ipc → ℕ → Port
new_port s number = record { number = number; receiver = s.sched.current; queue = [] }

-- `syscall_portopen_handler`. The `++` of an `int` and the `1 <<` of a number of 32 or more are
-- undefined past the range of `int`.
pub portopen_dynamic : Ipc → Outcome (ℕ × Ipc)
portopen_dynamic s =
    if not (ltb s.next_port_value 0x7FFFFFFF)
    then fail undefined
    else ok (
      s.next_port_value,
      record s {
        next_port_value = s.next_port_value + 1;
        ports = s.ports ++ (new_port s s.next_port_value ∷ []);
      },
    )

pub portopen_reserved : Ipc → ℕ → Outcome (ℕ × Ipc)
portopen_reserved s n =
    if not (ltb n 32)
    then fail undefined
    else if not (bit_and s.reserved_ports (2 ^ n) == 0)
    then ok (invalid_port, s)
    else ok (
      n,
      record s {
        reserved_ports = bit_or s.reserved_ports (2 ^ n);
        ports = s.ports ++ (new_port s n ∷ []);
      },
    )

pub portopen : Ipc → ℕ → Outcome (ℕ × Ipc)
portopen s n = if n == invalid_port then portopen_dynamic s else portopen_reserved s n

-- The state of a sender after one part of `syscall_msgsend_handler`: it waits for the port to be
-- opened, and looks again when resumed; or it has queued its message and waits for the receiver, and
-- returns 0 when resumed.
pub data Sending : Type 0 where
  awaits_port : Ipc → Sending
  queued : Ipc → Sending

-- The copy that the kernel makes of a message.
pub stamp : ℕ → Message → Message
stamp pid m =
    let copy = record m { sender = pid } in record copy { checksum = message_checksum copy }

pub deliver : Ipc → Port → Message → Outcome Sending
deliver s port m = do
  let copy = stamp s.sched.current m
  let ports = set_queue s.ports port.number (port.queue ++ (copy ∷ []))
  woken ← task_wake s.sched port.receiver
  blocked ← task_block woken invalid_port invalid_port sleep_infinite
  ok (queued (record s { sched = blocked; ports = ports }))

-- The loop that waits for the port, entered again when the task is resumed.
pub send_to_port : Ipc → ℕ → Message → Outcome Sending
send_to_port s number m = elim (port_get s number) [
  | none ↦ do
    blocked ← task_block s.sched invalid_port number sleep_infinite
    ok (awaits_port (record s { sched = blocked }))
  | some port ↦ deliver s port m
]

pub msgsend : Ipc → ℕ → Message → Outcome Sending
msgsend s number m = do assert (message_checksum m == m.checksum); send_to_port s number m

-- The state of a receiver: the value of the call with what goes through `outsize` and into the
-- buffer, or a wait for a message.
pub data Receiving : Type 0 where
  returned : ℕ → Option ℕ → Option Message → Ipc → Receiving
  awaits_message : Ipc → Receiving

-- The message at the head of the queue.
pub take_message : Ipc → Port → Message → List Message → ℕ → Outcome Receiving
take_message s port m rest buffer_size =
    let size = header_size + length m.body in
    let delivered = (do
      woken ← task_wake s.sched m.sender
      ok (
          returned 0 (some size) (some m)
            (record s { sched = woken; ports = set_queue s.ports port.number rest }))) in
    if not (message_checksum m == m.checksum)
    then fail aborted
    else if leb size buffer_size
    then delivered
    else ok (returned 3 (some size) none s)

-- The loop that waits for a message, entered again when the task is resumed.
pub recv_from_port : Ipc → Port → ℕ → Outcome Receiving
recv_from_port s port buffer_size = elim port.queue [
  | [] ↦ do
    woken ← wake_tasks_waiting_for_port s.sched port.number
    blocked ← task_block woken port.number invalid_port sleep_infinite
    ok (awaits_message (record s { sched = blocked }))
  | m ∷ rest ↦ take_message s port m rest buffer_size
]

pub msgrecv : Ipc → ℕ → ℕ → Outcome Receiving
msgrecv s number buffer_size = elim (port_get s number) [
  | none ↦ ok (returned 1 none none s)
  | some port ↦
      if s.sched.current == port.receiver
      then recv_from_port s port buffer_size
      else ok (returned 2 none none s)
]

-- -1 as the call returns it
abbrev pub minus_one : ℕ
minus_one = 0xFFFFFFFF

pub wait_on_port : Ipc → Port → Outcome Receiving
wait_on_port s port = elim port.queue [
  | [] ↦ do
    blocked ← task_block s.sched port.number invalid_port sleep_infinite
    ok (awaits_message (record s { sched = blocked }))
  | m ∷ rest ↦ ok (returned 0 none none s)
]

pub msgwait : Ipc → ℕ → Outcome Receiving
msgwait s number = elim (port_get s number) [
  | none ↦ ok (returned minus_one none none s)
  | some port ↦
      if s.sched.current == port.receiver
      then wait_on_port s port
      else ok (returned minus_one none none s)
]

-- 1 if a message waits, 0 if none does
pub pending : List Message → ℕ
pending [] = 0
pending (m ∷ rest) = 1

pub msgpeek : Ipc → ℕ → ℕ
msgpeek s number = elim (port_get s number) [
  | none ↦ 0
  | some port ↦ if s.sched.current == port.receiver then pending port.queue else 0
]

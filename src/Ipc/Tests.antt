-- ===== src/Ipc/Tests.antt =====
-- Runs of kernel/ipc.c, and its theorems at them.
use rastapopoulos.Base.{
  [], arith, assertion_failed, fail, false, none, ok, refl, some, true, undefined, ◌<◌, ◌↔◌, ◌∷◌,
  ◌≡◌, ◌≢◌,
}
use rastapopoulos.Ipc.{
  Ipc, Message, Port, awaits_port, find_port, message_checksum, msgpeek, msgrecv, msgsend, msgwait,
  pending, port_get, portopen, portopen_reserved, queued, returned, stamp,
}
use rastapopoulos.Ipc.Peek.{msgpeek_iff}
use rastapopoulos.Ipc.Ports.{Opened, is_given, portopen-Opened}
use rastapopoulos.Ipc.Receive.{Received, msgrecv-Received, send_receive}
use rastapopoulos.Ipc.Samples.{
  hi, hi_checked, later, later-IsValid, two_ports, two_ports-CanBlock, two_ports-IsNumbered,
  waiting,
}
use rastapopoulos.Ipc.Send.{Sent, msgsend-Sent, msgsend_refused, stamp_lem}
use rastapopoulos.Scheduler.{Scheduler, contains, invalid_port, task_get}
use rastapopoulos.Scheduler.Invariant.{IsValid}
use rastapopoulos.Scheduler.Queues.{count}
use rastapopoulos.Scheduler.Samples.{busy-IsValid}

abbrev port_three : Port
port_three = record { number = 3; receiver = 2; queue = [] }

abbrev port_own : Port
port_own = record { number = 32; receiver = 0; queue = stamp 3 hi ∷ [] }

portopen_runs :
    (portopen two_ports 3 ≡ ok (invalid_port, two_ports)) × (portopen two_ports 40 ≡ fail undefined)
unfolding portopen portopen_reserved
portopen_runs = (refl, refl)

peek_runs : (msgpeek two_ports 32 ≡ 0) × (msgpeek waiting 32 ≡ 1) × (msgpeek waiting 3 ≡ 0)
unfolding msgpeek pending port_get find_port
peek_runs = (refl, refl, refl)

msgsend-Sent_example : Sent two_ports 3 port_three hi (msgsend two_ports 3 hi)
unfolding port_get find_port task_get contains
msgsend-Sent_example =
    msgsend-Sent two_ports 3 port_three hi two_ports-CanBlock hi_checked refl refl

msgsend_refused_example :
    (message_checksum hi ≢ hi.checksum → msgsend two_ports 9 hi ≡ fail assertion_failed)
    × (message_checksum hi ≡ hi.checksum
        → (q : Scheduler) × (msgsend two_ports 9 hi
            ≡ ok (awaits_port (record two_ports { sched = q })))
          × IsValid q
          × (count 0 q.sleeping ≡ 1)
          × ((q.tasks 0).wait_cansend_port ≡ 9))
unfolding port_get find_port
msgsend_refused_example = msgsend_refused two_ports 9 hi two_ports-CanBlock refl

msgrecv-Received_example : Received waiting 32 port_own (stamp 3 hi) [] (msgrecv waiting 32 100)
unfolding port_get find_port task_get contains stamp
msgrecv-Received_example =
    msgrecv-Received waiting 32 100 port_own (stamp 3 hi) [] busy-IsValid refl refl refl
      (stamp_lem 3 hi).1 (omega arith) refl

send_receive_example :
    (sent final : Ipc) × (msgsend two_ports 3 hi ≡ ok (queued sent))
    × (copy : Message) × (msgrecv (record sent { sched = later }) 3 30
        ≡ ok (returned 0 (some 30) (some copy) final))
    × (copy.code ≡ hi.code)
    × (copy.reply_port ≡ hi.reply_port)
    × (copy.body ≡ hi.body)
    × (copy.sender ≡ 0)
    × (message_checksum copy ≡ copy.checksum)
    × (port_get final 3 ≡ some port_three)
    × (count 0 final.sched.sleeping ≡ 0)
unfolding port_get find_port task_get contains
send_receive_example =
    send_receive two_ports 3 port_three hi later 30 two_ports-CanBlock hi_checked refl refl refl
      later-IsValid refl refl (omega arith)

msgpeek_runs : (msgpeek waiting 32 ≡ 1) ↔ (msgwait waiting 32 ≡ ok (returned 0 none none waiting))
msgpeek_runs = msgpeek_iff waiting 32

portopen-Opened_example :
    (33 < 0x7FFFFFFF → Opened two_ports 33 (portopen two_ports invalid_port))
    × (is_given two_ports 5 ≡ false → Opened two_ports 5 (portopen two_ports 5))
    × (is_given two_ports 5 ≡ true → portopen two_ports 5 ≡ ok (invalid_port, two_ports))
portopen-Opened_example = portopen-Opened two_ports 5 two_ports-IsNumbered (omega arith)

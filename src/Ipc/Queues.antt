-- ===== src/Ipc/Queues.antt =====
-- Writes to the queue of a port, which `syscall_msgsend_handler` and `syscall_msgrecv_handler` make.
use rastapopoulos.Base.{
  Bool-cases, List, [], arith, inl, inr, refl, some, ℕ, ◌<◌, ◌==◌, ◌^◌, ◌∙◌, ◌∷◌, ◌≡◌, ◌≢◌,
}
use rastapopoulos.Ipc.{Ipc, Message, Port, find_port, port_get, set_queue}
use rastapopoulos.Ipc.Ports.{IsNumbered, find_port-set_queue, ports_with}
use rastapopoulos.Scheduler.{Scheduler}

pub find_port-number :
    (ports : List Port) (n : ℕ) {p : Port} → find_port ports n ≡ some p → p.number ≡ n
unfolding find_port
find_port-number [] n e = cc
find_port-number (x ∷ ports) n {p} e = elim (Bool-cases (x.number == n)) [
  | inl same ↦ ground arith
  | inr other ↦ ground (arith, find_port-number ports n {p = p})
]

pub port_get-find_port :
    (s : Ipc) (n : ℕ) {p : Port}
    → port_get s n ≡ some p
    → (find_port s.ports n ≡ some p) × (n < 2 ^ 31)
unfolding port_get
port_get-find_port s n e = (ground arith, ground arith)

pub get-set_queue_same :
    (s : Ipc) (q : Scheduler) (n : ℕ) (queue : List Message) {p : Port}
    → port_get s n ≡ some p
    → port_get (record s { sched = q; ports = set_queue s.ports n queue }) n
      ≡ some (record p { queue = queue })
unfolding port_get
get-set_queue_same s q n queue e =
    let (found, small) = port_get-find_port s n e in
    rw (find_port-set_queue s.ports n n queue, found) (ground arith)

pub get-set_queue_other :
    (s : Ipc) (q : Scheduler) (n m : ℕ) (queue : List Message)
    → m ≢ n
    → port_get (record s { sched = q; ports = set_queue s.ports n queue }) m ≡ port_get s m
unfolding port_get
get-set_queue_other s q n m queue ne = rw (find_port-set_queue s.ports n m queue) (ground arith)

ports_with-set_queue :
    (ports : List Port) (n m : ℕ) (queue : List Message)
    → ports_with m (set_queue ports n queue) ≡ ports_with m ports
unfolding ports_with set_queue
ports_with-set_queue [] n m queue = refl
ports_with-set_queue (p ∷ ports) n m queue = ground (arith, ports_with-set_queue ports n m queue)

-- A write to a queue keeps the numbers of the ports.
pub set_queue-IsNumbered :
    (s : Ipc) (q : Scheduler) (n : ℕ) (queue : List Message)
    → IsNumbered s
    → IsNumbered (record s { sched = q; ports = set_queue s.ports n queue })
set_queue-IsNumbered s q n queue h = record {
  known = λ m e. ports_with-set_queue s.ports n m queue ∙ h.known m e;
  once = λ m. omega (arith, h.once m, ports_with-set_queue s.ports n m queue);
  dynamic = h.dynamic;
}

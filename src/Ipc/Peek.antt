-- ===== src/Ipc/Peek.antt =====
-- `syscall_msgpeek_handler` and `syscall_msgwait_handler` together.
use rastapopoulos.Base.{
  Bool-cases, List, Option-cases, Outcome, [], arith, fail, inl, inr, none, ok, refl, ℕ, ◌==◌,
  ◌>>=◌, ◌↔◌, ◌∷◌, ◌≡◌, ◌≢◌,
}
use rastapopoulos.Ipc.{
  Ipc, Message, Port, awaits_message, msgpeek, msgwait, pending, port_get, returned, wait_on_port,
}
use rastapopoulos.Scheduler.{Scheduler}

wait_not_now :
    (s : Ipc) (result : Outcome Scheduler)
    → (result >>= λ q. ok (awaits_message (record s { sched = q }))) ≢ ok (returned 0 none none s)
wait_not_now s (fail why) e = cc
wait_not_now s (ok q) e = cc

wait_on_port_iff :
    (s : Ipc) (port : Port) (queue : List Message)
    → port.queue ≡ queue
    → (pending port.queue ≡ 1) ↔ (wait_on_port s port ≡ ok (returned 0 none none s))
unfolding wait_on_port pending
wait_on_port_iff s port [] h =
    rw (wait_on_port, pending, h) (λ e. ground arith, λ e. absurd (wait_not_now s _ e))
wait_on_port_iff s port (m ∷ rest) h = rw (wait_on_port, pending, h) (λ e. refl, λ e. refl)

-- `msgpeek` returns 1 exactly when `msgwait` returns 0 without a block and leaves the state as it is.
pub msgpeek_iff :
    (s : Ipc) (number : ℕ)
    → (msgpeek s number ≡ 1) ↔ (msgwait s number ≡ ok (returned 0 none none s))
unfolding msgpeek msgwait
msgpeek_iff s number = elim (Option-cases (port_get s number)) [
  | inl closed ↦ rw (msgpeek, msgwait, closed) (λ e. ground arith, λ e. cc)
  | inr (port, found) ↦ elim (Bool-cases (s.sched.current == port.receiver)) [
    | inl mine ↦ rw (msgpeek, msgwait, found, mine) (wait_on_port_iff s port port.queue refl)
    | inr other ↦ rw (msgpeek, msgwait, found, other) (λ e. ground arith, λ e. cc)
  ]
]

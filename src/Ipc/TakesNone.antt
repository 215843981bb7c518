-- ===== src/Ipc/TakesNone.antt =====
-- `msgrecv` when there is nothing to take.
use rastapopoulos.Ipc.{Ipc}
use rastapopoulos.Scheduler.{Scheduler}

-- ===== src/Queue/Stale.antt =====
-- What happens in plugin/queue.c to a request that is made while the read of an earlier request, which
-- has timed out, is still in flight.
use qemu_mip.Prelude.{ℕ, true, some, [], ◌∷◌}
use qemu_mip.Queue.System.{System, wake, begin_read, read_mem, run, ask}

-- the first request times out while a vCPU thread reads for it
abbrev pub after_timeout : System → ℕ → ℕ → ℕ → System
after_timeout s phys len b = run (ask s (read_mem phys len (some b))) (begin_read ∷ wake true ∷ [])

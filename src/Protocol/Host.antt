-- ===== src/Protocol/Host.antt =====
-- The state behind a request of plugin/protocol.c: the plugin's globals and the threads around the
-- queue, and how a request to the queue runs there.
use qemu_mip.Hypercall.{Hypercall}
use qemu_mip.Mem.{Counters}
use qemu_mip.Prelude.{ℕ, Bool, true, Option, Bytes, List, [], ◌∷◌, ◌++◌, ◌==◌, if◌then◌else◌}
use qemu_mip.Queue.{Phase, wait_slot, wait_done, returned, Result, timeout}
use qemu_mip.Queue.System.{System, Event, wake, Ask, ask, run}

-- `qc_proto_ctx_t`; of its pointers `vga` and `queue` only whether they are NULL
pub record Ctx : Type 0 where
  pub has_vga : Bool
  pub has_queue : Bool
  pub vga_refresh_enabled : Bool
  pub socket_thread : Bool
  pub vga_enabled : Bool
  pub hypercall_enabled : Bool

pub record Host : Type 0 where
  pub sys : System
  pub hc : Hypercall
  pub counters : Counters

-- What the environment does during a request: the events of the other threads before the deadline
-- of the wait, and what `malloc` gives, as a name with the bytes that stand there, or NULL.
pub record Env : Type 0 where
  pub events : List Event
  pub buf : Option (ℕ × Bytes)
  pub hex_ok : Bool

abbrev pub result_of : Phase → Result
result_of wait_slot = record { status = timeout; hw_code = 0; data_len = 0 }
result_of wait_done = record { status = timeout; hw_code = 0; data_len = 0 }
result_of (returned r) = r

-- A call of `qc_queue_request_…`: the deadline is the last event, so the call has returned by then
-- (Queue/Progress.antt), and the first two clauses of `result_of` are not reached.
unfoldable pub exchange : System → Ask → List Event → Result × System
exchange s a events = let t = run (ask s a) (events ++ wake true ∷ []) in (result_of t.phase, t)

-- a buffer that `malloc` or `free` has set
unfoldable pub with_buffer : System → ℕ → Option Bytes → System
with_buffer s b bytes = record s { bufs = λ k. if k == b then bytes else s.bufs k }

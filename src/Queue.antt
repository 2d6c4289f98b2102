-- ===== src/Queue.antt =====
-- plugin/queue.c and plugin/queue.h: one slot through which the socket thread asks a vCPU thread to
-- read guest memory. Each function here is a part of the source between taking `q->lock` and giving
-- it up, be it by unlock, return or `pthread_cond_timedwait`; Queue/System.antt interleaves them.
pub mod Deadline
pub mod System
pub mod Stages
pub mod Integrity
pub mod Progress
pub mod Stale
mod Examples
use qemu_mip.Prelude.{
  ℕ, Bool, true, false, ◌&&◌, ◌||◌, not, Option, none, some, Bytes, [], ◌∷◌, length, take, drop,
  ◌++◌, ltb, leb, ◌==◌, if◌then◌else◌, min,
}
use qemu_mip.Vga
use qemu_mip.Vga.{Vga, load_cells}

-- `qc_queue_status_t`
pub data Status : Type 0 where
  ok timeout hw_fail busy disabled bad_arg : Status

-- `qc_job_kind`
pub data Kind : Type 0 where
  no_job vga_refresh mem_read : Kind

-- `qc_queue_result_t`
pub record Result : Type 0 where
  pub status : Status
  pub hw_code : ℕ
  pub data_len : ℕ

-- `struct qc_queue`, less its lock and condition. `out` names a buffer of the caller.
pub record Queue : Type 0 where
  pub default_timeout_ms : ℕ
  pub pending : Bool
  pub done : Bool
  pub cancelled : Bool
  pub kind : Kind
  pub status : Status
  pub hw_code : ℕ
  pub phys : ℕ
  pub len : ℕ
  pub out : Option ℕ
  pub data_len : ℕ

-- QEMU_CONNECT_MEM_READ_MAX
abbrev pub mem_read_max : ℕ
mem_read_max = 4096

abbrev pub default_timeout : ℕ
default_timeout = 250

-- Timeouts are `int`: `none` stands for the values of at most 0 that callers pass for "default".
abbrev pub timeout_or : ℕ → Option ℕ → ℕ
timeout_or d none = d
timeout_or d (some ms) = if ltb 0 ms then ms else d

unfoldable pub create : Option ℕ → Queue
create timeout_ms = record {
  default_timeout_ms = timeout_or default_timeout timeout_ms;
  pending = false;
  done = false;
  cancelled = false;
  kind = no_job;
  status = ok;
  hw_code = 0;
  phys = 0;
  len = 0;
  out = none;
  data_len = 0;
}

unfoldable pub set_timeout_ms : Queue → Option ℕ → Queue
set_timeout_ms q timeout_ms = record q {
  default_timeout_ms = timeout_or default_timeout timeout_ms;
}

-- `qc_queue_timeout_ms`; `none` is the null pointer
unfoldable pub timeout_ms_of : Option Queue → ℕ
timeout_ms_of none = default_timeout
timeout_ms_of (some q) = q.default_timeout_ms

-- Where the requesting thread stands in `submit_and_wait`.
pub data Phase : Type 0 where
  wait_slot : Phase
  wait_done : Phase
  returned : Result → Phase

-- what `submit_and_wait` sets up between its two loops
unfoldable pub claim : Queue → Queue
claim q = record q {
  pending = true;
  done = false;
  cancelled = false;
  status = timeout;
  hw_code = 0;
  data_len = 0;
}

-- the head of the loop `while (q->pending && !q->done)`, and what follows if it is left: the second
-- loop is entered, since `done` has just been cleared
unfoldable pub slot_loop : Queue → Phase × Queue
unfolding claim
slot_loop q = if q.pending && not q.done then (wait_slot, q) else (wait_done, claim q)

-- `pthread_cond_timedwait` has returned in the first loop, by timeout or not
unfoldable pub wake_slot : Bool → Queue → Phase × Queue
unfolding slot_loop
wake_slot timed_out q =
    if timed_out
    then (returned (record { status = busy; hw_code = 0; data_len = 0 }), q)
    else slot_loop q

-- `pthread_cond_timedwait` has returned in the second loop
unfoldable pub wake_done : Bool → Queue → Phase × Queue
wake_done timed_out q =
    if timed_out
    then (
      returned (record { status = timeout; hw_code = 0; data_len = 0 }),
      record q { cancelled = true; pending = false; done = true },
    )
    else if q.done
    then (
      returned (record { status = q.status; hw_code = q.hw_code; data_len = q.data_len }),
      record q { pending = false; kind = no_job },
    )
    else (wait_done, q)

-- `qc_queue_request_vga_refresh` up to its first wait
unfoldable pub request_vga_refresh : Queue → Phase × Queue
unfolding slot_loop
request_vga_refresh q =
    slot_loop
      (record q { kind = vga_refresh; out = none; phys = Vga.text_phys; len = Vga.window_bytes })

-- `qc_queue_request_mem_read` up to its first wait; `out` is NULL or a buffer
unfoldable pub request_mem_read : Queue → ℕ → ℕ → Option ℕ → Phase × Queue
unfolding slot_loop
request_mem_read q phys len none =
    (returned (record { status = bad_arg; hw_code = 0; data_len = 0 }), q)
request_mem_read q phys len (some out) =
    if len == 0 || ltb mem_read_max len
    then (returned (record { status = bad_arg; hw_code = 0; data_len = 0 }), q)
    else slot_loop (record q { kind = mem_read; phys = phys; len = len; out = some out })

-- the copy that `qc_queue_drain` takes of a job before it lets go of the lock
pub record Job : Type 0 where
  pub kind : Kind
  pub phys : ℕ
  pub len : ℕ
  pub out : Option ℕ

-- `qc_queue_drain` up to the read
unfoldable pub drain_begin : Queue → Option Job × Queue
drain_begin q = if not q.pending || q.done || q.cancelled then (none, q) else (
  some (record { kind = q.kind; phys = q.phys; len = q.len; out = q.out }),
  record q { pending = false },
)

-- What `qemu_plugin_read_memory_hwaddr` gave: its code, of which 0 is
-- QEMU_PLUGIN_HWADDR_OPERATION_OK, and the bytes in the array.
pub record Read : Type 0 where
  pub code : ℕ
  pub bytes : Bytes

-- the buffers of the callers, by name; `none` is one that is not allocated
abbrev pub Buffers : Type 0
Buffers = ℕ → Option Bytes

-- `memcpy` to the start of buffer `b`; a write to memory that was freed is left out
unfoldable pub copy_to : Buffers → ℕ → Bytes → Buffers
copy_to bufs b bytes k = elim (bufs k) [
  | none ↦ none
  | some old ↦ (if k == b then some (bytes ++ drop (length bytes) old) else some old)
]

-- how `qc_queue_drain` stores the bytes of a read that went well, by the job's kind, buffer and
-- length
unfoldable pub store_read :
    Kind → Option ℕ → ℕ → Bytes → Queue → Vga → Buffers → Queue × Vga × Buffers
store_read vga_refresh out len bytes q vga bufs =
    (record q { status = ok; data_len = length bytes }, load_cells vga bytes (length bytes), bufs)
store_read mem_read (some b) len bytes q vga bufs =
    let n = min (length bytes) len in
    (record q { data_len = n; status = ok }, vga, copy_to bufs b (take n bytes))
store_read mem_read none len bytes q vga bufs = (record q { status = hw_fail }, vga, bufs)
store_read no_job out len bytes q vga bufs = (record q { status = hw_fail }, vga, bufs)

abbrev pub is_nil : Bytes → Bool
is_nil [] = true
is_nil (_ ∷ _) = false

-- `qc_queue_drain` from the read on
unfoldable pub drain_end : Job → Read → Queue → Vga → Buffers → Queue × Vga × Buffers
unfolding store_read
drain_end job read q vga bufs =
    if q.cancelled
    then (record q { done = true }, vga, bufs)
    else (let noted = record q { hw_code = read.code } in
        let (q', vga', bufs') =
          if read.code == 0 && not (is_nil read.bytes)
          then store_read job.kind job.out job.len read.bytes noted vga bufs
          else (record noted { status = hw_fail }, vga, bufs) in
        (record q' { done = true }, vga', bufs'))

-- `qc_queue_destroy`, but for giving the memory back
unfoldable pub destroy : Queue → Queue
destroy q = record q { cancelled = true; pending = false; done = true }

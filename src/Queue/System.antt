-- ===== src/Queue/System.antt =====
-- The threads around the queue of plugin/queue.c: the socket thread, which makes one request at a
-- time, and vCPU threads in `qc_queue_drain`, any number of which may be between its two halves.
use qemu_mip.Prelude.{ℕ, zero, suc, Bool, Option, none, some, List, [], ◌∷◌}
use qemu_mip.Queue.{
  Queue, Phase, wait_slot, wait_done, returned, Job, Read, Buffers, wake_slot, wake_done,
  drain_begin, drain_end, request_vga_refresh, request_mem_read,
}
use qemu_mip.Vga.{Vga}

pub record System : Type 0 where
  pub q : Queue
  pub phase : Phase
  pub reading : List Job
  pub vga : Vga
  pub bufs : Buffers

-- What a thread does next. `wake` is a return of `pthread_cond_timedwait`, by timeout or not;
-- `end_read i r` ends the read that stands at `i` among those in flight.
pub data Event : Type 0 where
  wake : Bool → Event
  begin_read : Event
  end_read : ℕ → Read → Event

pub data Ask : Type 0 where
  refresh : Ask
  read_mem : ℕ → ℕ → Option ℕ → Ask

-- the element at an index, and the others
unfoldable pub pick : ℕ → List Job → Option (Job × List Job)
pick i [] = none
pick zero (j ∷ js) = some (j, js)
pick (suc i) (j ∷ js) = elim (pick i js) [ none ↦ none | some (k, ks) ↦ some (k, j ∷ ks) ]

unfoldable pub wake_up : Phase → Bool → Queue → Phase × Queue
wake_up wait_slot timed_out q = wake_slot timed_out q
wake_up wait_done timed_out q = wake_done timed_out q
wake_up (returned r) timed_out q = (returned r, q)

abbrev pub started : Option Job → List Job → List Job
started none js = js
started (some j) js = j ∷ js

unfoldable pub finish_read : Option (Job × List Job) → Read → System → System
finish_read none read s = s
finish_read (some (job, rest)) read s =
    let (q, vga, bufs) = drain_end job read s.q s.vga s.bufs in
    record { q = q; phase = s.phase; reading = rest; vga = vga; bufs = bufs }

unfoldable pub step : System → Event → System
unfolding wake_up finish_read
step s (wake timed_out) =
    let (phase, q) = wake_up s.phase timed_out s.q in record s { phase = phase; q = q }
step s begin_read =
    let (job, q) = drain_begin s.q in record s { q = q; reading = started job s.reading }
step s (end_read i read) = finish_read (pick i s.reading) read s

unfoldable pub run : System → List Event → System
run s [] = s
run s (e ∷ es) = run (step s e) es

unfoldable pub ask : System → Ask → System
ask s refresh = let (phase, q) = request_vga_refresh s.q in record s { phase = phase; q = q }
ask s (read_mem phys len out) =
    let (phase, q) = request_mem_read s.q phys len out in record s { phase = phase; q = q }

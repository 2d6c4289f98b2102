-- ===== src/Queue/Progress.antt =====
-- That requests of plugin/queue.c return, and that the one socket thread always finds the slot free.
use qemu_mip.Prelude.{
  ℕ, ◌<◌, ◌≤◌, ◌≡◌, refl, ◌∙◌, sym, Bool-cases, inl, inr, Bytes, arith, Bool, true, false, Option,
  none, some, List, [], ◌∷◌, ◌++◌, if◌then◌else◌, length, min,
}
use qemu_mip.Queue.{
  Queue, Phase, wait_slot, wait_done, returned, Job, Read, Status, ok, hw_fail, busy, Result, Kind,
  vga_refresh, mem_read, no_job, wake_slot, wake_done, drain_begin, drain_end, store_read,
  request_vga_refresh, request_mem_read, claim, slot_loop, mem_read_max, Buffers,
}
use qemu_mip.Queue.Integrity.{good, ask-read_mem}
use qemu_mip.Queue.Stages.{flags-drain_end, phase-finish_read}
use qemu_mip.Vga.{Vga}
use qemu_mip.Queue.System.{
  System, Event, wake, begin_read, end_read, Ask, refresh, read_mem, pick, step, run, ask, wake_up,
  finish_read,
}

-- The request has returned.
Done : System → Type 0
Done s = (r : Result) × (s.phase ≡ returned r)

step-Done : (s : System) (e : Event) → Done s → Done (step s e)
unfolding Done step
step-Done s (wake b) (r, ph) = (r, ground arith)
step-Done s begin_read (r, ph) = (r, ph)
step-Done s (end_read i read) (r, ph) = (r, phase-finish_read (pick i s.reading) read s ∙ ph)

run-Done : (s : System) (es : List Event) → Done s → Done (run s es)
unfolding run
run-Done s [] d = d
run-Done s (e ∷ es) d = run-Done (step s e) es (step-Done s e d)

wake_up-Done : (phase : Phase) (q : Queue) → (r : Result) × ((wake_up phase true q).0 ≡ returned r)
unfolding wake_up wake_slot wake_done
wake_up-Done wait_slot q = (_, refl)
wake_up-Done wait_done q = (_, refl)
wake_up-Done (returned r) q = (r, refl)

-- A request has returned by the end of any schedule in which `pthread_cond_timedwait` reports a timeout.
pub request_returns :
    (s : System) (before after : List Event)
    → (r : Result) × ((run s (before ++ wake true ∷ after)).phase ≡ returned r)
unfolding run step Done
request_returns s [] after = run-Done (step s (wake true)) after (wake_up-Done s.phase s.q)
request_returns s (e ∷ before) after = request_returns (step s e) before after

-- If a vCPU thread drains the queue once after a request for `len` bytes, from 1 to 4096, and the
-- thread is then woken, the request has returned: with OK and the number of bytes if the read gave
-- any, and with HW_FAIL and the code of the read if not.
pub one_drain_answers :
    (s : System) (phys len b : ℕ) (read : Read)
    → s.q.pending ≡ false
    → s.reading ≡ []
    → 0 < len
    → len ≤ mem_read_max
    → (run
        (ask s (read_mem phys len (some b)))
        (begin_read ∷ end_read 0 read ∷ wake false ∷ [])).phase
      ≡ returned (
          if good read
          then record { status = ok; hw_code = read.code; data_len = min (length read.bytes) len }
          else record { status = hw_fail; hw_code = read.code; data_len = 0 })
unfolding run step drain_begin drain_end store_read claim pick wake_done
one_drain_answers s phys len b read free idle pos small =
    ground (arith, ask-read_mem s phys len b free pos small)

-- What the threads do next: an event, or a call by the socket thread once the last has returned.
pub data Action : Type 0 where
  on : Event → Action
  call : Ask → Action

pub has_returned : Phase → Bool
has_returned wait_slot = false
has_returned wait_done = false
has_returned (returned r) = true

unfoldable pub act : System → Action → System
unfolding has_returned
act s (on e) = step s e
act s (call a) = if has_returned s.phase then ask s a else s

unfoldable pub act_all : System → List Action → System
act_all s [] = s
act_all s (a ∷ as') = act_all (act s a) as'

abbrev busy_status : Status → Bool
busy_status busy = true
busy_status _ = false

abbrev is_wait_done : Phase → Bool
is_wait_done wait_slot = false
is_wait_done wait_done = true
is_wait_done (returned r) = false

abbrev is_busy : Phase → Bool
is_busy wait_slot = true
is_busy wait_done = false
is_busy (returned r) = busy_status r.status

-- A job is pending only while its request waits for it, no request waits for the slot, and none
-- has returned with BUSY.
pub record SlotIsFree (s : System) : Type 0 where
  pub own_job : s.q.pending ≡ true → is_wait_done s.phase ≡ true
  pub not_busy : is_busy s.phase ≡ false
  pub no_busy_status : busy_status s.q.status ≡ false

status-store_read :
    (kind : Kind) (out : Option ℕ) (len : ℕ) (bytes : Bytes) (q : Queue) (vga : Vga)
    (bufs : Buffers)
    → busy_status (store_read kind out len bytes q vga bufs).0.status ≡ false
unfolding store_read
status-store_read vga_refresh out len bytes q vga bufs = refl
status-store_read mem_read (some b) len bytes q vga bufs = refl
status-store_read mem_read none len bytes q vga bufs = refl
status-store_read no_job out len bytes q vga bufs = refl

status-drain_end :
    (job : Job) (read : Read) (q : Queue) (vga : Vga) (bufs : Buffers)
    → busy_status q.status ≡ false
    → busy_status (drain_end job read q vga bufs).0.status ≡ false
unfolding drain_end
status-drain_end job read q vga bufs h = ground (
  arith,
  status-store_read job.kind job.out job.len read.bytes (record q { hw_code = read.code }) vga bufs,
)

finish_read-SlotIsFree :
    (picked : Option (Job × List Job)) (read : Read) (s : System)
    → SlotIsFree s
    → SlotIsFree (finish_read picked read s)
unfolding finish_read
finish_read-SlotIsFree none read s f = f
finish_read-SlotIsFree (some (job, rest)) read s f =
    let flags = flags-drain_end job read s.q s.vga s.bufs in
    record {
      own_job = λ h. f.own_job (sym flags.0 ∙ h);
      not_busy = f.not_busy;
      no_busy_status = status-drain_end job read s.q s.vga s.bufs f.no_busy_status;
    }

step-SlotIsFree : (s : System) (e : Event) → SlotIsFree s → SlotIsFree (step s e)
unfolding step wake_slot wake_done slot_loop claim drain_begin
step-SlotIsFree s (wake b) f = ground arith
step-SlotIsFree s begin_read f = ground arith
step-SlotIsFree s (end_read i read) f = finish_read-SlotIsFree (pick i s.reading) read s f

ask-SlotIsFree :
    (s : System) (a : Ask) → has_returned s.phase ≡ true → SlotIsFree s → SlotIsFree (ask s a)
unfolding ask request_vga_refresh request_mem_read slot_loop claim has_returned
ask-SlotIsFree s refresh d f = ground arith
ask-SlotIsFree s (read_mem phys len none) d f = ground arith
ask-SlotIsFree s (read_mem phys len (some b)) d f = ground arith

pub act-SlotIsFree : (s : System) (a : Action) → SlotIsFree s → SlotIsFree (act s a)
unfolding act
act-SlotIsFree s (on e) f = step-SlotIsFree s e f
act-SlotIsFree s (call a) f = elim (Bool-cases (has_returned s.phase)) [
  | inl d ↦ rw d (ask-SlotIsFree s a d f)
  | inr w ↦ rw w f
]

-- With one socket thread the slot is always free: on every sequence of calls, wake-ups, drains and
-- reads from a state where this holds, such as that after `qc_queue_create`, no request ever waits
-- for the slot or returns BUSY.
pub never_busy :
    (s : System) (actions : List Action) → SlotIsFree s → SlotIsFree (act_all s actions)
unfolding act_all
never_busy s [] f = f
never_busy s (a ∷ as') f = never_busy (act s a) as' (act-SlotIsFree s a f)

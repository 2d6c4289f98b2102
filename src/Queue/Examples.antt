-- ===== src/Queue/Examples.antt =====
-- Schedules at which the theorems on plugin/queue.c are applied.
use qemu_mip.Prelude.{◌≡◌, ◌⊎◌, refl, true, false, some, List, [], ◌∷◌, arith, All}
use qemu_mip.Queue.{
  returned, Read, Result, ok, timeout, create, request_vga_refresh, drain_begin, drain_end,
  store_read, wake_done,
}
use qemu_mip.Queue.Integrity.{MemAnswer, RefreshAnswer, mem_read_answer, refresh_answer}
use qemu_mip.Queue.Progress.{on, call, SlotIsFree, act_all, one_drain_answers, never_busy}
use qemu_mip.Queue.Stages.{Gives}
use qemu_mip.Queue.System.{
  System, step, finish_read, wake_up, pick, Event, wake, begin_read, end_read, refresh, read_mem,
  run, ask,
}
use qemu_mip.Vga

-- what the guest has, and a read that gives it
abbrev answer : Read
answer = record { code = 0; bytes = 7 ∷ 8 ∷ [] }

abbrev idle : System
idle = record {
  q = create (some 250);
  phase = returned (record { status = ok; hw_code = 0; data_len = 0 });
  reading = [];
  vga = Vga.init;
  bufs = λ b. some (0 ∷ 0 ∷ []);
}

-- a vCPU thread drains the queue, and the socket thread is woken
abbrev drained : List Event
drained = begin_read ∷ end_read 0 answer ∷ wake false ∷ []

-- the reads of the schedule are of memory that holds 7 and 8
abbrev IsAnswer : Read → Type 0
IsAnswer read = read ≡ answer

abbrev read_result : Result
read_result = record { status = ok; hw_code = 0; data_len = 2 }

drained-Gives : All (Gives IsAnswer) drained
drained-Gives = (tt, (refl, (tt, tt)))

mem_read_answer_example :
    let s' = run (ask idle (read_mem 0x1000 2 (some 0))) drained in
    (read_result ≡ record { status = timeout; hw_code = 0; data_len = 0 })
    ⊎ ((read : Read) × IsAnswer read
        × MemAnswer 2 0 idle.bufs read read_result s'.bufs
        × (s'.vga ≡ idle.vga))
unfolding create
mem_read_answer_example =
    mem_read_answer IsAnswer idle 0x1000 2 0 drained read_result refl refl (omega arith)
      (omega arith) drained-Gives
      (one_drain_answers idle 0x1000 2 0 answer refl refl (omega arith) (omega arith))

refresh_drained : (run (ask idle refresh) drained).phase ≡ returned read_result
unfolding run ask request_vga_refresh step drain_begin drain_end store_read wake_done finish_read
    wake_up pick create
refresh_drained = refl

refresh_answer_example :
    let s' = run (ask idle refresh) drained in
    (read_result ≡ record { status = timeout; hw_code = 0; data_len = 0 })
    ⊎ ((read : Read) × IsAnswer read
        × RefreshAnswer idle.vga read read_result s'.vga
        × (s'.bufs ≡ idle.bufs))
unfolding create
refresh_answer_example =
    refresh_answer IsAnswer idle drained read_result refl refl drained-Gives refresh_drained

-- nobody drains the queue, but the wait times out
one_drain_answers_example :
    (run (ask idle (read_mem 0x1000 2 (some 0))) drained).phase
    ≡ returned (record { status = ok; hw_code = 0; data_len = 2 })
unfolding create
one_drain_answers_example =
    one_drain_answers idle 0x1000 2 0 answer refl refl (omega arith) (omega arith)

idle-SlotIsFree : SlotIsFree idle
unfolding create
idle-SlotIsFree = record { own_job = λ h. h; not_busy = refl; no_busy_status = refl }

never_busy_example :
    SlotIsFree (act_all idle (call refresh ∷ on begin_read ∷ on (wake true) ∷ call refresh ∷ []))
never_busy_example =
    never_busy idle (call refresh ∷ on begin_read ∷ on (wake true) ∷ call refresh ∷ [])
      idle-SlotIsFree

-- ===== src/Queue/Integrity.antt =====
-- What a request of plugin/queue.c returns when no older read is in flight, on every schedule.
use qemu_mip.Prelude.{
  ℕ, ◌<◌, ◌≤◌, ◌≡◌, ◌⊎◌, inl, inr, refl, arith, Bool, false, ◌&&◌, not, none, some, List, [],
  if◌then◌else◌, ◌==◌, length, take, min, All,
}
use qemu_mip.Queue.{
  Queue, wait_done, returned, Read, Buffers, vga_refresh, mem_read, ok, timeout, hw_fail, Result,
  drain_end, request_vga_refresh, request_mem_read, claim, store_read, copy_to, is_nil,
  mem_read_max,
}
use qemu_mip.Queue.System.{System, Event, refresh, read_mem, run, ask}
use qemu_mip.Queue.Stages.{Gives, queued, Answer, run-returned}
use qemu_mip.Vga
use qemu_mip.Vga.{Vga, load_cells}

-- the read went well and gave bytes
abbrev pub good : Read → Bool
good read = read.code == 0 && not (is_nil read.bytes)

-- what a read gives a request for `len` bytes into buffer `b`
pub record MemAnswer (len b : ℕ) (old : Buffers) (read : Read) (r : Result) (now : Buffers)
    : Type 0 where
  pub result : r ≡ (
      if good read
      then record { status = ok; hw_code = read.code; data_len = min (length read.bytes) len }
      else record { status = hw_fail; hw_code = read.code; data_len = 0 })
  pub buffers :
      now
      ≡ (if good read then copy_to old b (take (min (length read.bytes) len) read.bytes) else old)

-- what a read gives a refresh of the screen
pub record RefreshAnswer (old : Vga) (read : Read) (r : Result) (now : Vga) : Type 0 where
  pub result : r ≡ (
      if good read
      then record { status = ok; hw_code = read.code; data_len = length read.bytes }
      else record { status = hw_fail; hw_code = read.code; data_len = 0 })
  pub screen : now ≡ (if good read then load_cells old read.bytes (length read.bytes) else old)

Answer-mem_read :
    (P : Read → Type 0) (q : Queue) (vga : Vga) (bufs : Buffers) (read : Read) (r : Result)
    → (vga' : Vga) (bufs' : Buffers) (len b : ℕ) → q.kind ≡ mem_read
    → q.len ≡ len
    → q.out ≡ some b
    → Answer P q vga bufs read r vga' bufs'
    → MemAnswer len b bufs read r bufs' × (vga' ≡ vga)
unfolding drain_end store_read claim
Answer-mem_read P q vga bufs read r vga' bufs' len b k l o a = ground arith

pub ask-read_mem :
    (s : System) (phys len b : ℕ)
    → s.q.pending ≡ false
    → 0 < len
    → len ≤ mem_read_max
    → ask s (read_mem phys len (some b)) ≡ record s {
      q = claim (record (s.q) { kind = mem_read; phys = phys; len = len; out = some b });
      phase = wait_done;
    }
unfolding ask request_mem_read
ask-read_mem s phys len b free pos small = ground arith

-- Let no read be in flight and no job pending, and let the socket thread ask for `len` bytes, from 1
-- to 4096. On every schedule of wake-ups, of drains by vCPU threads and of reads that have the
-- property `P`, if the request returns then it has timed out, or a read with the property has been
-- made: if that gave bytes the status is OK and the buffer begins with the first `data_len` of them,
-- and if not the status is HW_FAIL with its code and no buffer has changed. The screen is untouched.
pub mem_read_answer :
    (P : Read → Type 0) (s : System) (phys len b : ℕ) (events : List Event) (r : Result)
    → s.q.pending ≡ false
    → s.reading ≡ []
    → 0 < len
    → len ≤ mem_read_max
    → All (Gives P) events
    → (run (ask s (read_mem phys len (some b))) events).phase ≡ returned r
    → let s' = run (ask s (read_mem phys len (some b))) events in
      (r ≡ record { status = timeout; hw_code = 0; data_len = 0 })
      ⊎ ((read : Read) × P read × MemAnswer len b s.bufs read r s'.bufs × (s'.vga ≡ s.vga))
mem_read_answer P s phys len b events r free idle pos small g ph =
    let q = record (s.q) { kind = mem_read; phys = phys; len = len; out = some b } in
    let asked = ask-read_mem s phys len b free pos small in
    elim (run-returned P q s.vga s.bufs _ events r (queued (ground (arith, asked))) g ph) [
      | inl e ↦ inl e
      | inr (read, p, a) ↦
          let m = Answer-mem_read P q s.vga s.bufs read r _ _ len b refl refl refl a in
          inr (read, p, m.0, m.1)
    ]

Answer-refresh :
    (P : Read → Type 0) (q : Queue) (vga : Vga) (bufs : Buffers) (read : Read) (r : Result)
    → (vga' : Vga) (bufs' : Buffers) → q.kind ≡ vga_refresh
    → Answer P q vga bufs read r vga' bufs'
    → RefreshAnswer vga read r vga' × (bufs' ≡ bufs)
unfolding drain_end store_read claim
Answer-refresh P q vga bufs read r vga' bufs' k a = ground arith

pub ask-refresh :
    (s : System)
    → s.q.pending ≡ false
    → ask s refresh ≡ record s {
      q = claim (record (s.q) {
        kind = vga_refresh;
        out = none;
        phys = Vga.text_phys;
        len = Vga.window_bytes;
      });
      phase = wait_done;
    }
unfolding ask request_vga_refresh
ask-refresh s free = ground arith

-- Let no read be in flight and no job pending, and let the socket thread ask for a refresh. On every
-- schedule of wake-ups, drains and reads that have the property `P`, if the request returns then it
-- has timed out, or a read with the property has been made: if that gave bytes the status is OK and
-- the screen is loaded from them, and if not the status is HW_FAIL with its code and the screen is
-- as it was. No buffer changes.
pub refresh_answer :
    (P : Read → Type 0) (s : System) (events : List Event) (r : Result)
    → s.q.pending ≡ false
    → s.reading ≡ []
    → All (Gives P) events
    → (run (ask s refresh) events).phase ≡ returned r
    → let s' = run (ask s refresh) events in
      (r ≡ record { status = timeout; hw_code = 0; data_len = 0 })
      ⊎ ((read : Read) × P read × RefreshAnswer s.vga read r s'.vga × (s'.bufs ≡ s.bufs))
refresh_answer P s events r free idle g ph =
    let q = record (s.q) {
      kind = vga_refresh;
      out = none;
      phys = Vga.text_phys;
      len = Vga.window_bytes;
    } in
    let asked = ask-refresh s free in
    elim (run-returned P q s.vga s.bufs _ events r (queued (ground (arith, asked))) g ph) [
      | inl e ↦ inl e
      | inr (read, p, a) ↦
          let m = Answer-refresh P q s.vga s.bufs read r _ _ refl a in inr (read, p, m.0, m.1)
    ]

-- ===== src/Queue/Stages.antt =====
-- The stages of a request of plugin/queue.c that is made while no older read is in flight.
use qemu_mip.Prelude.{
  ℕ, zero, suc, ◌≡◌, ◌⊎◌, inl, inr, refl, ◌∙◌, subst, arith, true, false, Option, none, some, List,
  [], ◌∷◌, Bytes, All,
}
use qemu_mip.Queue.{
  Queue, wait_done, returned, Job, Read, Buffers, Kind, vga_refresh, mem_read, no_job, timeout,
  Result, wake_done, drain_begin, drain_end, claim, store_read,
}
use qemu_mip.Queue.System.{System, Event, wake, begin_read, end_read, step, run, pick, finish_read}
use qemu_mip.Vga.{Vga}

-- Every read that ends on the schedule has the property.
abbrev pub Gives : (Read → Type 0) → Event → Type 0
Gives P (wake _) = Unit
Gives P begin_read = Unit
Gives P (end_read _ read) = P read

-- The flags that `drain_end` leaves.
flags-store_read :
    (kind : Kind) (out : Option ℕ) (len : ℕ) (bytes : Bytes) (q : Queue) (vga : Vga)
    (bufs : Buffers)
    → let q' = (store_read kind out len bytes q vga bufs).0 in
      (q'.pending ≡ q.pending) × (q'.cancelled ≡ q.cancelled)
unfolding store_read
flags-store_read vga_refresh out len bytes q vga bufs = (refl, refl)
flags-store_read mem_read (some b) len bytes q vga bufs = (refl, refl)
flags-store_read mem_read none len bytes q vga bufs = (refl, refl)
flags-store_read no_job out len bytes q vga bufs = (refl, refl)

pub flags-drain_end :
    (job : Job) (read : Read) (q : Queue) (vga : Vga) (bufs : Buffers)
    → let q' = (drain_end job read q vga bufs).0 in
      (q'.pending ≡ q.pending) × (q'.cancelled ≡ q.cancelled) × (q'.done ≡ true)
unfolding drain_end
flags-drain_end job read q vga bufs = ground (
  arith,
  flags-store_read job.kind job.out job.len read.bytes (record q { hw_code = read.code }) vga bufs,
)

drain_end_cancelled :
    (job : Job) (read : Read) (q : Queue) (vga : Vga) (bufs : Buffers)
    → q.cancelled ≡ true
    → drain_end job read q vga bufs ≡ (record q { done = true }, vga, bufs)
unfolding drain_end
drain_end_cancelled job read q vga bufs h = ground arith

pub phase-finish_read :
    (picked : Option (Job × List Job)) (read : Read) (s : System)
    → (finish_read picked read s).phase ≡ s.phase
unfolding finish_read
phase-finish_read none read s = refl
phase-finish_read (some (job, rest)) read s = refl

abbrev pub timeout_result : Result
timeout_result = record { status = timeout; hw_code = 0; data_len = 0 }

-- A request whose fields are in `q`, with the screen and the buffers as they were when it was made.
module _ (P : Read → Type 0) (q : Queue) (vga : Vga) (bufs : Buffers) where
  -- the copy of the job that a drain takes
  abbrev pub job : Job
  job = record { kind = q.kind; phys = q.phys; len = q.len; out = q.out }

  abbrev pub taken : Queue
  taken = record (claim q) { pending = false }

  -- the result that is made of the queue `q'`, with the screen and the buffers after it
  pub record Answer (read : Read) (r : Result) (vga' : Vga) (bufs' : Buffers) : Type 0 where
    pub status_of : r.status ≡ (drain_end job read taken vga bufs).0.status
    pub hw_code_of : r.hw_code ≡ (drain_end job read taken vga bufs).0.hw_code
    pub data_len_of : r.data_len ≡ (drain_end job read taken vga bufs).0.data_len
    pub vga_of : vga' ≡ (drain_end job read taken vga bufs).1
    pub bufs_of : bufs' ≡ (drain_end job read taken vga bufs).2

  pub data Stage (s : System) : Type 0 where
    queued :
        s ≡ record { q = claim q; phase = wait_done; reading = []; vga = vga; bufs = bufs }
        → Stage s
    in_flight :
        s ≡ record { q = taken; phase = wait_done; reading = job ∷ []; vga = vga; bufs = bufs }
        → Stage s
    fetched :
        (read : Read)
        → P read
        → s ≡ record {
          q = (drain_end job read taken vga bufs).0;
          phase = wait_done;
          reading = [];
          vga = (drain_end job read taken vga bufs).1;
          bufs = (drain_end job read taken vga bufs).2;
        }
        → Stage s
    answered :
        (read : Read) (r : Result)
        → P read
        → Answer read r s.vga s.bufs
        → s.phase ≡ returned r
        → s.reading ≡ []
        → s.q.pending ≡ false
        → Stage s
    gave_up : s.phase ≡ returned timeout_result → Stage s

  step-queued :
      (s : System) (e : Event)
      → s ≡ record { q = claim q; phase = wait_done; reading = []; vga = vga; bufs = bufs }
      → Stage (step s e)
  unfolding step wake_done drain_begin claim pick
  step-queued s (wake true) h = gave_up (ground arith)
  step-queued s (wake false) h = queued (ground arith)
  step-queued s begin_read h = in_flight (ground arith)
  step-queued s (end_read i read) h = queued (rw h)

  step-in_flight :
      (s : System) (e : Event)
      → Gives P e
      → s ≡ record { q = taken; phase = wait_done; reading = job ∷ []; vga = vga; bufs = bufs }
      → Stage (step s e)
  unfolding step wake_done drain_begin claim pick
  step-in_flight s (wake true) g h = gave_up (ground arith)
  step-in_flight s (wake false) g h = in_flight (ground arith)
  step-in_flight s begin_read g h = in_flight (ground arith)
  step-in_flight s (end_read zero read) g h = fetched read g (rw h)
  step-in_flight s (end_read (suc i) read) g h = in_flight (rw h)

  step-fetched :
      (s : System) (e : Event) (read : Read)
      → P read
      → s ≡ record {
        q = (drain_end job read taken vga bufs).0;
        phase = wait_done;
        reading = [];
        vga = (drain_end job read taken vga bufs).1;
        bufs = (drain_end job read taken vga bufs).2;
      }
      → Stage (step s e)
  unfolding step wake_done drain_begin claim pick
  step-fetched s (wake true) read p h = gave_up (ground arith)
  step-fetched s (wake false) read p h =
      let flags = flags-drain_end job read taken vga bufs in
      let q' = (drain_end job read taken vga bufs).0 in
      answered read (record { status = q'.status; hw_code = q'.hw_code; data_len = q'.data_len }) p
        (ground (arith, flags)) (ground (arith, flags)) (ground (arith, flags))
        (ground (arith, flags))
  step-fetched s begin_read read p h =
      fetched read p (ground (arith, flags-drain_end job read taken vga bufs))
  step-fetched s (end_read i other) read p h = fetched read p (rw h)

  step-answered :
      (s : System) (e : Event) (read : Read) (r : Result)
      → P read
      → Answer read r s.vga s.bufs
      → s.phase ≡ returned r
      → s.reading ≡ []
      → s.q.pending ≡ false
      → Stage (step s e)
  unfolding step drain_begin pick
  step-answered s (wake b) read r p a ph rd pe =
      answered read r p (ground arith) (ground arith) (ground arith) (ground arith)
  step-answered s begin_read read r p a ph rd pe =
      answered read r p (ground arith) (ground arith) (ground arith) (ground arith)
  step-answered s (end_read i other) read r p a ph rd pe =
      answered read r p (ground arith) (ground arith) (ground arith) (ground arith)

  step-gave_up : (s : System) (e : Event) → s.phase ≡ returned timeout_result → Stage (step s e)
  unfolding step
  step-gave_up s (wake b) ph = gave_up (ground arith)
  step-gave_up s begin_read ph = gave_up (ground arith)
  step-gave_up s (end_read i read) ph = gave_up (phase-finish_read (pick i s.reading) read s ∙ ph)

  step-Stage : (s : System) (e : Event) → Gives P e → Stage s → Stage (step s e)
  step-Stage s e g (queued h) = step-queued s e h
  step-Stage s e g (in_flight h) = step-in_flight s e g h
  step-Stage s e g (fetched read p h) = step-fetched s e read p h
  step-Stage s e g (answered read r p a ph rd pe) = step-answered s e read r p a ph rd pe
  step-Stage s e g (gave_up ph) = step-gave_up s e ph

  run-Stage :
      (s : System) (events : List Event) → All (Gives P) events → Stage s → Stage (run s events)
  unfolding run
  run-Stage s [] g st = st
  run-Stage s (e ∷ es) g st = run-Stage (step s e) es g.1 (step-Stage s e g.0 st)

  -- A stage in which the request has returned `r`.
  Stage-returned :
      (s : System) (r : Result)
      → Stage s
      → s.phase ≡ returned r
      → (r ≡ timeout_result) ⊎ ((read : Read) × P read × Answer read r s.vga s.bufs)
  Stage-returned s r (queued h) ph = cc
  Stage-returned s r (in_flight h) ph = cc
  Stage-returned s r (fetched read p h) ph = cc
  Stage-returned s r (answered read r' p a ph' rd pe) ph =
      let same : r' ≡ r = ground arith in
      inr (read, p, subst (λ x. Answer read x s.vga s.bufs) same a)
  Stage-returned s r (gave_up ph') ph = inl (ground arith)

  pub run-returned :
      (s : System) (events : List Event) (r : Result)
      → Stage s
      → All (Gives P) events
      → (run s events).phase ≡ returned r
      → (r ≡ timeout_result)
        ⊎ ((read : Read) × P read × Answer read r (run s events).vga (run s events).bufs)
  run-returned s events r st g ph = Stage-returned (run s events) r (run-Stage s events g st) ph

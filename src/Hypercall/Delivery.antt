-- ===== src/Hypercall/Delivery.antt =====
-- What a guest that sends a message as docs/protocol.md lays it out gets through
-- plugin/hypercall.c.
use qemu_mip.Guest.{Memory, Access}
use qemu_mip.Hypercall.{
  Hypercall, window_phys, magic, State, cmd_name, commit, note_store, take_event, snapshot,
}
use qemu_mip.Hypercall.Events.{
  Mirrors, Fits, word_in, touches, step_spec, run, run_spec, run_refines, st-note_store,
}
use qemu_mip.Prelude.{
  ℕ, ◌+◌, ◌*◌, ◌^◌, ◌<◌, ◌≡◌, refl, ◌∙◌, ap, true, false, none, some, List, [], ◌∷◌, byte_of, u64,
  arith, if◌then◌else◌, snprintf, All,
}

-- the four 32-bit stores of a message, in the order of its fields
abbrev pub message : ℕ → ℕ → ℕ → List Access
message cmd status reserved =
    record { phys = window_phys; value = magic; size = 4 }
    ∷ record { phys = window_phys + 4; value = cmd; size = 4 }
    ∷ record { phys = window_phys + 8; value = status; size = 4 }
    ∷ record { phys = window_phys + 12; value = reserved; size = 4 }
    ∷ []

bytes_of_word :
    (v : ℕ)
    → v < 2 ^ 32
    → byte_of v 0 + 2 ^ 8 * byte_of v 1 + 2 ^ 16 * byte_of v 2 + 2 ^ 24 * byte_of v 3 ≡ v
unfolding byte_of
bytes_of_word v h = omega arith

-- a store in the window while the magic is in memory
step_spec-commit :
    (st : State) (after : Memory) (a : Access) (cmd status : ℕ)
    → touches a.phys a.size ≡ true
    → word_in after window_phys ≡ magic
    → word_in after (window_phys + 4) ≡ cmd
    → word_in after (window_phys + 8) ≡ status
    → step_spec st after a ≡ commit st cmd status
unfolding step_spec
step_spec-commit st after a cmd status t m c s = ground arith

-- the state after the four stores, told from the memory before them
run_spec-message :
    (st : State) (mem : Memory) (cmd status reserved : ℕ)
    → cmd < 2 ^ 32
    → status < 2 ^ 32
    → run_spec st mem (message cmd status reserved)
      ≡ commit
          (commit
            (commit
              (commit st (word_in mem (window_phys + 4)) (word_in mem (window_phys + 8)))
              cmd
              (word_in mem (window_phys + 8)))
            cmd
            status)
          cmd
          status
unfolding run_spec touches word_in byte_of
run_spec-message st mem cmd status reserved hc hs =
    let word_cmd = bytes_of_word cmd hc in
    let word_status = bytes_of_word status hs in
    step_spec-commit _ _ _ cmd status refl refl word_cmd word_status
    ∙ ap (λ st'. commit st' cmd status)
        (step_spec-commit _ _ _ cmd status refl refl word_cmd word_status)
    ∙ ap (λ st'. commit (commit st' cmd status) cmd status)
        (step_spec-commit _ _ _ cmd (word_in mem (window_phys + 8)) refl refl word_cmd refl)
    ∙ ap
        (λ st'.
          commit (commit (commit st' cmd (word_in mem (window_phys + 8))) cmd status) cmd status)
        (step_spec-commit st _ _ (word_in mem (window_phys + 4)) (word_in mem (window_phys + 8))
          refl refl refl refl)

message-Fits : (cmd status reserved : ℕ) → All Fits (message cmd status reserved)
message-Fits cmd status reserved = omega arith

-- the name fits its 32 bytes
name-commit : (cmd : ℕ) → snprintf 32 (cmd_name cmd) ≡ cmd_name cmd
unfolding snprintf cmd_name
name-commit cmd = ground arith

-- A guest that stores the four words of a message in order has it delivered, whatever the window
-- and the state held: the next `take_event` gives its command, status and name, and the one after
-- it gives nothing. The count goes up by four, not by one, since each of the four stores finds the
-- magic in the window.
pub message_delivered :
    (s : Hypercall) (mem : Memory) (cmd status reserved : ℕ)
    → Mirrors s mem
    → cmd < 2 ^ 32
    → status < 2 ^ 32
    → let t = run s (message cmd status reserved) in
      (take_event t).0
        ≡ some (record {
          count = u64 (s.st.count + 4);
          last_cmd = cmd;
          last_status = status;
          have_event = true;
          last_name = cmd_name cmd;
        })
      × ((take_event (take_event t).1).0 ≡ none)
unfolding take_event commit
message_delivered s mem cmd status reserved m hc hs =
    let state =
      (run_refines s mem (message cmd status reserved) m (message-Fits cmd status reserved)).1
      ∙ run_spec-message s.st mem cmd status reserved hc hs in
    ground (arith, state, name-commit cmd)

-- The first store of a message, that of the magic, is already an event: it has the command and
-- status that the guest's memory held before the message, and a `take_event` before the later
-- stores gives these.
pub magic_store_commits :
    (s : Hypercall) (mem : Memory)
    → Mirrors s mem
    → let t = note_store s window_phys magic 4 in
      t.st ≡ commit s.st (word_in mem (window_phys + 4)) (word_in mem (window_phys + 8))
unfolding touches word_in byte_of
magic_store_commits s mem m =
    st-note_store s mem (record { phys = window_phys; value = magic; size = 4 }) m (omega arith)
    ∙ step_spec-commit s.st _ _ _ _ refl refl refl refl

-- An event is taken once: `take_event` gives the state that `snapshot` shows if an event is
-- pending, and nothing if none is; after it none is pending, and a second call gives nothing and
-- changes nothing. The counter and the last command, status and name stay for `status`.
pub take_event_once :
    (s : Hypercall)
    → let (taken, t) = take_event s in
      (taken ≡ (if s.st.have_event then some (snapshot s) else none))
      × (take_event t ≡ (none, t))
      × (snapshot t ≡ record (snapshot s) { have_event = false })
unfolding take_event snapshot
take_event_once s = ground arith

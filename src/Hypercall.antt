-- ===== src/Hypercall.antt =====
-- plugin/hypercall.c and plugin/hypercall.h: guest stores to a 16-byte window become events. Each
-- operation is the body that runs between the lock and the unlock of `g_lock`; `g_window` and
-- `g_st` are one record.
pub mod Window
pub mod Events
pub mod Delivery
mod Examples
use qemu_mip.Prelude.{
  ℕ, zero, suc, ◌+◌, ◌-◌, ◌*◌, ◌^◌, [], Bool, true, false, ◌||◌, not, Option, none, some, Bytes,
  codes, byte_of, u64, snprintf, ltb, leb, ◌==◌, if◌then◌else◌, get_or, set, replicate,
}

-- QEMU_CONNECT_HYPERCALL_PHYS
abbrev pub window_phys : ℕ
window_phys = 0xFEE1DEAD

-- QEMU_CONNECT_HYPERCALL_SIZE
abbrev pub window_size : ℕ
window_size = 16

abbrev pub magic : ℕ
magic = 0x544E4351

-- `qc_hypercall_state_t`
pub record State : Type 0 where
  pub count : ℕ  -- uint64_t
  pub last_cmd : ℕ  -- uint32_t
  pub last_status : ℕ  -- uint32_t
  pub have_event : Bool
  pub last_name : Bytes

-- `g_window` and `g_st`
pub record Hypercall : Type 0 where
  pub window : Bytes
  pub st : State

unfoldable pub init : Hypercall
init = record {
  window = replicate window_size 0;
  st = record { count = 0; last_cmd = 0; last_status = 0; have_event = false; last_name = [] };
}

unfoldable pub cmd_name : ℕ → Bytes
cmd_name cmd =
    if cmd == 1
    then codes "READY"
    else if cmd == 2
    then codes "EXIT"
    else if cmd == 3
    then codes "LOG"
    else codes "UNKNOWN"

-- the uint32_t at offset `off` of a little-endian message
unfoldable pub word_at : Bytes → ℕ → ℕ
word_at w off =
    get_or w off 0
    + 2 ^ 8 * get_or w (off + 1) 0
    + 2 ^ 16 * get_or w (off + 2) 0
    + 2 ^ 24 * get_or w (off + 3) 0

-- what `try_commit` makes of `g_st` for a message with this command and status
unfoldable pub commit : State → ℕ → ℕ → State
commit st cmd status = record {
  count = u64 (st.count + 1);
  last_cmd = cmd;
  last_status = status;
  have_event = true;
  last_name = snprintf 32 (cmd_name cmd);
}

unfoldable pub try_commit : Hypercall → Hypercall
unfolding word_at
try_commit s =
    if not (word_at s.window 0 == magic)
    then s
    else record s { st = commit s.st (word_at s.window 4) (word_at s.window 8) }

-- one round of the loop of `qc_hypercall_note_store`
pub put_byte : ℕ → ℕ → Bytes → Bytes
put_byte a c window =
    if ltb a window_phys || leb (window_phys + window_size) a
    then window
    else set window (a - window_phys) c

-- the loop: `n` rounds are left, and the next is round `i`
pub store_bytes : ℕ → ℕ → ℕ → ℕ → Bytes → Bytes
store_bytes zero i phys value window = window
store_bytes (suc n) i phys value window =
    store_bytes n (i + 1) phys value (put_byte (u64 (phys + i)) (byte_of value i) window)

unfoldable pub note_store : Hypercall → ℕ → ℕ → ℕ → Hypercall
unfolding store_bytes put_byte
note_store s phys value size =
    if leb (u64 (phys + size)) window_phys || leb (window_phys + window_size) phys
    then s
    else if size == 0 || ltb 8 size
    then s
    else try_commit (record s { window = store_bytes size 0 phys value s.window })

unfoldable pub snapshot : Hypercall → State
snapshot s = s.st

-- The state that goes through `out`, if there is an event to take; it is cleared.
unfoldable pub take_event : Hypercall → Option State × Hypercall
take_event s =
    if s.st.have_event
    then (some s.st, record s { st = record (s.st) { have_event = false } })
    else (none, s)

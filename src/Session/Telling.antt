-- ===== src/Session/Telling.antt =====
-- What `session_start` of cli/session.c prints.
use qemu_mip.Prelude.{
  ℕ, ◌≡◌, ◌⊎◌, refl, Bool, true, false, ◌&&◌, not, Option, none, some, List, [], ◌∷◌, ◌++◌, Bytes,
  codes, snprintf, length, ltb, ◌-◌, ◌^◌, ◌==◌, Bool-cases, inl, inr,
}
use qemu_mip.Protocol.Framing.{is_line}
use qemu_mip.Session.{Session, load_session, session_path, format_int}
use qemu_mip.Session.Command.{Effect, print, Run, fail, wait_expect}
use qemu_mip.Session.Orderly.{
  tells, tells-result_line, tells-result_head, is_line-escaped, is_line-format,
}
use qemu_mip.Session.Start.{
  Start, Host, Read, help, unknown_flag, read, start_args, disk_holder, replace_old, new_session,
  is_alive, end_old, stays_up,
}
use qemu_mip.Session.Launch.{
  start_console, start_line, start_saved, start_up, exits_early, start_spawned, start_forked,
  start_files, held_message, start_unless_held, start_read, session_start,
}

-- the lines that are printed, in order
abbrev pub printed : List Effect → List Bytes
printed [] = []
printed (print line ∷ rest) = line ∷ printed rest
printed (_ ∷ rest) = printed rest

-- exactly one line, which tells the exit code
abbrev pub tells_alone : ℕ → List Bytes → Bool
tells_alone code [] = false
tells_alone code (line ∷ []) = tells code (some line)
tells_alone code (line ∷ more ∷ rest) = false

abbrev pub tells_once : Run → Bool
tells_once (effects, code) = tells_alone code (printed effects)

fail_tells :
    (code : ℕ) (id op : Bytes) (console : Option Bytes) (error : Bytes) (ms : Option ℕ)
    → tells_once (fail code id op console error ms) ≡ true
fail_tells code id op console error ms = tells-result_line code id op console error ms

abbrev pub IsDecimal : Bytes → Type 0
IsDecimal s = (t : Bytes) → is_line (s ++ t) ≡ is_line t

pub format_int-IsDecimal : (v : ℕ) → IsDecimal (format_int v)
unfolding format_int is_line
format_int-IsDecimal v t = elim (Bool-cases (ltb v (2 ^ 31))) [
  | inl e ↦ rw e (is_line-format v t)
  | inr e ↦ rw e (is_line-format (2 ^ 32 - v) t)
]

tells-start_line : (y : Host) (a : Start) (s : Session) → tells 0 (some (start_line y a s)) ≡ true
unfolding start_line is_line
tells-start_line y a s =
    tells-result_head 0 _ (simp (is_line-escaped, is_line-format, format_int-IsDecimal))

start_saved_tells : (y : Host) (a : Start) (s : Session) → tells_once (start_saved y a s) ≡ true
unfolding start_saved
start_saved_tells y a s = elim (Bool-cases y.saves) [
  | inl e ↦ simp e (tells-start_line y a s)
  | inr e ↦
      simp e
        (fail_tells 1 a.id (codes "start") none (codes "failed to write session file") (some y.ms))
]

start_up_tells : (y : Host) (a : Start) (s : Session) → tells_once (start_up y a s) ≡ true
unfolding start_up
start_up_tells y a s = elim (Bool-cases a.wait_prompt) [
  | inr e ↦ simp e (start_saved_tells y a s)
  | inl e ↦ elim (Bool-cases (wait_expect a.prompt y.polls)) [
    | inl f ↦ simp (e, f) (start_saved_tells y a (record s { last_expect = snprintf 128 a.prompt }))
    | inr f ↦
        simp (e, f)
          (fail_tells 1 a.id (codes "start") (some (start_console y a 4096))
            (codes "timeout waiting for shell prompt") (some y.ms))
  ]
]

start_spawned_tells : (y : Host) (a : Start) (s : Session) → tells_once (start_spawned y a s) ≡ true
unfolding start_spawned
start_spawned_tells y a s = elim (Bool-cases (exits_early y s.pid 100 0)) [
  | inl e ↦ simp e (fail_tells 1 a.id (codes "start") none (codes "QEMU exited early") (some y.ms))
  | inr e ↦ elim (Bool-cases y.socket_at_last) [
    | inl f ↦ simp (e, f) (start_up_tells y a s)
    | inr f ↦
        simp (e, f)
          (fail_tells 4 a.id (codes "start") none (codes "plugin socket missing") (some y.ms))
  ]
]

start_forked_tells :
    (y : Host) (a : Start) (pid : Option ℕ) → tells_once (start_forked y a pid) ≡ true
start_forked_tells y a none = fail_tells 1 a.id (codes "start") none (codes "fork failed") none
start_forked_tells y a (some pid) = start_spawned_tells y a (new_session y a pid)

start_files_tells : (y : Host) (a : Start) → tells_once (start_files y a) ≡ true
unfolding start_files
start_files_tells y a = elim (Bool-cases (y.is_there a.iso)) [
  | inr e ↦ simp e (fail_tells 1 a.id (codes "start") none (codes "iso not found") none)
  | inl e ↦ elim (Bool-cases (not (length a.disk == 0) && not (y.is_there a.disk))) [
    | inl f ↦ simp (e, f) (fail_tells 1 a.id (codes "start") none (codes "disk not found") none)
    | inr f ↦ elim (Bool-cases (y.is_there a.plugin)) [
      | inr g ↦
          simp (e, f, g)
            (fail_tells 1 a.id (codes "start") none (codes "plugin not found (make plugin)") none)
      | inl g ↦ simp (e, f, g) (start_forked_tells y a y.forked)
    ]
  ]
]

printed-replace_old :
    (y : Host) (a : Start) (old : Option Session) (t : List Effect)
    → printed (replace_old y a old ++ t) ≡ printed t
unfolding replace_old end_old
printed-replace_old y a none t = refl
printed-replace_old y a (some old) t = elim (Bool-cases (is_alive y 0 old.pid)) [
  | inr e ↦ simp e refl
  | inl e ↦ elim (Bool-cases y.connects) [
    | inl f ↦ elim (Bool-cases (stays_up y old.pid 30 0)) [
      | inl g ↦ simp (e, f, g) refl
      | inr g ↦ simp (e, f, g) refl
    ]
    | inr f ↦ elim (Bool-cases (stays_up y old.pid 30 0)) [
      | inl g ↦ simp (e, f, g) refl
      | inr g ↦ simp (e, f, g) refl
    ]
  ]
]

start_unless_held_tells :
    (y : Host) (a : Start) (o : Option Session) → tells_once (start_unless_held y a o) ≡ true
unfolding start_unless_held
start_unless_held_tells y a (some other) =
    fail_tells 1 a.id (codes "start") none (held_message other) none
start_unless_held_tells y a none =
    rw
      (printed-replace_old y a
        (load_session y.environ a.id (y.file (session_path y.environ a.id 320)))
        (start_files y a).0)
      (start_files_tells y a)

-- Whatever the arguments and whatever the system answers, errors included, `start` prints exactly one line on
-- the standard output, without control characters, which begins with its exit code and with whether it is
-- 0; with `--help` it prints none.
pub session_start_tells :
    (y : Host) (defaults : Start) (argv : List Bytes)
    → (session_start y defaults argv ≡ ([], 2))
      ⊎ (tells_once (session_start y defaults argv) ≡ true)
unfolding session_start start_read
session_start_tells y defaults argv = started (start_args argv defaults)
  where
    started : (r : Read) → (start_read y r ≡ ([], 2)) ⊎ (tells_once (start_read y r) ≡ true)
    started help = inl refl
    started (unknown_flag a) =
        inr (fail_tells 2 a.id (codes "start") none (codes "unknown flag") none)
    started (read a) = inr (start_unless_held_tells y a (disk_holder y a))

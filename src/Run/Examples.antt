-- ===== src/Run/Examples.antt =====
-- A run in which a step finds the emulator ended, at which the theorems on cli/run.c are applied.
use qemu_mip.Prelude.{
  ℕ, refl, some, Bytes, arith, str_eq, snprintf, ◌≡◌, true, false, none, List, [], ◌∷◌, codes,
  length, ◌==◌,
}
use qemu_mip.Protocol.Framing.{is_line}
use qemu_mip.Run.{Step, step_type}
use qemu_mip.Run.Disk.{Machine, held_line, is_session_name, real_or_copy}
use qemu_mip.Run.Holder.{IsClear, run_session-session_text}
use qemu_mip.Session.{Session, session_text}
use qemu_mip.Session.File.{IsSaved}
use qemu_mip.Run.Process.{System, print, run_session}
use qemu_mip.Run.Flags.{is_prefix, all_true, run_steps_lem, Tells}
use qemu_mip.Run.Steps.{Turn, run_steps, run_line, plain_args, is_line-run_line}

abbrev ls : Step
ls = record { kind = step_type; arg = codes "ls" }

abbrev crashed : List Turn
crashed =
    record { step = ls; crashed = false; polls = []; types = true }
    ∷ record { step = ls; crashed = true; polls = []; types = true }
    ∷ []

abbrev empty : Machine
empty = record { realpath = λ path. none; has_process = λ pid. false; entries = [] }

abbrev system : System
system = record {
  has_iso = true;
  has_disk = true;
  has_plugin = true;
  environ = [];
  self = 99;
  disk = none;
  sessions = empty;
  sessions_after = empty;
  log = none;
  forks = true;
  has_socket = λ i. true;
  exited = λ i. false;
  connects = λ i. true;
  pong = none;
  turns = crashed;
  console = none;
  console_lines = 0;
  ms = 12;
}

run_steps_lem_example :
    let (flags, code) = run_steps crashed in
    ((length flags ≡ length crashed) × (is_prefix flags ≡ true) × (all_true flags ≡ (code == 0)))
    × Tells crashed flags code
run_steps_lem_example = run_steps_lem crashed

is_line-run_line_example :
    is_line (run_line 0 12 ((ls, true) ∷ []) []) ≡ plain_args ((ls, true) ∷ [])
is_line-run_line_example = is_line-run_line 0 12 ((ls, true) ∷ []) []

abbrev session : Session
session = record {
  id = codes "default";
  pid = 4711;
  plugin_sock = codes "/tmp/d.sock";
  qmp_sock = codes "/tmp/d.qmp";
  logpath = codes "/tmp/d.log";
  iso = codes "k.iso";
  disk = codes "d.img";
  prompt = [];
  last_expect = [];
}

session-IsSaved : IsSaved session
session-IsSaved = record {
  id_plain = ground arith;
  plugin_plain = ground arith;
  qmp_plain = ground arith;
  log_plain = ground arith;
  iso_plain = ground arith;
  disk_plain = ground arith;
  prompt_plain = tt;
  expect_plain = tt;
  id_fits = omega arith;
  plugin_fits = omega arith;
  qmp_fits = omega arith;
  log_fits = omega arith;
  iso_fits = omega arith;
  disk_fits = omega arith;
  prompt_fits = omega arith;
  expect_fits = omega arith;
  pid_fits = omega arith;
}

session-IsClear : IsClear session
session-IsClear = record {
  id_not_disk = unfold str_eq in refl;
  id_not_pid = unfold str_eq in refl;
  plugin_not_disk = unfold str_eq in refl;
  qmp_not_disk = unfold str_eq in refl;
  log_not_disk = unfold str_eq in refl;
  iso_not_disk = unfold str_eq in refl;
}

-- behind a file that is no session's
abbrev sessions : Machine
sessions = record {
  realpath = λ path. none;
  has_process = λ pid. pid == 4711;
  entries = (codes "notes", none) ∷ (codes "default.json", some (session_text session)) ∷ [];
}

abbrev held : System
held = record system { sessions = sessions; disk = some (codes "d.img") }

run_session-session_text_example :
    (holder : Bytes × ℕ) × (run_session held (λ i. false)
      ≡ (print (held_line holder.0 holder.1 (codes "d.img") none) ∷ [], 3))
unfolding is_session_name real_or_copy snprintf str_eq
run_session-session_text_example =
    run_session-session_text session held (λ i. false) (codes "d.img") (codes "default.json")
      ((codes "notes", none) ∷ []) [] session-IsSaved session-IsClear refl refl refl refl refl refl
      refl refl refl refl refl

-- ===== src/Run/Room.antt =====
-- What the arrays of `qc_cmd_run` and `qc_cmd_guest` in cli/run.c hold.
use qemu_mip.Paths.{Environ}
use qemu_mip.Prelude.{
  Bool-cases, ◌≤◌, Option, none, some, List, [], ◌∷◌, Bytes, codes, arith, length, length-append,
  inl, inr, starts_with,
}
use qemu_mip.Run.{
  Args, Command, exits, runs, add_step, run_option, run_word, guest_option, guest_steps,
  guest_flags, qc_cmd_run, qc_cmd_guest, max_steps, run_parsed, with_iso, StepKind, step_expect,
  step_type, with_flag,
}
use qemu_mip.Session.Bounds.{AllSome, parse_keeps, reached}
use qemu_mip.Session.Command.{Parsed, unknown, parsed}

-- What is handed to `run_session` has no more steps than the array has room for.
abbrev pub HasRoom : Command → Type 0
HasRoom (exits code) = Unit
HasRoom (runs a) = length a.steps ≤ max_steps

abbrev Room : Args → Type 0
Room a = length a.steps ≤ max_steps

add_step-Room : (kind : StepKind) (arg : Bytes) (a : Args) → Room a → Room (add_step kind arg a)
unfolding add_step
add_step-Room kind arg a h =
    ground (arith, length-append a.steps (record { kind = kind; arg = arg } ∷ []))

run_option_keeps : (arg val : Bytes) (a : Args) → Room a → AllSome Room (run_option arg val a)
unfolding run_option
run_option_keeps arg val a h =
    ground (arith, add_step-Room step_expect val a h, add_step-Room step_type val a h)

run_word_keeps : (arg : Bytes) (a : Args) → Room a → AllSome Room (run_word arg a)
unfolding run_word
run_word_keeps arg a h = ground arith

with_iso-HasRoom : (a : Args) (iso : Option Bytes) → Room a → HasRoom (with_iso a iso)
unfolding with_iso
with_iso-HasRoom a none h = tt
with_iso-HasRoom a (some iso) h = h

run_parsed-HasRoom : (p : Parsed Args) → Room (reached p) → HasRoom (run_parsed p)
run_parsed-HasRoom (unknown a) h = tt
run_parsed-HasRoom (parsed a) h = with_iso-HasRoom a a.iso h

guest_steps-Room :
    (prompt : Bytes) (words : List Bytes) → length (guest_steps prompt words) ≤ max_steps
unfolding guest_steps
guest_steps-Room prompt [] = omega arith
guest_steps-Room prompt (word ∷ rest) = omega arith

with_flag-HasRoom :
    (o : Option Args) (more : Args → Command)
    → ((a : Args) → HasRoom (more a))
    → HasRoom (with_flag o more)
with_flag-HasRoom none more h = tt
with_flag-HasRoom (some a) more h = h a

guest_flags-HasRoom : (argv : List Bytes) (a : Args) → HasRoom (guest_flags argv a)
unfolding guest_flags
guest_flags-HasRoom [] a = guest_steps-Room a.prompt []
guest_flags-HasRoom (arg ∷ []) a = elim (Bool-cases (starts_with arg (codes "-"))) [
  | inl e ↦ simp e tt
  | inr e ↦ simp e (guest_steps-Room a.prompt (arg ∷ []))
]
guest_flags-HasRoom (arg ∷ val ∷ rest) a = elim (Bool-cases (starts_with arg (codes "-"))) [
  | inl e ↦
      simp e
        (with_flag-HasRoom (guest_option arg val a) (guest_flags rest) (guest_flags-HasRoom rest))
  | inr e ↦ simp e (guest_steps-Room a.prompt (arg ∷ val ∷ rest))
]

-- Whatever the arguments, what `run` and `guest` hand to `run_session` has no more than the 64 steps that their
-- arrays have room for.
pub run_and_guest-HasRoom :
    (plugin : Bytes) (env : Environ) (iso disk : Bytes) (argv : List Bytes)
    → HasRoom (qc_cmd_run plugin argv) × HasRoom (qc_cmd_guest env iso disk plugin argv)
unfolding qc_cmd_run qc_cmd_guest
run_and_guest-HasRoom plugin env iso disk argv = (
  run_parsed-HasRoom _
      (parse_keeps run_option run_word Room run_option_keeps run_word_keeps argv _ (omega arith)),
  guest_flags-HasRoom argv _,
)

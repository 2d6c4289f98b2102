-- ===== src/Run.antt =====
-- cli/run.c: a script of steps on an emulator that is started and ended for it.
pub mod Disk
pub mod Steps
pub mod Flags
pub mod Process
pub mod Balance
pub mod Room
pub mod Search
pub mod Holder
mod Examples
use qemu_mip.Agent.{atoi}
use qemu_mip.Prelude.{
  ℕ, zero, suc, ◌+◌, Bool, true, false, ◌&&◌, ◌||◌, not, Option, none, some, List, [], ◌∷◌, ◌++◌,
  Bytes, codes, str_eq, starts_with, has, ltb, ◌==◌, if◌then◌else◌, length,
}
use qemu_mip.Paths.{Environ}
use qemu_mip.Protocol.Print.{format, format_bool}
use qemu_mip.Session.{default_shell_prompt}
use qemu_mip.Session.Command.{Parsed, unknown, parsed, parse, quoted, wait_expect}
use qemu_mip.Session.Shell.{add_word}

-- `step_kind_t` and what a step has before it is run
pub data StepKind : Type 0 where
  step_expect : StepKind
  step_type : StepKind

pub record Step : Type 0 where
  pub kind : StepKind
  pub arg : Bytes

-- MAX_STEPS
abbrev pub max_steps : ℕ
max_steps = 64

-- The variables of `qc_cmd_run` and `qc_cmd_guest`; `timeout_ms` counts only in the rounds of `wait_expect`.
pub record Args : Type 0 where
  pub iso : Option Bytes
  pub disk : Option Bytes
  pub plugin : Bytes
  pub mem : Bytes
  pub qemu_bin : Bytes
  pub prompt : Bytes
  pub console_lines : ℕ
  pub show : Bool
  pub steps : List Step

-- a step behind the others, as long as the array has room
unfoldable pub add_step : StepKind → Bytes → Args → Args
add_step kind arg a =
    if ltb (length a.steps) max_steps
    then record a { steps = a.steps ++ record { kind = kind; arg = arg } ∷ [] }
    else a

unfoldable pub run_option : Bytes → Bytes → Args → Option Args
unfolding str_eq
run_option arg val a =
    if str_eq arg (codes "--iso")
    then some (record a { iso = some val })
    else if str_eq arg (codes "--disk")
    then some (record a { disk = some val })
    else if str_eq arg (codes "--plugin")
    then some (record a { plugin = val })
    else if str_eq arg (codes "--mem")
    then some (record a { mem = val })
    else if str_eq arg (codes "--qemu")
    then some (record a { qemu_bin = val })
    else if str_eq arg (codes "--timeout")
    then some a
    else if str_eq arg (codes "--expect")
    then some (add_step step_expect val a)
    else if str_eq arg (codes "--type")
    then some (add_step step_type val a)
    else if str_eq arg (codes "--console-lines")
    then some (record a { console_lines = atoi val })
    else none

-- `none` is the way to `usage_run`, for `--help` and for what is unknown
unfoldable pub run_word : Bytes → Args → Option Args
unfolding str_eq
run_word arg a =
    if str_eq arg (codes "--show") || str_eq arg (codes "--console")
    then some (record a { show = true })
    else if str_eq arg (codes "--keep-qmp")
    then some a
    else none

-- What `qc_cmd_run` and `qc_cmd_guest` call `run_session` with, or the exit code without that.
pub data Command : Type 0 where
  exits : ℕ → Command
  runs : Args → Command

unfoldable pub with_iso : Args → Option Bytes → Command
with_iso a none = exits 2
with_iso a (some iso) = runs a

abbrev pub run_parsed : Parsed Args → Command
run_parsed (unknown a) = exits 2
run_parsed (parsed a) = with_iso a a.iso

unfoldable pub qc_cmd_run : Bytes → List Bytes → Command
qc_cmd_run plugin argv = run_parsed (
    parse run_option run_word argv (record {
      iso = none;
      disk = none;
      plugin = plugin;
      mem = codes "512M";
      qemu_bin = codes "qemu-system-x86_64";
      prompt = [];
      console_lines = 0;
      show = false;
      steps = [];
    }))

unfoldable pub guest_option : Bytes → Bytes → Args → Option Args
unfolding str_eq
guest_option arg val a =
    if str_eq arg (codes "--iso")
    then some (record a { iso = some val })
    else if str_eq arg (codes "--disk")
    then some (record a { disk = some val })
    else if str_eq arg (codes "--plugin")
    then some (record a { plugin = val })
    else if str_eq arg (codes "--prompt")
    then some (record a { prompt = val })
    else if str_eq arg (codes "--console-lines")
    then some (record a { console_lines = atoi val })
    else if str_eq arg (codes "--timeout")
    then some a
    else none

-- the words joined into one shell line
abbrev pub join_words : Bytes → List Bytes → Bytes
join_words line [] = line
join_words line (word ∷ rest) = join_words (add_word line word) rest

unfoldable pub guest_steps : Bytes → List Bytes → List Step
unfolding add_word
guest_steps prompt [] = record { kind = step_expect; arg = prompt } ∷ []
guest_steps prompt (word ∷ rest) =
    record { kind = step_expect; arg = prompt }
    ∷ record { kind = step_type; arg = join_words [] (word ∷ rest) }
    ∷ record { kind = step_expect; arg = prompt }
    ∷ []

abbrev pub guest_words : Args → List Bytes → Command
guest_words a words = runs (record a { steps = guest_steps a.prompt words })

abbrev pub with_flag : Option Args → (Args → Command) → Command
with_flag none more = exits 2
with_flag (some a) more = more a

-- the flags before the words; a flag without its value, `--help` and an unknown flag end the command
unfoldable pub guest_flags : List Bytes → Args → Command
unfolding starts_with
guest_flags [] a = guest_words a []
guest_flags (arg ∷ []) a = if starts_with arg (codes "-") then exits 2 else guest_words a (arg ∷ [])
guest_flags (arg ∷ val ∷ rest) a =
    if starts_with arg (codes "-")
    then with_flag (guest_option arg val a) (guest_flags rest)
    else guest_words a (arg ∷ val ∷ rest)

unfoldable pub qc_cmd_guest : Environ → Bytes → Bytes → Bytes → List Bytes → Command
qc_cmd_guest env iso disk plugin argv = guest_flags argv (record {
  iso = some iso;
  disk = some disk;
  plugin = plugin;
  mem = codes "512M";
  qemu_bin = codes "qemu-system-x86_64";
  prompt = default_shell_prompt env;
  console_lines = 0;
  show = true;
  steps = [];
})

-- a line of the emulator's log, and the log
unfoldable pub is_lock_line : Bytes → Bool
unfolding has
is_lock_line line =
    (has line (codes "write") && has line (codes "lock"))
    || (has line (codes "Failed to get") && has line (codes "lock"))

unfoldable pub log_mentions_disk_lock : Option (List Bytes) → Bool
log_mentions_disk_lock none = false
log_mentions_disk_lock (some []) = false
log_mentions_disk_lock (some (line ∷ rest)) =
    is_lock_line line || log_mentions_disk_lock (some rest)

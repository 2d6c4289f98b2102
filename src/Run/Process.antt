-- ===== src/Run/Process.antt =====
-- `run_session` of cli/run.c: the life of the emulator.
use qemu_mip.Cli.Copies.{extract_text}
use qemu_mip.Cli.Tail.{console_tail_nonblank}
use qemu_mip.Prelude.{
  ℕ, zero, suc, ◌+◌, Bool, true, false, ◌&&◌, ◌||◌, not, Option, none, some, List, [], ◌∷◌, ◌++◌,
  Bytes, codes, has, snprintf, ◌==◌, if◌then◌else◌,
}
use qemu_mip.Run.Steps.{Turn, run_steps, run_line}
use qemu_mip.Run.{Step, log_mentions_disk_lock}
use qemu_mip.Run.Disk.{Machine, disk_held_by_session, held_line, exited_line}
use qemu_mip.Paths.{Environ}
use qemu_mip.Session.{runtime_dir, format_int}

-- What `run_session` does to the emulator and to what it leaves behind; a wait is one that has ended.
pub data Act : Type 0 where
  spawn : Act
  reap : Act
  kill : ℕ → Act
  qmp_connect : Act
  qmp_quit : Act
  qmp_close : Act
  unlink_sockets : Act
  print : Bytes → Act

-- What the system answers: whether the three files are there; the disk that is given; the sessions before the
-- emulator is started and after it has ended early, and its log; whether the fork succeeds; in the i-th round, whether the plugin's socket is there, whether the emulator has ended
-- before, whether the QMP socket is connected to, and whether the emulator has ended at last; the answer to
-- a ping; the steps and what they meet; the last console; and the milliseconds that are told.
pub record System : Type 0 where
  pub has_iso : Bool
  pub has_disk : Bool
  pub has_plugin : Bool
  pub environ : Environ
  pub self : ℕ
  pub disk : Option Bytes
  pub sessions : Machine
  pub sessions_after : Machine
  pub log : Option (List Bytes)
  pub forks : Bool
  pub has_socket : ℕ → Bool
  pub exited : ℕ → Bool
  pub connects : ℕ → Bool
  pub pong : Option Bytes
  pub turns : List Turn
  pub console : Option Bytes
  pub console_lines : ℕ
  pub ms : ℕ

pub data Launch : Type 0 where
  up : Launch
  ended : Launch
  no_socket : Launch

-- The wait for the plugin's socket, with so many rounds left; behind the last, the socket is not looked for.
unfoldable pub launch : System → ℕ → ℕ → Launch
launch y zero i = no_socket
launch y (suc left) i =
    let later = launch y left (i + 1) in
    if y.has_socket i then up else if y.exited i then ended else later

-- the rounds in which QMP is connected to
unfoldable pub qmp_is_up : System → ℕ → ℕ → Bool
qmp_is_up y zero i = false
qmp_is_up y (suc left) i = y.connects i || qmp_is_up y left (i + 1)

-- what the run gives without steps
abbrev pub ping_code : Option Bytes → ℕ
ping_code none = 4
ping_code (some buf) = if has buf (codes "\"ok\":true") then 0 else 4

unfoldable pub step_result : System → List Turn → List Bool × ℕ
step_result y [] = ([], ping_code y.pong)
step_result y (t ∷ rest) = run_steps (t ∷ rest)

abbrev pub told : List Turn → List Bool → List (Step × Bool)
told [] flags = []
told (t ∷ rest) [] = []
told (t ∷ rest) (b ∷ flags) = (t.step, b) ∷ told rest flags

abbrev pub text_or_empty : Option Bytes → Bytes
text_or_empty none = []
text_or_empty (some text) = text

-- `logpath`
unfoldable pub log_path : System → Bytes
log_path y =
    snprintf 256
      (runtime_dir y.environ ++ (codes "/qemu-connect-run-" ++ (format_int y.self ++ codes ".log")))

-- the session that holds the disk before the emulator is started
unfoldable pub holder_before : System → Option (Bytes × ℕ)
holder_before y = disk_held_by_session y.sessions (text_or_empty y.disk)

-- `fetch_console`
unfoldable pub fetch_console : Option Bytes → Bytes
fetch_console none = []
fetch_console (some json) = text_or_empty (extract_text json 2033)

-- The rounds at the end of the run: `waitpid` tells of an emulator only once, so none of them ends early where
-- a step has found that it had ended.
unfoldable pub last_wait : Bool → (ℕ → Bool) → ℕ → ℕ → List Act
last_wait running gone zero i = []
last_wait running gone (suc left) i =
    let later = last_wait running gone left (i + 1) in
    if running && gone i
    then reap ∷ []
    else if i == 40
    then kill 15 ∷ later
    else if i == 45
    then kill 9 ∷ later
    else later

-- what is left to do when the steps are over
abbrev pub ending : System → (ℕ → Bool) → Bool → List Act → List Act
ending y gone running rest =
    qmp_quit ∷ qmp_close ∷ (last_wait running gone 50 0 ++ (reap ∷ unlink_sockets ∷ rest))

-- a step that finds the emulator ended has waited for it
abbrev pub steps_then_end : System → (ℕ → Bool) → Bool → List Act → List Act
steps_then_end y gone crashed rest =
    if crashed then reap ∷ ending y gone false rest else ending y gone true rest

unfoldable pub run_up : System → (ℕ → Bool) → List Act × ℕ
run_up y gone =
    let result = step_result y y.turns in
    let console = console_tail_nonblank (fetch_console y.console) 2033 y.console_lines in
    (
      qmp_connect
          ∷ steps_then_end y gone (result.1 == 3)
              (print (run_line result.1 y.ms (told y.turns result.0) console) ∷ []),
      result.1,
    )

unfoldable pub run_launched : System → (ℕ → Bool) → Launch → List Act × ℕ
run_launched y gone ended = (
  reap
      ∷ print (
          exited_line y.sessions_after (text_or_empty y.disk) (log_path y)
            (log_mentions_disk_lock y.log))
      ∷ [],
  3,
)
run_launched y gone no_socket = (kill 9 ∷ reap ∷ [], 4)
run_launched y gone up =
    if qmp_is_up y 50 0 then run_up y gone else (kill 9 ∷ reap ∷ unlink_sockets ∷ [], 4)

abbrev pub after_spawn : List Act × ℕ → List Act × ℕ
after_spawn (acts, code) = (unlink_sockets ∷ spawn ∷ acts, code)

unfoldable pub run_unless_held : System → (ℕ → Bool) → Option (Bytes × ℕ) → List Act × ℕ
run_unless_held y gone (some (holder, pid)) =
    (print (held_line holder pid (text_or_empty y.disk) none) ∷ [], 3)
run_unless_held y gone none =
    if not y.forks
    then (unlink_sockets ∷ [], 3)
    else after_spawn (run_launched y gone (launch y 100 0))

unfoldable pub run_session : System → (ℕ → Bool) → List Act × ℕ
run_session y gone =
    if not y.has_iso
    then ([], 2)
    else if not y.has_disk
    then ([], 2)
    else if not y.has_plugin
    then ([], 4)
    else run_unless_held y gone (holder_before y)

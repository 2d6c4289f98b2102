-- ===== src/Session/Start.antt =====
-- `session_start` of cli/session.c.
use qemu_mip.Agent.{atoi}
use qemu_mip.Paths.{Environ}
use qemu_mip.Prelude.{
  ℕ, zero, suc, ◌+◌, ◌-◌, ◌^◌, Bool, false, ◌&&◌, ◌||◌, not, Option, none, some, List, [], ◌∷◌,
  ◌++◌, Bytes, codes, str_eq, snprintf, take, drop, length, ltb, ◌==◌, if◌then◌else◌,
}
use qemu_mip.Session.{Session, load_session, session_path, runtime_dir}
use qemu_mip.Session.Command.{Effect, qmp_connect, qmp_close, qmp_quit, kill, reap, unlink}

-- the variables of `session_start`; `timeout_ms` counts only in the rounds of `wait_expect`
pub record Start : Type 0 where
  pub id : Bytes
  pub iso : Bytes
  pub disk : Bytes
  pub plugin : Bytes
  pub prompt : Bytes
  pub console_lines : ℕ
  pub wait_prompt : Bool

-- What the system answers: the names in the sessions' directory and the files of sessions; whether a process is
-- there when it is asked for the n-th time; `realpath` and `stat`; whether the QMP socket of the session
-- that is replaced is connected to; the process that is forked, if one is; whether the plugin's socket is there
-- in the i-th round and behind the rounds; the plugin's answers in `wait_expect` and behind it; whether the
-- file of the session is written; and the milliseconds that are told.
pub record Host : Type 0 where
  pub environ : Environ
  pub entries : List Bytes
  pub file : Bytes → Option Bytes
  pub alive : ℕ → ℕ → Bool
  pub realpath : Bytes → Option Bytes
  pub is_there : Bytes → Bool
  pub connects : Bool
  pub forked : Option ℕ
  pub has_socket : ℕ → Bool
  pub socket_at_last : Bool
  pub polls : List (Option Bytes)
  pub answer : Option Bytes
  pub saves : Bool
  pub ms : ℕ

unfoldable pub start_option : Bytes → Bytes → Start → Option Start
unfolding str_eq
start_option arg val a =
    if str_eq arg (codes "--id")
    then some (record a { id = val })
    else if str_eq arg (codes "--iso")
    then some (record a { iso = val })
    else if str_eq arg (codes "--disk")
    then some (record a { disk = val })
    else if str_eq arg (codes "--plugin")
    then some (record a { plugin = val })
    else if str_eq arg (codes "--prompt")
    then some (record a { prompt = val })
    else if str_eq arg (codes "--timeout")
    then some a
    else if str_eq arg (codes "--console-lines")
    then some (record a { console_lines = atoi val })
    else none

-- The loop over the arguments: it ends at `--help`, at an unknown flag, or behind the last argument.
pub data Read : Type 0 where
  help : Read
  unknown_flag : Start → Read
  read : Start → Read

abbrev pub with_word : Bytes → Start → (Start → Read) → Read
with_word arg a more =
    if str_eq arg (codes "--no-wait")
    then more (record a { wait_prompt = false })
    else if str_eq arg (codes "-h") || str_eq arg (codes "--help")
    then help
    else unknown_flag a

abbrev pub with_option : Option Start → Read → (Start → Read) → Read
with_option none other more = other
with_option (some a) other more = more a

unfoldable pub start_args : List Bytes → Start → Read
start_args [] a = read a
start_args (arg ∷ []) a = with_word arg a read
start_args (arg ∷ val ∷ rest) a =
    with_option (start_option arg val a) (with_word arg a (start_args (val ∷ rest)))
      (start_args rest)

unfoldable pub is_alive : Host → ℕ → ℕ → Bool
is_alive y n pid = ltb 0 pid && ltb pid (2 ^ 31) && y.alive pid n

-- a path as `realpath` gives it, or itself
abbrev pub real_or : Option Bytes → Bytes → Bytes
real_or none path = snprintf 4096 path
real_or (some real) path = real

-- `oid`; a name of more than 68 bytes is written past its end in the source
unfoldable pub session_of : Bytes → Option Bytes
unfolding str_eq
session_of name =
    let n = length name in
    if ltb n 6 || not (str_eq (drop (n - 5) name) (codes ".json"))
    then none
    else some (take (n - 5) (snprintf 64 name))

-- another session that is there and holds the disk
unfoldable pub holds : Host → Bytes → Option Session → Option Session
holds y want none = none
holds y want (some other) =
    if not (is_alive y 0 other.pid) || length other.disk == 0
    then none
    else if str_eq (real_or (y.realpath other.disk) other.disk) want
    then some other
    else none

unfoldable pub holder_named : Host → Start → Bytes → Option Bytes → Option Session
holder_named y a want none = none
holder_named y a want (some oid) =
    if str_eq oid a.id
    then none
    else holds y want (load_session y.environ oid (y.file (session_path y.environ oid 320)))

abbrev pub or_later : Option Session → Option Session → Option Session
or_later none later = later
or_later (some s) later = some s

unfoldable pub first_holding : Host → Start → Bytes → List Bytes → Option Session
first_holding y a want [] = none
first_holding y a want (name ∷ rest) =
    or_later (holder_named y a want (session_of name)) (first_holding y a want rest)

unfoldable pub disk_holder : Host → Start → Option Session
disk_holder y a =
    if length a.disk == 0
    then none
    else first_holding y a (real_or (y.realpath a.disk) a.disk) y.entries

-- The rounds that wait for the end of the session that is replaced, and whether its process is there when it is
-- asked for behind them.
unfoldable pub stays_up : Host → ℕ → ℕ → ℕ → Bool
stays_up y pid zero i = is_alive y (i + 1) pid
stays_up y pid (suc left) i =
    let later = stays_up y pid left (i + 1) in
    if is_alive y (i + 1) pid then later else is_alive y (i + 2) pid

unfoldable pub end_old : Host → Session → List Effect
end_old y old =
    if is_alive y 0 old.pid
    then (if y.connects then qmp_connect ∷ qmp_quit ∷ qmp_close ∷ [] else kill 9 ∷ [])
      ++ ((if stays_up y old.pid 30 0 then kill 9 ∷ [] else []) ++ (reap ∷ []))
    else []

unfoldable pub replace_old : Host → Start → Option Session → List Effect
replace_old y a none = []
replace_old y a (some old) =
    end_old y old
    ++ (unlink (session_path y.environ a.id 320)
        ∷ unlink old.plugin_sock
        ∷ unlink old.qmp_sock
        ∷ [])

abbrev pub sess_path : Host → Bytes → Bytes → Bytes
sess_path y id ext =
    snprintf 256 (runtime_dir y.environ ++ (codes "/qemu-connect-sess-" ++ (id ++ ext)))

-- the session, as it is filled in before the emulator is started
unfoldable pub new_session : Host → Start → ℕ → Session
new_session y a pid = record {
  id = snprintf 64 a.id;
  pid = pid;
  plugin_sock = sess_path y a.id (codes ".sock");
  qmp_sock = sess_path y a.id (codes ".qmp");
  logpath = sess_path y a.id (codes ".log");
  iso = snprintf 512 a.iso;
  disk = snprintf 512 a.disk;
  prompt = snprintf 64 a.prompt;
  last_expect = [];
}

-- ===== src/Cli/Main.antt =====
-- `main` of cli/main.c.
use qemu_mip.Cli.Expect.{cmd_expect, find_qmp_path, print_text_only}
use qemu_mip.Cli.Request.{Connections, request, request_buf}
use qemu_mip.Prelude.{
  ℕ, Bool, true, false, ◌||◌, Option, none, some, List, [], ◌∷◌, ◌++◌, map, Bytes, codes, c_str,
  has, str_eq, if◌then◌else◌,
}
use qemu_mip.Protocol.Console.{resp_max}
use qemu_mip.Qmp.{Outcome, accepted, refused, io_failed, send_key, type_line}
use qemu_mip.Qmp.Connection.{
  Conn, Connected, no_socket, given_up, linked, execute, quit, qc_qmp_close, qc_qmp_connect,
}
use qemu_mip.Qmp.Sending.{run_command}

-- What the system does for a run of the client: connections to the plugin's socket, those of the
-- rounds of `expect` that begin before its deadline, connections to QEMU's control socket, and what the
-- buffer `out` holds at first.
pub record System : Type 0 where
  pub net : Connections
  pub rounds : List Connections
  pub dial : Bytes → Option Conn
  pub junk : Bytes

-- the parts of the client that have files of their own
pub data Part : Type 0 where
  run guest session : Part

-- How a run ends: in another part with these arguments; or with an exit code, what is printed to
-- standard output, and the descriptor of the control socket, if there was one.
pub data Exit : Type 0 where
  handed : Part → List Bytes → Exit
  exits : ℕ → Bytes → Option Conn → Exit

abbrev pub usage : Exit
usage = exits 2 [] none

abbrev pub ended : ℕ × Bytes → Exit
ended (code, out) = exits code out none

-- QEMU_CONNECT_DEFAULT_SOCK
abbrev pub default_sock : Bytes
default_sock = codes "/tmp/qemu-connect.sock"

pub record Globals : Type 0 where
  pub sock : Bytes
  pub qmp_path : Option Bytes

-- the options before the command, and the arguments from the command on
unfoldable pub globals : List Bytes → Globals → Globals × List Bytes
globals (a ∷ b ∷ rest) g =
    let with_sock = globals rest (record g { sock = b }) in
    let with_qmp = globals rest (record g { qmp_path = some b }) in
    if str_eq a (codes "--socket")
    then with_sock
    else if str_eq a (codes "--qmp")
    then with_qmp
    else (g, a ∷ b ∷ rest)
globals (a ∷ []) g = (g, a ∷ [])
globals [] g = (g, [])

pub record ConsoleFlags : Type 0 where
  pub text_only : Bool
  pub refresh : Bool
  pub from : Bytes

unfoldable pub console_flags : List Bytes → ConsoleFlags → ConsoleFlags
console_flags [] f = f
console_flags (a ∷ []) f =
    if str_eq a (codes "--text-only")
    then record f { text_only = true }
    else if str_eq a (codes "--refresh")
    then record f { refresh = true }
    else f
console_flags (a ∷ b ∷ rest) f =
    let only = console_flags (b ∷ rest) (record f { text_only = true }) in
    let fresh = console_flags (b ∷ rest) (record f { refresh = true }) in
    let moved = console_flags rest (record f { from = b }) in
    let passed = console_flags (b ∷ rest) f in
    if str_eq a (codes "--text-only")
    then only
    else if str_eq a (codes "--refresh")
    then fresh
    else if str_eq a (codes "--socket")
    then moved
    else passed

-- `get_console --text-only` from the answer on; an answer that tells of an error goes to standard error
unfoldable pub text_answer : Option Bytes → Exit
text_answer none = exits 1 [] none
text_answer (some buf) =
    if has (c_str buf) (codes "\"ok\":false")
    then exits 1 [] none
    else ended (print_text_only (c_str buf))

unfoldable pub get_console : System → ConsoleFlags → Exit
get_console y f =
    let line =
      if f.refresh
      then codes "{\"cmd\":\"get_console\",\"refresh\":true}"
      else codes "{\"cmd\":\"get_console\"}" in
    if f.text_only
    then text_answer (request_buf y.net f.from line resp_max)
    else ended (request y.net f.from line)

-- the socket that `expect` asks; a timeout counts only in the rounds
unfoldable pub expect_sock : List Bytes → Bytes → Bytes
expect_sock [] sock = sock
expect_sock (a ∷ []) sock = sock
expect_sock (a ∷ b ∷ rest) sock =
    let timed = expect_sock rest sock in
    let moved = expect_sock rest b in
    let passed = expect_sock (b ∷ rest) sock in
    if str_eq a (codes "--timeout")
    then timed
    else if str_eq a (codes "--socket")
    then moved
    else passed

unfoldable pub asked : Bytes → Connections → Option Bytes
asked sock net = request_buf net sock (codes "{\"cmd\":\"get_console\"}") resp_max

unfoldable pub expect : System → List Bytes → Bytes → Exit
expect y [] sock = usage
expect y (needle ∷ rest) sock =
    exits (cmd_expect needle (map (asked (expect_sock rest sock)) y.rounds)) [] none

unfoldable pub raw : System → List Bytes → Bytes → Exit
raw y [] sock = usage
raw y (line ∷ rest) sock = ended (request y.net sock line)

-- What a command on the control socket comes to: `none` for the way to `usage`, or whether the result
-- is 0; and what is printed.
abbrev pub Turn : Type 0
Turn = (Option Bool × Bytes) × Conn

abbrev pub is_ok : Outcome → Bool
is_ok accepted = true
is_ok refused = false
is_ok io_failed = false

unfoldable pub qmp_ping : Bytes → Conn → Turn
qmp_ping junk c =
    let (r, out, c') = execute 2048 junk (codes "{\"execute\":\"query-status\"}") c in
    ((some (is_ok r), if is_ok r then out ++ b'\n' ∷ [] else []), c')

unfoldable pub key : List Bytes → Conn → Turn
key [] c = ((none, []), c)
key (qcode ∷ rest) c = let (r, c') = send_key run_command qcode c in ((some (is_ok r), []), c')

-- whether Enter is pressed: the last of the two options counts
unfoldable pub enter_flag : List Bytes → Bool → Bool
enter_flag [] enter = enter
enter_flag (a ∷ rest) enter = enter_flag rest (
    if str_eq a (codes "--no-enter")
    then false
    else if str_eq a (codes "--enter")
    then true
    else enter)

unfoldable pub type : List Bytes → Conn → Turn
type [] c = ((none, []), c)
type (text ∷ rest) c =
    let (typed, c') = type_line run_command text (enter_flag rest true) c in ((some typed, []), c')

unfoldable pub qmp_turn : Bytes → Bytes → List Bytes → Conn → Turn
qmp_turn junk cmd args c =
    let (r, c') = quit c in
    if str_eq cmd (codes "qmp-ping")
    then qmp_ping junk c
    else if str_eq cmd (codes "quit")
    then ((some (is_ok r), []), c')
    else if str_eq cmd (codes "key")
    then key args c
    else type args c

unfoldable pub qmp_end : Turn → Exit
qmp_end ((none, out), c) = exits 2 [] (some (qc_qmp_close c))
qmp_end ((some ok, out), c) = exits (if ok then 0 else 1) out (some (qc_qmp_close c))

unfoldable pub qmp_connected : Bytes → Bytes → List Bytes → Connected → Exit
qmp_connected junk cmd args no_socket = exits 1 [] none
qmp_connected junk cmd args (given_up c) = exits 1 [] (some c)
qmp_connected junk cmd args (linked c) = qmp_end (qmp_turn junk cmd args c)

unfoldable pub qmp_command : System → Bytes → List Bytes → Option Bytes → Exit
qmp_command y cmd args none = exits 2 [] none
qmp_command y cmd args (some path) = qmp_connected y.junk cmd args (qc_qmp_connect y.dial path)

-- an explicit path, or one among the arguments behind the command
abbrev pub path_of : Option Bytes → List Bytes → Option Bytes
path_of (some path) args = some path
path_of none args = find_qmp_path args none

unfoldable pub is_qmp : Bytes → Bool
is_qmp cmd =
    str_eq cmd (codes "qmp-ping")
    || str_eq cmd (codes "quit")
    || str_eq cmd (codes "key")
    || str_eq cmd (codes "type")

-- the commands that send one fixed line to the plugin
unfoldable pub plain_line : Bytes → Option Bytes
plain_line cmd =
    if str_eq cmd (codes "ping")
    then some (codes "{\"cmd\":\"ping\"}")
    else if str_eq cmd (codes "version")
    then some (codes "{\"cmd\":\"version\"}")
    else if str_eq cmd (codes "status")
    then some (codes "{\"cmd\":\"status\"}")
    else if str_eq cmd (codes "get_agent_event")
    then some (codes "{\"cmd\":\"get_agent_event\"}")
    else none

-- the commands behind those; `help` and what is unknown end alike
unfoldable pub other_command : System → Globals → Bytes → List Bytes → Exit
other_command y g cmd args =
    if str_eq cmd (codes "get_console")
    then get_console y
        (console_flags args (record { text_only = false; refresh = false; from = g.sock }))
    else if str_eq cmd (codes "expect")
    then expect y args g.sock
    else if str_eq cmd (codes "raw")
    then raw y args g.sock
    else if is_qmp cmd
    then qmp_command y cmd args (path_of g.qmp_path args)
    else usage

unfoldable pub plugin_command : System → Globals → Bytes → List Bytes → Option Bytes → Exit
plugin_command y g cmd args (some line) = ended (request y.net g.sock line)
plugin_command y g cmd args none = other_command y g cmd args

unfoldable pub dispatch : System → Globals × List Bytes → Exit
dispatch y (g, []) = usage
dispatch y (g, cmd ∷ args) =
    if str_eq cmd (codes "run")
    then handed run args
    else if str_eq cmd (codes "guest")
    then handed guest args
    else if str_eq cmd (codes "session")
    then handed session args
    else plugin_command y g cmd args (plain_line cmd)

-- `argv` behind the name of the program
unfoldable pub main : System → List Bytes → Exit
main y argv = dispatch y (globals argv (record { sock = default_sock; qmp_path = none }))

-- ===== src/Cli/Closing.antt =====
-- What becomes of the descriptor of QEMU's control socket in a run of cli/main.c.
use qemu_mip.Cli.Main.{
  System, Exit, handed, exits, run, guest, session, is_qmp, usage, Globals, ConsoleFlags,
  text_answer, get_console, expect, raw, Turn, qmp_end, qmp_connected, qmp_command, other_command,
  plugin_command, plain_line, dispatch, main,
}
use qemu_mip.Prelude.{
  ◌≡◌, refl, Bool, true, false, Option, none, some, List, [], ◌∷◌, Bytes, codes, c_str, has,
  if◌then◌else◌, length, ◌==◌, str_eq,
}
use qemu_mip.Qmp.Connection.{
  Conn, Connected, no_socket, given_up, linked, judged, greeted, opened, qc_qmp_close,
  qc_qmp_connect, qmp_write_line,
}

-- of a run that hands over to `run`, `guest` or `session`, nothing is said
abbrev pub IsClosed : Exit → Type 0
IsClosed (handed part args) = Unit
IsClosed (exits code out none) = Unit
IsClosed (exits code out (some c)) = c.is_open ≡ false

-- a descriptor that `qc_qmp_connect` does not pass on
abbrev IsLeft : Connected → Type 0
IsLeft no_socket = Unit
IsLeft (given_up c) = c.is_open ≡ false
IsLeft (linked c) = Unit

if-IsLeft : (b : Bool) (x y : Connected) → IsLeft x → IsLeft y → IsLeft (if b then x else y)
if-IsLeft true x y hx hy = hx
if-IsLeft false x y hx hy = hy

judged-IsLeft : (answer : Option Bytes) (c : Conn) → IsLeft (judged answer c)
unfolding judged qc_qmp_close
judged-IsLeft none c = refl
judged-IsLeft (some line) c = if-IsLeft (has line (codes "\"error\"")) _ (linked c) refl tt

greeted-IsLeft : (greeting : Option Bytes) (c : Conn) → IsLeft (greeted greeting c)
unfolding greeted qc_qmp_close
greeted-IsLeft none c = refl
greeted-IsLeft (some raw) c =
    if-IsLeft (has (c_str raw) (codes "\"QMP\"")) _ _
      (if-IsLeft (qmp_write_line (codes "{\"execute\":\"qmp_capabilities\"}") c).0 _ _
        (judged-IsLeft _ _) refl)
      refl

opened-IsLeft : (dialled : Option Conn) → IsLeft (opened dialled)
unfolding opened
opened-IsLeft none = tt
opened-IsLeft (some c) = greeted-IsLeft _ _

qc_qmp_connect-IsLeft :
    (dial : Bytes → Option Conn) (path : Bytes) → IsLeft (qc_qmp_connect dial path)
unfolding qc_qmp_connect
qc_qmp_connect-IsLeft dial path =
    if-IsLeft (length path == 0) no_socket _ tt (opened-IsLeft (dial path))

if-IsClosed : (b : Bool) (x y : Exit) → IsClosed x → IsClosed y → IsClosed (if b then x else y)
if-IsClosed true x y hx hy = hx
if-IsClosed false x y hx hy = hy

qmp_end-IsClosed : (t : Turn) → IsClosed (qmp_end t)
unfolding qmp_end qc_qmp_close
qmp_end-IsClosed ((none, out), c) = refl
qmp_end-IsClosed ((some ok, out), c) = refl

qmp_connected-IsClosed :
    (junk cmd : Bytes) (args : List Bytes) (link : Connected)
    → IsLeft link
    → IsClosed (qmp_connected junk cmd args link)
unfolding qmp_connected
qmp_connected-IsClosed junk cmd args no_socket left = tt
qmp_connected-IsClosed junk cmd args (given_up c) left = left
qmp_connected-IsClosed junk cmd args (linked c) left = qmp_end-IsClosed _

qmp_command-IsClosed :
    (y : System) (cmd : Bytes) (args : List Bytes) (path : Option Bytes)
    → IsClosed (qmp_command y cmd args path)
unfolding qmp_command
qmp_command-IsClosed y cmd args none = tt
qmp_command-IsClosed y cmd args (some path) =
    qmp_connected-IsClosed y.junk cmd args _ (qc_qmp_connect-IsLeft y.dial path)

text_answer-IsClosed : (answer : Option Bytes) → IsClosed (text_answer answer)
unfolding text_answer
text_answer-IsClosed none = tt
text_answer-IsClosed (some buf) =
    if-IsClosed (has (c_str buf) (codes "\"ok\":false")) (exits 1 [] none) _ tt tt

get_console-IsClosed : (y : System) (f : ConsoleFlags) → IsClosed (get_console y f)
unfolding get_console
get_console-IsClosed y f = if-IsClosed f.text_only _ _ (text_answer-IsClosed _) tt

expect-IsClosed : (y : System) (args : List Bytes) (sock : Bytes) → IsClosed (expect y args sock)
unfolding expect
expect-IsClosed y [] sock = tt
expect-IsClosed y (needle ∷ rest) sock = tt

raw-IsClosed : (y : System) (args : List Bytes) (sock : Bytes) → IsClosed (raw y args sock)
unfolding raw
raw-IsClosed y [] sock = tt
raw-IsClosed y (line ∷ rest) sock = tt

other_command-IsClosed :
    (y : System) (g : Globals) (cmd : Bytes) (args : List Bytes)
    → IsClosed (other_command y g cmd args)
unfolding other_command
other_command-IsClosed y g cmd args =
    if-IsClosed (str_eq cmd (codes "get_console")) _ _ (get_console-IsClosed y _) (
      if-IsClosed (str_eq cmd (codes "expect")) _ _ (expect-IsClosed y args g.sock) (
        if-IsClosed (str_eq cmd (codes "raw")) _ _ (raw-IsClosed y args g.sock)
          (if-IsClosed (is_qmp cmd) _ usage (qmp_command-IsClosed y cmd args _) tt)))

plugin_command-IsClosed :
    (y : System) (g : Globals) (cmd : Bytes) (args : List Bytes) (line : Option Bytes)
    → IsClosed (plugin_command y g cmd args line)
unfolding plugin_command
plugin_command-IsClosed y g cmd args none = other_command-IsClosed y g cmd args
plugin_command-IsClosed y g cmd args (some line) = tt

dispatch-IsClosed : (y : System) (p : Globals × List Bytes) → IsClosed (dispatch y p)
unfolding dispatch
dispatch-IsClosed y (g, []) = tt
dispatch-IsClosed y (g, cmd ∷ args) =
    if-IsClosed (str_eq cmd (codes "run")) (handed run args) _ tt (
      if-IsClosed (str_eq cmd (codes "guest")) (handed guest args) _ tt (
        if-IsClosed (str_eq cmd (codes "session")) (handed session args) _ tt
          (plugin_command-IsClosed y g cmd args (plain_line cmd))))

-- A run of the client whose command is not `run`, `guest` or `session`, which have parts of their own, has closed
-- the descriptor of the control socket when it ends, if it opened one, whatever else the arguments are and
-- whatever the system calls give: behind a greeting, a handshake, a command
-- or an argument that fails as behind a command that succeeds.
pub main-IsClosed : (y : System) (argv : List Bytes) → IsClosed (main y argv)
unfolding main
main-IsClosed y argv = dispatch-IsClosed y _

-- ===== src/Session/Command.antt =====
-- The commands of cli/session.c that act in a session: what one does, in order, and its exit code.
use qemu_mip.Cli.Copies.{extract_text}
use qemu_mip.Cli.Expect.{shows}
use qemu_mip.Cli.Tail.{console_tail_nonblank}
use qemu_mip.Paths.{Environ}
use qemu_mip.Prelude.{
  ℕ, ◌^◌, Bool, false, ◌&&◌, ◌||◌, Option, none, some, List, [], ◌∷◌, ◌++◌, Bytes, codes, snprintf,
  ltb, ◌==◌, if◌then◌else◌,
}
use qemu_mip.Protocol.Escape.{escaped}
use qemu_mip.Protocol.Print.{format, format_bool}
use qemu_mip.Session.{Session, load_session, session_path}

-- What a command does outside of its own memory. A printed line is without its line feed.
pub data Effect : Type 0 where
  lock : Effect
  unlock : Effect
  qmp_connect : Effect
  qmp_close : Effect
  qmp_type_line : Bytes → Bool → Effect
  qmp_send_key : Bytes → Effect
  save : Session → Effect
  qmp_quit : Effect
  kill : ℕ → Effect
  reap : Effect
  spawn : Effect
  unlink : Bytes → Effect
  print : Bytes → Effect

-- What the system answers to a command: whether the lock is had, the files of sessions, whether the process
-- of the session is there when it is asked for the n-th time, whether the QMP socket is connected to,
-- whether a line and each key are typed, the plugin's answers in `wait_expect` before its deadline, the one
-- behind that, and the milliseconds that are told.
pub record World : Type 0 where
  pub environ : Environ
  pub locks : Bool
  pub file : Bytes → Option Bytes
  pub alive : ℕ → Bool
  pub connects : Bool
  pub types : Bool
  pub keys : ℕ → Bool
  pub polls : List (Option Bytes)
  pub answer : Option Bytes
  pub ms : ℕ

abbrev pub Run : Type 0
Run = List Effect × ℕ

abbrev pub then_run : List Effect → Run → Run
then_run before (rest, code) = (before ++ rest, code)

-- `json_escape_print`
abbrev pub quoted : Bytes → Bytes → Bytes
quoted s rest = b'"' ∷ (escaped s ++ b'"' ∷ rest)

-- the fields of `print_result` that are there only with a value
abbrev pub duration_field : Option ℕ → Bytes → Bytes
duration_field none rest = rest
duration_field (some ms) rest = codes ",\"duration_ms\":" ++ (format ms ++ rest)

abbrev pub error_field : Bytes → Bytes → Bytes
error_field [] rest = rest
error_field (c ∷ s) rest = codes ",\"error\":" ++ quoted (c ∷ s) rest

abbrev pub console_field : Option Bytes → Bytes → Bytes
console_field none rest = rest
console_field (some text) rest = codes ",\"console\":" ++ quoted text rest

abbrev pub result_head : ℕ → Bytes → Bytes
result_head code rest =
    codes "{\"ok\":"
    ++ (format_bool (code == 0) ++ (codes ",\"exit_code\":" ++ (format code ++ (b',' ∷ rest))))

-- `print_result`, which each command calls with a flag that tells whether the code is 0
unfoldable pub result_line : ℕ → Bytes → Bytes → Option Bytes → Bytes → Option ℕ → Bytes
result_line code id op console error ms = result_head code (
    codes "\"session_id\":"
    ++ quoted id (
        codes ",\"op\":"
        ++ quoted op (duration_field ms (error_field error (console_field console (codes "}"))))))

-- a command that ends with a line of `print_result`
abbrev pub fail : ℕ → Bytes → Bytes → Option Bytes → Bytes → Option ℕ → Run
fail code id op console error ms = (print (result_line code id op console error ms) ∷ [], code)

-- `pid_alive`, asked for the n-th time
unfoldable pub pid_alive : World → ℕ → ℕ → Bool
pid_alive w n pid = ltb 0 pid && ltb pid (2 ^ 31) && w.alive n

unfoldable pub get_console_text : Option Bytes → ℕ → Option Bytes
get_console_text none out_len = none
get_console_text (some json) out_len = extract_text json out_len

-- a console that could not be had is empty
abbrev pub console_text : Option Bytes → Bytes
console_text none = []
console_text (some text) = text

-- the rounds of `wait_expect`, whether one of them sees the needle
unfoldable pub wait_expect : Bytes → List (Option Bytes) → Bool
unfolding get_console_text shows
wait_expect needle [] = false
wait_expect needle (json ∷ rest) =
    shows needle (get_console_text json 2033) || wait_expect needle rest

-- the console that is printed: as a whole, or its last lines
unfoldable pub shown_console : World → ℕ → ℕ → Bytes
shown_console w size console_lines =
    let text = console_text (get_console_text w.answer size) in
    if console_lines == 0 then text else console_tail_nonblank text size console_lines

-- what `require_session` gives: the session, or what it has done before its result -1
pub data Required : Type 0 where
  gone : List Effect → Required
  found : Session → Required

abbrev pub if_alive : World → Bytes → Bytes → Option Session → Required
if_alive w id op none = gone (print (result_line 3 id op none (codes "no such session") none) ∷ [])
if_alive w id op (some s) =
    if pid_alive w 0 s.pid
    then found s
    else gone (
        unlink (session_path w.environ id 320)
        ∷ print (result_line 3 id op none (codes "session QEMU dead") none)
        ∷ [])

unfoldable pub require_session : World → Bytes → Bytes → Required
require_session w id op =
    if_alive w id op (load_session w.environ id (w.file (session_path w.environ id 320)))

-- `note_last_expect`
unfoldable pub note_last_expect : Session → Bytes → Effect
note_last_expect s needle = save (record s { last_expect = snprintf 128 needle })

-- The loop over the arguments: an option with a value, or one argument, which may be unknown.
pub data Parsed {ℓ} (A : Type ℓ) : Type ℓ where
  unknown : A → Parsed A
  parsed : A → Parsed A

abbrev pub otherwise {ℓ} : {A : Type ℓ} → Option A → Parsed A → (A → Parsed A) → Parsed A
otherwise none p more = p
otherwise (some a) p more = more a

module _ {ℓ} {A : Type ℓ} (option : Bytes → Bytes → A → Option A)
    (word : Bytes → A → Option A) where
  abbrev pub parse : List Bytes → A → Parsed A
  parse [] a = parsed a
  parse (arg ∷ []) a = otherwise (word arg a) (unknown a) parsed
  parse (arg ∷ val ∷ rest) a =
      otherwise (option arg val a) (otherwise (word arg a) (unknown a) (parse (val ∷ rest)))
        (parse rest)

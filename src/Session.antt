-- ===== src/Session.antt =====
-- cli/session.c: sessions, of which each is an emulator that stays up between commands, and the file
-- that tells of it. The environment is the one behind `init_paths`.

pub mod File
pub mod Number
pub mod Orderly
pub mod Bounds
pub mod Once
pub mod Dispatch
mod Examples
pub mod Query
pub mod Stop
pub mod Start
pub mod Launch
pub mod Telling
pub mod Written
pub mod Handover
pub mod Serial
pub mod Shell
pub mod Typing
pub mod Command
pub mod RoundTrip
pub mod Search
use qemu_mip.Paths.{Environ, getenv, value_of}
use qemu_mip.Prelude.{
  ℕ, zero, suc, ◌+◌, ◌-◌, ◌%◌, ◌^◌, Bool, true, false, ◌||◌, Option, none, some, [], ◌∷◌, ◌++◌,
  Bytes, codes, snprintf, strstr, c_str, take, u32, u64, ltb, ◌==◌, if◌then◌else◌, length, drop,
}
use qemu_mip.Protocol.Fields.{skip, number, first_is, is_space}
use qemu_mip.Protocol.Print.{format}

-- `qc_session_t`; the number of the process is a pid_t, as the remainder modulo 2^32
pub record Session : Type 0 where
  pub id : Bytes
  pub pid : ℕ
  pub plugin_sock : Bytes
  pub qmp_sock : Bytes
  pub logpath : Bytes
  pub iso : Bytes
  pub disk : Bytes
  pub prompt : Bytes
  pub last_expect : Bytes

-- `s[0] ? s : t`
abbrev pub or_else_text : Bytes → Bytes → Bytes
or_else_text [] t = t
or_else_text (c ∷ s) t = c ∷ s

unfoldable pub runtime_dir : Environ → Bytes
runtime_dir env =
    or_else_text (value_of (getenv env (codes "XDG_RUNTIME_DIR")))
      (or_else_text (value_of (getenv env (codes "TMPDIR"))) (codes "/tmp"))

unfoldable pub session_dir : Environ → ℕ → Bytes
session_dir env n = snprintf n (runtime_dir env ++ codes "/qemu-connect-sessions")

unfoldable pub session_path : Environ → Bytes → ℕ → Bytes
session_path env id n = snprintf n (session_dir env 256 ++ codes "/" ++ id ++ codes ".json")

unfoldable pub default_shell_prompt : Environ → Bytes
default_shell_prompt env =
    or_else_text (value_of (getenv env (codes "QEMU_CONNECT_PROMPT"))) (codes "$")

unfoldable pub session_prompt : Environ → Session → Bytes
session_prompt env s = or_else_text s.prompt (default_shell_prompt env)

-- `%d` of a pid_t
unfoldable pub format_int : ℕ → Bytes
format_int v = if ltb v (2 ^ 31) then format v else b'-' ∷ format (2 ^ 32 - v)

-- a field of the file whose value is a text
abbrev pub text_field : Bytes → Bytes → Bytes → Bytes
text_field key s rest = codes "  \"" ++ (key ++ (codes "\": \"" ++ (s ++ rest)))

-- the text that `save_session` writes, from its last field to its first
abbrev pub from_last_expect : Session → Bytes
from_last_expect s = text_field (codes "last_expect") s.last_expect (codes "\"\n}\n")

abbrev pub from_prompt : Session → Bytes
from_prompt s =
    text_field (codes "prompt") (or_else_text s.prompt (codes "$"))
      (codes "\",\n" ++ from_last_expect s)

abbrev pub from_disk : Session → Bytes
from_disk s = text_field (codes "disk") s.disk (codes "\",\n" ++ from_prompt s)

abbrev pub from_iso : Session → Bytes
from_iso s = text_field (codes "iso") s.iso (codes "\",\n" ++ from_disk s)

abbrev pub from_log : Session → Bytes
from_log s = text_field (codes "log") s.logpath (codes "\",\n" ++ from_iso s)

abbrev pub from_qmp_sock : Session → Bytes
from_qmp_sock s = text_field (codes "qmp_sock") s.qmp_sock (codes "\",\n" ++ from_log s)

abbrev pub from_plugin_sock : Session → Bytes
from_plugin_sock s =
    text_field (codes "plugin_sock") s.plugin_sock (codes "\",\n" ++ from_qmp_sock s)

abbrev pub from_pid : Session → Bytes
from_pid s = codes "  \"pid\": " ++ (format_int s.pid ++ (codes ",\n" ++ from_plugin_sock s))

unfoldable pub session_text : Session → Bytes
session_text s = codes "{\n" ++ text_field (codes "id") s.id (codes "\",\n" ++ from_pid s)

-- the loop of `json_get_string`, which leaves room for so many bytes
unfoldable pub copy_string : ℕ → Bytes → Bytes
copy_string zero s = []
copy_string (suc room) [] = []
copy_string (suc room) (c ∷ []) = if c == b'"' then [] else c ∷ []
copy_string (suc room) (c ∷ d ∷ s) =
    let escaped = d ∷ copy_string room s in
    let plain = c ∷ copy_string room (d ∷ s) in
    if c == b'"' then [] else if c == b'\\' then escaped else plain

abbrev after : ℕ → Option Bytes → Option Bytes
after n none = none
after n (some p) = some (drop n p)

-- the text behind the first occurrence
unfoldable pub text_behind : Bytes → Bytes → Option Bytes
text_behind s pat = after (length pat) (strstr s pat)

abbrev first_some : Option Bytes → Option Bytes → Option Bytes
first_some none b = b
first_some (some a) b = some a

abbrev copy_value : ℕ → Option Bytes → Option Bytes
copy_value out_len none = none
copy_value out_len (some p) = some (copy_string (out_len - 1) p)

-- `none` is the result -1
unfoldable pub json_get_string : Bytes → Bytes → ℕ → Option Bytes
json_get_string json key out_len = copy_value out_len (
    first_some (text_behind json (snprintf 80 (codes "\"" ++ (key ++ codes "\": \""))))
      (text_behind json (snprintf 80 (codes "\"" ++ (key ++ codes "\":\"")))))

-- a long, as the remainder modulo 2^64, from what `strtol` reads: out of range it gives the bound
abbrev pub to_long : Bool → Option ℕ → Option ℕ
to_long negative none = none
to_long true (some v) = some (if ltb (2 ^ 63) v then 2 ^ 63 else u64 (2 ^ 64 - v))
to_long false (some v) = some (if ltb v (2 ^ 63) then v else 2 ^ 63 - 1)

-- the value of `strtol(s, &end, 10)`, or `none` if `end` is `s`
unfoldable pub strtol : Bytes → Option ℕ
strtol text =
    let s = skip is_space text in
    if first_is (λ c. c == b'-') s
    then to_long true (number 10 (drop 1 s))
    else if first_is (λ c. c == b'+') s
    then to_long false (number 10 (drop 1 s))
    else to_long false (number 10 s)

abbrev read_int : Option Bytes → Option ℕ
read_int none = none
read_int (some p) = strtol (skip (λ c. c == b' ') p)

unfoldable pub json_get_int : Bytes → Bytes → Option ℕ
json_get_int json key =
    read_int (text_behind json (snprintf 64 (codes "\"" ++ (key ++ codes "\":"))))

-- a field that is left as it is, without text, where the file has none
abbrev pub text_or_none : Option Bytes → Bytes
text_or_none none = []
text_or_none (some s) = s

abbrev loaded : Environ → Bytes → Bytes → Option ℕ → Option Bytes → Option Bytes → Option Session
loaded env id buf none plugin_sock qmp_sock = none
loaded env id buf (some pid) none qmp_sock = none
loaded env id buf (some pid) (some plugin_sock) none = none
loaded env id buf (some pid) (some plugin_sock) (some qmp_sock) = some (record {
  id = snprintf 64 id;
  pid = u32 pid;
  plugin_sock = plugin_sock;
  qmp_sock = qmp_sock;
  logpath = text_or_none (json_get_string buf (codes "log") 256);
  iso = text_or_none (json_get_string buf (codes "iso") 512);
  disk = text_or_none (json_get_string buf (codes "disk") 512);
  prompt =
      or_else_text (text_or_none (json_get_string buf (codes "prompt") 64))
        (snprintf 64 (default_shell_prompt env));
  last_expect = text_or_none (json_get_string buf (codes "last_expect") 128);
})

-- from what the file holds
unfoldable pub load_text : Environ → Bytes → Bytes → Option Session
load_text env id file =
    let buf = c_str (take 4095 file) in
    loaded env id buf (json_get_int buf (codes "pid"))
      (json_get_string buf (codes "plugin_sock") 256) (json_get_string buf (codes "qmp_sock") 256)

-- `none` is the result -1; the file is `none` where it cannot be opened
unfoldable pub load_session : Environ → Bytes → Option Bytes → Option Session
load_session env id none = none
load_session env id (some file) = load_text env id file

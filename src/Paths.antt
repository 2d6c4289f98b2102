-- ===== src/Paths.antt =====
-- cli/paths.c: where the client finds its plugin and the guest's images.
pub mod Config
mod Examples
pub mod Line
pub mod Resolve
pub mod Bounds
use qemu_mip.Prelude.{
  ℕ, zero, suc, ◌+◌, ◌-◌, Bool, true, false, ◌&&◌, ◌||◌, not, Option, none, some, List, [], ◌∷◌,
  ◌++◌, Bytes, codes, snprintf, starts_with, str_eq, is_some, ◌==◌, if◌then◌else◌, length, drop,
}
use qemu_mip.Protocol.Fields.{skip}

-- the environment of the process, by name; a name stands at most once before the end that counts
abbrev pub Environ : Type 0
Environ = List (Bytes × Bytes)

-- `getenv`
unfoldable pub getenv : Environ → Bytes → Option Bytes
getenv [] name = none
getenv ((key, val) ∷ env) name =
    let rest = getenv env name in if str_eq key name then some val else rest

-- `setenv(key, val, 0)`, which leaves a variable that is there as it is
unfoldable pub setenv : Environ → Bytes → Bytes → Environ
setenv env key val = if is_some (getenv env key) then env else (key, val) ∷ env

-- What the system tells of files: `stat`, `realpath`, `getcwd`, `readlink` of /proc/self/exe, and what
-- `fgets` gives of a file that can be opened.
pub record Files : Type 0 where
  pub is_file : Bytes → Bool
  pub is_dir : Bytes → Bool
  pub realpath : Bytes → Option Bytes
  pub cwd : Option Bytes
  pub exe : Option Bytes
  pub open_lines : Bytes → Option (List Bytes)

abbrev pub is_blank : ℕ → Bool
is_blank c = c == b' ' || c == b'\t'

abbrev pub is_eol : ℕ → Bool
is_eol c = c == b'\n' || c == b'\r'

-- a text without the bytes at its end that pass a test
unfoldable pub trim_end : (ℕ → Bool) → Bytes → Bytes
trim_end p [] = []
trim_end p (c ∷ s) = let r = trim_end p s in if length r == 0 && p c then [] else c ∷ r

abbrev pub before_cut : ℕ → Option (Bytes × Bytes) → Option (Bytes × Bytes)
before_cut c none = none
before_cut c (some (k, v)) = some (c ∷ k, v)

-- the texts before and behind the first `=`
unfoldable pub cut : Bytes → Option (Bytes × Bytes)
cut [] = none
cut (c ∷ s) = let rest = before_cut c (cut s) in if c == b'=' then some ([], s) else rest

unfoldable pub ends_with : ℕ → Bytes → Bool
ends_with q [] = false
ends_with q (c ∷ []) = c == q
ends_with q (c ∷ d ∷ s) = ends_with q (d ∷ s)

-- the text but for its last byte
unfoldable pub but_last : Bytes → Bytes
but_last [] = []
but_last (c ∷ []) = []
but_last (c ∷ d ∷ s) = c ∷ but_last (d ∷ s)

-- quotes around the value, of which there must be two
unfoldable pub unquote : Bytes → Bytes
unfolding ends_with but_last
unquote [] = []
unquote (q ∷ s) = if (q == b'"' || q == 39) && ends_with q s then but_last s else q ∷ s

-- `p` of `load_env_file` behind `export `
unfoldable pub after_export : Bytes → Bytes
unfolding skip starts_with
after_export p = if starts_with p (codes "export ") then skip is_blank (drop 7 p) else p

-- from the key and the value as they stand around the `=` on
unfoldable pub trimmed : Option (Bytes × Bytes) → Option (Bytes × Bytes)
unfolding trim_end unquote
trimmed none = none
trimmed (some (key, val)) =
    let k = trim_end is_blank key in
    if length k == 0 then none else some (k, unquote (trim_end is_eol val))

abbrev pub is_comment : Bytes → Bool
is_comment [] = true
is_comment (c ∷ _) = c == b'#' || c == b'\n'

-- the setting in a line, if there is one
unfoldable pub parse_line : Bytes → Option (Bytes × Bytes)
unfolding skip after_export trimmed cut
parse_line line =
    let p = skip is_blank line in if is_comment p then none else trimmed (cut (after_export p))

unfoldable pub is_known : Bytes → Bool
unfolding str_eq
is_known key =
    str_eq key (codes "QEMU_CONNECT_ROOT")
    || str_eq key (codes "QEMU_CONNECT_HOME")
    || str_eq key (codes "QEMU_CONNECT_GUEST")
    || str_eq key (codes "QEMU_CONNECT_ISO")
    || str_eq key (codes "QEMU_CONNECT_DISK")
    || str_eq key (codes "QEMU_CONNECT_PLUGIN")
    || str_eq key (codes "QEMU_CONNECT_CLI")
    || str_eq key (codes "QEMU_CONNECT_PROMPT")

-- the value of a variable, or no text
abbrev pub value_of : Option Bytes → Bytes
value_of none = []
value_of (some val) = val

abbrev pub is_empty : Option Bytes → Bool
is_empty none = true
is_empty (some val) = length val == 0

-- what a line of the file does to the environment
unfoldable pub apply_line : Option (Bytes × Bytes) → Environ → Environ
apply_line none env = env
apply_line (some (key, val)) env =
    if not (is_known key)
    then env
    else if is_empty (getenv env key)
    then setenv env key val
    else env

unfoldable pub load_lines : List Bytes → Environ → Environ
load_lines [] env = env
load_lines (line ∷ rest) env = load_lines rest (apply_line (parse_line line) env)

abbrev pub lines_or_none : Option (List Bytes) → List Bytes
lines_or_none none = []
lines_or_none (some lines) = lines

-- the lines that `load_env_file` reads; there are none where it returns early
unfoldable pub file_lines : Files → Bytes → List Bytes
file_lines fs path =
    if length path == 0 || not (fs.is_file path) then [] else lines_or_none (fs.open_lines path)

-- PATH_MAX of Linux
abbrev pub path_max : ℕ
path_max = 4096

-- the file in the root, unless there is no root
unfoldable pub local_lines : Files → Bytes → List Bytes
unfolding file_lines
local_lines fs root =
    if length root == 0
    then []
    else file_lines fs (snprintf path_max (root ++ codes "/.qemu-connect.local"))

-- the file in the user's home, unless HOME is not set
unfoldable pub home_lines : Files → Environ → List Bytes
unfolding file_lines
home_lines fs env =
    let home = value_of (getenv env (codes "HOME")) in
    if length home == 0
    then []
    else file_lines fs (snprintf path_max (home ++ codes "/.config/qemu-connect/env"))

-- HOME is read before the first file is.
unfoldable pub load_local_configs : Files → Bytes → Environ → Environ
load_local_configs fs root env =
    load_lines (home_lines fs env) (load_lines (local_lines fs root) env)

-- ===== src/Run/Disk.antt =====
-- The search of cli/run.c for a session that holds a disk image, and the lines that tell of it.
use qemu_mip.Paths.{is_blank}
use qemu_mip.Prelude.{
  ℕ, zero, suc, ◌-◌, ◌^◌, Bool, ◌&&◌, ◌||◌, not, Option, none, some, List, [], ◌∷◌, ◌++◌, Bytes,
  codes, str_eq, strstr, snprintf, c_str, take, drop, length, ltb, u32, ◌==◌, if◌then◌else◌,
}
use qemu_mip.Protocol.Fields.{skip}
use qemu_mip.Session.{strtol, format_int, or_else_text}
use qemu_mip.Session.Command.{quoted}

-- What the system tells: `realpath`, whether there is a process of a number, and the sessions' directory, with
-- the name and the bytes of each file, or `none` for one that cannot be opened.
pub record Machine : Type 0 where
  pub realpath : Bytes → Option Bytes
  pub has_process : ℕ → Bool
  pub entries : List (Bytes × Option Bytes)

-- `real_or_copy`, into a buffer of PATH_MAX bytes
unfoldable pub real_or_copy : Machine → Bytes → Bytes
real_or_copy y [] = []
real_or_copy y (c ∷ path) = or_cut (y.realpath (c ∷ path))
  where
    or_cut : Option Bytes → Bytes
    or_cut none = snprintf 4096 (c ∷ path)
    or_cut (some real) = real

-- the loop that copies up to a quotation mark, with room for so many bytes
unfoldable pub until_quote : ℕ → Bytes → Bytes
until_quote zero s = []
until_quote (suc room) [] = []
until_quote (suc room) (c ∷ s) = let rest = c ∷ until_quote room s in if c == b'"' then [] else rest

-- the text behind the first colon
unfoldable pub behind_colon : Bytes → Option Bytes
behind_colon [] = none
behind_colon (c ∷ s) = let rest = behind_colon s in if c == b':' then some s else rest

abbrev pub colon_in : Option Bytes → Option Bytes
colon_in none = none
colon_in (some p) = behind_colon p

abbrev pub unquoted : ℕ → Bytes → Bytes
unquoted room [] = []
unquoted room (c ∷ s) = if c == b'"' then until_quote room s else []

abbrev pub value_at : ℕ → Option Bytes → Bytes
value_at room none = []
value_at room (some p) = unquoted room (skip is_blank p)

-- the crude extraction of a text, into a buffer of so many bytes, and of a number
unfoldable pub crude_text : Bytes → Bytes → ℕ → Bytes
crude_text buf key size = value_at (size - 1) (colon_in (strstr buf key))

abbrev pub or_zero : Option ℕ → ℕ
or_zero none = 0
or_zero (some v) = v

abbrev pub number_at : Option Bytes → ℕ
number_at none = 0
number_at (some p) = or_zero (strtol p)

unfoldable pub crude_pid : Bytes → ℕ
crude_pid buf = number_at (colon_in (strstr buf (codes "\"pid\"")))

unfoldable pub is_session_name : Bytes → Bool
is_session_name name =
    not (ltb (length name) 6) && str_eq (drop (length name - 5) name) (codes ".json")

-- what a file tells, if it is the file of a session that is there and holds the disk
unfoldable pub holder_in : Machine → Bytes → Bytes → Bytes → Option (Bytes × ℕ)
holder_in y want name file =
    let buf = c_str (take 4095 file) in
    let disk_val = crude_text buf (codes "\"disk\"") 4096 in
    let pid_val = crude_pid buf in
    if length disk_val == 0 || not (str_eq (real_or_copy y disk_val) want)
    then none
    else if ltb 0 pid_val && ltb pid_val (2 ^ 63) && not (y.has_process (u32 pid_val))
    then none
    else some (snprintf 64 (or_else_text (crude_text buf (codes "\"id\"") 64) name), u32 pid_val)

unfoldable pub holder_of : Machine → Bytes → Bytes → Option Bytes → Option (Bytes × ℕ)
holder_of y want name none = none
holder_of y want name (some file) =
    if is_session_name name then holder_in y want name file else none

abbrev pub first_holder : Option (Bytes × ℕ) → Option (Bytes × ℕ) → Option (Bytes × ℕ)
first_holder none later = later
first_holder (some h) later = some h

unfoldable pub search_entries : Machine → Bytes → List (Bytes × Option Bytes) → Option (Bytes × ℕ)
search_entries y want [] = none
search_entries y want ((name, file) ∷ rest) =
    first_holder (holder_of y want name file) (search_entries y want rest)

-- `none` is the result 0
unfoldable pub disk_held_by_session : Machine → Bytes → Option (Bytes × ℕ)
disk_held_by_session y disk =
    let want = real_or_copy y disk in
    if length want == 0 then none else search_entries y want y.entries

abbrev pub log_field : Option Bytes → Bytes
log_field none = codes "}"
log_field (some logpath) = codes ",\"log\":" ++ quoted logpath (codes "}")

-- the line where a session holds the disk, before the emulator is started or, with the log, after its end
unfoldable pub held_line : Bytes → ℕ → Bytes → Option Bytes → Bytes
held_line holder pid disk log =
    codes "{\"ok\":false,\"exit_code\":3,\"error\":\"disk locked by session "
    ++ (holder
        ++ (codes "\",\"session_id\":\""
            ++ (holder
                ++ (codes "\",\"pid\":"
                    ++ (format_int pid ++ (codes ",\"disk\":" ++ quoted disk (log_field log)))))))

unfoldable pub locked_line : Bytes → Bytes → Bytes
locked_line disk logpath =
    codes
      "{\"ok\":false,\"exit_code\":3,\"error\":\"disk image locked by another QEMU process\",\"disk\":"
    ++ quoted disk (log_field (some logpath))

unfoldable pub exited_early_line : Bytes → Bytes
exited_early_line logpath =
    codes "{\"ok\":false,\"exit_code\":3,\"error\":\"QEMU exited early\""
    ++ log_field (some logpath)

-- where the log tells of a lock
unfoldable pub lock_line : Bytes → Bytes → Option (Bytes × ℕ) → Bytes
lock_line disk logpath none = locked_line disk logpath
lock_line disk logpath (some ([], pid)) = locked_line disk logpath
lock_line disk logpath (some (c ∷ holder, pid)) = held_line (c ∷ holder) pid disk (some logpath)

-- a disk that is not given is empty
unfoldable pub exited_line : Machine → Bytes → Bytes → Bool → Bytes
exited_line y disk logpath locked =
    if locked
    then lock_line disk logpath (disk_held_by_session y disk)
    else exited_early_line logpath

-- ===== src/Qmp.antt =====
-- cli/qmp.c: the client of QEMU's control socket, as far as it does not just call the system.
pub mod Keys
pub mod Typing
pub mod Lines
pub mod Session
pub mod Connection
pub mod Ending
pub mod Wire
pub mod Sending
pub mod Handshake
mod Examples
use qemu_mip.Prelude.{
  ℕ, ◌+◌, ◌-◌, Bool, true, false, ◌&&◌, ◌||◌, Option, none, some, List, [], ◌∷◌, ◌++◌, Bytes, codes,
  has, snprintf, ltb, leb, ◌==◌, if◌then◌else◌, length,
}

-- a QEMU key code, and whether Shift is held
abbrev pub Key : Type 0
Key = Bytes × Bool

abbrev plain : Bytes → Option Key
plain code = some (code, false)

abbrev shifted : Bytes → Option Key
shifted code = some (code, true)

-- the `switch` of `map_char`
symbol : ℕ → Option Key
symbol ch =
    if ch == 0x2d  -- -
    then plain (codes "minus")
    else if ch == 0x3d  -- =
    then plain (codes "equal")
    else if ch == 0x5b  -- [
    then plain (codes "bracket_left")
    else if ch == 0x5d  -- ]
    then plain (codes "bracket_right")
    else if ch == 0x5c  -- \
    then plain (codes "backslash")
    else if ch == 0x3b  -- ;
    then plain (codes "semicolon")
    else if ch == 0x27  -- '
    then plain (codes "apostrophe")
    else if ch == 0x2c  -- ,
    then plain (codes "comma")
    else if ch == 0x2e  -- .
    then plain (codes "dot")
    else if ch == 0x2f  -- /
    then plain (codes "slash")
    else if ch == 0x60  -- `
    then plain (codes "grave_accent")
    else if ch == 0x21  -- !
    then shifted (codes "1")
    else if ch == 0x40  -- @
    then shifted (codes "2")
    else if ch == 0x23  -- #
    then shifted (codes "3")
    else if ch == 0x24  -- $
    then shifted (codes "4")
    else if ch == 0x25  -- %
    then shifted (codes "5")
    else if ch == 0x5e  -- ^
    then shifted (codes "6")
    else if ch == 0x26  -- &
    then shifted (codes "7")
    else if ch == 0x2a  -- *
    then shifted (codes "8")
    else if ch == 0x28  -- (
    then shifted (codes "9")
    else if ch == 0x29  -- )
    then shifted (codes "0")
    else if ch == 0x5f  -- _
    then shifted (codes "minus")
    else if ch == 0x2b  -- +
    then shifted (codes "equal")
    else if ch == 0x7b  -- {
    then shifted (codes "bracket_left")
    else if ch == 0x7d  -- }
    then shifted (codes "bracket_right")
    else if ch == 0x7c  -- |
    then shifted (codes "backslash")
    else if ch == 0x3a  -- :
    then shifted (codes "semicolon")
    else if ch == 0x22  -- "
    then shifted (codes "apostrophe")
    else if ch == 0x3c  -- <
    then shifted (codes "comma")
    else if ch == 0x3e  -- >
    then shifted (codes "dot")
    else if ch == 0x3f  -- ?
    then shifted (codes "slash")
    else if ch == 0x7e  -- ~
    then shifted (codes "grave_accent")
    else none

-- `map_char`; `none` is the result -1
unfoldable pub map_char : ℕ → Option Key
unfolding symbol
map_char ch =
    if ch == b'\n' || ch == b'\r'
    then plain (codes "ret")
    else if ch == b'\t'
    then plain (codes "tab")
    else if ch == 8 || ch == 127
    then plain (codes "backspace")
    else if ch == b' '
    then plain (codes "spc")
    else if ch == 27
    then plain (codes "esc")
    else if leb b'a' ch && leb ch b'z'
    then plain (ch ∷ [])
    else if leb b'A' ch && leb ch b'Z'
    then shifted ((ch - b'A' + b'a') ∷ [])
    else if leb b'0' ch && leb ch b'9'
    then plain (ch ∷ [])
    else symbol ch

-- the command that `qc_qmp_send_key` makes of a key code
unfoldable pub send_key_command : Bytes → Bytes
unfolding snprintf
send_key_command code = snprintf 256 (
    codes "{\"execute\":\"send-key\",\"arguments\":{\"keys\":[{\"type\":\"qcode\",\"data\":\""
    ++ (code ++ codes "\"}]}}"))

-- the command that `qc_qmp_type` makes of a key code with Shift
unfoldable pub shift_key_command : Bytes → Bytes
unfolding snprintf
shift_key_command code = snprintf 320 (
    codes
      "{\"execute\":\"send-key\",\"arguments\":{\"keys\":[{\"type\":\"qcode\",\"data\":\"shift\"},{\"type\":\"qcode\",\"data\":\""
    ++ (code ++ codes "\"}]}}"))

-- the results 0, 1 and -1 of `qc_qmp_execute`
pub data Outcome : Type 0 where
  accepted refused io_failed : Outcome

-- The loop of `qc_qmp_execute` over the lines that `qmp_readline` gives; where they end it gives -1.
-- The text is what `out` holds in the end, and the lines are those not yet read.
unfoldable pub await_reply : List Bytes → Bytes → Outcome × Bytes × List Bytes
await_reply [] out = (io_failed, out, [])
await_reply (line ∷ rest) out =
    let skipped = await_reply rest out in
    let waiting = await_reply rest line in
    if has line (codes "\"event\"")
    then skipped
    else if has line (codes "\"error\"")
    then (refused, line, rest)
    else if has line (codes "\"return\"")
    then (accepted, line, rest)
    else waiting

-- `qmp_readline` takes a byte at a time: a byte, EINTR, an error, or the end of the stream.
pub data Input : Type 0 where
  byte : ℕ → Input
  interrupted : Input
  broken : Input
  closed : Input

-- The loop of `qmp_readline`, with `n` being `length line`: the line, or `none` for -1, and what was
-- not read. An input that ends stands for a stream that ends.
unfoldable pub read_line : ℕ → List Input → Bytes → Option Bytes × List Input
read_line buflen [] line =
    if leb buflen (length line + 1)
    then (some line, [])
    else (if length line == 0 then none else some line, [])
read_line buflen (byte c ∷ rest) line =
    let next = read_line buflen rest (if c == b'\r' then line else line ++ c ∷ []) in
    if leb buflen (length line + 1)
    then (some line, byte c ∷ rest)
    else if c == b'\n'
    then (some line, rest)
    else next
read_line buflen (interrupted ∷ rest) line =
    let next = read_line buflen rest line in
    if leb buflen (length line + 1) then (some line, interrupted ∷ rest) else next
read_line buflen (broken ∷ rest) line =
    if leb buflen (length line + 1) then (some line, broken ∷ rest) else (none, rest)
read_line buflen (closed ∷ rest) line =
    if leb buflen (length line + 1)
    then (some line, closed ∷ rest)
    else (if length line == 0 then none else some line, rest)

-- `execute` is `qc_qmp_execute` on the connection and the guest behind it, by its result.
module _ {S : Type 0} (execute : Bytes → S → Outcome × S) where
  abbrev is_accepted : Outcome → Bool
  is_accepted accepted = true
  is_accepted _ = false

  unfoldable pub send_key : Bytes → S → Outcome × S
  send_key code s = if length code == 0 then (io_failed, s) else execute (send_key_command code) s

  -- one round of `qc_qmp_type`, from the mapped character on
  unfoldable pub type_key : Option Key → S → Bool × S
  unfolding send_key
  type_key none s = (false, s)
  type_key (some (code, shift)) s =
      let (r, t) = if shift then execute (shift_key_command code) s else send_key code s in
      (is_accepted r, t)

  -- `qc_qmp_type`, less the pauses: whether the result is 0
  unfoldable pub type_text : Bytes → S → Bool × S
  unfolding type_key
  type_text [] s = (true, s)
  type_text (c ∷ text) s =
      let (typed, t) = type_key (map_char c) s in
      let rest = type_text text t in if typed then rest else (false, t)

  -- `qc_qmp_type_line`
  unfoldable pub type_line : Bytes → Bool → S → Bool × S
  unfolding type_text send_key
  type_line text enter s =
      let (typed, t) = type_text text s in
      let (r, u) = send_key (codes "ret") t in
      if typed then (if enter then (is_accepted r, u) else (true, t)) else (false, t)

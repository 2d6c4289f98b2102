-- ===== src/Qmp/Connection.antt =====
-- A connection to QEMU's control socket, from the system calls of cli/qmp.c up: `connect_unix`,
-- `qmp_write_line`, `qc_qmp_connect`, `qc_qmp_close`, `qc_qmp_execute` and `qc_qmp_quit`.
use qemu_mip.Prelude.{
  ℕ, zero, suc, ◌+◌, Bool, true, false, ◌||◌, Option, none, some, List, [], ◌∷◌, ◌++◌, Bytes, codes,
  c_str, has, snprintf, ◌==◌, if◌then◌else◌, length,
}
use qemu_mip.Qmp.{Outcome, accepted, refused, io_failed, Input, read_line}

-- An open descriptor: what the reads of it will give, whether the n-th `write` to it takes all that
-- it is given, how many there were, the bytes they took, and whether it has not been closed.
pub record Conn : Type 0 where
  pub input : List Input
  pub writes : ℕ → Bool
  pub count : ℕ
  pub sent : Bytes
  pub is_open : Bool

-- one `write` of all the bytes; what a short one took does not count, since the caller gives up then
unfoldable pub write_all : Bytes → Conn → Bool × Conn
write_all bytes c =
    if c.writes c.count
    then (true, record c { count = c.count + 1; sent = c.sent ++ bytes })
    else (false, record c { count = c.count + 1 })

-- whether the result is 0
unfoldable pub qmp_write_line : Bytes → Conn → Bool × Conn
qmp_write_line line c =
    let (whole, c') = write_all line c in
    let ended = write_all (b'\n' ∷ []) c' in if whole then ended else (false, c')

-- a line as a C string, in a buffer of 8192 bytes; and what is not read
unfoldable pub next_line : List Input → Option Bytes × List Input
next_line input = read_line 8192 input []

-- One round of the loop of `qc_qmp_execute`: `out` is what the caller's buffer holds, `rest` is not
-- read yet, and `later` is the next round.
unfoldable pub reply_on :
    ℕ
    → Bytes
    → List Input
    → (Bytes → Outcome × Bytes × List Input)
    → Option Bytes
    → Outcome × Bytes × List Input
reply_on out_len out rest later none = (io_failed, out, rest)
reply_on out_len out rest later (some raw) =
    let line = c_str raw in
    let out' = if out_len == 0 then out else snprintf out_len line in
    if has line (codes "\"event\"")
    then later out
    else if has line (codes "\"error\"")
    then (refused, out', rest)
    else if has line (codes "\"return\"")
    then (accepted, out', rest)
    else later out'

-- The loop, with so many rounds at most: the result, what `out` holds, and what is not read.
unfoldable pub reply_loop : ℕ → ℕ → List Input → Bytes → Outcome × Bytes × List Input
unfolding reply_on
reply_loop zero out_len input out = (io_failed, out, input)
reply_loop (suc n) out_len input out =
    let (answer, rest) = next_line input in
    reply_on out_len out rest (λ out'. reply_loop n out_len rest out') answer

-- a round for each of the bytes and one for the end of the stream
unfoldable pub execute : ℕ → Bytes → Bytes → Conn → Outcome × Bytes × Conn
execute out_len out cmd_json c =
    let (written, c') = qmp_write_line cmd_json c in
    let (r, out', rest) = reply_loop (suc (length c'.input)) out_len c'.input out in
    if written then (r, out', record c' { input = rest }) else (io_failed, out, c')

unfoldable pub quit_on : List Input → Outcome × List Input → Option Bytes → Outcome × List Input
quit_on rest later none = (accepted, rest)
quit_on rest later (some raw) =
    let line = c_str raw in
    if has line (codes "SHUTDOWN") || has line (codes "\"return\"")
    then (accepted, rest)
    else if has line (codes "\"error\"")
    then (refused, rest)
    else later

-- The loop of `qc_qmp_quit`, with so many rounds left.
unfoldable pub quit_loop : ℕ → List Input → Outcome × List Input
unfolding quit_on
quit_loop zero input = (accepted, input)
quit_loop (suc n) input =
    let (answer, rest) = next_line input in quit_on rest (quit_loop n rest) answer

unfoldable pub quit : Conn → Outcome × Conn
quit c =
    let (written, c') = qmp_write_line (codes "{\"execute\":\"quit\"}") c in
    let (r, rest) = quit_loop 32 c'.input in
    if written then (r, record c' { input = rest }) else (io_failed, c')

unfoldable pub qc_qmp_close : Conn → Conn
qc_qmp_close c = record c { is_open = false }

-- what `qc_qmp_connect` ends with: no descriptor, one that it has given up, or a connection
pub data Connected : Type 0 where
  no_socket : Connected
  given_up : Conn → Connected
  linked : Conn → Connected

unfoldable pub await_on :
    List Input → Option Bytes × List Input → Option Bytes → Option Bytes × List Input
await_on rest later none = (none, rest)
await_on rest later (some raw) =
    let line = c_str raw in
    if has line (codes "\"return\"") || has line (codes "\"error\"")
    then (some line, rest)
    else later

-- The loop for the answer to `qmp_capabilities`, with so many rounds at most: the line, if one is read.
unfoldable pub await_capabilities : ℕ → List Input → Option Bytes × List Input
unfolding await_on
await_capabilities zero input = (none, input)
await_capabilities (suc n) input =
    let (answer, rest) = next_line input in await_on rest (await_capabilities n rest) answer

unfoldable pub judged : Option Bytes → Conn → Connected
unfolding qc_qmp_close
judged none c = given_up (qc_qmp_close c)
judged (some line) c = if has line (codes "\"error\"") then given_up (qc_qmp_close c) else linked c

-- from the greeting on
unfoldable pub greeted : Option Bytes → Conn → Connected
greeted none c = given_up (qc_qmp_close c)
greeted (some raw) c =
    let (written, c') = qmp_write_line (codes "{\"execute\":\"qmp_capabilities\"}") c in
    let (answer, rest) = await_capabilities (suc (length c'.input)) c'.input in
    if has (c_str raw) (codes "\"QMP\"")
    then (if written
        then judged answer (record c' { input = rest })
        else given_up (qc_qmp_close c'))
    else given_up (qc_qmp_close c)

unfoldable pub opened : Option Conn → Connected
opened none = no_socket
opened (some c) =
    let (greeting, rest) = next_line c.input in greeted greeting (record c { input = rest })

-- `dial` is `connect_unix`: a new descriptor, or `none` for -1
unfoldable pub qc_qmp_connect : (Bytes → Option Conn) → Bytes → Connected
unfolding opened
qc_qmp_connect dial path = if length path == 0 then no_socket else opened (dial path)

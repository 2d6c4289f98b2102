-- ===== src/Server.antt =====
-- plugin/server.c: the control socket. One client at a time sends lines, and each is answered before the
-- next is read. The system calls are the environment's: what each returns is an argument.
pub mod Framing
pub mod Io
pub mod Step
pub mod Life
pub mod Held
pub mod Balance
mod Examples
use qemu_mip.Prelude.{
  ℕ, ◌+◌, Bool, true, false, ◌&&◌, ◌||◌, Option, none, some, List, [], ◌∷◌, ◌++◌, Bytes, c_str,
  is_some, ltb, leb, ◌==◌, if◌then◌else◌, length,
}
use qemu_mip.Protocol.Console.{resp_max}

-- QC_SERVER_MAX_LINE, the size of `line_buf`
abbrev pub max_line : ℕ
max_line = 8192

-- The fields of `struct qc_server` that change while it runs: `client_fd`, where -1 is `none`, and
-- the first `line_len` bytes of `line_buf`.
pub record Server : Type 0 where
  pub client : Option ℕ
  pub line : Bytes

unfoldable pub close_client : Server → Server
close_client s = record { client = none; line = [] }

abbrev pub connected : Server → Bool
connected s = is_some s.client

-- A line without the carriage returns and line feeds at its end. Its length is the index at which
-- `handle_complete_line` writes the NUL.
unfoldable pub strip_end : Bytes → Bytes
strip_end [] = []
strip_end (c ∷ s) =
    let r = strip_end s in if length r == 0 && (c == b'\r' || c == b'\n') then [] else c ∷ r

-- the answer with its line feed, if that and the NUL fit the buffer
unfoldable pub terminated : Bytes → Bytes
terminated resp = if ltb (length resp + 1) resp_max then resp ++ b'\n' ∷ [] else resp

-- `respond` is `qc_protocol_handle` on the state `H` behind it, and `send` is `write_all` to the
-- client, which fails or not.
module _ {H : Type 0} (respond : Bytes → H → Bytes × H) (send : Bytes → H → Bool × H) where
  unfoldable pub handle_complete_line : Server → H → Server × H
  unfolding strip_end terminated close_client
  handle_complete_line s h =
      let (resp, h') = respond (c_str (strip_end s.line)) h in
      let (sent, h'') = send (terminated resp) h' in
      (if sent then record s { line = [] } else close_client s, h'')

  unfoldable pub feed_client_bytes : Bytes → Server → H → Server × H
  unfolding close_client
  feed_client_bytes [] s h = (s, h)
  feed_client_bytes (c ∷ cs) s h =
      let done = handle_complete_line s h in
      let after_line = feed_client_bytes cs done.0 done.1 in
      let after_byte = feed_client_bytes cs (record s { line = s.line ++ c ∷ [] }) h in
      if c == b'\n'
      then (if connected done.0 then after_line else done)
      else if leb max_line (length s.line)
      then (close_client s, h)
      else after_byte

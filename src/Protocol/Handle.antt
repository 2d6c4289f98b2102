-- ===== src/Protocol/Handle.antt =====
-- `emit_console` and `qc_protocol_handle` of plugin/protocol.c.
use qemu_mip.Hypercall.{State, snapshot, take_event}
use qemu_mip.Mem.{Counters}
use qemu_mip.Prelude.{
  ℕ, ◌+◌, ◌*◌, Bool, ◌||◌, not, Option, none, some, Bytes, [], codes, has, snprintf, ltb, leb, ◌==◌,
  if◌then◌else◌, length, take,
}
use qemu_mip.Protocol.Escape.{json_escape}
use qemu_mip.Protocol.Fields.{has_cmd, has_refresh_true, parse_u64_field}
use qemu_mip.Protocol.Host.{Ctx, Host, Env, exchange, with_buffer}
use qemu_mip.Protocol.Print.{hex_encode}
use qemu_mip.Protocol.Replies.{
  error_reply, hw_failed_reply, range_error, ping_reply, version_reply, status_reply,
  no_event_reply, event_reply, console_head, console_reply, mem_reply,
}
use qemu_mip.Queue.{
  Status, ok, timeout, hw_fail, busy, disabled, bad_arg, Result, mem_read_max, timeout_ms_of,
}
use qemu_mip.Queue.System.{System, refresh, read_mem}
use qemu_mip.Vga.{Vga, snapshot_text, count_writes}

-- `sizeof(text)` and `sizeof(esc)` in `emit_console`
abbrev pub text_size : ℕ
text_size = 2033

abbrev pub esc_size : ℕ
esc_size = 12512

-- A reply that does not fit `out_len` bytes is replaced by an error.
unfoldable pub reply_or : ℕ → Bytes → Bytes → Bytes
reply_or out_len too_large text =
    if leb out_len (length text)
    then snprintf out_len (error_reply too_large)
    else snprintf out_len text

-- `emit_console` from the escaped text on
unfoldable pub console_answer : ℕ → Bytes → Option Bytes → Bytes
console_answer out_len head none = snprintf out_len (error_reply (codes "console escape overflow"))
console_answer out_len head (some esc) =
    reply_or out_len (codes "console response too large") (console_reply head esc)

-- `emit_console`, where `vga` is not NULL: the answer, and the screen with `dirty` cleared
unfoldable pub emit_console : ℕ → Bytes → Counters → Vga → Bytes × Vga
emit_console out_len source counters vga =
    let (text, vga') = snapshot_text vga text_size in
    (
      console_answer out_len (console_head (count_writes vga') (length text) source counters)
          (json_escape text esc_size),
      vga',
    )

unfoldable pub with_sys : Host → System → Host
with_sys h sys = record h { sys = sys }

unfoldable pub console_of : ℕ → Bytes → Host → Bytes × Host
console_of out_len source h =
    let (reply, vga) = emit_console out_len source h.counters h.sys.vga in
    (reply, with_sys h (record (h.sys) { vga = vga }))

-- what `get_console` does with the status and code of a refresh
unfoldable pub refreshed : ℕ → Status → ℕ → Host → Bytes × Host
refreshed out_len timeout code h = (snprintf out_len (error_reply (codes "vcpu_idle_timeout")), h)
refreshed out_len busy code h = (snprintf out_len (error_reply (codes "vcpu_idle_timeout")), h)
refreshed out_len hw_fail code h = (snprintf out_len (hw_failed_reply code), h)
refreshed out_len ok code h = console_of out_len (codes "refresh") h
refreshed out_len disabled code h = (snprintf out_len (error_reply (codes "refresh failed")), h)
refreshed out_len bad_arg code h = (snprintf out_len (error_reply (codes "refresh failed")), h)

-- the branch for `get_console`
unfoldable pub get_console : ℕ → Bytes → Ctx → Env → Host → Bytes × Host
get_console out_len line ctx env h =
    if not ctx.has_vga
    then (snprintf out_len (error_reply (codes "vga unavailable")), h)
    else if has_refresh_true line
    then (if not ctx.vga_refresh_enabled || not ctx.has_queue
        then (snprintf out_len (error_reply (codes "refresh disabled")), h)
        else (let (r, sys) = exchange h.sys refresh env.events in
            refreshed out_len r.status r.hw_code (with_sys h sys)))
    else console_of out_len (codes "shadow") h

abbrev pub contents : Option Bytes → Bytes
contents none = []
contents (some bytes) = bytes

-- what `mem_read` answers, by the status; the buffer that the bytes are taken from has been read
-- into, and a read of it past its end is cut there
unfoldable pub mem_answer : ℕ → ℕ → Bool → Bytes → Result → Status → Bytes
mem_answer out_len phys hex_ok buf r timeout =
    snprintf out_len (error_reply (codes "vcpu_idle_timeout"))
mem_answer out_len phys hex_ok buf r busy =
    snprintf out_len (error_reply (codes "vcpu_idle_timeout"))
mem_answer out_len phys hex_ok buf r hw_fail = snprintf out_len (hw_failed_reply r.hw_code)
mem_answer out_len phys hex_ok buf r disabled = snprintf out_len (hw_failed_reply r.hw_code)
mem_answer out_len phys hex_ok buf r bad_arg = snprintf out_len (hw_failed_reply r.hw_code)
mem_answer out_len phys hex_ok buf r ok =
    if not hex_ok
    then snprintf out_len (error_reply (codes "oom"))
    else reply_or out_len (codes "mem_read response too large")
        (mem_reply phys r.data_len (hex_encode (take r.data_len buf) (r.data_len * 2 + 1)))

-- `mem_read` with a length in range, from the first `malloc` on
unfoldable pub mem_read_into : ℕ → ℕ → ℕ → Env → Option (ℕ × Bytes) → Host → Bytes × Host
mem_read_into out_len phys len env none h = (snprintf out_len (error_reply (codes "oom")), h)
mem_read_into out_len phys len env (some (b, junk)) h =
    let (r, sys) =
      exchange (with_buffer h.sys b (some junk)) (read_mem phys len (some b)) env.events in
    (
      mem_answer out_len phys env.hex_ok (contents (sys.bufs b)) r r.status,
      with_sys h (with_buffer sys b none),
    )

-- `mem_read` from the parsed fields on
unfoldable pub mem_read_fields : ℕ → Env → Option ℕ → Option ℕ → Host → Bytes × Host
mem_read_fields out_len env none len h =
    (snprintf out_len (error_reply (codes "mem_read requires phys and len")), h)
mem_read_fields out_len env (some phys) none h =
    (snprintf out_len (error_reply (codes "mem_read requires phys and len")), h)
mem_read_fields out_len env (some phys) (some len) h =
    if len == 0 || ltb mem_read_max len
    then (snprintf out_len (error_reply range_error), h)
    else mem_read_into out_len phys len env env.buf h

-- the branch for `mem_read`
unfoldable pub mem_read : ℕ → Bytes → Ctx → Env → Host → Bytes × Host
mem_read out_len line ctx env h =
    if not ctx.has_queue
    then (snprintf out_len (error_reply (codes "queue unavailable")), h)
    else mem_read_fields out_len env (parse_u64_field line (codes "phys"))
        (parse_u64_field line (codes "len")) h

unfoldable pub agent_event : ℕ → Option State → Bytes
agent_event out_len none = snprintf out_len no_event_reply
agent_event out_len (some st) = snprintf out_len (event_reply st)

unfoldable pub get_agent_event : ℕ → Host → Bytes × Host
get_agent_event out_len h =
    let (taken, hc) = take_event h.hc in (agent_event out_len taken, record h { hc = hc })

unfoldable pub version : ℕ → Ctx → Host → Bytes
version out_len ctx h = snprintf out_len (
    version_reply h.counters ctx.vga_refresh_enabled
      (if ctx.has_queue then timeout_ms_of (some h.sys.q) else timeout_ms_of none))

unfoldable pub status : ℕ → Ctx → Host → Bytes
status out_len ctx h = snprintf out_len (
    status_reply ctx.socket_thread ctx.vga_enabled ctx.vga_refresh_enabled ctx.hypercall_enabled
      (if ctx.has_vga then count_writes h.sys.vga else 0) h.counters (snapshot h.hc))

-- `qc_protocol_handle` for a `ctx` that is not NULL and an `out` of `out_len` bytes: the text that it
-- leaves in `out`
unfoldable pub handle : ℕ → Bytes → Ctx → Env → Host → Bytes × Host
handle out_len line ctx env h =
    if out_len == 0
    then ([], h)
    else if length line == 0
    then (snprintf out_len (error_reply (codes "empty request")), h)
    else if has_cmd line (codes "ping") || has line (codes "\"ping\"")
    then (snprintf out_len ping_reply, h)
    else if has_cmd line (codes "version")
    then (version out_len ctx h, h)
    else if has_cmd line (codes "status")
    then (status out_len ctx h, h)
    else if has_cmd line (codes "get_agent_event")
    then get_agent_event out_len h
    else if has_cmd line (codes "get_console")
    then get_console out_len line ctx env h
    else if has_cmd line (codes "mem_read")
    then mem_read out_len line ctx env h
    else (snprintf out_len (error_reply (codes "unknown or unimplemented cmd")), h)

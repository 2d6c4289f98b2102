-- ===== src/Protocol/Console.antt =====
-- `emit_console` of plugin/protocol.c: the screen always fits its buffers.
use qemu_mip.Mem.{Counters}
use qemu_mip.Prelude.{
  ℕ, ◌+◌, ◌-◌, ◌≤◌, ◌<◌, ◌≡◌, ◌∙◌, ap, false, Bytes, arith, c_str, snprintf, length, length-append,
  lt→ltb, take-eq_of_length-le,
}
use qemu_mip.Protocol.Escape.{json_escape_lem, escaped, length-escaped, length-c_str}
use qemu_mip.Protocol.Handle.{reply_or, console_answer, emit_console, text_size, esc_size}
use qemu_mip.Protocol.Print.{length-format}
use qemu_mip.Protocol.Replies.{console_head, console_reply, mem_cb_fields}
use qemu_mip.Vga.{Vga, snapshot_text, count_writes}
use qemu_mip.Vga.Layout.{length-screen}
use qemu_mip.Vga.Snapshot.{screen, snapshot_text_lem}

-- QEMU_CONNECT_RESP_MAX
abbrev pub resp_max : ℕ
resp_max = 32768

length-mem_cb_fields : (c : Counters) → length (mem_cb_fields c) ≤ 100
unfolding mem_cb_fields
length-mem_cb_fields c = omega (arith, length-append {0}, length-format)

length-console_head :
    (writes text_len : ℕ) (source : Bytes) (c : Counters)
    → length (console_head writes text_len source c) ≤ 300 + length source
unfolding console_head
length-console_head writes text_len source c =
    omega (arith, length-append {0}, length-format, length-mem_cb_fields c)

length-console_reply :
    (head esc : Bytes) → length (console_reply head esc) ≡ length head + length esc + 11
unfolding console_reply
length-console_reply head esc = omega (arith, length-append {0})

pub reply_or_fits :
    (out_len : ℕ) (m text : Bytes) → length text < out_len → reply_or out_len m text ≡ text
unfolding reply_or snprintf
reply_or_fits out_len m text h = ground (arith, take-eq_of_length-le (out_len - 1) text)

snapshot_all :
    (vga : Vga) → snapshot_text vga text_size ≡ (screen vga.text, record vga { dirty = false })
snapshot_all vga =
    snapshot_text_lem vga text_size (omega arith)
    ∙ ap (λ (t : Bytes). let r : Bytes × Vga = (t, record vga { dirty = false }) in r)
        (take-eq_of_length-le 2032 (screen vga.text) (omega (arith, length-screen vga.text)))

-- With the server's buffer of 32 KiB the answer is the whole console reply: neither the overflow of
-- the escape buffer nor "response too large" can happen, whatever bytes the screen holds. Its text is
-- the escape of the 25 lines, up to the first NUL among them.
pub emit_console_lem :
    (source : Bytes) (c : Counters) (vga : Vga)
    → length source ≤ 7
    → (emit_console resp_max source c vga).0
      ≡ console_reply
          (console_head vga.write_count 2024 source c)
          (escaped (c_str (screen vga.text)))
unfolding emit_console console_answer count_writes
emit_console_lem source c vga short =
    let text = screen vga.text in
    let esc = escaped (c_str text) in
    let fits : length esc < esc_size =
      omega (arith, length-escaped (c_str text), length-c_str text, length-screen vga.text) in
    let head = console_head vga.write_count 2024 source c in
    rw (snapshot_all vga, length-screen, json_escape_lem, lt→ltb _ _ fits)
      (reply_or_fits resp_max _ (console_reply head esc) (
        omega (
          arith,
          length-console_reply head esc,
          length-console_head vga.write_count 2024 source c,
          fits,
        )))

-- ===== src/Cli/Screen.antt =====
-- The client of cli/main.c shows the screen that the plugin of plugin/protocol.c sent.
use qemu_mip.Cli.{skip, extract, extract_text_field, text_key}
use qemu_mip.Mem.{Counters}
use qemu_mip.Prelude.{
  ℕ, ◌+◌, ◌<◌, ◌≡◌, ◌≢◌, refl, ◌∙◌, ap, ◌&&◌, ◌||◌, not, some, Bytes, [], ◌∷◌, ◌++◌, append-nil,
  append_assoc, codes, arith, c_str, strstr, starts_with, ltb, ◌==◌, if◌then◌else◌, length,
  length-append, All, All-map, map,
}
use qemu_mip.Protocol.Escape.{piece, hex_digit, escaped}
use qemu_mip.Protocol.Print.{format, IsDigit, format-IsDigit}
use qemu_mip.Protocol.Console.{resp_max, emit_console_lem}
use qemu_mip.Protocol.Escape.{length-c_str}
use qemu_mip.Protocol.Handle.{emit_console}
use qemu_mip.Vga.{Vga}
use qemu_mip.Vga.Layout.{length-screen}
use qemu_mip.Vga.Snapshot.{screen}
use qemu_mip.Protocol.Replies.{console_head, console_reply, mem_cb_fields}

-- what the client shows for a byte of the screen: itself, or `?` for a control character that JSON
-- writes as \uXXXX
unfoldable pub shown : ℕ → ℕ
shown c = if ltb c 0x20 && not (c == b'\n' || c == b'\r' || c == b'\t') then b'?' else c

extract-piece :
    (dst_len c : ℕ) (s out : Bytes)
    → length out + 1 < dst_len
    → extract dst_len (skip 0) (piece c ++ s) out ≡ extract dst_len (skip 0) s (out ++ shown c ∷ [])
unfolding extract piece shown hex_digit
extract-piece dst_len c s out h = ground arith

pub extract-escaped :
    (dst_len : ℕ) (s rest out : Bytes)
    → length out + length s < dst_len
    → extract dst_len (skip 0) (escaped s ++ b'"' ∷ rest) out ≡ out ++ map shown s
unfolding extract
extract-escaped dst_len [] rest out h = ground (arith, append-nil out)
extract-escaped dst_len (c ∷ s) rest out h = rw (append_assoc (piece c) (escaped s) (b'"' ∷ rest)) (
    extract-piece dst_len c (escaped s ++ b'"' ∷ rest) out (omega arith)
    ∙ extract-escaped dst_len s rest (out ++ shown c ∷ [])
        (omega (arith, length-append out (shown c ∷ [])))
    ∙ append_assoc out (shown c ∷ []) (map shown s))

-- not a quotation mark, at which the key could begin
abbrev IsPlain : ℕ → Type 0
IsPlain c = c ≢ b'"'

strstr-digits :
    (digits t : Bytes) → All IsPlain digits → strstr (digits ++ t) text_key ≡ strstr t text_key
unfolding strstr starts_with
strstr-digits [] t h = refl
strstr-digits (c ∷ s) t h = ground (arith, strstr-digits s t h.1)

format-IsPlain : (n : ℕ) → All IsPlain (format n)
format-IsPlain n =
    All-map {P = IsDigit} {Q = IsPlain} (λ c h. omega arith) (format n) (format-IsDigit n)

strstr-format : (n : ℕ) (t : Bytes) → strstr (format n ++ t) text_key ≡ strstr t text_key
strstr-format n t = strstr-digits (format n) t (format-IsPlain n)

pub strstr-console_reply :
    (writes text_len : ℕ) (c : Counters) (esc : Bytes)
    → strstr (console_reply (console_head writes text_len (codes "shadow") c) esc) text_key
      ≡ some (text_key ++ (esc ++ codes "\"}}"))
unfolding strstr starts_with console_reply console_head mem_cb_fields
strstr-console_reply writes text_len c esc = simp (strstr-format, append_assoc)

-- The client of `get_console --text-only`, whose buffer has 2033 bytes, prints the screen of the plugin
-- line by line: each character up to the first NUL, with `?` for a control character other than
-- line feed, carriage return and tab.
pub extract_text_field-emit_console :
    (c : Counters) (vga : Vga)
    → extract_text_field (emit_console resp_max (codes "shadow") c vga).0 2033
      ≡ some (map shown (c_str (screen vga.text)))
unfolding extract_text_field
extract_text_field-emit_console c vga =
    let esc = escaped (c_str (screen vga.text)) in
    rw (emit_console_lem (codes "shadow") c vga (omega arith), strstr-console_reply)
      (ap some (
        extract-escaped 2033 (c_str (screen vga.text)) (codes "}}") []
          (omega (arith, length-c_str (screen vga.text), length-screen vga.text))))

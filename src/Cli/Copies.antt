-- ===== src/Cli/Copies.antt =====
-- `extract_text` of cli/run.c, which cli/session.c has too: a copy of `extract_text_field` of cli/main.c
-- without the case for \u.
use qemu_mip.Cli.{unescape, is_nil, text_key}
use qemu_mip.Cli.Screen.{strstr-console_reply}
use qemu_mip.Mem.{Counters}
use qemu_mip.Prelude.{
  ℕ, ◌+◌, ◌<◌, ◌≤◌, ◌≡◌, ◌⊎◌, ◌∙◌, ap, ◌&&◌, not, Bool, true, false, Option, none, some, Bytes, [],
  ◌∷◌, ◌++◌, append-nil, append_assoc, codes, arith, c_str, strstr, leb, ◌==◌, if◌then◌else◌,
  length, drop, length-append, All,
}
use qemu_mip.Protocol.Console.{resp_max, emit_console_lem}
use qemu_mip.Protocol.Escape.{piece, hex_digit, escaped, length-c_str}
use qemu_mip.Protocol.Handle.{emit_console}
use qemu_mip.Vga.{Vga}
use qemu_mip.Vga.Layout.{length-screen}
use qemu_mip.Vga.Snapshot.{screen}

-- the loop; the flag says that a backslash has just been passed
unfoldable pub extract_plain : ℕ → Bool → Bytes → Bytes → Bytes
unfolding unescape
extract_plain dst_len true [] out = out
extract_plain dst_len true (c ∷ s) out = extract_plain dst_len false s (out ++ unescape c ∷ [])
extract_plain dst_len false [] out = out
extract_plain dst_len false (c ∷ s) out =
    let behind = extract_plain dst_len true s out in
    let copy = extract_plain dst_len false s (out ++ c ∷ []) in
    if leb dst_len (length out + 1)
    then out
    else if c == b'\\' && not (is_nil s)
    then behind
    else if c == b'"'
    then out
    else copy

-- `none` is the result -1
unfoldable pub extract_text : Bytes → ℕ → Option Bytes
unfolding extract_plain
extract_text json dst_len = if dst_len == 0 then none else elim (strstr json text_key) [
  | none ↦ none
  | some p ↦ some (extract_plain dst_len false (drop (length text_key) p) [])
]

-- a character that JSON does not write as \u
abbrev pub IsText : ℕ → Type 0
IsText c = (32 ≤ c) ⊎ ((c ≡ b'\n') ⊎ ((c ≡ b'\r') ⊎ (c ≡ b'\t')))

extract_plain-piece :
    (dst_len c : ℕ) (s out : Bytes)
    → IsText c
    → length out + 1 < dst_len
    → extract_plain dst_len false (piece c ++ s) out ≡ extract_plain dst_len false s (out ++ c ∷ [])
unfolding extract_plain piece hex_digit
extract_plain-piece dst_len c s out text h = ground arith

extract_plain-escaped :
    (dst_len : ℕ) (s rest out : Bytes)
    → All IsText s
    → length out + length s < dst_len
    → extract_plain dst_len false (escaped s ++ b'"' ∷ rest) out ≡ out ++ s
unfolding extract_plain
extract_plain-escaped dst_len [] rest out text h = ground (arith, append-nil out)
extract_plain-escaped dst_len (c ∷ s) rest out text h =
    rw (append_assoc (piece c) (escaped s) (b'"' ∷ rest)) (
      extract_plain-piece dst_len c (escaped s ++ b'"' ∷ rest) out text.0 (omega arith)
      ∙ extract_plain-escaped dst_len s rest (out ++ c ∷ []) text.1
          (omega (arith, length-append out (c ∷ [])))
      ∙ append_assoc out (c ∷ []) s)

-- The client of a run or a session, whose buffer has 2033 bytes, gets the screen of the plugin line by
-- line up to the first NUL, provided that it has no control character but line feed, carriage
-- return and tab.
pub extract_text-emit_console :
    (c : Counters) (vga : Vga)
    → All IsText (c_str (screen vga.text))
    → extract_text (emit_console resp_max (codes "shadow") c vga).0 2033
      ≡ some (c_str (screen vga.text))
unfolding extract_text
extract_text-emit_console c vga text =
    rw (emit_console_lem (codes "shadow") c vga (omega arith), strstr-console_reply)
      (ap some (
        extract_plain-escaped 2033 (c_str (screen vga.text)) (codes "}}") [] text
          (omega (arith, length-c_str (screen vga.text), length-screen vga.text))))

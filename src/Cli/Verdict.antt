-- ===== src/Cli/Verdict.antt =====
-- The test of `get_console --text-only` for an answer that tells of an error, `strstr(buf, "\"ok\":false")` of
-- cli/main.c, and the search for the text, on an answer with a screen.
use qemu_mip.Cli.{text_key}
use qemu_mip.Mem.{Counters}
use qemu_mip.Prelude.{
  ℕ, ◌≡◌, ◌≢◌, refl, false, some, Bytes, [], ◌∷◌, ◌++◌, append_assoc, codes, arith, strstr,
  starts_with, All, All-map,
}
use qemu_mip.Protocol.Escape.{piece, hex_digit, escaped}
use qemu_mip.Protocol.Print.{format, IsDigit, format-IsDigit}
use qemu_mip.Protocol.Replies.{console_head, console_reply, mem_cb_fields}

abbrev pub error_mark : Bytes
error_mark = codes "\"ok\":false"

-- not a quotation mark, at which the mark could begin
abbrev IsPlain : ℕ → Type 0
IsPlain c = c ≢ b'"'

strstr-plain : (w t p : Bytes) → All IsPlain w → strstr (w ++ t) (b'"' ∷ p) ≡ strstr t (b'"' ∷ p)
unfolding strstr starts_with
strstr-plain [] t p h = refl
strstr-plain (c ∷ w) t p h = ground (arith, strstr-plain w t p h.1)

strstr-format : (n : ℕ) (t p : Bytes) → strstr (format n ++ t) (b'"' ∷ p) ≡ strstr t (b'"' ∷ p)
strstr-format n t p =
    strstr-plain (format n) t p
      (All-map {P = IsDigit} {Q = IsPlain} (λ c h. omega arith) (format n) (format-IsDigit n))

-- what stands behind the escaped text
abbrev pub closing : Bytes → Bytes
closing t = codes "\"}}" ++ t

no_colon : (s t p : Bytes) → starts_with (escaped s ++ closing t) (codes "\":" ++ p) ≡ false
unfolding starts_with piece
no_colon [] t p = refl
no_colon (c ∷ s) t p = ground arith

no_k : (s t p : Bytes) → starts_with (escaped s ++ closing t) (codes "k\":" ++ p) ≡ false
unfolding starts_with piece
no_k [] t p = refl
no_k (c ∷ s) t p = ground (arith, no_colon s t p)

no_ok : (s t p : Bytes) → starts_with (escaped s ++ closing t) (codes "ok\":" ++ p) ≡ false
unfolding starts_with piece
no_ok [] t p = refl
no_ok (c ∷ s) t p = ground (arith, no_k s t p)

-- the escape of a text has no such mark, not even where the text has it
strstr-escaped :
    (s t : Bytes) → strstr (escaped s ++ closing t) error_mark ≡ strstr (closing t) error_mark
unfolding strstr starts_with piece hex_digit
strstr-escaped [] t = refl
strstr-escaped (c ∷ s) t = ground (arith, strstr-escaped s t, no_ok s t (codes "false"))

pub strstr-console_mark :
    (writes text_len : ℕ) (c : Counters) (s t : Bytes)
    → strstr
        (console_reply (console_head writes text_len (codes "shadow") c) (escaped s) ++ t)
        error_mark
      ≡ strstr t error_mark
unfolding strstr starts_with console_reply console_head mem_cb_fields
strstr-console_mark writes text_len c s t =
    simp (strstr-format, append_assoc) (rw (no_ok s t (codes "false"), strstr-escaped s t) refl)

pub strstr-console_text :
    (writes text_len : ℕ) (c : Counters) (esc t : Bytes)
    → strstr (console_reply (console_head writes text_len (codes "shadow") c) esc ++ t) text_key
      ≡ some (text_key ++ (esc ++ closing t))
unfolding strstr starts_with console_reply console_head mem_cb_fields
strstr-console_text writes text_len c esc t = simp (strstr-format, append_assoc)

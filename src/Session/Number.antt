-- ===== src/Session/Number.antt =====
-- The number of the process in the file of cli/session.c, printed and read back.
use qemu_mip.Prelude.{
  ℕ, ◌+◌, ◌-◌, ◌*◌, ◌^◌, ◌<◌, ◌≡◌, refl, ◌∙◌, ap, true, some, [], ◌∷◌, ◌++◌, Bytes, arith, ltb,
  ◌==◌, length, All,
}
use qemu_mip.Protocol.Fields.{scan, number, digit_value, skip, is_space}
use qemu_mip.Protocol.Print.{
  format, IsDigit, format-IsDigit, value, value-format, length-format_pos,
}
use qemu_mip.Session.{strtol}

digit_value-digit : (c : ℕ) → IsDigit c → digit_value c ≡ c - b'0'
unfolding digit_value
digit_value-digit c h = ground arith

digit_value-comma : digit_value b',' ≡ 36
unfolding digit_value
digit_value-comma = ground arith

scan-digits : (ds t : Bytes) (n : ℕ) → All IsDigit ds → scan 10 (ds ++ b',' ∷ t) n ≡ value n ds
unfolding scan
scan-digits [] t n h = rw digit_value-comma refl
scan-digits (c ∷ ds) t n h =
    rw (digit_value-digit c h.0) (ground (arith, scan-digits ds t (n * 10 + (c - b'0')) h.1))

number-digits :
    (c : ℕ) (ds t : Bytes)
    → All IsDigit (c ∷ ds)
    → number 10 (c ∷ ds ++ b',' ∷ t) ≡ some (value 0 (c ∷ ds))
unfolding number
number-digits c ds t h =
    let ten : ltb (digit_value c) 10 ≡ true = rw (digit_value-digit c h.0) (ground arith) in
    rw (ten, digit_value-digit c h.0) (ap some (scan-digits ds t (0 + (c - b'0')) h.1))

skip_none : (c : ℕ) (s : Bytes) → IsDigit c → skip is_space (c ∷ s) ≡ c ∷ s
unfolding skip is_space
skip_none c s h = ground arith

strtol-digits :
    (c : ℕ) (ds t : Bytes)
    → All IsDigit (c ∷ ds)
    → value 0 (c ∷ ds) < 2 ^ 63
    → strtol (c ∷ ds ++ b',' ∷ t) ≡ some (value 0 (c ∷ ds))
unfolding strtol
strtol-digits c ds t h fits =
    rw (skip_none c (ds ++ b',' ∷ t) h.0, number-digits c ds t h) (ground arith)

strtol-digits_lem :
    (ds t : Bytes)
    → All IsDigit ds
    → 0 < length ds
    → value 0 ds < 2 ^ 63
    → strtol (ds ++ b',' ∷ t) ≡ some (value 0 ds)
strtol-digits_lem [] t h pos fits = absurd (omega arith)
strtol-digits_lem (c ∷ ds) t h pos fits = strtol-digits c ds t h fits

skip_blank :
    (ds t : Bytes)
    → All IsDigit ds
    → 0 < length ds
    → skip (λ c. c == b' ') (b' ' ∷ (ds ++ t)) ≡ ds ++ t
unfolding skip
skip_blank [] t h pos = absurd (omega arith)
skip_blank (c ∷ ds) t h pos = ground arith

pub skip_blank-format :
    (n : ℕ) (t : Bytes) → skip (λ c. c == b' ') (b' ' ∷ (format n ++ t)) ≡ format n ++ t
skip_blank-format n t = skip_blank (format n) t (format-IsDigit n) (length-format_pos n)

-- The number of a process that is written in a file is read back.
pub strtol-format : (n : ℕ) (t : Bytes) → n < 2 ^ 63 → strtol (format n ++ b',' ∷ t) ≡ some n
strtol-format n t h =
    let e = value-format n (omega arith) in
    strtol-digits_lem (format n) t (format-IsDigit n) (length-format_pos n) (rw e h) ∙ ap some e

-- ===== src/Paths/Line.antt =====
-- A line of settings of cli/paths.c, written and read back.
use qemu_mip.Paths.{
  parse_line, trimmed, cut, after_export, trim_end, unquote, ends_with, but_last, is_blank, is_eol,
  is_comment,
}
use qemu_mip.Prelude.{
  ℕ, ◌<◌, ◌≡◌, ◌≢◌, refl, ◌∙◌, ap, true, false, some, [], ◌∷◌, ◌++◌, Bytes, codes, arith,
  starts_with, append_assoc, All, All-append, sym,
}
use qemu_mip.Protocol.Fields.{skip}

-- a byte of a name, and one of a value
abbrev pub InName : ℕ → Type 0
InName c = (32 < c) × (c ≢ b'=') × (c ≢ b'#')

abbrev pub InValue : ℕ → Type 0
InValue c = (c ≢ b'\n') × (c ≢ b'\r')

cut-name : (name v : Bytes) → All InName name → cut (name ++ b'=' ∷ v) ≡ some (name, v)
unfolding cut
cut-name [] v h = refl
cut-name (c ∷ s) v h = rw (cut-name s v h.1) (ground arith)

trim_end-name : (name : Bytes) → All InName name → trim_end is_blank name ≡ name
unfolding trim_end
trim_end-name [] h = refl
trim_end-name (c ∷ s) h = ground (arith, trim_end-name s h.1)

trim_end-value : (v : Bytes) → All InValue v → trim_end is_eol (v ++ b'\n' ∷ []) ≡ v
unfolding trim_end
trim_end-value [] h = refl
trim_end-value (c ∷ s) h = ground (arith, trim_end-value s h.1)

ends_with-quoted : (q : ℕ) (v : Bytes) → ends_with q (v ++ q ∷ []) ≡ true
unfolding ends_with
ends_with-quoted q [] = ground arith
ends_with-quoted q (c ∷ []) = ground arith
ends_with-quoted q (c ∷ d ∷ v) = ends_with-quoted q (d ∷ v)

but_last-append : (q : ℕ) (v : Bytes) → but_last (v ++ q ∷ []) ≡ v
unfolding but_last
but_last-append q [] = refl
but_last-append q (c ∷ []) = refl
but_last-append q (c ∷ d ∷ v) = ap (λ (w : Bytes). c ∷ w) (but_last-append q (d ∷ v))

-- the line that sets a variable to a value, in double quotes
abbrev pub setting_line : Bytes → Bytes → Bytes
setting_line name v = name ++ b'=' ∷ (b'"' ∷ (v ++ b'"' ∷ (b'\n' ∷ [])))

skip-name : (c : ℕ) (s : Bytes) → 32 < c → skip is_blank (c ∷ s) ≡ c ∷ s
unfolding skip
skip-name c s h = ground arith

no_export :
    (w p t : Bytes)
    → All InName w
    → All InName p
    → starts_with (w ++ b'=' ∷ t) (p ++ b' ' ∷ []) ≡ false
unfolding starts_with
no_export [] [] t hw hp = refl
no_export [] (d ∷ p) t hw hp = ground arith
no_export (c ∷ w) [] t hw hp = ground arith
no_export (c ∷ w) (d ∷ p) t hw hp = ground (arith, no_export w p t hw.1 hp.1)

trim_end-quoted :
    (v : Bytes)
    → All InValue v
    → trim_end is_eol (b'"' ∷ (v ++ b'"' ∷ (b'\n' ∷ []))) ≡ b'"' ∷ (v ++ b'"' ∷ [])
trim_end-quoted v h =
    ap (λ (w : Bytes). trim_end is_eol (b'"' ∷ w)) (sym (append_assoc v (b'"' ∷ []) (b'\n' ∷ [])))
    ∙ trim_end-value (b'"' ∷ (v ++ b'"' ∷ []))
        (omega arith, All-append InValue v (b'"' ∷ []) h (omega arith))

unquote-quoted : (v : Bytes) → unquote (b'"' ∷ (v ++ b'"' ∷ [])) ≡ v
unfolding unquote
unquote-quoted v = rw (ends_with-quoted b'"' v) (but_last-append b'"' v)

trimmed-setting :
    (c : ℕ) (name v : Bytes)
    → All InName (c ∷ name)
    → All InValue v
    → trimmed (cut (setting_line (c ∷ name) v)) ≡ some (c ∷ name, v)
unfolding trimmed
trimmed-setting c name v hn hv =
    rw
      (
        cut-name (c ∷ name) (b'"' ∷ (v ++ b'"' ∷ (b'\n' ∷ []))) hn,
        trim_end-name (c ∷ name) hn,
        trim_end-quoted v hv,
        unquote-quoted v,
      )
      (ground arith)

-- A line `NAME="value"`, or the same behind `export `, is read back as that setting, whatever the value
-- has but a line feed or a carriage return: quotes, `=` and `#` included. The name has no blank, control
-- character, `=` or `#`.
pub parse_line-setting_line :
    (c : ℕ) (name v : Bytes)
    → All InName (c ∷ name)
    → All InValue v
    → (parse_line (setting_line (c ∷ name) v) ≡ some (c ∷ name, v))
      × (parse_line (codes "export " ++ setting_line (c ∷ name) v) ≡ some (c ∷ name, v))
unfolding parse_line after_export
parse_line-setting_line c name v hn hv =
    let rest = name ++ b'=' ∷ (b'"' ∷ (v ++ b'"' ∷ (b'\n' ∷ []))) in
    let plain : is_comment (c ∷ rest) ≡ false = ground arith in
    (
      rw
          (
            skip-name c rest hn.0.0,
            plain,
            no_export (c ∷ name) (codes "export") (b'"' ∷ (v ++ b'"' ∷ (b'\n' ∷ []))) hn
                (omega arith),
          )
          (trimmed-setting c name v hn hv),
      unfold skip starts_with in rw (skip-name c rest hn.0.0) (trimmed-setting c name v hn hv),
    )

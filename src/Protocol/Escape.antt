-- ===== src/Protocol/Escape.antt =====
-- `json_escape` of plugin/protocol.c.
use qemu_mip.Prelude.{
  refl, ℕ, ◌+◌, ◌-◌, ◌*◌, ◌/◌, ◌%◌, ◌≤◌, ◌<◌, ◌≡◌, Option, none, some, [], ◌∷◌, ◌++◌, append-nil,
  append_assoc, Bytes, arith, c_str, ltb, ◌==◌, if◌then◌else◌, length, length-append, All,
  All-append, Bool-cases, inl, inr,
}

-- the digit that `%x` prints
unfoldable pub hex_digit : ℕ → ℕ
hex_digit d = if ltb d 10 then b'0' + d else b'a' + (d - 10)

-- what one round appends for the byte `c`, which is not NUL
unfoldable pub piece : ℕ → Bytes
unfolding hex_digit
piece c =
    if c == b'"'
    then b'\\' ∷ b'"' ∷ []
    else if c == b'\\'
    then b'\\' ∷ b'\\' ∷ []
    else if c == b'\n'
    then b'\\' ∷ b'n' ∷ []
    else if c == b'\r'
    then b'\\' ∷ b'r' ∷ []
    else if c == b'\t'
    then b'\\' ∷ b't' ∷ []
    else if ltb c 0x20
    then b'\\' ∷ b'u' ∷ b'0' ∷ b'0' ∷ hex_digit (c / 16) ∷ hex_digit (c % 16) ∷ []
    else c ∷ []

-- the loop over `src`; `none` is the result (size_t)-1, and `o` of the source is `length out`
escape_loop : ℕ → Bytes → Bytes → Option Bytes
escape_loop dst_len [] out = some out
escape_loop dst_len (c ∷ s) out =
    let rest = escape_loop dst_len s (out ++ piece c) in
    if c == 0
    then some out
    else if ltb dst_len (length out + length (piece c) + 1)
    then none
    else rest

-- The result is the text in `dst` before its NUL.
unfoldable pub json_escape : Bytes → ℕ → Option Bytes
unfolding escape_loop
json_escape src dst_len = if dst_len == 0 then none else escape_loop dst_len src []

-- the whole escaped text, in a destination without bound
abbrev pub escaped : Bytes → Bytes
escaped [] = []
escaped (c ∷ s) = piece c ++ escaped s

escape_loop-eq :
    (dst_len : ℕ) (src out : Bytes)
    → length out < dst_len
    → escape_loop dst_len src out ≡ (
        if ltb (length out + length (escaped (c_str src))) dst_len
        then some (out ++ escaped (c_str src))
        else none)
unfolding escape_loop c_str
escape_loop-eq dst_len [] out h = ground (arith, append-nil out)
escape_loop-eq dst_len (c ∷ s) out h = elim (Bool-cases (c == 0)) [
  | inl e ↦ rw e (ground (arith, append-nil out))
  | inr e ↦ rw e (
      ground (
        arith,
        escape_loop-eq dst_len s (out ++ piece c),
        length-append out (piece c),
        length-append (piece c) (escaped (c_str s)),
        append_assoc out (piece c) (escaped (c_str s)),
      ))
]

-- `json_escape` writes the escape of each byte before the first NUL of its source, and refuses
-- exactly if that and the closing NUL do not fit the destination.
pub json_escape_lem :
    (src : Bytes) (dst_len : ℕ)
    → json_escape src dst_len
      ≡ (if ltb (length (escaped (c_str src))) dst_len then some (escaped (c_str src)) else none)
unfolding json_escape
json_escape_lem src dst_len = ground (arith, escape_loop-eq dst_len src [])

length-piece : (c : ℕ) → length (piece c) ≤ 6
unfolding piece
length-piece c = ground arith

pub length-escaped : (s : Bytes) → length (escaped s) ≤ 6 * length s
length-escaped [] = omega arith
length-escaped (c ∷ s) =
    omega (arith, length-append (piece c) (escaped s), length-piece c, length-escaped s)

pub length-c_str : (s : Bytes) → length (c_str s) ≤ length s
unfolding c_str
length-c_str [] = omega arith
length-c_str (c ∷ s) = ground (arith, length-c_str s)

-- no control character: neither a line feed nor a NUL
abbrev pub IsPrintable : ℕ → Type 0
IsPrintable c = 0x20 ≤ c

piece-IsPrintable : (c : ℕ) → All IsPrintable (piece c)
unfolding piece
piece-IsPrintable c = ground arith

pub escaped-IsPrintable : (s : Bytes) → All IsPrintable (escaped s)
escaped-IsPrintable [] = tt
escaped-IsPrintable (c ∷ s) =
    All-append IsPrintable (piece c) (escaped s) (piece-IsPrintable c) (escaped-IsPrintable s)

pub c_str-printable : (w t : Bytes) → All IsPrintable w → c_str (w ++ t) ≡ w ++ c_str t
unfolding c_str
c_str-printable [] t h = refl
c_str-printable (c ∷ w) t h = ground (arith, h.0, c_str-printable w t h.1)

pub c_str-IsPrintable : (w : Bytes) → All IsPrintable w → c_str w ≡ w
unfolding c_str
c_str-IsPrintable [] h = refl
c_str-IsPrintable (c ∷ w) h = ground (arith, h.0, c_str-IsPrintable w h.1)

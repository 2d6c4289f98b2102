-- ===== src/Protocol/Print.antt =====
-- What the formats of plugin/protocol.c print, and its `hex_encode`.
use native.Mathlib.Nat.{pow-suc}
use qemu_mip.Prelude.{
  ℕ, zero, suc, ◌+◌, ◌-◌, ◌*◌, ◌/◌, ◌%◌, ◌^◌, ◌≤◌, ◌<◌, ◌≡◌, refl, ◌∙◌, ap, ap₂, Bool, [], ◌∷◌,
  Bytes, codes, IsByte, arith, ltb, if◌then◌else◌, length, All, All-map, Bool-cases, inl, inr,
}
use qemu_mip.Protocol.Escape.{hex_digit, IsPrintable}

-- The decimal digits of `n` in front of `out`, in at most `f` rounds.
digits : ℕ → ℕ → Bytes → Bytes
digits zero n out = out
digits (suc f) n out =
    let more = digits f (n / 10) ((b'0' + n % 10) ∷ out) in
    if ltb n 10 then (b'0' + n % 10) ∷ out else more

-- `%llu`, `%zu`, `%u`, and `%d` of a number that is not negative; 20 digits suffice below 2^64
unfoldable pub format : ℕ → Bytes
unfolding digits
format n = digits 20 n []

unfoldable pub format_bool : Bool → Bytes
format_bool b = if b then codes "true" else codes "false"

length-digits : (f n : ℕ) (out : Bytes) → length (digits f n out) ≤ f + length out
unfolding digits
length-digits zero n out = omega arith
length-digits (suc f) n out = ground (arith, length-digits f (n / 10) ((b'0' + n % 10) ∷ out))

digits_pos : (f n : ℕ) (out : Bytes) → length out < length (digits (suc f) n out)
unfolding digits
digits_pos zero n out = ground arith
digits_pos (suc f) n out = ground (arith, digits_pos f (n / 10) ((b'0' + n % 10) ∷ out))

pub length-format_pos : (n : ℕ) → 0 < length (format n)
unfolding format
length-format_pos n = digits_pos 19 n []

pub length-format : (n : ℕ) → length (format n) ≤ 20
unfolding format
length-format n = omega (arith, length-digits 20 n [])

abbrev pub IsDigit : ℕ → Type 0
IsDigit c = (b'0' ≤ c) × (c ≤ b'9')

digits-IsDigit : (f n : ℕ) (out : Bytes) → All IsDigit out → All IsDigit (digits f n out)
unfolding digits
digits-IsDigit zero n out h = h
digits-IsDigit (suc f) n out h = ground (arith, digits-IsDigit f (n / 10) ((b'0' + n % 10) ∷ out))

pub format-IsDigit : (n : ℕ) → All IsDigit (format n)
unfolding format
format-IsDigit n = digits-IsDigit 20 n [] tt

pub format-IsPrintable : (n : ℕ) → All IsPrintable (format n)
format-IsPrintable n =
    All-map {P = IsDigit} {Q = IsPrintable} (λ c h. omega arith) (format n) (format-IsDigit n)

pub format_bool-IsPrintable : (b : Bool) → All IsPrintable (format_bool b)
unfolding format_bool
format_bool-IsPrintable b = ground arith

unfoldable pub hex_loop : Bytes → Bytes
hex_loop [] = []
hex_loop (c ∷ s) = hex_digit (c / 16 % 16) ∷ hex_digit (c % 16) ∷ hex_loop s

-- `hex_encode` of plugin/protocol.c: the text before the NUL in `out`
unfoldable pub hex_encode : Bytes → ℕ → Bytes
hex_encode bytes out_len = if ltb out_len (length bytes * 2 + 1) then [] else hex_loop bytes

length-hex_loop : (s : Bytes) → length (hex_loop s) ≡ 2 * length s
unfolding hex_loop
length-hex_loop [] = refl
length-hex_loop (c ∷ s) = omega (arith, length-hex_loop s)

pub length-hex_encode :
    (bytes : Bytes) (out_len : ℕ) → length (hex_encode bytes out_len) ≤ 2 * length bytes
unfolding hex_encode
length-hex_encode bytes out_len = ground (arith, length-hex_loop bytes)

hex_loop-IsPrintable : (s : Bytes) → All IsPrintable (hex_loop s)
unfolding hex_loop hex_digit
hex_loop-IsPrintable [] = tt
hex_loop-IsPrintable (c ∷ s) = ground (arith, hex_loop-IsPrintable s)

pub hex_encode-IsPrintable :
    (bytes : Bytes) (out_len : ℕ) → All IsPrintable (hex_encode bytes out_len)
unfolding hex_encode
hex_encode-IsPrintable bytes out_len = ground (arith, hex_loop-IsPrintable bytes)

-- the value of a hexadecimal digit, and the bytes that a text of such digits spells
abbrev pub hex_value : ℕ → ℕ
hex_value c = if ltb c b'a' then c - b'0' else c - b'a' + 10

abbrev pub hex_decode : Bytes → Bytes
hex_decode [] = []
hex_decode (a ∷ []) = []
hex_decode (a ∷ b ∷ s) = (16 * hex_value a + hex_value b) ∷ hex_decode s

hex_pair :
    (c : ℕ)
    → c < 256
    → 16 * hex_value (hex_digit (c / 16 % 16)) + hex_value (hex_digit (c % 16)) ≡ c
unfolding hex_digit
hex_pair c h = ground arith

hex_decode-hex_loop : (s : Bytes) → All IsByte s → hex_decode (hex_loop s) ≡ s
unfolding hex_loop
hex_decode-hex_loop [] h = refl
hex_decode-hex_loop (c ∷ s) h = ap₂ ◌∷◌ (hex_pair c h.0) (hex_decode-hex_loop s h.1)

hex_encode_room : (bytes : Bytes) → hex_encode bytes (length bytes * 2 + 1) ≡ hex_loop bytes
unfolding hex_encode
hex_encode_room bytes = ground arith

-- The hexadecimal text has two digits for each byte and is read back to the bytes, given the room
-- that `mem_read` allocates for it.
pub hex_encode_lem :
    (bytes : Bytes)
    → All IsByte bytes
    → let text = hex_encode bytes (length bytes * 2 + 1) in
      (length text ≡ 2 * length bytes) × (hex_decode text ≡ bytes)
hex_encode_lem bytes h = rw hex_encode_room (length-hex_loop bytes, hex_decode-hex_loop bytes h)

-- the number that decimal digits spell behind `n`
abbrev pub value : ℕ → Bytes → ℕ
value n [] = n
value n (c ∷ s) = value (n * 10 + (c - b'0')) s

value-digits : (f n : ℕ) (out : Bytes) → n < 10 ^ f → value 0 (digits f n out) ≡ value n out
unfolding digits
value-digits zero n out h = ap (λ m. value m out) (omega arith)
value-digits (suc f) n out h =
    let bound : n / 10 < 10 ^ f = omega (arith, pow-suc 10 f) in
    elim (Bool-cases (ltb n 10)) [
      | inl e ↦ rw e (ap (λ m. value m out) (ground arith))
      | inr e ↦ rw e (
          value-digits f (n / 10) ((b'0' + n % 10) ∷ out) bound
          ∙ ap (λ m. value m out) (omega arith))
    ]

-- The decimal text of a uint64_t is read back to it: no digit is lost.
pub value-format : (n : ℕ) → n < 2 ^ 64 → value 0 (format n) ≡ n
unfolding format
value-format n h = value-digits 20 n [] (omega arith)

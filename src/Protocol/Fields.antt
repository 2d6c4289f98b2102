-- ===== src/Protocol/Fields.antt =====
-- The request parsing of plugin/protocol.c: `has_cmd`, `has_refresh_true`, `parse_u64_field`, and
-- `strtoull` with base 0, as C defines it.
use qemu_mip.Prelude.{
  ℕ, ◌+◌, ◌-◌, ◌*◌, ◌^◌, Bool, true, false, ◌&&◌, ◌||◌, Option, none, some, [], ◌∷◌, ◌++◌, Bytes,
  codes, u64, ltb, leb, ◌==◌, if◌then◌else◌, has, strstr, drop, length,
}

-- the value of a digit, or 36 for a byte that is none
unfoldable pub digit_value : ℕ → ℕ
digit_value c =
    if leb b'0' c && leb c b'9'
    then c - b'0'
    else if leb b'a' c && leb c b'z'
    then c - b'a' + 10
    else if leb b'A' c && leb c b'Z'
    then c - b'A' + 10
    else 36

unfoldable pub is_space : ℕ → Bool
is_space c = (leb 9 c && leb c 13) || c == b' '

-- the text without the leading bytes that pass a test
unfoldable pub skip : (ℕ → Bool) → Bytes → Bytes
skip p [] = []
skip p (c ∷ s) = if p c then skip p s else c ∷ s

-- the number that the leading digits of a base spell behind `n`
unfoldable pub scan : ℕ → Bytes → ℕ → ℕ
scan base [] n = n
scan base (c ∷ s) n =
    let d = digit_value c in let rest = scan base s (n * base + d) in if ltb d base then rest else n

abbrev pub first_is : (ℕ → Bool) → Bytes → Bool
first_is p [] = false
first_is p (c ∷ s) = p c

-- the number that a text begins with: `none` if it has no digit of the base
unfoldable pub number : ℕ → Bytes → Option ℕ
unfolding scan digit_value
number base s = if first_is (λ c. ltb (digit_value c) base) s then some (scan base s 0) else none

-- the base, told from the prefix: `0x` counts only before a hexadecimal digit
unfoldable pub unsigned : Bytes → Option ℕ
unfolding number
unsigned s =
    if first_is (λ c. c == b'0') s
    then (if first_is (λ c. c == b'x' || c == b'X') (drop 1 s)
          && first_is (λ c. ltb (digit_value c) 16) (drop 2 s)
        then number 16 (drop 2 s)
        else number 8 s)
    else number 10 s

abbrev pub max_u64 : ℕ
max_u64 = 2 ^ 64 - 1

-- out of range `strtoull` gives ULLONG_MAX; a minus sign negates modulo 2^64 what is in range
abbrev pub signed : Bool → Option ℕ → Option ℕ
signed negative none = none
signed negative (some v) =
    if ltb max_u64 v then some max_u64 else if negative then some (u64 (2 ^ 64 - v)) else some v

-- the value that `strtoull(s, &end, 0)` returns, or `none` if `end` is `s`
unfoldable pub strtoull : Bytes → Option ℕ
unfolding skip is_space unsigned
strtoull text =
    let s = skip is_space text in
    if first_is (λ c. c == b'-') s
    then signed true (unsigned (drop 1 s))
    else if first_is (λ c. c == b'+') s
    then signed false (unsigned (drop 1 s))
    else signed false (unsigned s)

unfoldable pub parse_u64_field : Bytes → Bytes → Option ℕ
unfolding skip strtoull strstr
parse_u64_field line key =
    let pat = codes "\"" ++ key ++ codes "\":" in
    elim (strstr line pat) [
      | none ↦ none
      | some p ↦ strtoull (skip (λ c. c == b' ') (drop (length pat) p))
    ]

unfoldable pub has_cmd : Bytes → Bytes → Bool
unfolding has
has_cmd line cmd = has line (codes "\"cmd\":\"" ++ cmd ++ codes "\"")

unfoldable pub has_refresh_true : Bytes → Bool
unfolding has
has_refresh_true line =
    has line (codes "\"refresh\":true")
    || has line (codes "\"refresh\": true")
    || has line (codes "\"refresh\":1")

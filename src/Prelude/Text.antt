-- ===== src/Prelude/Text.antt =====
-- Bytes and C strings: a string is the list of its bytes before the NUL.
use Prim.Native.Nat.{ℕ, ◌-◌, ◌*◌, ◌/◌, ◌%◌, ◌^◌, ◌<◌, ◌≤◌}
use Prim.Native.Char.{code}
use Prim.Native.String.{String}
use mathlib.Core.Bool.{Bool, true, false, ◌&&◌}
use mathlib.Core.List.{List, [], ◌∷◌}
use mathlib.Core.Option.{Option, none, some}
use native.Mathlib.Omega.{arith}
use qemu_mip.Prelude.Tests.{◌==◌, if◌then◌else◌}
use qemu_mip.Prelude.Lists.{length, take, length-take}

abbrev pub Bytes : Type 0
Bytes = List ℕ

-- the code points of a literal; these are its bytes, since every literal here is ASCII
abbrev pub codes : String → Bytes
codes String.[] = []
codes (String.◌∷◌ c s) = code c ∷ codes s

abbrev pub IsByte : ℕ → Type 0
IsByte c = c < 256

-- `(v >> (8 * i)) & 0xff`, for `i < 8`
unfoldable pub byte_of : ℕ → ℕ → ℕ
byte_of v i = v / 2 ^ (8 * i) % 256

pub byte_of-lt : (v i : ℕ) → byte_of v i < 256
unfolding byte_of
byte_of-lt v i = omega arith

-- uint64_t and uint32_t arithmetic wraps
abbrev pub u64 : ℕ → ℕ
u64 n = n % 2 ^ 64

abbrev pub u32 : ℕ → ℕ
u32 n = n % 2 ^ 32

-- the bytes of a buffer before its first NUL
unfoldable pub c_str : Bytes → Bytes
c_str [] = []
c_str (c ∷ s) = if c == 0 then [] else c ∷ c_str s

-- `strncmp(s, p, strlen(p)) == 0`
unfoldable pub starts_with : Bytes → Bytes → Bool
starts_with s [] = true
starts_with [] (p ∷ ps) = false
starts_with (c ∷ s) (p ∷ ps) = (c == p) && starts_with s ps

-- `strcmp(a, b) == 0`
unfoldable pub str_eq : Bytes → Bytes → Bool
str_eq [] [] = true
str_eq [] (_ ∷ _) = false
str_eq (_ ∷ _) [] = false
str_eq (a ∷ s) (b ∷ t) = (a == b) && str_eq s t

-- `strstr(s, pat)`: the text from the first occurrence on
unfoldable pub strstr : Bytes → Bytes → Option Bytes
unfolding starts_with
strstr [] pat = if starts_with [] pat then some [] else none
strstr (c ∷ s) pat =
    let rest = strstr s pat in if starts_with (c ∷ s) pat then some (c ∷ s) else rest

abbrev pub is_some {ℓ} : {A : Type ℓ} → Option A → Bool
is_some none = false
is_some (some _) = true

-- `strstr(s, pat) != NULL`
unfoldable pub has : Bytes → Bytes → Bool
unfolding strstr
has s pat = is_some (strstr s pat)

-- what `snprintf` leaves in a buffer of `n` bytes, for a text that prints as `s`
unfoldable pub snprintf : ℕ → Bytes → Bytes
snprintf n s = take (n - 1) s

pub length-snprintf : (n : ℕ) (s : Bytes) → 0 < n → length (snprintf n s) < n
unfolding snprintf
length-snprintf n s h = omega (arith, length-take (n - 1) s)

pub snprintf_fits : (n : ℕ) (s : Bytes) → length (snprintf n s) ≤ length s
unfolding snprintf
snprintf_fits n s = omega (arith, length-take (n - 1) s)

-- ===== src/Qmp/Keys.antt =====
-- `map_char` of cli/qmp.c against a US keyboard.
use qemu_mip.Prelude.{
  ℕ, zero, suc, ◌-◌, ◌≤◌, ◌<◌, ◌≡◌, refl, Bool, true, false, ◌&&◌, ◌||◌, Option, none, some, [],
  ◌∷◌, Bytes, codes, arith, str_eq, ltb, leb, ◌==◌, ==_iff, if◌then◌else◌,
}
use qemu_mip.Qmp.{Key, map_char}

-- the character of a key without Shift, by QEMU's name for the key
base_char : Bytes → ℕ
base_char [] = 0
base_char (c ∷ []) = c
base_char (c ∷ d ∷ s) = named (c ∷ d ∷ s)
  where
    named : Bytes → ℕ
    named code =
        if str_eq code (codes "spc")
        then b' '
        else if str_eq code (codes "minus")
        then b'-'
        else if str_eq code (codes "equal")
        then b'='
        else if str_eq code (codes "bracket_left")
        then b'['
        else if str_eq code (codes "bracket_right")
        then b']'
        else if str_eq code (codes "backslash")
        then b'\\'
        else if str_eq code (codes "semicolon")
        then b';'
        else if str_eq code (codes "apostrophe")
        then 39
        else if str_eq code (codes "comma")
        then b','
        else if str_eq code (codes "dot")
        then b'.'
        else if str_eq code (codes "slash")
        then b'/'
        else if str_eq code (codes "grave_accent")
        then b'`'
        else 0

-- the upper character of the key that has this lower one
look_up : ℕ → Bytes → Bytes → ℕ
look_up c [] ups = 0
look_up c (l ∷ lows) [] = 0
look_up c (l ∷ lows) (u ∷ ups) = if c == l then u else look_up c lows ups

shift_char : ℕ → ℕ
shift_char c =
    if leb b'a' c && leb c b'z'
    then c - 32
    else look_up c (codes "`1234567890-=[]\\;',./") (codes "~!@#$%^&*()_+{}|:\"<>?")

-- what a key with or without Shift types
unfoldable pub typed_char : Key → ℕ
unfolding base_char shift_char look_up
typed_char (code, shift) = if shift then shift_char (base_char code) else base_char code

pub typed_char-nil : (shift : Bool) → typed_char ([], shift) ≡ 0
unfolding typed_char
typed_char-nil true = refl
typed_char-nil false = refl

-- the character is typed by its key
types_itself : Option Key → ℕ → Bool
types_itself none c = false
types_itself (some key) c = typed_char key == c

-- every character before this one passes the test
pass : (ℕ → Bool) → ℕ → Bool
pass test zero = true
pass test (suc last) = if test last then pass test last else false

pass_at : (test : ℕ → Bool) (limit c : ℕ) → c < limit → pass test limit ≡ true → test c ≡ true
unfolding pass
pass_at test zero c below passed = absurd (omega arith)
pass_at test (suc last) c below passed = ground (arith, pass_at test last c)

keys_pass : pass (λ ch. ltb ch 32 || types_itself (map_char ch) ch) 127 ≡ true
unfolding pass types_itself typed_char map_char str_eq
keys_pass = refl

types_itself_sound :
    (k : Option Key) (c : ℕ)
    → types_itself k c ≡ true
    → (key : Key) × (k ≡ some key) × (typed_char key ≡ c)
unfolding types_itself
types_itself_sound none c h = absurd (cc)
types_itself_sound (some key) c h = (key, refl, (==_iff (typed_char key) c).0 h)

-- Every printable ASCII character has a key, and that key, with Shift where `map_char` says so, types
-- the character on a US keyboard.
pub map_char-types :
    (c : ℕ) → 32 ≤ c → c < 127 → (key : Key) × (map_char c ≡ some key) × (typed_char key ≡ c)
map_char-types c low high =
    types_itself_sound (map_char c) c (ground (arith, pass_at _ 127 c high keys_pass))

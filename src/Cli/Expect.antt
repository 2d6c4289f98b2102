-- ===== src/Cli/Expect.antt =====
-- `cmd_expect`, `print_text_only` and `find_qmp_path` of cli/main.c.
use qemu_mip.Cli.{extract_text_field}
use qemu_mip.Cli.Screen.{shown, extract_text_field-emit_console}
use qemu_mip.Mem.{Counters}
use qemu_mip.Prelude.{
  ℕ, ◌≡◌, refl, Bool, true, false, Option, none, some, List, [], ◌∷◌, ◌++◌, map, Bytes, codes,
  c_str, has, str_eq, length, ◌==◌, if◌then◌else◌, Bool-cases, inl, inr,
}
use qemu_mip.Protocol.Console.{resp_max}
use qemu_mip.Protocol.Handle.{emit_console}
use qemu_mip.Vga.{Vga}
use qemu_mip.Vga.Snapshot.{screen}

-- `sizeof(text)`
abbrev pub text_len : ℕ
text_len = 2033

-- the result, and what is printed: the text with a line feed
unfoldable pub print_text : Option Bytes → ℕ × Bytes
print_text none = (1, [])
print_text (some text) = (0, text ++ b'\n' ∷ [])

unfoldable pub print_text_only : Bytes → ℕ × Bytes
print_text_only json = print_text (extract_text_field json text_len)

-- the text of an answer has the needle
unfoldable pub shows : Bytes → Option Bytes → Bool
shows needle none = false
shows needle (some text) = has text needle

-- one round of the loop: `none` is a request that failed
unfoldable pub matches : Bytes → Option Bytes → Bool
unfolding shows
matches needle none = false
matches needle (some json) = shows needle (extract_text_field json text_len)

-- the loop: a list of the answers of the rounds that begin before the deadline
unfoldable pub poll_screen : Bytes → List (Option Bytes) → ℕ
poll_screen needle [] = 1
poll_screen needle (answer ∷ rest) =
    let later = poll_screen needle rest in if matches needle answer then 0 else later

-- the exit code
unfoldable pub cmd_expect : Bytes → List (Option Bytes) → ℕ
unfolding poll_screen matches
cmd_expect needle answers = if length needle == 0 then 2 else poll_screen needle answers

-- `argv` from `start` on; `none` is NULL
unfoldable pub find_qmp_path : List Bytes → Option Bytes → Option Bytes
unfolding str_eq
find_qmp_path [] fallback = fallback
find_qmp_path (a ∷ []) fallback = fallback
find_qmp_path (a ∷ b ∷ rest) fallback =
    let later = find_qmp_path (b ∷ rest) fallback in
    if str_eq a (codes "--qmp") then some b else later

pub poll_screen_sees :
    (needle : Bytes) (before behind : List (Option Bytes)) (answer : Option Bytes)
    → matches needle answer ≡ true
    → poll_screen needle (before ++ answer ∷ behind) ≡ 0
unfolding poll_screen
poll_screen_sees needle [] behind answer h = rw h refl
poll_screen_sees needle (a ∷ before) behind answer h = elim (Bool-cases (matches needle a)) [
  | inl e ↦ rw e refl
  | inr e ↦ rw e (poll_screen_sees needle before behind answer h)
]

-- If in some round before the deadline the plugin answers with a screen whose text has the needle,
-- `expect` succeeds, whatever the other rounds gave, failed requests included.
pub cmd_expect_sees :
    (needle : Bytes) (before behind : List (Option Bytes)) (c : Counters) (vga : Vga)
    → (length needle == 0) ≡ false
    → has (map shown (c_str (screen vga.text))) needle ≡ true
    → cmd_expect needle (before ++ some (emit_console resp_max (codes "shadow") c vga).0 ∷ behind)
      ≡ 0
unfolding cmd_expect
cmd_expect_sees needle before behind c vga given seen =
    let json = (emit_console resp_max (codes "shadow") c vga).0 in
    let found : matches needle (some json) ≡ true =
      unfold matches shows in rw (extract_text_field-emit_console c vga) seen in
    rw given (poll_screen_sees needle before behind (some json) found)

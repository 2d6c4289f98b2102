-- ===== src/Session/Bounds.antt =====
-- The bounds of what `session_cmd` and `session_key` of cli/session.c read from their arguments.
use qemu_mip.Agent.{atoi}
use qemu_mip.Prelude.{
  ℕ, ◌-◌, ◌≤◌, ◌<◌, Option, none, some, List, [], ◌∷◌, Bytes, codes, arith, length, length-append,
  length-take, take, Option-cases, inl, inr, subst,
}
use qemu_mip.Session.Command.{Parsed, unknown, parsed, parse}
use qemu_mip.Session.Shell.{Cmd, cmd_option, cmd_word, cmd_defaults, add_word, strncat_line}
use qemu_mip.Session.Typing.{Press, key_option, key_word, key_defaults, clamp}

-- the variables when the loop ends, at an unknown argument or behind the last
abbrev pub reached {ℓ} : {A : Type ℓ} → Parsed A → A
reached (unknown a) = a
reached (parsed a) = a

abbrev pub AllSome {ℓ} : {A : Type ℓ} (P : A → Type 0) → Option A → Type 0
AllSome P none = Unit
AllSome P (some a) = P a

module _ {ℓ} {A : Type ℓ} (option : Bytes → Bytes → A → Option A) (word : Bytes → A → Option A)
    (P : A → Type 0) (option_keeps : (arg val : Bytes) (a : A) → P a → AllSome P (option arg val a))
    (word_keeps : (arg : Bytes) (a : A) → P a → AllSome P (word arg a)) where
  pub parse_keeps : (argv : List Bytes) (a : A) → P a → P (reached (parse option word argv a))
  parse_keeps [] a h = h
  parse_keeps (arg ∷ []) a h = elim (Option-cases (word arg a)) [
    | inl e ↦ rw e h
    | inr (b, e) ↦ rw e (subst (AllSome P) e (word_keeps arg a h))
  ]
  parse_keeps (arg ∷ val ∷ rest) a h = elim (Option-cases (option arg val a)) [
    | inr (b, e) ↦ rw e (parse_keeps rest b (subst (AllSome P) e (option_keeps arg val a h)))
    | inl e ↦ elim (Option-cases (word arg a)) [
      | inl f ↦ rw (e, f) h
      | inr (b, f) ↦
          rw (e, f) (parse_keeps (val ∷ rest) b (subst (AllSome P) f (word_keeps arg a h)))
    ]
  ]

length-strncat_line : (line s : Bytes) → length line < 512 → length (strncat_line line s) < 512
unfolding strncat_line
length-strncat_line line s h = omega (
  arith,
  length-append line (take (512 - length line - 1) s),
  length-take (512 - length line - 1) s,
)

length-add_word : (line word : Bytes) → length line < 512 → length (add_word line word) < 512
unfolding add_word
length-add_word [] word h = length-strncat_line [] word h
length-add_word (c ∷ line) word h =
    length-strncat_line (strncat_line (c ∷ line) (codes " ")) word
      (length-strncat_line (c ∷ line) (codes " ") h)

abbrev LineFits : Cmd → Type 0
LineFits c = length c.line < 512

cmd_option_keeps :
    (arg val : Bytes) (c : Cmd) → LineFits c → AllSome LineFits (cmd_option arg val c)
unfolding cmd_option
cmd_option_keeps arg val c h = ground arith

cmd_word_keeps : (arg : Bytes) (c : Cmd) → LineFits c → AllSome LineFits (cmd_word arg c)
unfolding cmd_word
cmd_word_keeps arg c h = ground (arith, length-add_word c.line arg)

clamp_fits : (n : ℕ) → (1 ≤ clamp n) × (clamp n ≤ 100)
unfolding clamp
clamp_fits n = ground arith

abbrev RepeatFits : Press → Type 0
RepeatFits k = (1 ≤ k.repeat) × (k.repeat ≤ 100)

key_option_keeps :
    (arg val : Bytes) (k : Press) → RepeatFits k → AllSome RepeatFits (key_option arg val k)
unfolding key_option
key_option_keeps arg val k h = ground (arith, clamp_fits (atoi val))

key_word_keeps : (arg : Bytes) (k : Press) → RepeatFits k → AllSome RepeatFits (key_word arg k)
unfolding key_word
key_word_keeps arg k h = ground arith

-- Whatever the arguments, the words of a shell command fit the buffer of 512 bytes with its end, and a key is
-- sent from 1 to 100 times.
pub session_input_bounds :
    (argv : List Bytes)
    → (length (reached (parse cmd_option cmd_word argv cmd_defaults)).line < 512)
      × (1 ≤ (reached (parse key_option key_word argv key_defaults)).repeat)
      × ((reached (parse key_option key_word argv key_defaults)).repeat ≤ 100)
session_input_bounds argv =
    let repeat =
      parse_keeps key_option key_word RepeatFits key_option_keeps key_word_keeps argv key_defaults
        (omega arith, omega arith) in
    (
      parse_keeps cmd_option cmd_word LineFits cmd_option_keeps cmd_word_keeps argv cmd_defaults
          (omega arith),
      repeat.0,
      repeat.1,
    )

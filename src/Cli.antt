-- ===== src/Cli.antt =====
-- cli/main.c: what the client makes of the plugin's answers.
pub mod Screen
pub mod Expect
pub mod Copies
pub mod Tail
pub mod Request
pub mod Exchange
pub mod Main
pub mod Closing
pub mod Verdict
pub mod ConsoleCommand
pub mod ExpectCommand
pub mod TypeCommand
mod Examples
use qemu_mip.Prelude.{
  ℕ, zero, suc, ◌+◌, Bool, true, false, ◌&&◌, not, Option, none, some, Bytes, [], ◌∷◌, ◌++◌, codes,
  strstr, has, leb, ◌==◌, if◌then◌else◌, length, drop,
}

abbrev pub text_key : Bytes
text_key = codes "\"text\":\""

-- the character that `\c` stands for, where `c` is not `u`
unfoldable pub unescape : ℕ → ℕ
unescape c =
    if c == b'n' then b'\n' else if c == b'r' then b'\r' else if c == b't' then b'\t' else c

abbrev is_nil : Bytes → Bool
is_nil [] = true
is_nil (_ ∷ _) = false

-- Where the loop of `extract_text_field` stands: behind a backslash, or with so many of the digits
-- of `\uXXXX` left to pass over.
pub data Mode : Type 0 where
  escape : Mode
  skip : ℕ → Mode

-- The loop of `extract_text_field` over the text behind the key, with `o` being `length out`: the
-- bytes in `dst` before its NUL.
unfoldable pub extract : ℕ → Mode → Bytes → Bytes → Bytes
unfolding unescape
extract dst_len escape [] out = out
extract dst_len escape (c ∷ s) out =
    let hex = extract dst_len (skip 4) s (out ++ b'?' ∷ []) in
    let one = extract dst_len (skip 0) s (out ++ unescape c ∷ []) in if c == b'u' then hex else one
extract dst_len (skip zero) [] out = out
extract dst_len (skip zero) (c ∷ s) out =
    let behind = extract dst_len escape s out in
    let copy = extract dst_len (skip 0) s (out ++ c ∷ []) in
    if leb dst_len (length out + 1)
    then out
    else if c == b'\\' && not (is_nil s)
    then behind
    else if c == b'"'
    then out
    else copy
extract dst_len (skip (suc k)) [] out = out
extract dst_len (skip (suc k)) (c ∷ s) out = extract dst_len (skip k) s out

-- `none` is the result -1
unfoldable pub extract_text_field : Bytes → ℕ → Option Bytes
unfolding extract
extract_text_field json dst_len = if dst_len == 0 then none else elim (strstr json text_key) [
  | none ↦ none
  | some p ↦ some (extract dst_len (skip 0) (drop (length text_key) p) [])
]

-- ===== src/Qmp/Lines.antt =====
-- `qmp_readline` and the reply loop of `qc_qmp_execute` of cli/qmp.c.
use qemu_mip.Prelude.{
  ℕ, ◌+◌, ◌<◌, ◌≡◌, ◌≢◌, refl, ◌∙◌, true, false, ◌||◌, not, Bool-cases, inl, inr, some, List, [],
  ◌∷◌, ◌++◌, map, Bytes, codes, arith, has, length, All, leb, ◌==◌, if◌then◌else◌, append-nil,
  append_assoc, length-append,
}
use qemu_mip.Qmp.{Outcome, accepted, refused, await_reply, Input, byte, read_line}

-- a line that is no answer: an event, or one with neither an error nor a result
abbrev pub IsSkipped : Bytes → Type 0
IsSkipped line =
    (has line (codes "\"event\"")
      || not (has line (codes "\"error\"") || has line (codes "\"return\"")))
    ≡ true

-- the result that an answer line gives
abbrev pub outcome_of : Bytes → Outcome
outcome_of line = if has line (codes "\"error\"") then refused else accepted

pub answer_return :
    (line : Bytes)
    → has line (codes "\"error\"") ≡ false
    → (has line (codes "\"error\"") || has line (codes "\"return\"")) ≡ true
    → has line (codes "\"return\"") ≡ true
answer_return line e answer = ground arith

pub no_error :
    (n : Bytes)
    → has n (codes "\"event\"") ≡ false
    → IsSkipped n
    → has n (codes "\"error\"") ≡ false
no_error n e skip = ground arith

pub no_return :
    (n : Bytes)
    → has n (codes "\"event\"") ≡ false
    → IsSkipped n
    → has n (codes "\"return\"") ≡ false
no_return n e skip = ground arith

-- The reply to a command is the first line that is an answer, whatever events and greetings come
-- before it; the lines behind it are left for the next command.
pub await_reply_skips :
    (noise : List Bytes) (line : Bytes) (rest : List Bytes) (out : Bytes)
    → All IsSkipped noise
    → has line (codes "\"event\"") ≡ false
    → (has line (codes "\"error\"") || has line (codes "\"return\"")) ≡ true
    → await_reply (noise ++ line ∷ rest) out ≡ (outcome_of line, line, rest)
unfolding await_reply
await_reply_skips [] line rest out skip no_event answer =
    elim (Bool-cases (has line (codes "\"error\""))) [
      | inl e ↦ rw (no_event, e) refl
      | inr e ↦ rw (no_event, e, answer_return line e answer) refl
    ]
await_reply_skips (n ∷ noise) line rest out skip no_event answer =
    elim (Bool-cases (has n (codes "\"event\""))) [
      | inl e ↦ rw e (await_reply_skips noise line rest out skip.1 no_event answer)
      | inr e ↦
          rw (e, no_error n e skip.0, no_return n e skip.0)
            (await_reply_skips noise line rest n skip.1 no_event answer)
    ]

-- A byte of a line: neither a line feed nor a carriage return.
abbrev pub InText : ℕ → Type 0
InText c = (c ≢ b'\n') × (c ≢ b'\r')

pub leb_no :
    (buflen : ℕ) (line : Bytes) → length line + 1 < buflen → leb buflen (length line + 1) ≡ false
leb_no buflen line h = ground arith

pub is_no : (c d : ℕ) → c ≢ d → (c == d) ≡ false
is_no c d h = ground arith

-- A line that fits in the buffer is read whole, up to the line feed, and no byte behind it is taken.
pub read_line-line :
    (buflen : ℕ) (w line : Bytes) (rest : List Input)
    → All InText w
    → length line + length w + 1 < buflen
    → read_line buflen (map byte w ++ byte b'\n' ∷ rest) line ≡ (some (line ++ w), rest)
unfolding read_line
read_line-line buflen [] line rest text fits =
    rw (leb_no buflen line (omega arith), append-nil line) refl
read_line-line buflen (c ∷ w) line rest text fits =
    rw (leb_no buflen line (omega arith), is_no c b'\n' text.0.0, is_no c b'\r' text.0.1)
      (read_line-line buflen w (line ++ c ∷ []) rest text.1
          (omega (arith, length-append line (c ∷ []), fits))
        ∙ rw (append_assoc line (c ∷ []) w) refl)

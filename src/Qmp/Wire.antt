-- ===== src/Qmp/Wire.antt =====
-- `qc_qmp_execute` of cli/qmp.c at an emulator that ends its lines with a carriage return and a line
-- feed.
use qemu_mip.Prelude.{
  ℕ, zero, suc, ◌+◌, ◌<◌, ◌≡◌, refl, ◌∙◌, ap, true, false, ◌||◌, some, List, [], ◌∷◌, ◌++◌, map,
  Bytes, codes, arith, has, snprintf, ◌==◌, if◌then◌else◌, length, length-append, All, Bool-cases,
  inl, inr, append-nil, append_assoc,
}
use qemu_mip.Protocol.Escape.{IsPrintable, c_str-IsPrintable}
use qemu_mip.Qmp.{Outcome, Input, byte, read_line}
use qemu_mip.Qmp.Connection.{next_line, reply_on, reply_loop}
use qemu_mip.Qmp.Lines.{IsSkipped, outcome_of, leb_no, is_no, answer_return, no_error, no_return}

-- a line of the emulator, and the lines that it sends before the tail
abbrev pub frame : Bytes → List Input → List Input
frame line tail = map byte line ++ byte b'\r' ∷ byte b'\n' ∷ tail

abbrev pub frames : List Bytes → List Input → List Input
frames [] tail = tail
frames (line ∷ lines) tail = frame line (frames lines tail)

-- a line that the client's buffer holds
abbrev pub IsFrame : Bytes → Type 0
IsFrame line = All IsPrintable line × (length line + 1 < 8192)

read_line-frame :
    (buflen : ℕ) (w line : Bytes) (rest : List Input)
    → All IsPrintable w
    → length line + length w + 1 < buflen
    → read_line buflen (frame w rest) line ≡ (some (line ++ w), rest)
unfolding read_line
read_line-frame buflen [] line rest p fits =
    rw (leb_no buflen line (omega arith), append-nil line) refl
read_line-frame buflen (c ∷ w) line rest p fits =
    rw
      (
        leb_no buflen line (omega arith),
        is_no c b'\n' (omega (arith, p.0)),
        is_no c b'\r' (omega (arith, p.0)),
      )
      (read_line-frame buflen w (line ++ c ∷ []) rest p.1
          (omega (arith, length-append line (c ∷ []), fits))
        ∙ rw (append_assoc line (c ∷ []) w) refl)

pub next_line-frame :
    (line : Bytes) (rest : List Input)
    → IsFrame line
    → next_line (frame line rest) ≡ (some line, rest)
unfolding next_line
next_line-frame line rest ok = read_line-frame 8192 line [] rest ok.0 (omega (arith, ok.1))

-- what a command that finds its answer leaves in `out`
abbrev pub kept_answer : ℕ → Bytes → Bytes → Bytes
kept_answer out_len out line = if out_len == 0 then out else snprintf out_len line

kept_answer_again :
    (out_len : ℕ) (out n line : Bytes)
    → kept_answer out_len (kept_answer out_len out n) line ≡ kept_answer out_len out line
kept_answer_again out_len out n line = elim (Bool-cases (out_len == 0)) [
  | inl e ↦ rw e refl
  | inr e ↦ rw e refl
]

-- a round with a line that is no answer
reply_on-skipped :
    (out_len : ℕ) (out n : Bytes) (rest : List Input) (later : Bytes → Outcome × Bytes × List Input)
    → All IsPrintable n
    → IsSkipped n
    → reply_on out_len out rest later (some n)
      ≡ (if has n (codes "\"event\"") then later out else later (kept_answer out_len out n))
unfolding reply_on
reply_on-skipped out_len out n rest later p skip =
    rw (c_str-IsPrintable n p) (elim (Bool-cases (has n (codes "\"event\""))) [
      | inl e ↦ rw e refl
      | inr e ↦ rw (e, no_error n e skip, no_return n e skip) refl
    ])

reply_on-answer :
    (out_len : ℕ) (out line : Bytes) (rest : List Input)
    (later : Bytes → Outcome × Bytes × List Input)
    → All IsPrintable line
    → has line (codes "\"event\"") ≡ false
    → (has line (codes "\"error\"") || has line (codes "\"return\"")) ≡ true
    → reply_on out_len out rest later (some line)
      ≡ (outcome_of line, kept_answer out_len out line, rest)
unfolding reply_on
reply_on-answer out_len out line rest later p no_event answer =
    rw (c_str-IsPrintable line p, no_event)
      (elim (Bool-cases (has line (codes "\"error\""))) [
        | inl e ↦ rw e refl
        | inr e ↦ rw (e, answer_return line e answer) refl
      ])

-- The loop passes over events and other lines, ends with the first answer, and leaves what is behind it.
pub reply_loop-frames :
    (n out_len : ℕ) (noise : List Bytes) (line : Bytes) (tail : List Input) (out : Bytes)
    → length noise < n
    → All IsFrame noise
    → All IsSkipped noise
    → IsFrame line
    → has line (codes "\"event\"") ≡ false
    → (has line (codes "\"error\"") || has line (codes "\"return\"")) ≡ true
    → reply_loop n out_len (frames noise (frame line tail)) out
      ≡ (outcome_of line, kept_answer out_len out line, tail)
unfolding reply_loop
reply_loop-frames zero out_len noise line tail out small fn skip f no_event answer =
    absurd (omega arith)
reply_loop-frames (suc n) out_len [] line tail out small fn skip f no_event answer =
    rw (next_line-frame line tail f)
      (reply_on-answer out_len out line tail (λ o. reply_loop n out_len tail o) f.0 no_event answer)
reply_loop-frames (suc n) out_len (w ∷ noise) line tail out small fn skip f no_event answer =
    let rest = frames noise (frame line tail) in
    let later = λ (out' : Bytes).
      reply_loop-frames n out_len noise line tail out' (omega (arith, small)) fn.1 skip.1 f no_event
        answer in
    rw (next_line-frame w rest fn.0) (
      reply_on-skipped out_len out w rest (λ o. reply_loop n out_len rest o) fn.0.0 skip.0
      ∙ elim (Bool-cases (has w (codes "\"event\""))) [
        | inl e ↦ rw e (later out)
        | inr e ↦ rw e (
            later (kept_answer out_len out w)
            ∙ ap (λ (o : Bytes). (outcome_of line, o, tail)) (kept_answer_again out_len out w line))
      ])

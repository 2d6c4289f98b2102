-- ===== src/Run/Steps.antt =====
-- The steps of `run_session` in cli/run.c, and the line that tells of them.
use qemu_mip.Prelude.{
  ℕ, ◌≡◌, refl, ◌∙◌, ap, Bool, true, false, ◌&&◌, ◌||◌, Option, List, [], ◌∷◌, ◌++◌, Bytes, codes,
  arith, ◌==◌, if◌then◌else◌,
}
use qemu_mip.Protocol.Framing.{is_line}
use qemu_mip.Protocol.Print.{format, format_bool}
use qemu_mip.Run.{StepKind, step_expect, step_type, Step}
use qemu_mip.Session.Command.{quoted, wait_expect}
use qemu_mip.Session.Orderly.{is_line-format, is_line-format_bool, is_line-escaped}

-- A step and what it meets: whether the emulator has ended, the plugin's answers before the deadline, and
-- whether a line is typed.
pub record Turn : Type 0 where
  pub step : Step
  pub crashed : Bool
  pub polls : List (Option Bytes)
  pub types : Bool

abbrev pub succeeds : StepKind → Turn → Bool
succeeds step_expect t = wait_expect t.step.arg t.polls
succeeds step_type t = t.types

-- the step is done
unfoldable pub works : Turn → Bool
works t = succeeds t.step.kind t

-- the flags of steps that are not run to their end
abbrev pub not_done : List Turn → List Bool
not_done [] = []
not_done (t ∷ rest) = false ∷ not_done rest

-- The loop over the steps: the flag `ok` of each, which is false before it is run, and the exit code.
unfoldable pub run_steps : List Turn → List Bool × ℕ
unfolding works
run_steps [] = ([], 0)
run_steps (t ∷ rest) =
    let later = run_steps rest in
    if t.crashed
    then (not_done (t ∷ rest), 3)
    else if works t
    then (true ∷ later.0, later.1)
    else (not_done (t ∷ rest), 1)

-- what is printed of the argument of a step
unfoldable pub escape_arg : Bytes → Bytes
escape_arg [] = []
escape_arg (c ∷ s) = if c == b'"' || c == b'\\' then b'\\' ∷ c ∷ escape_arg s else c ∷ escape_arg s

abbrev pub op_name : StepKind → Bytes
op_name step_expect = codes "expect"
op_name step_type = codes "type"

abbrev pub step_text : StepKind → Bytes → Bool → Bytes → Bytes
step_text kind arg ok rest =
    codes "{\"op\":\""
    ++ (op_name kind
        ++ (codes "\",\"arg\":\""
            ++ (escape_arg arg ++ (codes "\",\"ok\":" ++ (format_bool ok ++ (b'}' ∷ rest))))))

-- the steps behind the first, which have a comma before them
unfoldable pub more_steps : List (Step × Bool) → Bytes → Bytes
more_steps [] rest = rest
more_steps ((s, ok) ∷ more) rest = b',' ∷ step_text s.kind s.arg ok (more_steps more rest)

abbrev pub all_steps : List (Step × Bool) → Bytes → Bytes
all_steps [] rest = rest
all_steps ((s, ok) ∷ more) rest = step_text s.kind s.arg ok (more_steps more rest)

-- the line of JSON at the end, without its line feed
unfoldable pub run_line : ℕ → ℕ → List (Step × Bool) → Bytes → Bytes
run_line rc dur steps console =
    codes "{\"ok\":"
    ++ (format_bool (rc == 0)
        ++ (codes ",\"duration_ms\":"
            ++ (format dur
                ++ (codes ",\"steps\":["
                    ++ all_steps steps (
                        codes "],\"exit_code\":"
                        ++ (format rc ++ (codes ",\"console\":" ++ quoted console (codes "}"))))))))

is_line-escape_arg : (s t : Bytes) → is_line (escape_arg s ++ t) ≡ (is_line s && is_line t)
unfolding is_line escape_arg
is_line-escape_arg [] t = refl
is_line-escape_arg (c ∷ s) t = ground (arith, is_line-escape_arg s t)

-- no argument of a step has a control character
abbrev pub plain_args : List (Step × Bool) → Bool
plain_args [] = true
plain_args ((s, ok) ∷ more) = is_line s.arg && plain_args more

is_line-step_text :
    (kind : StepKind) (arg : Bytes) (ok : Bool) (rest : Bytes)
    → is_line (step_text kind arg ok rest) ≡ (is_line arg && is_line rest)
unfolding is_line
is_line-step_text step_expect arg ok rest = simp (is_line-escape_arg, is_line-format_bool)
is_line-step_text step_type arg ok rest = simp (is_line-escape_arg, is_line-format_bool)

is_line-comma : (t : Bytes) → is_line (b',' ∷ t) ≡ is_line t
unfolding is_line
is_line-comma t = refl

and_assoc : (a b c : Bool) → (a && (b && c)) ≡ (a && b && c)
and_assoc true b c = refl
and_assoc false b c = refl

is_line-more_steps :
    (steps : List (Step × Bool)) (rest : Bytes)
    → is_line (more_steps steps rest) ≡ (plain_args steps && is_line rest)
unfolding more_steps
is_line-more_steps [] rest = refl
is_line-more_steps ((s, ok) ∷ more) rest =
    is_line-comma (step_text s.kind s.arg ok (more_steps more rest))
    ∙ is_line-step_text s.kind s.arg ok (more_steps more rest)
    ∙ ap (λ b. is_line s.arg && b) (is_line-more_steps more rest)
    ∙ and_assoc (is_line s.arg) (plain_args more) (is_line rest)

is_line-all_steps :
    (steps : List (Step × Bool)) (rest : Bytes)
    → is_line (all_steps steps rest) ≡ (plain_args steps && is_line rest)
is_line-all_steps [] rest = refl
is_line-all_steps ((s, ok) ∷ more) rest =
    is_line-step_text s.kind s.arg ok (more_steps more rest)
    ∙ ap (λ b. is_line s.arg && b) (is_line-more_steps more rest)
    ∙ and_assoc (is_line s.arg) (plain_args more) (is_line rest)

and_true : (b : Bool) → (b && true) ≡ b
and_true true = refl
and_true false = refl

-- The line of JSON that a run prints at its end is one line without control characters exactly if no step has
-- a control character in its argument, whatever the console holds: the arguments are printed with only
-- quotation marks and backslashes escaped.
pub is_line-run_line :
    (rc dur : ℕ) (steps : List (Step × Bool)) (console : Bytes)
    → is_line (run_line rc dur steps console) ≡ plain_args steps
unfolding is_line run_line
is_line-run_line rc dur steps console =
    simp (is_line-format, is_line-format_bool, is_line-escaped, is_line-all_steps)
      (and_true (plain_args steps))

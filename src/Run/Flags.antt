-- ===== src/Run/Flags.antt =====
-- What the flags and the exit code of `run_steps` in cli/run.c say of the steps.
use qemu_mip.Prelude.{
  ℕ, suc, ◌≡◌, refl, ap, Bool, true, false, ◌&&◌, not, Option, List, [], ◌∷◌, ◌++◌, Bytes, arith,
  All, ◌⊎◌, ◌==◌, if◌then◌else◌, length, Bool-cases, inl, inr,
}
use qemu_mip.Run.{StepKind, step_expect, step_type}
use qemu_mip.Session.Command.{wait_expect, get_console_text}
use qemu_mip.Cli.Expect.{shows}
use qemu_mip.Run.Steps.{Turn, succeeds, works, not_done, run_steps}

abbrev pub all_true : List Bool → Bool
all_true [] = true
all_true (b ∷ bs) = b && all_true bs

abbrev pub all_false : List Bool → Bool
all_false [] = true
all_false (b ∷ bs) = not b && all_false bs

-- once a step is not done, none behind it is
abbrev pub is_prefix : List Bool → Bool
is_prefix [] = true
is_prefix (b ∷ bs) = if b then is_prefix bs else all_false bs

all_false-not_done : (turns : List Turn) → all_false (not_done turns) ≡ true
all_false-not_done [] = refl
all_false-not_done (t ∷ rest) = all_false-not_done rest

length-not_done : (turns : List Turn) → length (not_done turns) ≡ length turns
length-not_done [] = refl
length-not_done (t ∷ rest) = ap suc (length-not_done rest)

-- A step has met what it waits for: some answer before the deadline shows its text, or its line is typed.
unfoldable pub Met : StepKind → Turn → Type 0
Met step_expect t =
    (before : List (Option Bytes)) × (answer : Option Bytes) × (behind : List (Option Bytes))
    × (t.polls ≡ before ++ answer ∷ behind)
    × (shows t.step.arg (get_console_text answer 2033) ≡ true)
Met step_type t = t.types ≡ true

-- It has not: no answer shows its text, or its line is not typed.
unfoldable pub Missed : StepKind → Turn → Type 0
Missed step_expect t =
    All (λ answer. shows t.step.arg (get_console_text answer 2033) ≡ false) t.polls
Missed step_type t = t.types ≡ false

-- What the flags and the exit code say of the steps: one that is done was run with the emulator there and met
-- what it waits for; the first that is not done found the emulator ended, which is 3, or missed, which is 1.
unfoldable pub Tells : List Turn → List Bool → ℕ → Type 0
Tells [] flags code = code ≡ 0
Tells (t ∷ rest) [] code = Unit
Tells (t ∷ rest) (true ∷ flags) code =
    (t.crashed ≡ false) × Met t.step.kind t × Tells rest flags code
Tells (t ∷ rest) (false ∷ flags) code =
    ((t.crashed ≡ true) × (code ≡ 3)) ⊎ ((t.crashed ≡ false) × Missed t.step.kind t × (code ≡ 1))

wait_expect-sees :
    (needle : Bytes) (polls : List (Option Bytes))
    → wait_expect needle polls ≡ true
    → (before : List (Option Bytes)) × (answer : Option Bytes) × (behind : List (Option Bytes))
      × (polls ≡ before ++ answer ∷ behind)
      × (shows needle (get_console_text answer 2033) ≡ true)
unfolding wait_expect
wait_expect-sees needle [] e = absurd cc
wait_expect-sees needle (answer ∷ rest) e =
    elim (Bool-cases (shows needle (get_console_text answer 2033))) [
      | inl s ↦ ([], answer, rest, refl, s)
      | inr s ↦
          let (before, found, behind, split, seen) =
            wait_expect-sees needle rest (ground (arith, s, e)) in
          (answer ∷ before, found, behind, ap (λ l. answer ∷ l) split, seen)
    ]

wait_expect-misses :
    (needle : Bytes) (polls : List (Option Bytes))
    → wait_expect needle polls ≡ false
    → All (λ answer. shows needle (get_console_text answer 2033) ≡ false) polls
unfolding wait_expect
wait_expect-misses needle [] e = tt
wait_expect-misses needle (answer ∷ rest) e =
    elim (Bool-cases (shows needle (get_console_text answer 2033))) [
      | inl s ↦ absurd (ground (arith, s, e))
      | inr s ↦ (s, wait_expect-misses needle rest (ground (arith, s, e)))
    ]

succeeds-Met : (kind : StepKind) (t : Turn) → succeeds kind t ≡ true → Met kind t
unfolding Met
succeeds-Met step_expect t e = wait_expect-sees t.step.arg t.polls e
succeeds-Met step_type t e = e

succeeds-Missed : (kind : StepKind) (t : Turn) → succeeds kind t ≡ false → Missed kind t
unfolding Missed
succeeds-Missed step_expect t e = wait_expect-misses t.step.arg t.polls e
succeeds-Missed step_type t e = e

run_steps_order :
    (turns : List Turn)
    → let flags = (run_steps turns).0 in
      (length flags ≡ length turns)
      × (is_prefix flags ≡ true)
      × (all_true flags ≡ ((run_steps turns).1 == 0))
unfolding run_steps
run_steps_order [] = (refl, refl, refl)
run_steps_order (t ∷ rest) = elim (Bool-cases t.crashed) [
  | inl e ↦ simp e (ap suc (length-not_done rest), all_false-not_done rest, refl)
  | inr e ↦ elim (Bool-cases (works t)) [
    | inl f ↦ let later = run_steps_order rest in simp (e, f) (ap suc later.0, later.1, later.2)
    | inr f ↦ simp (e, f) (ap suc (length-not_done rest), all_false-not_done rest, refl)
  ]
]

Tells-result :
    (turns : List Turn) (r : List Bool × ℕ)
    → run_steps turns ≡ r
    → Tells turns r.0 r.1
    → Tells turns (run_steps turns).0 (run_steps turns).1
Tells-result turns r e h = rw e h

run_crashed :
    (t : Turn) (rest : List Turn)
    → t.crashed ≡ true
    → run_steps (t ∷ rest) ≡ (not_done (t ∷ rest), 3)
unfolding run_steps
run_crashed t rest e = simp e refl

run_done :
    (t : Turn) (rest : List Turn)
    → t.crashed ≡ false
    → works t ≡ true
    → run_steps (t ∷ rest) ≡ (true ∷ (run_steps rest).0, (run_steps rest).1)
unfolding run_steps
run_done t rest e f = simp (e, f) refl

run_missed :
    (t : Turn) (rest : List Turn)
    → t.crashed ≡ false
    → works t ≡ false
    → run_steps (t ∷ rest) ≡ (not_done (t ∷ rest), 1)
unfolding run_steps
run_missed t rest e f = simp (e, f) refl

run_steps-Tells : (turns : List Turn) → Tells turns (run_steps turns).0 (run_steps turns).1
unfolding Tells
run_steps-Tells [] = unfold run_steps in refl
run_steps-Tells (t ∷ rest) = elim (Bool-cases t.crashed) [
  | inl e ↦ Tells-result (t ∷ rest) _ (run_crashed t rest e) (inl (e, refl))
  | inr e ↦ elim (Bool-cases (works t)) [
    | inl f ↦
        Tells-result (t ∷ rest) _ (run_done t rest e f)
          (e, succeeds-Met t.step.kind t (unfold works in f), run_steps-Tells rest)
    | inr f ↦
        Tells-result (t ∷ rest) _ (run_missed t rest e f)
          (inr (e, succeeds-Missed t.step.kind t (unfold works in f), refl))
  ]
]

-- Each step has a flag; the steps that are done stand before those that are not, since the first that fails
-- or that finds the emulator ended is the last that is run; and the exit code is 0 exactly if each is done.
-- A step that is done found the emulator there, and some answer of the plugin before its deadline showed its
-- text, or its line was typed. The first that is not done found the emulator ended, with exit code 3, or,
-- with exit code 1, no answer showed its text or its line was not typed.
pub run_steps_lem :
    (turns : List Turn)
    → let (flags, code) = run_steps turns in
      ((length flags ≡ length turns) × (is_prefix flags ≡ true) × (all_true flags ≡ (code == 0)))
      × Tells turns flags code
run_steps_lem turns = (run_steps_order turns, run_steps-Tells turns)

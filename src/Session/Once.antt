-- ===== src/Session/Once.antt =====
-- That the commands of cli/session.c print one line each.
use qemu_mip.Prelude.{
  zero, suc, arith, ◌+◌, append-nil, append_assoc, subst, ℕ, ◌≡◌, refl, ◌∙◌, ap, Bool, true, false,
  Option, none, some, List, [], ◌∷◌, ◌++◌, Bytes, codes, is_some, ◌==◌, Bool-cases, inl, inr,
}
use qemu_mip.Protocol.Framing.{is_line, is_line-append, IsPrintable-is_line}
use qemu_mip.Session.{Session}
use qemu_mip.Session.Command.{
  Effect, lock, unlock, qmp_connect, qmp_close, qmp_type_line, qmp_send_key, save, qmp_quit, kill,
  reap, spawn, unlink, print, World, Run, Required, gone, found, wait_expect, get_console_text,
  pid_alive,
}
use qemu_mip.Session.Orderly.{
  steps, tells, finished, is_orderly, Told, require_session-Told, tells-result_line,
  tells-result_head, is_line-escaped,
}
use qemu_mip.Session.Query.{
  Query, expect_run, expect_found, console_found, status_found, status_line, guest_status, or_null,
}
use qemu_mip.Session.Stop.{stop_loaded, end_process, await_end}
use qemu_mip.Session.Telling.{printed, tells_alone, tells_once, format_int-IsDecimal}

-- what is still to be printed, where this line has been
abbrev told_from : ℕ → Option Bytes → List Bytes → Bool
told_from code none lines = tells_alone code lines
told_from code (some line) [] = tells code (some line)
told_from code (some line) (more ∷ lines) = false

told_alone :
    (code : ℕ) (line : Bytes) (lines : List Bytes)
    → told_from code (some line) lines ≡ true
    → tells_alone code (line ∷ lines) ≡ true
told_alone code line [] h = h
told_alone code line (more ∷ lines) h = absurd cc

-- An orderly run prints once.
tells_once-from :
    (effects : List Effect) (code : ℕ) (locked connected : Bool) (line : Option Bytes)
    → finished code
        (steps effects (some (record { locked = locked; connected = connected; printed = line })))
      ≡ true
    → told_from code line (printed effects) ≡ true
unfolding tells
tells_once-from [] code locked connected none h = absurd (ground (arith, h))
tells_once-from [] code locked connected (some line) h = ground (arith, h)
tells_once-from (lock ∷ es) code true connected line h = absurd cc
tells_once-from (lock ∷ es) code false connected line h =
    tells_once-from es code true connected line h
tells_once-from (unlock ∷ es) code true false line h = tells_once-from es code false false line h
tells_once-from (unlock ∷ es) code true true line h = absurd cc
tells_once-from (unlock ∷ es) code false connected line h = absurd cc
tells_once-from (qmp_connect ∷ es) code true false line h = tells_once-from es code true true line h
tells_once-from (qmp_connect ∷ es) code true true line h = absurd cc
tells_once-from (qmp_connect ∷ es) code false connected line h = absurd cc
tells_once-from (qmp_close ∷ es) code locked true line h =
    tells_once-from es code locked false line h
tells_once-from (qmp_close ∷ es) code locked false line h = absurd cc
tells_once-from (qmp_type_line s enter ∷ es) code true true line h =
    tells_once-from es code true true line h
tells_once-from (qmp_type_line s enter ∷ es) code true false line h = absurd cc
tells_once-from (qmp_type_line s enter ∷ es) code false connected line h = absurd cc
tells_once-from (qmp_send_key qcode ∷ es) code true true line h =
    tells_once-from es code true true line h
tells_once-from (qmp_send_key qcode ∷ es) code true false line h = absurd cc
tells_once-from (qmp_send_key qcode ∷ es) code false connected line h = absurd cc
tells_once-from (save s ∷ es) code true connected line h =
    tells_once-from es code true connected line h
tells_once-from (save s ∷ es) code false connected line h = absurd cc
tells_once-from (qmp_quit ∷ es) code locked connected line h = absurd cc
tells_once-from (kill signal ∷ es) code locked connected line h = absurd cc
tells_once-from (reap ∷ es) code locked connected line h = absurd cc
tells_once-from (spawn ∷ es) code locked connected line h = absurd cc
tells_once-from (unlink path ∷ es) code locked connected line h =
    tells_once-from es code locked connected line h
tells_once-from (print l ∷ es) code locked connected none h =
    told_alone code l (printed es) (tells_once-from es code locked connected (some l) h)
tells_once-from (print l ∷ es) code locked connected (some line) h = absurd cc

pub tells_once-orderly : (r : Run) → is_orderly r ≡ true → tells_once r ≡ true
tells_once-orderly (effects, code) h = tells_once-from effects code false false none h

printed-append : (a b : List Effect) → printed (a ++ b) ≡ printed a ++ printed b
printed-append [] b = refl
printed-append (print line ∷ a) b = ap (λ (l : List Bytes). line ∷ l) (printed-append a b)
printed-append (lock ∷ a) b = printed-append a b
printed-append (unlock ∷ a) b = printed-append a b
printed-append (qmp_connect ∷ a) b = printed-append a b
printed-append (qmp_close ∷ a) b = printed-append a b
printed-append (qmp_type_line s enter ∷ a) b = printed-append a b
printed-append (qmp_send_key qcode ∷ a) b = printed-append a b
printed-append (save s ∷ a) b = printed-append a b
printed-append (qmp_quit ∷ a) b = printed-append a b
printed-append (kill signal ∷ a) b = printed-append a b
printed-append (reap ∷ a) b = printed-append a b
printed-append (spawn ∷ a) b = printed-append a b
printed-append (unlink path ∷ a) b = printed-append a b

-- a session that is not there is told of once
pub gone_tells : (before : List Effect) → Told (gone before) → tells_once (before, 3) ≡ true
gone_tells before h =
    let told = tells_once-from (before ++ unlock ∷ []) 3 true false none h in
    let same : printed (before ++ unlock ∷ []) ≡ printed before =
      printed-append before (unlock ∷ []) ∙ append-nil (printed before) in
    subst (λ (l : List Bytes). tells_alone 3 l ≡ true) same told

expect_found_tells :
    (w : World) (q : Query) (needle : Bytes) (r : Required)
    → Told r
    → tells_once (expect_found w q needle r) ≡ true
unfolding expect_found
expect_found_tells w q needle (gone before) h = gone_tells before h
expect_found_tells w q needle (found s) h = elim (Bool-cases (wait_expect needle w.polls)) [
  | inl e ↦ rw e (tells-result_line 0 q.id (codes "expect") _ [] (some w.ms))
  | inr e ↦ rw e (tells-result_line 1 q.id (codes "expect") _ (codes "timeout") (some w.ms))
]

pub expect_run_tells :
    (w : World) (q : Query) (needle : Option Bytes) → tells_once (expect_run w q needle) ≡ true
unfolding expect_run
expect_run_tells w q none =
    tells-result_line 2 q.id (codes "expect") none (codes "missing text") none
expect_run_tells w q (some needle) =
    expect_found_tells w q needle _ (require_session-Told w q.id (codes "expect"))

pub console_found_tells :
    (w : World) (q : Query) (r : Required) → Told r → tells_once (console_found w q r) ≡ true
unfolding console_found
console_found_tells w q (gone before) h = gone_tells before h
console_found_tells w q (found s) h = elim (Bool-cases (is_some (get_console_text w.answer 2033))) [
  | inl e ↦ rw e (tells-result_line 0 q.id (codes "console") _ [] none)
  | inr e ↦ rw e (tells-result_line 4 q.id (codes "console") none (codes "get_console failed") none)
]

printed-await_end : (w : World) (pid left i : ℕ) → printed (await_end w pid left i) ≡ []
unfolding await_end
printed-await_end w pid zero i = refl
printed-await_end w pid (suc left) i =
    let later = printed-await_end w pid left (i + 1) in
    elim (Bool-cases (pid_alive w (i + 1) pid)) [
      | inl e ↦ rw e (elim (Bool-cases (i == 30)) [ inl f ↦ rw f later | inr f ↦ rw f later ])
      | inr e ↦ rw e refl
    ]

printed-end_process : (w : World) (s : Session) → printed (end_process w s) ≡ []
unfolding end_process
printed-end_process w s =
    let waited =
      printed-append (await_end w s.pid 40 0) (reap ∷ [])
      ∙ ap (λ (l : List Bytes). l ++ []) (printed-await_end w s.pid 40 0) in
    elim (Bool-cases (pid_alive w 0 s.pid)) [
      | inl e ↦
          rw e (elim (Bool-cases w.connects) [ inl f ↦ simp f waited | inr f ↦ simp f waited ])
      | inr e ↦ rw e refl
    ]

pub stop_loaded_tells :
    (w : World) (q : Query) (o : Option Session) → tells_once (stop_loaded w q o) ≡ true
unfolding stop_loaded
stop_loaded_tells w q none =
    tells-result_line 0 q.id (codes "stop") none (codes "no session (already stopped)") (some 0)
stop_loaded_tells w q (some s) =
    rw
      (
        append_assoc (end_process w s) _ _,
        printed-append (end_process w s) _,
        printed-end_process w s,
      )
      (tells-result_line 0 q.id (codes "stop") none [] (some w.ms))

is_line-or_null : (g t : Bytes) → is_line g ≡ true → is_line (or_null g ++ t) ≡ is_line t
is_line-or_null [] t h = unfold is_line in refl
is_line-or_null (c ∷ g) t h = is_line-append (c ∷ g) t (IsPrintable-is_line (c ∷ g) h)

tells-status_line :
    (w : World) (q : Query) (s : Session)
    → is_line (guest_status w.answer) ≡ true
    → tells 0 (some (status_line w q s)) ≡ true
unfolding status_line is_line
tells-status_line w q s h = tells-result_head 0 _ (
    simp (is_line-escaped, format_int-IsDecimal)
      (is_line-or_null (guest_status w.answer) (codes "}") h))

pub status_found_tells :
    (w : World) (q : Query) (r : Required)
    → is_line (guest_status w.answer) ≡ true
    → Told r
    → tells_once (status_found w q r) ≡ true
unfolding status_found
status_found_tells w q (gone before) line h = gone_tells before h
status_found_tells w q (found s) line h = tells-status_line w q s line

-- ===== src/Session/Orderly.antt =====
-- How the commands of cli/session.c that type into the guest use the lock, the QMP connection and the
-- standard output.
use qemu_mip.Prelude.{
  ℕ, ◌≡◌, refl, Bool, true, false, ◌&&◌, not, Option, none, some, List, [], ◌∷◌, ◌++◌, Bytes, codes,
  arith, starts_with, is_some, if◌then◌else◌, Bool-cases, inl, inr,
}
use qemu_mip.Protocol.Escape.{escaped, escaped-IsPrintable}
use qemu_mip.Protocol.Framing.{is_line, is_line-append}
use qemu_mip.Protocol.Print.{format, format_bool, format-IsPrintable, format_bool-IsPrintable}
use qemu_mip.Session.{Session, load_session, session_path}
use qemu_mip.Session.Command.{
  Effect, lock, unlock, qmp_connect, qmp_close, qmp_type_line, qmp_send_key, save, qmp_quit, kill,
  reap, spawn, unlink, print, World, Run, result_head, result_line, duration_field, error_field,
  console_field, Required, gone, found, require_session, if_alive, pid_alive,
}

-- What a command holds: the lock of the session and the QMP connection; and the line it has printed.
pub record Held : Type 0 where
  pub locked : Bool
  pub connected : Bool
  pub printed : Option Bytes

abbrev pub idle : Held
idle = record { locked = false; connected = false; printed = none }

-- An effect in its order, or `none`: the lock is taken once at a time and given back without an connected
-- connection; keys are typed, and the file of the session is written, only under the lock, keys only
-- through the connection; a line is printed once.
abbrev pub step : Effect → Held → Option Held
step lock h = if h.locked then none else some (record h { locked = true })
step unlock h = if h.locked && not h.connected then some (record h { locked = false }) else none
step qmp_connect h =
    if h.locked && not h.connected then some (record h { connected = true }) else none
step qmp_close h = if h.connected then some (record h { connected = false }) else none
step (qmp_type_line s enter) h = if h.locked && h.connected then some h else none
step (qmp_send_key qcode) h = if h.locked && h.connected then some h else none
step (save s) h = if h.locked then some h else none
step qmp_quit h = none
step (kill signal) h = none
step reap h = none
step spawn h = none
step (unlink path) h = some h
step (print line) h = if is_some h.printed then none else some (record h { printed = some line })

abbrev pub steps : List Effect → Option Held → Option Held
steps effects none = none
steps [] (some h) = some h
steps (e ∷ effects) (some h) = steps effects (step e h)

-- The line of JSON tells the exit code, and has no control character.
unfoldable pub tells : ℕ → Option Bytes → Bool
tells code none = false
tells code (some line) = starts_with line (result_head code []) && is_line line

-- Nothing is held, and the line that tells the exit code is printed.
abbrev pub finished : ℕ → Option Held → Bool
finished code none = false
finished code (some h) = not h.locked && not h.connected && tells code h.printed

abbrev pub is_orderly_from : Held → Run → Bool
is_orderly_from h (effects, code) = finished code (steps effects (some h))

abbrev pub is_orderly : Run → Bool
is_orderly run = is_orderly_from idle run

pub is_line-format : (n : ℕ) (t : Bytes) → is_line (format n ++ t) ≡ is_line t
is_line-format n t = is_line-append (format n) t (format-IsPrintable n)

pub is_line-format_bool : (b : Bool) (t : Bytes) → is_line (format_bool b ++ t) ≡ is_line t
is_line-format_bool b t = is_line-append (format_bool b) t (format_bool-IsPrintable b)

pub is_line-escaped : (s t : Bytes) → is_line (escaped s ++ t) ≡ is_line t
is_line-escaped s t = is_line-append (escaped s) t (escaped-IsPrintable s)

pub ruleset telling = (is_line-format, is_line-format_bool, is_line-escaped)

starts_with-same : (s t u : Bytes) → starts_with (s ++ t) (s ++ u) ≡ starts_with t u
unfolding starts_with
starts_with-same [] t u = refl
starts_with-same (c ∷ s) t u = ground (arith, starts_with-same s t u)

starts_with-result_head :
    (code : ℕ) (rest : Bytes) → starts_with (result_head code rest) (result_head code []) ≡ true
unfolding starts_with
starts_with-result_head code rest = simp starts_with-same

is_line-result_head : (code : ℕ) (rest : Bytes) → is_line (result_head code rest) ≡ is_line rest
unfolding is_line
is_line-result_head code rest = simp telling

pub tells-result_head :
    (code : ℕ) (rest : Bytes)
    → is_line rest ≡ true
    → tells code (some (result_head code rest)) ≡ true
unfolding tells
tells-result_head code rest h =
    rw (starts_with-result_head code rest, is_line-result_head code rest, h) refl

is_line-duration_field :
    (ms : Option ℕ) (rest : Bytes) → is_line (duration_field ms rest) ≡ is_line rest
unfolding is_line
is_line-duration_field none rest = refl
is_line-duration_field (some ms) rest = simp telling

is_line-error_field : (error rest : Bytes) → is_line (error_field error rest) ≡ is_line rest
unfolding is_line
is_line-error_field [] rest = refl
is_line-error_field (c ∷ s) rest = is_line-escaped (c ∷ s) (b'"' ∷ rest)

is_line-console_field :
    (console : Option Bytes) (rest : Bytes) → is_line (console_field console rest) ≡ is_line rest
unfolding is_line
is_line-console_field none rest = refl
is_line-console_field (some text) rest = simp telling

pub tells-result_line :
    (code : ℕ) (id op : Bytes) (console : Option Bytes) (error : Bytes) (ms : Option ℕ)
    → tells code (some (result_line code id op console error ms)) ≡ true
unfolding result_line is_line
tells-result_line code id op console error ms =
    tells-result_head code _
      (simp (is_line-escaped, is_line-duration_field, is_line-error_field, is_line-console_field))

-- a session that is not there: the line is printed already
abbrev pub Told : Required → Type 0
Told (gone before) =
    is_orderly_from (record idle { locked = true }) (before ++ unlock ∷ [], 3) ≡ true
Told (found s) = Unit

if_alive-Told : (w : World) (id op : Bytes) (o : Option Session) → Told (if_alive w id op o)
if_alive-Told w id op none = tells-result_line 3 id op none (codes "no such session") none
if_alive-Told w id op (some s) = elim (Bool-cases (pid_alive w 0 s.pid)) [
  | inl e ↦ rw e tt
  | inr e ↦ rw e (tells-result_line 3 id op none (codes "session QEMU dead") none)
]

pub require_session-Told : (w : World) (id op : Bytes) → Told (require_session w id op)
unfolding require_session
require_session-Told w id op =
    if_alive-Told w id op (load_session w.environ id (w.file (session_path w.environ id 320)))

-- ===== src/Session/Serial.antt =====
-- That `session_cmd`, `session_type` and `session_key` of cli/session.c keep their order on every path.
use qemu_mip.Prelude.{
  ℕ, zero, suc, ◌+◌, append_assoc, ◌≡◌, refl, ◌∙◌, Bool, true, false, Option, none, some, List, [],
  ◌∷◌, ◌++◌, Bytes, codes, Bool-cases, inl, inr, ◌==◌,
}
use qemu_mip.Protocol.Framing.{is_line}
use qemu_mip.Session.{Session, or_else_text, session_prompt}
use qemu_mip.Session.Command.{
  Effect, World, Required, gone, found, require_session, note_last_expect, shown_console,
  wait_expect, Parsed, unknown, parsed, parse,
}
use qemu_mip.Session.Orderly.{
  Held, idle, steps, is_orderly, is_orderly_from, Told, require_session-Told, tells,
  tells-result_head, tells-result_line, telling, is_line-escaped, is_line-format,
  is_line-format_bool,
}
use qemu_mip.Session.Shell.{
  Cmd, cmd_line, cmd_done, cmd_typing, cmd_run, session_cmd, cmd_option, cmd_word, cmd_defaults,
}
use qemu_mip.Session.Typing.{
  Request, type_result, type_code, expect_fields, type_done, noted, expected, type_typing,
  type_given, type_run, session_type, type_option, type_word, type_defaults, Press, key_result,
  key_sent, send_keys, key_pressing, key_given, key_run, session_key, key_option, key_word,
  key_defaults,
}

abbrev under_lock : Held
under_lock = record idle { locked = true }

tells-cmd_line :
    (c : Cmd) (prompt : Bytes) (ms : ℕ) (console : Bytes)
    → tells 0 (some (cmd_line c prompt ms console)) ≡ true
unfolding cmd_line is_line
tells-cmd_line c prompt ms console = tells-result_head 0 _ (simp telling)

cmd_done_orderly :
    (w : World) (c : Cmd) (prompt : Bytes) (b : Bool)
    → is_orderly_from under_lock (cmd_done w c prompt b) ≡ true
unfolding cmd_done
cmd_done_orderly w c prompt true =
    tells-cmd_line c prompt w.ms (shown_console w 2033 c.console_lines)
cmd_done_orderly w c prompt false =
    tells-result_line 1 c.id (codes "cmd") (some (shown_console w 4096 c.console_lines))
      (codes "timeout waiting for prompt after cmd") (some w.ms)

cmd_typing_orderly :
    (w : World) (c : Cmd) (r : Required)
    → Told r
    → is_orderly_from under_lock (cmd_typing w c r) ≡ true
unfolding cmd_typing note_last_expect
cmd_typing_orderly w c (gone before) h = h
cmd_typing_orderly w c (found s) h =
    let prompt = or_else_text c.prompt_override (session_prompt w.environ s) in
    elim (Bool-cases w.connects) [
      | inr e ↦
          simp e
            (tells-result_line 4 c.id (codes "cmd") none (codes "qmp connect failed") (some w.ms))
      | inl e ↦ elim (Bool-cases w.types) [
        | inr f ↦
            simp (e, f)
              (tells-result_line 1 c.id (codes "cmd") none (codes "type failed") (some w.ms))
        | inl f ↦ elim (Bool-cases c.wait_for_prompt) [
          | inl g ↦ simp (e, f, g) (cmd_done_orderly w c prompt (wait_expect prompt w.polls))
          | inr g ↦ simp (e, f, g) (cmd_done_orderly w c prompt true)
        ]
      ]
    ]

cmd_run_orderly : (w : World) (p : Parsed Cmd) → is_orderly (cmd_run w p) ≡ true
unfolding cmd_run
cmd_run_orderly w (unknown c) =
    tells-result_line 2 c.id (codes "cmd") none (codes "unknown flag") none
cmd_run_orderly w (parsed c) = elim (Bool-cases (c.words == 0)) [
  | inl e ↦
      simp e (tells-result_line 2 c.id (codes "cmd") none (codes "missing shell command") none)
  | inr e ↦ elim (Bool-cases w.locks) [
    | inr f ↦
        simp (e, f) (tells-result_line 1 c.id (codes "cmd") none (codes "session lock failed") none)
    | inl f ↦
        simp (e, f)
          (cmd_typing_orderly w c (require_session w c.id (codes "cmd"))
            (require_session-Told w c.id (codes "cmd")))
  ]
]

is_line-expect_fields :
    (needle : Bytes) (b : Bool) (rest : Bytes)
    → is_line (expect_fields needle b rest) ≡ is_line rest
unfolding is_line
is_line-expect_fields [] b rest = refl
is_line-expect_fields (c ∷ needle) true rest =
    is_line-escaped (c ∷ needle) _ ∙ is_line-format_bool true _
is_line-expect_fields (c ∷ needle) false rest =
    is_line-escaped (c ∷ needle) _ ∙ is_line-format_bool false _

tells-type_result :
    (r : Request) (text : Bytes) (b : Bool) (ms : ℕ) (console : Bytes)
    → tells (type_code b) (some (type_result r text b ms console)) ≡ true
unfolding type_result is_line
tells-type_result r text b ms console =
    tells-result_head (type_code b) _
      (simp (is_line-escaped, is_line-format, is_line-format_bool, is_line-expect_fields))

type_done_orderly :
    (w : World) (r : Request) (text : Bytes) (b : Bool)
    → is_orderly_from under_lock (type_done w r text b) ≡ true
unfolding type_done
type_done_orderly w r text b =
    tells-type_result r text b w.ms (shown_console w 2033 r.console_lines)

noted_orderly :
    (s : Session) (needle : Bytes) (t : List Effect)
    → steps (noted s needle ++ t) (some under_lock) ≡ steps t (some under_lock)
unfolding note_last_expect
noted_orderly s [] t = refl
noted_orderly s (c ∷ needle) t = refl

type_typing_orderly :
    (w : World) (r : Request) (text : Bytes) (q : Required)
    → Told q
    → is_orderly_from under_lock (type_typing w r text q) ≡ true
unfolding type_typing
type_typing_orderly w r text (gone before) h = h
type_typing_orderly w r text (found s) h = elim (Bool-cases w.connects) [
  | inr e ↦
      simp e (tells-result_line 4 r.id (codes "type") none (codes "qmp connect failed") (some w.ms))
  | inl e ↦ elim (Bool-cases w.types) [
    | inr f ↦
        simp (e, f) (tells-result_line 1 r.id (codes "type") none (codes "type failed") (some w.ms))
    | inl f ↦ simp (e, f, noted_orderly) (type_done_orderly w r text (expected w r.expect))
  ]
]

type_given_orderly :
    (w : World) (r : Request) (text : Option Bytes) → is_orderly (type_given w r text) ≡ true
unfolding type_given
type_given_orderly w r none =
    tells-result_line 2 r.id (codes "type") none (codes "missing text") none
type_given_orderly w r (some text) = elim (Bool-cases w.locks) [
  | inr f ↦ simp f (tells-result_line 1 r.id (codes "type") none (codes "session lock failed") none)
  | inl f ↦ simp f (
      type_typing_orderly w r text (require_session w r.id (codes "type"))
        (require_session-Told w r.id (codes "type")))
]

type_run_orderly : (w : World) (p : Parsed Request) → is_orderly (type_run w p) ≡ true
unfolding type_run
type_run_orderly w (unknown r) =
    tells-result_line 2 r.id (codes "type") none (codes "unknown flag") none
type_run_orderly w (parsed r) = type_given_orderly w r r.text_in

tells-key_result :
    (k : Press) (qcode : Bytes) (ms : ℕ) (console : Bytes)
    → tells 0 (some (key_result k qcode ms console)) ≡ true
unfolding key_result is_line
tells-key_result k qcode ms console = tells-result_head 0 _ (simp telling)

abbrev typing : Held
typing = record under_lock { connected = true }

send_keys_orderly :
    (w : World) (qcode : Bytes) (left n : ℕ) (t : List Effect)
    → steps ((send_keys w qcode left n).0 ++ t) (some typing) ≡ steps t (some typing)
unfolding send_keys
send_keys_orderly w qcode zero n t = refl
send_keys_orderly w qcode (suc left) n t = elim (Bool-cases (w.keys n)) [
  | inl e ↦ simp e (send_keys_orderly w qcode left (n + 1) t)
  | inr e ↦ simp e refl
]

key_sent_orderly :
    (w : World) (k : Press) (qcode : Bytes) (sent : List Effect) (b : Bool)
    → ((t : List Effect) → steps (sent ++ t) (some typing) ≡ steps t (some typing))
    → is_orderly_from typing (key_sent w k qcode (sent, b)) ≡ true
unfolding key_sent
key_sent_orderly w k qcode sent true h =
    simp h (tells-key_result k qcode w.ms (shown_console w 2033 0))
key_sent_orderly w k qcode sent false h =
    simp (append_assoc, h)
      (tells-result_line 1 k.id (codes "key") none (codes "send-key failed") (some w.ms))

key_pressing_orderly :
    (w : World) (k : Press) (qcode : Bytes) (q : Required)
    → Told q
    → is_orderly_from under_lock (key_pressing w k qcode q) ≡ true
unfolding key_pressing
key_pressing_orderly w k qcode (gone before) h = h
key_pressing_orderly w k qcode (found s) h = elim (Bool-cases w.connects) [
  | inr e ↦
      simp e (tells-result_line 4 k.id (codes "key") none (codes "qmp connect failed") (some w.ms))
  | inl e ↦
      let keys = send_keys w qcode k.repeat 0 in
      simp e (key_sent_orderly w k qcode keys.0 keys.1 (send_keys_orderly w qcode k.repeat 0))
]

key_given_orderly :
    (w : World) (k : Press) (qcode : Option Bytes) → is_orderly (key_given w k qcode) ≡ true
unfolding key_given
key_given_orderly w k none =
    tells-result_line 2 k.id (codes "key") none (codes "missing qcode") none
key_given_orderly w k (some []) =
    tells-result_line 2 k.id (codes "key") none (codes "missing qcode") none
key_given_orderly w k (some (c ∷ qcode)) = elim (Bool-cases w.locks) [
  | inr f ↦ simp f (tells-result_line 1 k.id (codes "key") none (codes "session lock failed") none)
  | inl f ↦ simp f (
      key_pressing_orderly w k (c ∷ qcode) (require_session w k.id (codes "key"))
        (require_session-Told w k.id (codes "key")))
]

key_run_orderly : (w : World) (p : Parsed Press) → is_orderly (key_run w p) ≡ true
unfolding key_run
key_run_orderly w (unknown k) =
    tells-result_line 2 k.id (codes "key") none (codes "unknown flag") none
key_run_orderly w (parsed k) = key_given_orderly w k k.qcode

-- Whatever the arguments and whatever the system answers, errors included, `cmd`, `type` and `key` type only
-- under the lock of the session and through an open connection, write the file of the session only under
-- the lock, have closed the connection and then given back the lock at their end, and print exactly one
-- line, without control characters, which begins with their exit code and with whether it is 0.
pub session_input_orderly :
    (w : World) (argv : List Bytes)
    → (is_orderly (session_cmd w argv) ≡ true)
      × (is_orderly (session_type w argv) ≡ true)
      × (is_orderly (session_key w argv) ≡ true)
unfolding session_cmd session_type session_key
session_input_orderly w argv = (
  cmd_run_orderly w (parse cmd_option cmd_word argv cmd_defaults),
  type_run_orderly w (parse type_option type_word argv type_defaults),
  key_run_orderly w (parse key_option key_word argv key_defaults),
)

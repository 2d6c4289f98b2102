-- ===== src/Session/Typing.antt =====
-- `session_type` and `session_key` of cli/session.c.
use qemu_mip.Agent.{atoi}
use qemu_mip.Prelude.{
  ℕ, zero, suc, ◌+◌, Bool, true, false, not, Option, none, some, List, [], ◌∷◌, ◌++◌, Bytes, codes,
  str_eq, starts_with, ltb, is_some, if◌then◌else◌,
}
use qemu_mip.Protocol.Print.{format, format_bool}
use qemu_mip.Session.Command.{
  Effect, lock, unlock, qmp_connect, qmp_close, qmp_type_line, qmp_send_key, print, World, Run,
  then_run, quoted, result_head, fail, wait_expect, shown_console, Required, gone, found,
  require_session, note_last_expect, Parsed, unknown, parsed, parse,
}
use qemu_mip.Session.{Session}

-- the variables of `session_type`; a text or a needle that is not given is `none`
pub record Request : Type 0 where
  pub id : Bytes
  pub text_in : Option Bytes
  pub expect : Bytes
  pub console_lines : ℕ
  pub enter : Bool

abbrev pub type_defaults : Request
type_defaults = record {
  id = codes "default";
  text_in = none;
  expect = [];
  console_lines = 0;
  enter = true;
}

unfoldable pub type_option : Bytes → Bytes → Request → Option Request
unfolding str_eq
type_option arg val r =
    if str_eq arg (codes "--id")
    then some (record r { id = val })
    else if str_eq arg (codes "--timeout")
    then some r
    else if str_eq arg (codes "--expect")
    then some (record r { expect = val })
    else if str_eq arg (codes "--console-lines")
    then some (record r { console_lines = atoi val })
    else none

unfoldable pub type_word : Bytes → Request → Option Request
unfolding str_eq starts_with
type_word arg r =
    if str_eq arg (codes "--no-enter")
    then some (record r { enter = false })
    else if str_eq arg (codes "--enter")
    then some (record r { enter = true })
    else if starts_with arg (codes "-")
    then none
    else if is_some r.text_in
    then some r
    else some (record r { text_in = some arg })

-- the fields that are there where something is expected
abbrev pub expect_fields : Bytes → Bool → Bytes → Bytes
expect_fields [] expect_ok rest = rest
expect_fields (c ∷ needle) expect_ok rest =
    codes ",\"expect\":"
    ++ quoted (c ∷ needle) (
        codes ",\"expect_ok\":"
        ++ (format_bool expect_ok
            ++ ((if expect_ok then [] else codes ",\"error\":\"timeout waiting for expect\"")
                ++ rest)))

abbrev pub type_code : Bool → ℕ
type_code expect_ok = if expect_ok then 0 else 1

unfoldable pub type_result : Request → Bytes → Bool → ℕ → Bytes → Bytes
type_result r text expect_ok ms console = result_head (type_code expect_ok) (
    codes "\"op\":\"type\",\"session_id\":"
    ++ quoted r.id (
        codes ",\"text\":"
        ++ quoted text (
            codes ",\"enter\":"
            ++ (format_bool r.enter
                ++ expect_fields r.expect expect_ok (
                    codes ",\"duration_ms\":"
                    ++ (format ms ++ (codes ",\"console\":" ++ quoted console (codes "}"))))))))

unfoldable pub type_done : World → Request → Bytes → Bool → Run
type_done w r text expect_ok = (
  unlock ∷ print (type_result r text expect_ok w.ms (shown_console w 2033 r.console_lines)) ∷ [],
  type_code expect_ok,
)

-- what is noted before the wait, where something is expected
abbrev pub noted : Session → Bytes → List Effect
noted s [] = []
noted s (c ∷ needle) = note_last_expect s (c ∷ needle) ∷ []

abbrev pub expected : World → Bytes → Bool
expected w [] = true
expected w (c ∷ needle) = wait_expect (c ∷ needle) w.polls

unfoldable pub type_typing : World → Request → Bytes → Required → Run
type_typing w r text (gone before) = (before ++ unlock ∷ [], 3)
type_typing w r text (found s) =
    if not w.connects
    then then_run (unlock ∷ [])
        (fail 4 r.id (codes "type") none (codes "qmp connect failed") (some w.ms))
    else if not w.types
    then then_run (qmp_connect ∷ qmp_type_line text r.enter ∷ qmp_close ∷ unlock ∷ [])
        (fail 1 r.id (codes "type") none (codes "type failed") (some w.ms))
    else then_run (qmp_connect ∷ qmp_type_line text r.enter ∷ qmp_close ∷ noted s r.expect)
        (type_done w r text (expected w r.expect))

unfoldable pub type_given : World → Request → Option Bytes → Run
type_given w r none = fail 2 r.id (codes "type") none (codes "missing text") none
type_given w r (some text) =
    if not w.locks
    then fail 1 r.id (codes "type") none (codes "session lock failed") none
    else then_run (lock ∷ []) (type_typing w r text (require_session w r.id (codes "type")))

unfoldable pub type_run : World → Parsed Request → Run
type_run w (unknown r) = fail 2 r.id (codes "type") none (codes "unknown flag") none
type_run w (parsed r) = type_given w r r.text_in

unfoldable pub session_type : World → List Bytes → Run
session_type w argv = type_run w (parse type_option type_word argv type_defaults)

-- the variables of `session_key`; a key that is not given is `none`
pub record Press : Type 0 where
  pub id : Bytes
  pub qcode : Option Bytes
  pub repeat : ℕ

abbrev pub key_defaults : Press
key_defaults = record { id = codes "default"; qcode = none; repeat = 1 }

-- from 1 to 100
unfoldable pub clamp : ℕ → ℕ
clamp n = if ltb n 1 then 1 else if ltb 100 n then 100 else n

unfoldable pub key_option : Bytes → Bytes → Press → Option Press
unfolding str_eq clamp
key_option arg val k =
    if str_eq arg (codes "--id")
    then some (record k { id = val })
    else if str_eq arg (codes "--repeat")
    then some (record k { repeat = clamp (atoi val) })
    else none

unfoldable pub key_word : Bytes → Press → Option Press
unfolding starts_with
key_word arg k =
    if starts_with arg (codes "-")
    then none
    else if is_some k.qcode
    then some k
    else some (record k { qcode = some arg })

-- The loop, with so many rounds left and the number of this one: the keys sent, and whether each was.
unfoldable pub send_keys : World → Bytes → ℕ → ℕ → List Effect × Bool
send_keys w qcode zero n = ([], true)
send_keys w qcode (suc left) n =
    let rest = send_keys w qcode left (n + 1) in
    if w.keys n then (qmp_send_key qcode ∷ rest.0, rest.1) else (qmp_send_key qcode ∷ [], false)

unfoldable pub key_result : Press → Bytes → ℕ → Bytes → Bytes
key_result k qcode ms console = result_head 0 (
    codes "\"op\":\"key\",\"session_id\":"
    ++ quoted k.id (
        codes ",\"qcode\":"
        ++ quoted qcode (
            codes ",\"repeat\":"
            ++ (format k.repeat
                ++ (codes ",\"duration_ms\":"
                    ++ (format ms ++ (codes ",\"console\":" ++ quoted console (codes "}"))))))))

unfoldable pub key_sent : World → Press → Bytes → List Effect × Bool → Run
key_sent w k qcode (sent, true) = (
  sent ++ (qmp_close ∷ unlock ∷ print (key_result k qcode w.ms (shown_console w 2033 0)) ∷ []),
  0,
)
key_sent w k qcode (sent, false) =
    then_run (sent ++ (qmp_close ∷ unlock ∷ []))
      (fail 1 k.id (codes "key") none (codes "send-key failed") (some w.ms))

unfoldable pub key_pressing : World → Press → Bytes → Required → Run
key_pressing w k qcode (gone before) = (before ++ unlock ∷ [], 3)
key_pressing w k qcode (found s) =
    if not w.connects
    then then_run (unlock ∷ [])
        (fail 4 k.id (codes "key") none (codes "qmp connect failed") (some w.ms))
    else then_run (qmp_connect ∷ []) (key_sent w k qcode (send_keys w qcode k.repeat 0))

unfoldable pub key_given : World → Press → Option Bytes → Run
key_given w k none = fail 2 k.id (codes "key") none (codes "missing qcode") none
key_given w k (some []) = fail 2 k.id (codes "key") none (codes "missing qcode") none
key_given w k (some (c ∷ qcode)) =
    if not w.locks
    then fail 1 k.id (codes "key") none (codes "session lock failed") none
    else then_run (lock ∷ []) (key_pressing w k (c ∷ qcode) (require_session w k.id (codes "key")))

unfoldable pub key_run : World → Parsed Press → Run
key_run w (unknown k) = fail 2 k.id (codes "key") none (codes "unknown flag") none
key_run w (parsed k) = key_given w k k.qcode

unfoldable pub session_key : World → List Bytes → Run
session_key w argv = key_run w (parse key_option key_word argv key_defaults)

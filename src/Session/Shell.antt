-- ===== src/Session/Shell.antt =====
-- `session_cmd` of cli/session.c, which types a shell command into the guest.
use qemu_mip.Agent.{atoi}
use qemu_mip.Prelude.{
  ℕ, ◌+◌, ◌-◌, Bool, true, false, not, Option, none, some, List, [], ◌∷◌, ◌++◌, Bytes, codes,
  str_eq, starts_with, take, ◌==◌, if◌then◌else◌, length,
}
use qemu_mip.Protocol.Print.{format, format_bool}
use qemu_mip.Session.{session_prompt, or_else_text}
use qemu_mip.Session.Command.{
  lock, unlock, qmp_connect, qmp_close, qmp_type_line, print, World, Run, then_run, quoted,
  result_head, fail, wait_expect, shown_console, Required, gone, found, require_session,
  note_last_expect, Parsed, unknown, parsed, parse,
}

-- the variables of `session_cmd`; `timeout_ms` counts only in the rounds of `wait_expect`
pub record Cmd : Type 0 where
  pub id : Bytes
  pub prompt_override : Bytes
  pub console_lines : ℕ
  pub wait_for_prompt : Bool
  pub line : Bytes
  pub words : ℕ

abbrev pub cmd_defaults : Cmd
cmd_defaults = record {
  id = codes "default";
  prompt_override = [];
  console_lines = 0;
  wait_for_prompt = true;
  line = [];
  words = 0;
}

-- `strncat(line, s, sizeof(line) - strlen(line) - 1)`
unfoldable pub strncat_line : Bytes → Bytes → Bytes
strncat_line line s = line ++ take (512 - length line - 1) s

unfoldable pub add_word : Bytes → Bytes → Bytes
unfolding strncat_line
add_word [] word = strncat_line [] word
add_word (c ∷ line) word = strncat_line (strncat_line (c ∷ line) (codes " ")) word

unfoldable pub cmd_option : Bytes → Bytes → Cmd → Option Cmd
unfolding str_eq
cmd_option arg val c =
    if str_eq arg (codes "--id")
    then some (record c { id = val })
    else if str_eq arg (codes "--prompt")
    then some (record c { prompt_override = val })
    else if str_eq arg (codes "--timeout")
    then some c
    else if str_eq arg (codes "--console-lines")
    then some (record c { console_lines = atoi val })
    else none

unfoldable pub cmd_word : Bytes → Cmd → Option Cmd
unfolding str_eq starts_with add_word
cmd_word arg c =
    if str_eq arg (codes "--no-wait")
    then some (record c { wait_for_prompt = false })
    else if starts_with arg (codes "-")
    then none
    else some (record c { line = add_word c.line arg; words = c.words + 1 })

unfoldable pub cmd_line : Cmd → Bytes → ℕ → Bytes → Bytes
cmd_line c prompt ms console = result_head 0 (
    codes "\"op\":\"cmd\",\"session_id\":"
    ++ quoted c.id (
        codes ",\"cmd\":"
        ++ quoted c.line (
            codes ",\"prompt\":"
            ++ quoted prompt (
                codes ",\"wait\":"
                ++ (format_bool c.wait_for_prompt
                    ++ (codes ",\"duration_ms\":"
                        ++ (format ms
                            ++ (codes ",\"console\":" ++ quoted console (codes "}")))))))))

-- behind the wait for the prompt
unfoldable pub cmd_done : World → Cmd → Bytes → Bool → Run
cmd_done w c prompt true =
    (unlock ∷ print (cmd_line c prompt w.ms (shown_console w 2033 c.console_lines)) ∷ [], 0)
cmd_done w c prompt false = then_run (unlock ∷ []) (
    fail 1 c.id (codes "cmd") (some (shown_console w 4096 c.console_lines))
      (codes "timeout waiting for prompt after cmd") (some w.ms))

-- behind `require_session`
unfoldable pub cmd_typing : World → Cmd → Required → Run
cmd_typing w c (gone before) = (before ++ unlock ∷ [], 3)
cmd_typing w c (found s) =
    let prompt = or_else_text c.prompt_override (session_prompt w.environ s) in
    if not w.connects
    then then_run (unlock ∷ [])
        (fail 4 c.id (codes "cmd") none (codes "qmp connect failed") (some w.ms))
    else if not w.types
    then then_run (qmp_connect ∷ qmp_type_line c.line true ∷ qmp_close ∷ unlock ∷ [])
        (fail 1 c.id (codes "cmd") none (codes "type failed") (some w.ms))
    else if c.wait_for_prompt
    then then_run
        (qmp_connect ∷ qmp_type_line c.line true ∷ qmp_close ∷ note_last_expect s prompt ∷ [])
        (cmd_done w c prompt (wait_expect prompt w.polls))
    else then_run (qmp_connect ∷ qmp_type_line c.line true ∷ qmp_close ∷ [])
        (cmd_done w c prompt true)

unfoldable pub cmd_run : World → Parsed Cmd → Run
cmd_run w (unknown c) = fail 2 c.id (codes "cmd") none (codes "unknown flag") none
cmd_run w (parsed c) =
    if c.words == 0
    then fail 2 c.id (codes "cmd") none (codes "missing shell command") none
    else if not w.locks
    then fail 1 c.id (codes "cmd") none (codes "session lock failed") none
    else then_run (lock ∷ []) (cmd_typing w c (require_session w c.id (codes "cmd")))

unfoldable pub session_cmd : World → List Bytes → Run
session_cmd w argv = cmd_run w (parse cmd_option cmd_word argv cmd_defaults)

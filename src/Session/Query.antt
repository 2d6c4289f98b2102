-- ===== src/Session/Query.antt =====
-- `session_expect`, `session_console` and `session_status` of cli/session.c.
use qemu_mip.Agent.{atoi}
use qemu_mip.Paths.{trim_end, is_eol}
use qemu_mip.Prelude.{
  ℕ, ◌&&◌, not, Option, none, some, List, [], ◌∷◌, ◌++◌, Bytes, codes, str_eq, starts_with,
  snprintf, is_some, if◌then◌else◌,
}
use qemu_mip.Session.{Session, session_prompt, format_int}
use qemu_mip.Session.Command.{
  print, World, Run, quoted, result_head, fail, wait_expect, shown_console, get_console_text,
  Required, gone, found, require_session, Parsed, unknown, parsed, parse,
}

-- the variables of the three; each passes over the arguments that it does not know
pub record Query : Type 0 where
  pub id : Bytes
  pub needle : Option Bytes
  pub console_lines : ℕ

abbrev pub query_defaults : Query
query_defaults = record { id = codes "default"; needle = none; console_lines = 0 }

unfoldable pub expect_option : Bytes → Bytes → Query → Option Query
unfolding str_eq
expect_option arg val q =
    if str_eq arg (codes "--id")
    then some (record q { id = val })
    else if str_eq arg (codes "--timeout")
    then some q
    else none

unfoldable pub expect_word : Bytes → Query → Option Query
unfolding starts_with
expect_word arg q =
    if not (is_some q.needle) && not (starts_with arg (codes "-"))
    then some (record q { needle = some arg })
    else some q

unfoldable pub console_option : Bytes → Bytes → Query → Option Query
unfolding str_eq
console_option arg val q =
    if str_eq arg (codes "--id")
    then some (record q { id = val })
    else if str_eq arg (codes "--console-lines")
    then some (record q { console_lines = atoi val })
    else none

unfoldable pub id_option : Bytes → Bytes → Query → Option Query
unfolding str_eq
id_option arg val q = if str_eq arg (codes "--id") then some (record q { id = val }) else none

abbrev pub any_word : Bytes → Query → Option Query
any_word arg q = some q

abbrev pub query : Parsed Query → Query
query (unknown q) = q
query (parsed q) = q

unfoldable pub expect_found : World → Query → Bytes → Required → Run
expect_found w q needle (gone before) = (before, 3)
expect_found w q needle (found s) =
    let text = some (shown_console w 4096 0) in
    if wait_expect needle w.polls
    then fail 0 q.id (codes "expect") text [] (some w.ms)
    else fail 1 q.id (codes "expect") text (codes "timeout") (some w.ms)

unfoldable pub expect_run : World → Query → Option Bytes → Run
expect_run w q none = fail 2 q.id (codes "expect") none (codes "missing text") none
expect_run w q (some needle) = expect_found w q needle (require_session w q.id (codes "expect"))

unfoldable pub session_expect : World → List Bytes → Run
session_expect w argv =
    let q = query (parse expect_option expect_word argv query_defaults) in expect_run w q q.needle

unfoldable pub console_found : World → Query → Required → Run
console_found w q (gone before) = (before, 3)
console_found w q (found s) =
    if is_some (get_console_text w.answer 2033)
    then fail 0 q.id (codes "console") (some (shown_console w 2033 q.console_lines)) [] none
    else fail 4 q.id (codes "console") none (codes "get_console failed") none

unfoldable pub session_console : World → List Bytes → Run
session_console w argv =
    let q = query (parse console_option any_word argv query_defaults) in
    console_found w q (require_session w q.id (codes "console"))

-- the guest's status: the plugin's answer without its line feed, or what stands for it
abbrev pub guest_status : Option Bytes → Bytes
guest_status none = codes "{}"
guest_status (some raw) = trim_end is_eol (snprintf 8192 raw)

abbrev pub or_null : Bytes → Bytes
or_null [] = codes "null"
or_null (c ∷ s) = c ∷ s

unfoldable pub status_line : World → Query → Session → Bytes
status_line w q s = result_head 0 (
    codes "\"op\":\"status\",\"session_id\":"
    ++ quoted q.id (
        codes ",\"pid\":"
        ++ (format_int s.pid
            ++ (codes ",\"alive\":true,\"prompt\":"
                ++ quoted (session_prompt w.environ s) (
                    codes ",\"last_expect\":"
                    ++ quoted s.last_expect (
                        codes ",\"iso\":"
                        ++ quoted s.iso (
                            codes ",\"disk\":"
                            ++ quoted s.disk (
                                codes ",\"plugin_sock\":"
                                ++ quoted s.plugin_sock (
                                    codes ",\"qmp_sock\":"
                                    ++ quoted s.qmp_sock (
                                        codes ",\"guest_status\":"
                                        ++ (or_null (guest_status w.answer) ++ codes "}")))))))))))

unfoldable pub status_found : World → Query → Required → Run
status_found w q (gone before) = (before, 3)
status_found w q (found s) = (print (status_line w q s) ∷ [], 0)

unfoldable pub session_status : World → List Bytes → Run
session_status w argv =
    let q = query (parse id_option any_word argv query_defaults) in
    status_found w q (require_session w q.id (codes "status"))

-- ===== src/Session/Dispatch.antt =====
-- `qc_cmd_session` of cli/session.c: the subcommands together, and what each prints.
use qemu_mip.Session.Once.{
  tells_once-orderly, expect_run_tells, console_found_tells, stop_loaded_tells, status_found_tells,
}
use qemu_mip.Prelude.{
  ◌≡◌, ◌⊎◌, refl, Bool, true, false, List, [], ◌∷◌, Bytes, codes, str_eq, if◌then◌else◌, inl, inr,
}
use qemu_mip.Protocol.Framing.{is_line}
use qemu_mip.Session.Command.{World, Run}
use qemu_mip.Session.Launch.{session_start}
use qemu_mip.Session.Orderly.{require_session-Told}
use qemu_mip.Session.Query.{session_expect, session_console, session_status, guest_status}
use qemu_mip.Session.Serial.{session_input_orderly}
use qemu_mip.Session.Shell.{session_cmd}
use qemu_mip.Session.Start.{Start, Host}
use qemu_mip.Session.Stop.{session_stop}
use qemu_mip.Session.Telling.{tells_once, session_start_tells}
use qemu_mip.Session.Typing.{session_type, session_key}

-- a way to `usage`, which prints to the standard error
abbrev pub usage : Run
usage = ([], 2)

unfoldable pub qc_cmd_session : Host → Start → World → List Bytes → Run
unfolding str_eq
qc_cmd_session y defaults w [] = usage
qc_cmd_session y defaults w (sub ∷ argv) =
    if str_eq sub (codes "start")
    then session_start y defaults argv
    else if str_eq sub (codes "cmd")
    then session_cmd w argv
    else if str_eq sub (codes "type")
    then session_type w argv
    else if str_eq sub (codes "key")
    then session_key w argv
    else if str_eq sub (codes "expect")
    then session_expect w argv
    else if str_eq sub (codes "console")
    then session_console w argv
    else if str_eq sub (codes "status")
    then session_status w argv
    else if str_eq sub (codes "stop")
    then session_stop w argv
    else usage

-- no line and the exit code 2, or one line that tells the exit code
abbrev pub IsTold : Run → Type 0
IsTold r = (r ≡ usage) ⊎ (tells_once r ≡ true)

if-IsTold : (b : Bool) (r s : Run) → IsTold r → IsTold s → IsTold (if b then r else s)
if-IsTold true r s hr hs = hr
if-IsTold false r s hr hs = hs

-- Whatever the subcommand and its arguments and whatever the system answers, errors included, where the plugin's
-- status is without control characters: `session` prints exactly one line on the standard output, without
-- control characters, which begins with its exit code and with whether it is 0; or, where it shows its
-- usage, nothing, and its exit code is 2.
pub qc_cmd_session_tells :
    (y : Host) (defaults : Start) (w : World) (argv : List Bytes)
    → is_line (guest_status w.answer) ≡ true
    → IsTold (qc_cmd_session y defaults w argv)
unfolding qc_cmd_session session_expect session_console session_status session_stop
qc_cmd_session_tells y defaults w [] line = inl refl
qc_cmd_session_tells y defaults w (sub ∷ argv) line =
    let (cmd, type, key) = session_input_orderly w argv in
    if-IsTold (str_eq sub (codes "start")) _ _ (session_start_tells y defaults argv) (
      if-IsTold (str_eq sub (codes "cmd")) _ _ (inr (tells_once-orderly (session_cmd w argv) cmd)) (
        if-IsTold (str_eq sub (codes "type")) _ _
          (inr (tells_once-orderly (session_type w argv) type))
          (if-IsTold (str_eq sub (codes "key")) _ _
            (inr (tells_once-orderly (session_key w argv) key))
            (if-IsTold (str_eq sub (codes "expect")) _ _ (inr (expect_run_tells w _ _)) (
              if-IsTold (str_eq sub (codes "console")) _ _
                (inr (console_found_tells w _ _ (require_session-Told w _ (codes "console"))))
                (if-IsTold (str_eq sub (codes "status")) _ _
                  (inr (status_found_tells w _ _ line (require_session-Told w _ (codes "status"))))
                  (if-IsTold (str_eq sub (codes "stop")) _ usage (inr (stop_loaded_tells w _ _))
                    (inl refl))))))))

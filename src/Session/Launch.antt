-- ===== src/Session/Launch.antt =====
-- The second half of `session_start` in cli/session.c: the emulator is started, and the session is told of.
use qemu_mip.Cli.Tail.{console_tail_nonblank}
use qemu_mip.Prelude.{
  ℕ, zero, suc, ◌+◌, Bool, true, false, ◌&&◌, not, Option, none, some, List, [], ◌∷◌, ◌++◌, Bytes,
  codes, snprintf, length, ◌==◌, if◌then◌else◌,
}
use qemu_mip.Protocol.Print.{format}
use qemu_mip.Session.{Session, load_session, session_path, format_int}
use qemu_mip.Session.Command.{
  kill, reap, spawn, unlink, save, print, Run, then_run, quoted, result_head, fail, wait_expect,
  get_console_text, console_text,
}
use qemu_mip.Session.Start.{
  Start, Host, Read, help, unknown_flag, read, start_args, disk_holder, replace_old, new_session,
  is_alive,
}

-- the console that is printed, read into a buffer of so many bytes
unfoldable pub start_console : Host → Start → ℕ → Bytes
start_console y a size =
    let text = console_text (get_console_text y.answer size) in
    if a.console_lines == 0 then text else console_tail_nonblank text size a.console_lines

unfoldable pub start_line : Host → Start → Session → Bytes
start_line y a s = result_head 0 (
    codes "\"op\":\"start\",\"session_id\":"
    ++ quoted a.id (
        codes ",\"pid\":"
        ++ (format_int s.pid
            ++ (codes ",\"iso\":"
                ++ quoted s.iso (
                    codes ",\"disk\":"
                    ++ quoted s.disk (
                        codes ",\"prompt\":"
                        ++ quoted s.prompt (
                            codes ",\"plugin_sock\":"
                            ++ quoted s.plugin_sock (
                                codes ",\"qmp_sock\":"
                                ++ quoted s.qmp_sock (
                                    codes ",\"duration_ms\":"
                                    ++ (format y.ms
                                        ++ (codes ",\"console\":"
                                            ++ quoted (start_console y a 2033)
                                                (codes "}"))))))))))))

-- behind the wait for the prompt: the attempt to write the file of the session
unfoldable pub start_saved : Host → Start → Session → Run
start_saved y a s =
    if y.saves
    then (save s ∷ print (start_line y a s) ∷ [], 0)
    else then_run (save s ∷ [])
        (fail 1 a.id (codes "start") none (codes "failed to write session file") (some y.ms))

-- behind the wait for the plugin's socket
unfoldable pub start_up : Host → Start → Session → Run
start_up y a s =
    if not a.wait_prompt
    then start_saved y a s
    else if wait_expect a.prompt y.polls
    then start_saved y a (record s { last_expect = snprintf 128 a.prompt })
    else then_run (save (record s { last_expect = snprintf 128 a.prompt }) ∷ []) (
        fail 1 a.id (codes "start") (some (start_console y a 4096))
          (codes "timeout waiting for shell prompt") (some y.ms))

-- the rounds that wait for the plugin's socket: whether the emulator ends in one
unfoldable pub exits_early : Host → ℕ → ℕ → ℕ → Bool
exits_early y pid zero i = false
exits_early y pid (suc left) i =
    let later = exits_early y pid left (i + 1) in
    if y.has_socket i then false else if is_alive y i pid then later else true

unfoldable pub start_spawned : Host → Start → Session → Run
start_spawned y a s =
    if exits_early y s.pid 100 0
    then fail 1 a.id (codes "start") none (codes "QEMU exited early") (some y.ms)
    else if not y.socket_at_last
    then then_run (kill 9 ∷ reap ∷ [])
        (fail 4 a.id (codes "start") none (codes "plugin socket missing") (some y.ms))
    else start_up y a s

abbrev pub start_forked : Host → Start → Option ℕ → Run
start_forked y a none = fail 1 a.id (codes "start") none (codes "fork failed") none
start_forked y a (some pid) = then_run (spawn ∷ []) (start_spawned y a (new_session y a pid))

unfoldable pub start_files : Host → Start → Run
start_files y a =
    if not (y.is_there a.iso)
    then fail 1 a.id (codes "start") none (codes "iso not found") none
    else if not (length a.disk == 0) && not (y.is_there a.disk)
    then fail 1 a.id (codes "start") none (codes "disk not found") none
    else if not (y.is_there a.plugin)
    then fail 1 a.id (codes "start") none (codes "plugin not found (make plugin)") none
    else then_run
        (unlink (new_session y a 0).plugin_sock ∷ unlink (new_session y a 0).qmp_sock ∷ [])
        (start_forked y a y.forked)

abbrev pub held_message : Session → Bytes
held_message other = snprintf 256 (
    codes "disk locked by session "
    ++ (other.id
        ++ (codes " (pid "
            ++ (format_int other.pid
                ++ (codes "); stop it: qemu-connect session stop --id " ++ other.id)))))

unfoldable pub start_unless_held : Host → Start → Option Session → Run
start_unless_held y a (some other) = fail 1 a.id (codes "start") none (held_message other) none
start_unless_held y a none =
    then_run
      (replace_old y a (load_session y.environ a.id (y.file (session_path y.environ a.id 320))))
      (start_files y a)

-- `--help` prints to the standard error only
unfoldable pub start_read : Host → Read → Run
start_read y help = ([], 2)
start_read y (unknown_flag a) = fail 2 a.id (codes "start") none (codes "unknown flag") none
start_read y (read a) = start_unless_held y a (disk_holder y a)

-- the arguments and what they are without them
unfoldable pub session_start : Host → Start → List Bytes → Run
session_start y defaults argv = start_read y (start_args argv defaults)

-- ===== src/Run/Balance.antt =====
-- That `run_session` of cli/run.c leaves no emulator behind.
use qemu_mip.Prelude.{Bool, true, false, ◌&&◌, not, List, [], ◌∷◌, is_some, ◌==◌}
use qemu_mip.Run.Process.{
  Act, System, Launch, launch, qmp_is_up, step_result, holder_before, spawn, reap, kill,
  qmp_connect, qmp_quit, qmp_close, unlink_sockets, print, up, ended, no_socket,
}

-- An emulator is started where none is and killed only while it is there, and none is left.
abbrev pub is_balanced : Bool → List Act → Bool
is_balanced running [] = not running
is_balanced running (spawn ∷ rest) = not running && is_balanced true rest
is_balanced running (reap ∷ rest) = is_balanced false rest
is_balanced running (kill signal ∷ rest) = running && is_balanced running rest
is_balanced running (qmp_quit ∷ rest) = is_balanced running rest
is_balanced running (qmp_connect ∷ rest) = is_balanced running rest
is_balanced running (qmp_close ∷ rest) = is_balanced running rest
is_balanced running (unlink_sockets ∷ rest) = is_balanced running rest
is_balanced running (print line ∷ rest) = is_balanced running rest

-- the steps are run and one finds that the emulator has ended
abbrev pub is_up : Launch → Bool
is_up up = true
is_up ended = false
is_up no_socket = false

unfoldable pub crashes_in_steps : System → Bool
crashes_in_steps y =
    y.has_iso
    && (y.has_disk
        && (y.has_plugin
            && (not (is_some (holder_before y))
                && (y.forks
                    && (is_up (launch y 100 0)
                        && (qmp_is_up y 50 0 && (step_result y y.turns).1 == 3))))))

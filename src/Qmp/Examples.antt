-- ===== src/Qmp/Examples.antt =====
-- Input at which the theorems on cli/qmp.c are applied.
use qemu_mip.Prelude.{true, [], ◌∷◌}
use qemu_mip.Qmp.{io_failed, byte, closed}
use qemu_mip.Qmp.Connection.{Conn}

-- QEMU sends a line that is no answer, and closes the stream
abbrev conn : Conn
conn = record {
  input = byte b'x' ∷ byte b'\n' ∷ closed ∷ [];
  writes = λ n. true;
  count = 0;
  sent = [];
  is_open = true;
}

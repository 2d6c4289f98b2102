-- ===== src/Cli/TypeCommand.antt =====
-- `qemu-connect --qmp PATH type TEXT`, from the arguments of cli/main.c to what cli/qmp.c writes.
use qemu_mip.Cli.Main.{
  System, exits, enter_flag, type, qmp_turn, qmp_end, qmp_connected, qmp_command, is_qmp,
  plain_line, other_command, plugin_command, dispatch, globals, main,
}
use qemu_mip.Prelude.{
  ◌≡◌, refl, ◌∙◌, false, some, [], ◌∷◌, ◌++◌, str_eq, List, map, Bytes, codes, length, All, ◌==◌,
}
use qemu_mip.Qmp.{Key, Input, send_key_command}
use qemu_mip.Qmp.Connection.{Conn, qc_qmp_close, qc_qmp_connect}
use qemu_mip.Qmp.Handshake.{capabilities_command, IsWelcome, qc_qmp_connect-welcome}
use qemu_mip.Qmp.Keys.{typed_char}
use qemu_mip.Qmp.Sending.{
  Reply, IsReply, replies, command_line, key_lines, TakesAll, advanced, type_line-replies,
  sent_behind,
}
use qemu_mip.Qmp.Typing.{IsTypable}
use qemu_mip.Qmp.Wire.{frame, frames}

main-type :
    (y : System) (path text : Bytes)
    → main y (codes "--qmp" ∷ path ∷ codes "type" ∷ text ∷ [])
      ≡ qmp_connected y.junk (codes "type") (text ∷ []) (qc_qmp_connect y.dial path)
unfolding main globals dispatch plain_line plugin_command other_command is_qmp qmp_command str_eq
main-type y path text = refl

-- At an emulator that greets, accepts `qmp_capabilities` and accepts each key, with whatever events between,
-- `--qmp PATH type TEXT` with a text of printable ASCII exits with 0 and prints nothing; what it has
-- written to the connection is the handshake, one command for each character of the text, in order, by keys
-- that type it, and one for Enter; and the connection is closed.
pub main_types :
    (y : System) (path text : Bytes) (c : Conn) (greeting : Bytes) (noise : List Bytes)
    (answer : Bytes) (rs : List Reply) (last : Reply) (tail : List Input)
    → (length path == 0) ≡ false
    → y.dial path ≡ some c
    → TakesAll c
    → IsWelcome greeting noise answer
    → All IsReply rs
    → IsReply last
    → length rs ≡ length text
    → c.input ≡ frame greeting (frames noise (frame answer (replies rs (replies (last ∷ []) tail))))
    → All IsTypable text
    → (ks : List Key) × (map typed_char ks ≡ text)
      × (c' : Conn) × (main y (codes "--qmp" ∷ path ∷ codes "type" ∷ text ∷ [])
          ≡ exits 0 [] (some c'))
      × (c'.sent
          ≡ c.sent
            ++ (command_line capabilities_command
                ++ (key_lines ks ++ command_line (send_key_command (codes "ret")))))
      × (c'.is_open ≡ false)
unfolding qmp_connected qmp_turn type enter_flag qmp_end qc_qmp_close str_eq
main_types y path text c greeting noise answer rs last tail given dialled takes w ok ok_last n e
      typable =
    let stream = replies rs (replies (last ∷ []) tail) in
    let up = advanced capabilities_command stream c in
    let link =
      qc_qmp_connect-welcome y.dial path c greeting noise answer stream given dialled takes w e in
    let (ks, spells, c', typed, after) =
      type_line-replies text rs last up tail typable n ok ok_last takes refl in
    let commands = key_lines ks ++ command_line (send_key_command (codes "ret")) in
    (
      ks,
      spells,
      record c' { is_open = false },
      main-type y path text ∙ rw link (rw typed refl),
      after.sent_all ∙ sent_behind c.sent capabilities_command commands,
      refl,
    )

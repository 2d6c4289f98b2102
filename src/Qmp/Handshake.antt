-- ===== src/Qmp/Handshake.antt =====
-- `qc_qmp_connect` of cli/qmp.c at an emulator that greets and accepts `qmp_capabilities`.
use qemu_mip.Prelude.{
  ℕ, zero, suc, ◌<◌, ◌≡◌, refl, true, false, Option, some, List, [], ◌∷◌, Bytes, codes, arith, has,
  length, ◌==◌, All,
}
use qemu_mip.Protocol.Escape.{c_str-IsPrintable}
use qemu_mip.Qmp.{Input}
use qemu_mip.Qmp.Connection.{
  Conn, linked, await_on, await_capabilities, judged, greeted, opened, qc_qmp_connect,
}
use qemu_mip.Qmp.Sending.{TakesAll, advanced, qmp_write_line-takes, length-frames}
use qemu_mip.Qmp.Session.{IsNoise}
use qemu_mip.Qmp.Wire.{frame, frames, IsFrame, next_line-frame}

abbrev pub capabilities_command : Bytes
capabilities_command = codes "{\"execute\":\"qmp_capabilities\"}"

-- What the emulator sends to a new connection: a greeting, lines that are passed over, and the answer.
pub record IsWelcome (greeting : Bytes) (noise : List Bytes) (answer : Bytes) : Type 0 where
  pub greeting_frame : IsFrame greeting
  pub greets : has greeting (codes "\"QMP\"") ≡ true
  pub noise_frames : All IsFrame noise
  pub noise_skipped : All IsNoise noise
  pub answer_frame : IsFrame answer
  pub result : has answer (codes "\"return\"") ≡ true
  pub no_error : has answer (codes "\"error\"") ≡ false

await_capabilities-frames :
    (n : ℕ) (noise : List Bytes) (line : Bytes) (tail : List Input)
    → length noise < n
    → All IsFrame noise
    → All IsNoise noise
    → IsFrame line
    → has line (codes "\"return\"") ≡ true
    → await_capabilities n (frames noise (frame line tail)) ≡ (some line, tail)
unfolding await_capabilities
await_capabilities-frames zero noise line tail small fn skip f answer = absurd (omega arith)
await_capabilities-frames (suc n) [] line tail small fn skip f answer =
    rw (next_line-frame line tail f)
      (unfold await_on in rw (c_str-IsPrintable line f.0, answer) refl)
await_capabilities-frames (suc n) (w ∷ noise) line tail small fn skip f answer =
    rw (next_line-frame w (frames noise (frame line tail)) fn.0) (
      unfold await_on in
      rw (c_str-IsPrintable w fn.0.0, skip.0)
        (await_capabilities-frames n noise line tail (omega (arith, small)) fn.1 skip.1 f answer))

pub qc_qmp_connect-welcome :
    (dial : Bytes → Option Conn) (path : Bytes) (c : Conn) (greeting : Bytes) (noise : List Bytes)
    (answer : Bytes) (tail : List Input)
    → (length path == 0) ≡ false
    → dial path ≡ some c
    → TakesAll c
    → IsWelcome greeting noise answer
    → c.input ≡ frame greeting (frames noise (frame answer tail))
    → qc_qmp_connect dial path ≡ linked (advanced capabilities_command tail c)
unfolding qc_qmp_connect opened greeted judged
qc_qmp_connect-welcome dial path c greeting noise answer tail given dialled takes w e =
    let rest = frames noise (frame answer tail) in
    let rounds : length noise < suc (length rest) =
      omega (arith, length-frames noise (frame answer tail)) in
    let waited =
      await_capabilities-frames (suc (length rest)) noise answer tail rounds w.noise_frames
        w.noise_skipped w.answer_frame w.result in
    let read = next_line-frame greeting rest w.greeting_frame in
    let line = record c { input = rest } in
    rw (given, dialled, e, read, c_str-IsPrintable greeting w.greeting_frame.0, w.greets)
      (rw (qmp_write_line-takes capabilities_command line takes) (rw (waited, w.no_error) refl))

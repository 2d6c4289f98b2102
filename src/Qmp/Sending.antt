-- ===== src/Qmp/Sending.antt =====
-- What typing with cli/qmp.c writes to the control socket, where the emulator accepts every command.
use qemu_mip.Prelude.{
  ℕ, suc, ◌+◌, ◌<◌, ◌≤◌, ◌≡◌, refl, sym, ◌∙◌, ap, true, false, List, [], ◌∷◌, ◌++◌, map, Bytes,
  codes, arith, has, length, length-append, length-map, All, append-nil, append_assoc,
}
use qemu_mip.Qmp.{Key, Outcome, accepted, Input, byte, send_key, send_key_command, type_line}
use qemu_mip.Qmp.Connection.{Conn, write_all, qmp_write_line, execute}
use qemu_mip.Qmp.Keys.{typed_char}
use qemu_mip.Qmp.Lines.{IsSkipped}
use qemu_mip.Qmp.Typing.{IsTypable, key_command, press_keys, type_text-press_keys}
use qemu_mip.Qmp.Wire.{frame, frames, IsFrame, kept_answer, reply_loop-frames}

-- what the emulator sends for a command: lines that are passed over, and the answer
abbrev pub Reply : Type 0
Reply = List Bytes × Bytes

pub record IsReply (r : Reply) : Type 0 where
  pub noise_frames : All IsFrame r.0
  pub noise_skipped : All IsSkipped r.0
  pub answer_frame : IsFrame r.1
  pub no_event : has r.1 (codes "\"event\"") ≡ false
  pub no_error : has r.1 (codes "\"error\"") ≡ false
  pub result : has r.1 (codes "\"return\"") ≡ true

abbrev pub replies : List Reply → List Input → List Input
replies [] tail = tail
replies ((noise, line) ∷ rs) tail = frames noise (frame line (replies rs tail))

-- a command with its line feed
abbrev pub command_line : Bytes → Bytes
command_line cmd = cmd ++ b'\n' ∷ []

pub length-frames :
    (lines : List Bytes) (tail : List Input) → length lines ≤ length (frames lines tail)
length-frames [] tail = omega arith
length-frames (line ∷ lines) tail =
    let rest = frames lines tail in
    omega (
      arith,
      length-frames lines tail,
      length-append (map byte line) (byte b'\r' ∷ byte b'\n' ∷ rest),
    )

-- the writes all succeed
abbrev pub TakesAll : Conn → Type 0
TakesAll c = (n : ℕ) → c.writes n ≡ true

-- the connection behind a command that was answered
abbrev pub advanced : Bytes → List Input → Conn → Conn
advanced cmd tail c = record c {
  input = tail;
  count = c.count + 1 + 1;
  sent = (c.sent ++ cmd) ++ b'\n' ∷ [];
}

pub qmp_write_line-takes :
    (cmd : Bytes) (c : Conn) → TakesAll c → qmp_write_line cmd c ≡ (true, advanced cmd c.input c)
unfolding qmp_write_line write_all
qmp_write_line-takes cmd c takes = rw (takes c.count, takes (c.count + 1)) refl

pub execute-reply :
    (out_len : ℕ) (out cmd : Bytes) (c : Conn) (r : Reply) (tail : List Input)
    → TakesAll c
    → IsReply r
    → c.input ≡ frames r.0 (frame r.1 tail)
    → execute out_len out cmd c ≡ (accepted, kept_answer out_len out r.1, advanced cmd tail c)
unfolding execute
execute-reply out_len out cmd c r tail takes ok e =
    let rounds : length r.0 < suc (length (frames r.0 (frame r.1 tail))) =
      omega (arith, length-frames r.0 (frame r.1 tail)) in
    let answered =
      reply_loop-frames (suc (length (frames r.0 (frame r.1 tail)))) out_len r.0 r.1 tail out rounds
        ok.noise_frames ok.noise_skipped ok.answer_frame ok.no_event
        (rw (ok.no_error, ok.result) refl) in
    rw (qmp_write_line-takes cmd c takes) (rw e (rw answered (rw ok.no_error refl)))

-- `qc_qmp_execute` as typing calls it, with an answer buffer of 1024 bytes
unfoldable pub run_command : Bytes → Conn → Outcome × Conn
run_command cmd c = let (r, out, c') = execute 1024 [] cmd c in (r, c')

run_command-reply :
    (cmd : Bytes) (c : Conn) (r : Reply) (tail : List Input)
    → TakesAll c
    → IsReply r
    → c.input ≡ frames r.0 (frame r.1 tail)
    → run_command cmd c ≡ (accepted, advanced cmd tail c)
unfolding run_command
run_command-reply cmd c r tail takes ok e =
    ap (λ (t : Outcome × Bytes × Conn). let q : Outcome × Conn = (t.0, t.2) in q)
      (execute-reply 1024 [] cmd c r tail takes ok e)

-- the commands for some keys, as they are written
abbrev pub key_lines : List Key → Bytes
key_lines [] = []
key_lines (k ∷ ks) = command_line (key_command k) ++ key_lines ks

-- A connection that has been through these commands: it has read up to the tail.
pub record IsAfter (c c' : Conn) (commands : Bytes) (tail : List Input) : Type 0 where
  pub input_left : c'.input ≡ tail
  pub sent_all : c'.sent ≡ c.sent ++ commands
  pub takes_more : TakesAll c'

pub sent_behind :
    (sent cmd rest : Bytes)
    → ((sent ++ cmd) ++ b'\n' ∷ []) ++ rest ≡ sent ++ (command_line cmd ++ rest)
sent_behind sent cmd rest =
    rw (append_assoc sent cmd (b'\n' ∷ [])) (append_assoc sent (command_line cmd) rest)

IsAfter-command :
    (c c' : Conn) (cmd commands : Bytes) (rest tail : List Input)
    → IsAfter (advanced cmd rest c) c' commands tail
    → IsAfter c c' (command_line cmd ++ commands) tail
IsAfter-command c c' cmd commands rest tail a = record {
  input_left = a.input_left;
  sent_all = a.sent_all ∙ sent_behind c.sent cmd commands;
  takes_more = a.takes_more;
}

pub press_keys-replies :
    (ks : List Key) (rs : List Reply) (c : Conn) (tail : List Input)
    → length rs ≡ length ks
    → All IsReply rs
    → TakesAll c
    → c.input ≡ replies rs tail
    → (c' : Conn) × (press_keys run_command ks c ≡ (true, c')) × IsAfter c c' (key_lines ks) tail
unfolding press_keys
press_keys-replies [] [] c tail n ok takes e =
    (c, refl, record { input_left = e; sent_all = sym (append-nil c.sent); takes_more = takes })
press_keys-replies [] (r ∷ rs) c tail n ok takes e = absurd (omega (arith, n))
press_keys-replies (k ∷ ks) [] c tail n ok takes e = absurd (omega (arith, n))
press_keys-replies (k ∷ ks) (r ∷ rs) c tail n ok takes e =
    let next = advanced (key_command k) (replies rs tail) c in
    let done = run_command-reply (key_command k) c r (replies rs tail) takes ok.0 e in
    let (c', same, after) = press_keys-replies ks rs next tail (omega (arith, n)) ok.1 takes refl in
    (
      c',
      rw done same,
      IsAfter-command c c' (key_command k) (key_lines ks) (replies rs tail) tail after,
    )

-- Typing a text of printable ASCII and then Enter at an emulator that accepts each command, with
-- whatever events between: it succeeds, and what has been written is one command for each character, in
-- order, and one for Enter, and the keys of these commands type the text. All answers are read.
pub type_line-replies :
    (text : Bytes) (rs : List Reply) (last : Reply) (c : Conn) (tail : List Input)
    → All IsTypable text
    → length rs ≡ length text
    → All IsReply rs
    → IsReply last
    → TakesAll c
    → c.input ≡ replies rs (replies (last ∷ []) tail)
    → (ks : List Key) × (map typed_char ks ≡ text)
      × (c' : Conn) × (type_line run_command text true c ≡ (true, c'))
      × IsAfter c c' (key_lines ks ++ command_line (send_key_command (codes "ret"))) tail
unfolding type_line send_key
type_line-replies text rs last c tail typable n ok ok_last takes e =
    let (ks, spells, same) = type_text-press_keys run_command text typable in
    let count : length rs ≡ length ks = n ∙ sym (ap length spells) ∙ length-map typed_char ks in
    let (c', pressed, after) =
      press_keys-replies ks rs c (replies (last ∷ []) tail) count ok takes e in
    let ret = send_key_command (codes "ret") in
    let done = run_command-reply ret c' last tail after.takes_more ok_last after.input_left in
    (
      ks,
      spells,
      advanced ret tail c',
      rw (same c, pressed, done) refl,
      record {
        input_left = refl;
        sent_all =
            ap (λ (b : Bytes). (b ++ ret) ++ b'\n' ∷ []) after.sent_all
            ∙ rw (append_assoc (c.sent ++ key_lines ks) ret (b'\n' ∷ []))
                (append_assoc c.sent (key_lines ks) (command_line ret));
        takes_more = after.takes_more;
      },
    )

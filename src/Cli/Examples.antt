-- ===== src/Cli/Examples.antt =====
-- Screens, a plugin and an emulator at which the theorems on cli/main.c are applied.
use qemu_mip.Cli.Copies.{extract_text, IsText, extract_text-emit_console}
use qemu_mip.Cli.Screen.{shown}
use qemu_mip.Cli.Tail
use qemu_mip.Cli.Tail.{
  concat, last, with_text, are_lines, console_tail_nonblank, console_tail_nonblank_lem,
}
use qemu_mip.Cli.Closing.{IsClosed, main-IsClosed}
use qemu_mip.Cli.ConsoleCommand.{main-screen}
use qemu_mip.Cli.ExpectCommand.{main_expects}
use qemu_mip.Cli.Exchange.{sent, Delivers, request-sent}
use qemu_mip.Cli.Main.{System, default_sock, exits, main}
use qemu_mip.Cli.Request.{Connections, Piece, closed, pieces, reads, request, plugin_request}
use qemu_mip.Cli.TypeCommand.{main_types}
use qemu_mip.Hypercall
use qemu_mip.Protocol.Host.{Ctx, Host, Env}
use qemu_mip.Protocol.Handle.{handle}
use qemu_mip.Qmp.{Key, Input, send_key_command}
use qemu_mip.Qmp.Connection.{Conn}
use qemu_mip.Qmp.Handshake.{capabilities_command, IsWelcome}
use qemu_mip.Qmp.Keys.{typed_char}
use qemu_mip.Qmp.Sending.{Reply, IsReply, replies, command_line, key_lines}
use qemu_mip.Qmp.Wire.{frame}
use qemu_mip.Queue.{create, returned, ok}
use qemu_mip.Server.{terminated}
use qemu_mip.Mem.{Counters}
use qemu_mip.Prelude.{
  append-nil, List, Bytes, strstr, starts_with, false, All, arith, true, ◌≡◌, some, none, [], ◌∷◌,
  ◌++◌, refl, codes, map, c_str, has, replicate, snprintf,
}
use qemu_mip.Protocol.Console.{resp_max}
use qemu_mip.Protocol.Handle.{emit_console}
use qemu_mip.Vga
use qemu_mip.Vga.{Vga}
use qemu_mip.Vga.Snapshot.{screen, lines, row_line}

abbrev counters : Counters
counters = record {
  mem_cb_fired = 12;
  mem_cb_vga_hit = 3;
  hwaddr_null = 0;
  discon_exc = 0;
  discon_irq = 0;
  discon_host = 0;
  discon_total = 0;
}

-- a screen whose text ends at a NUL
abbrev login : Vga
login = record { text = codes "login:" ++ 0 ∷ replicate 1993 b' '; write_count = 9; dirty = true }

login-IsText : All IsText (c_str (screen login.text))
unfolding c_str screen lines row_line
login-IsText = omega arith

extract_text-emit_console_example :
    extract_text (emit_console resp_max (codes "shadow") counters login).0 2033
    ≡ some (codes "login:")
unfolding c_str screen lines row_line
extract_text-emit_console_example = extract_text-emit_console counters login login-IsText

console_tail_nonblank_lem_example :
    (concat (Tail.lines 256 (codes "a\n\nb\n$ ")) ≡ codes "a\n\nb\n$ ")
    × (are_lines 256 (Tail.lines 256 (codes "a\n\nb\n$ ")) ≡ true)
    × (console_tail_nonblank (codes "a\n\nb\n$ ") 2033 2
        ≡ snprintf 2033 (concat (last 2 (with_text (Tail.lines 256 (codes "a\n\nb\n$ "))))))
console_tail_nonblank_lem_example =
    console_tail_nonblank_lem (codes "a\n\nb\n$ ") 2033 2 (omega arith) (omega arith)

abbrev host : Host
host = record {
  sys = record {
    q = create none;
    phase = returned (record { status = ok; hw_code = 0; data_len = 0 });
    reading = [];
    vga = Vga.init;
    bufs = λ b. none;
  };
  hc = Hypercall.init;
  counters = counters;
}

abbrev ctx : Ctx
ctx = record {
  has_vga = true;
  has_queue = true;
  vga_refresh_enabled = true;
  socket_thread = true;
  vga_enabled = true;
  hypercall_enabled = true;
}

abbrev env : Env
env = record { events = []; buf = none; hex_ok = true }

-- all that there is, in one piece
abbrev one_piece : Bytes → List Piece
one_piece [] = []
one_piece (c ∷ w) = (c, w) ∷ []

one_piece-pieces : (b : Bytes) → pieces (one_piece b) ≡ b
one_piece-pieces [] = refl
one_piece-pieces (c ∷ w) = append-nil (c ∷ w)

-- what the server of a plugin in this state sends comes in one read, and then the end of the stream
abbrev net : Host → Connections
net h path = some (λ b. some (reads (one_piece (sent ctx env h b)) (closed ∷ [])))

delivers : (h : Host) (path : Bytes) → Delivers (net h) path (sent ctx env h)
delivers h path = record {
  write = λ b. some (reads (one_piece (sent ctx env h b)) (closed ∷ []));
  connected = refl;
  cut = λ b. one_piece (sent ctx env h b);
  behind = λ b. closed ∷ [];
  delivers = λ b. refl;
  whole = λ b. one_piece-pieces (sent ctx env h b);
}

abbrev ping : Bytes
ping = codes "{\"cmd\":\"ping\"}"

request-sent_example :
    let answer = (handle resp_max ping ctx env host).0 in
    (request (net host) (codes "/tmp/a") ping ≡ (0, answer ++ b'\n' ∷ []))
    × (plugin_request (net host) (codes "/tmp/a") ping resp_max ≡ some (terminated answer))
unfolding Hypercall.init
request-sent_example =
    request-sent ctx env host (net host) (codes "/tmp/a") ping (delivers host (codes "/tmp/a")) tt
      (omega arith) (omega arith)

abbrev at_login : Host
at_login = record host { sys = record (host.sys) { vga = login } }

-- an event and then the answer
abbrev accepts : Reply
accepts = (codes "{\"event\": \"STOP\"}" ∷ [], codes "{\"return\": {}}")

-- a line of the emulator for the greeting, and one for each command
abbrev answers : List Input
answers = frame (codes "{\"QMP\": {}}") (
    frame (codes "{\"return\": {}}") (replies (accepts ∷ accepts ∷ []) (replies (accepts ∷ []) [])))

abbrev conn : Conn
conn = record { input = answers; writes = λ n. true; count = 0; sent = []; is_open = true }

abbrev machine : System
machine = record {
  net = net host;
  rounds = (λ path. none) ∷ net at_login ∷ [];
  dial = λ path. some conn;
  junk = [];
}

main-screen_example :
    main machine (codes "get_console" ∷ codes "--text-only" ∷ [])
    ≡ exits 0 (map shown (c_str (screen Vga.init.text)) ++ b'\n' ∷ []) none
unfolding Hypercall.init
main-screen_example = main-screen machine ctx env host (delivers host default_sock) tt refl

main-IsClosed_example : IsClosed (main machine (codes "--qmp" ∷ codes "/tmp/q" ∷ codes "key" ∷ []))
main-IsClosed_example = main-IsClosed machine (codes "--qmp" ∷ codes "/tmp/q" ∷ codes "key" ∷ [])

accepts-IsReply : IsReply accepts
accepts-IsReply = record {
  noise_frames = (omega arith, tt);
  noise_skipped = (unfold has strstr starts_with in refl, tt);
  answer_frame = omega arith;
  no_event = unfold has strstr starts_with in refl;
  no_error = unfold has strstr starts_with in refl;
  result = unfold has strstr starts_with in refl;
}

welcome : IsWelcome (codes "{\"QMP\": {}}") [] (codes "{\"return\": {}}")
welcome = record {
  greeting_frame = omega arith;
  greets = unfold has strstr starts_with in refl;
  noise_frames = tt;
  noise_skipped = tt;
  answer_frame = omega arith;
  result = unfold has strstr starts_with in refl;
  no_error = unfold has strstr starts_with in refl;
}

main_types_example :
    (ks : List Key) × (map typed_char ks ≡ codes "Hi")
    × (c' : Conn) × (main machine (codes "--qmp" ∷ codes "/tmp/q" ∷ codes "type" ∷ codes "Hi" ∷ [])
        ≡ exits 0 [] (some c'))
    × (c'.sent
        ≡ command_line capabilities_command
          ++ (key_lines ks ++ command_line (send_key_command (codes "ret"))))
    × (c'.is_open ≡ false)
main_types_example =
    main_types machine (codes "/tmp/q") (codes "Hi") conn (codes "{\"QMP\": {}}") []
      (codes "{\"return\": {}}") (accepts ∷ accepts ∷ []) accepts [] refl refl (λ n. refl) welcome
      (accepts-IsReply, (accepts-IsReply, tt)) accepts-IsReply refl refl (omega arith)

main_expects_example : main machine (codes "expect" ∷ codes "ogin" ∷ []) ≡ exits 0 [] none
unfolding Hypercall.init c_str screen lines row_line has shown
main_expects_example =
    main_expects machine (codes "ogin") ((λ path. none) ∷ []) [] (net at_login) ctx env at_login
      refl (delivers at_login default_sock) tt refl refl refl

-- ===== src/Cli/ExpectCommand.antt =====
-- `qemu-connect expect TEXT`, from the arguments of cli/main.c to the plugin's screen and back.
use qemu_mip.Cli.{extract_text_field}
use qemu_mip.Cli.ConsoleCommand.{line, handle-line, extract_text_field-reply}
use qemu_mip.Cli.Exchange.{sent, Delivers, request_buf-sent}
use qemu_mip.Cli.Expect.{shows, matches, poll_screen, poll_screen_sees, cmd_expect}
use qemu_mip.Cli.Main.{
  System, exits, default_sock, asked, expect, expect_sock, plain_line, other_command,
  plugin_command, dispatch, globals, main,
}
use qemu_mip.Cli.Request.{Connections}
use qemu_mip.Cli.Screen.{shown}
use qemu_mip.Mem.{Counters}
use qemu_mip.Prelude.{
  ℕ, ◌+◌, ◌<◌, ◌≡◌, refl, sym, ◌∙◌, ap, true, false, Option, none, some, List, [], ◌∷◌, ◌++◌,
  append-nil, map, Bytes, codes, arith, c_str, has, str_eq, ltb, ◌==◌, length, All, Bool-cases, inl,
  inr,
}
use qemu_mip.Protocol.Console.{resp_max, emit_console_lem}
use qemu_mip.Protocol.Escape.{IsPrintable, escaped, length-c_str}
use qemu_mip.Protocol.Handle.{handle}
use qemu_mip.Protocol.Host.{Ctx, Env, Host}
use qemu_mip.Protocol.Replies.{console_head, console_reply}
use qemu_mip.Server.{terminated}
use qemu_mip.Vga.Layout.{length-screen}
use qemu_mip.Vga.Snapshot.{screen}

extract_text_field-terminated :
    (writes : ℕ) (c : Counters) (s : Bytes)
    → length s < 2033
    → extract_text_field
        (terminated (console_reply (console_head writes 2024 (codes "shadow") c) (escaped s)))
        2033
      ≡ some (map shown s)
unfolding terminated
extract_text_field-terminated writes c s fits =
    let reply = console_reply (console_head writes 2024 (codes "shadow") c) (escaped s) in
    elim (Bool-cases (ltb (length reply + 1) resp_max)) [
      | inl e ↦ rw e (extract_text_field-reply writes c s (b'\n' ∷ []) fits)
      | inr e ↦ rw e (
          ap (λ b. extract_text_field b 2033) (sym (append-nil reply))
          ∙ extract_text_field-reply writes c s [] fits)
    ]

-- a round in which the plugin is asked
asked-screen :
    (net : Connections) (ctx : Ctx) (env : Env) (h : Host) (needle sock : Bytes)
    → Delivers net sock (sent ctx env h)
    → All IsPrintable h.hc.st.last_name
    → ctx.has_vga ≡ true
    → has (map shown (c_str (screen h.sys.vga.text))) needle ≡ true
    → matches needle (asked sock net) ≡ true
unfolding matches asked shows
asked-screen net ctx env h needle sock d hn vga seen =
    let s = c_str (screen h.sys.vga.text) in
    let reply =
      console_reply (console_head h.sys.vga.write_count 2024 (codes "shadow") h.counters)
        (escaped s) in
    let same : (handle resp_max line ctx env h).0 ≡ reply =
      handle-line ctx env h vga
      ∙ emit_console_lem (codes "shadow") h.counters h.sys.vga (omega arith) in
    let fits : length s < 2033 =
      omega (arith, length-c_str (screen h.sys.vga.text), length-screen h.sys.vga.text) in
    rw (request_buf-sent ctx env h net sock line d hn (omega arith) (omega arith), same)
      (rw (extract_text_field-terminated h.sys.vga.write_count h.counters s fits) seen)

main-expect :
    (y : System) (needle : Bytes)
    → main y (codes "expect" ∷ needle ∷ [])
      ≡ exits (cmd_expect needle (map (asked default_sock) y.rounds)) [] none
unfolding main globals dispatch plain_line plugin_command other_command expect expect_sock str_eq
main-expect y needle = refl

map-append :
    (f : Connections → Option Bytes) (a b : List Connections) → map f (a ++ b) ≡ map f a ++ map f b
map-append f [] b = refl
map-append f (x ∷ a) b = ap (λ (l : List (Option Bytes)). f x ∷ l) (map-append f a b)

-- `expect TEXT` exits with 0 if in some round that begins before the deadline the plugin, with its shadow of
-- the screen on and an event name of printable characters, is asked through a socket that delivers what the
-- server sends, in any pieces, and its screen shows the text; whatever the other rounds give, failed
-- connections included.
pub main_expects :
    (y : System) (needle : Bytes) (before behind : List Connections) (net : Connections) (ctx : Ctx)
    (env : Env) (h : Host)
    → y.rounds ≡ before ++ net ∷ behind
    → Delivers net default_sock (sent ctx env h)
    → All IsPrintable h.hc.st.last_name
    → ctx.has_vga ≡ true
    → (length needle == 0) ≡ false
    → has (map shown (c_str (screen h.sys.vga.text))) needle ≡ true
    → main y (codes "expect" ∷ needle ∷ []) ≡ exits 0 [] none
unfolding cmd_expect
main_expects y needle before behind net ctx env h rounds d hn vga given seen =
    let ask = asked default_sock in
    let found =
      poll_screen_sees needle (map ask before) (map ask behind) (ask net)
        (asked-screen net ctx env h needle default_sock d hn vga seen) in
    main-expect y needle
    ∙ ap (λ (n : ℕ). exits n [] none)
        (rw given (
          ap (λ l. poll_screen needle (map ask l)) rounds
          ∙ ap (poll_screen needle) (map-append ask before (net ∷ behind))
          ∙ found))

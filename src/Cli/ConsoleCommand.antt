-- ===== src/Cli/ConsoleCommand.antt =====
-- `qemu-connect get_console --text-only`, from the arguments of cli/main.c to the plugin's screen and back.
use qemu_mip.Cli.{extract_text_field}
use qemu_mip.Cli.Exchange.{sent, Delivers, request_buf-sent}
use qemu_mip.Cli.Expect.{print_text, print_text_only}
use qemu_mip.Cli.Main.{
  System, exits, default_sock, text_answer, get_console, console_flags, plain_line, other_command,
  plugin_command, dispatch, globals, main,
}
use qemu_mip.Cli.Request.{request_buf}
use qemu_mip.Cli.Screen.{shown, extract-escaped}
use qemu_mip.Cli.Verdict.{error_mark, strstr-console_mark, strstr-console_text}
use qemu_mip.Mem.{Counters}
use qemu_mip.Prelude.{
  ◌<◌, sym, subst, starts_with, ℕ, ◌≡◌, refl, ◌∙◌, ap, true, none, some, [], ◌∷◌, ◌++◌, append-nil,
  map, Bytes, codes, arith, c_str, has, strstr, str_eq, ltb, ◌+◌, length, All, Bool-cases, inl, inr,
}
use qemu_mip.Protocol.Console.{resp_max, emit_console_lem}
use qemu_mip.Protocol.Escape.{IsPrintable, escaped, length-c_str, c_str-printable}
use qemu_mip.Protocol.Fields.{has_cmd, has_refresh_true}
use qemu_mip.Protocol.Answers.{handle-IsAnswer}
use qemu_mip.Protocol.Handle
use qemu_mip.Protocol.Handle.{handle, emit_console, console_of}
use qemu_mip.Protocol.Host.{Ctx, Env, Host}
use qemu_mip.Protocol.Replies.{console_head, console_reply}
use qemu_mip.Server.{terminated}
use qemu_mip.Vga.Layout.{length-screen}
use qemu_mip.Vga.Snapshot.{screen}

abbrev pub line : Bytes
line = codes "{\"cmd\":\"get_console\"}"

main-text_only :
    (y : System)
    → main y (codes "get_console" ∷ codes "--text-only" ∷ [])
      ≡ text_answer (request_buf y.net default_sock line resp_max)
unfolding main globals dispatch plain_line plugin_command other_command console_flags get_console
    str_eq
main-text_only y = refl

pub handle-line :
    (ctx : Ctx) (env : Env) (h : Host)
    → ctx.has_vga ≡ true
    → (handle resp_max line ctx env h).0
      ≡ (emit_console resp_max (codes "shadow") h.counters h.sys.vga).0
unfolding handle has_cmd has_refresh_true Handle.get_console console_of
handle-line ctx env h vga = rw vga refl

pub extract_text_field-reply :
    (writes : ℕ) (c : Counters) (s t : Bytes)
    → length s < 2033
    → extract_text_field
        (console_reply (console_head writes 2024 (codes "shadow") c) (escaped s) ++ t)
        2033
      ≡ some (map shown s)
unfolding extract_text_field
extract_text_field-reply writes c s t fits =
    rw (strstr-console_text writes 2024 c (escaped s) t)
      (ap some (extract-escaped 2033 s (codes "}}" ++ t) [] (omega (arith, fits))))

print_text_only-some :
    (json text : Bytes)
    → extract_text_field json 2033 ≡ some text
    → print_text_only json ≡ (0, text ++ b'\n' ∷ [])
unfolding print_text_only print_text
print_text_only-some json text e = ap print_text e

-- the answer with a screen, with what the server puts behind it
text_answer-reply :
    (writes : ℕ) (c : Counters) (s t : Bytes)
    → let reply = console_reply (console_head writes 2024 (codes "shadow") c) (escaped s) in
      All IsPrintable reply
      → c_str t ≡ t
      → strstr t error_mark ≡ none
      → length s < 2033
      → text_answer (some (reply ++ t)) ≡ exits 0 (map shown s ++ b'\n' ∷ []) none
unfolding text_answer has
text_answer-reply writes c s t p ct no_mark fits =
    let reply = console_reply (console_head writes 2024 (codes "shadow") c) (escaped s) in
    let printed =
      print_text_only-some (reply ++ t) (map shown s)
        (extract_text_field-reply writes c s t fits) in
    rw (c_str-printable reply t p, ct, strstr-console_mark writes 2024 c s t, no_mark)
      (rw printed refl)

text_answer-terminated :
    (writes : ℕ) (c : Counters) (s : Bytes)
    → let reply = console_reply (console_head writes 2024 (codes "shadow") c) (escaped s) in
      All IsPrintable reply
      → length s < 2033
      → text_answer (some (terminated reply)) ≡ exits 0 (map shown s ++ b'\n' ∷ []) none
unfolding terminated
text_answer-terminated writes c s p fits =
    let reply = console_reply (console_head writes 2024 (codes "shadow") c) (escaped s) in
    elim (Bool-cases (ltb (length reply + 1) resp_max)) [
      | inl e ↦ rw e (
          text_answer-reply writes c s (b'\n' ∷ []) p (unfold c_str in refl)
            (unfold strstr starts_with in refl) fits)
      | inr e ↦ rw e (
          ap (λ b. text_answer (some b)) (sym (append-nil reply))
          ∙ text_answer-reply writes c s [] p (unfold c_str in refl)
              (unfold strstr starts_with in refl) fits)
    ]

-- With the plugin's shadow of the screen on, an event name of printable characters in its state, and a
-- socket at the default path that delivers what the server sends, in any pieces: `get_console
-- --text-only` exits with 0 and prints the 25 lines of the screen, up to the first NUL, with `?` for
-- each control character other than line feed, carriage return and tab, whatever else the screen says.
pub main-screen :
    (y : System) (ctx : Ctx) (env : Env) (h : Host)
    → Delivers y.net default_sock (sent ctx env h)
    → All IsPrintable h.hc.st.last_name
    → ctx.has_vga ≡ true
    → main y (codes "get_console" ∷ codes "--text-only" ∷ [])
      ≡ exits 0 (map shown (c_str (screen h.sys.vga.text)) ++ b'\n' ∷ []) none
main-screen y ctx env h d hn vga =
    let s = c_str (screen h.sys.vga.text) in
    let reply =
      console_reply (console_head h.sys.vga.write_count 2024 (codes "shadow") h.counters)
        (escaped s) in
    let same : (handle resp_max line ctx env h).0 ≡ reply =
      handle-line ctx env h vga
      ∙ emit_console_lem (codes "shadow") h.counters h.sys.vga (omega arith) in
    let ok = handle-IsAnswer resp_max (omega arith) line ctx env h hn in
    let fits : length s < 2033 =
      omega (arith, length-c_str (screen h.sys.vga.text), length-screen h.sys.vga.text) in
    main-text_only y
    ∙ ap text_answer (
        request_buf-sent ctx env h y.net default_sock line d hn (omega arith) (omega arith)
        ∙ ap (λ (b : Bytes). some (terminated b)) same)
    ∙ text_answer-terminated h.sys.vga.write_count h.counters s
        (subst (All IsPrintable) same ok.printable) fits

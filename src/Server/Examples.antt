-- ===== src/Server/Examples.antt =====
-- A small server at which the theorems on plugin/server.c are applied: it answers `!` to every request,
-- counts the requests, and cannot send the third answer.
use qemu_mip.Prelude.{
  true, false, List, none, ℕ, ◌+◌, ◌≤◌, ◌≡◌, ◌≢◌, refl, Bool, some, [], ◌∷◌, Bytes, codes, arith,
  All, All-replicate, length, length-replicate, replicate, ltb,
}
use qemu_mip.Server.{Server, max_line, strip_end, feed_client_bytes}
use qemu_mip.Server.Framing.{InLine, serve, sent_lines, feed_client_bytes-serve, full_line_overruns}
use qemu_mip.Server.Step.{Calls, ready, server_steps, length-server_steps}
use qemu_mip.Server.Io.{accepted, got, nothing_yet}

abbrev respond : Bytes → ℕ → Bytes × ℕ
respond line h = (b'!' ∷ [], h + 1)

abbrev send : Bytes → ℕ → Bool × ℕ
send text h = (ltb h 3, h)

abbrev fresh : Server
fresh = record { client = some 5; line = [] }

abbrev long_line : Bytes
long_line = replicate max_line b'x'

feed_client_bytes-serve_example :
    feed_client_bytes respond send (sent_lines respond send (codes "a" ∷ codes "b" ∷ [])) fresh 0
    ≡ serve respond send (codes "a" ∷ codes "b" ∷ []) fresh 0
feed_client_bytes-serve_example =
    feed_client_bytes-serve respond send (codes "a" ∷ codes "b" ∷ []) fresh 0 refl (omega arith)

overlong-InLine : All InLine (replicate 8193 b'x')
overlong-InLine = All-replicate InLine 8193 b'x' (omega arith)

full_line_overruns_example :
    let t = feed_client_bytes respond send long_line fresh 0 in
    (t ≡ (record fresh { line = long_line }, 0)) × (length (strip_end t.0.line) ≡ max_line)
full_line_overruns_example =
    full_line_overruns respond send long_line fresh 0 refl
      (All-replicate InLine max_line b'x' (omega arith))
      (All-replicate (λ c. c ≢ b'\r') max_line b'x' (omega arith)) (length-replicate max_line b'x')

-- a client comes, and in the next step sends a request and a half
abbrev steps : List Calls
steps =
    record { stop = false; polled = ready true false; accepts = accepted 5 true ∷ []; gots = [] }
    ∷ record {
      stop = false;
      polled = ready false true;
      accepts = [];
      gots = got (codes "a\nb") ∷ nothing_yet ∷ [];
    }
    ∷ []

length-server_steps_example :
    length (server_steps respond send steps (record { client = none; line = [] }) 0).0.line
    ≤ max_line
length-server_steps_example =
    length-server_steps respond send steps (record { client = none; line = [] }) 0 (omega arith)

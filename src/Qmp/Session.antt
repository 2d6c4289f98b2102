-- ===== src/Qmp/Session.antt =====
-- `qc_qmp_connect`, from the connected socket on, and `qc_qmp_quit` of cli/qmp.c, on the lines that
-- `qmp_readline` gives; where they end it gives -1. The writes succeed.
use qemu_mip.Prelude.{
  ℕ, zero, suc, ◌≡◌, refl, Bool, true, false, ◌||◌, not, List, [], ◌∷◌, ◌++◌, Bytes, codes, has,
  if◌then◌else◌, All,
}
use qemu_mip.Qmp.{Outcome, accepted, refused}

-- the loop that waits for the answer to `qmp_capabilities`, and the test behind it
unfoldable pub capabilities : List Bytes → Bool × List Bytes
capabilities [] = (false, [])
capabilities (line ∷ rest) =
    let later = capabilities rest in
    if has line (codes "\"return\"") || has line (codes "\"error\"")
    then (not (has line (codes "\"error\"")), rest)
    else later

-- whether a connection is made, and the lines not yet read
unfoldable pub connect : List Bytes → Bool × List Bytes
unfolding capabilities
connect [] = (false, [])
connect (greeting ∷ rest) =
    if has greeting (codes "\"QMP\"") then capabilities rest else (false, rest)

-- the loop of `qc_qmp_quit`, with so many rounds left
unfoldable pub quit_loop : ℕ → List Bytes → Outcome
quit_loop zero lines = accepted
quit_loop (suc n) [] = accepted
quit_loop (suc n) (line ∷ rest) =
    let later = quit_loop n rest in
    if has line (codes "SHUTDOWN") || has line (codes "\"return\"")
    then accepted
    else if has line (codes "\"error\"")
    then refused
    else later

unfoldable pub quit : List Bytes → Outcome
unfolding quit_loop
quit lines = quit_loop 32 lines

-- a line that the handshake passes over
abbrev pub IsNoise : Bytes → Type 0
IsNoise line = (has line (codes "\"return\"") || has line (codes "\"error\"")) ≡ false

capabilities_skips :
    (noise : List Bytes) (line : Bytes) (rest : List Bytes)
    → All IsNoise noise
    → (has line (codes "\"return\"") || has line (codes "\"error\"")) ≡ true
    → capabilities (noise ++ line ∷ rest) ≡ (not (has line (codes "\"error\"")), rest)
unfolding capabilities
capabilities_skips [] line rest quiet answer = rw answer refl
capabilities_skips (n ∷ noise) line rest quiet answer =
    rw (quiet.0) (capabilities_skips noise line rest quiet.1 answer)

-- Behind a greeting, the first line that answers `qmp_capabilities` decides whether there is a
-- connection: there is one unless it is an error. What comes before it is passed over, and what comes
-- behind it is left for the first command.
pub connect_answer :
    (greeting : Bytes) (noise : List Bytes) (line : Bytes) (rest : List Bytes)
    → has greeting (codes "\"QMP\"") ≡ true
    → All IsNoise noise
    → (has line (codes "\"return\"") || has line (codes "\"error\"")) ≡ true
    → connect (greeting ∷ (noise ++ line ∷ rest)) ≡ (not (has line (codes "\"error\"")), rest)
unfolding connect
connect_answer greeting noise line rest greets quiet answer =
    rw greets (capabilities_skips noise line rest quiet answer)

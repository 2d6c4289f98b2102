-- ===== src/Session/Stop.antt =====
-- `session_stop` of cli/session.c.
use qemu_mip.Prelude.{
  ℕ, zero, suc, ◌+◌, ◌<◌, ◌≡◌, refl, Bool, true, false, ◌&&◌, ◌||◌, not, Option, none, some, List,
  [], ◌∷◌, ◌++◌, Bytes, codes, arith, ◌==◌, if◌then◌else◌, Bool-cases, inl, inr,
}
use qemu_mip.Session.{Session, load_session, session_path}
use qemu_mip.Session.Command.{
  Effect, qmp_connect, qmp_close, qmp_quit, kill, reap, unlink, World, Run, then_run, fail,
  pid_alive, parse,
}
use qemu_mip.Session.Query.{Query, query_defaults, id_option, any_word, query}

-- The loop that waits for the end of the process, with so many rounds left and the number of this one; the
-- process was asked for once before.
unfoldable pub await_end : World → ℕ → ℕ → ℕ → List Effect
await_end w pid zero i = []
await_end w pid (suc left) i =
    let later = await_end w pid left (i + 1) in
    if not (pid_alive w (i + 1) pid) then [] else if i == 30 then kill 9 ∷ later else later

unfoldable pub end_process : World → Session → List Effect
end_process w s =
    if pid_alive w 0 s.pid
    then (if w.connects then qmp_connect ∷ qmp_quit ∷ qmp_close ∷ [] else kill 15 ∷ [])
      ++ (await_end w s.pid 40 0 ++ reap ∷ [])
    else []

unfoldable pub stop_loaded : World → Query → Option Session → Run
stop_loaded w q none =
    fail 0 q.id (codes "stop") none (codes "no session (already stopped)") (some 0)
stop_loaded w q (some s) =
    then_run
      (end_process w s
        ++ (unlink s.plugin_sock
            ∷ unlink s.qmp_sock
            ∷ unlink (session_path w.environ q.id 320)
            ∷ []))
      (fail 0 q.id (codes "stop") none [] (some w.ms))

unfoldable pub session_stop : World → List Bytes → Run
session_stop w argv =
    let q = query (parse id_option any_word argv query_defaults) in
    stop_loaded w q (load_session w.environ q.id (w.file (session_path w.environ q.id 320)))

-- SIGKILL is among the effects
abbrev pub is_kill : Effect → Bool
is_kill (kill signal) = signal == 9
is_kill e = false

abbrev pub kills : List Effect → Bool
kills [] = false
kills (e ∷ rest) = is_kill e || kills rest

-- the process is there each of so many times that it is asked for
abbrev pub stays : World → ℕ → ℕ → ℕ → Bool
stays w pid zero n = true
stays w pid (suc left) n = pid_alive w n pid && stays w pid left (n + 1)

kills-append : (s t : List Effect) → kills (s ++ t) ≡ (kills s || kills t)
kills-append [] t = refl
kills-append (e ∷ s) t = rw (kills-append s t) (ground arith)

or_false : (b : Bool) → (b || false || false || false) ≡ b
or_false true = refl
or_false false = refl

kills-await_end :
    (w : World) (pid left m i : ℕ)
    → m < left
    → i + m ≡ 30
    → kills (await_end w pid left i) ≡ stays w pid (suc m) (i + 1)
unfolding await_end
kills-await_end w pid zero m i lt h = absurd (omega arith)
kills-await_end w pid (suc left) zero i lt h =
    let last : (i == 30) ≡ true = ground arith in
    elim (Bool-cases (pid_alive w (i + 1) pid)) [ inl e ↦ rw (e, last) refl | inr e ↦ rw e refl ]
kills-await_end w pid (suc left) (suc m) i lt h =
    let early : (i == 30) ≡ false = ground arith in
    elim (Bool-cases (pid_alive w (i + 1) pid)) [
      | inl e ↦ rw (e, early) (kills-await_end w pid left m (i + 1) (omega arith) (omega arith))
      | inr e ↦ rw e refl
    ]

-- `stop` kills the emulator of a session exactly if it is there when the command begins and at each of the 31
-- times that it is asked for afterwards; an emulator that ends earlier is not killed.
pub kills-stop_loaded :
    (w : World) (q : Query) (s : Session)
    → kills (stop_loaded w q (some s)).0 ≡ (pid_alive w 0 s.pid && stays w s.pid 31 1)
unfolding stop_loaded end_process
kills-stop_loaded w q s = elim (Bool-cases (pid_alive w 0 s.pid)) [
  | inl e ↦ elim (Bool-cases w.connects) [
    | inl f ↦
        simp (e, f, kills-append, kills-await_end w s.pid 40 30 0 (omega arith) (omega arith))
          (or_false (stays w s.pid 31 1))
    | inr f ↦
        simp (e, f, kills-append, kills-await_end w s.pid 40 30 0 (omega arith) (omega arith))
          (or_false (stays w s.pid 31 1))
  ]
  | inr e ↦ simp e refl
]

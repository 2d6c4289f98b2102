-- ===== src/Session/Handover.antt =====
-- From `session_start` of cli/session.c to the commands behind it: the session that it writes is what they load.
use qemu_mip.Paths.{Environ}
use qemu_mip.Prelude.{
  ℕ, ◌^◌, ◌<◌, ◌≡◌, some, ◌++◌, Bytes, codes, arith, All, All-append, snprintf, length-snprintf,
  Option, none, List, [], ◌∷◌, Bool, true, false, not, ◌||◌, ◌&&◌, ◌==◌, is_some, take, ap, sym,
  ◌∙◌, length, take-eq_of_length-le, if◌then◌else◌, Bool-cases, inl, inr, refl,
}
use qemu_mip.Session.{Session, session_text, load_session, or_else_text}
use qemu_mip.Session.Command.{
  Effect, lock, unlock, qmp_connect, qmp_close, qmp_type_line, qmp_send_key, save, qmp_quit, kill,
  reap, spawn, unlink, print, Run, then_run, fail, wait_expect,
}
use qemu_mip.Session.File.{IsSaved}
use qemu_mip.Session.RoundTrip.{load_session-session_text}
use qemu_mip.Session.Search.{IsPlain}
use qemu_mip.Session.Launch.{
  start_saved, start_up, start_spawned, start_forked, start_files, start_unless_held, start_read,
  exits_early, session_start,
}
use qemu_mip.Session.Start.{
  Start, Host, read, start_args, disk_holder, replace_old, end_old, stays_up, is_alive, new_session,
}
use qemu_mip.Session.Written.{started, ArePlain, cut-IsPlain, started-IsSaved}

-- the session that an effect writes
abbrev pub saved : Effect → Option Session
saved lock = none
saved unlock = none
saved qmp_connect = none
saved qmp_close = none
saved (qmp_type_line text enter) = none
saved (qmp_send_key qcode) = none
saved (save s) = some s
saved qmp_quit = none
saved (kill signal) = none
saved reap = none
saved spawn = none
saved (unlink path) = none
saved (print text) = none

-- A session that is written has the id that was asked for, and a command with this id loads it from its file.
unfoldable pub IsLoaded : Environ → Bytes → Option Session → Type 0
IsLoaded env id none = Unit
IsLoaded env id (some s) =
    (s.id ≡ id)
    × (load_session env id (some (session_text s))
        ≡ some (record s { prompt = or_else_text s.prompt (codes "$") }))

abbrev pub saves_one : List Effect → Bool
saves_one [] = false
saves_one (e ∷ effects) = is_some (saved e) || saves_one effects

-- Each session that a run writes can be loaded, and a run that exits with 0 has written one.
unfoldable pub HandsOver : Environ → Bytes → Run → Type 0
HandsOver env id (effects, code) =
    All (λ e. IsLoaded env id (saved e)) effects × ((not (code == 0) || saves_one effects) ≡ true)

IsLoaded-text :
    (env : Environ) (id : Bytes) (s : Session) → s.id ≡ id → IsSaved s → IsLoaded env id (some s)
unfolding IsLoaded
IsLoaded-text env id s e h = (
  e,
  ap (λ i. load_session env i (some (session_text s))) (sym e) ∙ load_session-session_text env s h,
)

saves_one-append : (a b : List Effect) → saves_one b ≡ true → saves_one (a ++ b) ≡ true
saves_one-append [] b h = h
saves_one-append (e ∷ a) b h = ground (arith, saves_one-append a b h)

then_run-HandsOver :
    (env : Environ) (id : Bytes) (before : List Effect) (r : Run)
    → All (λ e. IsLoaded env id (saved e)) before
    → HandsOver env id r
    → HandsOver env id (then_run before r)
unfolding HandsOver
then_run-HandsOver env id before (rest, code) h (all, told) = (
  All-append (λ e. IsLoaded env id (saved e)) before rest h all,
  elim (Bool-cases (code == 0)) [
    | inl z ↦ rw z (saves_one-append before rest (ground (arith, z, told)))
    | inr z ↦ rw z refl
  ],
)

module _ (y : Host) (a : Start) (plain : ArePlain y a) (short : length a.id < 64) where
  abbrev H : Run → Type 0
  H r = HandsOver y.environ a.id r

  started-IsLoaded :
      (pid : ℕ) (expected : Bytes)
      → pid < 2 ^ 31
      → All IsPlain expected
      → length expected < 128
      → IsLoaded y.environ a.id (some (started y a pid expected))
  started-IsLoaded pid expected small plain_text fits =
      let whole : take 63 a.id ≡ a.id = take-eq_of_length-le 63 a.id (omega (arith, short)) in
      IsLoaded-text y.environ a.id (started y a pid expected) (unfold new_session snprintf in whole)
        (started-IsSaved y a pid expected plain small plain_text fits)

  if_hands : (b : Bool) (r t : Run) → (b ≡ true → H r) → (b ≡ false → H t) → H (if b then r else t)
  if_hands true r t h k = h refl
  if_hands false r t h k = k refl

  -- a run that fails writes nothing
  fail_hands :
      (code : ℕ) (console : Option Bytes) (error : Bytes) (ms : Option ℕ)
      → (code == 0) ≡ false
      → H (fail code a.id (codes "start") console error ms)
  unfolding HandsOver IsLoaded
  fail_hands code console error ms h = ((tt, tt), rw h refl)

  start_saved_hands : (s : Session) → IsLoaded y.environ a.id (some s) → H (start_saved y a s)
  unfolding start_saved HandsOver IsLoaded
  start_saved_hands s h = elim (Bool-cases y.saves) [
    | inl e ↦ simp e ((h, (tt, tt)), refl)
    | inr e ↦ simp e ((h, (tt, tt)), refl)
  ]

  start_up_hands : (pid : ℕ) → pid < 2 ^ 31 → H (start_up y a (new_session y a pid))
  unfolding start_up
  start_up_hands pid small =
      let unsaved = started-IsLoaded pid [] small tt (omega arith) in
      let expecting =
        started-IsLoaded pid (snprintf 128 a.prompt) small
          (cut-IsPlain 128 a.prompt plain.prompt_plain)
          (length-snprintf 128 a.prompt (omega arith)) in
      if_hands (not a.wait_prompt) _ _
        (λ e. start_saved_hands (new_session y a pid) (unfold new_session in unsaved))
        (λ e.
          if_hands (wait_expect a.prompt y.polls) _ _ (λ seen. start_saved_hands _ expecting)
            (λ unseen.
              then_run-HandsOver y.environ a.id (save _ ∷ []) _ (expecting, tt)
                (fail_hands 1 _ _ _ refl)))

  start_spawned_hands : (pid : ℕ) → pid < 2 ^ 31 → H (start_spawned y a (new_session y a pid))
  unfolding start_spawned
  start_spawned_hands pid small =
      if_hands (exits_early y (new_session y a pid).pid 100 0) _ _ (λ e. fail_hands 1 _ _ _ refl)
        (λ e.
          if_hands (not y.socket_at_last) _ _
            (λ missing.
              then_run-HandsOver y.environ a.id (kill 9 ∷ reap ∷ []) _
                (unfold IsLoaded in (tt, (tt, tt))) (fail_hands 4 _ _ _ refl))
            (λ there. start_up_hands pid small))

  start_forked_hands :
      (forked : Option ℕ)
      → ((pid : ℕ) → forked ≡ some pid → pid < 2 ^ 31)
      → H (start_forked y a forked)
  start_forked_hands none small = fail_hands 1 _ _ _ refl
  start_forked_hands (some pid) small =
      then_run-HandsOver y.environ a.id (spawn ∷ []) _ (unfold IsLoaded in (tt, tt))
        (start_spawned_hands pid (small pid refl))

  start_files_hands : ((pid : ℕ) → y.forked ≡ some pid → pid < 2 ^ 31) → H (start_files y a)
  unfolding start_files
  start_files_hands small =
      if_hands (not (y.is_there a.iso)) _ _ (λ e. fail_hands 1 _ _ _ refl)
        (λ e.
          if_hands (not (length a.disk == 0) && not (y.is_there a.disk)) _ _
            (λ f. fail_hands 1 _ _ _ refl)
            (λ f.
              if_hands (not (y.is_there a.plugin)) _ _ (λ g. fail_hands 1 _ _ _ refl)
                (λ g.
                  then_run-HandsOver y.environ a.id
                    (unlink (new_session y a 0).plugin_sock
                      ∷ unlink (new_session y a 0).qmp_sock
                      ∷ [])
                    _ (unfold IsLoaded in (tt, (tt, tt))) (start_forked_hands y.forked small))))

  replace_old-IsLoaded :
      (old : Option Session) → All (λ e. IsLoaded y.environ a.id (saved e)) (replace_old y a old)
  unfolding replace_old end_old IsLoaded
  replace_old-IsLoaded none = tt
  replace_old-IsLoaded (some old) = elim (Bool-cases (is_alive y 0 old.pid)) [
    | inr e ↦ simp e (tt, (tt, (tt, tt)))
    | inl e ↦ elim (Bool-cases y.connects) [
      | inl f ↦ elim (Bool-cases (stays_up y old.pid 30 0)) [
        | inl g ↦ simp (e, f, g) (tt, (tt, (tt, (tt, (tt, (tt, (tt, (tt, tt))))))))
        | inr g ↦ simp (e, f, g) (tt, (tt, (tt, (tt, (tt, (tt, (tt, tt)))))))
      ]
      | inr f ↦ elim (Bool-cases (stays_up y old.pid 30 0)) [
        | inl g ↦ simp (e, f, g) (tt, (tt, (tt, (tt, (tt, (tt, tt))))))
        | inr g ↦ simp (e, f, g) (tt, (tt, (tt, (tt, (tt, tt)))))
      ]
    ]
  ]

  start_unless_held_hands :
      (holder : Option Session)
      → ((pid : ℕ) → y.forked ≡ some pid → pid < 2 ^ 31)
      → H (start_unless_held y a holder)
  unfolding start_unless_held
  start_unless_held_hands none small =
      then_run-HandsOver y.environ a.id _ _ (replace_old-IsLoaded _) (start_files_hands small)
  start_unless_held_hands (some other) small = fail_hands 1 _ _ _ refl

-- What `session_start` hands over to the commands behind it: every session that it writes has the id that was
-- asked for, and a command with this id loads it from its text, with the prompt `$` where it had none; and where
-- its exit code is 0, it has written one. The id has at most 63 bytes, the process a number below 2^31, and
-- neither the id, the two paths, the prompt nor the directory of the sockets has a quotation mark, a backslash
-- or a NUL.
pub session_start-HandsOver :
    (y : Host) (defaults : Start) (argv : List Bytes) (a : Start)
    → start_args argv defaults ≡ read a
    → ArePlain y a
    → length a.id < 64
    → ((pid : ℕ) → y.forked ≡ some pid → pid < 2 ^ 31)
    → HandsOver y.environ a.id (session_start y defaults argv)
unfolding session_start start_read
session_start-HandsOver y defaults argv a parsed plain short small =
    rw parsed (start_unless_held_hands y a plain short (disk_holder y a) small)

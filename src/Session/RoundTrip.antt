-- ===== src/Session/RoundTrip.antt =====
-- `save_session` and `load_session` of cli/session.c.
use qemu_mip.Paths.{Environ}
use qemu_mip.Prelude.{
  ℕ, ◌+◌, ◌<◌, ◌≤◌, ◌≡◌, refl, Bool, true, false, ◌&&◌, not, some, List, [], ◌∷◌, ◌++◌, Bytes,
  codes, arith, ◌==◌, length, length-append, All, All-take, c_str, take, take-eq_of_length-le,
  snprintf, u32, str_eq,
}
use qemu_mip.Protocol.Print.{length-format}
use qemu_mip.Session.File.{
  IsSaved, get_field, get_pid, pid-IsPlain, or_else_text-IsPlain, Passes, fields, format_int_lem,
}
use qemu_mip.Session.Search.{IsPlain, InKey}
use qemu_mip.Session.{
  Session, session_text, load_session, load_text, json_get_string, or_else_text, format_int,
  from_plugin_sock, from_qmp_sock, from_log, from_iso, from_disk, from_prompt, from_last_expect,
  text_field, default_shell_prompt,
}

-- a text without NUL, as a test that computes behind a literal
unfoldable pub no_nul : Bytes → Bool
no_nul [] = true
no_nul (c ∷ s) = not (c == 0) && no_nul s

pub no_nul-c_str : (s : Bytes) → no_nul s ≡ true → c_str s ≡ s
unfolding no_nul c_str
no_nul-c_str [] h = refl
no_nul-c_str (c ∷ s) h = ground (arith, no_nul-c_str s)

no_nul-append : (s t : Bytes) → All IsPlain s → no_nul (s ++ t) ≡ no_nul t
unfolding no_nul
no_nul-append [] t h = refl
no_nul-append (c ∷ s) t h = ground (arith, no_nul-append s t h.1)

length-or_else_text : (s : Bytes) → length (or_else_text s (codes "$")) ≤ 1 + length s
length-or_else_text [] = omega arith
length-or_else_text (c ∷ s) = omega arith

or_else_text_fits : (s : Bytes) → length s < 64 → length (or_else_text s (codes "$")) < 64
or_else_text_fits [] h = omega arith
or_else_text_fits (c ∷ s) h = h

or_else_text_twice :
    (s t : Bytes) → or_else_text (or_else_text s (codes "$")) t ≡ or_else_text s (codes "$")
or_else_text_twice [] t = refl
or_else_text_twice (c ∷ s) t = refl

All-zip :
    {A : Type 0} (P Q : A → Type 0) (xs : List A) → All P xs → All Q xs → All (λ x. P x × Q x) xs
All-zip P Q [] hp hq = tt
All-zip P Q (x ∷ xs) hp hq = ((hp.0, hq.0), All-zip P Q xs hp.1 hq.1)

module _ (s : Session) (h : IsSaved s) where
  pub no_nul-session_text : no_nul (session_text s) ≡ true
  unfolding no_nul session_text
  no_nul-session_text =
      rw
        (
          no_nul-append s.id _ h.id_plain,
          no_nul-append (format_int s.pid) _ (pid-IsPlain s h),
          no_nul-append s.plugin_sock _ h.plugin_plain,
          no_nul-append s.qmp_sock _ h.qmp_plain,
          no_nul-append s.logpath _ h.log_plain,
          no_nul-append s.iso _ h.iso_plain,
          no_nul-append s.disk _ h.disk_plain,
          no_nul-append (or_else_text s.prompt (codes "$")) _
              (or_else_text-IsPlain s.prompt h.prompt_plain),
          no_nul-append s.last_expect _ h.expect_plain,
        )
        refl

  pub length-session_text : length (session_text s) ≤ 4095
  unfolding session_text
  length-session_text =
      let pid = length-format s.pid in
      let prompt = length-or_else_text s.prompt in
      simp (length-append, format_int_lem s.pid h.pid_fits)
        (omega (
          arith, h.id_fits, h.plugin_fits, h.qmp_fits, h.log_fits, h.iso_fits, h.disk_fits,
          h.prompt_fits, h.expect_fits,
        ))

  abbrev known : List (Bytes × Bytes)
  known =
      (codes "plugin_sock", s.plugin_sock)
      ∷ (codes "qmp_sock", s.qmp_sock)
      ∷ (codes "log", s.logpath)
      ∷ (codes "iso", s.iso)
      ∷ (codes "disk", s.disk)
      ∷ (codes "prompt", or_else_text s.prompt (codes "$"))
      ∷ []

  IsPlain-known : All (λ f. (All InKey f.0) × All IsPlain f.1) known
  IsPlain-known = (
    (ground arith, h.plugin_plain),
    (
      (ground arith, h.qmp_plain),
      (
        (ground arith, h.log_plain),
        (
          (ground arith, h.iso_plain),
          (
            (ground arith, h.disk_plain),
            ((ground arith, or_else_text-IsPlain s.prompt h.prompt_plain), tt),
          ),
        ),
      ),
    ),
  )

  -- the values of the fields are plain, whichever key is searched
  passes :
      (k : Bytes) (n : ℕ)
      → All (λ f. str_eq f.0 k ≡ false) (take n known)
      → All (Passes k) (take n known)
  passes k n other =
      All-zip (λ f. (All InKey f.0) × All IsPlain f.1) (λ f. str_eq f.0 k ≡ false) (take n known)
        (All-take (λ f. (All InKey f.0) × All IsPlain f.1) n known IsPlain-known) other

  get_text :
      (d : ℕ) (k : Bytes) (n : ℕ) (v t : Bytes) (out_len : ℕ)
      → from_plugin_sock s ≡ fields (take n known) (text_field (d ∷ k) v (b'"' ∷ t))
      → All InKey (d ∷ k)
      → (length k < 60)
        × (str_eq (codes "id") (d ∷ k) ≡ false)
        × (str_eq (codes "pid") (d ∷ k) ≡ false)
      → All (λ f. str_eq f.0 (d ∷ k) ≡ false) (take n known)
      → All IsPlain v
      → length v < out_len
      → json_get_string (session_text s) (d ∷ k) out_len ≡ some v
  get_text d k n v t out_len e hk small other plain fits =
      get_field s h d k (take n known) v t out_len e hk small.0 (small.1, small.2)
        (passes (d ∷ k) n other) plain fits

  get_plugin : json_get_string (session_text s) (codes "plugin_sock") 256 ≡ some s.plugin_sock
  unfolding str_eq
  get_plugin =
      get_text b'p' (codes "lugin_sock") 0 s.plugin_sock (b',' ∷ b'\n' ∷ from_qmp_sock s) 256 refl
        (ground arith) (omega arith, refl, refl) tt h.plugin_plain h.plugin_fits

  get_qmp : json_get_string (session_text s) (codes "qmp_sock") 256 ≡ some s.qmp_sock
  unfolding str_eq
  get_qmp =
      get_text b'q' (codes "mp_sock") 1 s.qmp_sock (b',' ∷ b'\n' ∷ from_log s) 256 refl
        (ground arith) (omega arith, refl, refl) (refl, tt) h.qmp_plain h.qmp_fits

  get_log : json_get_string (session_text s) (codes "log") 256 ≡ some s.logpath
  unfolding str_eq
  get_log =
      get_text b'l' (codes "og") 2 s.logpath (b',' ∷ b'\n' ∷ from_iso s) 256 refl (ground arith)
        (omega arith, refl, refl) (refl, (refl, tt)) h.log_plain h.log_fits

  get_iso : json_get_string (session_text s) (codes "iso") 512 ≡ some s.iso
  unfolding str_eq
  get_iso =
      get_text b'i' (codes "so") 3 s.iso (b',' ∷ b'\n' ∷ from_disk s) 512 refl (ground arith)
        (omega arith, refl, refl) (refl, (refl, (refl, tt))) h.iso_plain h.iso_fits

  get_disk : json_get_string (session_text s) (codes "disk") 512 ≡ some s.disk
  unfolding str_eq
  get_disk =
      get_text b'd' (codes "isk") 4 s.disk (b',' ∷ b'\n' ∷ from_prompt s) 512 refl (ground arith)
        (omega arith, refl, refl) (refl, (refl, (refl, (refl, tt)))) h.disk_plain h.disk_fits

  prompt_fits : length (or_else_text s.prompt (codes "$")) < 64
  prompt_fits = or_else_text_fits s.prompt h.prompt_fits

  get_prompt :
      json_get_string (session_text s) (codes "prompt") 64
      ≡ some (or_else_text s.prompt (codes "$"))
  unfolding str_eq
  get_prompt =
      get_text b'p' (codes "rompt") 5 (or_else_text s.prompt (codes "$"))
        (b',' ∷ b'\n' ∷ from_last_expect s) 64 refl (ground arith) (omega arith, refl, refl)
        (refl, (refl, (refl, (refl, (refl, tt))))) (or_else_text-IsPlain s.prompt h.prompt_plain)
        prompt_fits

  get_expect : json_get_string (session_text s) (codes "last_expect") 128 ≡ some s.last_expect
  unfolding str_eq
  get_expect =
      get_text b'l' (codes "ast_expect") 6 s.last_expect (codes "\n}\n") 128 refl (ground arith)
        (omega arith, refl, refl) (refl, (refl, (refl, (refl, (refl, (refl, tt)))))) h.expect_plain
        h.expect_fits

  load_text-session_text :
      (env : Environ)
      → load_text env s.id (session_text s)
        ≡ some (record s { prompt = or_else_text s.prompt (codes "$") })
  unfolding load_text snprintf
  load_text-session_text env =
      let file = session_text s in
      let fits : length s.id ≤ 63 = (let bound = h.id_fits in omega arith) in
      let pid : u32 s.pid ≡ s.pid = (let bound = h.pid_fits in omega arith) in
      rw
        (
          take-eq_of_length-le 4095 file length-session_text,
          no_nul-c_str file no_nul-session_text,
          get_pid s h,
          get_plugin,
          get_qmp,
          get_log,
          get_iso,
          get_disk,
          get_prompt,
          get_expect,
          take-eq_of_length-le 63 s.id fits,
          pid,
          or_else_text_twice s.prompt (take 63 (default_shell_prompt env)),
        )
        refl

-- A session that `save_session` writes is the session that `load_session` reads, with the prompt `$` where
-- it had none, provided that the process has a number that is not negative and that each text fits its
-- field of `qc_session_t` and has neither a quotation mark nor a backslash nor NUL.
pub load_session-session_text :
    (env : Environ) (s : Session)
    → IsSaved s
    → load_session env s.id (some (session_text s))
      ≡ some (record s { prompt = or_else_text s.prompt (codes "$") })
unfolding load_session
load_session-session_text env s h = load_text-session_text s h env

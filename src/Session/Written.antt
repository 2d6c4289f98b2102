-- ===== src/Session/Written.antt =====
-- That the session of `session_start` in cli/session.c can be written to its file and read back.
use qemu_mip.Prelude.{
  ℕ, ◌-◌, ◌^◌, ◌<◌, ◌++◌, Bytes, codes, arith, All, All-append, All-take, snprintf, length-snprintf,
  length,
}
use qemu_mip.Session.{Session, runtime_dir}
use qemu_mip.Session.File.{IsSaved}
use qemu_mip.Session.Search.{IsPlain}
use qemu_mip.Session.Start.{Start, Host, new_session, sess_path}

-- what `start` writes: `expected` is empty where it does not wait for the prompt
abbrev pub started : Host → Start → ℕ → Bytes → Session
started y a pid expected = record (new_session y a pid) { last_expect = expected }

-- the arguments have no byte that the file cannot hold as it is
pub record ArePlain (y : Host) (a : Start) : Type 0 where
  pub id_plain : All IsPlain a.id
  pub iso_plain : All IsPlain a.iso
  pub disk_plain : All IsPlain a.disk
  pub prompt_plain : All IsPlain a.prompt
  pub dir_plain : All IsPlain (runtime_dir y.environ)

pub cut-IsPlain : (n : ℕ) (s : Bytes) → All IsPlain s → All IsPlain (snprintf n s)
unfolding snprintf
cut-IsPlain n s h = All-take IsPlain (n - 1) s h

sess_path-IsPlain :
    (y : Host) (id ext : Bytes)
    → All IsPlain (runtime_dir y.environ)
    → All IsPlain id
    → All IsPlain ext
    → All IsPlain (sess_path y id ext)
sess_path-IsPlain y id ext dir plain_id plain_ext =
    let name = codes "/qemu-connect-sess-" ++ (id ++ ext) in
    cut-IsPlain 256 (runtime_dir y.environ ++ name) (
      All-append IsPlain (runtime_dir y.environ) name dir (
        All-append IsPlain (codes "/qemu-connect-sess-") (id ++ ext) (ground arith)
          (All-append IsPlain id ext plain_id plain_ext)))

pub started-IsSaved :
    (y : Host) (a : Start) (pid : ℕ) (expected : Bytes)
    → ArePlain y a
    → pid < 2 ^ 31
    → All IsPlain expected
    → length expected < 128
    → IsSaved (started y a pid expected)
unfolding new_session
started-IsSaved y a pid expected h small plain fits = record {
  id_plain = cut-IsPlain 64 a.id h.id_plain;
  plugin_plain = sess_path-IsPlain y a.id (codes ".sock") h.dir_plain h.id_plain (ground arith);
  qmp_plain = sess_path-IsPlain y a.id (codes ".qmp") h.dir_plain h.id_plain (ground arith);
  log_plain = sess_path-IsPlain y a.id (codes ".log") h.dir_plain h.id_plain (ground arith);
  iso_plain = cut-IsPlain 512 a.iso h.iso_plain;
  disk_plain = cut-IsPlain 512 a.disk h.disk_plain;
  prompt_plain = cut-IsPlain 64 a.prompt h.prompt_plain;
  expect_plain = plain;
  id_fits = length-snprintf 64 a.id (omega arith);
  plugin_fits = length-snprintf 256 _ (omega arith);
  qmp_fits = length-snprintf 256 _ (omega arith);
  log_fits = length-snprintf 256 _ (omega arith);
  iso_fits = length-snprintf 512 a.iso (omega arith);
  disk_fits = length-snprintf 512 a.disk (omega arith);
  prompt_fits = length-snprintf 64 a.prompt (omega arith);
  expect_fits = fits;
  pid_fits = small;
}

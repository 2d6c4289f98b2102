-- ===== src/Run/Holder.antt =====
-- That `disk_held_by_session` of cli/run.c finds a session in the file that cli/session.c wrote for it.
use qemu_mip.Prelude.{
  ℕ, ◌<◌, ◌≡◌, refl, ◌∙◌, ap, Bool, true, false, not, ◌&&◌, Option, none, some, List, [], ◌∷◌, ◌++◌,
  Bytes, codes, arith, c_str, strstr, str_eq, snprintf, take, take-eq_of_length-le, length, ltb,
  u32, ◌^◌, ◌==◌, inl, inr, Option-cases, is_some,
}
use qemu_mip.Protocol.Fields.{skip}
use qemu_mip.Protocol.Print.{format}
use qemu_mip.Run.Disk.{
  Machine, real_or_copy, behind_colon, crude_text, crude_pid, is_session_name, holder_in, holder_of,
  search_entries, disk_held_by_session,
}
use qemu_mip.Session.{
  Session, session_text, format_int, or_else_text, from_pid, from_plugin_sock, from_prompt,
}
use qemu_mip.Session.File.{IsSaved, pid-IsPlain, format_int_lem}
use qemu_mip.Run.Process.{print, System, holder_before, run_unless_held, run_session}
use qemu_mip.Run.Disk.{held_line}
use qemu_mip.Run.Search.{
  quoted_key, skip_field, skip_pid, found_key, until_quote-plain, strtol-blank,
}
use qemu_mip.Session.Number.{strtol-format}
use qemu_mip.Session.RoundTrip.{no_nul-c_str, no_nul-session_text, length-session_text}
use qemu_mip.Session.Search.{strstr-plain}

and_not : (a b : Bool) → (a && b && not true) ≡ false
and_not true true = refl
and_not true false = refl
and_not false b = refl

id_kept :
    (id name : Bytes)
    → (length id == 0) ≡ false
    → length id < 64
    → snprintf 64 (or_else_text id name) ≡ id
unfolding snprintf
id_kept [] name named fits = absurd (ground (arith, named))
id_kept (c ∷ id) name named fits = take-eq_of_length-le 63 (c ∷ id) (omega (arith, fits))

-- an entry that tells of a holder, wherever it stands
search_entries_found :
    (y : Machine) (want name : Bytes) (file : Option Bytes) (holder : Bytes × ℕ)
    (before behind : List (Bytes × Option Bytes))
    → holder_of y want name file ≡ some holder
    → is_some (search_entries y want (before ++ (name, file) ∷ behind)) ≡ true
unfolding search_entries
search_entries_found y want name file holder [] behind e = rw e refl
search_entries_found y want name file holder ((n, f) ∷ before) behind e =
    elim (Option-cases (holder_of y want n f)) [
      | inl o ↦ rw o (search_entries_found y want name file holder before behind e)
      | inr (first, o) ↦ rw o refl
    ]

-- No text in front of the disk's is one of the keys that are searched.
pub record IsClear (s : Session) : Type 0 where
  pub id_not_disk : str_eq s.id (codes "disk") ≡ false
  pub id_not_pid : str_eq s.id (codes "pid") ≡ false
  pub plugin_not_disk : str_eq s.plugin_sock (codes "disk") ≡ false
  pub qmp_not_disk : str_eq s.qmp_sock (codes "disk") ≡ false
  pub log_not_disk : str_eq s.logpath (codes "disk") ≡ false
  pub iso_not_disk : str_eq s.iso (codes "disk") ≡ false

module _ (s : Session) (h : IsSaved s) (clear : IsClear s) where
  find_disk :
      strstr (session_text s) (quoted_key (codes "disk"))
      ≡ some (codes "\"disk\": \"" ++ (s.disk ++ (codes "\",\n" ++ from_prompt s)))
  unfolding session_text str_eq
  find_disk =
      strstr-plain (codes "{\n") _ (codes "disk\"") (ground arith)
      ∙ skip_field (codes "id") s.id (codes "isk") _ b'd' (ground arith) h.id_plain (ground arith)
          refl clear.id_not_disk
      ∙ skip_pid (format_int s.pid) (codes "isk") _ b'd' (pid-IsPlain s h) (ground arith) refl
      ∙ skip_field (codes "plugin_sock") s.plugin_sock (codes "isk") _ b'd' (ground arith)
          h.plugin_plain (ground arith) refl clear.plugin_not_disk
      ∙ skip_field (codes "qmp_sock") s.qmp_sock (codes "isk") _ b'd' (ground arith) h.qmp_plain
          (ground arith) refl clear.qmp_not_disk
      ∙ skip_field (codes "log") s.logpath (codes "isk") _ b'd' (ground arith) h.log_plain
          (ground arith) refl clear.log_not_disk
      ∙ skip_field (codes "iso") s.iso (codes "isk") _ b'd' (ground arith) h.iso_plain
          (ground arith) refl clear.iso_not_disk
      ∙ found_key (codes "disk") (codes ": \"" ++ (s.disk ++ (codes "\",\n" ++ from_prompt s)))

  find_pid :
      strstr (session_text s) (quoted_key (codes "pid"))
      ≡ some (codes "\"pid\": " ++ (format_int s.pid ++ (codes ",\n" ++ from_plugin_sock s)))
  unfolding session_text str_eq
  find_pid =
      strstr-plain (codes "{\n") _ (codes "pid\"") (ground arith)
      ∙ skip_field (codes "id") s.id (codes "id") _ b'p' (ground arith) h.id_plain (ground arith)
          refl clear.id_not_pid
      ∙ found_key (codes "pid")
          (codes ": " ++ (format_int s.pid ++ (codes ",\n" ++ from_plugin_sock s)))

  find_id :
      strstr (session_text s) (quoted_key (codes "id"))
      ≡ some (codes "\"id\": \"" ++ (s.id ++ (codes "\",\n" ++ from_pid s)))
  unfolding session_text
  find_id =
      strstr-plain (codes "{\n") _ (codes "id\"") (ground arith)
      ∙ found_key (codes "id") (codes ": \"" ++ (s.id ++ (codes "\",\n" ++ from_pid s)))

  crude_disk : crude_text (session_text s) (codes "\"disk\"") 4096 ≡ s.disk
  unfolding crude_text behind_colon skip
  crude_disk = rw find_disk (
      until_quote-plain 4095 s.disk (codes ",\n" ++ from_prompt s) h.disk_plain
        (omega (arith, h.disk_fits)))

  crude_id : crude_text (session_text s) (codes "\"id\"") 64 ≡ s.id
  unfolding crude_text behind_colon skip
  crude_id =
      rw find_id (
        until_quote-plain 63 s.id (codes ",\n" ++ from_pid s) h.id_plain (omega (arith, h.id_fits)))

  crude_pid-text : crude_pid (session_text s) ≡ s.pid
  unfolding crude_pid behind_colon
  crude_pid-text =
      let small : s.pid < 2 ^ 63 = omega (arith, h.pid_fits) in
      rw (find_pid, format_int_lem s.pid h.pid_fits)
        (rw
          (
            strtol-blank (format s.pid ++ (codes ",\n" ++ from_plugin_sock s)),
            strtol-format s.pid (b'\n' ∷ from_plugin_sock s) small,
          )
          refl)

  buffer : c_str (take 4095 (session_text s)) ≡ session_text s
  buffer =
      ap c_str (take-eq_of_length-le 4095 (session_text s) (length-session_text s h))
      ∙ no_nul-c_str (session_text s) (no_nul-session_text s h)

  u32-pid : u32 s.pid ≡ s.pid
  u32-pid = omega (arith, h.pid_fits)

  holder_in-saved :
      (y : Machine) (want name : Bytes)
      → (length s.disk == 0) ≡ false
      → (length s.id == 0) ≡ false
      → str_eq (real_or_copy y s.disk) want ≡ true
      → y.has_process s.pid ≡ true
      → holder_in y want name (session_text s) ≡ some (s.id, s.pid)
  unfolding holder_in
  holder_in-saved y want name given named same lives =
      rw (buffer, crude_disk, crude_pid-text, crude_id, given, same, u32-pid, lives)
        (rw (and_not (ltb 0 s.pid) (ltb s.pid (2 ^ 63)), id_kept s.id name named h.id_fits) refl)

  -- A session with a disk and an id whose process is there, under the two conditions of this section: its file tells of it by its id and its process; and
  -- wherever it stands in the directory, the disk is taken to be held by a session.
  pub disk_held_by_session-saved :
      (y : Machine) (disk name : Bytes) (before behind : List (Bytes × Option Bytes))
      → y.entries ≡ before ++ (name, some (session_text s)) ∷ behind
      → is_session_name name ≡ true
      → (length s.disk == 0) ≡ false
      → (length s.id == 0) ≡ false
      → (length (real_or_copy y disk) == 0) ≡ false
      → str_eq (real_or_copy y s.disk) (real_or_copy y disk) ≡ true
      → y.has_process s.pid ≡ true
      → (holder_of y (real_or_copy y disk) name (some (session_text s)) ≡ some (s.id, s.pid))
        × (is_some (disk_held_by_session y disk) ≡ true)
  unfolding holder_of disk_held_by_session
  disk_held_by_session-saved y disk name before behind entries is_name given named there same
        lives =
      let want = real_or_copy y disk in
      let held : holder_of y want name (some (session_text s)) ≡ some (s.id, s.pid) =
        unfold holder_of in rw is_name (holder_in-saved y want name given named same lives) in
      (
        held,
        rw there (
            simp entries (
              search_entries_found y want name (some (session_text s)) (s.id, s.pid) before behind
                held)),
      )

some_of : (o : Option (Bytes × ℕ)) → is_some o ≡ true → (holder : Bytes × ℕ) × (o ≡ some holder)
some_of none e = absurd cc
some_of (some holder) e = (holder, refl)

-- what a run does where a session holds its disk: it prints one line, and starts nothing
run_session_held :
    (y : System) (gone : ℕ → Bool) (disk : Bytes)
    → y.has_iso ≡ true
    → y.has_disk ≡ true
    → y.has_plugin ≡ true
    → y.disk ≡ some disk
    → is_some (disk_held_by_session y.sessions disk) ≡ true
    → (holder : Bytes × ℕ) × (run_session y gone
        ≡ (print (held_line holder.0 holder.1 disk none) ∷ [], 3))
unfolding run_session run_unless_held holder_before
run_session_held y gone disk iso there plugin given held =
    let (holder, e) = some_of (disk_held_by_session y.sessions disk) held in
    (holder, simp (iso, there, plugin, given, e) refl)

-- Let a session be saved with an id and a disk: each of its texts fits its field and has neither a quotation mark
-- nor a backslash nor NUL, its id is neither "disk" nor "pid", none of its other texts in front of the disk's is
-- "disk", and its process number is not negative. If its process is there and its file stands anywhere in the
-- directory of the sessions, under the name of a session's file, then a run whose three files are there and whose
-- disk is the same, under whatever name, starts no emulator and touches no socket: it prints one line that tells
-- of a session that holds the disk, and its exit code is 3.
pub run_session-session_text :
    (s : Session) (y : System) (gone : ℕ → Bool) (disk name : Bytes)
    (before behind : List (Bytes × Option Bytes))
    → IsSaved s
    → IsClear s
    → y.sessions.entries ≡ before ++ (name, some (session_text s)) ∷ behind
    → is_session_name name ≡ true
    → (length s.disk == 0) ≡ false
    → (length s.id == 0) ≡ false
    → (length (real_or_copy y.sessions disk) == 0) ≡ false
    → str_eq (real_or_copy y.sessions s.disk) (real_or_copy y.sessions disk) ≡ true
    → y.sessions.has_process s.pid ≡ true
    → y.has_iso ≡ true
    → y.has_disk ≡ true
    → y.has_plugin ≡ true
    → y.disk ≡ some disk
    → (holder : Bytes × ℕ) × (run_session y gone
        ≡ (print (held_line holder.0 holder.1 disk none) ∷ [], 3))
run_session-session_text s y gone disk name before behind saved clear entries is_name given named
      there same lives iso has_disk plugin is_disk =
    run_session_held y gone disk iso has_disk plugin is_disk
      (disk_held_by_session-saved s saved clear y.sessions disk name before behind entries is_name
        given named there same lives).1

-- ===== src/Session/File.antt =====
-- The file of a session in cli/session.c, written and read back.
use qemu_mip.Prelude.{
  ℕ, zero, suc, ◌-◌, ◌^◌, ◌<◌, ◌≤◌, ◌≡◌, refl, ◌∙◌, ap, false, some, [], ◌∷◌, ◌++◌, Bytes, codes,
  arith, strstr, append_assoc, length, length-append, All, All-map, c_str, take,
  take-eq_of_length-le, snprintf, drop, sym, str_eq, List,
}
use qemu_mip.Protocol.Print.{format, IsDigit, format-IsDigit}
use qemu_mip.Session.Number.{strtol-format, skip_blank-format}
use qemu_mip.Session.Search.{
  IsPlain, InKey, InKey-IsPlain, search, strstr-plain, skip_text_field, skip_int_field,
  strstr-search,
}
use qemu_mip.Session.{
  Session, session_text, json_get_string, json_get_int, text_behind, copy_string, or_else_text,
  format_int, text_field, from_pid, from_plugin_sock,
}

-- Each text fits its field of `qc_session_t` and has no byte that ends or escapes a text of the file; the
-- process has a number that is not negative.
pub record IsSaved (s : Session) : Type 0 where
  pub id_plain : All IsPlain s.id
  pub plugin_plain : All IsPlain s.plugin_sock
  pub qmp_plain : All IsPlain s.qmp_sock
  pub log_plain : All IsPlain s.logpath
  pub iso_plain : All IsPlain s.iso
  pub disk_plain : All IsPlain s.disk
  pub prompt_plain : All IsPlain s.prompt
  pub expect_plain : All IsPlain s.last_expect
  pub id_fits : length s.id < 64
  pub plugin_fits : length s.plugin_sock < 256
  pub qmp_fits : length s.qmp_sock < 256
  pub log_fits : length s.logpath < 256
  pub iso_fits : length s.iso < 512
  pub disk_fits : length s.disk < 512
  pub prompt_fits : length s.prompt < 64
  pub expect_fits : length s.last_expect < 128
  pub pid_fits : s.pid < 2 ^ 31

copy_string_end : (room : ℕ) (t : Bytes) → copy_string room (b'"' ∷ t) ≡ []
unfolding copy_string
copy_string_end zero t = refl
copy_string_end (suc room) [] = refl
copy_string_end (suc room) (d ∷ t) = refl

copy_string-step :
    (room c : ℕ) (t : Bytes)
    → IsPlain c
    → 0 < length t
    → copy_string (suc room) (c ∷ t) ≡ c ∷ copy_string room t
unfolding copy_string
copy_string-step room c [] h pos = absurd (omega arith)
copy_string-step room c (d ∷ t) h pos = ground arith

copy_string-plain :
    (room : ℕ) (v t : Bytes)
    → All IsPlain v
    → length v ≤ room
    → copy_string room (v ++ b'"' ∷ t) ≡ v
copy_string-plain room [] t h fits = copy_string_end room t
copy_string-plain zero (c ∷ v) t h fits = absurd (omega arith)
copy_string-plain (suc room) (c ∷ v) t h fits =
    copy_string-step room c (v ++ b'"' ∷ t) h.0 (omega (arith, length-append v (b'"' ∷ t)))
    ∙ ap (λ r. c ∷ r) (copy_string-plain room v t h.1 (omega arith))

c_str-plain : (v t : Bytes) → All IsPlain v → c_str (v ++ t) ≡ v ++ c_str t
unfolding c_str
c_str-plain [] t h = refl
c_str-plain (c ∷ v) t h = ground (arith, c_str-plain v t h.1)

pub format_int_lem : (v : ℕ) → v < 2 ^ 31 → format_int v ≡ format v
unfolding format_int
format_int_lem v h = ground arith

format-IsPlain : (n : ℕ) → All IsPlain (format n)
format-IsPlain n =
    All-map {P = IsDigit} {Q = IsPlain} (λ c h. (omega arith, omega arith, omega arith)) (format n)
      (format-IsDigit n)

pub or_else_text-IsPlain : (s : Bytes) → All IsPlain s → All IsPlain (or_else_text s (codes "$"))
or_else_text-IsPlain [] h = ground arith
or_else_text-IsPlain (c ∷ s) h = h

-- fields one behind the other
abbrev pub fields : List (Bytes × Bytes) → Bytes → Bytes
fields [] t = t
fields ((key, v) ∷ rest) t = text_field key v (codes "\",\n" ++ fields rest t)

-- a field whose key is not the one that is searched
abbrev pub Passes : Bytes → Bytes × Bytes → Type 0
Passes k f = ((All InKey f.0) × (All IsPlain f.1)) × (str_eq f.0 k ≡ false)

find_field :
    (d : ℕ) (k : Bytes) (before : List (Bytes × Bytes)) (v t : Bytes)
    → All InKey (d ∷ k)
    → All (Passes (d ∷ k)) before
    → let pat = search (d ∷ k) (codes " \"") in
      strstr (fields before (text_field (d ∷ k) v t)) pat ≡ some (pat ++ (v ++ t))
find_field d k [] v t hk h =
    ap (λ r. strstr (codes "  \"" ++ (d ∷ r)) (search (d ∷ k) (codes " \"")))
      (sym (append_assoc k (codes "\": \"") (v ++ t)))
    ∙ strstr-search (d ∷ k) (v ++ t) (codes " \"")
find_field d k ((key, w) ∷ before) v t hk h =
    skip_text_field key w k (fields before (text_field (d ∷ k) v t)) (codes " \"") d
      (InKey-IsPlain key h.0.0.0) h.0.0.1 hk h.0.1
    ∙ find_field d k before v t hk h.1

drop-append : (s t : Bytes) → drop (length s) (s ++ t) ≡ t
drop-append [] t = refl
drop-append (c ∷ s) t = drop-append s t

behind_found :
    (json pat t : Bytes) → strstr json pat ≡ some (pat ++ t) → text_behind json pat ≡ some t
unfolding text_behind
behind_found json pat t h = rw h (ap some (drop-append pat t))

get_found :
    (json key v t : Bytes) (out_len : ℕ)
    → length key < 70
    → All IsPlain v
    → length v < out_len
    → strstr json (search key (codes " \"")) ≡ some (search key (codes " \"") ++ (v ++ b'"' ∷ t))
    → json_get_string json key out_len ≡ some v
unfolding json_get_string snprintf
get_found json key v t out_len short plain fits h =
    let whole : take 79 (search key (codes " \"")) ≡ search key (codes " \"") =
      take-eq_of_length-le 79 (search key (codes " \""))
        (omega (arith, length-append key (codes "\": \""))) in
    rw (whole, behind_found json (search key (codes " \"")) (v ++ b'"' ∷ t) h)
      (ap some (copy_string-plain (out_len - 1) v t plain (omega arith)))

module _ (s : Session) (h : IsSaved s) where
  pub pid-IsPlain : All IsPlain (format_int s.pid)
  pid-IsPlain = rw (format_int_lem s.pid h.pid_fits) (format-IsPlain s.pid)

  -- from the start of the file to the field behind the process
  strstr-from_pid :
      (d : ℕ) (k p : Bytes)
      → All InKey (d ∷ k)
      → str_eq (codes "id") (d ∷ k) ≡ false
      → strstr (session_text s) (search (d ∷ k) p) ≡ strstr (from_pid s) (search (d ∷ k) p)
  unfolding session_text
  strstr-from_pid d k p hk hid =
      strstr-plain (codes "{\n") (text_field (codes "id") s.id (codes "\",\n" ++ from_pid s))
        (d ∷ k ++ b'"' ∷ b':' ∷ p) (ground arith)
      ∙ skip_text_field (codes "id") s.id k (from_pid s) p d (ground arith) h.id_plain hk hid

  pub get_field :
      (d : ℕ) (k : Bytes) (before : List (Bytes × Bytes)) (v t : Bytes) (out_len : ℕ)
      → from_plugin_sock s ≡ fields before (text_field (d ∷ k) v (b'"' ∷ t))
      → All InKey (d ∷ k)
      → length k < 60
      → (str_eq (codes "id") (d ∷ k) ≡ false) × (str_eq (codes "pid") (d ∷ k) ≡ false)
      → All (Passes (d ∷ k)) before
      → All IsPlain v
      → length v < out_len
      → json_get_string (session_text s) (d ∷ k) out_len ≡ some v
  get_field d k before v t out_len e hk short other passes plain fits =
      get_found (session_text s) (d ∷ k) v t out_len (omega arith) plain fits (
        strstr-from_pid d k (codes " \"") hk other.0
        ∙ skip_int_field (codes "pid") (format_int s.pid) k (from_plugin_sock s) (codes " \"") d
            (ground arith) pid-IsPlain hk other.1
        ∙ ap (λ r. strstr r (search (d ∷ k) (codes " \""))) e
        ∙ find_field d k before v (b'"' ∷ t) hk passes)

  pub get_pid : json_get_int (session_text s) (codes "pid") ≡ some s.pid
  unfolding json_get_int snprintf str_eq
  get_pid =
      let rest = format_int s.pid ++ (codes ",\n" ++ from_plugin_sock s) in
      let found = behind_found (session_text s) (search (codes "pid") []) (b' ' ∷ rest) (
        strstr-from_pid b'p' (codes "id") [] (ground arith) refl
        ∙ strstr-search (codes "pid") (b' ' ∷ rest) []) in
      let small : s.pid < 2 ^ 63 = (let fits = h.pid_fits in omega arith) in
      rw
        (
          found,
          format_int_lem s.pid h.pid_fits,
          skip_blank-format s.pid (codes ",\n" ++ from_plugin_sock s),
        )
        (strtol-format s.pid (b'\n' ∷ from_plugin_sock s) small)

-- ===== src/Run/Search.antt =====
-- The search of cli/run.c for a key, with its quotation marks and without its colon, in the file of a session.
use qemu_mip.Prelude.{
  ℕ, zero, suc, ◌<◌, ◌≤◌, ◌≡◌, refl, ◌∙◌, false, some, [], ◌∷◌, ◌++◌, Bytes, codes, arith, strstr,
  str_eq, length, All,
}
use qemu_mip.Protocol.Fields.{skip, is_space}
use qemu_mip.Run.Disk.{until_quote}
use qemu_mip.Session.{strtol, text_field}
use qemu_mip.Session.Search.{
  IsPlain, InKey, InKey-IsPlain, strstr-plain, strstr-quote, other_key, not_here, strstr-other,
  strstr_here,
}

-- what is searched: a key with its quotation marks, and no colon
abbrev pub quoted_key : Bytes → Bytes
quoted_key k = b'"' ∷ (k ++ b'"' ∷ [])

-- a quoted word that is not the key
skip_quoted :
    (v k t : Bytes) (c d : ℕ)
    → All IsPlain v
    → All InKey (d ∷ k)
    → str_eq v (d ∷ k) ≡ false
    → IsPlain c
    → c < b'_'
    → strstr (b'"' ∷ (v ++ b'"' ∷ c ∷ t)) (quoted_key (d ∷ k)) ≡ strstr t (quoted_key (d ∷ k))
skip_quoted v k t c d hv hk other plain low =
    let pat = d ∷ k ++ b'"' ∷ [] in
    strstr-quote (v ++ b'"' ∷ c ∷ t) pat
      (other_key v (d ∷ k) (c ∷ t) [] hv (InKey-IsPlain (d ∷ k) hk) other)
    ∙ strstr-plain v (b'"' ∷ c ∷ t) pat hv
    ∙ strstr-quote (c ∷ t) pat (not_here c d k t [] hk.0 low)
    ∙ strstr-other c t pat plain

pub skip_field :
    (key v k t : Bytes) (d : ℕ)
    → All IsPlain key
    → All IsPlain v
    → All InKey (d ∷ k)
    → str_eq key (d ∷ k) ≡ false
    → str_eq v (d ∷ k) ≡ false
    → strstr (text_field key v (codes "\",\n" ++ t)) (quoted_key (d ∷ k))
      ≡ strstr t (quoted_key (d ∷ k))
skip_field key v k t d hkey hv hk other_name other_value =
    let pat = d ∷ k ++ b'"' ∷ [] in
    let value = b'"' ∷ (v ++ b'"' ∷ b',' ∷ b'\n' ∷ t) in
    strstr-plain (codes "  ") (b'"' ∷ (key ++ b'"' ∷ b':' ∷ b' ' ∷ value)) pat (ground arith)
    ∙ skip_quoted key k (b' ' ∷ value) b':' d hkey hk other_name (ground arith) (omega arith)
    ∙ strstr-plain (codes " ") value pat (ground arith)
    ∙ skip_quoted v k (b'\n' ∷ t) b',' d hv hk other_value (ground arith) (omega arith)
    ∙ strstr-plain (codes "\n") t pat (ground arith)

pub skip_pid :
    (v k t : Bytes) (d : ℕ)
    → All IsPlain v
    → All InKey (d ∷ k)
    → str_eq (codes "pid") (d ∷ k) ≡ false
    → strstr (codes "  \"pid\": " ++ (v ++ (codes ",\n" ++ t))) (quoted_key (d ∷ k))
      ≡ strstr t (quoted_key (d ∷ k))
skip_pid v k t d hv hk other =
    let pat = d ∷ k ++ b'"' ∷ [] in
    let value = v ++ (codes ",\n" ++ t) in
    strstr-plain (codes "  ") (b'"' ∷ (codes "pid" ++ b'"' ∷ b':' ∷ b' ' ∷ value)) pat
      (ground arith)
    ∙ skip_quoted (codes "pid") k (b' ' ∷ value) b':' d (ground arith) hk other (ground arith)
        (omega arith)
    ∙ strstr-plain (codes " ") value pat (ground arith)
    ∙ strstr-plain v (codes ",\n" ++ t) pat hv
    ∙ strstr-plain (codes ",\n") t pat (ground arith)

-- the key itself
pub found_key :
    (k t : Bytes)
    → strstr (codes "  " ++ (quoted_key k ++ t)) (quoted_key k) ≡ some (quoted_key k ++ t)
found_key k t =
    strstr-plain (codes "  ") (quoted_key k ++ t) (k ++ b'"' ∷ []) (ground arith)
    ∙ strstr_here (quoted_key k) t

pub until_quote-plain :
    (room : ℕ) (v t : Bytes)
    → All IsPlain v
    → length v ≤ room
    → until_quote room (v ++ b'"' ∷ t) ≡ v
unfolding until_quote
until_quote-plain zero [] t h fits = refl
until_quote-plain zero (c ∷ v) t h fits = absurd (omega arith)
until_quote-plain (suc room) [] t h fits = refl
until_quote-plain (suc room) (c ∷ v) t h fits =
    ground (arith, until_quote-plain room v t h.1 (omega (arith, fits)))

pub strtol-blank : (t : Bytes) → strtol (b' ' ∷ t) ≡ strtol t
unfolding strtol skip is_space
strtol-blank t = refl

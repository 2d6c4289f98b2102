-- ===== src/Session/Search.antt =====
-- The search of cli/session.c for a key in the file of a session: what `strstr` passes over.
use qemu_mip.Prelude.{
  ℕ, ◌<◌, ◌≤◌, ◌≡◌, ◌≢◌, refl, ◌∙◌, true, false, some, [], ◌∷◌, ◌++◌, Bytes, codes, arith, strstr,
  starts_with, str_eq, All, All-map,
}
use qemu_mip.Session.{text_field}

-- a byte that stands for itself in the file, and one of a key
abbrev pub IsPlain : ℕ → Type 0
IsPlain c = (c ≢ b'"') × (c ≢ b'\\') × (c ≢ 0)

abbrev pub InKey : ℕ → Type 0
InKey c = (b'_' ≤ c) × (c ≤ b'z')

pub InKey-IsPlain : (s : Bytes) → All InKey s → All IsPlain s
InKey-IsPlain s h =
    All-map {P = InKey} {Q = IsPlain} (λ c h. (omega arith, omega arith, omega arith)) s h

-- what is searched for a key
abbrev pub search : Bytes → Bytes → Bytes
search k p = b'"' ∷ (k ++ b'"' ∷ b':' ∷ p)

pub strstr-plain :
    (v t pat : Bytes) → All IsPlain v → strstr (v ++ t) (b'"' ∷ pat) ≡ strstr t (b'"' ∷ pat)
unfolding strstr starts_with
strstr-plain [] t pat h = refl
strstr-plain (c ∷ v) t pat h = ground (arith, strstr-plain v t pat h.1)

pub strstr-quote :
    (t pat : Bytes)
    → starts_with t pat ≡ false
    → strstr (b'"' ∷ t) (b'"' ∷ pat) ≡ strstr t (b'"' ∷ pat)
unfolding strstr starts_with
strstr-quote t pat h = rw h refl

pub other_key :
    (key k t p : Bytes)
    → All IsPlain key
    → All IsPlain k
    → str_eq key k ≡ false
    → starts_with (key ++ b'"' ∷ t) (k ++ b'"' ∷ p) ≡ false
unfolding starts_with str_eq
other_key [] [] t p hkey hk h = ground arith
other_key [] (c ∷ k) t p hkey hk h = ground arith
other_key (d ∷ key) [] t p hkey hk h = ground arith
other_key (d ∷ key) (c ∷ k) t p hkey hk h = ground (arith, other_key key k t p hkey.1 hk.1)

not_value :
    (v k t p : Bytes)
    → All IsPlain v
    → All IsPlain k
    → starts_with (v ++ b'"' ∷ b',' ∷ t) (k ++ b'"' ∷ b':' ∷ p) ≡ false
unfolding starts_with
not_value [] [] t p hv hk = refl
not_value [] (c ∷ k) t p hv hk = ground arith
not_value (d ∷ v) [] t p hv hk = ground arith
not_value (d ∷ v) (c ∷ k) t p hv hk = ground (arith, not_value v k t p hv.1 hk.1)

pub not_here :
    (c d : ℕ) (k t p : Bytes) → InKey d → c < b'_' → starts_with (c ∷ t) (d ∷ k ++ b'"' ∷ p) ≡ false
unfolding starts_with
not_here c d k t p h lt = ground arith

pub strstr-other :
    (c : ℕ) (t pat : Bytes) → IsPlain c → strstr (c ∷ t) (b'"' ∷ pat) ≡ strstr t (b'"' ∷ pat)
strstr-other c t pat h = strstr-plain (c ∷ []) t pat (h, tt)

-- a key that is another one, and a value
skip_name :
    (key k t p : Bytes) (d : ℕ)
    → All IsPlain key
    → All InKey (d ∷ k)
    → str_eq key (d ∷ k) ≡ false
    → strstr (codes "  \"" ++ (key ++ (codes "\":" ++ t))) (search (d ∷ k) p)
      ≡ strstr t (search (d ∷ k) p)
skip_name key k t p d hkey hk h =
    let pat = d ∷ k ++ b'"' ∷ b':' ∷ p in
    let name = key ++ b'"' ∷ b':' ∷ t in
    let blank : IsPlain b' ' = (omega arith, omega arith, omega arith) in
    let colon : IsPlain b':' = (omega arith, omega arith, omega arith) in
    strstr-other b' ' (b' ' ∷ b'"' ∷ name) pat blank
    ∙ strstr-other b' ' (b'"' ∷ name) pat blank
    ∙ strstr-quote name pat
        (other_key key (d ∷ k) (b':' ∷ t) (b':' ∷ p) hkey (InKey-IsPlain (d ∷ k) hk) h)
    ∙ strstr-plain key (b'"' ∷ b':' ∷ t) pat hkey
    ∙ strstr-quote (b':' ∷ t) pat (not_here b':' d k t (b':' ∷ p) hk.0 (omega arith))
    ∙ strstr-other b':' t pat colon

-- what stands behind a value
skip_end :
    (k t p : Bytes) (d : ℕ)
    → All InKey (d ∷ k)
    → strstr (codes "\",\n" ++ t) (search (d ∷ k) p) ≡ strstr t (search (d ∷ k) p)
skip_end k t p d hk =
    let pat = d ∷ k ++ b'"' ∷ b':' ∷ p in
    let rest = b',' ∷ b'\n' ∷ t in
    strstr-quote rest pat (not_here b',' d k (b'\n' ∷ t) (b':' ∷ p) hk.0 (omega arith))
    ∙ strstr-plain (b',' ∷ b'\n' ∷ []) t pat (ground arith)

pub skip_text_field :
    (key v k t p : Bytes) (d : ℕ)
    → All IsPlain key
    → All IsPlain v
    → All InKey (d ∷ k)
    → str_eq key (d ∷ k) ≡ false
    → strstr (text_field key v (codes "\",\n" ++ t)) (search (d ∷ k) p)
      ≡ strstr t (search (d ∷ k) p)
skip_text_field key v k t p d hkey hv hk h =
    let pat = d ∷ k ++ b'"' ∷ b':' ∷ p in
    let rest = v ++ b'"' ∷ b',' ∷ b'\n' ∷ t in
    skip_name key k (b' ' ∷ b'"' ∷ rest) p d hkey hk h
    ∙ strstr-other b' ' (b'"' ∷ rest) pat (omega arith, omega arith, omega arith)
    ∙ strstr-quote rest pat (not_value v (d ∷ k) (b'\n' ∷ t) p hv (InKey-IsPlain (d ∷ k) hk))
    ∙ strstr-plain v (b'"' ∷ b',' ∷ b'\n' ∷ t) pat hv
    ∙ skip_end k t p d hk

-- a field whose value is a number
pub skip_int_field :
    (key v k t p : Bytes) (d : ℕ)
    → All IsPlain key
    → All IsPlain v
    → All InKey (d ∷ k)
    → str_eq key (d ∷ k) ≡ false
    → strstr
        (codes "  \"" ++ (key ++ (codes "\": " ++ (v ++ (codes ",\n" ++ t)))))
        (search (d ∷ k) p)
      ≡ strstr t (search (d ∷ k) p)
skip_int_field key v k t p d hkey hv hk h =
    let pat = d ∷ k ++ b'"' ∷ b':' ∷ p in
    let rest = b',' ∷ b'\n' ∷ t in
    skip_name key k (b' ' ∷ (v ++ rest)) p d hkey hk h
    ∙ strstr-other b' ' (v ++ rest) pat (omega arith, omega arith, omega arith)
    ∙ strstr-plain v rest pat hv
    ∙ strstr-plain (b',' ∷ b'\n' ∷ []) t pat (ground arith)

starts_with-append : (s t : Bytes) → starts_with (s ++ t) s ≡ true
unfolding starts_with
starts_with-append [] t = refl
starts_with-append (c ∷ s) t = ground (arith, starts_with-append s t)

pub strstr_here : (s t : Bytes) → strstr (s ++ t) s ≡ some (s ++ t)
unfolding strstr
strstr_here [] [] = ground arith
strstr_here [] (c ∷ t) = ground arith
strstr_here (c ∷ s) t = rw (starts_with-append (c ∷ s) t) refl

-- the key itself
pub strstr-search :
    (k t p : Bytes) → strstr (codes "  " ++ (search k p ++ t)) (search k p) ≡ some (search k p ++ t)
strstr-search k t p =
    strstr-plain (codes "  ") (search k p ++ t) (k ++ b'"' ∷ b':' ∷ p) (ground arith)
    ∙ strstr_here (search k p) t

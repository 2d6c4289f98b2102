-- ===== src/Paths/Config.antt =====
-- `load_env_file` of cli/paths.c: what the lines of a file do to the environment.
use qemu_mip.Paths.{
  Files, local_lines, home_lines, load_local_configs, Environ, getenv, setenv, is_known, apply_line,
  parse_line, load_lines, is_empty,
}
use qemu_mip.Prelude.{
  ◌≡◌, refl, sym, subst, ◌∙◌, ap, true, false, Option, none, some, List, [], ◌∷◌, Bytes, arith,
  str_eq, ◌==◌, if◌then◌else◌, length, Bool-cases, inl, inr, Option-cases,
}

str_eq_self : (s : Bytes) → str_eq s s ≡ true
unfolding str_eq
str_eq_self [] = refl
str_eq_self (c ∷ s) = ground (arith, str_eq_self s)

pub str_eq_sound : (s t : Bytes) → str_eq s t ≡ true → s ≡ t
unfolding str_eq
str_eq_sound [] [] h = refl
str_eq_sound [] (d ∷ t) h = absurd (cc)
str_eq_sound (c ∷ s) [] h = absurd (cc)
str_eq_sound (c ∷ s) (d ∷ t) h = ground (arith, str_eq_sound s t)

-- the first of two values that is there
abbrev pub or_else : Option Bytes → Option Bytes → Option Bytes
or_else none b = b
or_else (some a) b = some a

-- What a setting says of a variable.
abbrev pub setting : Option (Bytes × Bytes) → Bytes → Option Bytes
setting none name = none
setting (some (key, val)) name = if str_eq key name then some val else none

-- the first line that sets the variable
unfoldable pub first_setting : List Bytes → Bytes → Option Bytes
first_setting [] name = none
first_setting (line ∷ rest) name =
    or_else (setting (parse_line line) name) (first_setting rest name)

or_else-none : (a : Option Bytes) → or_else a none ≡ a
or_else-none none = refl
or_else-none (some a) = refl

getenv-setenv_self :
    (env : Environ) (key val : Bytes)
    → getenv (setenv env key val) key ≡ or_else (getenv env key) (some val)
unfolding setenv getenv
getenv-setenv_self env key val = elim (Option-cases (getenv env key)) [
  | inl e ↦ rw (e, str_eq_self key) refl
  | inr (v, e) ↦ rw e (rw e refl)
]

getenv-setenv_ne :
    (env : Environ) (key val name : Bytes)
    → str_eq key name ≡ false
    → getenv (setenv env key val) name ≡ getenv env name
unfolding setenv getenv
getenv-setenv_ne env key val name ne = elim (Option-cases (getenv env key)) [
  | inl e ↦ rw (e, ne) refl
  | inr (v, e) ↦ rw e refl
]

apply_line-known :
    (env : Environ) (key val : Bytes)
    → is_known key ≡ true
    → getenv (apply_line (some (key, val)) env) key ≡ or_else (getenv env key) (some val)
unfolding apply_line
apply_line-known env key val known = elim (Option-cases (getenv env key)) [
  | inl e ↦ rw (known, e) (getenv-setenv_self env key val ∙ rw e refl)
  | inr (v, e) ↦ elim (Bool-cases (length v == 0)) [
    | inl z ↦ rw (known, e, z) (getenv-setenv_self env key val ∙ rw e refl)
    | inr z ↦ rw (known, e, z) e
  ]
]

apply_line-other :
    (env : Environ) (key val name : Bytes)
    → str_eq key name ≡ false
    → getenv (apply_line (some (key, val)) env) name ≡ getenv env name
unfolding apply_line
apply_line-other env key val name ne = elim (Bool-cases (is_known key)) [
  | inl k ↦ elim (Bool-cases (is_empty (getenv env key))) [
    | inl z ↦ rw (k, z) (getenv-setenv_ne env key val name ne)
    | inr z ↦ rw (k, z) refl
  ]
  | inr k ↦ rw k refl
]

-- a variable that the client does not read
apply_line-unknown :
    (set : Option (Bytes × Bytes)) (env : Environ) (name : Bytes)
    → is_known name ≡ false
    → getenv (apply_line set env) name ≡ getenv env name
unfolding apply_line
apply_line-unknown none env name unread = refl
apply_line-unknown (some (key, val)) env name unread = elim (Bool-cases (str_eq key name)) [
  | inl e ↦
      let k : is_known key ≡ false =
        subst (λ n. is_known n ≡ false) (sym (str_eq_sound key name e)) unread in
      rw k refl
  | inr e ↦ apply_line-other env key val name e
]

-- what a line does to one variable
getenv-apply_line :
    (set : Option (Bytes × Bytes)) (env : Environ) (name : Bytes)
    → is_known name ≡ true
    → getenv (apply_line set env) name ≡ or_else (getenv env name) (setting set name)
getenv-apply_line none env name known = unfold apply_line in sym (or_else-none (getenv env name))
getenv-apply_line (some (key, val)) env name known = elim (Bool-cases (str_eq key name)) [
  | inl e ↦
      let p = str_eq_sound key name e in
      rw e (
        subst (λ n. getenv (apply_line (some (key, val)) env) n ≡ or_else (getenv env n) (some val))
          p (apply_line-known env key val (subst (λ n. is_known n ≡ true) (sym p) known)))
  | inr e ↦ rw e (apply_line-other env key val name e ∙ sym (or_else-none (getenv env name)))
]

or_else_assoc : (a b c : Option Bytes) → or_else (or_else a b) c ≡ or_else a (or_else b c)
or_else_assoc none b c = refl
or_else_assoc (some a) b c = refl

load_lines-known :
    (lines : List Bytes) (env : Environ) (name : Bytes)
    → is_known name ≡ true
    → getenv (load_lines lines env) name ≡ or_else (getenv env name) (first_setting lines name)
unfolding load_lines first_setting
load_lines-known [] env name known = sym (or_else-none (getenv env name))
load_lines-known (line ∷ rest) env name known =
    load_lines-known rest (apply_line (parse_line line) env) name known
    ∙ ap (λ v. or_else v (first_setting rest name))
        (getenv-apply_line (parse_line line) env name known)
    ∙ or_else_assoc (getenv env name) (setting (parse_line line) name) (first_setting rest name)

load_lines-unknown :
    (lines : List Bytes) (env : Environ) (name : Bytes)
    → is_known name ≡ false
    → getenv (load_lines lines env) name ≡ getenv env name
unfolding load_lines
load_lines-unknown [] env name unread = refl
load_lines-unknown (line ∷ rest) env name unread =
    load_lines-unknown rest (apply_line (parse_line line) env) name unread
    ∙ apply_line-unknown (parse_line line) env name unread

-- The environment behind a file of settings, variable by variable: a variable that is there before,
-- even if it is empty, keeps its value; one that is not is given the value of the first line that sets
-- it, if it is one of the eight that the client reads.
pub getenv-load_lines :
    (lines : List Bytes) (env : Environ) (name : Bytes)
    → getenv (load_lines lines env) name
      ≡ or_else (getenv env name) (if is_known name then first_setting lines name else none)
getenv-load_lines lines env name = elim (Bool-cases (is_known name)) [
  | inl e ↦ rw e (load_lines-known lines env name e)
  | inr e ↦ rw e (load_lines-unknown lines env name e ∙ sym (or_else-none (getenv env name)))
]

-- what the two files of settings say of a variable, the project's before the user's
abbrev pub configured : Files → Bytes → Environ → Bytes → Option Bytes
configured fs root env name =
    or_else (first_setting (local_lines fs root) name) (first_setting (home_lines fs env) name)

-- The environment behind both files: what the process was given wins, then the file in the root, then
-- the one in the user's home; nothing but the client's eight variables is changed.
pub getenv-load_local_configs :
    (fs : Files) (root : Bytes) (env : Environ) (name : Bytes)
    → getenv (load_local_configs fs root env) name
      ≡ or_else (getenv env name) (if is_known name then configured fs root env name else none)
unfolding load_local_configs
getenv-load_local_configs fs root env name = elim (Bool-cases (is_known name)) [
  | inl e ↦
      rw
        (
          getenv-load_lines (home_lines fs env) (load_lines (local_lines fs root) env) name,
          getenv-load_lines (local_lines fs root) env name,
          e,
        )
        (or_else_assoc (getenv env name) _ _)
  | inr e ↦
      rw
        (
          getenv-load_lines (home_lines fs env) (load_lines (local_lines fs root) env) name,
          getenv-load_lines (local_lines fs root) env name,
          e,
        )
        (or_else_assoc (getenv env name) none none)
]

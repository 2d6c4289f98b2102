-- ===== src/Qmp/Typing.antt =====
-- `qc_qmp_type` and `qc_qmp_type_line` of cli/qmp.c.
use qemu_mip.Prelude.{
  ℕ, ◌<◌, ◌≤◌, ◌≡◌, refl, ◌∙◌, ap, ap₂, Bool, true, false, none, some, List, [], ◌∷◌, ◌++◌, map,
  Bytes, arith, length, if◌then◌else◌, ◌==◌, All, Bool-cases, inl, inr,
}
use qemu_mip.Qmp.Keys.{typed_char, typed_char-nil, map_char-types}
use qemu_mip.Qmp.{
  Key, Outcome, map_char, send_key_command, shift_key_command, is_accepted, send_key, type_key,
  type_text,
}

-- the command for a key
abbrev pub key_command : Key → Bytes
key_command (code, shift) = if shift then shift_key_command code else send_key_command code

abbrev pub IsTypable : ℕ → Type 0
IsTypable c = (32 ≤ c) × (c < 127)

code_of_typed : (key : Key) → 32 ≤ typed_char key → (length key.0 == 0) ≡ false
code_of_typed ([], shift) h = absurd (omega (arith, typed_char-nil shift, h))
code_of_typed (c ∷ code, shift) h = ground arith

module _ {S : Type 0} (execute : Bytes → S → Outcome × S) where
  -- The commands for some keys, one after the other until one is not accepted.
  unfoldable pub press_keys : List Key → S → Bool × S
  press_keys [] s = (true, s)
  press_keys (k ∷ ks) s =
      let (r, t) = execute (key_command k) s in
      let rest = press_keys ks t in if is_accepted execute r then rest else (false, t)

  type_text-some :
      (c : ℕ) (text : Bytes) (key : Key) (s : S)
      → map_char c ≡ some key
      → (length key.0 == 0) ≡ false
      → type_text execute (c ∷ text) s ≡ (
          let (r, t) = execute (key_command key) s in
          if is_accepted execute r then type_text execute text t else (false, t))
  unfolding type_text type_key send_key
  type_text-some c text (code, true) s is_key h = rw is_key refl
  type_text-some c text (code, false) s is_key h = rw (is_key, h) refl

  -- A text of printable ASCII is typed by one command for each character, in order, until one is
  -- refused; the keys of these commands type the text on a US keyboard.
  pub type_text-press_keys :
      (text : Bytes)
      → All IsTypable text
      → (ks : List Key) × (map typed_char ks ≡ text)
        × ((s : S) → type_text execute text s ≡ press_keys ks s)
  unfolding type_text press_keys
  type_text-press_keys [] h = ([], refl, λ s. refl)
  type_text-press_keys (c ∷ text) h =
      let (key, is_key, types) = map_char-types c h.0.0 h.0.1 in
      let (ks, spells, same) = type_text-press_keys text h.1 in
      let coded = code_of_typed key (omega (arith, types, h.0.0)) in
      (
        key ∷ ks,
        ap₂ ◌∷◌ types spells,
        λ s.
            type_text-some c text key s is_key coded
            ∙ ap
                (λ r.
                  if is_accepted execute (execute (key_command key) s).0
                  then r
                  else (false, (execute (key_command key) s).1))
                (same (execute (key_command key) s).1),
      )

  -- A character that has no key ends the typing with an error: what stands before it is typed as if it
  -- were the whole text, and nothing is sent for what follows it.
  pub type_text_stops :
      (a b : Bytes) (c : ℕ) (s : S)
      → map_char c ≡ none
      → type_text execute (a ++ c ∷ b) s ≡ (false, (type_text execute a s).1)
  unfolding type_text type_key
  type_text_stops [] b c s h = rw h refl
  type_text_stops (x ∷ a) b c s h = elim (Bool-cases (type_key execute (map_char x) s).0) [
    | inl e ↦ rw e (type_text_stops a b c (type_key execute (map_char x) s).1 h)
    | inr e ↦ rw e refl
  ]

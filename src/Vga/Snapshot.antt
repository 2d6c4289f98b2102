-- ===== src/Vga/Snapshot.antt =====
-- `snapshot_text` of plugin/vga.c against the lines of the screen.
use qemu_mip.Prelude.{
  ℕ, zero, suc, ◌+◌, ◌-◌, ◌*◌, ◌≤◌, ◌<◌, ◌≡◌, refl, ◌∙◌, ap, sym, subst, false, [], ◌∷◌, ◌++◌,
  append_assoc, append-nil, Bytes, arith, inl, inr, ltb, leb, ◌==◌, if◌then◌else◌, length, get_or,
  take, length-append, take-eq_of_length-le, Bool-cases,
}
use qemu_mip.Vga.{
  Vga, Copy, more, full, ◌>>=◌, copied, cols, rows, put_char, copy_cols, end_row, copy_rows,
  snapshot_text,
}

-- `k` characters of the buffer from index `i` on
abbrev pub segment : Bytes → ℕ → ℕ → Bytes
segment text i zero = []
segment text i (suc k) = get_or text i 0 ∷ segment text (i + 1) k

-- row `r` with the line feed behind it; there is none behind the last row of the screen
unfoldable pub row_line : Bytes → ℕ → Bytes
row_line text r = segment text (r * cols) cols ++ (if ltb (r + 1) rows then b'\n' ∷ [] else [])

-- `k` rows from row `r` on
unfoldable pub lines : Bytes → ℕ → ℕ → Bytes
lines text r zero = []
lines text r (suc k) = row_line text r ++ lines text (r + 1) k

-- the 25 rows of 80 characters
unfoldable pub screen : Bytes → Bytes
screen text = lines text 0 rows

-- The loops have written `out`, as far as the buffer of `out_len` bytes takes it.
fill : ℕ → Bytes → Copy
fill out_len out = if leb (length out + 1) out_len then more out else full (take (out_len - 1) out)

take-append_of_le : (n : ℕ) (xs ys : Bytes) → n ≤ length xs → take n (xs ++ ys) ≡ take n xs
take-append_of_le zero xs ys h = refl
take-append_of_le (suc n) [] ys h = absurd (omega arith)
take-append_of_le (suc n) (x ∷ xs) ys h = ground (arith, take-append_of_le n xs ys)

-- a part of the loops that writes `w`
Writes : ℕ → (Bytes → Copy) → Bytes → Type 0
Writes out_len f w = (out : Bytes) → (fill out_len out >>= f) ≡ fill out_len (out ++ w)

put_char-Writes : (out_len c : ℕ) → 0 < out_len → Writes out_len (put_char out_len c) (c ∷ [])
unfolding Writes fill put_char
put_char-Writes out_len c pos out = ground (
  arith,
  length-append out (c ∷ []),
  take-append_of_le (out_len - 1) out (c ∷ []),
  take-eq_of_length-le (out_len - 1) out,
)

more-Writes : (out_len : ℕ) → Writes out_len more []
unfolding Writes fill
more-Writes out_len out = ground (arith, append-nil out)

>>=_assoc : (m : Copy) (f g : Bytes → Copy) → (m >>= λ out. f out >>= g) ≡ (m >>= f >>= g)
>>=_assoc (more out) f g = refl
>>=_assoc (full out) f g = refl

>>=-Writes :
    (out_len : ℕ) (f g : Bytes → Copy) (u w : Bytes)
    → Writes out_len f u
    → Writes out_len g w
    → Writes out_len (λ out. f out >>= g) (u ++ w)
unfolding Writes
>>=-Writes out_len f g u w hf hg out =
    >>=_assoc (fill out_len out) f g
    ∙ ap (λ m. m >>= g) (hf out)
    ∙ hg (out ++ u)
    ∙ ap (fill out_len) (append_assoc out u w)

copy_cols-Writes :
    (out_len : ℕ) (text : Bytes) (k row col : ℕ)
    → 0 < out_len
    → Writes out_len (copy_cols out_len text k row col) (segment text (row * cols + col) k)
unfolding copy_cols
copy_cols-Writes out_len text zero row col pos = more-Writes out_len
copy_cols-Writes out_len text (suc k) row col pos =
    let c = get_or text (row * cols + col) 0 in
    let next : segment text (row * cols + (col + 1)) k ≡ segment text (row * cols + col + 1) k =
      ap (λ i. segment text i k) (omega arith) in
    let rest = copy_cols-Writes out_len text k row (col + 1) pos in
    >>=-Writes out_len (put_char out_len c) (copy_cols out_len text k row (col + 1)) (c ∷ [])
      (segment text (row * cols + col + 1) k) (put_char-Writes out_len c pos) (rw next at rest)

end_row-Writes :
    (out_len row : ℕ)
    → 0 < out_len
    → Writes out_len (end_row out_len row) (if ltb (row + 1) rows then b'\n' ∷ [] else [])
unfolding end_row Writes
end_row-Writes out_len row pos out = elim (Bool-cases (ltb (row + 1) rows)) [
  | inl e ↦ ground (arith, put_char-Writes out_len b'\n' pos out)
  | inr e ↦ ground (arith, more-Writes out_len out)
]

row-Writes :
    (out_len : ℕ) (text : Bytes) (row : ℕ)
    → 0 < out_len
    → Writes out_len
        (λ out. copy_cols out_len text cols row 0 out >>= end_row out_len row)
        (row_line text row)
unfolding row_line
row-Writes out_len text row pos =
    let row_end : Bytes = if ltb (row + 1) rows then b'\n' ∷ [] else [] in
    let start : row * cols + 0 ≡ row * cols = omega arith in
    let chars : Writes out_len (copy_cols out_len text cols row 0)
        (segment text (row * cols) cols) =
      subst (λ i. Writes out_len (copy_cols out_len text cols row 0) (segment text i cols)) start
        (copy_cols-Writes out_len text cols row 0 pos) in
    >>=-Writes out_len (copy_cols out_len text cols row 0) (end_row out_len row)
      (segment text (row * cols) cols) row_end chars (end_row-Writes out_len row pos)

copy_rows-Writes :
    (out_len : ℕ) (text : Bytes) (k row : ℕ)
    → 0 < out_len
    → Writes out_len (copy_rows out_len text k row) (lines text row k)
unfolding copy_rows lines
copy_rows-Writes out_len text zero row pos = more-Writes out_len
copy_rows-Writes out_len text (suc k) row pos =
    >>=-Writes out_len (λ out. copy_cols out_len text cols row 0 out >>= end_row out_len row)
      (copy_rows out_len text k (row + 1)) (row_line text row) (lines text (row + 1) k)
      (row-Writes out_len text row pos) (copy_rows-Writes out_len text k (row + 1) pos)

copied-fill : (out_len : ℕ) (out : Bytes) → copied (fill out_len out) ≡ take (out_len - 1) out
unfolding fill
copied-fill out_len out = ground (arith, take-eq_of_length-le (out_len - 1) out)

fill-nil : (out_len : ℕ) → 0 < out_len → fill out_len [] ≡ more []
unfolding fill
fill-nil out_len pos = ground arith

copied-copy_rows :
    (out_len : ℕ) (text : Bytes) (k : ℕ)
    → 0 < out_len
    → copied (copy_rows out_len text k 0 []) ≡ take (out_len - 1) (lines text 0 k)
unfolding Writes
copied-copy_rows out_len text k pos =
    ap copied (
      ap (λ m. m >>= copy_rows out_len text k 0) (sym (fill-nil out_len pos))
      ∙ copy_rows-Writes out_len text k 0 pos [])
    ∙ copied-fill out_len (lines text 0 k)

-- Taking a snapshot writes the lines of the screen, cut to `out_len - 1` bytes, and clears `dirty`;
-- the text and the count stay.
pub snapshot_text_lem :
    (s : Vga) (out_len : ℕ)
    → 0 < out_len
    → snapshot_text s out_len ≡ (take (out_len - 1) (screen s.text), record s { dirty = false })
unfolding snapshot_text screen
snapshot_text_lem s out_len pos = elim (Bool-cases (out_len == 0)) [
  | inl e ↦ absurd (ground arith)
  | inr e ↦ rw (e, copied-copy_rows out_len s.text rows pos)
]

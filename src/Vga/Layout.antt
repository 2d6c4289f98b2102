-- ===== src/Vga/Layout.antt =====
-- Where the cells of plugin/vga.c stand in the text of a snapshot.
use qemu_mip.Prelude.{
  ℕ, zero, suc, ◌+◌, ◌-◌, ◌*◌, ◌≤◌, ◌<◌, ◌≡◌, refl, ◌∙◌, ap, ◌++◌, append-nil, Bytes, arith, inl,
  inr, ltb, if◌then◌else◌, length, get_or, length-append, get_or-append, take-eq_of_length-le,
  Bool-cases,
}
use qemu_mip.Vga.{Vga, cols, rows, snapshot_text}
use qemu_mip.Vga.Snapshot.{segment, row_line, lines, screen, snapshot_text_lem}

length-segment : (text : Bytes) (i k : ℕ) → length (segment text i k) ≡ k
length-segment text i zero = refl
length-segment text i (suc k) = ap suc (length-segment text (i + 1) k)

get_or-segment :
    (text : Bytes) (i k j : ℕ) → j < k → get_or (segment text i k) j 0 ≡ get_or text (i + j) 0
get_or-segment text i zero j h = absurd (omega arith)
get_or-segment text i (suc k) zero h = ap (λ n. get_or text n 0) (omega arith)
get_or-segment text i (suc k) (suc j) h =
    get_or-segment text (i + 1) k j (omega arith) ∙ ap (λ n. get_or text n 0) (omega arith)

length-row_line :
    (text : Bytes) (r : ℕ) → length (row_line text r) ≡ (if ltb (r + 1) rows then 81 else 80)
unfolding row_line
length-row_line text r = elim (Bool-cases (ltb (r + 1) rows)) [
  | inl e ↦ rw e refl
  | inr e ↦ rw e refl
]

length-lines :
    (text : Bytes) (r k : ℕ) → r + k ≡ rows → 0 < k → length (lines text r k) + 1 ≡ 81 * k
unfolding lines
length-lines text r zero e h = absurd (omega arith)
length-lines text r (suc zero) e h =
    ground (arith, length-row_line text r, append-nil (row_line text r))
length-lines text r (suc (suc k)) e h = ground (
  arith,
  length-row_line text r,
  length-append (row_line text r) (lines text (r + 1) (suc k)),
  length-lines text (r + 1) (suc k),
)

get_or-segment-append :
    (text : Bytes) (i k : ℕ) (w : Bytes) (j : ℕ)
    → get_or (segment text i k ++ w) j 0
      ≡ (if ltb j k then get_or text (i + j) 0 else get_or w (j - k) 0)
get_or-segment-append text i k w j = ground (
  arith,
  get_or-append (segment text i k) w j 0,
  length-segment text i k,
  get_or-segment text i k j,
)

get_or-row_line :
    (text : Bytes) (r c : ℕ)
    → c < 80 + (if ltb (r + 1) rows then 1 else 0)
    → get_or (row_line text r) c 0 ≡ (if ltb c 80 then get_or text (r * cols + c) 0 else b'\n')
unfolding row_line
get_or-row_line text r c h = get_or-segment-append text (r * cols) cols _ c ∙ ground arith

same_cell : (r c : ℕ) → r * cols + (81 * 0 + c) ≡ (r + 0) * cols + c
same_cell r c = omega arith

one_row_less : (i c : ℕ) → 81 * suc i + c - 81 ≡ 81 * i + c
one_row_less i c = omega arith

next_row : (r i c : ℕ) → (r + 1 + i) * cols + c ≡ (r + suc i) * cols + c
next_row r i c = omega arith

get_or-lines :
    (text : Bytes) (r k i c : ℕ)
    → r + k ≡ rows
    → i < k
    → c ≤ 80
    → 81 * i + c + 1 < 81 * k
    → get_or (lines text r k) (81 * i + c) 0
      ≡ (if ltb c 80 then get_or text ((r + i) * cols + c) 0 else b'\n')
unfolding lines
get_or-lines text r zero i c e hi hc h = absurd (omega arith)
get_or-lines text r (suc k) zero c e hi hc h = ground (
  arith,
  get_or-append (row_line text r) (lines text (r + 1) k) (81 * 0 + c) 0,
  length-row_line text r,
  get_or-row_line text r (81 * 0 + c),
  ap (λ n. get_or text n 0) (same_cell r c),
)
get_or-lines text r (suc k) (suc i) c e hi hc h = ground (
  arith,
  get_or-append (row_line text r) (lines text (r + 1) k) (81 * suc i + c) 0,
  length-row_line text r,
  get_or-lines text (r + 1) k i c,
  one_row_less i c,
  next_row r i c,
)

pub length-screen : (text : Bytes) → length (screen text) ≡ 2024
unfolding screen
length-screen text = omega (arith, length-lines text 0 rows)

get_or-screen :
    (text : Bytes) (row col : ℕ)
    → col ≤ cols
    → 81 * row + col < 2024
    → get_or (screen text) (81 * row + col) 0
      ≡ (if ltb col cols then get_or text (cols * row + col) 0 else b'\n')
unfolding screen
get_or-screen text row col hc hr =
    get_or-lines text 0 rows row col refl (omega arith) hc (omega arith)
    ∙ ap (λ n. if ltb col cols then get_or text n 0 else b'\n') (omega arith)

-- In a buffer that is large enough a snapshot is 2024 characters: character `col` of row `row` of
-- the buffer stands at `81 * row + col`, and a line feed at `81 * row + 80` behind each row but
-- the last.
pub snapshot_text_layout :
    (s : Vga) (out_len row col : ℕ)
    → 2024 < out_len
    → col ≤ cols
    → 81 * row + col < 2024
    → let text = (snapshot_text s out_len).0 in
      (length text ≡ 2024)
      × (get_or text (81 * row + col) 0
          ≡ (if ltb col cols then get_or s.text (cols * row + col) 0 else b'\n'))
snapshot_text_layout s out_len row col h hc hr =
    let all_fits : length (screen s.text) ≤ out_len - 1 = omega (arith, length-screen s.text) in
    rw
      (
        snapshot_text_lem s out_len (omega arith),
        take-eq_of_length-le (out_len - 1) (screen s.text) all_fits,
      )
      (length-screen s.text, get_or-screen s.text row col hc hr)

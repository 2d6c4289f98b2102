-- ===== src/Vga.antt =====
-- plugin/vga.c and plugin/vga.h: the shadow of the 80x25 VGA text buffer. Each operation is the
-- body that runs between the lock and the unlock of `s->lock`, on a state that is not NULL.
pub mod Store
pub mod Load
pub mod Snapshot
pub mod Layout
mod Examples
use qemu_mip.Prelude.{
  ℕ, zero, suc, ◌+◌, ◌-◌, ◌*◌, ◌/◌, ◌%◌, Bool, true, false, ◌||◌, [], ◌∷◌, ◌++◌, Bytes, byte_of,
  u64, ltb, leb, ◌==◌, if◌then◌else◌, length, get_or, set, replicate,
}

abbrev pub text_phys : ℕ
text_phys = 0xB8000

abbrev pub cols : ℕ
cols = 80

abbrev pub rows : ℕ
rows = 25

abbrev pub cells : ℕ
cells = 2000

-- QEMU_CONNECT_VGA_BYTES
abbrev pub window_bytes : ℕ
window_bytes = 4000

-- `qc_vga_state_t`; `text` has `cells` bytes
pub record Vga : Type 0 where
  pub text : Bytes
  pub write_count : ℕ  -- uint64_t
  pub dirty : Bool

unfoldable pub init : Vga
init = record { text = replicate cells b' '; write_count = 0; dirty = false }

-- the body of the loop of `qc_vga_note_store`, at byte `b` of the window
put_byte : ℕ → ℕ → Vga → Vga
put_byte b c s =
    if b % 2 == 0
    then (if ltb (b / 2) cells then record s { text = set s.text (b / 2) c; dirty = true } else s)
    else s

-- the loop of `qc_vga_note_store`: `n` rounds are left, and the next is round `i`
store_bytes : ℕ → ℕ → ℕ → ℕ → Vga → Vga
store_bytes zero i off value s = s
store_bytes (suc n) i off value s =
    let rest = store_bytes n (i + 1) off value (put_byte (off + i) (byte_of value i) s) in
    if leb window_bytes (off + i) then s else rest

-- In C a round with `i >= 8` shifts by 64 or more, which is undefined: the theorems have
-- `size <= 8`. Here such a byte is 0.
unfoldable pub note_store : Vga → ℕ → ℕ → ℕ → Vga
unfolding store_bytes put_byte
note_store s hwaddr value size =
    if size == 0
    then s
    else if ltb hwaddr text_phys || leb (text_phys + window_bytes) hwaddr
    then s
    else (let t = store_bytes size 0 (hwaddr - text_phys) value s in
        record t { write_count = u64 (t.write_count + 1) })

-- the first loop of `qc_vga_load_cells`: `n` rounds are left, and the next is round `i`
load_chars : ℕ → ℕ → Bytes → Bytes → Bytes
load_chars zero i raw text = text
load_chars (suc n) i raw text = load_chars n (i + 1) raw (set text i (get_or raw (i * 2) 0))

-- its second loop
blank_chars : ℕ → ℕ → Bytes → Bytes
blank_chars zero i text = text
blank_chars (suc n) i text = blank_chars n (i + 1) (set text i b' ')

-- `raw` holds at least `len` bytes
unfoldable pub load_cells : Vga → Bytes → ℕ → Vga
unfolding load_chars blank_chars
load_cells s raw len =
    let n = if ltb (len / 2) cells then len / 2 else cells in
    record s {
      text = blank_chars (cells - n) n (load_chars n 0 raw s.text);
      dirty = true;
      write_count = u64 (s.write_count + 1);
    }

-- The output buffer of `qc_vga_snapshot_text`: `more out` while the loops go on, `full out` when
-- they have returned early. `n` of the source is `length out`.
pub data Copy : Type 0 where
  more : Bytes → Copy
  full : Bytes → Copy

infixl 5 ◌>>=◌
abbrev pub ◌>>=◌ : Copy → (Bytes → Copy) → Copy
more out >>= f = f out
full out >>= f = full out

-- `if (n + 1 >= out_len) { … return n; } out[n++] = c;`
put_char : ℕ → ℕ → Bytes → Copy
put_char out_len c out = if leb out_len (length out + 1) then full out else more (out ++ c ∷ [])

-- the loop over `col`, with `k` rounds left
copy_cols : ℕ → Bytes → ℕ → ℕ → ℕ → Bytes → Copy
copy_cols out_len text zero row col out = more out
copy_cols out_len text (suc k) row col out =
    put_char out_len (get_or text (row * cols + col) 0) out
    >>= copy_cols out_len text k row (col + 1)

-- what follows the loop over `col`
end_row : ℕ → ℕ → Bytes → Copy
end_row out_len row out = if ltb (row + 1) rows then put_char out_len b'\n' out else more out

-- the loop over `row`, with `k` rounds left
copy_rows : ℕ → Bytes → ℕ → ℕ → Bytes → Copy
copy_rows out_len text zero row out = more out
copy_rows out_len text (suc k) row out =
    copy_cols out_len text cols row 0 out
    >>= end_row out_len row
    >>= copy_rows out_len text k (row + 1)

abbrev pub copied : Copy → Bytes
copied (more out) = out
copied (full out) = out

-- The text before the NUL that ends `out`, whose length is returned, and the state.
unfoldable pub snapshot_text : Vga → ℕ → Bytes × Vga
unfolding put_char copy_cols end_row copy_rows
snapshot_text s out_len =
    if out_len == 0
    then ([], s)
    else (copied (copy_rows out_len s.text rows 0 []), record s { dirty = false })

unfoldable pub count_writes : Vga → ℕ
count_writes s = s.write_count

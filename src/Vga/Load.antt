-- ===== src/Vga/Load.antt =====
-- `load_cells` of plugin/vga.c: the shadow rebuilt from the bytes of the window.
use qemu_mip.Guest.{Memory}
use qemu_mip.Prelude.{
  ℕ, zero, suc, ◌+◌, ◌-◌, ◌*◌, ◌/◌, ◌≤◌, ◌<◌, ◌≡◌, refl, ◌∙◌, ◌&&◌, [], ◌∷◌, Bytes, arith, IsByte,
  u64, ltb, leb, if◌then◌else◌, length, get_or, set, length-set, get_or-set, All, All-set,
}
use qemu_mip.Vga.{Vga, text_phys, cells, window_bytes, load_chars, blank_chars, load_cells}
use qemu_mip.Vga.Store.{IsValid, Shadows}

length-load_chars : (n i : ℕ) (raw text : Bytes) → length (load_chars n i raw text) ≡ length text
unfolding load_chars
length-load_chars zero i raw text = refl
length-load_chars (suc n) i raw text =
    length-load_chars n (i + 1) raw (set text i (get_or raw (i * 2) 0)) ∙ length-set text i _

length-blank_chars : (n i : ℕ) (text : Bytes) → length (blank_chars n i text) ≡ length text
unfolding blank_chars
length-blank_chars zero i text = refl
length-blank_chars (suc n) i text =
    length-blank_chars n (i + 1) (set text i b' ') ∙ length-set text i _

get_or-load_chars :
    (n i : ℕ) (raw text : Bytes) (j : ℕ)
    → i + n ≤ length text
    → get_or (load_chars n i raw text) j 0
      ≡ (if leb i j && ltb j (i + n) then get_or raw (j * 2) 0 else get_or text j 0)
unfolding load_chars
get_or-load_chars zero i raw text j h = ground arith
get_or-load_chars (suc n) i raw text j h =
    let c = get_or raw (i * 2) 0 in
    ground (
      arith,
      get_or-set text i j c 0,
      length-set text i c,
      get_or-load_chars n (i + 1) raw (set text i c) j,
    )

get_or-blank_chars :
    (n i : ℕ) (text : Bytes) (j : ℕ)
    → i + n ≤ length text
    → get_or (blank_chars n i text) j 0
      ≡ (if leb i j && ltb j (i + n) then b' ' else get_or text j 0)
unfolding blank_chars
get_or-blank_chars zero i text j h = ground arith
get_or-blank_chars (suc n) i text j h = ground (
  arith,
  get_or-set text i j b' ' 0,
  length-set text i b' ',
  get_or-blank_chars n (i + 1) (set text i b' ') j,
)

IsByte-get_or : (raw : Bytes) (i : ℕ) → All IsByte raw → get_or raw i 0 < 256
IsByte-get_or [] i h = omega arith
IsByte-get_or (c ∷ raw) zero h = h.0
IsByte-get_or (c ∷ raw) (suc i) h = IsByte-get_or raw i h.1

All-load_chars :
    (n i : ℕ) (raw text : Bytes)
    → All IsByte raw
    → All IsByte text
    → All IsByte (load_chars n i raw text)
unfolding load_chars
All-load_chars zero i raw text hr ht = ht
All-load_chars (suc n) i raw text hr ht =
    All-load_chars n (i + 1) raw _ hr (All-set IsByte text i _ (IsByte-get_or raw (i * 2) hr) ht)

All-blank_chars : (n i : ℕ) (text : Bytes) → All IsByte text → All IsByte (blank_chars n i text)
unfolding blank_chars
All-blank_chars zero i text ht = ht
All-blank_chars (suc n) i text ht =
    All-blank_chars n (i + 1) _ (All-set IsByte text i b' ' (omega arith) ht)

-- A refresh from bytes of any length keeps the screen at 2000 bytes and the count below 2^64.
pub load_cells-IsValid :
    (s : Vga) (raw : Bytes) (len : ℕ) → IsValid s → All IsByte raw → IsValid (load_cells s raw len)
unfolding load_cells
load_cells-IsValid s raw len v h =
    let n = if ltb (len / 2) cells then len / 2 else cells in
    record {
      size =
          length-blank_chars (cells - n) n (load_chars n 0 raw s.text)
          ∙ length-load_chars n 0 raw s.text
          ∙ v.size;
      bytes = All-blank_chars (cells - n) n _ (All-load_chars n 0 raw s.text h v.bytes);
      counter = omega arith;
    }

-- After `load_cells` cell `j` holds byte `2j` of the data if cell `j` is wholly within its `len`
-- bytes, and a space if it is not; nothing of the old screen is left, and one write is counted.
pub load_cells_lem :
    (s : Vga) (raw : Bytes) (len j : ℕ)
    → IsValid s
    → j < cells
    → let t = load_cells s raw len in
      (get_or t.text j 0 ≡ (if leb (2 * j + 2) len then get_or raw (j * 2) 0 else b' '))
      × (t.write_count ≡ u64 (s.write_count + 1))
unfolding load_cells
load_cells_lem s raw len j v h =
    let n = if ltb (len / 2) cells then len / 2 else cells in
    ground (
      arith,
      get_or-load_chars n 0 raw s.text j,
      length-load_chars n 0 raw s.text,
      get_or-blank_chars (cells - n) n (load_chars n 0 raw s.text) j,
      v.size,
    )

-- A refresh that reads the whole window makes the shadow right whatever it held before: stores that
-- were missed are repaired.
pub load_cells_refines :
    (s : Vga) (mem : Memory) (raw : Bytes)
    → IsValid s
    → ((i : ℕ) → i < window_bytes → get_or raw i 0 ≡ mem (text_phys + i))
    → Shadows (load_cells s raw window_bytes) mem
load_cells_refines s mem raw v read j h =
    ground (arith, load_cells_lem s raw window_bytes j v h, read (j * 2))

-- ===== src/Vga/Store.antt =====
-- `note_store` of plugin/vga.c, cell by cell and against the guest's memory.
use qemu_mip.Prelude.{
  ℕ, zero, suc, ◌⊎◌, ◌+◌, ◌-◌, ◌*◌, ◌/◌, ◌^◌, ◌≤◌, ◌<◌, ◌≡◌, refl, ◌&&◌, arith, IsByte, byte_of,
  byte_of-lt, u64, ltb, leb, ◌==◌, if◌then◌else◌, length, get_or, length-set, get_or-set,
  length-replicate, All, All-set, All-replicate,
}
use qemu_mip.Guest.{Memory, write}
use qemu_mip.Vga.{Vga, text_phys, cells, window_bytes, init, put_byte, store_bytes, note_store}

-- the invariant of `qc_vga_state_t`
pub record IsValid (s : Vga) : Type 0 where
  pub size : length s.text ≡ cells
  pub bytes : All IsByte s.text
  pub counter : s.write_count < 2 ^ 64

pub init-IsValid : IsValid init
unfolding init
init-IsValid = record {
  size = length-replicate cells b' ';
  bytes = All-replicate IsByte cells b' ' (omega arith);
  counter = omega arith;
}

put_byte-IsValid : (b c : ℕ) (s : Vga) → c < 256 → IsValid s → IsValid (put_byte b c s)
unfolding put_byte
put_byte-IsValid b c s h v =
    ground (arith, length-set s.text (b / 2) c, All-set IsByte s.text (b / 2) c h v.bytes)

store_bytes-IsValid :
    (n i off value : ℕ) (s : Vga) → IsValid s → IsValid (store_bytes n i off value s)
unfolding store_bytes
store_bytes-IsValid zero i off value s v = v
store_bytes-IsValid (suc n) i off value s v =
    let next = put_byte (off + i) (byte_of value i) s in
    let kept = put_byte-IsValid (off + i) (byte_of value i) s (byte_of-lt value i) v in
    ground (arith, store_bytes-IsValid n (i + 1) off value next kept)

-- A store of any size and value keeps the screen at 2000 bytes and the count below 2^64.
pub note_store-IsValid :
    (s : Vga) (hwaddr value size : ℕ) → IsValid s → IsValid (note_store s hwaddr value size)
unfolding note_store
note_store-IsValid s hwaddr value size v =
    ground (arith, store_bytes-IsValid size 0 (hwaddr - text_phys) value s v)

text-put_byte :
    (b c : ℕ) (s : Vga) (j : ℕ)
    → length s.text ≡ cells
    → j < cells
    → get_or (put_byte b c s).text j 0 ≡ (if b == 2 * j then c else get_or s.text j 0)
unfolding put_byte
text-put_byte b c s j size h = ground (arith, get_or-set s.text (b / 2) j c 0)

length-put_byte : (b c : ℕ) (s : Vga) → length (put_byte b c s).text ≡ length s.text
unfolding put_byte
length-put_byte b c s = ground (arith, length-set s.text (b / 2) c)

-- the character of cell `j` after the loop
text-store_bytes :
    (n i off value : ℕ) (s : Vga) (j : ℕ)
    → length s.text ≡ cells
    → j < cells
    → get_or (store_bytes n i off value s).text j 0 ≡ (
        if leb (off + i) (2 * j) && ltb (2 * j) (off + i + n)
        then byte_of value (2 * j - off)
        else get_or s.text j 0)
unfolding store_bytes
text-store_bytes zero i off value s j size h = ground arith
text-store_bytes (suc n) i off value s j size h =
    let next = put_byte (off + i) (byte_of value i) s in
    ground (
      arith,
      text-put_byte (off + i) (byte_of value i) s j size h,
      length-put_byte (off + i) (byte_of value i) s,
      text-store_bytes n (i + 1) off value next j,
    )

write_count-store_bytes :
    (n i off value : ℕ) (s : Vga) → (store_bytes n i off value s).write_count ≡ s.write_count
unfolding store_bytes put_byte
write_count-store_bytes zero i off value s = refl
write_count-store_bytes (suc n) i off value s =
    ground
      (arith, write_count-store_bytes n (i + 1) off value (put_byte (off + i) (byte_of value i) s))

-- The shadow holds the character byte of each cell of the guest's text buffer.
abbrev pub Shadows : Vga → Memory → Type 0
Shadows s mem = (j : ℕ) → j < cells → get_or s.text j 0 ≡ mem (text_phys + 2 * j)

-- A store of 1 to 8 bytes that starts in the window puts byte `i` of the value into cell
-- `(off + i) / 2` for each even `off + i` below the end of the window, where `off` is the store's
-- offset in the window; it leaves the other cells alone and counts one write, modulo 2^64.
pub note_store_lem :
    (s : Vga) (hwaddr value size j : ℕ)
    → IsValid s
    → text_phys ≤ hwaddr
    → hwaddr < text_phys + window_bytes
    → 0 < size
    → size ≤ 8
    → j < cells
    → let t = note_store s hwaddr value size in
      let off = hwaddr - text_phys in
      (t.write_count ≡ u64 (s.write_count + 1))
      × (get_or t.text j 0 ≡ (
          if leb off (2 * j) && ltb (2 * j) (off + size)
          then byte_of value (2 * j - off)
          else get_or s.text j 0))
unfolding note_store
note_store_lem s hwaddr value size j v low high pos small h =
    let off = hwaddr - text_phys in
    ground (
      arith,
      write_count-store_bytes size 0 off value s,
      text-store_bytes size 0 off value s j v.size h,
    )

-- A store outside the window, or of no bytes, changes nothing.
pub note_store_miss :
    (s : Vga) (hwaddr value size : ℕ)
    → ((size ≡ 0) ⊎ ((hwaddr < text_phys) ⊎ (text_phys + window_bytes ≤ hwaddr)))
    → note_store s hwaddr value size ≡ s
unfolding note_store
note_store_miss s hwaddr value size miss = ground arith

-- If the shadow holds the characters of the guest's text buffer, it still does after any store of
-- at most 8 bytes that does not begin below the window and reach into it.
pub note_store_refines :
    (s : Vga) (mem : Memory) (hwaddr value size : ℕ)
    → IsValid s
    → Shadows s mem
    → size ≤ 8
    → ((text_phys ≤ hwaddr) ⊎ (hwaddr + size ≤ text_phys))
    → Shadows (note_store s hwaddr value size) (write mem hwaddr value size)
unfolding note_store
note_store_refines s mem hwaddr value size v shadows small clear j h =
    ground (arith, text-store_bytes size 0 (hwaddr - text_phys) value s j v.size h, shadows j h)

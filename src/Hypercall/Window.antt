-- ===== src/Hypercall/Window.antt =====
-- The window of plugin/hypercall.c against the guest's memory.
use qemu_mip.Hypercall.{window_phys, window_size, put_byte, store_bytes}
use qemu_mip.Prelude.{
  ℕ, zero, suc, ◌+◌, ◌-◌, ◌^◌, ◌≤◌, ◌<◌, ◌≡◌, refl, ◌∙◌, ◌&&◌, Bytes, byte_of, u64, arith, ltb, leb,
  ◌==◌, if◌then◌else◌, length, get_or, length-set, get_or-set,
}

length-put_byte : (a c : ℕ) (window : Bytes) → length (put_byte a c window) ≡ length window
unfolding put_byte
length-put_byte a c window = ground (arith, length-set window (a - window_phys) c)

pub length-store_bytes :
    (n i phys value : ℕ) (window : Bytes)
    → length (store_bytes n i phys value window) ≡ length window
unfolding store_bytes
length-store_bytes zero i phys value window = refl
length-store_bytes (suc n) i phys value window =
    length-store_bytes n (i + 1) phys value _
    ∙ length-put_byte (u64 (phys + i)) (byte_of value i) window

get_or-put_byte :
    (a c : ℕ) (window : Bytes) (j : ℕ)
    → length window ≡ window_size
    → j < window_size
    → get_or (put_byte a c window) j 0 ≡ (if a == window_phys + j then c else get_or window j 0)
unfolding put_byte
get_or-put_byte a c window j size h = ground (arith, get_or-set window (a - window_phys) j c 0)

-- the byte at offset `j` of the window after the loop, which does not wrap round the address space
pub get_or-store_bytes :
    (n i phys value : ℕ) (window : Bytes) (j : ℕ)
    → length window ≡ window_size
    → j < window_size
    → phys + i + n ≤ 2 ^ 64
    → get_or (store_bytes n i phys value window) j 0 ≡ (
        if leb (phys + i) (window_phys + j) && ltb (window_phys + j) (phys + i + n)
        then byte_of value (window_phys + j - phys)
        else get_or window j 0)
unfolding store_bytes
get_or-store_bytes zero i phys value window j size h fits = ground arith
get_or-store_bytes (suc n) i phys value window j size h fits =
    let next = put_byte (u64 (phys + i)) (byte_of value i) window in
    ground (
      arith,
      get_or-put_byte (u64 (phys + i)) (byte_of value i) window j size h,
      length-put_byte (u64 (phys + i)) (byte_of value i) window,
      get_or-store_bytes n (i + 1) phys value next j,
    )

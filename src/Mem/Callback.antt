-- ===== src/Mem/Callback.antt =====
-- `store_mem_cb` of plugin/mem.c against the guest's memory.
use qemu_mip.Guest.{Memory, Access, write}
use qemu_mip.Hypercall
use qemu_mip.Hypercall.Events.{Mirrors, step_spec, Fits, note_store-Mirrors, st-note_store}
use qemu_mip.Mem.{Scrape, MemInfo, in_text, mem_value_as_u64, store_mem_cb}
use qemu_mip.Prelude.{
  ℕ, ◌+◌, ◌^◌, ◌≤◌, ◌<◌, ◌≡◌, refl, sym, suc, zero, true, false, Bool-cases, ◌⊎◌, inl, inr, some,
  arith,
}
use qemu_mip.Vga
use qemu_mip.Vga.{Vga, text_phys, window_bytes}
use qemu_mip.Vga.Store.{IsValid, Shadows, note_store_refines, note_store_miss, note_store-IsValid}

-- A guest memory that both shadows follow.
pub record Follows (s : Scrape) (mem : Memory) : Type 0 where
  pub valid : IsValid s.vga
  pub text : Shadows s.vga mem
  pub window : Mirrors s.hc mem

-- the store that a callback is told of
abbrev pub access : ℕ → MemInfo → Access
access phys info = record {
  phys = phys;
  value = mem_value_as_u64 info.value;
  size = 2 ^ info.size_shift;
}

missed :
    (s : Vga) (phys value size : ℕ) → in_text phys ≡ false → s ≡ Vga.note_store s phys value size
missed s phys value size e = sym (note_store_miss s phys value size (ground arith))

size_le : (k : ℕ) → k < 4 → 2 ^ k ≤ 8
size_le zero h = omega arith
size_le (suc zero) h = omega arith
size_le (suc (suc zero)) h = omega arith
size_le (suc (suc (suc zero))) h = omega arith
size_le (suc (suc (suc (suc k)))) h = absurd (omega arith)

-- what the callback makes of a store, with both shadows on
store_mem_cb-eq :
    (s : Scrape) (info : MemInfo) (phys : ℕ)
    → info.is_store ≡ true
    → info.phys ≡ some phys
    → s.hypercall_on ≡ true
    → let a = access phys info in
      let t = store_mem_cb true info s in
      (t.hc ≡ Hypercall.note_store s.hc a.phys a.value a.size)
      × (t.vga ≡ Vga.note_store s.vga a.phys a.value a.size)
unfolding store_mem_cb
store_mem_cb-eq s info phys store known on =
    let size = 2 ^ info.size_shift in
    let value = mem_value_as_u64 info.value in
    elim (Bool-cases (in_text phys)) [
      | inl e ↦ rw (store, known, on, e) (refl, refl)
      | inr e ↦ rw (store, known, on, e) (refl, missed s.vga phys value size e)
    ]

-- With both shadows on, a store of 1, 2, 4 or 8 bytes leaves both with the guest's memory after it, and
-- the state of the hypercall window as its specification says. The store has a physical address, does
-- not run over the end of the address space and does not begin below the text buffer and reach into it.
pub store_mem_cb-Follows :
    (s : Scrape) (mem : Memory) (info : MemInfo) (phys : ℕ)
    → Follows s mem
    → info.is_store ≡ true
    → info.phys ≡ some phys
    → s.hypercall_on ≡ true
    → info.size_shift < 4
    → phys + 2 ^ info.size_shift ≤ 2 ^ 64
    → ((text_phys ≤ phys) ⊎ (phys + 2 ^ info.size_shift ≤ text_phys))
    → let a = access phys info in
      let t = store_mem_cb true info s in
      let after = write mem a.phys a.value a.size in
      Follows t after × (t.hc.st ≡ step_spec s.hc.st after a)
store_mem_cb-Follows s mem info phys f store known on small inside clear =
    let a = access phys info in
    let (hc, vga) = store_mem_cb-eq s info phys store known on in
    let size = size_le info.size_shift small in
    let fits : Fits a = record { small = size; inside = inside } in
    (
      record {
        valid = rw vga (note_store-IsValid s.vga a.phys a.value a.size f.valid);
        text =
            rw vga (note_store_refines s.vga mem a.phys a.value a.size f.valid f.text size clear);
        window = rw hc (note_store-Mirrors s.hc mem a f.window fits);
      },
      rw hc (st-note_store s.hc mem a f.window fits),
    )

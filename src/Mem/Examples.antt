-- ===== src/Mem/Examples.antt =====
-- A store at which the theorem on plugin/mem.c is applied.
use qemu_mip.Guest.{Memory, write}
use qemu_mip.Hypercall
use qemu_mip.Hypercall.Events.{step_spec}
use qemu_mip.Mem.{Scrape, MemInfo, u16, store_mem_cb, mem_value_as_u64}
use qemu_mip.Mem.Callback.{Follows, access, store_mem_cb-Follows}
use qemu_mip.Prelude.{
  ◌≡◌, refl, ◌∙◌, true, some, arith, inl, get_or-replicate, length-replicate, if◌then◌else◌, leb,
}
use qemu_mip.Vga
use qemu_mip.Vga.{text_phys}
use qemu_mip.Vga.Store.{init-IsValid}

-- a guest whose memory is zero but for a screen of spaces
abbrev boot : Memory
boot a = if leb text_phys a then (if leb 0xFEE1DEAD a then 0 else 32) else 0

abbrev start : Scrape
start = record {
  counters = record {
    mem_cb_fired = 0;
    mem_cb_vga_hit = 0;
    hwaddr_null = 0;
    discon_exc = 0;
    discon_irq = 0;
    discon_host = 0;
    discon_total = 0;
  };
  hypercall_on = true;
  hc = Hypercall.init;
  vga = Vga.init;
}

-- a store of the character A in the attribute 7 to the first cell
abbrev letter : MemInfo
letter = record { is_store = true; phys = some 0xB8000; value = u16 0x0741; size_shift = 1 }

start-Follows : Follows start boot
unfolding Hypercall.init Vga.init
start-Follows = record {
  valid = init-IsValid;
  text = λ j h. get_or-replicate 2000 32 j 0 h ∙ ground arith;
  window = record {
    size = length-replicate 16 0;
    bytes = λ j h. get_or-replicate 16 0 j 0 h ∙ ground arith;
  };
}

store_mem_cb-Follows_example :
    let t = store_mem_cb true letter start in
    let a = access 0xB8000 letter in
    let after = write boot 0xB8000 0x0741 2 in
    Follows t after × (t.hc.st ≡ step_spec start.hc.st after a)
unfolding mem_value_as_u64
store_mem_cb-Follows_example =
    store_mem_cb-Follows start boot letter 0xB8000 start-Follows refl refl refl (omega arith)
      (omega arith) (inl (omega arith))

-- ===== src/Mem.antt =====
-- plugin/mem.c: the counters, and the callback on guest stores.
pub mod Callback
mod Examples
use qemu_mip.Hypercall
use qemu_mip.Hypercall.{Hypercall}
use qemu_mip.Prelude.{
  ℕ, ◌+◌, ◌*◌, ◌/◌, ◌%◌, ◌^◌, Bool, true, false, ◌&&◌, ◌||◌, not, Option, none, some, List, [], map,
  u64, ltb, leb, ◌==◌, if◌then◌else◌,
}
use qemu_mip.Vga
use qemu_mip.Vga.{Vga}

-- the atomic counters of plugin/mem.c, each a uint64_t
pub record Counters : Type 0 where
  pub mem_cb_fired : ℕ
  pub mem_cb_vga_hit : ℕ
  pub hwaddr_null : ℕ
  pub discon_exc : ℕ
  pub discon_irq : ℕ
  pub discon_host : ℕ
  pub discon_total : ℕ

-- `atomic_fetch_add_explicit(…, 1, …)`
abbrev pub bump : ℕ → ℕ
bump n = u64 (n + 1)

unfoldable pub discon_init : Counters → Counters
discon_init c = record c { discon_exc = 0; discon_irq = 0; discon_host = 0; discon_total = 0 }

-- The values of `enum qemu_plugin_discon_type`, which qemu-plugin.h declares.
pub record DisconType : Type 0 where
  pub exception : ℕ
  pub interrupt : ℕ
  pub hostcall : ℕ

-- `type_flags & k` for a `k` that is one bit, a power of two
abbrev pub has_bit : ℕ → ℕ → Bool
has_bit type_flags k = type_flags / k % 2 == 1

unfoldable pub discon_on_event : DisconType → ℕ → Counters → Counters
discon_on_event d flags c = record c {
  discon_total = bump c.discon_total;
  discon_exc =
      if flags == d.exception || has_bit flags d.exception then bump c.discon_exc else c.discon_exc;
  discon_irq =
      if flags == d.interrupt || has_bit flags d.interrupt then bump c.discon_irq else c.discon_irq;
  discon_host =
      if flags == d.hostcall || has_bit flags d.hostcall then bump c.discon_host else c.discon_host;
}

-- `qemu_plugin_mem_value`, by its `type`; of a 128-bit value the two halves
pub data MemValue : Type 0 where
  u8 : ℕ → MemValue
  u16 : ℕ → MemValue
  u32 : ℕ → MemValue
  u64v : ℕ → MemValue
  u128 : ℕ → ℕ → MemValue
  other : MemValue

unfoldable pub mem_value_as_u64 : MemValue → ℕ
mem_value_as_u64 (u8 v) = v
mem_value_as_u64 (u16 v) = v
mem_value_as_u64 (u32 v) = v
mem_value_as_u64 (u64v v) = v
mem_value_as_u64 (u128 low high) = low
mem_value_as_u64 other = 0

-- What the plugin API tells a memory callback: whether it is a store, the physical address unless
-- `qemu_plugin_get_hwaddr` gives NULL, the value, and the base-2 logarithm of the size.
pub record MemInfo : Type 0 where
  pub is_store : Bool
  pub phys : Option ℕ
  pub value : MemValue
  pub size_shift : ℕ

-- the state that the callback works on
pub record Scrape : Type 0 where
  pub counters : Counters
  pub hypercall_on : Bool
  pub hc : Hypercall
  pub vga : Vga

abbrev pub in_text : ℕ → Bool
in_text phys = leb Vga.text_phys phys && ltb phys (Vga.text_phys + Vga.window_bytes)

-- `store_mem_cb` from the physical address on; `with_vga` says that `userdata` is not NULL
note_store : Bool → ℕ → ℕ → ℕ → Scrape → Scrape
note_store with_vga phys raw size s =
    let t =
      if s.hypercall_on then record s { hc = Hypercall.note_store s.hc phys raw size } else s in
    if with_vga && in_text phys
    then record t {
      counters = record (t.counters) { mem_cb_vga_hit = bump t.counters.mem_cb_vga_hit };
      vga = Vga.note_store t.vga phys raw size;
    }
    else t

by_address : Bool → Option ℕ → ℕ → ℕ → Scrape → Scrape
by_address with_vga none raw size s = record s {
  counters = record (s.counters) { hwaddr_null = bump s.counters.hwaddr_null };
}
by_address with_vga (some phys) raw size s = note_store with_vga phys raw size s

-- `qc_mem_instrument_tb`, on the instructions of a block, each NULL or not; the second result says for
-- each whether the callback is registered for its stores.
unfoldable pub instrument_tb : Option (List Bool) → Bool → Bool → Scrape → Scrape × List Bool
instrument_tb none with_vga hypercall_on s = (record s { hypercall_on = hypercall_on }, [])
instrument_tb (some insns) with_vga hypercall_on s = (
  record s { hypercall_on = hypercall_on },
  if with_vga || hypercall_on then insns else map (λ insn. false) insns,
)

unfoldable pub store_mem_cb : Bool → MemInfo → Scrape → Scrape
unfolding by_address note_store
store_mem_cb with_vga info s =
    let t = record s {
      counters = record (s.counters) { mem_cb_fired = bump s.counters.mem_cb_fired };
    } in
    if not info.is_store
    then t
    else by_address with_vga info.phys (mem_value_as_u64 info.value) (2 ^ info.size_shift) t

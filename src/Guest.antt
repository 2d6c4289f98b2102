-- ===== src/Guest.antt =====
-- The guest's physical memory, as the specification of what the two shadows of the plugin
-- (plugin/vga.c, plugin/hypercall.c) follow. It is not code of the repository.
use qemu_mip.Prelude.{ℕ, ◌+◌, ◌-◌, ◌&&◌, List, [], ◌∷◌, byte_of, ltb, leb, if◌then◌else◌}

-- the byte at each physical address
abbrev pub Memory : Type 0
Memory = ℕ → ℕ

-- a little-endian store of `size` bytes of `value` at `phys`
abbrev pub write : Memory → ℕ → ℕ → ℕ → Memory
write mem phys value size a =
    if leb phys a && ltb a (phys + size) then byte_of value (a - phys) else mem a

-- a store that the guest makes
pub record Access : Type 0 where
  pub phys : ℕ
  pub value : ℕ
  pub size : ℕ

abbrev pub write_all : Memory → List Access → Memory
write_all mem [] = mem
write_all mem (a ∷ as') = write_all (write mem a.phys a.value a.size) as'

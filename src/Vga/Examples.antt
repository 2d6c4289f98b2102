-- ===== src/Vga/Examples.antt =====
-- Screens at which the theorems on plugin/vga.c are applied.
use qemu_mip.Guest.{Memory, write}
use qemu_mip.Prelude.{
  ℕ, ◌<◌, ◌≡◌, inl, false, Bytes, arith, get_or, take, replicate, get_or-replicate,
}
use qemu_mip.Vga.{init, note_store, load_cells, snapshot_text, cells, window_bytes}
use qemu_mip.Vga.Load.{load_cells_refines}
use qemu_mip.Vga.Snapshot.{screen, snapshot_text_lem}
use qemu_mip.Vga.Store.{Shadows, init-IsValid, note_store_refines}

-- a guest whose memory is all spaces
abbrev blank : Memory
blank a = 32

abbrev spaces : Bytes
spaces = replicate window_bytes 32

init-Shadows : Shadows init blank
unfolding init
init-Shadows j h = get_or-replicate cells 32 j 0 h

spaces-eq : (i : ℕ) → i < window_bytes → get_or spaces i 0 ≡ 32
spaces-eq i h = get_or-replicate window_bytes 32 i 0 h

note_store_refines_example :
    Shadows (note_store init 0xB8000 0x0741 2) (write blank 0xB8000 0x0741 2)
note_store_refines_example =
    note_store_refines init blank 0xB8000 0x0741 2 init-IsValid init-Shadows (omega arith)
      (inl (omega arith))

load_cells_refines_example : Shadows (load_cells init spaces window_bytes) blank
load_cells_refines_example = load_cells_refines init blank spaces init-IsValid spaces-eq

snapshot_text_lem_example :
    snapshot_text init 4 ≡ (take 3 (screen init.text), record init { dirty = false })
snapshot_text_lem_example = snapshot_text_lem init 4 (omega arith)

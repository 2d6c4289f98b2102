-- ===== src/Agent/Examples.antt =====
-- Arguments and calls at which the theorems on plugin/agent.c are applied.
use qemu_mip.Agent.Balance.{life, plugin_life_balanced}
use qemu_mip.Agent.Install.{install}
use qemu_mip.Mem.{Counters}
use qemu_mip.Prelude.{◌≡◌, true, false, some, List, [], ◌∷◌, Bytes, codes}
use qemu_mip.Protocol.Host.{Ctx}
use qemu_mip.Server.Held.{idle, hold_all}
use qemu_mip.Server.Life.{Calls, accepts, drops, Turn}

abbrev argv : List Bytes
argv = codes "socket=/tmp/a" ∷ codes "vga=off" ∷ []

abbrev blank : Ctx
blank = record {
  has_vga = false;
  has_queue = false;
  vga_refresh_enabled = false;
  socket_thread = false;
  vga_enabled = false;
  hypercall_enabled = false;
}

abbrev counters : Counters
counters = record {
  mem_cb_fired = 0;
  mem_cb_vga_hit = 0;
  hwaddr_null = 0;
  discon_exc = 7;
  discon_irq = 0;
  discon_host = 0;
  discon_total = 7;
}

abbrev calls : Calls
calls = record {
  memory = true;
  socket = some 9;
  binds = true;
  listens = true;
  nonblocking = true;
  creates = true;
}

-- a client comes and is replaced by another, which goes
abbrev clients : List Turn
clients = accepts 10 true ∷ accepts 11 true ∷ drops ∷ []

plugin_life_balanced_example :
    hold_all (life clients (install true calls blank counters argv)) (idle false false)
    ≡ some (idle false false)
plugin_life_balanced_example = plugin_life_balanced true calls blank counters argv clients

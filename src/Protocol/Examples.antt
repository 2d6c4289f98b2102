-- ===== src/Protocol/Examples.antt =====
-- Requests and texts at which the theorems on plugin/protocol.c are applied.
use qemu_mip.Hypercall
use qemu_mip.Mem.{Counters}
use qemu_mip.Prelude.{true, none, some, [], ◌∷◌, Bytes, codes, arith}
use qemu_mip.Protocol.Answers.{handle-IsAnswer}
use qemu_mip.Protocol.Framing.{IsAnswer}
use qemu_mip.Protocol.Handle.{handle}
use qemu_mip.Protocol.Host.{Ctx, Host, Env}
use qemu_mip.Queue.{Read, create, returned, ok}
use qemu_mip.Vga

abbrev zeros : Counters
zeros = record {
  mem_cb_fired = 0;
  mem_cb_vga_hit = 0;
  hwaddr_null = 0;
  discon_exc = 0;
  discon_irq = 0;
  discon_host = 0;
  discon_total = 0;
}

abbrev host : Host
host = record {
  sys = record {
    q = create none;
    phase = returned (record { status = ok; hw_code = 0; data_len = 0 });
    reading = [];
    vga = Vga.init;
    bufs = λ b. none;
  };
  hc = Hypercall.init;
  counters = zeros;
}

abbrev ctx : Ctx
ctx = record {
  has_vga = true;
  has_queue = true;
  vga_refresh_enabled = true;
  socket_thread = true;
  vga_enabled = true;
  hypercall_enabled = true;
}

-- no vCPU thread comes by, and `malloc` gives buffer 0
abbrev env : Env
env = record { events = []; buf = some (0, 0 ∷ 0 ∷ []); hex_ok = true }

abbrev request : Bytes
request = codes "{\"cmd\":\"mem_read\",\"phys\":4096,\"len\":2}"

handle-IsAnswer_example : IsAnswer 32768 (handle 32768 request ctx env host).0
unfolding Hypercall.init
handle-IsAnswer_example = handle-IsAnswer 32768 (omega arith) request ctx env host tt

-- the guest has the bytes 255 and 16 there
abbrev two : Read
two = record { code = 0; bytes = 255 ∷ 16 ∷ [] }

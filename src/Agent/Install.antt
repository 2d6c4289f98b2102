-- ===== src/Agent/Install.antt =====
-- `qemu_plugin_install` and `plugin_exit` of plugin/agent.c, and the callbacks between.
use qemu_mip.Agent.{Settings, parse_args}
use qemu_mip.Hypercall
use qemu_mip.Hypercall.{Hypercall}
use qemu_mip.Vga
use qemu_mip.Vga.{Vga}
use qemu_mip.Mem.{Counters, discon_init, DisconType, discon_on_event, Scrape, instrument_tb}
use qemu_mip.Prelude.{
  ℕ, Bool, true, false, not, ◌&&◌, ◌||◌, Option, none, some, List, [], ◌∷◌, ◌++◌, Bytes,
  if◌then◌else◌, is_some,
}
use qemu_mip.Protocol.Host.{Ctx}
use qemu_mip.Server.Life.{
  Act, create_queue, destroy_queue, init_screen, destroy_screen, Calls, Running, qc_server_start,
  qc_server_stop,
}

-- The globals of plugin/agent.c, and those that it initialises: whether there is a queue, what the
-- requests see, and the server. `registered` tells whether QEMU has the callbacks.
pub record Plugin : Type 0 where
  pub settings : Settings
  pub vga : Vga
  pub hc : Hypercall
  pub counters : Counters
  pub has_queue : Bool
  pub ctx : Ctx
  pub server : Option Running
  pub registered : Bool

-- what the requests see once the queue is there
unfoldable pub ctx_of : Settings → Ctx
ctx_of s = record {
  has_vga = true;
  has_queue = true;
  vga_refresh_enabled = s.vga_refresh;
  socket_thread = s.socket_thread;
  vga_enabled = s.vga_enabled;
  hypercall_enabled = s.hypercall;
}

-- The arguments are read and the state is reset; `blank` and `counters` are what is there before.
unfoldable pub reset : Ctx → Counters → List Bytes → Plugin
reset blank counters argv = record {
  settings = parse_args argv;
  vga = Vga.init;
  hc = Hypercall.init;
  counters = discon_init counters;
  has_queue = false;
  ctx = blank;
  server = none;
  registered = false;
}

-- what an installation comes to: what it did, the result, and the globals
pub record Installed : Type 0 where
  pub acts : List Act
  pub code : ℕ
  pub plugin : Plugin

-- from the result of `qc_server_start` on
unfoldable pub install_server : Plugin → List Act × Option Running → Installed
install_server p (acts, none) = record {
  acts = acts ++ destroy_queue ∷ destroy_screen ∷ [];
  code = 1;
  plugin = record p { has_queue = false };
}
install_server p (acts, some srv) = record {
  acts = acts;
  code = 0;
  plugin = record p { server = some srv; registered = true };
}

abbrev pub before : List Act → Installed → Installed
before acts i = record i { acts = acts ++ i.acts }

-- `qemu_plugin_install`; `creates` tells whether `qc_queue_create` has memory
unfoldable pub install : Bool → Calls → Ctx → Counters → List Bytes → Installed
unfolding reset
install creates calls blank counters argv =
    let p = reset blank counters argv in
    let s = p.settings in
    if creates
    then before (init_screen ∷ create_queue ∷ []) (
        install_server (record p { has_queue = true; ctx = ctx_of s })
          (qc_server_start calls s.socket_path s.socket_thread))
    else record { acts = init_screen ∷ destroy_screen ∷ []; code = 1; plugin = p }

unfoldable pub stop_server : Option Running → List Act
stop_server none = []
stop_server (some srv) = qc_server_stop srv

unfoldable pub plugin_exit : Plugin → List Act × Plugin
plugin_exit p = (
  stop_server p.server ++ ((if p.has_queue then destroy_queue ∷ [] else []) ++ destroy_screen ∷ []),
  record p { server = none; has_queue = false },
)

-- What `vcpu_tb_trans` does for a block, after its first drain of the queue: whether the server is
-- polled, what is instrumented, and whether `vcpu_tb_exec` is registered for the block.
pub record Translated : Type 0 where
  pub drains : Bool
  pub polls : Bool
  pub scrape : Scrape
  pub callbacks : List Bool
  pub drains_on_exec : Bool

unfoldable pub vcpu_tb_trans : Plugin → Option (List Bool) → Scrape → Translated
vcpu_tb_trans p insns s =
    let (s', callbacks) = instrument_tb insns p.settings.vga_enabled p.settings.hypercall s in
    let wanted = p.settings.vga_enabled || p.settings.hypercall in
    record {
      drains = p.has_queue;
      polls = not p.settings.socket_thread && is_some p.server;
      scrape = if wanted then s' else s;
      callbacks = if wanted then callbacks else [];
      drains_on_exec = p.has_queue;
    }

unfoldable pub vcpu_discon : DisconType → ℕ → Counters → Counters
vcpu_discon types type counters = discon_on_event types type counters

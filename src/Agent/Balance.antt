-- ===== src/Agent/Balance.antt =====
-- That the plugin of plugin/agent.c releases what it takes, and in which order.
use qemu_mip.Agent.{parse_args}
use qemu_mip.Mem.{Counters}
use qemu_mip.Agent.Install.{
  reset, ctx_of, Plugin, Plugin, Installed, install_server, install, before, stop_server,
  plugin_exit,
}
use qemu_mip.Prelude.{
  ◌≡◌, refl, ◌∙◌, sym, ap, Bool, true, false, Option, none, some, List, [], ◌∷◌, ◌++◌, Bytes,
  if◌then◌else◌, append_assoc, append-nil,
}
use qemu_mip.Protocol.Host.{Ctx}
use qemu_mip.Server.Balance.{lives, server_life_balanced}
use qemu_mip.Server.Held.{hold, hold_all, then_hold, hold_all-append, idle}
use qemu_mip.Server.Life.{
  Act, create_queue, destroy_queue, init_screen, destroy_screen, Calls, Running, qc_server_start,
  qc_server_stop, Turn, turns,
}

-- what the server does until the end, and the plugin then
unfoldable pub served : List Turn → Plugin → Option Running → List Act × Plugin
served ts p none = ([], p)
served ts p (some srv) = let (acts, srv') = turns ts srv in (acts, record p { server = some srv' })

-- the acts from the installation on: QEMU calls `plugin_exit` only if it was registered
unfoldable pub life : List Turn → Installed → List Act
life ts i =
    let (acts, p) = served ts i.plugin i.plugin.server in
    i.acts ++ (if i.plugin.registered then acts ++ (plugin_exit p).0 else [])

-- the end of the queue and the screen
ends_well :
    hold_all (destroy_queue ∷ destroy_screen ∷ []) (idle true true) ≡ some (idle false false)
unfolding hold_all hold
ends_well = refl

-- what stands between the queue's begin and its end
wrapped :
    (acts : List Act)
    → hold_all acts (idle true true) ≡ some (idle true true)
    → hold_all
        (init_screen ∷ create_queue ∷ (acts ++ destroy_queue ∷ destroy_screen ∷ []))
        (idle false false)
      ≡ some (idle false false)
unfolding hold_all hold
wrapped acts e =
    hold_all-append acts (destroy_queue ∷ destroy_screen ∷ []) (idle true true)
    ∙ ap (then_hold (hold_all (destroy_queue ∷ destroy_screen ∷ []))) e
    ∙ ends_well

-- the globals where the server is started
ready : Ctx → Counters → List Bytes → Plugin
ready blank counters argv =
    let p = reset blank counters argv in record p { has_queue = true; ctx = ctx_of p.settings }

served_life :
    (blank : Ctx) (counters : Counters) (argv : List Bytes) (ts : List Turn) (acts : List Act)
    (srv : Option Running)
    → hold_all (acts ++ lives ts srv) (idle true true) ≡ some (idle true true)
    → hold_all
        (life ts (
          before
            (init_screen ∷ create_queue ∷ [])
            (install_server (ready blank counters argv) (acts, srv))))
        (idle false false)
      ≡ some (idle false false)
unfolding life served install_server plugin_exit stop_server lives ready reset
served_life blank counters argv ts acts none e =
    ap (λ (a : List Act). hold_all (init_screen ∷ create_queue ∷ a) (idle false false))
      (append-nil (acts ++ destroy_queue ∷ destroy_screen ∷ [])
        ∙ ap (λ (a : List Act). a ++ destroy_queue ∷ destroy_screen ∷ []) (sym (append-nil acts)))
    ∙ wrapped (acts ++ []) e
served_life blank counters argv ts acts (some srv) e =
    let (t, srv') = turns ts srv in
    let stop = qc_server_stop srv' in
    let last = destroy_queue ∷ destroy_screen ∷ [] in
    let shape : acts ++ (t ++ (stop ++ last)) ≡ (acts ++ (t ++ stop)) ++ last =
      ap (λ (a : List Act). acts ++ a) (sym (append_assoc t stop last))
      ∙ sym (append_assoc acts (t ++ stop) last) in
    ap (λ (a : List Act). hold_all (init_screen ∷ create_queue ∷ a) (idle false false)) shape
    ∙ wrapped (acts ++ (t ++ stop)) e

-- Let the server's thread take its steps whole and none that overlaps with `qc_server_stop`. Then whatever the
-- arguments, whatever the system calls of the installation give and whatever clients come and go before the stop,
-- from the installation to the exit: nothing is taken twice or given back twice, the thread is joined
-- before the queue and the screen that it uses are destroyed, and in the end nothing is held: neither after an
-- installation that failed, whichever call it was, nor after the exit.
pub plugin_life_balanced :
    (creates : Bool) (calls : Calls) (blank : Ctx) (counters : Counters) (argv : List Bytes)
    (ts : List Turn)
    → hold_all (life ts (install creates calls blank counters argv)) (idle false false)
      ≡ some (idle false false)
unfolding install ready reset
plugin_life_balanced false calls blank counters argv ts = unfold life served hold_all hold in refl
plugin_life_balanced true calls blank counters argv ts =
    let s = parse_args argv in
    let (acts, srv) = qc_server_start calls s.socket_path s.socket_thread in
    served_life blank counters argv ts acts srv
      (server_life_balanced calls s.socket_path s.socket_thread ts true true)

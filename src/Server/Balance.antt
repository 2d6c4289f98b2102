-- ===== src/Server/Balance.antt =====
-- That the server of plugin/server.c releases what it takes.
use qemu_mip.Prelude.{
  ℕ, suc, take, ◌≡◌, refl, ◌∙◌, ap, Bool, true, false, Option, none, some, List, [], ◌∷◌, ◌++◌,
  Bytes, snprintf, length, arith, ◌==◌,
}
use qemu_mip.Server.Held.{
  Held, hold, hold_all, then_hold, hold_all-append, idle, remove-first, remove-second,
}
use qemu_mip.Server.Life.{
  Act, Calls, Running, start_thread, start_bound, start_socket, qc_server_start, Turn, accepts,
  drops, drop_client, turn, turns, path_of, shut, stop_rest, qc_server_stop,
}

abbrev opt : Option ℕ → List ℕ
opt none = []
opt (some fd) = fd ∷ []

-- what a server has
abbrev pub had : Running → Bool → Bool → Held
had s queue screen = record {
  memory = true;
  fds = opt s.client_fd ++ opt s.listen_fd;
  named = true;
  thread = s.thread_started;
  queue = queue;
  screen = screen;
}

abbrev pub had_or_idle : Option Running → Bool → Bool → Held
had_or_idle none queue screen = idle queue screen
had_or_idle (some s) queue screen = had s queue screen

unfoldable pub IsNamed : Option Running → Type 0
IsNamed none = Unit
IsNamed (some s) = (length s.path == 0) ≡ false

unfoldable pub StartsHeld : Calls → Bytes → Bool → Bool → Bool → Type 0
StartsHeld c path use_thread queue screen =
    let (acts, srv) = qc_server_start c path use_thread in
    (hold_all acts (idle queue screen) ≡ some (had_or_idle srv queue screen)) × IsNamed srv

-- the results of the calls, one after the other
start_cases :
    (memory : Bool) (socket : Option ℕ) (binds listens nonblocking use_thread creates : Bool)
    (path : Bytes) (queue screen : Bool)
    → (length (path_of path) == 0) ≡ false
    → StartsHeld
        (record {
          memory = memory;
          socket = socket;
          binds = binds;
          listens = listens;
          nonblocking = nonblocking;
          creates = creates;
        })
        path
        use_thread
        queue
        screen
unfolding StartsHeld IsNamed qc_server_start start_socket start_bound start_thread hold_all hold
start_cases false socket binds listens nonblocking use_thread creates path queue screen p =
    (refl, tt)
start_cases true none binds listens nonblocking use_thread creates path queue screen p = (refl, tt)
start_cases true (some fd) false listens nonblocking use_thread creates path queue screen p =
    (rw (remove-first fd []) refl, tt)
start_cases true (some fd) true false nonblocking use_thread creates path queue screen p =
    (rw (remove-first fd []) refl, tt)
start_cases true (some fd) true true false use_thread creates path queue screen p =
    (rw (remove-first fd []) refl, tt)
start_cases true (some fd) true true true true false path queue screen p =
    (rw (remove-first fd []) refl, tt)
start_cases true (some fd) true true true true true path queue screen p = (refl, p)
start_cases true (some fd) true true true false creates path queue screen p = (refl, p)

take-nonempty : (n c : ℕ) (w : Bytes) → (length (take (suc n) (c ∷ w)) == 0) ≡ false
take-nonempty n c w = ground arith

path_of-nonempty : (path : Bytes) → (length (path_of path) == 0) ≡ false
path_of-nonempty [] = unfold snprintf in refl
path_of-nonempty (c ∷ path) =
    let long : (length (c ∷ path) == 0) ≡ false = ground arith in
    unfold snprintf in rw long (take-nonempty 106 c path)

-- A start that fails has given back all that it took, whichever call failed; one that succeeds has the
-- memory, the descriptor, the name and, where asked for, the thread.
pub starts_held :
    (c : Calls) (path : Bytes) (use_thread queue screen : Bool)
    → StartsHeld c path use_thread queue screen
starts_held c path use_thread queue screen =
    start_cases c.memory c.socket c.binds c.listens c.nonblocking use_thread c.creates path queue
      screen (path_of-nonempty path)

turn_cases :
    (t : Turn) (path : Bytes) (use_thread thread_started : Bool) (listen_fd client_fd : Option ℕ)
    (queue screen : Bool)
    → let s : Running = record {
      path = path;
      use_thread = use_thread;
      thread_started = thread_started;
      listen_fd = listen_fd;
      client_fd = client_fd;
    } in
      hold_all (turn t s).0 (had s queue screen) ≡ some (had (turn t s).1 queue screen)
unfolding turn drop_client hold_all hold
turn_cases (accepts fd true) path use_thread started l none queue screen = refl
turn_cases (accepts fd true) path use_thread started l (some old) queue screen =
    rw (remove-second fd old (opt l)) refl
turn_cases (accepts fd false) path use_thread started l c queue screen =
    rw (remove-first fd (opt c ++ opt l)) refl
turn_cases drops path use_thread started l none queue screen = refl
turn_cases drops path use_thread started l (some old) queue screen =
    rw (remove-first old (opt l)) refl

pub turns_held :
    (ts : List Turn) (s : Running) (queue screen : Bool)
    → hold_all (turns ts s).0 (had s queue screen) ≡ some (had (turns ts s).1 queue screen)
unfolding turns
turns_held [] s queue screen = unfold hold_all in refl
turns_held (t ∷ ts) s queue screen =
    hold_all-append (turn t s).0 (turns ts (turn t s).1).0 (had s queue screen)
    ∙ ap (then_hold (hold_all (turns ts (turn t s).1).0))
        (turn_cases t s.path s.use_thread s.thread_started s.listen_fd s.client_fd queue screen)
    ∙ turns_held ts (turn t s).1 queue screen

stop_cases :
    (path : Bytes) (use_thread thread_started : Bool) (listen_fd client_fd : Option ℕ)
    (queue screen : Bool)
    → (length path == 0) ≡ false
    → let s : Running = record {
      path = path;
      use_thread = use_thread;
      thread_started = thread_started;
      listen_fd = listen_fd;
      client_fd = client_fd;
    } in
      hold_all (qc_server_stop s) (had s queue screen) ≡ some (idle queue screen)
unfolding qc_server_stop shut stop_rest hold_all hold
stop_cases path use_thread true none none queue screen p = rw p refl
stop_cases path use_thread false none none queue screen p = rw p refl
stop_cases path use_thread true (some l) none queue screen p = rw (p, remove-first l []) refl
stop_cases path use_thread false (some l) none queue screen p = rw (p, remove-first l []) refl
stop_cases path use_thread true none (some c) queue screen p = rw (p, remove-first c []) refl
stop_cases path use_thread false none (some c) queue screen p = rw (p, remove-first c []) refl
stop_cases path use_thread true (some l) (some c) queue screen p =
    rw (p, remove-first c (l ∷ []), remove-first l []) refl
stop_cases path use_thread false (some l) (some c) queue screen p =
    rw (p, remove-first c (l ∷ []), remove-first l []) refl

pub qc_server_stop_held :
    (s : Running) (queue screen : Bool)
    → (length s.path == 0) ≡ false
    → hold_all (qc_server_stop s) (had s queue screen) ≡ some (idle queue screen)
qc_server_stop_held s queue screen p =
    stop_cases s.path s.use_thread s.thread_started s.listen_fd s.client_fd queue screen p

path-turns : (ts : List Turn) (s : Running) → (turns ts s).1.path ≡ s.path
unfolding turns turn
path-turns [] s = refl
path-turns (accepts fd true ∷ ts) s = path-turns ts (record s { client_fd = some fd })
path-turns (accepts fd false ∷ ts) s = path-turns ts s
path-turns (drops ∷ ts) s = path-turns ts (record s { client_fd = none })

-- from a start on, what a server does: nothing, where there is none
unfoldable pub lives : List Turn → Option Running → List Act
lives ts none = []
lives ts (some s) = let (acts, s') = turns ts s in acts ++ qc_server_stop s'

pub lives_held :
    (ts : List Turn) (srv : Option Running) (queue screen : Bool)
    → IsNamed srv
    → hold_all (lives ts srv) (had_or_idle srv queue screen) ≡ some (idle queue screen)
unfolding lives IsNamed
lives_held ts none queue screen n = unfold hold_all in refl
lives_held ts (some s) queue screen n =
    hold_all-append (turns ts s).0 (qc_server_stop (turns ts s).1) (had s queue screen)
    ∙ ap (then_hold (hold_all (qc_server_stop (turns ts s).1))) (turns_held ts s queue screen)
    ∙ qc_server_stop_held (turns ts s).1 queue screen (rw (path-turns ts s) n)

-- Let the server's thread take its steps whole and none that overlaps with `qc_server_stop`. Then whatever the
-- system calls of the start give and whatever clients come and go before the stop, from the start of a
-- server to its end: nothing is taken twice or given back twice, its memory goes only when its thread is joined,
-- and in the end memory, descriptors, the name of the socket and the thread are all given back.
pub server_life_balanced :
    (c : Calls) (path : Bytes) (use_thread : Bool) (ts : List Turn) (queue screen : Bool)
    → let (acts, srv) = qc_server_start c path use_thread in
      hold_all (acts ++ lives ts srv) (idle queue screen) ≡ some (idle queue screen)
unfolding StartsHeld
server_life_balanced c path use_thread ts queue screen =
    let (acts, srv) = qc_server_start c path use_thread in
    let (started, named) = starts_held c path use_thread queue screen in
    hold_all-append acts (lives ts srv) (idle queue screen)
    ∙ ap (then_hold (hold_all (lives ts srv))) started
    ∙ lives_held ts srv queue screen named

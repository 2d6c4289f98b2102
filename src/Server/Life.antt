-- ===== src/Server/Life.antt =====
-- The life of the server of plugin/server.c: `qc_server_start`, the descriptors that its steps open and
-- close, and `qc_server_stop`. A step of the thread is taken whole, before `qc_server_stop` or not at all.
use qemu_mip.Prelude.{
  ℕ, Bool, true, false, not, Option, none, some, List, [], ◌∷◌, ◌++◌, Bytes, codes, snprintf,
  length, ◌==◌, if◌then◌else◌,
}

-- What the plugin does with what has to be released: the server's memory, its descriptors, the name of
-- its socket and its thread; and the queue and the screen of plugin/agent.c.
pub data Act : Type 0 where
  allocate : Act
  free : Act
  unlink : Bytes → Act
  open_fd : ℕ → Act
  bind : Bytes → Act
  chmod : Bytes → Act
  listen : ℕ → Act
  shutdown : ℕ → Act
  close : ℕ → Act
  create_thread : Act
  join_thread : Act
  create_queue : Act
  destroy_queue : Act
  init_screen : Act
  destroy_screen : Act

-- what the calls of `qc_server_start` give: the memory, a descriptor, and whether the others succeed
pub record Calls : Type 0 where
  pub memory : Bool
  pub socket : Option ℕ
  pub binds : Bool
  pub listens : Bool
  pub nonblocking : Bool
  pub creates : Bool

-- `struct qc_server` between the two: the descriptors, where -1 is `none`
pub record Running : Type 0 where
  pub path : Bytes
  pub use_thread : Bool
  pub thread_started : Bool
  pub listen_fd : Option ℕ
  pub client_fd : Option ℕ

abbrev pub Started : Type 0
Started = List Act × Option Running

abbrev pub after : List Act → Started → Started
after before (acts, srv) = (before ++ acts, srv)

-- `sizeof(srv->path)` and that of `sun_path`
abbrev pub path_of : Bytes → Bytes
path_of socket_path =
    snprintf 108 (if length socket_path == 0 then codes "/tmp/qemu-connect.sock" else socket_path)

abbrev pub give_up : ℕ → Bytes → Started
give_up fd path = (close fd ∷ unlink path ∷ free ∷ [], none)

abbrev pub running : Bytes → Bool → Bool → ℕ → Running
running path use_thread started fd = record {
  path = path;
  use_thread = use_thread;
  thread_started = started;
  listen_fd = some fd;
  client_fd = none;
}

-- from `pthread_create` on
unfoldable pub start_thread : Calls → Bytes → Bool → ℕ → Started
start_thread c path use_thread fd =
    if use_thread
    then (if c.creates
        then (create_thread ∷ [], some (running path true true fd))
        else give_up fd path)
    else ([], some (running path false false fd))

-- from `bind` on
unfoldable pub start_bound : Calls → Bytes → Bool → ℕ → Started
start_bound c path use_thread fd =
    if not c.binds
    then (close fd ∷ free ∷ [], none)
    else after (bind path ∷ chmod path ∷ []) (
        if not c.listens
        then give_up fd path
        else after (listen fd ∷ [])
            (if not c.nonblocking then give_up fd path else start_thread c path use_thread fd))

unfoldable pub start_socket : Calls → Bytes → Bool → Option ℕ → Started
start_socket c path use_thread none = (free ∷ [], none)
start_socket c path use_thread (some fd) =
    after (open_fd fd ∷ []) (start_bound c path use_thread fd)

unfoldable pub qc_server_start : Calls → Bytes → Bool → Started
qc_server_start c socket_path use_thread =
    let path = path_of socket_path in
    if c.memory
    then after (allocate ∷ unlink path ∷ []) (start_socket c path use_thread c.socket)
    else ([], none)

-- what a step does with descriptors: it accepts one, which can be made non-blocking or not, or it closes
-- the client's
pub data Turn : Type 0 where
  accepts : ℕ → Bool → Turn
  drops : Turn

-- `close_client`
unfoldable pub drop_client : Option ℕ → List Act
drop_client none = []
drop_client (some fd) = close fd ∷ []

unfoldable pub turn : Turn → Running → List Act × Running
turn (accepts fd true) s = (open_fd fd ∷ drop_client s.client_fd, record s { client_fd = some fd })
turn (accepts fd false) s = (open_fd fd ∷ close fd ∷ [], s)
turn drops s = (drop_client s.client_fd, record s { client_fd = none })

unfoldable pub turns : List Turn → Running → List Act × Running
turns [] s = ([], s)
turns (t ∷ ts) s =
    let (acts, s') = turn t s in let (later, s'') = turns ts s' in (acts ++ later, s'')

unfoldable pub shut : Option ℕ → List Act
shut none = []
shut (some fd) = shutdown fd ∷ close fd ∷ []

unfoldable pub stop_rest : Running → List Act
stop_rest s =
    let name = if length s.path == 0 then [] else unlink s.path ∷ [] in
    (if s.thread_started then join_thread ∷ [] else []) ++ (name ++ free ∷ [])

unfoldable pub qc_server_stop : Running → List Act
qc_server_stop s = shut s.client_fd ++ (shut s.listen_fd ++ stop_rest s)

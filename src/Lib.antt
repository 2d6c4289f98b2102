-- ===== src/Lib.antt =====
-- qemu-connect: a TCG plugin that lets a host program watch and drive a guest of QEMU, and its
-- command line client.
--
-- The parts and how they interact. Every store of the guest runs the callback of plugin/mem.c, which
-- keeps two shadows of guest memory: the 80x25 text screen (plugin/vga.c) and a 16-byte window
-- through which the guest reports events (plugin/hypercall.c). A socket thread (plugin/server.c)
-- takes lines from one client and answers each by plugin/protocol.c, which reads the shadows, or asks
-- a vCPU thread for guest memory through a queue of one job (plugin/queue.c). plugin/agent.c parses
-- the plugin's arguments, installs the parts and takes them down. The client (cli/main.c) sends a line
-- to the server and prints the answer or the screen that it holds, and types into the guest over
-- QEMU's control socket (cli/qmp.c). It resolves its paths and settings first
-- (cli/paths.c), keeps an emulator between commands (cli/session.c), or starts one for a script of
-- steps (cli/run.c).
--
-- Which file models which part:
--   Prelude.antt   the shared names: tests, lists, bytes, C strings, `snprintf`, machine words
--   Guest.antt     guest memory and its stores: specification, not code
--   Vga.antt       plugin/vga.c, `qc_vga_…` under the rest of the name (`note_store` is
--                  `qc_vga_note_store`); Vga/Store, Vga/Load, Vga/Snapshot
--                  and Vga/Layout hold its theorems
--   Hypercall.antt plugin/hypercall.c in the same way; Hypercall/Events and Hypercall/Delivery
--   Queue.antt     plugin/queue.c, cut where a thread gives up the lock: `slot_loop`, `wake_slot` and
--                  `wake_done` are the loops of `submit_and_wait`, `drain_begin` and `drain_end` the
--                  halves of `qc_queue_drain`; Queue/System makes a transition system of them,
--                  Queue/Integrity, Queue/Progress and Queue/Stale reason about its schedules
--   Mem.antt       plugin/mem.c; Mem/Callback
--   Protocol.antt  plugin/protocol.c: Protocol/Escape `json_escape`, Protocol/Print the formats and
--                  `hex_encode`, Protocol/Fields the parsing, Protocol/Replies the texts,
--                  Protocol/Handle `emit_console` and `qc_protocol_handle`, Protocol/Host the state
--                  behind a request; Protocol/Spelling, Protocol/Answers, Protocol/Console and Protocol/Reading
--                  hold theorems
--   Server.antt    plugin/server.c; Server/Io the loops around system calls, Server/Life
--                  `qc_server_start`, `qc_server_stop` and the descriptors between; Server/Framing,
--                  Server/Step, Server/Held what the acts take and give back, Server/Balance
--   Agent.antt     plugin/agent.c, the arguments; Agent/Install `qemu_plugin_install`, `plugin_exit`
--                  and the callbacks; Agent/Args, Agent/Balance
--   Qmp.antt       cli/qmp.c on lines; Qmp/Session connecting and quitting on lines; Qmp/Connection
--                  the same on the bytes that are read and written; Qmp/Keys, Qmp/Typing, Qmp/Lines,
--                  Qmp/Ending, Qmp/Wire, Qmp/Sending, Qmp/Handshake
--   Cli.antt       cli/main.c, the text of an answer; Cli/Request `request_buf` and `request`,
--                  Cli/Expect `cmd_expect`, Cli/Main `main`; Cli/Exchange a request at the server,
--                  Cli/ConsoleCommand, Cli/ExpectCommand
--                  and Cli/TypeCommand whole commands, Cli/Verdict, Cli/Closing,
--                  Cli/Screen; Cli/Copies the copy of `extract_text_field` in cli/run.c and
--                  cli/session.c; Cli/Tail their `console_tail_nonblank`
--   Paths.antt     cli/paths.c, the files of settings; Paths/Resolve `init_paths`; Paths/Bounds,
--                  Paths/Config, Paths/Line
--   Session.antt   cli/session.c, the file of a session; Session/Command what the commands share,
--                  Session/Shell `session_cmd`, Session/Typing `session_type` and `session_key`,
--                  Session/Query `session_expect`, `session_console` and `session_status`,
--                  Session/Stop `session_stop`, Session/Start and Session/Launch the halves of
--                  `session_start`, Session/Dispatch `qc_cmd_session`; Session/Search, Session/Number,
--                  Session/File, Session/RoundTrip, Session/Written and Session/Handover reason
--                  about the file, Session/Orderly, Session/Serial,
--                  Session/Telling, Session/Once and Session/Bounds about the commands
--   Run.antt       cli/run.c, the arguments of `qc_cmd_run` and `qc_cmd_guest`; Run/Room; Run/Disk
--                  `disk_held_by_session`, Run/Steps the steps, Run/Process `run_session`;
--                  Run/Flags, Run/Balance, Run/Search, Run/Holder
-- The modules named Examples apply theorems at concrete inputs.
--
-- A command of the client is a list of effects, in order, and an exit code. State is a record and an
-- operation a function on it. What the environment does is data: results of
-- system calls are lists that a loop consumes, a schedule of the threads is a list of events, and a
-- read of guest memory is given with the event that ends it. Numbers are natural numbers; uint64_t
-- arithmetic that can wrap is written with the remainder (`u64`). A text in a buffer is the list of
-- its bytes before the NUL.
--
-- Bounds: decimal numbers are printed with at most 20 digits, which is enough below 2^64
-- (Protocol/Print). A wait for the queue ends with the timeout of its condition variable, which is
-- the last event of a request in Protocol/Host. A loop of the client that polls the system a fixed
-- number of times recurses on that number, and one that polls up to a deadline on the list of the
-- answers before it. The loops of cli/qmp.c that read lines until one is an answer take as many rounds
-- as there are bytes left, and one more for the end of the stream; each round takes a byte at least
-- (Qmp/Ending). Other loops recurse on what they consume.
--
-- Not modelled: locks (each operation is what runs under one), null pointers of plugin/vga.c and a
-- null `ctx`, allocation failures other than those of `mem_read`, the server and the queue, the
-- steps of the server's thread that overlap with `qc_server_stop`, the arguments of the emulator that the
-- client starts, what is printed to the standard error and to QEMU's log, the pauses between keys, and
-- the server of mcp/. Sockets, files, directories, processes and flock are the system's; what it
-- answers is in records (`Calls`, `Conn`, `Files`, `World`, `Host`, `Machine`, `System`), and for the
-- plugin's socket in a function of what is written to it (`Connections`), of which `Delivers`
-- (Cli/Exchange) states what a stream socket promises.
-- A `snprintf` into a buffer that its arguments cannot fill is written without the cut.
-- A size of more than 8 bytes in `qc_vga_note_store` is undefined in C; theorems exclude it. A read of
-- a buffer past its end (Queue/Stale) gives no bytes in the model of `mem_read`.
pub mod Prelude
pub mod Guest
pub mod Vga
pub mod Hypercall
pub mod Queue
pub mod Mem
pub mod Protocol
pub mod Server
pub mod Agent
pub mod Paths
pub mod Session
pub mod Run
pub mod Qmp
pub mod Cli

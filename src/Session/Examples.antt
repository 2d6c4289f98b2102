-- ===== src/Session/Examples.antt =====
-- A session, its file and what the system answers, at which the theorems on cli/session.c are applied.
use qemu_mip.Prelude.{
  refl, ℕ, ◌<◌, ◌^◌, str_eq, All, false, ◌≡◌, ◌&&◌, true, none, some, [], ◌∷◌, codes, arith,
}
use qemu_mip.Session.{Session, session_text, load_session, or_else_text, runtime_dir}
use qemu_mip.Paths.{getenv}
use qemu_mip.Session.Written.{ArePlain}
use qemu_mip.Session.Handover.{HandsOver, session_start-HandsOver}
use qemu_mip.Session.Launch.{session_start}
use qemu_mip.Session.Start.{Host, Start, start_args, start_option, read}
use qemu_mip.Session.Search.{IsPlain}
use qemu_mip.Session.Command.{World, pid_alive}
use qemu_mip.Protocol.Framing.{is_line}
use qemu_mip.Session.Dispatch.{IsTold, qc_cmd_session, qc_cmd_session_tells}
use qemu_mip.Session.File.{IsSaved}
use qemu_mip.Session.Orderly.{is_orderly}
use qemu_mip.Session.Query.{query_defaults}
use qemu_mip.Session.RoundTrip.{load_session-session_text}
use qemu_mip.Session.Serial.{session_input_orderly}
use qemu_mip.Session.Shell.{session_cmd}
use qemu_mip.Session.Stop.{stop_loaded, kills, stays, kills-stop_loaded}
use qemu_mip.Session.Typing.{session_type, session_key}

abbrev session : Session
session = record {
  id = codes "default";
  pid = 4711;
  plugin_sock = codes "/tmp/d.sock";
  qmp_sock = codes "/tmp/d.qmp";
  logpath = codes "/tmp/d.log";
  iso = codes "k.iso";
  disk = [];
  prompt = codes "> ";
  last_expect = [];
}

session-IsSaved : IsSaved session
session-IsSaved = record {
  id_plain = ground arith;
  plugin_plain = ground arith;
  qmp_plain = ground arith;
  log_plain = ground arith;
  iso_plain = ground arith;
  disk_plain = tt;
  prompt_plain = ground arith;
  expect_plain = tt;
  id_fits = omega arith;
  plugin_fits = omega arith;
  qmp_fits = omega arith;
  log_fits = omega arith;
  iso_fits = omega arith;
  disk_fits = omega arith;
  prompt_fits = omega arith;
  expect_fits = omega arith;
  pid_fits = omega arith;
}

load_session-session_text_example :
    load_session [] session.id (some (session_text session))
    ≡ some (record session { prompt = or_else_text session.prompt (codes "$") })
load_session-session_text_example = load_session-session_text [] session session-IsSaved

-- the session is there, and the guest never shows the prompt
abbrev silent : World
silent = record {
  environ = [];
  locks = true;
  file = λ path. some (session_text session);
  alive = λ n. true;
  connects = true;
  types = true;
  keys = λ n. true;
  polls = none ∷ none ∷ [];
  answer = none;
  ms = 30000;
}

session_input_orderly_example :
    (is_orderly (session_cmd silent (codes "ls" ∷ [])) ≡ true)
    × (is_orderly (session_type silent (codes "ls" ∷ [])) ≡ true)
    × (is_orderly (session_key silent (codes "ls" ∷ [])) ≡ true)
session_input_orderly_example = session_input_orderly silent (codes "ls" ∷ [])

kills-stop_loaded_example :
    kills (stop_loaded silent query_defaults (some session)).0
    ≡ (pid_alive silent 0 session.pid && stays silent session.pid 31 1)
kills-stop_loaded_example = kills-stop_loaded silent query_defaults session

abbrev machine : Host
machine = record {
  environ = [];
  entries = [];
  file = λ path. none;
  alive = λ pid n. true;
  realpath = λ path. none;
  is_there = λ path. true;
  connects = true;
  forked = some 4711;
  has_socket = λ i. true;
  socket_at_last = true;
  polls = [];
  answer = none;
  saves = false;
  ms = 60000;
}

abbrev defaults : Start
defaults = record {
  id = codes "default";
  iso = codes "/k.iso";
  disk = [];
  plugin = codes "/p.so";
  prompt = codes "$";
  console_lines = 0;
  wait_prompt = true;
}

abbrev saving : Host
saving = record machine { saves = true }

tmp-IsPlain : All IsPlain (runtime_dir machine.environ)
unfolding runtime_dir getenv
tmp-IsPlain = ground arith

defaults-ArePlain : ArePlain saving (record defaults { wait_prompt = false })
defaults-ArePlain = record {
  id_plain = ground arith;
  iso_plain = ground arith;
  disk_plain = tt;
  prompt_plain = ground arith;
  dir_plain = tmp-IsPlain;
}

no_wait_read :
    start_args (codes "--no-wait" ∷ []) defaults ≡ read (record defaults { wait_prompt = false })
unfolding start_args start_option str_eq
no_wait_read = refl

fork_small : (pid : ℕ) → saving.forked ≡ some pid → pid < 2 ^ 31
fork_small pid e = let same : 4711 ≡ pid = cc in omega (arith, same)

session_start-HandsOver_example :
    HandsOver [] (codes "default") (session_start saving defaults (codes "--no-wait" ∷ []))
session_start-HandsOver_example =
    session_start-HandsOver saving defaults (codes "--no-wait" ∷ [])
      (record defaults { wait_prompt = false }) no_wait_read defaults-ArePlain (omega arith)
      fork_small

qc_cmd_session_tells_example : IsTold (qc_cmd_session machine defaults silent (codes "status" ∷ []))
qc_cmd_session_tells_example =
    qc_cmd_session_tells machine defaults silent (codes "status" ∷ []) (unfold is_line in refl)

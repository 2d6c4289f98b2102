-- ===== src/Paths/Examples.antt =====
-- A machine with one file of settings, at which the theorems on `init_paths` are applied.
use qemu_mip.Paths.{
  Environ, Files, getenv, load_local_configs, is_known, parse_line, load_lines, home_lines,
  local_lines, apply_line, setenv,
}
use qemu_mip.Paths.Config.{getenv-load_local_configs, or_else, configured}
use qemu_mip.Paths.Line.{setting_line, parse_line-setting_line}
use qemu_mip.Paths.Resolve.{init_paths}
use qemu_mip.Paths.Bounds.{init_paths-Fits, Fits}
use qemu_mip.Prelude.{
  ◌≡◌, refl, [], ◌∷◌, ◌++◌, none, some, codes, Bytes, List, str_eq, arith, snprintf, ◌||◌,
  if◌then◌else◌,
}

abbrev local_file : List Bytes
local_file =
    codes "# guest\n"
    ∷ codes "QEMU_CONNECT_ISO=/srv/a.iso\n"
    ∷ codes "export QEMU_CONNECT_PROMPT=\"$ \"\n"
    ∷ codes "PATH=/tmp\n"
    ∷ []

abbrev machine : Files
machine = record {
  is_file = λ p. str_eq p (codes "/r/.qemu-connect.local") || str_eq p (codes "/p.so");
  is_dir = λ p. str_eq p (codes "/r");
  realpath = λ p. none;
  cwd = some (codes "/r");
  exe = some (codes "/r/build/qemu-connect");
  open_lines = λ p. some local_file;
}

abbrev shell : Environ
shell =
    (codes "QEMU_CONNECT_ISO", codes "/mine.iso")
    ∷ (codes "QEMU_CONNECT_DISK", codes "/mine.img")
    ∷ (codes "QEMU_CONNECT_PLUGIN", codes "/p.so")
    ∷ (codes "QEMU_CONNECT_ROOT", codes "/r")
    ∷ []

prompt_is_configured :
    getenv (load_local_configs machine (codes "/r") shell) (codes "QEMU_CONNECT_PROMPT")
    ≡ some (codes "$ ")
unfolding load_local_configs getenv load_lines home_lines str_eq local_lines snprintf apply_line
    parse_line is_known setenv
prompt_is_configured = refl

getenv-load_local_configs_example :
    getenv (load_local_configs machine (codes "/r") shell) (codes "QEMU_CONNECT_PROMPT")
    ≡ or_else (getenv shell (codes "QEMU_CONNECT_PROMPT")) (
        if is_known (codes "QEMU_CONNECT_PROMPT")
        then configured machine (codes "/r") shell (codes "QEMU_CONNECT_PROMPT")
        else none)
getenv-load_local_configs_example =
    getenv-load_local_configs machine (codes "/r") shell (codes "QEMU_CONNECT_PROMPT")

init_paths-Fits_example : Fits (init_paths machine shell).0
init_paths-Fits_example = init_paths-Fits machine shell

parse_line-setting_line_example :
    (parse_line (setting_line (codes "K") (codes "a b")) ≡ some (codes "K", codes "a b"))
    × (parse_line (codes "export " ++ setting_line (codes "K") (codes "a b"))
        ≡ some (codes "K", codes "a b"))
parse_line-setting_line_example =
    parse_line-setting_line b'K' [] (codes "a b") (ground arith, tt) (ground arith)

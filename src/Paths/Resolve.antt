-- ===== src/Paths/Resolve.antt =====
-- `init_paths` of cli/paths.c.
use qemu_mip.Paths.{Environ, Files, getenv, value_of, path_max, load_local_configs}
use qemu_mip.Prelude.{
  ℕ, Bool, ◌&&◌, ◌||◌, not, Option, none, some, [], ◌∷◌, ◌++◌, Bytes, codes, snprintf, is_some,
  ◌==◌, if◌then◌else◌, length,
}

-- the text before the last slash
unfoldable pub before_slash : Bytes → Option Bytes
before_slash [] = none
before_slash (c ∷ s) = more c (before_slash s)
  where
    more : ℕ → Option Bytes → Option Bytes
    more c none = if c == b'/' then some [] else none
    more c (some d) = some (c ∷ d)

abbrev pub directory : Option Bytes → Bytes
directory none = codes "."
directory (some []) = codes "/"
directory (some (c ∷ d)) = c ∷ d

-- `dirname_into`, into a buffer of PATH_MAX bytes
unfoldable pub dirname_into : Bytes → Bytes
unfolding before_slash
dirname_into path = directory (before_slash (snprintf path_max path))

-- `resolve_exe_dir`; `exe` is `none` where `readlink` gives nothing
unfoldable pub exe_dir : Files → Bytes
exe_dir fs = elim fs.exe [ none ↦ codes "." | some buf ↦ dirname_into (snprintf path_max buf) ]

abbrev pub or_text : Option Bytes → Bytes → Bytes
or_text none src = src
or_text (some real) src = real

-- `set_path`
unfoldable pub set_path : Files → Bytes → Bytes
set_path fs src = snprintf path_max (or_text (fs.realpath src) src)

-- `is_file` and `is_dir`, of a text or of a variable
abbrev pub file_at : Files → Bytes → Bool
file_at fs p = not (length p == 0) && fs.is_file p

abbrev pub dir_at : Files → Bytes → Bool
dir_at fs p = not (length p == 0) && fs.is_dir p

unfoldable pub cwd_root : Files → Bytes
cwd_root fs = if is_some fs.cwd then set_path fs (value_of fs.cwd) else codes "."

-- the first pass
unfoldable pub first_root : Files → Environ → Bytes
first_root fs env =
    let env_root = value_of (getenv env (codes "QEMU_CONNECT_ROOT")) in
    let env_home = value_of (getenv env (codes "QEMU_CONNECT_HOME")) in
    let cand = snprintf path_max (exe_dir fs ++ codes "/../share/qemu-connect") in
    if dir_at fs env_root
    then set_path fs env_root
    else if dir_at fs env_home
    then set_path fs env_home
    else if dir_at fs cand
    then set_path fs cand
    else if file_at fs (codes "build/qemu-connect") || file_at fs (codes "Makefile")
    then cwd_root fs
    else snprintf path_max (exe_dir fs ++ codes "/..")

-- a directory that a variable names, or what is there
unfoldable pub dir_or : Files → Bytes → Bytes → Bytes
dir_or fs val old = if dir_at fs val then set_path fs val else old

unfoldable pub plugin_path : Files → Bytes → Bytes → Bytes
plugin_path fs env_plugin root =
    let c1 = snprintf path_max (exe_dir fs ++ codes "/../lib/qemu-connect/libqemu-connect.so") in
    let c2 = snprintf path_max (root ++ codes "/libqemu-connect.so") in
    let c3 = snprintf path_max (root ++ codes "/build/libqemu-connect.so") in
    if file_at fs env_plugin
    then set_path fs env_plugin
    else if file_at fs c1
    then set_path fs c1
    else if file_at fs c3
    then set_path fs c3
    else if file_at fs c2
    then set_path fs c2
    else if file_at fs (codes "build/libqemu-connect.so")
    then codes "build/libqemu-connect.so"
    else c3

-- an image of the guest, by the variable that names it, the guest's tree, the root and its name
unfoldable pub image_path : Files → Bytes → Bytes → Bytes → Bytes → Bytes
image_path fs val guest root name =
    let bundled = snprintf path_max (root ++ (codes "/test/guest/build/" ++ name)) in
    if not (length val == 0)
    then set_path fs val
    else if not (length guest == 0)
    then set_path fs (snprintf path_max (guest ++ (codes "/build/" ++ name)))
    else if file_at fs bundled
    then set_path fs bundled
    else if file_at fs (codes "test/guest/build/" ++ name)
    then codes "test/guest/build/" ++ name
    else set_path fs bundled

-- `g_root`, `g_guest`, `g_plugin`, `g_iso` and `g_disk`
pub record Resolved : Type 0 where
  pub root : Bytes
  pub guest : Bytes
  pub plugin : Bytes
  pub iso : Bytes
  pub disk : Bytes

-- what is resolved from the root of the first pass and the environment behind the files
unfoldable pub resolve : Files → Environ → Bytes → Resolved
resolve fs env old_root =
    let root = dir_or fs (value_of (getenv env (codes "QEMU_CONNECT_ROOT"))) old_root in
    let guest = dir_or fs (value_of (getenv env (codes "QEMU_CONNECT_GUEST"))) [] in
    record {
      root = root;
      guest = guest;
      plugin = plugin_path fs (value_of (getenv env (codes "QEMU_CONNECT_PLUGIN"))) root;
      iso =
          image_path fs (value_of (getenv env (codes "QEMU_CONNECT_ISO"))) guest root
            (codes "kernel.iso");
      disk =
          image_path fs (value_of (getenv env (codes "QEMU_CONNECT_DISK"))) guest root
            (codes "disk.img");
    }

-- the first call of `init_paths`; the environment is changed too
unfoldable pub init_paths : Files → Environ → Resolved × Environ
init_paths fs env =
    let root = first_root fs env in
    let env' = load_local_configs fs root env in (resolve fs env' root, env')

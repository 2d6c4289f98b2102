-- ===== src/Paths/Bounds.antt =====
-- The bounds and the order of precedence of what `init_paths` of cli/paths.c resolves.
use qemu_mip.Paths.{Environ, Files, getenv, value_of, path_max, load_local_configs}
use qemu_mip.Paths.Config.{getenv-load_local_configs}
use qemu_mip.Prelude.{
  ℕ, ◌<◌, ◌≡◌, refl, Bool, true, false, ◌&&◌, ◌||◌, not, some, [], ◌∷◌, ◌++◌, Bytes, codes, arith,
  snprintf, length-snprintf, is_some, ◌==◌, if◌then◌else◌, length, length-append,
}
use qemu_mip.Paths.Resolve.{
  exe_dir, or_text, set_path, file_at, dir_at, cwd_root, first_root, dir_or, plugin_path,
  image_path, Resolved, resolve, init_paths,
}

if_true : (b : Bool) (s t : Bytes) → b ≡ true → (if b then s else t) ≡ s
if_true b s t h = rw h refl

-- a text that fits a buffer of PATH_MAX bytes with its end
record IsPath (path : Bytes) : Type 0 where
  fits : length path < path_max

snprintf-IsPath : (s : Bytes) → IsPath (snprintf path_max s)
snprintf-IsPath s = record { fits = length-snprintf path_max s (omega arith) }

set_path-IsPath : (fs : Files) (src : Bytes) → IsPath (set_path fs src)
unfolding set_path
set_path-IsPath fs src = snprintf-IsPath (or_text (fs.realpath src) src)

if-IsPath : (b : Bool) (s t : Bytes) → IsPath s → IsPath t → IsPath (if b then s else t)
if-IsPath true s t hs ht = hs
if-IsPath false s t hs ht = ht

-- a path that a test allows, or another
abbrev set_or : Files → Bool → Bytes → Bytes → Bytes
set_or fs test path other = if test then set_path fs path else other

set_or-IsPath :
    (fs : Files) (test : Bool) (path other : Bytes)
    → IsPath other
    → IsPath (set_or fs test path other)
set_or-IsPath fs test path other h =
    if-IsPath test (set_path fs path) other (set_path-IsPath fs path) h

dir_or-IsPath : (fs : Files) (val old : Bytes) → IsPath old → IsPath (dir_or fs val old)
unfolding dir_or
dir_or-IsPath fs val old h =
    if-IsPath (dir_at fs val) (set_path fs val) old (set_path-IsPath fs val) h

cwd_root-IsPath : (fs : Files) → IsPath (cwd_root fs)
unfolding cwd_root
cwd_root-IsPath fs =
    let cwd = value_of fs.cwd in
    if-IsPath (is_some fs.cwd) (set_path fs cwd) (codes ".") (set_path-IsPath fs cwd)
      (record { fits = omega arith })

first_root-IsPath : (fs : Files) (env : Environ) → IsPath (first_root fs env)
unfolding first_root
first_root-IsPath fs env =
    let env_root = value_of (getenv env (codes "QEMU_CONNECT_ROOT")) in
    let env_home = value_of (getenv env (codes "QEMU_CONNECT_HOME")) in
    let cand = snprintf path_max (exe_dir fs ++ codes "/../share/qemu-connect") in
    let up = snprintf path_max (exe_dir fs ++ codes "/..") in
    let here = file_at fs (codes "build/qemu-connect") || file_at fs (codes "Makefile") in
    let last = if here then cwd_root fs else up in
    let installed = set_or fs (dir_at fs cand) cand last in
    let home = set_or fs (dir_at fs env_home) env_home installed in
    set_or-IsPath fs (dir_at fs env_root) env_root home (
      set_or-IsPath fs (dir_at fs env_home) env_home installed (
        set_or-IsPath fs (dir_at fs cand) cand last (
          if-IsPath here (cwd_root fs) up (cwd_root-IsPath fs)
            (snprintf-IsPath (exe_dir fs ++ codes "/..")))))

plugin_path-IsPath :
    (fs : Files) (env_plugin root : Bytes) → IsPath (plugin_path fs env_plugin root)
unfolding plugin_path
plugin_path-IsPath fs env_plugin root =
    let c1 = snprintf path_max (exe_dir fs ++ codes "/../lib/qemu-connect/libqemu-connect.so") in
    let c2 = snprintf path_max (root ++ codes "/libqemu-connect.so") in
    let c3 = snprintf path_max (root ++ codes "/build/libqemu-connect.so") in
    let here = codes "build/libqemu-connect.so" in
    let local = file_at fs here in
    let last = if local then here else c3 in
    let beside = set_or fs (file_at fs c2) c2 last in
    let built = set_or fs (file_at fs c3) c3 beside in
    let installed = set_or fs (file_at fs c1) c1 built in
    set_or-IsPath fs (file_at fs env_plugin) env_plugin installed (
      set_or-IsPath fs (file_at fs c1) c1 built (
        set_or-IsPath fs (file_at fs c3) c3 beside (
          set_or-IsPath fs (file_at fs c2) c2 last (
            if-IsPath local here c3 (record { fits = omega arith })
              (snprintf-IsPath (root ++ codes "/build/libqemu-connect.so"))))))

image_path-IsPath :
    (fs : Files) (val guest root name : Bytes)
    → length name < 100
    → IsPath (image_path fs val guest root name)
unfolding image_path
image_path-IsPath fs val guest root name h =
    let bundled = snprintf path_max (root ++ (codes "/test/guest/build/" ++ name)) in
    let built = snprintf path_max (guest ++ (codes "/build/" ++ name)) in
    let here = codes "test/guest/build/" ++ name in
    let here_fits : IsPath here = record {
      fits = omega (arith, length-append (codes "test/guest/build/") name);
    } in
    let last = if file_at fs here then here else set_path fs bundled in
    let own = set_or fs (file_at fs bundled) bundled last in
    let tree = set_or fs (not (length guest == 0)) built own in
    set_or-IsPath fs (not (length val == 0)) val tree (
      set_or-IsPath fs (not (length guest == 0)) built own (
        set_or-IsPath fs (file_at fs bundled) bundled last (
          if-IsPath (file_at fs here) here (set_path fs bundled) here_fits
            (set_path-IsPath fs bundled))))

-- the five paths fit their buffers
pub record Fits (paths : Resolved) : Type 0 where
  pub root_fits : length paths.root < path_max
  pub guest_fits : length paths.guest < path_max
  pub plugin_fits : length paths.plugin < path_max
  pub iso_fits : length paths.iso < path_max
  pub disk_fits : length paths.disk < path_max

-- Whatever the environment, the files of settings and the file system, each resolved path fits its
-- buffer of PATH_MAX bytes with its end.
pub init_paths-Fits : (fs : Files) (env : Environ) → Fits (init_paths fs env).0
unfolding init_paths resolve
init_paths-Fits fs env = record {
  root_fits = (dir_or-IsPath fs _ _ (first_root-IsPath fs env)).fits;
  guest_fits = (dir_or-IsPath fs _ [] (record { fits = omega arith })).fits;
  plugin_fits = (plugin_path-IsPath fs _ _).fits;
  iso_fits = (image_path-IsPath fs _ _ _ (codes "kernel.iso") (omega arith)).fits;
  disk_fits = (image_path-IsPath fs _ _ _ (codes "disk.img") (omega arith)).fits;
}

given :
    (fs : Files) (root : Bytes) (env : Environ) (name val : Bytes)
    → getenv env name ≡ some val
    → value_of (getenv (load_local_configs fs root env) name) ≡ val
given fs root env name val h = rw (getenv-load_local_configs fs root env name, h) refl

image_path-given :
    (fs : Files) (c : ℕ) (val guest root name : Bytes)
    → image_path fs (c ∷ val) guest root name ≡ set_path fs (c ∷ val)
unfolding image_path
image_path-given fs c val guest root name = ground arith

plugin_path-given :
    (fs : Files) (c : ℕ) (val root : Bytes)
    → fs.is_file (c ∷ val) ≡ true
    → plugin_path fs (c ∷ val) root ≡ set_path fs (c ∷ val)
unfolding plugin_path
plugin_path-given fs c val root h =
    rw h (if_true (not (length (c ∷ val) == 0) && true) _ _ (ground arith))

-- What the process is given wins over both files of settings: the images and the plugin that its
-- environment names are used as they are, made absolute where that can be done, whatever the files,
-- the root and the guest tree say; the plugin has to be a file.
pub init_paths_given :
    (fs : Files) (env : Environ) (c d e : ℕ) (iso disk plugin : Bytes)
    → getenv env (codes "QEMU_CONNECT_ISO") ≡ some (c ∷ iso)
    → getenv env (codes "QEMU_CONNECT_DISK") ≡ some (d ∷ disk)
    → getenv env (codes "QEMU_CONNECT_PLUGIN") ≡ some (e ∷ plugin)
    → fs.is_file (e ∷ plugin) ≡ true
    → let paths = (init_paths fs env).0 in
      (paths.iso ≡ set_path fs (c ∷ iso))
      × (paths.disk ≡ set_path fs (d ∷ disk))
      × (paths.plugin ≡ set_path fs (e ∷ plugin))
unfolding init_paths resolve
init_paths_given fs env c d e iso disk plugin has_iso has_disk has_plugin file =
    let root = first_root fs env in
    rw
      (
        given fs root env (codes "QEMU_CONNECT_ISO") (c ∷ iso) has_iso,
        given fs root env (codes "QEMU_CONNECT_DISK") (d ∷ disk) has_disk,
        given fs root env (codes "QEMU_CONNECT_PLUGIN") (e ∷ plugin) has_plugin,
      )
      (
        image_path-given fs c iso _ _ (codes "kernel.iso"),
        image_path-given fs d disk _ _ (codes "disk.img"),
        plugin_path-given fs e plugin _ file,
      )

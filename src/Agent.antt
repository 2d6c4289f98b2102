-- ===== src/Agent.antt =====
-- plugin/agent.c: the plugin's arguments.
mod Args
pub mod Install
pub mod Balance
mod Examples
use qemu_mip.Prelude.{
  ℕ, ◌+◌, ◌-◌, ◌*◌, ◌<◌, ◌≤◌, ◌≡◌, Bool, true, false, ◌||◌, Option, none, some, List, [], ◌∷◌,
  Bytes, codes, length, drop, str_eq, starts_with, snprintf, ltb, ◌==◌, if◌then◌else◌,
}
use qemu_mip.Protocol.Fields.{skip, is_space, scan}

-- `val` is empty where the pointer is NULL
unfoldable pub parse_bool_arg : Bytes → Bool → Bool
unfolding str_eq
parse_bool_arg val default_val =
    if length val == 0
    then default_val
    else if str_eq val (codes "on")
        || str_eq val (codes "1")
        || str_eq val (codes "true")
        || str_eq val (codes "yes")
    then true
    else if str_eq val (codes "off")
        || str_eq val (codes "0")
        || str_eq val (codes "false")
        || str_eq val (codes "no")
    then false
    else default_val

-- the settings among the static variables of plugin/agent.c
pub record Settings : Type 0 where
  pub socket_path : Bytes
  pub socket_thread : Bool
  pub vga_enabled : Bool
  pub vga_refresh : Bool
  pub hypercall : Bool
  pub queue_timeout_ms : ℕ

-- `sizeof(g_socket_path)`
abbrev path_size : ℕ
path_size = 256

abbrev defaults : Settings
defaults = record {
  socket_path = snprintf path_size (codes "/tmp/qemu-connect.sock");
  socket_thread = true;
  vga_enabled = true;
  vga_refresh = true;
  hypercall = true;
  queue_timeout_ms = 250;
}

-- The part of `atoi` that `v > 0` leaves over: the number, or 0 for one that is not above 0. A number
-- that an int cannot hold has no defined result in C; here it is the number itself.
unfoldable pub atoi : Bytes → ℕ
unfolding skip is_space scan
atoi text = unsigned_of (skip is_space text)
  where
    unsigned_of : Bytes → ℕ
    unsigned_of [] = 0
    unsigned_of (c ∷ s) =
        if c == b'-' then 0 else if c == b'+' then scan 10 s 0 else scan 10 (c ∷ s) 0

-- the body of the loop of `parse_args`, for an argument that is not NULL
unfoldable pub parse_arg : Bytes → Settings → Settings
unfolding starts_with parse_bool_arg atoi snprintf
parse_arg a s =
    if starts_with a (codes "socket=")
    then record s { socket_path = snprintf path_size (drop 7 a) }
    else if starts_with a (codes "socket_thread=")
    then record s { socket_thread = parse_bool_arg (drop 14 a) true }
    else if starts_with a (codes "vga=")
    then record s { vga_enabled = parse_bool_arg (drop 4 a) true }
    else if starts_with a (codes "vga_refresh=")
    then record s { vga_refresh = parse_bool_arg (drop 12 a) true }
    else if starts_with a (codes "hypercall=")
    then record s { hypercall = parse_bool_arg (drop 10 a) true }
    else if starts_with a (codes "vcpu_queue_timeout_ms=")
    then (let v = atoi (drop 22 a) in if ltb 0 v then record s { queue_timeout_ms = v } else s)
    else s

unfoldable pub parse_rest : List Bytes → Settings → Settings
unfolding parse_arg
parse_rest [] s = s
parse_rest (a ∷ args) s = parse_rest args (parse_arg a s)

unfoldable pub parse_args : List Bytes → Settings
unfolding parse_rest
parse_args args = parse_rest args defaults

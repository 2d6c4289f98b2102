-- ===== src/Agent/Args.antt =====
-- `parse_args` of plugin/agent.c.
use qemu_mip.Agent.{
  Settings, atoi, parse_bool_arg, path_size, defaults, parse_arg, parse_rest, parse_args,
}
use qemu_mip.Prelude.{
  ◌<◌, ◌≡◌, refl, ◌∙◌, Bool, true, false, Bool-cases, inl, inr, List, [], ◌∷◌, ◌++◌, Bytes, codes,
  length, drop, starts_with, snprintf, length-snprintf, ltb, if◌then◌else◌, arith, All,
}

-- what the rest of the plugin relies on: a path with room for its NUL, and a positive timeout
pub record IsValid (s : Settings) : Type 0 where
  pub path_fits : length s.socket_path < path_size
  pub timeout_positive : 0 < s.queue_timeout_ms

-- A property of every result of the chain of tests is one of its result.
one_of :
    (P : Settings → Type 0)
    → (b₁ b₂ b₃ b₄ b₅ b₆ : Bool) → (s₁ s₂ s₃ s₄ s₅ s₆ s : Settings) → (b₁ ≡ true → P s₁)
    → P s₂
    → P s₃
    → P s₄
    → P s₅
    → P s₆
    → P s
    → P (
        if b₁
        then s₁
        else if b₂
        then s₂
        else if b₃
        then s₃
        else if b₄
        then s₄
        else if b₅
        then s₅
        else if b₆
        then s₆
        else s)
one_of P true _ _ _ _ _ s₁ s₂ s₃ s₄ s₅ s₆ s p₁ p₂ p₃ p₄ p₅ p₆ p = p₁ refl
one_of P false true _ _ _ _ s₁ s₂ s₃ s₄ s₅ s₆ s p₁ p₂ p₃ p₄ p₅ p₆ p = p₂
one_of P false false true _ _ _ s₁ s₂ s₃ s₄ s₅ s₆ s p₁ p₂ p₃ p₄ p₅ p₆ p = p₃
one_of P false false false true _ _ s₁ s₂ s₃ s₄ s₅ s₆ s p₁ p₂ p₃ p₄ p₅ p₆ p = p₄
one_of P false false false false true _ s₁ s₂ s₃ s₄ s₅ s₆ s p₁ p₂ p₃ p₄ p₅ p₆ p = p₅
one_of P false false false false false true s₁ s₂ s₃ s₄ s₅ s₆ s p₁ p₂ p₃ p₄ p₅ p₆ p = p₆
one_of P false false false false false false s₁ s₂ s₃ s₄ s₅ s₆ s p₁ p₂ p₃ p₄ p₅ p₆ p = p

timeout_set : Bytes → Settings → Settings
timeout_set val s = let v = atoi val in if ltb 0 v then record s { queue_timeout_ms = v } else s

-- What every argument keeps of the settings.
parse_arg_keeps :
    (P : Settings → Type 0) (a : Bytes) (s : Settings)
    → (starts_with a (codes "socket=") ≡ true
        → P (record s { socket_path = snprintf path_size (drop 7 a) }))
    → P (record s { socket_thread = parse_bool_arg (drop 14 a) true })
    → P (record s { vga_enabled = parse_bool_arg (drop 4 a) true })
    → P (record s { vga_refresh = parse_bool_arg (drop 12 a) true })
    → P (record s { hypercall = parse_bool_arg (drop 10 a) true })
    → P (timeout_set (drop 22 a) s)
    → P s
    → P (parse_arg a s)
unfolding parse_arg timeout_set
parse_arg_keeps P a s p₁ p₂ p₃ p₄ p₅ p₆ p =
    one_of P (starts_with a (codes "socket=")) (starts_with a (codes "socket_thread="))
      (starts_with a (codes "vga=")) (starts_with a (codes "vga_refresh="))
      (starts_with a (codes "hypercall=")) (starts_with a (codes "vcpu_queue_timeout_ms="))
      (record s { socket_path = snprintf path_size (drop 7 a) })
      (record s { socket_thread = parse_bool_arg (drop 14 a) true })
      (record s { vga_enabled = parse_bool_arg (drop 4 a) true })
      (record s { vga_refresh = parse_bool_arg (drop 12 a) true })
      (record s { hypercall = parse_bool_arg (drop 10 a) true }) (timeout_set (drop 22 a) s) s p₁ p₂
      p₃ p₄ p₅ p₆ p

timeout_set-IsValid : (val : Bytes) (s : Settings) → IsValid s → IsValid (timeout_set val s)
unfolding timeout_set
timeout_set-IsValid val s h = elim (Bool-cases (ltb 0 (atoi val))) [
  | inl e ↦ rw e (record { path_fits = h.path_fits; timeout_positive = ground arith })
  | inr e ↦ rw e h
]

parse_arg-IsValid : (a : Bytes) (s : Settings) → IsValid s → IsValid (parse_arg a s)
parse_arg-IsValid a s v =
    let keep : (t : Settings)
        → t.socket_path ≡ s.socket_path
        → t.queue_timeout_ms ≡ s.queue_timeout_ms
        → IsValid t =
      λ t p q. record {
        path_fits = rw p v.path_fits;
        timeout_positive = rw q v.timeout_positive;
      } in
    let fits = length-snprintf path_size (drop 7 a) (omega arith) in
    parse_arg_keeps IsValid a s
      (λ e. record { path_fits = fits; timeout_positive = v.timeout_positive }) (keep _ refl refl)
      (keep _ refl refl) (keep _ refl refl) (keep _ refl refl) (timeout_set-IsValid (drop 22 a) s v)
      v

parse_rest-IsValid : (args : List Bytes) (s : Settings) → IsValid s → IsValid (parse_rest args s)
unfolding parse_rest
parse_rest-IsValid [] s v = v
parse_rest-IsValid (a ∷ args) s v =
    parse_rest-IsValid args (parse_arg a s) (parse_arg-IsValid a s v)

parse_rest-append :
    (a b : List Bytes) (s : Settings) → parse_rest (a ++ b) s ≡ parse_rest b (parse_rest a s)
unfolding parse_rest
parse_rest-append [] b s = refl
parse_rest-append (x ∷ a) b s = parse_rest-append a b (parse_arg x s)

-- Whatever the arguments, the socket path fits its buffer with its NUL and the timeout is positive.
pub parse_args-IsValid : (args : List Bytes) → IsValid (parse_args args)
unfolding parse_args snprintf
parse_args-IsValid args =
    parse_rest-IsValid args defaults
      (record { path_fits = omega arith; timeout_positive = omega arith })

socket_arg :
    (a : Bytes) (s : Settings)
    → starts_with a (codes "socket=") ≡ true
    → (parse_arg a s).socket_path ≡ snprintf path_size (drop 7 a)
unfolding parse_arg
socket_arg a s h = rw h refl

timeout_set-path : (val : Bytes) (s : Settings) → (timeout_set val s).socket_path ≡ s.socket_path
unfolding timeout_set
timeout_set-path val s = ground arith

other_arg :
    (a : Bytes) (s : Settings)
    → starts_with a (codes "socket=") ≡ false
    → (parse_arg a s).socket_path ≡ s.socket_path
other_arg a s h =
    parse_arg_keeps (λ t. t.socket_path ≡ s.socket_path) a s (λ e. absurd (cc)) refl refl refl refl
      (timeout_set-path (drop 22 a) s) refl

other_args :
    (args : List Bytes) (s : Settings)
    → All (λ a. starts_with a (codes "socket=") ≡ false) args
    → (parse_rest args s).socket_path ≡ s.socket_path
unfolding parse_rest
other_args [] s h = refl
other_args (a ∷ args) s h = other_args args (parse_arg a s) h.1 ∙ other_arg a s h.0

-- The last `socket=` argument gives the socket path, cut to 255 bytes, whatever comes before it.
pub parse_args_socket :
    (before behind : List Bytes) (a : Bytes)
    → starts_with a (codes "socket=") ≡ true
    → All (λ b. starts_with b (codes "socket=") ≡ false) behind
    → (parse_args (before ++ a ∷ behind)).socket_path ≡ snprintf path_size (drop 7 a)
unfolding parse_args parse_rest
parse_args_socket before behind a is_socket others =
    rw (parse_rest-append before (a ∷ behind) defaults) (
      other_args behind (parse_arg a (parse_rest before defaults)) others
      ∙ socket_arg a (parse_rest before defaults) is_socket)

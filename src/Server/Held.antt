-- ===== src/Server/Held.antt =====
-- What plugin/server.c and plugin/agent.c take and give back, one act after the other.
use qemu_mip.Prelude.{
  ℕ, ◌≡◌, refl, ap, Option-cases, Bool, true, false, not, ◌&&◌, Option, none, some, List, [], ◌∷◌,
  ◌++◌, arith, ◌==◌, if◌then◌else◌, Bool-cases, inl, inr,
}
use qemu_mip.Server.Life.{
  Act, allocate, free, unlink, open_fd, bind, chmod, listen, shutdown, close, create_thread,
  join_thread, create_queue, destroy_queue, init_screen, destroy_screen,
}

-- What the plugin has and must give back; of a path only whether a socket has its name.
pub record Held : Type 0 where
  pub memory : Bool
  pub fds : List ℕ
  pub named : Bool
  pub thread : Bool
  pub queue : Bool
  pub screen : Bool

abbrev cons_to : ℕ → Option (List ℕ) → Option (List ℕ)
cons_to m none = none
cons_to m (some ms) = some (m ∷ ms)

-- without the first of them
unfoldable pub remove : ℕ → List ℕ → Option (List ℕ)
remove n [] = none
remove n (m ∷ ms) = if m == n then some ms else cons_to m (remove n ms)

abbrev with_fds : Held → Option (List ℕ) → Option Held
with_fds h none = none
with_fds h (some fds) = some (record h { fds = fds })

abbrev when : Bool → Held → Option Held
when ok h = if ok then some h else none

-- One act: `none` where it takes what is there, gives back what is not, or takes something away from a
-- thread that still runs.
unfoldable pub hold : Act → Held → Option Held
hold allocate h = when (not h.memory) (record h { memory = true })
hold free h = when (h.memory && not h.thread) (record h { memory = false })
hold (unlink path) h = some (record h { named = false })
hold (open_fd fd) h = some (record h { fds = fd ∷ h.fds })
hold (bind path) h = when (not h.named) (record h { named = true })
hold (chmod path) h = when h.named h
hold (listen fd) h = some h
hold (shutdown fd) h = some h
hold (close fd) h = with_fds h (remove fd h.fds)
hold create_thread h = when (h.memory && not h.thread) (record h { thread = true })
hold join_thread h = when h.thread (record h { thread = false })
hold create_queue h = when (not h.queue) (record h { queue = true })
hold destroy_queue h = when (h.queue && not h.thread) (record h { queue = false })
hold init_screen h = when (not h.screen) (record h { screen = true })
hold destroy_screen h = when (h.screen && not h.thread) (record h { screen = false })

abbrev pub then_hold : (Held → Option Held) → Option Held → Option Held
then_hold f none = none
then_hold f (some h) = f h

unfoldable pub hold_all : List Act → Held → Option Held
hold_all [] h = some h
hold_all (a ∷ acts) h = then_hold (hold_all acts) (hold a h)

pub hold_all-append :
    (a b : List Act) (h : Held) → hold_all (a ++ b) h ≡ then_hold (hold_all b) (hold_all a h)
unfolding hold_all
hold_all-append [] b h = refl
hold_all-append (x ∷ a) b h = elim (Option-cases (hold x h)) [
  | inl n ↦ rw n refl
  | inr (m, f) ↦ rw f (hold_all-append a b m)
]

-- nothing of the server, beside the queue and the screen
abbrev pub idle : Bool → Bool → Held
idle queue screen = record {
  memory = false;
  fds = [];
  named = false;
  thread = false;
  queue = queue;
  screen = screen;
}

==-same : (n : ℕ) → (n == n) ≡ true
==-same n = ground arith

pub remove-first : (fd : ℕ) (fds : List ℕ) → remove fd (fd ∷ fds) ≡ some fds
unfolding remove
remove-first fd fds = rw (==-same fd) refl

pub remove-second : (fd old : ℕ) (fds : List ℕ) → remove old (fd ∷ old ∷ fds) ≡ some (fd ∷ fds)
unfolding remove
remove-second fd old fds = elim (Bool-cases (fd == old)) [
  | inl e ↦ let same : old ≡ fd = ground (arith, e) in rw e (ap (λ (n : ℕ). some (n ∷ fds)) same)
  | inr e ↦ rw (e, ==-same old) refl
]

-- ===== src/Hypercall/Events.antt =====
-- The events of plugin/hypercall.c against the guest's memory.
use qemu_mip.Guest.{Memory, write, Access, write_all}
use qemu_mip.Hypercall.{
  Hypercall, window_phys, window_size, magic, State, word_at, commit, try_commit, store_bytes,
  note_store,
}
use qemu_mip.Hypercall.Window.{length-store_bytes, get_or-store_bytes}
use qemu_mip.Prelude.{
  ℕ, ◌+◌, ◌*◌, ◌^◌, ◌≤◌, ◌<◌, ◌≡◌, refl, ◌∙◌, ap, Bool, ◌&&◌, List, [], ◌∷◌, arith, ltb, ◌==◌,
  if◌then◌else◌, length, get_or, All,
}

-- The window holds the 16 bytes of guest memory at its address.
pub record Mirrors (s : Hypercall) (mem : Memory) : Type 0 where
  pub size : length s.window ≡ window_size
  pub bytes : (j : ℕ) → j < window_size → get_or s.window j 0 ≡ mem (window_phys + j)

-- the little-endian word that the guest has in memory
unfoldable pub word_in : Memory → ℕ → ℕ
word_in mem a = mem a + 2 ^ 8 * mem (a + 1) + 2 ^ 16 * mem (a + 2) + 2 ^ 24 * mem (a + 3)

-- A store of `size` bytes at `phys` has a byte in the window.
unfoldable pub touches : ℕ → ℕ → Bool
touches phys size =
    ltb 0 size && ltb window_phys (phys + size) && ltb phys (window_phys + window_size)

-- What a store should do to the state, told from the memory after it.
unfoldable pub step_spec : State → Memory → Access → State
step_spec st after a =
    if touches a.phys a.size && (word_in after window_phys == magic)
    then commit st (word_in after (window_phys + 4)) (word_in after (window_phys + 8))
    else st

unfoldable pub run : Hypercall → List Access → Hypercall
run s [] = s
run s (a ∷ rest) = run (note_store s a.phys a.value a.size) rest

unfoldable pub run_spec : State → Memory → List Access → State
run_spec st mem [] = st
run_spec st mem (a ∷ rest) =
    let after = write mem a.phys a.value a.size in run_spec (step_spec st after a) after rest

-- A store of at most 8 bytes that does not run over the end of the address space.
pub record Fits (a : Access) : Type 0 where
  pub small : a.size ≤ 8
  pub inside : a.phys + a.size ≤ 2 ^ 64

word_at-eq :
    (s : Hypercall) (mem : Memory) (off : ℕ)
    → Mirrors s mem
    → off + 3 < window_size
    → word_at s.window off ≡ word_in mem (window_phys + off)
unfolding word_at word_in
word_at-eq s mem off m h = ground (
  arith,
  m.bytes off,
  m.bytes (off + 1),
  m.bytes (off + 2),
  m.bytes (off + 3),
  ap mem (shift off 1),
  ap mem (shift off 2),
  ap mem (shift off 3),
)
  where
    shift : (a b : ℕ) → window_phys + (a + b) ≡ window_phys + a + b
    shift a b = omega arith

window-try_commit : (s : Hypercall) → (try_commit s).window ≡ s.window
unfolding try_commit
window-try_commit s = ground arith

note_store_lem :
    (s : Hypercall) (a : Access)
    → Fits a
    → note_store s a.phys a.value a.size ≡ (
        if touches a.phys a.size
        then try_commit (record s { window = store_bytes a.size 0 a.phys a.value s.window })
        else s)
unfolding note_store touches
note_store_lem s a fits = ground arith

-- Every store leaves the window with the guest's bytes.
pub note_store-Mirrors :
    (s : Hypercall) (mem : Memory) (a : Access)
    → Mirrors s mem
    → Fits a
    → Mirrors (note_store s a.phys a.value a.size) (write mem a.phys a.value a.size)
unfolding touches
note_store-Mirrors s mem a m fits =
    let next = record s { window = store_bytes a.size 0 a.phys a.value s.window } in
    record {
      size = ground (
        arith,
        note_store_lem s a fits,
        window-try_commit next,
        length-store_bytes a.size 0 a.phys a.value s.window,
        m.size,
      );
      bytes = λ j h. ground (
        arith,
        note_store_lem s a fits,
        window-try_commit next,
        get_or-store_bytes a.size 0 a.phys a.value s.window j m.size h,
        m.bytes j h,
      );
    }

st-try_commit :
    (s : Hypercall) (mem : Memory)
    → Mirrors s mem
    → (try_commit s).st ≡ (
        if word_in mem window_phys == magic
        then commit s.st (word_in mem (window_phys + 4)) (word_in mem (window_phys + 8))
        else s.st)
unfolding try_commit
st-try_commit s mem m = ground (
  arith,
  word_at-eq s mem 0 m (omega arith),
  word_at-eq s mem 4 m (omega arith),
  word_at-eq s mem 8 m (omega arith),
)

written-Mirrors :
    (s : Hypercall) (mem : Memory) (a : Access)
    → Mirrors s mem
    → Fits a
    → Mirrors
        (record s { window = store_bytes a.size 0 a.phys a.value s.window })
        (write mem a.phys a.value a.size)
written-Mirrors s mem a m fits = record {
  size = length-store_bytes a.size 0 a.phys a.value s.window ∙ m.size;
  bytes = λ j h.
      ground (arith, get_or-store_bytes a.size 0 a.phys a.value s.window j m.size h, m.bytes j h);
}

pub st-note_store :
    (s : Hypercall) (mem : Memory) (a : Access)
    → Mirrors s mem
    → Fits a
    → (note_store s a.phys a.value a.size).st ≡ step_spec s.st (write mem a.phys a.value a.size) a
unfolding step_spec
st-note_store s mem a m fits = ground (
  arith,
  note_store_lem s a fits,
  st-try_commit (record s { window = store_bytes a.size 0 a.phys a.value s.window })
      (write mem a.phys a.value a.size) (written-Mirrors s mem a m fits),
)

-- After any sequence of guest stores of at most 8 bytes the window holds the guest's bytes, and the
-- state is what the specification tells from the guest's memory: a store with a byte in the window
-- is an event exactly if the magic is in memory after it, with the command and status there.
pub run_refines :
    (s : Hypercall) (mem : Memory) (accesses : List Access)
    → Mirrors s mem
    → All Fits accesses
    → Mirrors (run s accesses) (write_all mem accesses)
      × ((run s accesses).st ≡ run_spec s.st mem accesses)
unfolding run run_spec
run_refines s mem [] m fits = (m, refl)
run_refines s mem (a ∷ rest) m fits =
    let (mirrors, state) =
      run_refines (note_store s a.phys a.value a.size) (write mem a.phys a.value a.size) rest
        (note_store-Mirrors s mem a m fits.0) fits.1 in
    (
      mirrors,
      state
          ∙ ap (λ st. run_spec st (write mem a.phys a.value a.size) rest)
              (st-note_store s mem a m fits.0),
    )

-- ===== src/Qmp/Ending.antt =====
-- That the loop of `qc_qmp_execute` in cli/qmp.c, which has no bound in the source, ends.
use qemu_mip.Prelude.{
  ℕ, ◌≡◌, true, false, none, some, List, Bytes, codes, c_str, has, snprintf, ◌==◌, if◌then◌else◌,
}
use qemu_mip.Qmp.{Outcome, accepted, refused, io_failed, Input}
use qemu_mip.Qmp.Connection.{next_line}

abbrev pub stored : ℕ → Bytes → Bytes → Bytes
stored out_len out line = if out_len == 0 then out else snprintf out_len line

-- What the loop does in finitely many rounds, from the input and the buffer on: its result, what the buffer
-- holds then, and what is not read. A run that goes round for ever has no such tree.
pub data Replies (out_len : ℕ) : List Input → Bytes → Outcome → Bytes → List Input → Type 0 where
  ended :
      (input : List Input) (out : Bytes)
      → (next_line input).0 ≡ none
      → Replies out_len input out io_failed out (next_line input).1
  event :
      (input : List Input) (out raw : Bytes) (r : Outcome) (out' : Bytes) (left : List Input)
      → (next_line input).0 ≡ some raw
      → has (c_str raw) (codes "\"event\"") ≡ true
      → Replies out_len (next_line input).1 out r out' left
      → Replies out_len input out r out' left
  error :
      (input : List Input) (out raw : Bytes)
      → (next_line input).0 ≡ some raw
      → has (c_str raw) (codes "\"event\"") ≡ false
      → has (c_str raw) (codes "\"error\"") ≡ true
      → Replies out_len input out refused (stored out_len out (c_str raw)) (next_line input).1
  answered :
      (input : List Input) (out raw : Bytes)
      → (next_line input).0 ≡ some raw
      → has (c_str raw) (codes "\"event\"") ≡ false
      → has (c_str raw) (codes "\"error\"") ≡ false
      → has (c_str raw) (codes "\"return\"") ≡ true
      → Replies out_len input out accepted (stored out_len out (c_str raw)) (next_line input).1
  other :
      (input : List Input) (out raw : Bytes) (r : Outcome) (out' : Bytes) (left : List Input)
      → (next_line input).0 ≡ some raw
      → has (c_str raw) (codes "\"event\"") ≡ false
      → has (c_str raw) (codes "\"error\"") ≡ false
      → has (c_str raw) (codes "\"return\"") ≡ false
      → Replies out_len (next_line input).1 (stored out_len out (c_str raw)) r out' left
      → Replies out_len input out r out' left

abbrev Ends : ℕ → List Input → Bytes → Outcome × Bytes × List Input → Type 0
Ends out_len input out (r, out', left) = Replies out_len input out r out' left

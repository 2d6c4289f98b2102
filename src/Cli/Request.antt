-- ===== src/Cli/Request.antt =====
-- `request_buf` and `request` of cli/main.c, and their copies `plugin_request` of cli/session.c and
-- cli/run.c: a line is sent to the plugin's socket, and its answer is read.
use qemu_mip.Prelude.{
  ℕ, ◌+◌, ◌-◌, ◌<◌, ◌≡◌, refl, sym, ◌∙◌, ap, Bool, true, false, ◌||◌, Option, none, some, List, [],
  ◌∷◌, ◌++◌, append-nil, append_assoc, Bytes, arith, c_str, snprintf, ltb, leb, ◌==◌, if◌then◌else◌,
  length, length-append, take, take-eq_of_length-le, subst, Bool-cases, inl, inr,
}
use qemu_mip.Protocol.Console.{resp_max}

-- `read`: some bytes, the first of them and the others; the end of the stream; or an error
pub data Read : Type 0 where
  got : ℕ → Bytes → Read
  closed : Read
  read_failed : Read

-- What the system makes of a connection to the socket at a path: `none` if it cannot be made, or for
-- what is written to it `none` if that fails, or else what the reads that follow give.
abbrev pub Connections : Type 0
Connections = Bytes → Option (Bytes → Option (List Read))

-- `memchr(buf, '\n', total)`
unfoldable pub has_line_feed : Bytes → Bool
has_line_feed [] = false
has_line_feed (c ∷ s) = c == b'\n' || has_line_feed s

-- The loop of `request_buf` with the first `total` bytes of `buf`, where `give_up` tells that an error
-- ends in failure, and of `plugin_request`, where it ends as the end of the stream does. Reads that end
-- stand for a stream that ends.
unfoldable pub read_answer : Bool → ℕ → List Read → Bytes → Option Bytes
read_answer give_up buf_len [] buf = some buf
read_answer give_up buf_len (got c w ∷ rs) buf =
    let buf' = buf ++ take (buf_len - 1 - length buf) (c ∷ w) in
    let later = read_answer give_up buf_len rs buf' in
    if ltb (length buf + 1) buf_len
    then (if has_line_feed buf' then some buf' else later)
    else some buf
read_answer give_up buf_len (closed ∷ rs) buf = some buf
read_answer give_up buf_len (read_failed ∷ rs) buf =
    if ltb (length buf + 1) buf_len then (if give_up then none else some buf) else some buf

-- `req`: the line with its line feed, as far as 4095 bytes hold it
unfoldable pub request_line : Bytes → Bytes
unfolding snprintf
request_line line = snprintf 4096 (line ++ b'\n' ∷ [])

unfoldable pub answer_of : Bool → ℕ → Option (List Read) → Option Bytes
answer_of give_up buf_len none = none
answer_of give_up buf_len (some rs) = read_answer give_up buf_len rs []

unfoldable pub exchange_on : Bool → ℕ → Bytes → Option (Bytes → Option (List Read)) → Option Bytes
exchange_on give_up buf_len line none = none
exchange_on give_up buf_len line (some write) =
    answer_of give_up buf_len (write (request_line line))

-- the bytes of `buf` before the NUL that `request_buf` writes; `none` is the result 1
unfoldable pub request_buf : Connections → Bytes → Bytes → ℕ → Option Bytes
unfolding exchange_on
request_buf net path line buf_len = exchange_on true buf_len line (net path)

-- `none` is the result -1
unfoldable pub plugin_request : Connections → Bytes → Bytes → ℕ → Option Bytes
unfolding exchange_on
plugin_request net sock line buf_len = exchange_on false buf_len line (net sock)

unfoldable pub ends_line : Bytes → Bool
ends_line [] = false
ends_line (c ∷ []) = c == b'\n'
ends_line (c ∷ d ∷ s) = ends_line (d ∷ s)

-- what `request` prints of the first `n` bytes of its buffer
unfoldable pub printed : Bytes → Bytes
unfolding ends_line
printed buf = if ends_line buf then c_str buf else c_str buf ++ b'\n' ∷ []

unfoldable pub report : Option Bytes → ℕ × Bytes
report none = (1, [])
report (some buf) = (0, printed buf)

-- the exit code, and what is printed
unfoldable pub request : Connections → Bytes → Bytes → ℕ × Bytes
unfolding report
request net path line = report (request_buf net path line resp_max)

-- a piece that a read gives: it has at least one byte
abbrev pub Piece : Type 0
Piece = ℕ × Bytes

abbrev pub pieces : List Piece → Bytes
pieces [] = []
pieces ((c, w) ∷ ps) = c ∷ w ++ pieces ps

abbrev pub reads : List Piece → List Read → List Read
reads [] rs = rs
reads ((c, w) ∷ ps) rs = got c w ∷ reads ps rs

-- whether the loop ends with these bytes read
unfoldable pub stops : ℕ → Bytes → Bool
stops buf_len buf = has_line_feed buf || leb buf_len (length buf + 1)

-- Bytes at whose end, and nowhere before it, the loop ends.
pub record IsWhole (buf_len : ℕ) (whole : Bytes) : Type 0 where
  pub at_end : stops buf_len whole ≡ true
  pub not_before : (a b : Bytes) → a ++ b ≡ whole → stops buf_len a ≡ true → b ≡ []
  pub room : length whole < buf_len

pub stops-line : (n : ℕ) (b : Bytes) → has_line_feed b ≡ true → stops n b ≡ true
unfolding stops
stops-line n b h = rw h refl

read_answer_no_room :
    (give_up : Bool) (n : ℕ) (rs : List Read) (buf : Bytes)
    → ltb (length buf + 1) n ≡ false
    → read_answer give_up n rs buf ≡ some buf
unfolding read_answer
read_answer_no_room give_up n [] buf h = refl
read_answer_no_room give_up n (got c w ∷ rs) buf h = rw h refl
read_answer_no_room give_up n (closed ∷ rs) buf h = refl
read_answer_no_room give_up n (read_failed ∷ rs) buf h = rw h refl

-- However a whole answer is cut into reads, and whatever would be read behind it, it is what the
-- loop ends with.
pub read_answer-pieces :
    (give_up : Bool) (n : ℕ) (ps : List Piece) (rs : List Read) (buf whole : Bytes)
    → IsWhole n whole
    → has_line_feed buf ≡ false
    → buf ++ pieces ps ≡ whole
    → read_answer give_up n (reads ps rs) buf ≡ some whole
unfolding read_answer
read_answer-pieces give_up n [] rs buf whole ok clear e =
    let same : buf ≡ whole = sym (append-nil buf) ∙ e in
    let ends : stops n buf ≡ true = subst (λ b. stops n b ≡ true) (sym same) ok.at_end in
    let full : ltb (length buf + 1) n ≡ false = unfold stops in ground (arith, clear, ends) in
    read_answer_no_room give_up n rs buf full ∙ ap some same
read_answer-pieces give_up n ((c, w) ∷ ps) rs buf whole ok clear e =
    let joined : (buf ++ c ∷ w) ++ pieces ps ≡ whole = append_assoc buf (c ∷ w) (pieces ps) ∙ e in
    let fits : length buf + (length (c ∷ w) + length (pieces ps)) < n = omega (
      arith,
      ok.room,
      ap length joined,
      length-append (buf ++ c ∷ w) (pieces ps),
      length-append buf (c ∷ w),
    ) in
    let kept = take-eq_of_length-le (n - 1 - length buf) (c ∷ w) (omega (arith, fits)) in
    let room : ltb (length buf + 1) n ≡ true = ground (arith, fits) in
    rw (kept, room)
      (elim (Bool-cases (has_line_feed (buf ++ c ∷ w))) [
        | inl f ↦
            let last =
              ok.not_before (buf ++ c ∷ w) (pieces ps) joined (stops-line n (buf ++ c ∷ w) f) in
            rw f (
              ap some (
                sym (append-nil (buf ++ c ∷ w))
                ∙ sym (ap (λ (b : Bytes). (buf ++ c ∷ w) ++ b) last)
                ∙ joined))
        | inr f ↦ rw f (read_answer-pieces give_up n ps rs (buf ++ c ∷ w) whole ok f joined)
      ])

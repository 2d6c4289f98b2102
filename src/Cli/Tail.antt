-- ===== src/Cli/Tail.antt =====
-- `console_tail_nonblank` of cli/session.c, which cli/run.c has too.
use qemu_mip.Prelude.{
  ℕ, drop_nil, take_nil, length-drop, take-append, zero, suc, ◌-◌, ◌<◌, ◌≤◌, ◌≡◌, refl, ◌∙◌, ap,
  sym, Bool, true, false, ◌&&◌, ◌||◌, not, List, [], ◌∷◌, ◌++◌, append-nil, Bytes, arith, ltb, ◌==◌,
  if◌then◌else◌, length, take, drop, snprintf, Bool-cases, inl, inr, length-take,
}

-- a line with its line feed, and what is behind it
unfoldable pub line_of : Bytes → Bytes
line_of [] = []
line_of (c ∷ s) = let rest = line_of s in if c == b'\n' then c ∷ [] else c ∷ rest

unfoldable pub behind_line : Bytes → Bytes
behind_line [] = []
behind_line (c ∷ s) = let rest = behind_line s in if c == b'\n' then s else rest

-- The array `lines` of so many pointers, each with the text up to the next; the last has what is left.
unfoldable pub lines : ℕ → Bytes → List Bytes
unfolding line_of behind_line
lines zero s = []
lines (suc n) [] = []
lines (suc zero) (c ∷ s) = (c ∷ s) ∷ []
lines (suc (suc n)) (c ∷ s) = line_of (c ∷ s) ∷ lines (suc n) (behind_line (c ∷ s))

-- not `blank`
unfoldable pub has_text : Bytes → Bool
has_text [] = false
has_text (c ∷ s) = not (c == b' ' || c == b'\t' || c == b'\r' || c == b'\n') || has_text s

-- The array `kept`, from its end: the lines are gone through from the last to the first.
unfoldable pub kept : ℕ → List Bytes → List Bytes
unfolding has_text
kept n [] = []
kept n (l ∷ rest) =
    let later = kept n rest in if ltb (length later) n && has_text l then l ∷ later else later

-- the loop that copies, with so many bytes left
unfoldable pub copy_lines : ℕ → List Bytes → Bytes
copy_lines left [] = []
copy_lines left (l ∷ rest) =
    let chunk = take (left - 1) l in
    let more = copy_lines (left - length chunk) rest in if ltb 1 left then chunk ++ more else []

-- the text in `dst`; 0 stands for an `n` that is not positive
unfoldable pub console_tail_nonblank : Bytes → ℕ → ℕ → Bytes
console_tail_nonblank src dst_len n =
    if dst_len == 0
    then []
    else if length src == 0 || n == 0
    then snprintf dst_len src
    else copy_lines dst_len (kept n (lines 256 src))

-- A line has text if some byte of it is neither a blank nor a tab, carriage return or line feed.
unfoldable pub is_space : ℕ → Bool
is_space c = c == 0x20 || c == 0x09 || c == 0x0d || c == 0x0a

abbrev pub all_space : Bytes → Bool
all_space [] = true
all_space (c ∷ s) = is_space c && all_space s

-- the lines that have text, and the last of a list
abbrev pub with_text : List Bytes → List Bytes
with_text [] = []
with_text (l ∷ rest) = if all_space l then with_text rest else l ∷ with_text rest

-- a line feed at the end of a text, and nowhere before it
abbrev pub ends : Bytes → Bool
ends [] = false
ends (c ∷ s) = let rest = ends s in if c == 0x0a then length s == 0 else rest

abbrev pub is_unended : Bytes → Bool
is_unended [] = true
is_unended (c ∷ s) = not (c == 0x0a) && is_unended s

-- At most so many lines: each ends with its line feed, its only one, except the last, which need not end; and
-- the last of as many as there may be is what is left of the text, however many lines that is.
unfoldable pub are_lines : ℕ → List Bytes → Bool
are_lines n [] = true
are_lines zero (l ∷ rest) = false
are_lines (suc zero) (l ∷ []) = true
are_lines (suc zero) (l ∷ m ∷ rest) = false
are_lines (suc (suc n)) (l ∷ []) = ends l || is_unended l
are_lines (suc (suc n)) (l ∷ m ∷ rest) = ends l && are_lines (suc n) (m ∷ rest)

abbrev pub last : ℕ → List Bytes → List Bytes
last n ls = drop (length ls - n) ls

abbrev pub concat : List Bytes → Bytes
concat [] = []
concat (l ∷ rest) = l ++ concat rest

last_shorter : (n : ℕ) (l : Bytes) (g : List Bytes) → length g < n → l ∷ last n g ≡ last n (l ∷ g)
last_shorter n l g h =
    let none_left : length g - n ≡ 0 = omega arith in
    let none : suc (length g) - n ≡ 0 = omega arith in rw (none_left, none) refl

last_longer : (n : ℕ) (l : Bytes) (g : List Bytes) → n ≤ length g → last n g ≡ last n (l ∷ g)
last_longer n l g h =
    let one_more : suc (length g) - n ≡ suc (length g - n) = omega arith in rw one_more refl

add_line :
    (n : ℕ) (l : Bytes) (g : List Bytes)
    → (if ltb (length (last n g)) n then l ∷ last n g else last n g) ≡ last n (l ∷ g)
add_line n l g =
    let len = length-drop (length g - n) g in
    elim (Bool-cases (ltb (length g) n)) [
      | inl e ↦
          let room : ltb (length (last n g)) n ≡ true = ground (arith, len) in
          rw room (last_shorter n l g (ground arith))
      | inr e ↦
          let full : ltb (length (last n g)) n ≡ false = ground (arith, len) in
          rw full (last_longer n l g (ground arith))
    ]

and_true : (b : Bool) (x y : List Bytes) → (if b && true then x else y) ≡ (if b then x else y)
and_true true x y = refl
and_true false x y = refl

and_false : (b : Bool) (x y : List Bytes) → (if b && false then x else y) ≡ y
and_false true x y = refl
and_false false x y = refl

has_text-all_space : (l : Bytes) → has_text l ≡ not (all_space l)
unfolding has_text is_space
has_text-all_space [] = refl
has_text-all_space (c ∷ s) = ground (arith, has_text-all_space s)

kept_lem : (n : ℕ) (ls : List Bytes) → kept n ls ≡ last n (with_text ls)
unfolding kept
kept_lem n [] = sym (drop_nil (0 - n))
kept_lem n (l ∷ rest) = elim (Bool-cases (all_space l)) [
  | inl e ↦
      rw (has_text-all_space l, e, kept_lem n rest)
        (and_false (ltb (length (last n (with_text rest))) n) _ _)
  | inr e ↦
      rw (has_text-all_space l, e, kept_lem n rest)
        (and_true (ltb (length (last n (with_text rest))) n) _ _ ∙ add_line n l (with_text rest))
]

copy_lines_lem : (left : ℕ) (ls : List Bytes) → copy_lines left ls ≡ take (left - 1) (concat ls)
unfolding copy_lines
copy_lines_lem left [] = sym (take_nil (left - 1))
copy_lines_lem left (l ∷ rest) = elim (Bool-cases (ltb 1 left)) [
  | inl e ↦
      let room : left - length (take (left - 1) l) - 1 ≡ left - 1 - length l =
        omega (arith, length-take (left - 1) l) in
      rw (e, copy_lines_lem (left - length (take (left - 1) l)) rest, room)
        (sym (take-append (left - 1) l (concat rest)))
  | inr e ↦ let full : left - 1 ≡ 0 = ground arith in rw (e, full) refl
]

line-behind_line : (s : Bytes) → line_of s ++ behind_line s ≡ s
unfolding line_of behind_line
line-behind_line [] = refl
line-behind_line (c ∷ s) = ground (arith, line-behind_line s)

concat-lines : (n : ℕ) (s : Bytes) → concat (lines (suc n) s) ≡ s
unfolding lines
concat-lines n [] = refl
concat-lines zero (c ∷ s) = append-nil (c ∷ s)
concat-lines (suc n) (c ∷ s) =
    ap (λ r. line_of (c ∷ s) ++ r) (concat-lines n (behind_line (c ∷ s))) ∙ line-behind_line (c ∷ s)

-- The first line ends, unless nothing is behind it.
line_of-ends : (s : Bytes) (d : ℕ) (r : Bytes) → behind_line s ≡ d ∷ r → ends (line_of s) ≡ true
unfolding line_of behind_line
line_of-ends [] d r e = absurd cc
line_of-ends (c ∷ s) d r e = elim (Bool-cases (c == b'\n')) [
  | inl f ↦ ground (arith, f)
  | inr f ↦ ground (arith, f, e, line_of-ends s d r)
]

line_of-unended : (s : Bytes) → (ends (line_of s) || is_unended (line_of s)) ≡ true
unfolding line_of
line_of-unended [] = refl
line_of-unended (c ∷ s) = ground (arith, line_of-unended s)

are_lines-more :
    (n : ℕ) (l b : Bytes)
    → (ends l || is_unended l) ≡ true
    → ((d : ℕ) (r : Bytes) → b ≡ d ∷ r → ends l ≡ true)
    → are_lines (suc n) (lines (suc n) b) ≡ true
    → are_lines (suc (suc n)) (l ∷ lines (suc n) b) ≡ true
unfolding lines are_lines
are_lines-more n l [] one ended more = one
are_lines-more zero l (d ∷ r) one ended more = rw (ended d r refl) refl
are_lines-more (suc n) l (d ∷ r) one ended more = rw (ended d r refl) more

lines-are_lines : (n : ℕ) (s : Bytes) → are_lines n (lines n s) ≡ true
unfolding lines
lines-are_lines zero s = unfold are_lines in refl
lines-are_lines (suc n) [] = unfold are_lines in refl
lines-are_lines (suc zero) (c ∷ s) = unfold are_lines in refl
lines-are_lines (suc (suc n)) (c ∷ s) =
    are_lines-more n (line_of (c ∷ s)) (behind_line (c ∷ s)) (line_of-unended (c ∷ s))
      (line_of-ends (c ∷ s)) (lines-are_lines (suc n) (behind_line (c ∷ s)))

no_lines : lines 256 [] ≡ []
unfolding lines
no_lines = refl

copied :
    (src : Bytes) (dst_len n : ℕ)
    → (if length src == 0 || false
        then take (dst_len - 1) src
        else copy_lines dst_len (kept n (lines 256 src)))
      ≡ take (dst_len - 1) (concat (last n (with_text (lines 256 src))))
copied [] dst_len n =
    rw no_lines (ap (λ ls. take (dst_len - 1) (concat ls)) (sym (drop_nil (0 - n))))
copied (c ∷ s) dst_len n =
    let given : (length (c ∷ s) == 0) ≡ false = ground arith in
    rw (given, copy_lines_lem dst_len (kept n (lines 256 (c ∷ s))), kept_lem n (lines 256 (c ∷ s)))
      refl

-- Of a text, which is its lines one behind the other, each up to and with its line feed, `console_tail_nonblank`
-- gives the last `n` lines that have more than blanks, in their order, as far as they fit the destination with
-- its end; a text of more than 256 lines counts all that is behind line 255 as one line.
pub console_tail_nonblank_lem :
    (src : Bytes) (dst_len n : ℕ)
    → 0 < dst_len
    → 0 < n
    → (concat (lines 256 src) ≡ src)
      × (are_lines 256 (lines 256 src) ≡ true)
      × (console_tail_nonblank src dst_len n
          ≡ snprintf dst_len (concat (last n (with_text (lines 256 src)))))
unfolding console_tail_nonblank snprintf
console_tail_nonblank_lem src dst_len n room some_lines =
    let sized : (dst_len == 0) ≡ false = ground arith in
    let asked : (n == 0) ≡ false = ground arith in
    (concat-lines 255 src, lines-are_lines 256 src, rw (sized, asked) (copied src dst_len n))

-- ===== src/Protocol/Framing.antt =====
-- That what plugin/protocol.c answers is one line: the server ends each answer with a line feed, and
-- a client reads up to the first.
use qemu_mip.Hypercall.{State}
use qemu_mip.Mem.{Counters}
use qemu_mip.Prelude.{
  ℕ, ◌-◌, ◌<◌, length, length-take, append_assoc, ◌≡◌, refl, Bool, true, ◌&&◌, Bytes, [], ◌∷◌, ◌++◌,
  arith, snprintf, leb, All, All-take,
}
use qemu_mip.Protocol.Escape.{IsPrintable}
use qemu_mip.Protocol.Print.{format, format_bool, format-IsPrintable, format_bool-IsPrintable}
use qemu_mip.Protocol.Replies.{
  error_reply, hw_code_name, hw_failed_reply, range_error, name_and_proto, ping_reply,
  mem_cb_fields, version_reply, discon_fields, agent_fields, status_reply, event_reply,
  console_head, console_reply, mem_reply,
}

-- a test of the whole text; behind a literal it computes to the test of the rest
unfoldable pub is_line : Bytes → Bool
is_line [] = true
is_line (c ∷ s) = leb 0x20 c && is_line s

pub IsPrintable-is_line : (s : Bytes) → is_line s ≡ true → All IsPrintable s
unfolding is_line
IsPrintable-is_line [] h = tt
IsPrintable-is_line (c ∷ s) h = ground (arith, IsPrintable-is_line s)

pub is_line-append : (s t : Bytes) → All IsPrintable s → is_line (s ++ t) ≡ is_line t
unfolding is_line
is_line-append [] t h = refl
is_line-append (c ∷ s) t h = ground (arith, is_line-append s t h.1)

is_line-format : (n : ℕ) (t : Bytes) → is_line (format n ++ t) ≡ is_line t
is_line-format n t = is_line-append (format n) t (format-IsPrintable n)

is_line-format_bool : (b : Bool) (t : Bytes) → is_line (format_bool b ++ t) ≡ is_line t
is_line-format_bool b t = is_line-append (format_bool b) t (format_bool-IsPrintable b)

hw_code_name-IsPrintable : (code : ℕ) → All IsPrintable (hw_code_name code)
unfolding hw_code_name
hw_code_name-IsPrintable code = ground arith

ruleset prints = (is_line-format, is_line-format_bool, append_assoc)

pub is_line-error_reply : (m : Bytes) → is_line m ≡ true → is_line (error_reply m) ≡ true
unfolding is_line error_reply
is_line-error_reply m h = rw (is_line-append m _ (IsPrintable-is_line m h))

pub is_line-hw_failed_reply : (code : ℕ) → is_line (hw_failed_reply code) ≡ true
unfolding is_line hw_failed_reply
is_line-hw_failed_reply code =
    rw (is_line-append (hw_code_name code) _ (hw_code_name-IsPrintable code)) (simp prints)

pub is_line-range_error : is_line range_error ≡ true
unfolding is_line range_error
is_line-range_error = simp prints

pub is_line-ping_reply : is_line ping_reply ≡ true
unfolding is_line ping_reply name_and_proto
is_line-ping_reply = simp prints

pub is_line-version_reply :
    (c : Counters) (refresh : Bool) (ms : ℕ) → is_line (version_reply c refresh ms) ≡ true
unfolding is_line version_reply name_and_proto mem_cb_fields
is_line-version_reply c refresh ms = simp prints

is_line-name_and_proto : (t : Bytes) → is_line (name_and_proto ++ t) ≡ is_line t
unfolding is_line name_and_proto
is_line-name_and_proto t = simp prints

is_line-mem_cb_fields : (c : Counters) (t : Bytes) → is_line (mem_cb_fields c ++ t) ≡ is_line t
unfolding is_line mem_cb_fields
is_line-mem_cb_fields c t = simp prints

is_line-discon_fields : (c : Counters) (t : Bytes) → is_line (discon_fields c ++ t) ≡ is_line t
unfolding is_line discon_fields
is_line-discon_fields c t = simp prints

is_line-agent_fields :
    (st : State) (t : Bytes)
    → All IsPrintable st.last_name
    → is_line (agent_fields st ++ t) ≡ is_line t
unfolding is_line agent_fields
is_line-agent_fields st t h = simp prints (rw (is_line-append st.last_name _ h) (simp prints))

pub is_line-status_reply :
    (a b c d : Bool) (writes : ℕ) (k : Counters) (st : State)
    → All IsPrintable st.last_name
    → is_line (status_reply a b c d writes k st) ≡ true
unfolding is_line status_reply
is_line-status_reply a b c d writes k st h =
    simp
      (
        is_line-format, is_line-format_bool, is_line-name_and_proto, is_line-mem_cb_fields,
        is_line-discon_fields,
      )
      (rw (is_line-agent_fields st _ h))

pub is_line-event_reply :
    (st : State) → All IsPrintable st.last_name → is_line (event_reply st) ≡ true
unfolding is_line event_reply
is_line-event_reply st h = rw (is_line-append st.last_name _ h) (simp prints)

pub is_line-console_reply :
    (writes text_len : ℕ) (source : Bytes) (c : Counters) (esc : Bytes)
    → All IsPrintable source
    → All IsPrintable esc
    → is_line (console_reply (console_head writes text_len source c) esc) ≡ true
unfolding is_line console_reply console_head
is_line-console_reply writes text_len source c esc hs he =
    simp (is_line-format, append_assoc)
      (rw (is_line-append source _ hs) (simp is_line-mem_cb_fields (rw (is_line-append esc _ he))))

pub is_line-mem_reply :
    (phys len : ℕ) (hex : Bytes) → All IsPrintable hex → is_line (mem_reply phys len hex) ≡ true
unfolding is_line mem_reply
is_line-mem_reply phys len hex h = simp is_line-format (rw (is_line-append hex _ h))

-- A text that a client reads as one line, and that leaves room for its end in `out_len` bytes.
pub record IsAnswer (out_len : ℕ) (s : Bytes) : Type 0 where
  pub printable : All IsPrintable s
  pub fits : length s < out_len

pub snprintf-IsAnswer :
    (out_len : ℕ) (s : Bytes)
    → 0 < out_len
    → is_line s ≡ true
    → IsAnswer out_len (snprintf out_len s)
unfolding snprintf
snprintf-IsAnswer out_len s pos h = record {
  printable = All-take IsPrintable (out_len - 1) s (IsPrintable-is_line s h);
  fits = omega (arith, length-take (out_len - 1) s);
}

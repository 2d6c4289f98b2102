-- ===== src/Protocol/Answers.antt =====
-- Every answer of `qc_protocol_handle` (plugin/protocol.c) is one line.
use qemu_mip.Hypercall.{State}
use qemu_mip.Hypercall.{take_event, snapshot}
use qemu_mip.Mem.{Counters}
use qemu_mip.Prelude.{
  ℕ, ◌<◌, ◌≡◌, refl, Bool, true, false, ◌||◌, not, Option, none, some, Bytes, [], codes, arith,
  snprintf, c_str, ltb, leb, ◌==◌, if◌then◌else◌, length, take, All, Bool-cases, inl, inr, has,
}
use qemu_mip.Protocol.Escape.{
  IsPrintable, json_escape, json_escape_lem, escaped, escaped-IsPrintable,
}
use qemu_mip.Protocol.Fields.{has_cmd, has_refresh_true}
use qemu_mip.Protocol.Framing.{
  is_line, is_line-error_reply, is_line-hw_failed_reply, is_line-range_error, is_line-ping_reply,
  is_line-version_reply, is_line-status_reply, is_line-event_reply, is_line-console_reply,
  is_line-mem_reply, IsAnswer, snprintf-IsAnswer,
}
use qemu_mip.Protocol.Handle.{
  reply_or, console_answer, emit_console, console_of, refreshed, get_console, mem_answer,
  mem_read_into, mem_read_fields, mem_read, agent_event, get_agent_event, version, status, handle,
  esc_size,
}
use qemu_mip.Protocol.Host.{Ctx, Host, Env}
use qemu_mip.Protocol.Print.{hex_encode-IsPrintable}
use qemu_mip.Protocol.Replies.{error_reply, hw_failed_reply, no_event_reply, console_head}
use qemu_mip.Queue.{Status, ok, timeout, hw_fail, busy, disabled, bad_arg, Result, mem_read_max}

abbrev name_of : Option State → Bytes
name_of none = []
name_of (some st) = st.last_name

module _ (n : ℕ) (pos : 0 < n) where
  if-IsAnswer :
      (b : Bool) (x y : Bytes × Host)
      → IsAnswer n x.0
      → IsAnswer n y.0
      → IsAnswer n (if b then x else y).0
  if-IsAnswer true x y p q = p
  if-IsAnswer false x y p q = q

  error-IsAnswer : (m : Bytes) → is_line m ≡ true → IsAnswer n (snprintf n (error_reply m))
  error-IsAnswer m h = snprintf-IsAnswer n (error_reply m) pos (is_line-error_reply m h)

  hw_failed-IsAnswer : (code : ℕ) → IsAnswer n (snprintf n (hw_failed_reply code))
  hw_failed-IsAnswer code = snprintf-IsAnswer n _ pos (is_line-hw_failed_reply code)

  reply_or-IsAnswer :
      (m text : Bytes) → is_line m ≡ true → is_line text ≡ true → IsAnswer n (reply_or n m text)
  unfolding reply_or
  reply_or-IsAnswer m text hm ht = elim (Bool-cases (leb n (length text))) [
    | inl e ↦ rw e (error-IsAnswer m hm)
    | inr e ↦ rw e (snprintf-IsAnswer n text pos ht)
  ]

  console_answer-IsAnswer :
      (writes text_len : ℕ) (source : Bytes) (c : Counters) (text : Bytes)
      → All IsPrintable source
      → IsAnswer n
          (console_answer n (console_head writes text_len source c) (json_escape text esc_size))
  unfolding console_answer is_line
  console_answer-IsAnswer writes text_len source c text hs =
      elim (Bool-cases (ltb (length (escaped (c_str text))) esc_size)) [
        | inl e ↦
            rw (json_escape_lem text esc_size, e)
              (reply_or-IsAnswer _ _ refl (
                is_line-console_reply writes text_len source c _ hs
                  (escaped-IsPrintable (c_str text))))
        | inr e ↦ rw (json_escape_lem text esc_size, e) (error-IsAnswer _ refl)
      ]

  console_of-IsAnswer :
      (source : Bytes) (h : Host) → All IsPrintable source → IsAnswer n (console_of n source h).0
  unfolding console_of emit_console
  console_of-IsAnswer source h hs = console_answer-IsAnswer _ _ source h.counters _ hs

  refreshed-IsAnswer : (st : Status) (code : ℕ) (h : Host) → IsAnswer n (refreshed n st code h).0
  unfolding refreshed is_line
  refreshed-IsAnswer timeout code h = error-IsAnswer _ refl
  refreshed-IsAnswer busy code h = error-IsAnswer _ refl
  refreshed-IsAnswer hw_fail code h = hw_failed-IsAnswer code
  refreshed-IsAnswer ok code h = console_of-IsAnswer _ h (omega arith)
  refreshed-IsAnswer disabled code h = error-IsAnswer _ refl
  refreshed-IsAnswer bad_arg code h = error-IsAnswer _ refl

  get_console-IsAnswer :
      (line : Bytes) (ctx : Ctx) (env : Env) (h : Host)
      → IsAnswer n (get_console n line ctx env h).0
  unfolding get_console is_line
  get_console-IsAnswer line ctx env h = if-IsAnswer (not ctx.has_vga) _ _ (error-IsAnswer _ refl) (
      if-IsAnswer (has_refresh_true line) _ _
        (if-IsAnswer (not ctx.vga_refresh_enabled || not ctx.has_queue) _ _ (error-IsAnswer _ refl)
          (refreshed-IsAnswer _ _ _))
        (console_of-IsAnswer _ h (omega arith)))

  mem_answer-IsAnswer :
      (phys : ℕ) (hex_ok : Bool) (buf : Bytes) (r : Result) (st : Status)
      → IsAnswer n (mem_answer n phys hex_ok buf r st)
  unfolding mem_answer is_line
  mem_answer-IsAnswer phys hex_ok buf r timeout = error-IsAnswer _ refl
  mem_answer-IsAnswer phys hex_ok buf r busy = error-IsAnswer _ refl
  mem_answer-IsAnswer phys hex_ok buf r hw_fail = hw_failed-IsAnswer r.hw_code
  mem_answer-IsAnswer phys hex_ok buf r disabled = hw_failed-IsAnswer r.hw_code
  mem_answer-IsAnswer phys hex_ok buf r bad_arg = hw_failed-IsAnswer r.hw_code
  mem_answer-IsAnswer phys false buf r ok = error-IsAnswer _ refl
  mem_answer-IsAnswer phys true buf r ok =
      reply_or-IsAnswer _ _ refl
        (is_line-mem_reply phys r.data_len _ (hex_encode-IsPrintable (take r.data_len buf) _))

  mem_read_into-IsAnswer :
      (phys len : ℕ) (env : Env) (buf : Option (ℕ × Bytes)) (h : Host)
      → IsAnswer n (mem_read_into n phys len env buf h).0
  unfolding mem_read_into is_line
  mem_read_into-IsAnswer phys len env none h = error-IsAnswer _ refl
  mem_read_into-IsAnswer phys len env (some (b, junk)) h = mem_answer-IsAnswer phys env.hex_ok _ _ _

  mem_read_fields-IsAnswer :
      (env : Env) (phys len : Option ℕ) (h : Host) → IsAnswer n (mem_read_fields n env phys len h).0
  unfolding mem_read_fields is_line
  mem_read_fields-IsAnswer env none len h = error-IsAnswer _ refl
  mem_read_fields-IsAnswer env (some phys) none h = error-IsAnswer _ refl
  mem_read_fields-IsAnswer env (some phys) (some len) h =
      if-IsAnswer (len == 0 || ltb mem_read_max len) _ _ (error-IsAnswer _ is_line-range_error)
        (mem_read_into-IsAnswer phys len env env.buf h)

  mem_read-IsAnswer :
      (line : Bytes) (ctx : Ctx) (env : Env) (h : Host) → IsAnswer n (mem_read n line ctx env h).0
  unfolding mem_read is_line
  mem_read-IsAnswer line ctx env h =
      if-IsAnswer (not ctx.has_queue) _ _ (error-IsAnswer _ refl)
        (mem_read_fields-IsAnswer env _ _ h)

  get_agent_event-IsAnswer :
      (h : Host) → All IsPrintable h.hc.st.last_name → IsAnswer n (get_agent_event n h).0
  unfolding get_agent_event take_event agent_event is_line no_event_reply
  get_agent_event-IsAnswer h hn = elim (Bool-cases h.hc.st.have_event) [
    | inl e ↦ simp e (snprintf-IsAnswer n _ pos (is_line-event_reply h.hc.st hn))
    | inr e ↦ simp e (snprintf-IsAnswer n _ pos refl)
  ]

  -- Whatever the request, the flags, the schedule and the state, with an event name of printable
  -- characters, the answer has no control character, so neither a line feed nor a NUL, and it fits the
  -- buffer with its end.
  pub handle-IsAnswer :
      (line : Bytes) (ctx : Ctx) (env : Env) (h : Host)
      → All IsPrintable h.hc.st.last_name
      → IsAnswer n (handle n line ctx env h).0
  unfolding handle is_line version status snapshot
  handle-IsAnswer line ctx env h hn =
      let nonzero : (n == 0) ≡ false = ground arith in
      rw nonzero (
        if-IsAnswer (length line == 0) _ _ (error-IsAnswer _ refl) (
          if-IsAnswer (has_cmd line (codes "ping") || has line (codes "\"ping\"")) _ _
            (snprintf-IsAnswer n _ pos is_line-ping_reply)
            (if-IsAnswer (has_cmd line (codes "version")) _ _
              (snprintf-IsAnswer n _ pos (is_line-version_reply _ _ _))
              (if-IsAnswer (has_cmd line (codes "status")) _ _
                (snprintf-IsAnswer n _ pos (is_line-status_reply _ _ _ _ _ _ _ hn))
                (if-IsAnswer (has_cmd line (codes "get_agent_event")) _ _
                  (get_agent_event-IsAnswer h hn)
                  (if-IsAnswer (has_cmd line (codes "get_console")) _ _
                    (get_console-IsAnswer line ctx env h)
                    (if-IsAnswer (has_cmd line (codes "mem_read")) _ _
                      (mem_read-IsAnswer line ctx env h) (error-IsAnswer _ refl))))))))

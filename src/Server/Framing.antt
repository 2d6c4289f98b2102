-- ===== src/Server/Framing.antt =====
-- The framing of plugin/server.c.
use qemu_mip.Prelude.{
  ℕ, ◌+◌, ◌≤◌, ◌<◌, ◌≡◌, ◌≢◌, refl, sym, ◌∙◌, ap, Bool, true, false, List, [], ◌∷◌, ◌++◌,
  append-nil, append_assoc, Bytes, arith, leb, ◌==◌, if◌then◌else◌, length, length-append, All,
  Bool-cases, inl, inr,
}
use qemu_mip.Server.{
  Server, max_line, connected, close_client, strip_end, handle_complete_line, feed_client_bytes,
}

-- no line feed
abbrev pub InLine : ℕ → Type 0
InLine c = c ≢ b'\n'

pub strip_end-eq : (w : Bytes) → All InLine w → All (λ c. c ≢ b'\r') w → strip_end w ≡ w
unfolding strip_end
strip_end-eq [] q r = refl
strip_end-eq (c ∷ w) q r = ground (arith, strip_end-eq w q.1 r.1)

module _ {H : Type 0} (respond : Bytes → H → Bytes × H) (send : Bytes → H → Bool × H) where
  abbrev feed : Bytes → Server → H → Server × H
  feed = feed_client_bytes respond send

  -- However the bytes of a client are cut into reads, the server does the same: feeding two pieces
  -- one after the other, the second only if the client is still there, is feeding them joined.
  pub feed_client_bytes-append :
      (a b : Bytes) (s : Server) (h : H)
      → connected s ≡ true
      → feed_client_bytes respond send (a ++ b) s h ≡ (
          let t = feed_client_bytes respond send a s h in
          if connected t.0 then feed_client_bytes respond send b t.0 t.1 else t)
  unfolding feed_client_bytes
  feed_client_bytes-append [] b s h c = rw c
  feed_client_bytes-append (x ∷ a) b s h c =
      let done = handle_complete_line respond send s h in
      elim (Bool-cases (x == b'\n')) [
        | inl e ↦ rw e (elim (Bool-cases (connected done.0)) [
          | inl d ↦ rw d (feed_client_bytes-append a b done.0 done.1 d)
          | inr d ↦ rw d (rw d)
        ])
        | inr e ↦ rw e (elim (Bool-cases (leb max_line (length s.line))) [
          | inl o ↦ rw o refl
          | inr o ↦ rw o (feed_client_bytes-append a b (record s { line = s.line ++ x ∷ [] }) h c)
        ])
      ]

  -- Bytes without a line feed that still fit are kept.
  feed-part :
      (w rest : Bytes) (s : Server) (h : H)
      → All InLine w
      → length s.line + length w ≤ max_line
      → feed (w ++ rest) s h ≡ feed rest (record s { line = s.line ++ w }) h
  unfolding feed_client_bytes
  feed-part [] rest s h q fits =
      ap (λ l. feed rest (record s { line = l }) h) (sym (append-nil s.line))
  feed-part (x ∷ w) rest s h q fits =
      let next = record s { line = s.line ++ x ∷ [] } in
      let fits' : length (s.line ++ x ∷ []) + length w ≤ max_line =
        omega (arith, length-append s.line (x ∷ [])) in
      let plain : (x == b'\n') ≡ false = ground arith in
      let room : leb max_line (length s.line) ≡ false = ground arith in
      rw (plain, room)
        (feed-part w rest next h q.1 fits'
          ∙ ap (λ l. feed rest (record s { line = l }) h) (append_assoc s.line (x ∷ []) w))

  feed-line :
      (w rest : Bytes) (s : Server) (h : H)
      → s.line ≡ []
      → All InLine w
      → length w ≤ max_line
      → feed (w ++ b'\n' ∷ rest) s h ≡ (
          let t = handle_complete_line respond send (record s { line = w }) h in
          if connected t.0 then feed rest t.0 t.1 else t)
  unfolding feed_client_bytes
  feed-line w rest s h empty q fits =
      feed-part w (b'\n' ∷ rest) s h q (ground arith)
      ∙ ap (λ l. feed (b'\n' ∷ rest) (record s { line = l ++ w }) h) empty

  -- the requests of a client, each answered in turn while the client is there
  unfoldable pub serve : List Bytes → Server → H → Server × H
  serve [] s h = (s, h)
  serve (w ∷ ws) s h =
      let t = handle_complete_line respond send (record s { line = w }) h in
      let rest = serve ws t.0 t.1 in if connected t.0 then rest else t

  -- what the client sends for these requests
  abbrev pub sent_lines : List Bytes → Bytes
  sent_lines [] = []
  sent_lines (w ∷ ws) = w ++ b'\n' ∷ sent_lines ws

  line-handle_complete_line :
      (s : Server) (h : H) → (handle_complete_line respond send s h).0.line ≡ []
  unfolding handle_complete_line
  line-handle_complete_line s h = ground arith

  abbrev pub IsRequest : Bytes → Type 0
  IsRequest w = All InLine w × (length w < max_line)

  -- A client that sends requests of at most 8191 bytes, each with a line feed behind it, has each
  -- handled once and in order, until sending an answer fails; nothing is left in the buffer.
  pub feed_client_bytes-serve :
      (ws : List Bytes) (s : Server) (h : H)
      → s.line ≡ []
      → All IsRequest ws
      → feed_client_bytes respond send (sent_lines ws) s h ≡ serve ws s h
  unfolding serve
  feed_client_bytes-serve [] s h empty q = unfold feed_client_bytes in refl
  feed_client_bytes-serve (w ∷ ws) s h empty q =
      let t = handle_complete_line respond send (record s { line = w }) h in
      let rest =
        feed_client_bytes-serve ws t.0 t.1 (line-handle_complete_line (record s { line = w }) h)
          q.1 in
      feed-line w (sent_lines ws) s h empty q.0.0 (omega (arith, q.0.1))
      ∙ ap (λ r. if connected t.0 then r else t) rest

  feed-overlong :
      (w : Bytes) (s : Server) (h : H)
      → All InLine w
      → length s.line ≤ max_line
      → max_line < length s.line + length w
      → feed_client_bytes respond send w s h ≡ (close_client s, h)
  unfolding feed_client_bytes close_client
  feed-overlong [] s h q small long = absurd (omega arith)
  feed-overlong (x ∷ w) s h q small long =
      let next = record s { line = s.line ++ x ∷ [] } in
      let plain : (x == b'\n') ≡ false = ground arith in
      elim (Bool-cases (leb max_line (length s.line))) [
        | inl o ↦ rw (plain, o) refl
        | inr o ↦
            let room : length s.line < max_line = ground arith in
            let grown = length-append s.line (x ∷ []) in
            rw (plain, o) (feed-overlong w next h q.1 (omega (arith, grown)) (omega (arith, grown)))
      ]

  -- More than 8192 bytes without a line feed end the connection; nothing of them is handled.
  pub feed_client_bytes_overlong :
      (w : Bytes) (s : Server) (h : H)
      → s.line ≡ []
      → All InLine w
      → max_line < length w
      → feed_client_bytes respond send w s h ≡ (close_client s, h)
  feed_client_bytes_overlong w s h empty q long =
      let none_yet = ap length empty in
      feed-overlong w s h q (omega (arith, none_yet)) (omega (arith, none_yet))

  -- The bytes of a request are kept within the buffer, whatever a client sends: `line_len` stays at
  -- most 8192, and each byte is written below that index.
  pub length-feed_client_bytes :
      (w : Bytes) (s : Server) (h : H)
      → length s.line ≤ max_line
      → length (feed_client_bytes respond send w s h).0.line ≤ max_line
  unfolding feed_client_bytes close_client
  length-feed_client_bytes [] s h small = small
  length-feed_client_bytes (x ∷ w) s h small =
      let done = handle_complete_line respond send s h in
      let emptied = ap length (line-handle_complete_line s h) in
      ground (
        arith,
        emptied,
        length-feed_client_bytes w done.0 done.1,
        length-append s.line (x ∷ []),
        length-feed_client_bytes w (record s { line = s.line ++ x ∷ [] }) h,
      )

  -- A request of 8192 bytes with no carriage return is accepted whole, and the index at which its NUL
  -- will be written is then the size of the buffer: one past its end.
  pub full_line_overruns :
      (w : Bytes) (s : Server) (h : H)
      → s.line ≡ []
      → All InLine w
      → All (λ c. c ≢ b'\r') w
      → length w ≡ max_line
      → let t = feed_client_bytes respond send w s h in
        (t ≡ (record s { line = w }, h)) × (length (strip_end t.0.line) ≡ max_line)
  unfolding feed_client_bytes
  full_line_overruns w s h empty q no_cr full =
      let kept : feed_client_bytes respond send w s h ≡ (record s { line = w }, h) =
        ap (λ l. feed_client_bytes respond send l s h) (sym (append-nil w))
        ∙ feed-part w [] s h q (omega (arith, ap length empty))
        ∙ ap (λ l. let r : Server × H = (record s { line = l ++ w }, h) in r) empty in
      (kept, rw kept (rw (strip_end-eq w q no_cr) full))

-- ===== src/Cli/Exchange.antt =====
-- The client of cli/main.c at the server of plugin/server.c: one request, from the line that the client
-- writes to what it prints.
use qemu_mip.Cli.Request.{
  ends_line, Connections, Read, exchange_on, answer_of, report, Piece, has_line_feed, request_line,
  request_buf, plugin_request, printed, request, pieces, reads, stops, stops-line, IsWhole,
  read_answer-pieces,
}
use qemu_mip.Prelude.{
  ℕ, ◌+◌, ◌<◌, ◌≤◌, ◌≡◌, ◌≢◌, refl, ◌∙◌, ap, Bool, true, false, Option, some, List, [], ◌∷◌, ◌++◌,
  Bytes, arith, c_str, ltb, length, length-append, All, All-map, Bool-cases, inl, inr,
  take-eq_of_length-le,
}
use qemu_mip.Protocol.Console.{resp_max}
use qemu_mip.Protocol.Escape.{IsPrintable, c_str-printable, c_str-IsPrintable}
use qemu_mip.Protocol.Answers.{handle-IsAnswer}
use qemu_mip.Protocol.Framing.{IsAnswer}
use qemu_mip.Protocol.Handle.{handle}
use qemu_mip.Protocol.Host.{Ctx, Env, Host}
use qemu_mip.Server.{Server, terminated, handle_complete_line, feed_client_bytes}
use qemu_mip.Server.Framing.{InLine, strip_end-eq, serve, feed_client_bytes-serve}

has_line_feed-line : (w : Bytes) → All InLine w → has_line_feed w ≡ false
unfolding has_line_feed
has_line_feed-line [] h = refl
has_line_feed-line (c ∷ w) h = ground (arith, has_line_feed-line w h.1)

has_line_feed-end : (w t : Bytes) → has_line_feed (w ++ b'\n' ∷ t) ≡ true
unfolding has_line_feed
has_line_feed-end [] t = refl
has_line_feed-end (c ∷ w) t = ground (arith, has_line_feed-end w t)

nil_behind : (a b : Bytes) → a ++ b ≡ [] → b ≡ []
nil_behind [] b e = e
nil_behind (x ∷ a) b e = absurd cc

-- what stands in front of a line feed that ends a line is without one
line_feed_last :
    (a b w : Bytes) → All InLine w → a ++ b ≡ w ++ b'\n' ∷ [] → has_line_feed a ≡ true → b ≡ []
unfolding has_line_feed
line_feed_last [] b w h e f = absurd cc
line_feed_last (x ∷ a) b [] h e f = let rest : a ++ b ≡ [] = cc in nil_behind a b rest
line_feed_last (x ∷ a) b (y ∷ w) h e f =
    let same : x ≡ y = cc in
    let rest : a ++ b ≡ w ++ b'\n' ∷ [] = cc in
    let later : has_line_feed a ≡ true = ground (arith, f, same, h.0) in
    line_feed_last a b w h.1 rest later

no_line_feed_before : (a b w : Bytes) → All InLine w → a ++ b ≡ w → has_line_feed a ≡ false
unfolding has_line_feed
no_line_feed_before [] b w h e = refl
no_line_feed_before (x ∷ a) b [] h e = absurd cc
no_line_feed_before (x ∷ a) b (y ∷ w) h e =
    let same : x ≡ y = cc in
    let rest : a ++ b ≡ w = cc in ground (arith, same, h.0, no_line_feed_before a b w h.1 rest)

IsPrintable-InLine : (w : Bytes) → All IsPrintable w → All InLine w
IsPrintable-InLine w h = All-map {P = IsPrintable} {Q = InLine} (λ c p. omega arith) w h

length-nil : (a b : Bytes) (n : ℕ) → length (a ++ b) < n → n ≤ length a + 1 → b ≡ []
length-nil a [] n small full = refl
length-nil a (c ∷ b) n small full = absurd (omega (arith, length-append a (c ∷ b)))

full-IsWhole : (n : ℕ) (w : Bytes) → All InLine w → length w + 1 ≡ n → IsWhole n w
full-IsWhole n w h full = record {
  at_end = unfold stops in ground (arith, full);
  not_before = λ a b e f.
      let clear = no_line_feed_before a b w h e in
      let full_before : n ≤ length a + 1 = unfold stops in ground (arith, clear, f) in
      length-nil a b n (omega (arith, ap length e, full)) full_before;
  room = omega (arith, full);
}

line-IsWhole : (n : ℕ) (w : Bytes) → All InLine w → length w + 1 < n → IsWhole n (w ++ b'\n' ∷ [])
line-IsWhole n w h fits = record {
  at_end = stops-line n (w ++ b'\n' ∷ []) (has_line_feed-end w []);
  not_before = λ a b e f.
      let whole = length-append w (b'\n' ∷ []) in
      elim (Bool-cases (has_line_feed a)) [
        | inl l ↦ line_feed_last a b w h e l
        | inr l ↦
            let full_before : n ≤ length a + 1 = unfold stops in ground (arith, l, f) in
            length-nil a b n (omega (arith, ap length e, whole, fits)) full_before
      ];
  room = omega (arith, length-append w (b'\n' ∷ []), fits);
}

-- What the server sends for an answer is what a client with a buffer of the server's size reads: up to
-- the line feed, or, where there was no room for it, until the buffer is full.
terminated-IsWhole : (resp : Bytes) → IsAnswer resp_max resp → IsWhole resp_max (terminated resp)
unfolding terminated
terminated-IsWhole resp ok =
    let h = IsPrintable-InLine resp ok.printable in
    elim (Bool-cases (ltb (length resp + 1) resp_max)) [
      | inl e ↦ rw e (line-IsWhole resp_max resp h (ground (arith, e)))
      | inr e ↦ rw e (full-IsWhole resp_max resp h (ground (arith, e, ok.fits)))
    ]

ends_line-end : (w : Bytes) → ends_line (w ++ b'\n' ∷ []) ≡ true
unfolding ends_line
ends_line-end [] = refl
ends_line-end (c ∷ []) = refl
ends_line-end (c ∷ d ∷ w) = ends_line-end (d ∷ w)

ends_line-line : (w : Bytes) → All InLine w → ends_line w ≡ false
unfolding ends_line
ends_line-line [] h = refl
ends_line-line (c ∷ []) h = ground (arith, h.0)
ends_line-line (c ∷ d ∷ w) h = ends_line-line (d ∷ w) h.1

-- with or without the line feed, one is printed
pub printed-terminated :
    (resp : Bytes) → IsAnswer resp_max resp → printed (terminated resp) ≡ resp ++ b'\n' ∷ []
unfolding printed terminated c_str
printed-terminated resp ok = elim (Bool-cases (ltb (length resp + 1) resp_max)) [
  | inl e ↦ rw (e, ends_line-end resp) (c_str-printable resp (b'\n' ∷ []) ok.printable)
  | inr e ↦
      rw (e, ends_line-line resp (IsPrintable-InLine resp ok.printable))
        (ap (λ (w : Bytes). w ++ b'\n' ∷ []) (c_str-IsPrintable resp ok.printable))
]

-- What the server of plugin/server.c sends to a new client that sends these bytes, with the plugin of
-- plugin/protocol.c behind it, where each write to the client succeeds.
module _ (ctx : Ctx) (env : Env) where
  abbrev respond : Bytes → Host × Bytes → Bytes × (Host × Bytes)
  respond line (h, out) = let (a, h') = handle resp_max line ctx env h in (a, (h', out))

  abbrev send : Bytes → Host × Bytes → Bool × (Host × Bytes)
  send text (h, out) = (true, (h, out ++ text))

  unfoldable pub sent : Host → Bytes → Bytes
  sent h bytes =
      (feed_client_bytes respond send bytes (record { client = some 5; line = [] }) (h, [])).1.1

  sent-line :
      (h : Host) (line : Bytes)
      → All IsPrintable line
      → length line < 4095
      → sent h (line ++ b'\n' ∷ []) ≡ terminated (handle resp_max line ctx env h).0
  unfolding sent serve handle_complete_line
  sent-line h line p small =
      let in_line = IsPrintable-InLine line p in
      let no_return = All-map {P = IsPrintable} {Q = λ c. c ≢ b'\r'} (λ c q. omega arith) line p in
      let served =
        feed_client_bytes-serve respond send (line ∷ []) (record { client = some 5; line = [] })
          (h, []) refl ((in_line, omega (arith, small)), tt) in
      ap (λ (r : Server × (Host × Bytes)). r.1.1) served
      ∙ rw (strip_end-eq line in_line no_return, c_str-IsPrintable line p) refl

-- A stream socket: a client that connects to this path and writes is sent these bytes for it, in
-- order, cut into reads in some way, with whatever there is behind them.
pub record Delivers (net : Connections) (path : Bytes) (answer : Bytes → Bytes) : Type 0 where
  pub write : Bytes → Option (List Read)
  pub connected : net path ≡ some write
  pub cut : Bytes → List Piece
  pub behind : Bytes → List Read
  pub delivers : (b : Bytes) → write b ≡ some (reads (cut b) (behind b))
  pub whole : (b : Bytes) → pieces (cut b) ≡ answer b

request_line-eq : (line : Bytes) → length line < 4095 → request_line line ≡ line ++ b'\n' ∷ []
unfolding request_line
request_line-eq line h =
    take-eq_of_length-le 4095 (line ++ b'\n' ∷ []) (omega (arith, length-append line (b'\n' ∷ [])))

-- a request as `request_buf` makes it, and as `plugin_request` does
exchange_on-sent :
    (give_up : Bool) (ctx : Ctx) (env : Env) (h : Host) (net : Connections) (path line : Bytes)
    → Delivers net path (sent ctx env h)
    → All IsPrintable h.hc.st.last_name
    → All IsPrintable line
    → length line < 4095
    → exchange_on give_up resp_max line (net path)
      ≡ some (terminated (handle resp_max line ctx env h).0)
unfolding exchange_on answer_of
exchange_on-sent give_up ctx env h net path line d hn p small =
    let resp = (handle resp_max line ctx env h).0 in
    let ok = handle-IsAnswer resp_max (omega arith) line ctx env h hn in
    let written = line ++ b'\n' ∷ [] in
    let all = d.whole written ∙ sent-line ctx env h line p small in
    rw (d.connected, request_line-eq line small, d.delivers written)
      (read_answer-pieces give_up resp_max (d.cut written) (d.behind written) [] (terminated resp)
        (terminated-IsWhole resp ok) (unfold has_line_feed in refl) all)

pub request_buf-sent :
    (ctx : Ctx) (env : Env) (h : Host) (net : Connections) (path line : Bytes)
    → Delivers net path (sent ctx env h)
    → All IsPrintable h.hc.st.last_name
    → All IsPrintable line
    → length line < 4095
    → request_buf net path line resp_max ≡ some (terminated (handle resp_max line ctx env h).0)
unfolding request_buf
request_buf-sent = exchange_on-sent true

-- A client that sends a request line of at most 4094 printable characters to the server, with an event name of
-- printable characters in the plugin's state and a socket that delivers what the server sends, in any
-- pieces: `request` succeeds and prints exactly the answer that the plugin gives to this line, and a
-- line feed; and `plugin_request` of the sessions and runs has the bytes that the server sent.
pub request-sent :
    (ctx : Ctx) (env : Env) (h : Host) (net : Connections) (path line : Bytes)
    → Delivers net path (sent ctx env h)
    → All IsPrintable h.hc.st.last_name
    → All IsPrintable line
    → length line < 4095
    → let answer = (handle resp_max line ctx env h).0 in
      (request net path line ≡ (0, answer ++ b'\n' ∷ []))
      × (plugin_request net path line resp_max ≡ some (terminated answer))
unfolding request report plugin_request
request-sent ctx env h net path line d hn p small =
    let ok = handle-IsAnswer resp_max (omega arith) line ctx env h hn in
    (
      rw (request_buf-sent ctx env h net path line d hn p small)
          (ap (λ (b : Bytes). (0, b)) (printed-terminated (handle resp_max line ctx env h).0 ok)),
      exchange_on-sent false ctx env h net path line d hn p small,
    )

-- ===== src/Server/Io.antt =====
-- The loops of plugin/server.c around system calls: `write_all`, `try_read_client`, `try_accept`. What
-- the calls return is a list; a list that ends inside a loop stands for a call that has not returned.
use qemu_mip.Prelude.{
  ℕ, zero, suc, ◌≡◌, ◌≢◌, inl, inr, refl, ◌∙◌, ap, Bool, true, false, some, List, [], ◌∷◌, ◌++◌,
  append_assoc, Bytes, if◌then◌else◌, take, drop, Bool-cases,
}
use qemu_mip.Server.Framing.{feed_client_bytes-append}
use qemu_mip.Server.{Server, connected, close_client, feed_client_bytes}

-- `write` of the bytes from `off` on: so many are taken, or EINTR, or EAGAIN with the result of the
-- `poll` that follows, or another error
pub data Written : Type 0 where
  wrote : ℕ → Written
  interrupted : Written
  again : Bool → Written
  failed : Written

pub data Sent : Type 0 where
  all_sent : Sent
  send_failed : Sent
  still_sending : Sent

-- `write_all`, with `buf` the bytes from `off` on: the outcome, and the bytes that the client was sent
unfoldable pub write_all : Bytes → List Written → Sent × Bytes
write_all [] rs = (all_sent, [])
write_all (c ∷ buf) [] = (still_sending, [])
write_all (c ∷ buf) (wrote n ∷ rs) =
    let rest = write_all (drop n (c ∷ buf)) rs in (rest.0, take n (c ∷ buf) ++ rest.1)
write_all (c ∷ buf) (interrupted ∷ rs) = write_all (c ∷ buf) rs
write_all (c ∷ buf) (again ready ∷ rs) =
    let rest = write_all (c ∷ buf) rs in if ready then rest else (send_failed, [])
write_all (c ∷ buf) (failed ∷ rs) = (send_failed, [])

take-append-drop : (n : ℕ) (xs : Bytes) → take n xs ++ drop n xs ≡ xs
take-append-drop zero xs = refl
take-append-drop (suc n) [] = refl
take-append-drop (suc n) (x ∷ xs) = ap (λ (ys : Bytes). x ∷ ys) (take-append-drop n xs)

-- what is left of the answer, for each outcome
abbrev pub Left : Sent → Bytes → Type 0
Left all_sent left = left ≡ []
Left send_failed left = left ≢ []
Left still_sending left = left ≢ []

-- Whatever the calls return, the client has been sent a beginning of the answer, each byte once and
-- in order: the whole of it exactly if `write_all` reports success.
pub write_all_lem :
    (buf : Bytes) (rs : List Written)
    → let (outcome, sent) = write_all buf rs in
      (left : Bytes) × (sent ++ left ≡ buf) × Left outcome left
unfolding write_all
write_all_lem [] rs = ([], refl, refl)
write_all_lem (c ∷ buf) [] = (c ∷ buf, refl, cc)
write_all_lem (c ∷ buf) (wrote n ∷ rs) =
    let (left, whole, kind) = write_all_lem (drop n (c ∷ buf)) rs in
    (
      left,
      append_assoc (take n (c ∷ buf)) (write_all (drop n (c ∷ buf)) rs).1 left
          ∙ ap (λ (ys : Bytes). take n (c ∷ buf) ++ ys) whole
          ∙ take-append-drop n (c ∷ buf),
      kind,
    )
write_all_lem (c ∷ buf) (interrupted ∷ rs) = write_all_lem (c ∷ buf) rs
write_all_lem (c ∷ buf) (again true ∷ rs) = write_all_lem (c ∷ buf) rs
write_all_lem (c ∷ buf) (again false ∷ rs) = (c ∷ buf, refl, cc)
write_all_lem (c ∷ buf) (failed ∷ rs) = (c ∷ buf, refl, cc)

-- `read` from the client: bytes, EINTR, EAGAIN, the end of the stream, or another error
pub data Got : Type 0 where
  got : Bytes → Got
  read_interrupted : Got
  nothing_yet : Got
  closed : Got
  read_failed : Got

-- `accept`: a descriptor, with whether it could be made non-blocking; EINTR; or no connection
pub data Accepted : Type 0 where
  accepted : ℕ → Bool → Accepted
  accept_interrupted : Accepted
  no_connection : Accepted

unfoldable pub try_accept : List Accepted → Server → Server
try_accept [] s = s
try_accept (accepted fd nonblocking ∷ rs) s =
    if nonblocking then record { client = some fd; line = [] } else s
try_accept (accept_interrupted ∷ rs) s = try_accept rs s
try_accept (no_connection ∷ rs) s = s

abbrev pub joined : List Bytes → Bytes
joined [] = []
joined (w ∷ ws) = w ++ joined ws

-- reads that give these pieces, and then find nothing more
abbrev pub reads : List Bytes → List Got
reads [] = nothing_yet ∷ []
reads (w ∷ ws) = got w ∷ reads ws

module _ {H : Type 0} (respond : Bytes → H → Bytes × H) (send : Bytes → H → Bool × H) where
  unfoldable pub try_read_client : List Got → Server → H → Server × H
  unfolding close_client
  try_read_client [] s h = (s, h)
  try_read_client (got w ∷ rs) s h =
      let t = feed_client_bytes respond send w s h in
      let rest = try_read_client rs t.0 t.1 in if connected t.0 then rest else t
  try_read_client (read_interrupted ∷ rs) s h = try_read_client rs s h
  try_read_client (nothing_yet ∷ rs) s h = (s, h)
  try_read_client (closed ∷ rs) s h = (close_client s, h)
  try_read_client (read_failed ∷ rs) s h = (close_client s, h)

  -- What the client sends is handled alike however the kernel cuts it into reads: reading the pieces
  -- until nothing is left is feeding the bytes joined.
  pub try_read_client-joined :
      (ws : List Bytes) (s : Server) (h : H)
      → connected s ≡ true
      → try_read_client (reads ws) s h ≡ feed_client_bytes respond send (joined ws) s h
  unfolding try_read_client
  try_read_client-joined [] s h c = unfold feed_client_bytes in refl
  try_read_client-joined (w ∷ ws) s h c =
      let t = feed_client_bytes respond send w s h in
      rw (feed_client_bytes-append respond send w (joined ws) s h c)
        (elim (Bool-cases (connected t.0)) [
          | inl d ↦ rw d (try_read_client-joined ws t.0 t.1 d)
          | inr d ↦ rw d refl
        ])

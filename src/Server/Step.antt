-- ===== src/Server/Step.antt =====
-- `server_step` of plugin/server.c, on a server that has its listening socket.
use qemu_mip.Prelude.{
  ◌≤◌, Bool, true, false, ◌&&◌, List, [], ◌∷◌, Bytes, if◌then◌else◌, length, arith, Bool-cases, inl,
  inr,
}
use qemu_mip.Server.{Server, max_line, connected, close_client, feed_client_bytes}
use qemu_mip.Server.Framing.{length-feed_client_bytes}
use qemu_mip.Server.Io.{
  Accepted, accepted, accept_interrupted, no_connection, try_accept, Got, got, read_interrupted,
  nothing_yet, closed, read_failed, try_read_client,
}

-- what `poll` finds: an error, nothing, or whether `revents` has POLLIN for the listening socket, and
-- one of POLLIN, POLLERR and POLLHUP for the client
pub data Polled : Type 0 where
  poll_failed : Polled
  timed_out : Polled
  ready : Bool → Bool → Polled

-- what the system calls of a step return
pub record Calls : Type 0 where
  pub stop : Bool
  pub polled : Polled
  pub accepts : List Accepted
  pub gots : List Got

module _ {H : Type 0} (respond : Bytes → H → Bytes × H) (send : Bytes → H → Bool × H) where
  -- from the result of `poll` on; `had_client` is `nfds > 1`
  unfoldable pub progress : Polled → Bool → List Accepted → List Got → Server → H → Server × H
  progress poll_failed had_client accepts gots s h = (s, h)
  progress timed_out had_client accepts gots s h = (s, h)
  progress (ready listen_in client_in) had_client accepts gots s h =
      let t = if listen_in then try_accept accepts s else s in
      if had_client && connected t && client_in
      then try_read_client respond send gots t h
      else (t, h)

  unfoldable pub server_step : Calls → Server → H → Server × H
  unfolding progress
  server_step c s h =
      if c.stop then (s, h) else progress c.polled (connected s) c.accepts c.gots s h

  -- the loop of the server's thread, or one call of `qc_server_poll` after the other
  unfoldable pub server_steps : List Calls → Server → H → Server × H
  server_steps [] s h = (s, h)
  server_steps (c ∷ cs) s h = let t = server_step c s h in server_steps cs t.0 t.1

  length-try_read_client :
      (gots : List Got) (s : Server) (h : H)
      → length s.line ≤ max_line
      → length (try_read_client respond send gots s h).0.line ≤ max_line
  unfolding try_read_client close_client
  length-try_read_client [] s h small = small
  length-try_read_client (got w ∷ gots) s h small =
      let t = feed_client_bytes respond send w s h in
      let fed = length-feed_client_bytes respond send w s h small in
      elim (Bool-cases (connected t.0)) [
        | inl e ↦ rw e (length-try_read_client gots t.0 t.1 fed)
        | inr e ↦ rw e fed
      ]
  length-try_read_client (read_interrupted ∷ gots) s h small = length-try_read_client gots s h small
  length-try_read_client (nothing_yet ∷ gots) s h small = small
  length-try_read_client (closed ∷ gots) s h small = omega arith
  length-try_read_client (read_failed ∷ gots) s h small = omega arith

  length-try_accept :
      (accepts : List Accepted) (s : Server)
      → length s.line ≤ max_line
      → length (try_accept accepts s).line ≤ max_line
  unfolding try_accept
  length-try_accept [] s small = small
  length-try_accept (accepted fd true ∷ accepts) s small = omega arith
  length-try_accept (accepted fd false ∷ accepts) s small = small
  length-try_accept (accept_interrupted ∷ accepts) s small = length-try_accept accepts s small
  length-try_accept (no_connection ∷ accepts) s small = small

  length-progress :
      (polled : Polled) (had_client : Bool) (accepts : List Accepted) (gots : List Got) (s : Server)
      (h : H)
      → length s.line ≤ max_line
      → length (progress polled had_client accepts gots s h).0.line ≤ max_line
  unfolding progress
  length-progress poll_failed had_client accepts gots s h small = small
  length-progress timed_out had_client accepts gots s h small = small
  length-progress (ready true client_in) had_client accepts gots s h small =
      let t = try_accept accepts s in
      ground (arith, length-try_accept accepts s small, length-try_read_client gots t h)
  length-progress (ready false client_in) had_client accepts gots s h small =
      ground (arith, small, length-try_read_client gots s h)

  -- Whatever the clients send, in whatever pieces, and whatever the system calls return, the bytes of a
  -- request are kept within the 8192 bytes of the line buffer, through any sequence of steps.
  pub length-server_steps :
      (cs : List Calls) (s : Server) (h : H)
      → length s.line ≤ max_line
      → length (server_steps cs s h).0.line ≤ max_line
  unfolding server_steps server_step
  length-server_steps [] s h small = small
  length-server_steps (c ∷ cs) s h small =
      let t = server_step c s h in
      length-server_steps cs t.0 t.1 (elim (Bool-cases c.stop) [
        | inl e ↦ rw e small
        | inr e ↦ rw e (length-progress c.polled (connected s) c.accepts c.gots s h small)
      ])

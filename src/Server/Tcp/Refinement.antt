-- ===== src/Server/Tcp/Refinement.antt =====
-- The server, whatever completes, does to its tables what the room says.
use p2p_watcher.Base.{
  ap, ◌∙◌, ◌≡◌, refl, sym, Bool, true, false, List, [], ◌∷◌, none, some, done, Ensures,
  Ensures-bind, Ensures-done, Ensures-weaken, ℕ,
}
use p2p_watcher.Base.Maps.{find}
use p2p_watcher.Network.{Asio}
use p2p_watcher.Protocol.Wire.{Endian}
use p2p_watcher.Server.Session.{
  Session, Completion, filled, end_of_stream, failed, on_size, on_body,
}
use p2p_watcher.Server.Udp.{UdpManager, broadcast_udp, receive_datagram, receive_failed, on_sent}
use p2p_watcher.Server.Udp.Table.{receive_datagram-Knows, broadcast_udp-Knows}
use p2p_watcher.Server.Tcp.{
  TcpManager, run_session, on_size_read, on_body_read, on_frame_written, start_test, on_timer,
  on_timer_error,
}
use p2p_watcher.Server.Tcp.Same.{Same, on_frame_written-Same}
use p2p_watcher.Server.Tcp.Clients.{has, InStep}
use p2p_watcher.Server.Tcp.Events.{
  Event, accepted, size_read, body_read, datagram, datagram_failed, datagram_sent, frame_written,
  timer_fired, timer_failed, step, run,
}
use p2p_watcher.Server.Tcp.Room.{Room, next_room, run_room, room}
use p2p_watcher.Server.Tcp.Inside.{IsIn, IsIn-Same, run_session-IsIn, ended-IsIn}
use p2p_watcher.Server.Tcp.Entering.{on_accept-IsIn}

module _ (net : Asio) (host : Endian) where
  size_read-IsIn :
      (r : Room) (id : ℕ) (c : Completion) (m : TcpManager net)
      → IsIn r m
      → Ensures
          (IsIn (next_room {net = net} (size_read id c) r))
          (run_session net host id (on_size net host c) m)
  unfolding on_size
  size_read-IsIn r id (filled bytes) m h =
      run_session-IsIn net host r id _ m (λ s. refl) (λ s. tt) h
  size_read-IsIn r id (failed ec bytes) m h =
      run_session-IsIn net host r id _ m (λ s. refl) (λ s. tt) h
  size_read-IsIn r id (end_of_stream bytes) m h = ended-IsIn net host r id bytes m h

  body_read-IsIn :
      (r : Room) (id : ℕ) (c : Completion) (m : TcpManager net)
      → IsIn r m
      → Ensures (IsIn r) (run_session net host id (on_body net host c) m)
  unfolding on_body
  body_read-IsIn r id (filled bytes) m h =
      run_session-IsIn net host r id _ m (λ s. refl) (λ s. (tt, tt)) h
  body_read-IsIn r id (failed ec bytes) m h =
      run_session-IsIn net host r id _ m (λ s. refl) (λ s. (tt, tt)) h
  body_read-IsIn r id (end_of_stream bytes) m h =
      run_session-IsIn net host r id _ m (λ s. refl) (λ s. (tt, tt)) h

  -- What the UDP manager does by itself.
  udp-IsIn :
      (r : Room) (m : TcpManager net) (u : UdpManager net) (timer : Bool)
      → IsIn r m
      → u.cl ≡ m.udp.cl
      → IsIn r (record m { udp = u; timer = timer })
  udp-IsIn r m u timer h e = record {
    tcp = h.tcp;
    udp = λ k. ap (has k) e ∙ h.udp k;
    counter = h.counter;
    own = h.own;
  }

  step-IsIn :
      (event : Event net) (r : Room) (m : TcpManager net)
      → IsIn r m
      → Ensures (IsIn (next_room event r)) (step net host event m)
  unfolding step on_size_read on_body_read on_timer on_timer_error receive_failed start_test on_sent
  step-IsIn (accepted none) r m h = on_accept-IsIn net host r none m h
  step-IsIn (accepted (some (socket, none))) r m h =
      on_accept-IsIn net host r (some (socket, none)) m h
  step-IsIn (accepted (some (socket, some i))) r m h =
      on_accept-IsIn net host r (some (socket, some i)) m h
  step-IsIn (size_read id (filled bytes)) r m h = size_read-IsIn r id (filled bytes) m h
  step-IsIn (size_read id (failed ec bytes)) r m h = size_read-IsIn r id (failed ec bytes) m h
  step-IsIn (size_read id (end_of_stream bytes)) r m h =
      size_read-IsIn r id (end_of_stream bytes) m h
  step-IsIn (body_read id c) r m h = body_read-IsIn r id c m h
  step-IsIn (datagram bytes) r m h =
      Ensures-bind (λ u. u.cl ≡ m.udp.cl) (IsIn r) (receive_datagram net host bytes m.udp) _
        (receive_datagram-Knows net host m.udp.cl bytes m.udp refl)
        (λ u e. Ensures-done (IsIn r) (udp-IsIn r m u m.timer h e))
  step-IsIn (datagram_failed ec) r m h = Ensures-done (IsIn r) (udp-IsIn r m _ m.timer h refl)
  step-IsIn (datagram_sent none) r m h = Ensures-done (IsIn r) (udp-IsIn r m _ m.timer h refl)
  step-IsIn (datagram_sent (some ec)) r m h = Ensures-done (IsIn r) (udp-IsIn r m _ m.timer h refl)
  step-IsIn (frame_written ec n) r m h =
      Ensures-weaken (Same m) (IsIn r) (on_frame_written net host ec n m)
        (λ m' same. IsIn-Same net host r m m' h same) (on_frame_written-Same net host ec n m)
  step-IsIn (timer_fired time) r m h =
      Ensures-bind (λ u. u.cl ≡ m.udp.cl) (IsIn r) (broadcast_udp net host _ _ m.udp) _
        (broadcast_udp-Knows net host m.udp.cl _ _ m.udp refl)
        (λ u e. Ensures-done (IsIn r) (udp-IsIn r m u true h e))
  step-IsIn (timer_failed ec) r m h = Ensures-done (IsIn r) (udp-IsIn r m _ false h refl)

  pub run-IsIn :
      (events : List (Event net)) (r : Room) (m : TcpManager net)
      → IsIn r m
      → Ensures (IsIn (run_room events r)) (run net host events m)
  unfolding run
  run-IsIn [] r m h = Ensures-done (IsIn r) h
  run-IsIn (event ∷ events) r m h =
      Ensures-bind (IsIn (next_room event r)) (IsIn (run_room events (next_room event r)))
        (step net host event m) (run net host events) (step-IsIn event r m h)
        (run-IsIn events (next_room event r))

  pub room-IsIn :
      (m : TcpManager net)
      → InStep net m
      → ((k : ℕ) (s : Session net) → find k m.cl ≡ some s → s.cur_client_id ≡ k)
      → IsIn (room m) m
  room-IsIn m h own = record { tcp = λ k. refl; udp = λ k. sym (h k); counter = refl; own = own }

  -- A server whose two tables agree, and whose sessions have the ids that they stand under, keeps
  -- both, and its room is what the room says of the same events: whatever completes, and in
  -- whatever order, if no handler throws or meets undefined behaviour.
  pub run-refines :
      (events : List (Event net)) (m m' : TcpManager net)
      → InStep net m
      → ((k : ℕ) (s : Session net) → find k m.cl ≡ some s → s.cur_client_id ≡ k)
      → run net host events m ≡ done m'
      → IsIn (run_room events (room m)) m'
  run-refines events m m' h own e = (run-IsIn events (room m) m (room-IsIn m h own)).result m' e

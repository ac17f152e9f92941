-- ===== src/Server/Tcp/Events.antt =====
-- The server as its event loop drives it: whatever completes next, its handler runs.
use p2p_watcher.Base.{
  ℕ, ◌≡◌, refl, ◌∙◌, ap, sym, true, false, List, [], ◌∷◌, Option, none, some, Ensures-weaken,
  Outcome, done, ◌>>=◌, if◌then◌else◌, ◌==◌, Ensures, Ensures-bind, Ensures-done, arith,
}
use p2p_watcher.Base.Maps.{find, assign}
use p2p_watcher.Network.{Asio}
use p2p_watcher.Protocol.Wire.{Endian}
use p2p_watcher.Console.{literal}
use p2p_watcher.Server.Logger.{error}
use p2p_watcher.Server.Session.{Session, Completion, end_of_stream, on_size, on_body}
use p2p_watcher.Server.Udp.{
  ClientInfo, receive_datagram, receive_failed, on_sent, broadcast_udp, remove_client_udp,
}
use p2p_watcher.Server.Tcp.{
  TcpManager, writes, on_signal, on_signals, run_session, remove_client, on_accept, on_size_read,
  on_body_read, on_frame_written, on_timer, on_timer_error, start_test,
}
use p2p_watcher.Server.Tcp.Same.{Same, on_frame_written-Same}
use p2p_watcher.Server.Tcp.Clients.{
  Same-InStep, has, has-remove_client, has-remove_client_udp, udp-remove_client, has-assign, InStep,
  run_session-InStep, on_accept-InStep,
}
use p2p_watcher.Server.Udp.Table.{receive_datagram-Knows, broadcast_udp-Knows}

-- The completions of the pending operations.
pub data Event (net : Asio) : Type 0 where
  accepted : Option (net.Socket × Option ClientInfo) → Event net
  size_read : ℕ → Completion → Event net
  body_read : ℕ → Completion → Event net
  datagram : List ℕ → Event net
  datagram_failed : ℕ → Event net
  datagram_sent : Option ℕ → Event net
  frame_written : Option ℕ → ℕ → Event net
  timer_fired : List ℕ → Event net
  timer_failed : ℕ → Event net

module _ (net : Asio) (host : Endian) where
  unfoldable pub step : Event net → TcpManager net → Outcome (TcpManager net)
  step (accepted a) m = on_accept net host a m
  step (size_read id c) m = on_size_read net host id c m
  step (body_read id c) m = on_body_read net host id c m
  step (datagram bytes) m =
      receive_datagram net host bytes m.udp >>= λ udp. done (record m { udp = udp })
  step (datagram_failed ec) m = done (record m { udp = receive_failed net ec m.udp })
  step (datagram_sent ec) m = done (record m { udp = on_sent net ec m.udp })
  step (frame_written ec n) m = on_frame_written net host ec n m
  step (timer_fired time) m = on_timer net host time m
  step (timer_failed ec) m = done (on_timer_error net host ec m)

  unfoldable pub run : List (Event net) → TcpManager net → Outcome (TcpManager net)
  run [] m = done m
  run (event ∷ events) m = step event m >>= run events

  step-InStep :
      (event : Event net) (m : TcpManager net) → InStep net m → Ensures (InStep net) (step event m)
  unfolding step on_size_read on_body_read on_timer on_timer_error receive_failed start_test on_sent
  step-InStep (accepted a) m h = on_accept-InStep net host a m h
  step-InStep (size_read id c) m h = run_session-InStep net host id (on_size net host c) m h
  step-InStep (body_read id c) m h = run_session-InStep net host id (on_body net host c) m h
  step-InStep (datagram bytes) m h =
      Ensures-bind (λ u. u.cl ≡ m.udp.cl) (InStep net) (receive_datagram net host bytes m.udp) _
        (receive_datagram-Knows net host m.udp.cl bytes m.udp refl)
        (λ u e.
          Ensures-done (InStep net) {a = record m { udp = u }} (λ k. h k ∙ ap (has k) (sym e)))
  step-InStep (datagram_failed ec) m h = Ensures-done (InStep net) h
  step-InStep (datagram_sent none) m h = Ensures-done (InStep net) h
  step-InStep (datagram_sent (some ec)) m h = Ensures-done (InStep net) h
  step-InStep (frame_written ec n) m h =
      Ensures-weaken (Same m) (InStep net) (on_frame_written net host ec n m)
        (λ m' same. Same-InStep net host h same) (on_frame_written-Same net host ec n m)
  step-InStep (timer_fired time) m h =
      Ensures-bind (λ u. u.cl ≡ m.udp.cl) (InStep net) (broadcast_udp net host _ _ m.udp) _
        (broadcast_udp-Knows net host m.udp.cl _ _ m.udp refl)
        (λ u e.
          Ensures-done (InStep net) {a = record m { timer = true; udp = u }}
            (λ k. h k ∙ ap (has k) (sym e)))
  step-InStep (timer_failed ec) m h = Ensures-done (InStep net) h

  run-Ensures :
      (events : List (Event net)) (m : TcpManager net)
      → InStep net m
      → Ensures (InStep net) (run events m)
  unfolding run
  run-Ensures [] m h = Ensures-done (InStep net) h
  run-Ensures (event ∷ events) m h =
      Ensures-bind (InStep net) (InStep net) (step event m) (run events) (step-InStep event m h)
        (run-Ensures events)

  -- Whatever completes and in whatever order, accepts, reads, errors, datagrams and timers: as
  -- long as no handler throws or meets undefined behaviour, the TCP and the UDP table hold the
  -- same clients, if they did so before.
  pub run-InStep :
      (events : List (Event net)) (m m' : TcpManager net)
      → InStep net m
      → run events m ≡ done m'
      → InStep net m'
  run-InStep events m m' h e = (run-Ensures events m h).result m' e

  abbrev ended : ℕ → Session net → List ℕ → TcpManager net → TcpManager net
  ended id s bytes m = record m {
    cl = assign id (on_size net host (end_of_stream bytes) s).0 m.cl;
    udp = remove_client_udp net id m.udp;
  }

  has-ended :
      (id k : ℕ) (s' : Session net) (m : TcpManager net)
      → has k (remove_client net id (record m { cl = assign id s' m.cl })).cl
        ≡ (if id == k then false else has k m.cl)
  has-ended id k s' m = ground (
    arith,
    has-remove_client net id k (record m { cl = assign id s' m.cl }),
    has-assign id k s' m.cl,
  )

  -- When a client closes its connection between two frames, it leaves both tables, and every
  -- other client stays. The session has the id that it stands under in the table.
  pub end_of_stream-removes :
      (id : ℕ) (s : Session net) (bytes : List ℕ) (m : TcpManager net)
      → find id m.cl ≡ some s
      → s.cur_client_id ≡ id
      → (m' : TcpManager net) × (step (size_read id (end_of_stream bytes)) m ≡ done m')
        × ((k : ℕ) → has k m'.cl ≡ (if id == k then false else has k m.cl))
        × ((k : ℕ) → has k m'.udp.cl ≡ (if id == k then false else has k m.udp.cl))
  unfolding step on_size_read run_session on_size on_signals on_signal
  end_of_stream-removes id s bytes m e own =
      let last : TcpManager net = ended id s bytes m in
      (
        writes net error (literal "!disconnected!") (remove_client net id last),
        rw (e, run_session, own) refl,
        λ k. has-ended id k _ (record m { udp = last.udp }),
        λ k. ap (has k) (udp-remove_client net id last) ∙ has-remove_client_udp net id k m.udp,
      )

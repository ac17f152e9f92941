-- ===== src/Server/Tcp/Buffer.antt =====
-- Whatever completes, the server's receive buffer keeps its size and its UDP socket stays open.
use p2p_watcher.Base.{
  ℕ, ap, ◌∙◌, List, [], ◌∷◌, length, Option, none, some, Option-cases, inl, inr, Ensures,
  Ensures-bind, Ensures-done, Ensures-fault, Ensures-weaken, arith, ◌+◌, false, true,
}
use p2p_watcher.Base.Maps.{find, assign}
use p2p_watcher.Network.{Asio, IsAsio}
use p2p_watcher.Console.{with_number}
use p2p_watcher.Server.Logger.{info}
use p2p_watcher.Protocol.Wire.{Endian, u32}
use p2p_watcher.Server.Session.{
  Session, Signal, deleting, process, says, on_size, on_body, new_session,
}
use p2p_watcher.Server.Udp.{
  ClientInfo, broadcast_udp, receive_datagram, receive_failed, on_sent, remove_client_udp,
  create_client_udp,
}
use p2p_watcher.Server.Udp.Table.{
  HoldsUdp, Holds-IsKept, receive_datagram-Keeps, broadcast_udp-Keeps,
}
use p2p_watcher.Server.Tcp.{
  TcpManager, writes, listen_tcp, remove_client, process_tcp, on_signal, on_signals, run_session,
  create_client, on_accept, on_size_read, on_body_read, on_frame_written, start_test, on_timer,
  on_timer_error,
}
use p2p_watcher.Server.Tcp.Same.{Same, process_tcp-Same, on_frame_written-Same}
use p2p_watcher.Server.Tcp.Events.{
  Event, accepted, size_read, body_read, datagram, datagram_failed, datagram_sent, frame_written,
  timer_fired, timer_failed, step, run,
}

module _ (net : Asio) (host : Endian) (size : ℕ) where
  abbrev pub Holds : TcpManager net → Type 0
  Holds m = HoldsUdp net host size m.udp

  Holds-Same : {m m' : TcpManager net} → Holds m → Same m m' → Holds m'
  Holds-Same h same = (ap length same.buffer ∙ h.0, ap net.is_open same.socket ∙ h.1)

  remove-Holds :
      (id : ℕ) (m : TcpManager net)
      → Holds m
      → Holds (remove_client net id (record m { udp = remove_client_udp net id m.udp }))
  unfolding remove_client remove_client_udp
  remove-Holds id m h = ground (arith, h)

  on_signals-Holds :
      (signals : List Signal) (m : TcpManager net)
      → Holds m
      → Ensures Holds (on_signals net host signals m)
  unfolding on_signals on_signal
  on_signals-Holds [] m h = Ensures-done Holds h
  on_signals-Holds (deleting id ∷ signals) m h = on_signals-Holds signals _ (remove-Holds id m h)
  on_signals-Holds (process buf ∷ signals) m h =
      Ensures-bind Holds Holds (process_tcp net host buf m) _
        (Ensures-weaken (Same m) Holds (process_tcp net host buf m) (λ m' same. Holds-Same h same)
          (process_tcp-Same net host buf m))
        (on_signals-Holds signals)
  on_signals-Holds (says mode text ∷ signals) m h =
      on_signals-Holds signals (writes net mode text m) h

  run_session-Holds :
      (id : ℕ) (handler : Session net → Session net × List Signal) (m : TcpManager net)
      → Holds m
      → Ensures Holds (run_session net host id handler m)
  unfolding run_session
  run_session-Holds id handler m h = elim (Option-cases (find id m.cl)) [
    | inl e ↦ rw (e, run_session) (Ensures-fault Holds)
    | inr (s, e) ↦
        rw (e, run_session)
          (on_signals-Holds (handler s).1 (record m { cl = assign id (handler s).0 m.cl }) h)
  ]

  create_client-Holds :
      (id : ℕ) (i : ClientInfo) (m : TcpManager net)
      → Holds m
      → Ensures Holds (create_client net host id i m)
  unfolding create_client
  create_client-Holds id i m h =
      Ensures-bind Holds Holds (run_session net host id _ m) _ (run_session-Holds id _ m h) λ m' h'.
        Ensures-bind Holds Holds (run_session net host id _ m') _ (run_session-Holds id _ m' h')
          (λ m'' h''.
            Ensures-done Holds
              {a = writes net info (with_number "AsioTcpManager->createClient, id:" id) m''} h'')

  listen-Holds : (m : TcpManager net) → Holds m → Holds (listen_tcp net m)
  unfolding listen_tcp
  listen-Holds m h = ground (arith, h)

  create_client_udp-Holds :
      (id : ℕ) (i : ClientInfo) (s : Session net) (m : TcpManager net)
      → Holds m
      → Holds (record m { cl = assign id s m.cl; udp = create_client_udp net id i m.udp })
  unfolding create_client_udp
  create_client_udp-Holds id i s m h = h

  on_accept-Holds :
      (a : Option (net.Socket × Option ClientInfo)) (m : TcpManager net)
      → Holds m
      → Ensures Holds (on_accept net host a m)
  unfolding on_accept
  on_accept-Holds none m h = Ensures-done Holds (listen-Holds (record m { accepting = false }) h)
  on_accept-Holds (some (socket, none)) m h =
      Ensures-done Holds (listen-Holds (record m { accepting = false }) h)
  on_accept-Holds (some (socket, some i)) m h =
      Ensures-bind Holds Holds (on_signals net host _ _) _
        (on_signals-Holds (new_session net socket m.next_id).1 (record m { accepting = false }) h)
        λ logged h'.
          Ensures-bind Holds Holds (create_client net host m.next_id i _) _
            (create_client-Holds m.next_id i _
              (create_client_udp-Holds m.next_id i (new_session net socket m.next_id).0 logged h'))
            (λ created h''.
              Ensures-done Holds
                (listen-Holds (record created { next_id = u32 (m.next_id + 1) }) h''))

  step-Holds :
      IsAsio net
      → (event : Event net) (m : TcpManager net) → Holds m
      → Ensures Holds (step net host event m)
  unfolding step on_size_read on_body_read on_timer on_timer_error receive_failed start_test on_sent
  step-Holds assumed (accepted a) m h = on_accept-Holds a m h
  step-Holds assumed (size_read id c) m h = run_session-Holds id (on_size net host c) m h
  step-Holds assumed (body_read id c) m h = run_session-Holds id (on_body net host c) m h
  step-Holds assumed (datagram bytes) m h =
      Ensures-bind (HoldsUdp net host size) Holds (receive_datagram net host bytes m.udp) _
        (receive_datagram-Keeps net host _ (Holds-IsKept net host size assumed) bytes m.udp h)
        (λ u k. Ensures-done Holds {a = record m { udp = u }} k)
  step-Holds assumed (datagram_failed ec) m h = Ensures-done Holds h
  step-Holds assumed (datagram_sent none) m h = Ensures-done Holds h
  step-Holds assumed (datagram_sent (some ec)) m h = Ensures-done Holds h
  step-Holds assumed (frame_written ec n) m h =
      Ensures-weaken (Same m) Holds (on_frame_written net host ec n m)
        (λ m' same. Holds-Same h same) (on_frame_written-Same net host ec n m)
  step-Holds assumed (timer_fired time) m h =
      Ensures-bind (HoldsUdp net host size) Holds (broadcast_udp net host _ _ m.udp) _
        (broadcast_udp-Keeps net host _ (Holds-IsKept net host size assumed) _ _ m.udp h)
        (λ u k. Ensures-done Holds {a = record m { timer = true; udp = u }} k)
  step-Holds assumed (timer_failed ec) m h = Ensures-done Holds h

  pub run-Holds :
      IsAsio net
      → (events : List (Event net)) (m : TcpManager net) → Holds m
      → Ensures Holds (run net host events m)
  unfolding run
  run-Holds assumed [] m h = Ensures-done Holds h
  run-Holds assumed (event ∷ events) m h =
      Ensures-bind Holds Holds (step net host event m) (run net host events)
        (step-Holds assumed event m h) (run-Holds assumed events)

-- ===== src/Server/Tcp/Entering.antt =====
-- A server that takes a client in is in the next room.
use p2p_watcher.Base.{
  ℕ, ◌≡◌, refl, ap, ◌+◌, Bool-cases, false, List, Option, none, some, inl, inr, All, arith, Ensures,
  Ensures-bind, Ensures-done,
}
use p2p_watcher.Base.Maps.{assign}
use p2p_watcher.Network.{Asio}
use p2p_watcher.Protocol.Wire.{Endian, u32}
use p2p_watcher.Protocol.GroupData.{TcpType}
use p2p_watcher.Server.Logger.{info}
use p2p_watcher.Server.Session.{Session, do_send, start_session, new_session}
use p2p_watcher.Server.Udp.{ClientInfo, create_client_udp}
use p2p_watcher.Server.Tcp.{
  TcpManager, listen_tcp, on_signal, on_signals, run_session, create_client, on_accept,
}
use p2p_watcher.Server.Tcp.Same.{Same, IsQuiet}
use p2p_watcher.Server.Tcp.Clients.{has-assign}
use p2p_watcher.Server.Tcp.Events.{accepted}
use p2p_watcher.Server.Tcp.Room.{Room, enter, next_room}
use p2p_watcher.Server.Tcp.Inside.{IsIn, IsIn-Same, own-assign, run_session-IsIn, logged-IsIn}

module _ (net : Asio) (host : Endian) where
  -- The two tables and the counter after a new client.
  entered-IsIn :
      (r : Room) (s : Session net) (i : ClientInfo) (m : TcpManager net)
      → s.cur_client_id ≡ m.next_id
      → IsIn r m
      → IsIn
          (record { members = (enter r).members; next = r.next })
          (record m { cl = assign m.next_id s m.cl; udp = create_client_udp net m.next_id i m.udp })
  unfolding create_client_udp
  entered-IsIn r s i m own h = record {
    tcp = λ k. ground (arith, h.tcp k, h.counter, has-assign m.next_id k s m.cl);
    udp = λ k. ground (arith, h.udp k, h.counter, has-assign m.next_id k i m.udp.cl);
    counter = h.counter;
    own = λ k t f. own-assign net host m.next_id k s t m.cl own h.own f;
  }

  do_send-IsQuiet :
      (dtype : TcpType) (buffer : List ℕ) (s : Session net)
      → All (IsQuiet net host) (do_send net host dtype buffer s).1
  unfolding do_send
  do_send-IsQuiet dtype buffer s = elim (Bool-cases (net.is_open s.socket)) [
    | inl e ↦ rw e tt
    | inr e ↦ rw e (tt, tt)
  ]

  do_send-keeps :
      (dtype : TcpType) (buffer : List ℕ) (s : Session net)
      → (do_send net host dtype buffer s).0.cur_client_id ≡ s.cur_client_id
  unfolding do_send
  do_send-keeps dtype buffer s = ground arith

  create_client-IsIn :
      (r : Room) (id : ℕ) (i : ClientInfo) (m : TcpManager net)
      → IsIn r m
      → Ensures (IsIn r) (create_client net host id i m)
  unfolding create_client start_session
  create_client-IsIn r id i m h =
      Ensures-bind (IsIn r) (IsIn r) (run_session net host id _ m) _
        (run_session-IsIn net host r id _ m (λ s. do_send-keeps _ _ s) (λ s. do_send-IsQuiet _ _ s)
          h)
        λ m' h'.
          Ensures-bind (IsIn r) (IsIn r) (run_session net host id _ m') _
            (run_session-IsIn net host r id _ m' (λ s. refl) (λ s. tt) h')
            (λ m'' h''. Ensures-done (IsIn r) (logged-IsIn net host r info _ m'' h''))

  listen-Same : (m : TcpManager net) → Same m (listen_tcp net m)
  unfolding listen_tcp
  listen-Same m = record {
    tcp = ground arith;
    udp = ground arith;
    counter = ground arith;
    buffer = ground arith;
    socket = ground arith;
  }

  -- The handler that takes a client in.
  on_accept-enters :
      (r : Room) (socket : net.Socket) (i : ClientInfo) (m : TcpManager net)
      → IsIn r m
      → Ensures (IsIn (enter r)) (on_accept net host (some (socket, some i)) m)
  unfolding on_accept new_session on_signals on_signal
  on_accept-enters r socket i m h =
      let inside : Room = record r { members = (enter r).members } in
      Ensures-bind (IsIn inside) (IsIn (enter r)) (create_client net host m.next_id i _) _
        (create_client-IsIn inside m.next_id i _ (
          entered-IsIn r (new_session net socket m.next_id).0 i _ refl
            (record { tcp = h.tcp; udp = h.udp; counter = h.counter; own = h.own })))
        (λ created h'. Ensures-done (IsIn (enter r)) (
          IsIn-Same net host (enter r) (record created { next_id = u32 (m.next_id + 1) }) _
            (record {
              tcp = h'.tcp;
              udp = h'.udp;
              counter = ap (λ n. u32 (n + 1)) h.counter;
              own = h'.own;
            })
            (listen-Same (record created { next_id = u32 (m.next_id + 1) }))))

  shut_and_listen : (m : TcpManager net) → Same m (listen_tcp net (record m { accepting = false }))
  unfolding listen_tcp
  shut_and_listen m = record {
    tcp = ground arith;
    udp = ground arith;
    counter = ground arith;
    buffer = ground arith;
    socket = ground arith;
  }

  pub on_accept-IsIn :
      (r : Room) (a : Option (net.Socket × Option ClientInfo)) (m : TcpManager net)
      → IsIn r m
      → Ensures (IsIn (next_room {net = net} (accepted a) r)) (on_accept net host a m)
  unfolding on_accept
  on_accept-IsIn r none m h = Ensures-done (IsIn r) (IsIn-Same net host r m _ h (shut_and_listen m))
  on_accept-IsIn r (some (socket, none)) m h =
      Ensures-done (IsIn r) (IsIn-Same net host r m _ h (shut_and_listen m))
  on_accept-IsIn r (some (socket, some i)) m h = on_accept-enters r socket i m h

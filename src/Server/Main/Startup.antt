-- ===== src/Server/Main/Startup.antt =====
-- What the server is once it has started, and what it keeps from then on.
use p2p_watcher.Base.{
  length, length-replicate, ℕ, ◌≡◌, refl, true, List, [], done, arith, Ensures, Ensures-bind,
  Ensures-done, Ensures-after, Ensures-if, or_throw, replicate, ◌∷◌,
}
use p2p_watcher.Network.{Asio}
use p2p_watcher.Protocol.Wire.{Endian}
use p2p_watcher.Server.Udp.{UdpManager, open_udp, listen_udp}
use p2p_watcher.Server.Tcp.{TcpManager, open_tcp, listen_tcp, start_test}
use p2p_watcher.Base.Maps.{find}
use p2p_watcher.Protocol.Assembly.{idle}
use p2p_watcher.Console.{literal}
use p2p_watcher.Server.Tcp.Clients.{InStep}
use p2p_watcher.Server.Tcp.Events.{Event, run, run-InStep}
use p2p_watcher.Server.Tcp.Room.{empty_room, run_room}
use p2p_watcher.Server.Tcp.Inside.{IsIn}
use p2p_watcher.Server.Tcp.Refinement.{run-IsIn}
use p2p_watcher.Protocol.Packet.{server_port}
use p2p_watcher.Server.Main.{
  asio, new_tcp, new_udp, factory_method, execute, server_addr, serve_forever,
}

module _ (net : Asio) (host : Endian) where
  -- The server that has started, with these sockets.
  abbrev pub started : net.Socket → net.Socket → TcpManager net
  started udp_socket acceptor = record {
    acceptor = acceptor;
    accepting = true;
    udp = record {
      socket = udp_socket;
      receiving = true;
      buffer = replicate 1472 0;
      cl = [];
      assembly = idle;
      sent = [];
      console = record {
        out =
            literal "initialization AsioUdpManager..."
            ∷ literal "initialization AsioTcpManager..."
            ∷ literal "listen!"
            ∷ [];
        err = [];
      };
    };
    cl = [];
    next_id = 0;
    timer = true;
  }

  -- No client is known, and the receive buffer has its size.
  abbrev IsFresh : UdpManager net → Type 0
  IsFresh u = (u.cl ≡ []) × (length u.buffer ≡ 1472)

  open_udp-IsFresh :
      (addr : List ℕ) (port : ℕ) → Ensures IsFresh (open_udp net addr port (new_tcp net).udp)
  unfolding open_udp new_tcp new_udp
  open_udp-IsFresh addr port =
      Ensures-if IsFresh (net.is_open net.new_socket) _ _
        (Ensures-done IsFresh (refl, length-replicate {A = ℕ} 1472 0))
        (Ensures-after IsFresh (or_throw (net.make_address addr)) _ λ address.
          Ensures-after IsFresh (net.open_socket net.new_socket) _ λ opened.
            Ensures-after IsFresh (net.set_reuse opened) _ λ reusing.
              Ensures-after IsFresh (net.bind address port reusing) _
                λ bound. Ensures-done IsFresh (refl, length-replicate {A = ℕ} 1472 0))

  -- Neither table has a client, the first one gets the id 0, and the receive buffer has its size.
  abbrev pub Deserted : TcpManager net → Type 0
  Deserted m = (m.cl ≡ []) × (m.udp.cl ≡ []) × (m.next_id ≡ 0) × (length m.udp.buffer ≡ 1472)

  listening_fresh : (u : UdpManager net) → u.cl ≡ [] → (listen_udp net u).cl ≡ []
  unfolding listen_udp
  listening_fresh u h = ground (arith, h)

  listening_whole :
      (u : UdpManager net) → length u.buffer ≡ 1472 → length (listen_udp net u).buffer ≡ 1472
  unfolding listen_udp
  listening_whole u h = ground (arith, h)

  pub open_tcp-Deserted :
      (addr : List ℕ) (port : ℕ) → Ensures Deserted (open_tcp net addr port (new_tcp net))
  unfolding open_tcp new_tcp
  open_tcp-Deserted addr port =
      Ensures-bind IsFresh Deserted (open_udp net addr port (new_tcp net).udp) _
        (open_udp-IsFresh addr port)
        λ u h.
          Ensures-if Deserted (net.is_open net.new_socket) _ _
            (Ensures-done Deserted (refl, listening_fresh u h.0, refl, listening_whole u h.1))
            (Ensures-after Deserted (or_throw (net.make_address addr)) _ λ address.
              Ensures-after Deserted (net.open_socket net.new_socket) _ λ opened.
                Ensures-after Deserted (net.set_reuse opened) _ λ reusing.
                  Ensures-after Deserted (net.bind address port reusing) _ λ bound.
                    Ensures-after Deserted (net.start_listening bound) _ λ listening.
                      Ensures-done Deserted
                        (refl, listening_fresh u h.0, refl, listening_whole u h.1))

  Deserted-InStep :
      (m : TcpManager net) → Deserted m → InStep net (start_test net host (listen_tcp net m))
  unfolding listen_tcp start_test find
  Deserted-InStep m (none_here, none_there, first, whole) k = ground (arith, none_here, none_there)

  -- What the started server has, and what its events make of it.
  pub serve_forever-from :
      (S P Q : TcpManager net → Type 0) (events : List (Event net))
      → Ensures S (open_tcp net server_addr server_port (new_tcp net))
      → ((m : TcpManager net) → S m → P (start_test net host (listen_tcp net m)))
      → ((m : TcpManager net) → P m → Ensures Q (run net host events m))
      → Ensures Q (serve_forever net host true events)
  unfolding serve_forever execute factory_method
  serve_forever-from S P Q events opened starts goes_on =
      Ensures-bind P Q (execute net host asio server_addr server_port) (run net host events)
        (Ensures-bind S P (open_tcp net server_addr server_port (new_tcp net)) _ opened
          (λ m h. Ensures-done P (starts m h)))
        goes_on

  -- From its start as the AsioCreator on, whatever completes and in whatever order, the server's
  -- TCP and UDP tables hold the same clients, as long as nothing throws or meets undefined
  -- behaviour.
  pub serve_forever-InStep :
      (events : List (Event net)) (m : TcpManager net)
      → serve_forever net host true events ≡ done m
      → InStep net m
  serve_forever-InStep events m e =
      (serve_forever-from Deserted (InStep net) (InStep net) events
          (open_tcp-Deserted server_addr server_port) Deserted-InStep
          (λ started h. record {
            result = λ m' e'. run-InStep net host events started m' h e';
          })).result
        m e

  Deserted-IsIn :
      (m : TcpManager net) → Deserted m → IsIn empty_room (start_test net host (listen_tcp net m))
  unfolding listen_tcp start_test find
  Deserted-IsIn m (none_here, none_there, first, whole) = record {
    tcp = λ k. ground (arith, none_here, none_there);
    udp = λ k. ground (arith, none_here, none_there);
    counter = ground (arith, first);
    own = λ k s e. ground (arith, none_here, e);
  }

  -- From its start as the AsioCreator on, whatever completes and in whatever order, the server is
  -- in the room that these events lead to from the empty one: both of its tables hold exactly the
  -- members of that room, the next client gets the id that the room says, and each session has
  -- the id that it stands under, as long as nothing throws or meets undefined behaviour. In a room
  -- only a client that connects and one that closes its connection between two frames count.
  pub serve_forever-refines :
      (events : List (Event net)) (m : TcpManager net)
      → serve_forever net host true events ≡ done m
      → IsIn (run_room events empty_room) m
  serve_forever-refines events m e =
      (serve_forever-from Deserted (IsIn empty_room) (IsIn (run_room events empty_room)) events
          (open_tcp-Deserted server_addr server_port) Deserted-IsIn
          (run-IsIn net host events empty_room)).result
        m e
